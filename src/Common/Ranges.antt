-- ===== src/Common/Ranges.antt =====
-- Stretches of an array of bytes or registers: reading one, writing one, and the two together.
use Prim.Native.Nat.{ℕ, zero, suc, ◌+◌, ◌*◌, ◌/◌, ◌%◌, ◌≤◌, ◌<◌}
use mathlib.Core.Path.{◌≡◌, refl, ap, ap₂, ◌∙◌}
use mathlib.Core.Logic.{◌⊎◌}
use mathlib.Core.List.{List, [], ◌∷◌, ◌++◌}
use native.Mathlib.Nat.{add-zero, zero-add}
use native.Mathlib.Omega.{arith}
use modbus_basic.Common.Lists.{length, get_or, set, All, length-set, get_or-set_self, get_or-set_ne}
use modbus_basic.Common.Words.{IsWord, IsByte, bytes_of_word, get_or-IsByte, set-IsByte}

-- The `n` entries from index `i` on, 0 past the end.
abbrev pub range : List ℕ → ℕ → ℕ → List ℕ
range xs i zero = []
range xs i (suc n) = get_or xs i 0 ∷ range xs (suc i) n

-- The array with a list written over it from index `i` on.
abbrev pub write_at : List ℕ → ℕ → List ℕ → List ℕ
write_at xs i [] = xs
write_at xs i (b ∷ bs) = write_at (set xs i b) (suc i) bs

-- The bytes of 16-bit words, high byte first.
abbrev pub encode_words : List ℕ → List ℕ
encode_words [] = []
encode_words (w ∷ ws) = w / 256 % 256 ∷ w % 256 ∷ encode_words ws

-- The `n` words whose bytes, high byte first, stand from index `i` on.
abbrev pub words_at : List ℕ → ℕ → ℕ → List ℕ
words_at xs i zero = []
words_at xs i (suc n) = (get_or xs i 0 * 256 + get_or xs (suc i) 0) ∷ words_at xs (suc (suc i)) n

pub length-range : (xs : List ℕ) (i n : ℕ) → length (range xs i n) ≡ n
length-range xs i zero = refl
length-range xs i (suc n) = ap suc (length-range xs (suc i) n)

pub length-words_at : (xs : List ℕ) (i n : ℕ) → length (words_at xs i n) ≡ n
length-words_at xs i zero = refl
length-words_at xs i (suc n) = ap suc (length-words_at xs (suc (suc i)) n)

pub length-write_at : (xs : List ℕ) (i : ℕ) (bs : List ℕ) → length (write_at xs i bs) ≡ length xs
length-write_at xs i [] = refl
length-write_at xs i (b ∷ bs) =
    omega (arith, length-write_at (set xs i b) (suc i) bs, length-set {0} xs i b)

pub length-encode_words : (ws : List ℕ) → length (encode_words ws) ≡ 2 * length ws
length-encode_words [] = refl
length-encode_words (w ∷ ws) = omega (arith, length-encode_words ws)

-- A write leaves what stands before it and behind it.
pub get_or-write_at_below :
    (xs : List ℕ) (i : ℕ) (bs : List ℕ) (j : ℕ)
    → j < i
    → get_or (write_at xs i bs) j 0 ≡ get_or xs j 0
get_or-write_at_below xs i [] j h = refl
get_or-write_at_below xs i (b ∷ bs) j h =
    get_or-write_at_below (set xs i b) (suc i) bs j (omega arith)
    ∙ get_or-set_ne xs i j b 0 (omega arith)

pub get_or-write_at_above :
    (xs : List ℕ) (i : ℕ) (bs : List ℕ) (j : ℕ)
    → i + length bs ≤ j
    → get_or (write_at xs i bs) j 0 ≡ get_or xs j 0
get_or-write_at_above xs i [] j h = refl
get_or-write_at_above xs i (b ∷ bs) j h =
    get_or-write_at_above (set xs i b) (suc i) bs j (omega arith)
    ∙ get_or-set_ne xs i j b 0 (omega arith)

-- What was written reads back.
pub range-write_at :
    (xs : List ℕ) (i : ℕ) (bs : List ℕ)
    → i + length bs ≤ length xs
    → range (write_at xs i bs) i (length bs) ≡ bs
range-write_at xs i [] h = refl
range-write_at xs i (b ∷ bs) h =
    ap₂ ◌∷◌
      (get_or-write_at_below (set xs i b) (suc i) bs i (omega arith)
        ∙ get_or-set_self xs i b 0 (omega arith))
      (range-write_at (set xs i b) (suc i) bs (omega (arith, length-set {0} xs i b)))

-- The words of the bytes of words are the words.
pub words_at-write_at :
    (xs : List ℕ) (i : ℕ) (ws : List ℕ)
    → i + 2 * length ws ≤ length xs
    → All IsWord ws
    → words_at (write_at xs i (encode_words ws)) i (length ws) ≡ ws
words_at-write_at xs i [] h k = refl
words_at-write_at xs i (w ∷ ws) h k =
    ap₂ ◌∷◌ (ap₂ (λ hi lo. hi * 256 + lo) high low ∙ bytes_of_word w k.0)
      (words_at-write_at two (suc (suc i)) ws (omega (arith, lengths)) k.1)
  where
    one : List ℕ
    one = set xs i (w / 256 % 256)

    two : List ℕ
    two = set one (suc i) (w % 256)

    lengths : (length one ≡ length xs) × (length two ≡ length xs)
    lengths =
        omega (arith, length-set {0} xs i (w / 256 % 256), length-set {0} one (suc i) (w % 256))

    high : get_or (write_at two (suc (suc i)) (encode_words ws)) i 0 ≡ w / 256 % 256
    high =
        get_or-write_at_below two (suc (suc i)) (encode_words ws) i (omega arith)
        ∙ get_or-set_ne one (suc i) i (w % 256) 0 (omega arith)
        ∙ get_or-set_self xs i (w / 256 % 256) 0 (omega arith)

    low : get_or (write_at two (suc (suc i)) (encode_words ws)) (suc i) 0 ≡ w % 256
    low =
        get_or-write_at_below two (suc (suc i)) (encode_words ws) (suc i) (omega arith)
        ∙ get_or-set_self one (suc i) (w % 256) 0 (omega (arith, lengths))

pub range-IsByte : (xs : List ℕ) (i n : ℕ) → All IsByte xs → All IsByte (range xs i n)
range-IsByte xs i zero h = tt
range-IsByte xs i (suc n) h = (get_or-IsByte xs i h, range-IsByte xs (suc i) n h)

-- Words read as bytes are read from a stretch of bytes.
pub encode_words-words_at :
    (xs : List ℕ) (i n : ℕ) → All IsByte xs → encode_words (words_at xs i n) ≡ range xs i (2 * n)
encode_words-words_at xs i zero h = refl
encode_words-words_at xs i (suc n) h = rw double (
    ap₂ (λ a t. a ∷ t) (omega (arith, both))
      (ap₂ (λ a t. a ∷ t) (omega (arith, both)) (encode_words-words_at xs (suc (suc i)) n h)))
  where
    double : 2 * suc n ≡ suc (suc (2 * n))
    double = omega arith

    both : IsByte (get_or xs i 0) × IsByte (get_or xs (suc i) 0)
    both = (get_or-IsByte xs i h, get_or-IsByte xs (suc i) h)

suc-add : (i k : ℕ) → suc i + k ≡ i + suc k
suc-add i k = omega arith

pub range-eq :
    (xs ys : List ℕ) (i j n : ℕ)
    → ((k : ℕ) → k < n → get_or xs (i + k) 0 ≡ get_or ys (j + k) 0)
    → range xs i n ≡ range ys j n
range-eq xs ys i j zero h = refl
range-eq xs ys i j (suc n) h =
    ap₂ (λ a t. a ∷ t) (rw (add-zero i, add-zero j) at (h 0 (omega arith)))
      (range-eq xs ys (suc i) (suc j) n
        (λ k p. rw (suc-add i k, suc-add j k) (h (suc k) (omega arith))))

pub range-set_outside :
    (xs : List ℕ) (k v i n : ℕ) → (k < i) ⊎ (i + n ≤ k) → range (set xs k v) i n ≡ range xs i n
range-set_outside xs k v i n h =
    range-eq (set xs k v) xs i i n (λ j p. get_or-set_ne xs k (i + j) v 0 (omega arith))

pub range-append :
    (xs : List ℕ) (i m n : ℕ) → range xs i (m + n) ≡ range xs i m ++ range xs (i + m) n
range-append xs i zero n = rw (zero-add, add-zero)
range-append xs i (suc m) n =
    let count : suc m + n ≡ suc (m + n) = omega arith in
    rw (count, ← suc-add i m) (ap (λ t. get_or xs i 0 ∷ t) (range-append xs (suc i) m n))

pub range-write_at_below :
    (xs : List ℕ) (k : ℕ) (bs : List ℕ) (i n : ℕ)
    → i + n ≤ k
    → range (write_at xs k bs) i n ≡ range xs i n
range-write_at_below xs k bs i n h =
    range-eq (write_at xs k bs) xs i i n
      (λ j p. get_or-write_at_below xs k bs (i + j) (omega arith))

pub range-write_at_above :
    (xs : List ℕ) (k : ℕ) (bs : List ℕ) (i n : ℕ)
    → k + length bs ≤ i
    → range (write_at xs k bs) i n ≡ range xs i n
range-write_at_above xs k bs i n h =
    range-eq (write_at xs k bs) xs i i n
      (λ j p. get_or-write_at_above xs k bs (i + j) (omega arith))

pub set-write_at_above :
    (xs : List ℕ) (i : ℕ) (bs : List ℕ) (b : ℕ)
    → write_at xs i (bs ++ (b ∷ [])) ≡ set (write_at xs i bs) (i + length bs) b
set-write_at_above xs i [] b = rw add-zero
set-write_at_above xs i (c ∷ bs) b =
    let place : i + suc (length bs) ≡ suc i + length bs = omega arith in
    rw place (set-write_at_above (set xs i c) (suc i) bs b)

pub write_at-IsByte :
    (xs : List ℕ) (i : ℕ) (bs : List ℕ)
    → All IsByte xs
    → All IsByte bs
    → All IsByte (write_at xs i bs)
write_at-IsByte xs i [] h k = h
write_at-IsByte xs i (b ∷ bs) h k =
    write_at-IsByte (set xs i b) (suc i) bs (set-IsByte xs i b h k.0) k.1

pub encode_words-IsByte : (ws : List ℕ) → All IsByte (encode_words ws)
encode_words-IsByte [] = tt
encode_words-IsByte (w ∷ ws) = (omega arith, (omega arith, encode_words-IsByte ws))

pub append_split {ℓ} :
    {A : Type ℓ} (ws xs ys zs : List A)
    → length ws ≡ length ys
    → ws ++ xs ≡ ys ++ zs
    → (ws ≡ ys) × (xs ≡ zs)
append_split [] xs [] zs h e = (refl, e)
append_split [] xs (y ∷ ys) zs h e = absurd (omega arith)
append_split (w ∷ ws) xs [] zs h e = absurd (omega arith)
append_split (w ∷ ws) xs (y ∷ ys) zs h e =
    let (p, q) = append_split ws xs ys zs (omega arith) (cc) in (cc, q)

-- The last two of a stretch.
pub range_two :
    (xs : List ℕ) (n : ℕ)
    → range xs 0 (n + 2) ≡ range xs 0 n ++ (get_or xs n 0 ∷ get_or xs (suc n) 0 ∷ [])
range_two xs n = range-append xs 0 n 2 ∙ rw zero-add

pub get_or-range :
    (xs : List ℕ) (i n k : ℕ) → k < n → get_or (range xs i n) k 0 ≡ get_or xs (i + k) 0
get_or-range xs i zero k h = absurd (omega arith)
get_or-range xs i (suc n) zero h = rw add-zero
get_or-range xs i (suc n) (suc k) h = rw (← suc-add i k) (get_or-range xs (suc i) n k (omega arith))

pub get_or-write_at_inside :
    (xs : List ℕ) (i : ℕ) (bs : List ℕ) (k : ℕ)
    → k < length bs
    → i + length bs ≤ length xs
    → get_or (write_at xs i bs) (i + k) 0 ≡ get_or bs k 0
get_or-write_at_inside xs i [] k h w = absurd (omega arith)
get_or-write_at_inside xs i (b ∷ bs) zero h w = rw add-zero (
    get_or-write_at_below (set xs i b) (suc i) bs i (omega arith)
    ∙ get_or-set_self xs i b 0 (omega arith))
get_or-write_at_inside xs i (b ∷ bs) (suc k) h w = rw (← suc-add i k) (
    get_or-write_at_inside (set xs i b) (suc i) bs k (omega arith)
      (omega (arith, length-set {0} xs i b)))

-- A copied entry, and a copied stretch, read back.
pub get_or-write_at-range :
    (xs : List ℕ) (i : ℕ) (ys : List ℕ) (j m k : ℕ)
    → k < m
    → i + m ≤ length xs
    → get_or (write_at xs i (range ys j m)) (i + k) 0 ≡ get_or ys (j + k) 0
get_or-write_at-range xs i ys j m k h w =
    get_or-write_at_inside xs i (range ys j m) k (omega (arith, length-range ys j m))
      (omega (arith, length-range ys j m))
    ∙ get_or-range ys j m k h

pub range-write_at-range :
    (xs : List ℕ) (i : ℕ) (ys : List ℕ) (j m n : ℕ)
    → n ≤ m
    → i + m ≤ length xs
    → range (write_at xs i (range ys j m)) i n ≡ range ys j n
range-write_at-range xs i ys j m n h w =
    range-eq (write_at xs i (range ys j m)) ys i j n
      (λ k p. get_or-write_at-range xs i ys j m k (omega arith) w)
