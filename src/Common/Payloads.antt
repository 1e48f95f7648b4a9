-- ===== src/Common/Payloads.antt =====
-- Words as they stand in a list of bytes with something before and behind them.
use Prim.Native.Nat.{ℕ, zero, suc, ◌+◌, ◌*◌, ◌/◌, ◌%◌, ◌<◌}
use mathlib.Core.Path.{◌≡◌, refl, ap, ap₂, ◌∙◌}
use mathlib.Core.List.{List, [], ◌∷◌, ◌++◌}
use native.Mathlib.Omega.{arith}
use native.Mathlib.Nat.{add-zero, zero-add}
use modbus_basic.Common.Lists.{length, get_or, set, All}
use modbus_basic.Common.Words.{IsWord, bytes_of_word}
use modbus_basic.Common.Ranges.{words_at, encode_words, write_at, range, range-eq}

pub get_or-append_left :
    (xs ys : List ℕ) (i : ℕ) → i < length xs → get_or (xs ++ ys) i 0 ≡ get_or xs i 0
get_or-append_left [] ys i h = absurd (omega arith)
get_or-append_left (x ∷ xs) ys zero h = refl
get_or-append_left (x ∷ xs) ys (suc i) h = get_or-append_left xs ys i (omega arith)

-- Words are the same wherever their bytes are.
pub words_at-eq :
    (xs ys : List ℕ) (i j n : ℕ)
    → ((k : ℕ) → k < 2 * n → get_or xs (i + k) 0 ≡ get_or ys (j + k) 0)
    → words_at xs i n ≡ words_at ys j n
words_at-eq xs ys i j zero h = refl
words_at-eq xs ys i j (suc n) h =
    ap₂ ◌∷◌
      (ap₂ (λ a b. a * 256 + b) (rw (add-zero i, add-zero j) at (h 0 (omega arith)))
        (rw (next i, next j) at (h 1 (omega arith))))
      (words_at-eq xs ys (suc (suc i)) (suc (suc j)) n
        λ k p. rw (further i k, further j k) (h (suc (suc k)) (omega arith)))
  where
    next : (k : ℕ) → k + 1 ≡ suc k
    next k = omega arith

    further : (m k : ℕ) → suc (suc m) + k ≡ m + suc (suc k)
    further m k = omega arith

words_at-cons : (b : ℕ) (xs : List ℕ) (i n : ℕ) → words_at (b ∷ xs) (suc i) n ≡ words_at xs i n
words_at-cons b xs i zero = refl
words_at-cons b xs i (suc n) =
    ap (λ t. (get_or xs i 0 * 256 + get_or xs (suc i) 0) ∷ t) (words_at-cons b xs (suc (suc i)) n)

-- The words that were encoded at the beginning of a list, and behind five bytes.
words_at-encode_words :
    (ws rest : List ℕ) → All IsWord ws → words_at (encode_words ws ++ rest) 0 (length ws) ≡ ws
words_at-encode_words [] rest h = refl
words_at-encode_words (w ∷ ws) rest h = ap₂ ◌∷◌ (bytes_of_word w h.0) (
    words_at-cons (w / 256 % 256) (w % 256 ∷ (encode_words ws ++ rest)) 1 (length ws)
    ∙ words_at-cons (w % 256) (encode_words ws ++ rest) 0 (length ws)
    ∙ words_at-encode_words ws rest h.1)

pub words_at-behind_five :
    (a b c d e : ℕ) (ws rest : List ℕ)
    → All IsWord ws
    → words_at (a ∷ b ∷ c ∷ d ∷ e ∷ encode_words ws ++ rest) 5 (length ws) ≡ ws
words_at-behind_five a b c d e ws rest h =
    words_at-cons a (b ∷ c ∷ d ∷ e ∷ encode_words ws ++ rest) 4 (length ws)
    ∙ words_at-cons b (c ∷ d ∷ e ∷ encode_words ws ++ rest) 3 (length ws)
    ∙ words_at-cons c (d ∷ e ∷ encode_words ws ++ rest) 2 (length ws)
    ∙ words_at-cons d (e ∷ encode_words ws ++ rest) 1 (length ws)
    ∙ words_at-cons e (encode_words ws ++ rest) 0 (length ws)
    ∙ words_at-encode_words ws rest h

pub words_at-behind_three :
    (a b c : ℕ) (ws rest : List ℕ)
    → All IsWord ws
    → words_at (a ∷ b ∷ c ∷ encode_words ws ++ rest) 3 (length ws) ≡ ws
words_at-behind_three a b c ws rest h =
    words_at-cons a (b ∷ c ∷ encode_words ws ++ rest) 2 (length ws)
    ∙ words_at-cons b (c ∷ encode_words ws ++ rest) 1 (length ws)
    ∙ words_at-cons c (encode_words ws ++ rest) 0 (length ws)
    ∙ words_at-encode_words ws rest h

-- Two lists written one behind the other.
pub write_at-append :
    (xs : List ℕ) (i : ℕ) (bs cs : List ℕ)
    → write_at xs i (bs ++ cs) ≡ write_at (write_at xs i bs) (i + length bs) cs
write_at-append xs i [] cs = rw add-zero
write_at-append xs i (b ∷ bs) cs =
    let place : i + suc (length bs) ≡ suc i + length bs = omega arith in
    rw place (write_at-append (set xs i b) (suc i) bs cs)

range-behind : (x : ℕ) (xs : List ℕ) (i n : ℕ) → range (x ∷ xs) (suc i) n ≡ range xs i n
range-behind x xs i zero = refl
range-behind x xs i (suc n) = ap (λ t. get_or xs i 0 ∷ t) (range-behind x xs (suc i) n)

pub range-whole : (xs : List ℕ) → range xs 0 (length xs) ≡ xs
range-whole [] = refl
range-whole (x ∷ xs) = ap (λ t. x ∷ t) (range-behind x xs 0 (length xs) ∙ range-whole xs)

-- What stands before something else.
pub range-append_left : (bs cs : List ℕ) → range (bs ++ cs) 0 (length bs) ≡ bs
range-append_left bs cs =
    range-eq (bs ++ cs) bs 0 0 (length bs) (λ k p. rw (zero-add k) (get_or-append_left bs cs k p))
    ∙ range-whole bs
