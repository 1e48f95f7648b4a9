-- ===== src/Common/Words.antt =====
-- Fixed-width integers: casts that wrap, and the signed numbers that the receiver counts with.
use Prim.Native.Nat.{ℕ, zero, suc, ◌+◌, ◌-◌, ◌*◌, ◌/◌, ◌%◌, ◌^◌, ◌<◌}
use mathlib.Core.Path.{◌≡◌}
use mathlib.Core.Bool.{Bool, true, false}
use mathlib.Core.List.{List, [], ◌∷◌}
use native.Mathlib.Omega.{arith}
use modbus_basic.Common.Lists.{All, get_or, set, replicate}

abbrev pub u8 : ℕ → ℕ
u8 n = n % 256

abbrev pub u16 : ℕ → ℕ
u16 n = n % 65536

abbrev pub size_mod : ℕ
size_mod = 2 ^ 64

-- `std::size_t` arithmetic on a 64-bit target.
abbrev pub add_size : ℕ → ℕ → ℕ
add_size a b = (a + b) % size_mod

abbrev pub sub_size : ℕ → ℕ → ℕ
sub_size a b = (a + size_mod - b) % size_mod

abbrev pub mul_size : ℕ → ℕ → ℕ
mul_size a b = a * b % size_mod

abbrev pub IsByte : ℕ → Type 0
IsByte b = b < 256

abbrev pub IsWord : ℕ → Type 0
IsWord w = w < 65536

-- `negsuc n` is -(n + 1).
pub data ℤ : Type 0 where
  pos : ℕ → ℤ
  negsuc : ℕ → ℤ

-- `n--`
abbrev pub pred_ℤ : ℤ → ℤ
pred_ℤ (pos zero) = negsuc 0
pred_ℤ (pos (suc n)) = pos n
pred_ℤ (negsuc n) = negsuc (suc n)

-- `n <= 0`
abbrev pub nonpos : ℤ → Bool
nonpos (pos zero) = true
nonpos (pos (suc n)) = false
nonpos (negsuc n) = true

-- `n == 0`
abbrev pub is_zero : ℤ → Bool
is_zero (pos zero) = true
is_zero (pos (suc n)) = false
is_zero (negsuc n) = false

-- A word read from an array of words, 0 past its end.
pub get_or-IsWord : (xs : List ℕ) (i : ℕ) → All IsWord xs → IsWord (get_or xs i 0)
get_or-IsWord [] i h = omega arith
get_or-IsWord (x ∷ xs) zero h = h.0
get_or-IsWord (x ∷ xs) (suc i) h = get_or-IsWord xs i h.1

-- A byte read from an array of bytes, 0 past its end.
pub get_or-IsByte : (xs : List ℕ) (i : ℕ) → All IsByte xs → IsByte (get_or xs i 0)
get_or-IsByte [] i h = omega arith
get_or-IsByte (x ∷ xs) zero h = h.0
get_or-IsByte (x ∷ xs) (suc i) h = get_or-IsByte xs i h.1

pub set-IsByte : (xs : List ℕ) (i b : ℕ) → All IsByte xs → IsByte b → All IsByte (set xs i b)
set-IsByte [] i b h k = tt
set-IsByte (x ∷ xs) zero b h k = (k, h.1)
set-IsByte (x ∷ xs) (suc i) b h k = (h.0, set-IsByte xs i b h.1 k)

pub replicate-IsByte : (n b : ℕ) → IsByte b → All IsByte (replicate n b)
replicate-IsByte zero b h = tt
replicate-IsByte (suc n) b h = (h, replicate-IsByte n b h)

-- Two bytes make a word, and the high byte times 256 with the low byte is the word again.
pub IsWord-of_bytes : (hi lo : ℕ) → IsByte hi → IsByte lo → IsWord (hi * 256 + lo)
IsWord-of_bytes hi lo h k = omega arith

pub bytes_of_word : (w : ℕ) → IsWord w → w / 256 % 256 * 256 + w % 256 ≡ w
bytes_of_word w h = omega arith
