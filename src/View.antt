-- ===== src/View.antt =====
-- Raw memory, and `ArrayView<uint8_t>`, a window of `size` elements onto an array. The view carries
-- the array that it points into, and a write through it returns the view with the array changed.
pub mod Laws
pub mod Beyond
pub mod Runs
use modbus_basic.Common.{
  ℕ, zero, suc, ◌+◌, ◌≤◌, List, [], ◌∷◌, Option, none, some, Result, ok, err, out_of_bounds, ◌>>=◌,
  length, get_elem?, set, Bool, ltb, if◌then◌else◌,
}
use modbus_basic.External.{External}

-- A read and a write through a raw pointer or `std::array::operator[]`.
pub load : List ℕ → ℕ → Result ℕ
load xs i = elim (get_elem? xs i) [ none ↦ err out_of_bounds | some v ↦ ok v ]

pub store {ℓ} : {A : Type ℓ} → List A → ℕ → A → Result (List A)
store xs i v = if ltb i (length xs) then ok (set xs i v) else err out_of_bounds

-- The `n` bytes from index `i` on.
pub load_range : List ℕ → ℕ → ℕ → Result (List ℕ)
load_range xs i zero = ok []
load_range xs i (suc n) = do b ← load xs i; bs ← load_range xs (suc i) n; ok (b ∷ bs)

pub record View : Type 0 where
  pub storage : List ℕ
  pub start : ℕ
  pub size : ℕ

-- The view of a whole array.
abbrev pub view_of : List ℕ → View
view_of xs = record { storage = xs; start = 0; size = length xs }

-- The window lies inside the array.
abbrev pub IsInside : View → Type 0
IsInside v = v.start + v.size ≤ length v.storage

module _ (x : External) where
  unfoldable pub view_get : View → ℕ → Result ℕ
  view_get v i = do j ← x.view_index v.size i; load v.storage (v.start + j)

  unfoldable pub view_set : View → ℕ → ℕ → Result View
  view_set v i b = do
    j ← x.view_index v.size i
    s ← store v.storage (v.start + j) b
    ok (record v { storage = s })

  -- Assignments to elements of a view, in order.
  pub view_assign : View → List (ℕ × ℕ) → Result View
  view_assign v [] = ok v
  view_assign v ((i, b) ∷ rest) = do v' ← view_set v i b; view_assign v' rest

  -- `v[i] = GetByte(word, 1); v[i + 1] = GetByte(word, 0)`
  pub put_word : View → ℕ → ℕ → Result View
  put_word v i word = do
    hi ← view_set v i (x.get_byte word 1)
    view_set hi (i + 1) (x.get_byte word 0)

  -- `ArrayView{n, &v[i]}`
  pub sub_view : View → ℕ → ℕ → Result View
  sub_view v i n = do
    j ← x.view_index v.size i
    ok (record { storage = v.storage; start = v.start + j; size = n })

  -- `Utilities::Make_MSB_uint16_tFromU8Array(v)` of a view of two bytes.
  pub make_msb : View → Result ℕ
  make_msb v = do
    hi ← load v.storage v.start
    lo ← load v.storage (v.start + 1)
    ok (x.make_msb_uint16 hi lo)

  -- `Utilities::Make_MSB_uint16_tFromU8Array(ArrayView<const uint8_t>{sizeof(uint16_t), &v[i]})`
  pub read_uint16 : View → ℕ → Result ℕ
  unfolding sub_view make_msb
  read_uint16 v i = do w ← sub_view v i 2; make_msb w
