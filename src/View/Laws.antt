-- ===== src/View/Laws.antt =====
-- Accesses inside a view neither fault nor leave it.
use modbus_basic.Common.{
  ℕ, zero, suc, ◌+◌, ◌*◌, ◌/◌, ◌%◌, ◌≤◌, ◌<◌, ◌≡◌, refl, List, [], ◌∷◌, ok, err, out_of_bounds,
  length, get_or, set, range, arith, length-set, get_elem?-eq-get_or, get_elem?-eq-none, IsByte,
  get_or-IsByte, set-IsByte, All,
}
use native.Mathlib.Nat.{zero-add}
use modbus_basic.External.{External, IsExternal}
use modbus_basic.View.{
  View, IsInside, load, store, load_range, view_get, view_set, put_word, view_assign, read_uint16,
  sub_view,
}

pub load_lem : (xs : List ℕ) (i : ℕ) → i < length xs → load xs i ≡ ok (get_or xs i 0)
unfolding load
load_lem xs i h = ground (arith, get_elem?-eq-get_or xs i 0)

pub load_outside : (xs : List ℕ) (i : ℕ) → length xs ≤ i → load xs i ≡ err out_of_bounds
unfolding load
load_outside xs i h = ground (arith, get_elem?-eq-none xs i)

pub store_lem {ℓ} :
    {A : Type ℓ} (xs : List A) (i : ℕ) (v : A) → i < length xs → store xs i v ≡ ok (set xs i v)
unfolding store
store_lem xs i v h = ground arith

pub store_outside {ℓ} :
    {A : Type ℓ} (xs : List A) (i : ℕ) (v : A) → length xs ≤ i → store xs i v ≡ err out_of_bounds
unfolding store
store_outside xs i v h = ground arith

pub load_range_lem :
    (xs : List ℕ) (i n : ℕ) → i + n ≤ length xs → load_range xs i n ≡ ok (range xs i n)
unfolding load_range
load_range_lem xs i zero h = refl
load_range_lem xs i (suc n) h = ground (arith, load_lem xs i, load_range_lem xs (suc i) n)

-- The assignments, made on the array itself.
abbrev pub set_all : List ℕ → List (ℕ × ℕ) → List ℕ
set_all xs [] = xs
set_all xs ((i, b) ∷ rest) = set_all (set xs i b) rest

-- Every assignment lies below `n`.
abbrev pub AllBelow : ℕ → List (ℕ × ℕ) → Type 0
AllBelow n = All (λ p. p.0 < n)

pub length-set_all : (xs : List ℕ) (ws : List (ℕ × ℕ)) → length (set_all xs ws) ≡ length xs
length-set_all xs [] = refl
length-set_all xs ((i, b) ∷ rest) =
    omega (arith, length-set_all (set xs i b) rest, length-set {0} xs i b)

module _ (x : External) (laws : IsExternal x) where
  pub view_get_lem :
      (v : View) (i : ℕ)
      → IsInside v
      → i < v.size
      → view_get x v i ≡ ok (get_or v.storage (v.start + i) 0)
  unfolding view_get
  view_get_lem v i w h = ground (arith, laws.inside v.size i, load_lem v.storage (v.start + i))

  pub view_set_lem :
      (v : View) (i b : ℕ)
      → IsInside v
      → i < v.size
      → view_set x v i b ≡ ok (record v { storage = set v.storage (v.start + i) b })
  unfolding view_set
  view_set_lem v i b w h = ground (arith, laws.inside v.size i, store_lem v.storage (v.start + i) b)

  pub put_word_lem :
      (v : View) (i word : ℕ)
      → IsInside v
      → suc i < v.size
      → put_word x v i word
        ≡ ok (record v {
          storage =
              set (set v.storage (v.start + i) (word / 256 % 256)) (suc (v.start + i)) (word % 256);
        })
  unfolding put_word
  put_word_lem v i word w h = rw (
    view_set_lem v i (x.get_byte word 1) w (omega arith),
    view_set_lem first (i + 1) (x.get_byte word 0)
        (omega (arith, length-set {0} v.storage (v.start + i) (x.get_byte word 1))) (omega arith),
    laws.high_byte,
    laws.low_byte,
    next,
  )
    where
      first : View
      first = record v { storage = set v.storage (v.start + i) (x.get_byte word 1) }

      next : v.start + (i + 1) ≡ suc (v.start + i)
      next = omega arith

  pub view_assign_lem :
      (n : ℕ) (xs : List ℕ) (ws : List (ℕ × ℕ))
      → length xs ≡ n
      → AllBelow n ws
      → view_assign x (record { storage = xs; start = 0; size = n }) ws
        ≡ ok (record { storage = set_all xs ws; start = 0; size = n })
  unfolding view_assign
  view_assign_lem n xs [] e h = refl
  view_assign_lem n xs ((i, b) ∷ rest) e h =
      rw (view_set_lem (record { storage = xs; start = 0; size = n }) i b (omega arith) h.0) (
        rw zero-add
          (view_assign_lem n (set xs i b) rest (omega (arith, length-set {0} xs i b)) h.1))

  pub read_uint16_lem :
      (v : View) (i : ℕ)
      → IsInside v
      → suc i < v.size
      → All IsByte v.storage
      → read_uint16 x v i
        ≡ ok (get_or v.storage (v.start + i) 0 * 256 + get_or v.storage (v.start + i + 1) 0)
  unfolding read_uint16
  read_uint16_lem v i w h b = ground (
    arith,
    laws.inside v.size i,
    load_lem v.storage (v.start + i),
    load_lem v.storage (v.start + i + 1),
    laws.msb_first (get_or v.storage (v.start + i) 0) (get_or v.storage (v.start + i + 1) 0),
    get_or-IsByte v.storage (v.start + i) b,
    get_or-IsByte v.storage (v.start + i + 1) b,
  )

  pub sub_view_lem :
      (v : View) (i n : ℕ)
      → i < v.size
      → sub_view x v i n ≡ ok (record { storage = v.storage; start = v.start + i; size = n })
  unfolding sub_view
  sub_view_lem v i n h = rw (laws.inside v.size i h)

pub set_all-IsByte :
    (xs : List ℕ) (ws : List (ℕ × ℕ))
    → All IsByte xs
    → All (λ p. IsByte p.1) ws
    → All IsByte (set_all xs ws)
set_all-IsByte xs [] h k = h
set_all-IsByte xs ((i, b) ∷ rest) h k =
    set_all-IsByte (set xs i b) rest (set-IsByte xs i b h k.0) k.1
