-- ===== src/Maps/Access.antt =====
-- examples/ConnectedDevice/common: what `SetField` and `GetField` of a map do together, from what each does
-- to the bytes of its fields.
use modbus_basic.Common.{
  ℕ, ◌≤◌, ◌<◌, ◌≡◌, List, [], Result, ok, length, get_or, set, range, write_at, All, IsByte, arith,
  get_or-set_self, get_or-set_ne, sym, ap, ◌∙◌, ◌==◌, ==_iff, if◌then◌else◌, Bool-cases, inl, inr,
}
use modbus_basic.View.{View, IsInside}

-- A map of registers with `count` fields, whose bytes are `contents`, each of the size at its index.
pub record Fields (R : Type 0) : Type 1 where
  pub set_field : R → ℕ → View → Result R
  pub get_field : R → ℕ → View → Result View
  pub contents : R → List (List ℕ)
  pub IsSized : R → Type 0
  pub count : ℕ
  pub size_at : ℕ → ℕ

module _ {R : Type 0} (f : Fields R) where
  -- The view with a list of bytes in it.
  abbrev pub with_bytes : View → List ℕ → View
  with_bytes v bytes = record v { storage = write_at v.storage v.start bytes }

  -- A field is written from a view of its size, and read into one that has room for it.
  pub record IsFields : Type 0 where
    pub length-contents : (r : R) → length (f.contents r) ≡ f.count
    pub set_lem :
        (r : R) (i : ℕ) (v : View)
        → f.IsSized r
        → i < f.count
        → IsInside v
        → v.size ≡ f.size_at i
        → All IsByte v.storage
        → (r' : R) × (f.set_field r i v ≡ ok r')
          × (f.contents r' ≡ set (f.contents r) i (range v.storage v.start v.size))
          × f.IsSized r'
    pub get_lem :
        (r : R) (i : ℕ) (v : View)
        → f.IsSized r
        → i < f.count
        → IsInside v
        → f.size_at i ≤ v.size
        → f.get_field r i v ≡ ok (with_bytes v (get_or (f.contents r) i []))

  -- A write of the field at `i` from `v`, and what a read of the field at `j` into `u` gives then.
  abbrev pub Accesses : R → ℕ → View → ℕ → View → Type 0
  Accesses r i v j u =
      (r' : R) × (f.set_field r i v ≡ ok r')
      × f.IsSized r'
      × (f.get_field r' j u ≡ (
          if j == i then ok (with_bytes u (range v.storage v.start v.size)) else f.get_field r j u))

  pub accesses_lem :
      IsFields
      → (r : R) (i : ℕ) (v : View) (j : ℕ) (u : View) → f.IsSized r
      → i < f.count
      → IsInside v
      → v.size ≡ f.size_at i
      → All IsByte v.storage
      → j < f.count
      → IsInside u
      → u.size ≡ f.size_at j
      → Accesses r i v j u
  accesses_lem laws r i v j u sized h w e b below inside fits =
      let (r', written, holds, sized') = laws.set_lem r i v sized h w e b in
      let bytes : List ℕ = range v.storage v.start v.size in
      let now : f.get_field r' j u ≡ ok (with_bytes u (get_or (set (f.contents r) i bytes) j [])) =
        laws.get_lem r' j u sized' below inside (omega (arith, fits))
        ∙ ap (λ c. ok (with_bytes u (get_or c j []))) holds in
      (
        r',
        written,
        sized',
        elim (Bool-cases (j == i)) [
          | inl same ↦ rw same (
              now
              ∙ ap (λ k. ok (with_bytes u (get_or (set (f.contents r) i bytes) k [])))
                  ((==_iff j i).0 same)
              ∙ ap (λ c. ok (with_bytes u c))
                  (get_or-set_self (f.contents r) i bytes []
                    (omega (arith, h, laws.length-contents r))))
          | inr other ↦ rw other (
              now
              ∙ ap (λ c. ok (with_bytes u c))
                  (get_or-set_ne (f.contents r) i j bytes []
                    (λ q. ground (arith, (==_iff j i).1 (sym q))))
              ∙ sym (laws.get_lem r j u sized below inside (omega (arith, fits))))
        ],
      )
