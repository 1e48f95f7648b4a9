-- ===== src/MappedStore/Lookup.antt =====
-- include/Modbus/MappedRegisterDataStore.h: which field an access reaches.
use modbus_basic.Common.{
  ℕ, zero, suc, ◌<◌, ◌≡◌, ◌↔◌, refl, List, [], ◌∷◌, Bool, true, false, ◌&&◌, ok, err,
  assertion_failed, ◌>>=◌, arith, ◌==◌, length, get_or, ap, add_size, sub_size, Bool-cases, inl,
  inr, ==_iff, assert-true,
}
use modbus_basic.External.{External}
use modbus_basic.View.{View}
use modbus_basic.MappedStore.{
  MemoryController, MappedRegisterDataStore, get_matching_index, any_equal, check_location_valid,
  get_memory_map_entry_index, set_field, write_location_valid, set_field_from_address,
  get_field_from_address, get_registers, set_registers,
}

get_matching_index-first :
    (value : ℕ) (entries : List ℕ) (j : ℕ)
    → j < get_matching_index value entries
    → get_or entries j 0 ≡ value
    → any_equal value entries ≡ false
unfolding get_matching_index any_equal
get_matching_index-first value [] j h e = refl
get_matching_index-first value (entry ∷ entries) zero h e = ground arith
get_matching_index-first value (entry ∷ entries) (suc j) h e =
    ground (arith, get_matching_index-first value entries j)

-- The search of a list: if an entry is equal to the value, its answer is the index of such an
-- entry, and if none is, the number of entries.
pub get_matching_index_lem :
    (value : ℕ) (entries : List ℕ)
    → (any_equal value entries ≡ true
        → (get_matching_index value entries < length entries)
          × (get_or entries (get_matching_index value entries) 0 ≡ value))
      × (any_equal value entries ≡ false → get_matching_index value entries ≡ length entries)
unfolding get_matching_index any_equal
get_matching_index_lem value [] = (λ e. ground arith, λ e. refl)
get_matching_index_lem value (entry ∷ entries) = elim (Bool-cases (entry == value)) [
  | inl same ↦ rw same (λ e. (omega arith, (==_iff entry value).0 same), λ e. ground arith)
  | inr other ↦ rw other (
    λ e. (
      omega (arith, ((get_matching_index_lem value entries).0 e).0),
      ((get_matching_index_lem value entries).0 e).1,
    ),
    λ e. ap suc ((get_matching_index_lem value entries).1 e),
  )
]

both-true : (a b : Bool) → (a && b) ≡ true → (a ≡ true) × (b ≡ true)
both-true a b h = ground arith

any_equal_at :
    (value : ℕ) (entries : List ℕ) (i : ℕ)
    → i < length entries
    → get_or entries i 0 ≡ value
    → any_equal value entries ≡ true
unfolding any_equal
any_equal_at value [] i h e = absurd (omega arith)
any_equal_at value (entry ∷ entries) zero h e = ground arith
any_equal_at value (entry ∷ entries) (suc i) h e =
    ground (arith, any_equal_at value entries i (omega arith) e)

-- An entry of a list is equal to the value.
abbrev pub IsEntry : ℕ → List ℕ → Type 0
IsEntry value entries = (i : ℕ) × (i < length entries) × (get_or entries i 0 ≡ value)

any_equal_iff :
    (value : ℕ) (entries : List ℕ) → (any_equal value entries ≡ true) ↔ IsEntry value entries
any_equal_iff value entries = (
  λ h.
      let (below, same) = (get_matching_index_lem value entries).0 h in
      (get_matching_index value entries, below, same),
  λ (i, below, same). any_equal_at value entries i below same,
)

-- The check accepts a location that begins with an entry of the one list and whose last register is one
-- of the other, and no other location.
pub check_location_valid_iff :
    (address count : ℕ) (offsets ends : List ℕ)
    → (check_location_valid address count offsets ends ≡ true)
      ↔ (IsEntry address offsets × IsEntry (sub_size (add_size address count) 1) ends)
unfolding check_location_valid
check_location_valid_iff address count offsets ends =
    let last : ℕ = sub_size (add_size address count) 1 in
    (
      λ h.
          let (begins, reached) = both-true (any_equal address offsets) (any_equal last ends) h in
          ((any_equal_iff address offsets).0 begins, (any_equal_iff last ends).0 reached),
      λ (begins, reached).
          rw ((any_equal_iff address offsets).1 begins, (any_equal_iff last ends).1 reached) refl,
    )

module _ {M : Type 0} (x : External) (c : MemoryController M) where
  -- An access that the store declares valid reaches a field that begins at its address: a write of
  -- registers is a write of that field alone and then marks the store as having new data, and a
  -- read of registers is a read of that field alone.
  pub access-valid_lem :
      (s : MappedRegisterDataStore M) (address count : ℕ) (v : View)
      → write_location_valid x c s address count ≡ true
      → (get_or (c.offsets s.memory_controller) (get_memory_map_entry_index x c s address) 0
          ≡ address)
        × (set_registers x c s address count v ≡ (do
          written ← c.set_field s.memory_controller (get_memory_map_entry_index x c s address) v
          ok (record { new_data = true; memory_controller = written })))
        × (get_registers x c s address count v
            ≡ c.get_field s.memory_controller (get_memory_map_entry_index x c s address) v)
  unfolding set_registers get_registers write_location_valid check_location_valid
      set_field_from_address get_field_from_address get_memory_map_entry_index set_field
  access-valid_lem s address count v h = rw (h, assert-true) (rw absent found.1, refl, refl)
    where
      offsets : List ℕ
      offsets = c.offsets s.memory_controller

      begins : any_equal address offsets ≡ true
      begins = (both-true (any_equal address offsets) _ h).0

      found :
          (get_matching_index address offsets < length offsets)
          × (get_or offsets (get_matching_index address offsets) 0 ≡ address)
      found = (get_matching_index_lem address offsets).0 begins

      absent : (get_matching_index address offsets == length offsets) ≡ false
      absent = ground (arith, found.0)

  -- A read or a write of registers that the store does not declare valid fails an assertion, in a
  -- build with assertions.
  pub access-invalid_lem :
      (s : MappedRegisterDataStore M) (address count : ℕ) (v : View)
      → x.ndebug ≡ false
      → write_location_valid x c s address count ≡ false
      → (set_registers x c s address count v ≡ err assertion_failed)
        × (get_registers x c s address count v ≡ err assertion_failed)
  unfolding set_registers get_registers write_location_valid
  access-invalid_lem s address count v debug h = rw (debug, h) (refl, refl)
