-- ===== src/Maps/Places.antt =====
-- examples/ConnectedDevice/common: where the fields stand in registers of two bytes, which is what
-- MappedRegisterDataStore asks for as `offsets_` and `end_points_`. The wrappers have no such members; these
-- are made from their `entry_positions_`.
use modbus_basic.Common.{
  ℕ, zero, suc, ◌+◌, ◌-◌, ◌*◌, ◌/◌, ◌≤◌, ◌<◌, ◌≡◌, refl, true, false, List, [], ◌∷◌, ok, ◌>>=◌,
  length, get_or, range, All, IsByte, add_size, sub_size, arith, assert-true, ◌==◌, if◌then◌else◌,
}
use modbus_basic.External.{External}
use modbus_basic.View.{View, IsInside}
use modbus_basic.MappedStore.{
  MemoryController, MappedRegisterDataStore, get_matching_index, any_equal, set_registers,
  get_registers, set_field, set_field_from_address, get_field_from_address,
  get_memory_map_entry_index, write_location_valid, check_location_valid,
}
use modbus_basic.Maps.Access.{Fields, IsFields, with_bytes, accesses_lem}

abbrev pub register_offsets : {E : Type 0} → List (E × ℕ × ℕ) → List ℕ
register_offsets [] = []
register_offsets ((field, offset, size) ∷ entries) = offset / 2 ∷ register_offsets entries

abbrev pub register_ends : {E : Type 0} → List (E × ℕ × ℕ) → List ℕ
register_ends [] = []
register_ends ((field, offset, size) ∷ entries) =
    (offset / 2 + size / 2 - 1) ∷ register_ends entries

-- The last register of an entry, by its first one and its size.
pub register_ends_lem :
    {E : Type 0} (entries : List (E × ℕ × ℕ)) (e : E) (i : ℕ)
    → i < length entries
    → get_or (register_ends entries) i 0
      ≡ get_or (register_offsets entries) i 0 + (get_or entries i (e, 0, 0)).2 / 2 - 1
register_ends_lem [] e i h = absurd (omega arith)
register_ends_lem ((field, offset, size) ∷ entries) e zero h = refl
register_ends_lem ((field, offset, size) ∷ entries) e (suc i) h =
    register_ends_lem entries e i (omega arith)

module _ {R : Type 0} (f : Fields R) (offsets ends : List ℕ) where
  -- A map of registers as the template parameter of MappedRegisterDataStore.
  abbrev pub map_of : MemoryController R
  map_of = record {
    offsets = λ r. offsets;
    end_points = λ r. ends;
    set_field = f.set_field;
    get_field = f.get_field;
  }

  -- The field at `i` is found at its address, and ends where the list says; it has whole registers, as many
  -- as fit into a response.
  abbrev pub IsPlace : ℕ → Type 0
  IsPlace i =
      (get_matching_index (get_or offsets i 0) offsets ≡ i)
      × (any_equal (get_or offsets i 0) offsets ≡ true)
      × (any_equal (sub_size (add_size (get_or offsets i 0) (f.size_at i / 2)) 1) ends ≡ true)
      × (2 * (f.size_at i / 2) ≡ f.size_at i)
      × (1 ≤ f.size_at i / 2)
      × (f.size_at i / 2 ≤ 32)

  pub record IsPlaced : Type 0 where
    pub each : length offsets ≡ f.count
    pub place : (i : ℕ) → i < f.count → IsPlace i

  module _ (x : External) (placed : IsPlaced) (s : MappedRegisterDataStore R) (i : ℕ)
      (below : i < f.count) where
    pub place-valid : write_location_valid x map_of s (get_or offsets i 0) (f.size_at i / 2) ≡ true
    unfolding write_location_valid check_location_valid
    place-valid =
        let (index, begins, ends_there, double, some, few) = placed.place i below in
        rw (begins, ends_there) refl

    entry_lem : get_memory_map_entry_index x map_of s (get_or offsets i 0) ≡ i
    unfolding get_memory_map_entry_index
    entry_lem =
        let (index, begins, ends_there, double, some, few) = placed.place i below in
        let found : (i == length offsets) ≡ false = ground (arith, below, placed.each) in
        rw (index, found) refl

    -- An access to the registers of a field is an access to the field.
    pub get_registers-place :
        (u : View)
        → get_registers x map_of s (get_or offsets i 0) (f.size_at i / 2) u
          ≡ f.get_field s.memory_controller i u
    unfolding get_registers get_field_from_address
    get_registers-place u = rw (place-valid, assert-true, entry_lem) refl

    pub set_registers-place :
        (v : View)
        → set_registers x map_of s (get_or offsets i 0) (f.size_at i / 2) v ≡ (do
          written ← f.set_field s.memory_controller i v
          ok (record { new_data = true; memory_controller = written }))
    unfolding set_registers set_field_from_address set_field
    set_registers-place v = rw (place-valid, assert-true, entry_lem) refl

  -- A write of the registers of the field at `i` from `v`, and what a read of the registers of the field at
  -- `j` into `u` gives then.
  abbrev pub Stores : External → MappedRegisterDataStore R → ℕ → View → ℕ → View → Type 0
  Stores x s i v j u =
      (t : MappedRegisterDataStore R) × (set_registers x map_of s (get_or offsets i 0)
          (f.size_at i / 2) v
        ≡ ok t)
      × (t.new_data ≡ true)
      × f.IsSized t.memory_controller
      × (get_registers x map_of t (get_or offsets j 0) (f.size_at j / 2) u ≡ (
          if j == i
          then ok (with_bytes f u (range v.storage v.start v.size))
          else get_registers x map_of s (get_or offsets j 0) (f.size_at j / 2) u))

  pub stores_lem :
      (x : External)
      → IsFields f
      → IsPlaced
      → (s : MappedRegisterDataStore R) (i : ℕ) (v : View) (j : ℕ) (u : View)
      → f.IsSized s.memory_controller
      → i < f.count
      → IsInside v
      → v.size ≡ f.size_at i
      → All IsByte v.storage
      → j < f.count
      → IsInside u
      → u.size ≡ f.size_at j
      → Stores x s i v j u
  stores_lem x laws placed s i v j u sized h w e b below inside fits =
      let (r', written, sized', read) =
        accesses_lem f laws s.memory_controller i v j u sized h w e b below inside fits in
      let t : MappedRegisterDataStore R = record { new_data = true; memory_controller = r' } in
      (
        t,
        rw (set_registers-place x placed s i h v, written) refl,
        refl,
        sized',
        rw (get_registers-place x placed t j below u, get_registers-place x placed s j below u)
            read,
      )
