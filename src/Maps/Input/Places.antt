-- ===== src/Maps/Input/Places.antt =====
-- examples/ConnectedDevice/common/InputRegisterMappedDataStore.h: where the fields of the input map stand in
-- registers of two bytes, and the map as the store of MappedRegisterDataStore.
use modbus_basic.Common.{
  ℕ, zero, suc, ◌+◌, ◌-◌, ◌^◌, ◌↔◌, ◌*◌, ◌/◌, ◌≤◌, ◌<◌, ◌≡◌, refl, true, List, get_or, All, IsByte,
  add_size, sub_size, arith,
}
use modbus_basic.External.{External}
use modbus_basic.View.{View, IsInside}
use modbus_basic.Maps.{Conversion, IsConversion}
use modbus_basic.Maps.Places.{
  register_offsets, register_ends, IsPlaced, Stores, stores_lem, register_ends_lem,
}
use modbus_basic.Maps.Input
use modbus_basic.MappedStore.{
  MemoryController, MappedRegisterDataStore, get_matching_index, any_equal, check_location_valid,
}
use modbus_basic.MappedStore.Lookup.{check_location_valid_iff}
use modbus_basic.Maps.Input.{InputRegisters, InputRegistersEntryIdentifier, entry_positions}
use modbus_basic.Maps.Input.Contents.{IsSized, size_at}
use modbus_basic.Maps.Input.Fields.{fields, fields-IsFields}

abbrev pub input_offsets : List ℕ
input_offsets = register_offsets entry_positions

abbrev pub input_ends : List ℕ
input_ends = register_ends entry_positions

-- The wrapper as the template parameter of MappedRegisterDataStore, with these two lists.
abbrev pub input_map : Conversion → MemoryController InputRegisters
input_map conversion = record {
  offsets = λ r. input_offsets;
  end_points = λ r. input_ends;
  set_field = Input.set_field conversion;
  get_field = Input.get_field conversion;
}

-- A field is found at its address, and ends where the list says.
pub input_places :
    (i : ℕ)
    → i < 17
    → (get_matching_index (get_or input_offsets i 0) input_offsets ≡ i)
      × (any_equal (get_or input_offsets i 0) input_offsets ≡ true)
      × (any_equal (sub_size (add_size (get_or input_offsets i 0) (size_at i / 2)) 1) input_ends
          ≡ true)
      × (2 * (size_at i / 2) ≡ size_at i)
      × (1 ≤ size_at i / 2)
      × (size_at i / 2 ≤ 32)
unfolding get_matching_index any_equal
input_places zero h = (refl, refl, refl, refl, omega arith, omega arith)
input_places (suc zero) h = (refl, refl, refl, refl, omega arith, omega arith)
input_places (suc (suc zero)) h = (refl, refl, refl, refl, omega arith, omega arith)
input_places (suc (suc (suc zero))) h = (refl, refl, refl, refl, omega arith, omega arith)
input_places (suc (suc (suc (suc zero)))) h = (refl, refl, refl, refl, omega arith, omega arith)
input_places (suc (suc (suc (suc (suc zero))))) h =
    (refl, refl, refl, refl, omega arith, omega arith)
input_places (suc (suc (suc (suc (suc (suc zero)))))) h =
    (refl, refl, refl, refl, omega arith, omega arith)
input_places (suc (suc (suc (suc (suc (suc (suc zero))))))) h =
    (refl, refl, refl, refl, omega arith, omega arith)
input_places (suc (suc (suc (suc (suc (suc (suc (suc zero)))))))) h =
    (refl, refl, refl, refl, omega arith, omega arith)
input_places (suc (suc (suc (suc (suc (suc (suc (suc (suc zero))))))))) h =
    (refl, refl, refl, refl, omega arith, omega arith)
input_places (suc (suc (suc (suc (suc (suc (suc (suc (suc (suc zero)))))))))) h =
    (refl, refl, refl, refl, omega arith, omega arith)
input_places (suc (suc (suc (suc (suc (suc (suc (suc (suc (suc (suc zero))))))))))) h =
    (refl, refl, refl, refl, omega arith, omega arith)
input_places (suc (suc (suc (suc (suc (suc (suc (suc (suc (suc (suc (suc zero)))))))))))) h =
    (refl, refl, refl, refl, omega arith, omega arith)
input_places (suc (suc (suc (suc (suc (suc (suc (suc (suc (suc (suc (suc (suc zero))))))))))))) h =
    (refl, refl, refl, refl, omega arith, omega arith)
input_places
      (suc (suc (suc (suc (suc (suc (suc (suc (suc (suc (suc (suc (suc (suc zero)))))))))))))) h =
    (refl, refl, refl, refl, omega arith, omega arith)
input_places
      (suc (suc (suc (suc (suc (suc (suc (suc (suc (suc (suc (suc (suc (suc (suc zero)))))))))))))))
      h =
    (refl, refl, refl, refl, omega arith, omega arith)
input_places
      (suc (
        suc
          (suc (suc (suc (suc (suc (suc (suc (suc (suc (suc (suc (suc (suc (suc zero))))))))))))))))
      h =
    (refl, refl, refl, refl, omega arith, omega arith)
input_places
      (suc (
        suc (
          suc
            (suc (suc (suc (suc (suc (suc (suc (suc (suc (suc (suc (suc (suc (suc i)))))))))))))))))
      h =
    absurd (omega arith)

-- Registers that begin where a field begins, and registers that end where a field ends.
abbrev pub BeginsField : ℕ → Type 0
BeginsField address = (i : ℕ) × (i < 17) × (get_or input_offsets i 0 ≡ address)

abbrev pub EndsField : ℕ → ℕ → Type 0
EndsField address count =
    (i : ℕ) × (i < 17) × (get_or input_offsets i 0 + size_at i / 2 ≡ address + count)

-- The check of a location accepts such registers, and no other.
pub check_location_valid-fields :
    (address count : ℕ)
    → address + count < 2 ^ 64
    → 1 ≤ count
    → (check_location_valid address count input_offsets input_ends ≡ true)
      ↔ (BeginsField address × EndsField address count)
check_location_valid-fields address count small some =
    let (there, back) = check_location_valid_iff address count input_offsets input_ends in
    (
      λ h.
          let (begins, (j, within, last)) = there h in
          (begins, (j, within, omega (arith, last, ends_lem j within))),
      λ (begins, (j, within, reached)).
          back (begins, (j, within, omega (arith, reached, ends_lem j within))),
    )
  where
    ends_lem :
        (j : ℕ)
        → j < 17
        → (get_or input_ends j 0 ≡ get_or input_offsets j 0 + size_at j / 2 - 1)
          × (1 ≤ size_at j / 2)
    ends_lem j within =
        let (index, first, last, double, positive, few) = input_places j within in
        (register_ends_lem entry_positions InputRegistersEntryIdentifier.unknown j within, positive)

module _ (c : Conversion) (laws : IsConversion c) where
  pub fields-IsPlaced : IsPlaced (fields c laws) input_offsets input_ends
  fields-IsPlaced = record { each = refl; place = input_places }

  -- In the mapped store over an input map whose arrays have their sizes, `SetRegisters` on the
  -- address and the registers of one of the 17 fields, from a view of the field's size, succeeds,
  -- keeps the arrays' sizes and marks the store as having new data, and `GetRegisters` on those of
  -- one of the 17 fields, into a view of its size, then gives the bytes that were written where the
  -- two fields are the same, and otherwise what it gave before the write. Both views lie in memory,
  -- and the memory of the first holds bytes.
  pub set_input_registers-get_registers :
      (x : External) (s : MappedRegisterDataStore InputRegisters) (i : ℕ) (v : View) (j : ℕ)
      (u : View)
      → IsSized s.memory_controller
      → i < 17
      → IsInside v
      → v.size ≡ size_at i
      → All IsByte v.storage
      → j < 17
      → IsInside u
      → u.size ≡ size_at j
      → Stores (fields c laws) input_offsets input_ends x s i v j u
  set_input_registers-get_registers x s i v j u z h w e b below inside fits =
      stores_lem (fields c laws) input_offsets input_ends x (fields-IsFields c laws) fields-IsPlaced
        s i v j u z h w e b below inside fits
