-- ===== src/Witnesses/Stores.antt =====
-- Concrete runs of the theorems: the mapped store and the byte fields.
use modbus_basic.Common.{
  ◌≢◌, true, get_elem?, ℕ, List, ◌≡◌, refl, true, [], ◌∷◌, ok, err, out_of_bounds, arith,
}
use modbus_basic.View.{view_of}
use modbus_basic.Common.{get_or}
use modbus_basic.MappedStore
use modbus_basic.MappedStore.{
  MemoryController, MappedRegisterDataStore, any_equal, get_matching_index,
  get_memory_map_entry_index, write_location_valid, check_location_valid,
}
use modbus_basic.MappedStore.Lookup.{access-valid_lem}
use modbus_basic.ByteFields.{
  U8Field, access_valid, read, write, find_block, entry_at, fields_are_sorted, sorted_from,
}
use modbus_basic.ByteFields.Writes.{write-read}
use modbus_basic.ByteFields.Sorted.{access_valid_iff, Inside}
use modbus_basic.ByteFields.Blocks.{access_valid-beyond, read_lem}
use modbus_basic.Witnesses.{plain, two_fields, mapped, begins, block, reader}

access-valid_lem_example :
    (get_or begins 1 0 ≡ 2)
    × (MappedStore.set_registers plain two_fields mapped 2 1 (view_of (7 ∷ 8 ∷ []))
        ≡ ok (record { new_data = true; memory_controller = 1 ∷ 2 ∷ 3 ∷ 4 ∷ 7 ∷ 8 ∷ [] }))
    × (MappedStore.get_registers plain two_fields mapped 2 1 (view_of (7 ∷ 8 ∷ []))
        ≡ ok (view_of (5 ∷ 6 ∷ [])))
unfolding get_memory_map_entry_index get_matching_index write_location_valid check_location_valid
    any_equal
access-valid_lem_example = access-valid_lem plain two_fields mapped 2 1 (view_of (7 ∷ 8 ∷ [])) refl

access_valid-beyond_example : access_valid (block ∷ []) 2 1 ≡ err out_of_bounds
access_valid-beyond_example = access_valid-beyond (block ∷ []) 2 1 (omega arith, tt)

read_lem_example :
    read plain (block ∷ []) 0 2 reader ≡ ok (2, record { bytes = 1 ∷ 2 ∷ 3 ∷ 4 ∷ []; size = 4 })
unfolding access_valid find_block
read_lem_example =
    read_lem plain (block ∷ []) 0 2 block reader refl refl (omega arith) (omega arith) (omega arith)
      refl (omega arith) (omega arith) (omega arith)

write-read_example :
    (after : List U8Field) × (write plain
        (block ∷ [])
        0
        2
        (record { bytes = 9 ∷ 8 ∷ 7 ∷ 6 ∷ []; size = 4 })
      ≡ ok (2, after))
    × (read plain after 0 2 reader ≡ ok (2, record { bytes = 9 ∷ 8 ∷ 7 ∷ 6 ∷ []; size = 4 }))
    × ((m : ℕ) → m ≢ 0 → get_elem? after m ≡ get_elem? (block ∷ []) m)
unfolding access_valid find_block
write-read_example =
    write-read plain (block ∷ []) 0 2 block refl refl
      (record { bytes = 9 ∷ 8 ∷ 7 ∷ 6 ∷ []; size = 4 }) reader (omega arith) (omega arith)
      (omega arith) (omega arith) refl refl (omega arith) (omega arith) (omega arith) (omega arith)

-- Two blocks behind one another, and an access to the second.
abbrev neighbours : List U8Field
neighbours = block ∷ record block { address = 2 } ∷ []

access_valid_iff_example :
    (access_valid neighbours 2 2 ≡ ok true
      → (k : ℕ) × (f : U8Field) × (entry_at neighbours k ≡ ok f) × Inside 2 2 f)
    × ((k : ℕ) (f : U8Field)
        → entry_at neighbours k ≡ ok f
        → Inside 2 2 f
        → (find_block neighbours 2 ≡ k) × (access_valid neighbours 2 2 ≡ ok true))
unfolding fields_are_sorted sorted_from
access_valid_iff_example =
    access_valid_iff neighbours 2 2 refl (ground arith) (omega arith) (omega arith)
