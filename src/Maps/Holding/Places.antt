-- ===== src/Maps/Holding/Places.antt =====
-- examples/ConnectedDevice/common/HoldingRegisterMappedDataStore.h: where the fields of the holding map stand
-- in registers of two bytes, and the map as the store of MappedRegisterDataStore.
use modbus_basic.Common.{
  ℕ, zero, suc, ◌*◌, ◌/◌, ◌≤◌, ◌<◌, ◌≡◌, refl, true, List, get_or, All, IsByte, add_size, sub_size,
  arith,
}
use modbus_basic.External.{External}
use modbus_basic.View.{View, IsInside}
use modbus_basic.Maps.{Conversion, IsConversion}
use modbus_basic.Maps.Places.{register_offsets, register_ends, IsPlaced, Stores, stores_lem}
use modbus_basic.MappedStore.{MappedRegisterDataStore, get_matching_index, any_equal}
use modbus_basic.Maps.Holding.{HoldingRegisters, entry_positions}
use modbus_basic.Maps.Holding.Fields.{IsSized, size_at, fields, fields-IsFields}

abbrev pub holding_offsets : List ℕ
holding_offsets = register_offsets entry_positions

abbrev pub holding_ends : List ℕ
holding_ends = register_ends entry_positions

-- A field is found at its address, and ends where the list says.
pub holding_places :
    (i : ℕ)
    → i < 7
    → (get_matching_index (get_or holding_offsets i 0) holding_offsets ≡ i)
      × (any_equal (get_or holding_offsets i 0) holding_offsets ≡ true)
      × (any_equal (sub_size (add_size (get_or holding_offsets i 0) (size_at i / 2)) 1) holding_ends
          ≡ true)
      × (2 * (size_at i / 2) ≡ size_at i)
      × (1 ≤ size_at i / 2)
      × (size_at i / 2 ≤ 32)
unfolding get_matching_index any_equal
holding_places zero h = (refl, refl, refl, refl, omega arith, omega arith)
holding_places (suc zero) h = (refl, refl, refl, refl, omega arith, omega arith)
holding_places (suc (suc zero)) h = (refl, refl, refl, refl, omega arith, omega arith)
holding_places (suc (suc (suc zero))) h = (refl, refl, refl, refl, omega arith, omega arith)
holding_places (suc (suc (suc (suc zero)))) h = (refl, refl, refl, refl, omega arith, omega arith)
holding_places (suc (suc (suc (suc (suc zero))))) h =
    (refl, refl, refl, refl, omega arith, omega arith)
holding_places (suc (suc (suc (suc (suc (suc zero)))))) h =
    (refl, refl, refl, refl, omega arith, omega arith)
holding_places (suc (suc (suc (suc (suc (suc (suc i))))))) h = absurd (omega arith)

module _ (c : Conversion) (laws : IsConversion c) where
  pub fields-IsPlaced : IsPlaced (fields c laws) holding_offsets holding_ends
  fields-IsPlaced = record { each = refl; place = holding_places }

  -- In the mapped store over the holding map, `SetRegisters` on the address and the registers of
  -- one of the 7 fields, from a view of the field's size, succeeds and marks the store as having
  -- new data, and `GetRegisters` on those of one of the 7 fields, into a view of its size, then
  -- gives the bytes that were written where the two fields are the same, and otherwise what it gave
  -- before the write. Both views lie in memory, and the memory of the first holds bytes.
  pub set_holding_registers-get_registers :
      (x : External) (s : MappedRegisterDataStore HoldingRegisters) (i : ℕ) (v : View) (j : ℕ)
      (u : View)
      → IsSized s.memory_controller
      → i < 7
      → IsInside v
      → v.size ≡ size_at i
      → All IsByte v.storage
      → j < 7
      → IsInside u
      → u.size ≡ size_at j
      → Stores (fields c laws) holding_offsets holding_ends x s i v j u
  set_holding_registers-get_registers x s i v j u z h w e b below inside fits =
      stores_lem (fields c laws) holding_offsets holding_ends x (fields-IsFields c laws)
        fields-IsPlaced s i v j u z h w e b below inside fits
