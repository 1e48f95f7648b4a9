-- ===== src/MappedStore.antt =====
-- include/Modbus/MappedRegisterDataStore.h: a store of fields, each of several registers, that an
-- object keeps which the store refers to.
pub mod Lookup
use modbus_basic.Common.{
  ℕ, zero, suc, List, [], ◌∷◌, Bool, true, false, ◌&&◌, ◌||◌, Result, ok, ◌>>=◌, ◌>>◌, assert, ◌==◌,
  if◌then◌else◌, length, add_size, sub_size, replicate,
}
use modbus_basic.External.{External}
use modbus_basic.View.{View, view_of, read_uint16}
use modbus_basic.DataStores.{DataStore}

-- What the store uses of its template parameter: where the fields begin and end, and the accesses to
-- a field by its number.
pub record MemoryController (M : Type 0) : Type 0 where
  pub offsets : M → List ℕ
  pub end_points : M → List ℕ
  pub set_field : M → ℕ → View → Result M
  pub get_field : M → ℕ → View → Result View

-- `get_matching_index`: the number of entries before the first that matches.
unfoldable pub get_matching_index : ℕ → List ℕ → ℕ
get_matching_index value [] = zero
get_matching_index value (entry ∷ entries) =
    let rest = get_matching_index value entries in if entry == value then zero else suc rest

-- `std::any_of` with `Equal_UnaryPredicate`.
unfoldable pub any_equal : ℕ → List ℕ → Bool
any_equal d [] = false
any_equal d (n ∷ ns) = (n == d) || any_equal d ns

unfoldable pub check_location_valid : ℕ → ℕ → List ℕ → List ℕ → Bool
check_location_valid address count offsets end_points =
    any_equal address offsets && any_equal (sub_size (add_size address count) 1) end_points

pub record MappedRegisterDataStore (M : Type 0) : Type 0 where
  pub new_data : Bool
  pub memory_controller : M

module _ {M : Type 0} (x : External) (c : MemoryController M) where
  unfoldable pub get_memory_map_entry_index : MappedRegisterDataStore M → ℕ → ℕ
  get_memory_map_entry_index s address =
      let index = get_matching_index address (c.offsets s.memory_controller) in
      if index == length (c.offsets s.memory_controller) then zero else index

  -- `SetField`
  unfoldable pub set_field :
      MappedRegisterDataStore M → ℕ → View → Result (MappedRegisterDataStore M)
  set_field s identifier data_view = do
    written ← c.set_field s.memory_controller identifier data_view
    ok (record { new_data = true; memory_controller = written })

  unfoldable pub write_location_valid : MappedRegisterDataStore M → ℕ → ℕ → Bool
  write_location_valid s address count =
      check_location_valid address count (c.offsets s.memory_controller)
        (c.end_points s.memory_controller)

  abbrev pub read_location_valid : MappedRegisterDataStore M → ℕ → ℕ → Bool
  read_location_valid s address count = write_location_valid s address count

  -- `SetFieldFromAddress`
  unfoldable pub set_field_from_address :
      MappedRegisterDataStore M → ℕ → View → Result (MappedRegisterDataStore M)
  set_field_from_address s address data_view =
      set_field s (get_memory_map_entry_index s address) data_view

  -- `GetFieldFromAddress`
  unfoldable pub get_field_from_address : MappedRegisterDataStore M → ℕ → View → Result View
  get_field_from_address s address data_view =
      c.get_field s.memory_controller (get_memory_map_entry_index s address) data_view

  unfoldable pub get_registers : MappedRegisterDataStore M → ℕ → ℕ → View → Result View
  get_registers s address register_count data_view = do
    assert x.ndebug (read_location_valid s address register_count)
    get_field_from_address s address data_view

  unfoldable pub get_register : MappedRegisterDataStore M → ℕ → Result ℕ
  get_register s address = do
    data_view ← get_registers s address 1 (view_of (replicate 2 0))
    read_uint16 x data_view 0

  unfoldable pub set_registers :
      MappedRegisterDataStore M → ℕ → ℕ → View → Result (MappedRegisterDataStore M)
  set_registers s address register_count data_view = do
    assert x.ndebug (write_location_valid s address register_count)
    set_field_from_address s address data_view

  unfoldable pub set_register :
      MappedRegisterDataStore M → ℕ → ℕ → Result (MappedRegisterDataStore M)
  set_register s address value =
      set_registers s address 1 (view_of (x.get_byte value 1 ∷ x.get_byte value 0 ∷ []))

  -- The store as a parameter of the controllers.
  abbrev pub mapped_store : DataStore (MappedRegisterDataStore M)
  mapped_store = record {
    read_location_valid = read_location_valid;
    write_location_valid = write_location_valid;
    get_register = get_register;
    set_register = set_register;
    get_registers = get_registers;
    set_registers = set_registers;
  }
