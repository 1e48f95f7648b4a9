-- ===== src/DataStores/Updating.antt =====
-- include/Modbus/DataStores/RegisterDataStore.h: UpdatingRegisterDataStore, which flags the
-- registers that were written.
pub mod Flags
pub mod NewData
use modbus_basic.Common.{
  ℕ, zero, suc, ◌+◌, Bool, true, false, List, [], ◌∷◌, Result, ok, err, out_of_bounds, ◌>>=◌, ltb,
  leb, length, get_elem?, set, add_size, sub_size, if◌then◌else◌, min, none, some, take, replicate,
  ◌==◌, ◌++◌, drop,
}
use modbus_basic.External.{External}
use modbus_basic.View.{View, store}
use modbus_basic.DataStores.{DataStore, CallbackStore}
use modbus_basic.DataStores.Registers
use modbus_basic.DataStores.Registers.{RegisterDataStore, get_index}

-- `flags_` is an array of as many flags as there are registers.
pub record UpdatingRegisterDataStore : Type 0 where
  pub base : RegisterDataStore
  pub flags : List Bool

abbrev pub is_true : Bool → Bool
is_true value = value

unfoldable pub flag_set : UpdatingRegisterDataStore → ℕ → Result Bool
flag_set s address = elim (get_elem? s.flags (min address (sub_size (length s.flags) 1))) [
  | none ↦ err out_of_bounds
  | some flag ↦ ok flag
]

unfoldable pub set_register_callback :
    UpdatingRegisterDataStore → ℕ → ℕ → Result UpdatingRegisterDataStore
set_register_callback s address value = do
  flags ← store s.flags (get_index address) true
  ok (record s { flags = flags })

-- The loop of `set_registers_callback` from `i` on, with `n` rounds left.
pub flag_from : UpdatingRegisterDataStore → ℕ → ℕ → ℕ → Result UpdatingRegisterDataStore
flag_from s address i zero = ok s
flag_from s address i (suc n) = do
  flags ← store s.flags (get_index (add_size address i)) true
  flag_from (record s { flags = flags }) address (i + 1) n

unfoldable pub set_registers_callback :
    UpdatingRegisterDataStore → ℕ → ℕ → View → Result UpdatingRegisterDataStore
set_registers_callback s address register_count data_view = flag_from s address 0 register_count

unfoldable pub any_of : (Bool → Bool) → List Bool → Bool
any_of p [] = false
any_of p (b ∷ bs) = if p b then true else any_of p bs

-- `flags_.first + flags_.second - 1` is the end of the range that is searched, so the last flag is
-- not in it; with no flags at all it lies before the array.
unfoldable pub new_data_available : UpdatingRegisterDataStore → Result Bool
unfolding any_of
new_data_available s = go (length s.flags)
  where
    go : ℕ → Result Bool
    go zero = err out_of_bounds
    go (suc n) = ok (any_of is_true (take n s.flags))

-- `std::fill` over the same range.
unfoldable pub clear_new_data_flags : UpdatingRegisterDataStore → Result UpdatingRegisterDataStore
clear_new_data_flags s = go (length s.flags)
  where
    go : ℕ → Result UpdatingRegisterDataStore
    go zero = err out_of_bounds
    go (suc n) = ok (record s { flags = replicate n false ++ drop n s.flags })

-- An access of the base class on the derived object.
abbrev on_base :
    UpdatingRegisterDataStore → Result RegisterDataStore → Result UpdatingRegisterDataStore
on_base s r = do b ← r; ok (record s { base = b })

-- RegisterDataStore as the store of an InputRegisterController.
abbrev pub register_store : External → DataStore RegisterDataStore
register_store x = record {
  read_location_valid = Registers.read_location_valid;
  write_location_valid = Registers.write_location_valid;
  get_register = Registers.get_register x;
  set_register = Registers.set_register;
  get_registers = Registers.get_registers x;
  set_registers = Registers.set_registers x;
}

-- UpdatingRegisterDataStore as the store of a HoldingRegisterController.
abbrev pub updating_store : External → CallbackStore UpdatingRegisterDataStore
updating_store x = record {
  store = record {
    read_location_valid = λ s. Registers.read_location_valid s.base;
    write_location_valid = λ s. Registers.write_location_valid s.base;
    get_register = λ s. Registers.get_register x s.base;
    set_register = λ s address value. on_base s (Registers.set_register s.base address value);
    get_registers = λ s. Registers.get_registers x s.base;
    set_registers =
        λ s address count v. on_base s (Registers.set_registers x s.base address count v);
  };
  set_register_callback = set_register_callback;
  set_registers_callback = set_registers_callback;
}
