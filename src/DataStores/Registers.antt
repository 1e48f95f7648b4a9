-- ===== src/DataStores/Registers.antt =====
-- include/Modbus/DataStores/RegisterDataStore.h and DataStore.h: RegisterDataStore, an array of
-- 16-bit registers behind byte views.
pub mod Access
pub mod Beyond
pub mod Bounds
use modbus_basic.Common.{
  ℕ, zero, suc, ◌+◌, ◌-◌, ◌*◌, ◌/◌, Bool, ◌&&◌, List, Result, ok, ◌>>=◌, ◌>>◌, assert, ltb, leb,
  length, u16, add_size, sub_size, mul_size,
}
use modbus_basic.External.{External}
use modbus_basic.View.{View, load, store, put_word, read_uint16}

-- `DataStore::kAddressStart`
abbrev pub k_address_start : ℕ
k_address_start = 0

-- The array that `data_store_` points to, of `data_store_.second` registers.
pub record RegisterDataStore : Type 0 where
  pub registers : List ℕ

abbrev pub get_size : RegisterDataStore → ℕ
get_size s = length s.registers

-- The parameter is a `uint16_t`.
abbrev pub get_index : ℕ → ℕ
get_index address = u16 address - k_address_start

unfoldable pub is_address_valid : RegisterDataStore → ℕ → Bool
is_address_valid s address = leb (add_size address 1) (k_address_start + get_size s)

unfoldable pub read_location_valid : RegisterDataStore → ℕ → ℕ → Bool
unfolding is_address_valid
read_location_valid s address count =
    is_address_valid s address && is_address_valid s (sub_size (add_size address count) 1)

unfoldable pub write_location_valid : RegisterDataStore → ℕ → ℕ → Bool
write_location_valid s address count = read_location_valid s address count

unfoldable pub set_register : RegisterDataStore → ℕ → ℕ → Result RegisterDataStore
set_register s address value = do
  registers ← store s.registers (get_index address) value
  ok (record { registers = registers })

module _ (x : External) where
  unfoldable pub get_register : RegisterDataStore → ℕ → Result ℕ
  get_register s address = do
    let index = get_index address
    assert x.ndebug (ltb index (get_size s))
    load s.registers index

  -- The loop of `GetRegisters`, with `n` rounds left.
  pub get_from : RegisterDataStore → ℕ → ℕ → View → ℕ → Result View
  get_from s register_index byte_number data_view zero = ok data_view
  get_from s register_index byte_number data_view (suc n) = do
    state ← get_register s register_index
    filled ← put_word x data_view byte_number state
    get_from s (add_size register_index 1) (byte_number + 2) filled n

  -- `byte_number` runs from 0 in steps of two to `num_data_bytes`, which is even.
  unfoldable pub get_registers : RegisterDataStore → ℕ → ℕ → View → Result View
  get_registers s address register_count data_view =
      let num_data_bytes = mul_size register_count 2 in
      get_from s address 0 data_view (num_data_bytes / 2)

  -- The loop of `SetRegisters` from `index` on, with `n` rounds left.
  pub set_from : RegisterDataStore → ℕ → ℕ → View → ℕ → Result RegisterDataStore
  set_from s address index data_view zero = ok s
  set_from s address index data_view (suc n) = do
    let byte_index = mul_size index 2
    value ← read_uint16 x data_view byte_index
    s' ← set_register s (add_size address index) value
    set_from s' address (index + 1) data_view n

  unfoldable pub set_registers : RegisterDataStore → ℕ → ℕ → View → Result RegisterDataStore
  set_registers s address register_count data_view = set_from s address 0 data_view register_count
