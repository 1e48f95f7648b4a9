-- ===== src/ModbusRtu/Slave/Validate.antt =====
-- include/Modbus/ModbusRtu/ModbusRtuSlave.h: how ValidateMessage judges a request.
use modbus_basic.Common.{
  ℕ, ◌+◌, ◌*◌, ◌≤◌, ◌<◌, ◌≡◌, refl, Bool, ◌&&◌, ok, arith, length, get_or, ltb, leb, ◌==◌,
  if◌then◌else◌, get_or-IsByte, size_mod, mul_size,
}
use modbus_basic.External.{External, IsExternal}
use modbus_basic.View.{View, read_uint16}
use modbus_basic.View.Laws.{read_uint16_lem, view_get_lem}
use modbus_basic.Modbus.Function.{
  Function, Exception, illegal_function, illegal_data_address, illegal_data_value, ack,
  get_address_space_from_function, read_coils, read_multiple_holding_registers,
  read_input_registers, write_single_holding_register, write_multiple_holding_registers,
}
use modbus_basic.DataCommand.{read_address_start}
use modbus_basic.DataStores.Registers.{RegisterDataStore, read_location_valid, write_location_valid}
use modbus_basic.DataStores.Registers.Bounds.{read_location_valid_iff}
use modbus_basic.DataStores.Updating.{UpdatingRegisterDataStore, register_store, updating_store}
use modbus_basic.RegisterControl.ReadMultiple
use modbus_basic.RegisterControl.WriteMultiple
use modbus_basic.RegisterControl.HoldingController
use modbus_basic.RegisterControl.HoldingController.Runs.{word, IsPayload}
use modbus_basic.RegisterControl.InputController
use modbus_basic.ModbusRtu.Slave.{Slave, validate_message}

-- A slave over the data stores of the library.
abbrev pub RegisterSlave : Type 0
RegisterSlave = Slave UpdatingRegisterDataStore RegisterDataStore

-- A request's registers, from its address on, all stand in the store, the first one in any case.
abbrev pub in_store : RegisterDataStore → ℕ → ℕ → Bool
in_store s address count =
    ltb address (length s.registers) && leb (address + count) (length s.registers)

-- The answer that a request deserves.
abbrev pub verdict : Function → RegisterDataStore → RegisterDataStore → View → Exception
verdict read_multiple_holding_registers holding input v =
    if in_store holding (word v 0) (word v 2) then ack else illegal_data_address
verdict read_input_registers holding input v =
    if in_store input (word v 0) (word v 2) then ack else illegal_data_address
verdict write_single_holding_register holding input v =
    if in_store holding (word v 0) 1 then ack else illegal_data_address
verdict write_multiple_holding_registers holding input v =
    if in_store holding (word v 0) (word v 2)
    then if 2 * word v 2 == get_or v.storage (v.start + 4) 0 then ack else illegal_data_value
    else illegal_data_address
verdict _ holding input v = illegal_function

-- An enumerator of the enum, which every received function is.
abbrev pub IsNamed : Function → Type 0
IsNamed (Function.unnamed n) = ⊥
IsNamed read_coils = Unit
IsNamed _ = Unit

module _ (x : External) (laws : IsExternal x) where
  location_lem :
      (s : RegisterDataStore) (address count : ℕ)
      → address < 65536
      → count < 65536
      → length s.registers < size_mod
      → read_location_valid s address count ≡ in_store s address count
  location_lem s address count a c h = ground (arith, read_location_valid_iff s address count a c h)

  module _ (s : RegisterSlave) (a n : ℕ) (v : View) (p : IsPayload 5 v)
      (hs : length s.holding.base.registers < size_mod)
      (is : length s.input.registers < size_mod) where
    word_lem : (i : ℕ) → i + 2 ≤ 5 → read_uint16 x v i ≡ ok (word v i)
    word_lem i h = read_uint16_lem x laws v i p.inside (omega arith) p.bytes

    word-lt : (i : ℕ) → word v i < 65536
    word-lt i = omega (
      arith,
      get_or-IsByte v.storage (v.start + i) p.bytes,
      get_or-IsByte v.storage (v.start + i + 1) p.bytes,
    )

    -- A request whose function is an enumerator is judged without a fault: a function that is not
    -- implemented is an illegal function, a location that does not begin and end in the store is an
    -- illegal address, a byte count that is not twice the register count is an illegal value, and
    -- all else is accepted. The payload lies in memory with at least 5 bytes, all of memory are
    -- bytes, and the stores are smaller than the address range.
    pub validate_message-verdict :
        (f : Function)
        → IsNamed f
        → validate_message x
            (updating_store x)
            (register_store x)
            s
            (record { address = a; function = f; data_length = n; data_array = v })
          ≡ ok (verdict f s.holding.base s.input v)
    unfolding validate_message get_address_space_from_function HoldingController.validate_frame
        InputController.validate_frame read_address_start ReadMultiple.read_register_count
        WriteMultiple.read_register_count WriteMultiple.read_data_byte_count write_location_valid
    validate_message-verdict read_multiple_holding_registers named =
        rw
          (
            word_lem 0 (omega arith),
            word_lem 2 (omega arith),
            location_lem s.holding.base (word v 0) (word v 2) (word-lt 0) (word-lt 2) hs,
          )
          (ground arith)
    validate_message-verdict read_input_registers named =
        rw
          (
            word_lem 0 (omega arith),
            word_lem 2 (omega arith),
            location_lem s.input (word v 0) (word v 2) (word-lt 0) (word-lt 2) is,
          )
          (ground arith)
    validate_message-verdict write_single_holding_register named =
        rw
          (
            word_lem 0 (omega arith),
            location_lem s.holding.base (word v 0) 1 (word-lt 0) (omega arith) hs,
          )
          (ground arith)
    validate_message-verdict write_multiple_holding_registers named =
        rw
          (
            word_lem 2 (omega arith),
            view_get_lem x laws v 4 p.inside (omega arith),
            word_lem 0 (omega arith),
            location_lem s.holding.base (word v 0) (word v 2) (word-lt 0) (word-lt 2) hs,
            bytes,
          )
          (ground arith)
      where
        bytes : mul_size (word v 2) 2 ≡ 2 * word v 2
        bytes = omega (arith, word-lt 2)
    validate_message-verdict (Function.unnamed k) named = absurd named
    validate_message-verdict _ named = refl
