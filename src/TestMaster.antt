-- ===== src/TestMaster.antt =====
-- examples/ConnectedDevice/LibmodbusMaster/source/LibModbusTestMaster.cpp: the program that reads all of a
-- device's input registers into a map of its own, and writes and reads back its holding registers.
pub mod Remote
pub mod Mirror
use modbus_basic.Common.{
  ℕ, ◌*◌, Bool, true, false, List, [], ◌∷◌, ◌++◌, Result, ok, ◌>>=◌, ◌>>◌, assert, ◌==◌,
  if◌then◌else◌, replicate, length, ℤ, pos, negsuc,
}
use modbus_basic.External.{External}
use modbus_basic.View.{View, view_of}
use modbus_basic.Utilities.{make_registers_to_bytes}
use modbus_basic.MappedStore.{MemoryController, MappedRegisterDataStore, set_field_from_address}
use modbus_basic.Maps.{Conversion}
use modbus_basic.Maps.Input
use modbus_basic.Maps.Input.{InputRegisters}

-- What it uses of libmodbus, which is not in the repository: the context, and for each call its return
-- value, the words that it puts into the caller's array, and the context afterwards.
pub record Libmodbus (C : Type 0) : Type 0 where
  pub new_rtu : (dev_name : List ℕ) → (baudrate : ℕ) → C
  pub set_slave : C → ℕ → C
  pub connect : C → ℤ × C
  pub set_debug : C → ℕ → C
  pub set_response_timeout : C → ℕ → ℕ → C
  pub set_byte_timeout : C → ℕ → ℕ → C
  pub read_input_registers : C → ℕ → ℕ → List ℕ → ℤ × List ℕ × C
  pub read_registers : C → ℕ → ℕ → List ℕ → ℤ × List ℕ × C
  pub write_registers : C → ℕ → ℕ → List ℕ → ℤ × C
  pub close : C → C

-- `rc == -1`
abbrev pub is_failure : ℤ → Bool
is_failure (pos n) = false
is_failure (negsuc n) = n == 0

-- `rc == cnt`
abbrev pub is_count : ℤ → ℕ → Bool
is_count (pos n) cnt = n == cnt
is_count (negsuc n) cnt = false

-- The state of `main`: the context, the map, and the arrays that `PrintArray` has printed.
pub record Master (C : Type 0) : Type 0 where
  pub ctx : C
  pub inregs : MappedRegisterDataStore InputRegisters
  pub printed : List (List ℕ)

-- The fields that `main` reads, in their order: the address and the number of registers.
abbrev pub text_fields : List (ℕ × ℕ)
text_fields = (0, 32) ∷ (32, 32) ∷ (64, 32) ∷ (96, 32) ∷ (128, 20) ∷ []

abbrev pub voltage_fields : List (ℕ × ℕ)
voltage_fields = (148, 1) ∷ (150, 2) ∷ (152, 2) ∷ (154, 2) ∷ (156, 2) ∷ (158, 2) ∷ (160, 2) ∷ []

abbrev pub reading_fields : List (ℕ × ℕ)
reading_fields = (162, 2) ∷ (164, 2) ∷ (166, 2) ∷ (168, 2) ∷ (170, 2) ∷ []

-- The values that it writes, in their order, with their addresses.
abbrev pub ones : List ℕ
ones = 0xffff ∷ 0xfffe ∷ []

abbrev pub written_fields : List (ℕ × List ℕ)
written_fields =
    (0, ones) ∷ (2, ones) ∷ (4, ones) ∷ (6, ones) ∷ (8, 0xffff ∷ []) ∷ (10, ones) ∷ (12, ones) ∷ []

-- `ConnectRtu`, with its default baud rate.
abbrev pub connect_rtu : {C : Type 0} → Libmodbus C → List ℕ → C
connect_rtu m dev_name = m.new_rtu dev_name 9600

module _ {C : Type 0} (x : External) (m : Libmodbus C) (c : MemoryController InputRegisters) where
  -- One block of `main` that reads a field. The return value is not looked at.
  unfoldable pub read_input_field : ℕ → ℕ → Master C → Result (Master C)
  read_input_field address count s = do
    let read = m.read_input_registers s.ctx address count (replicate count 0)
    bytes ← make_registers_to_bytes x read.1 (view_of (replicate (count * 2) 0))
    inregs ← set_field_from_address x c s.inregs address bytes
    ok (record s { ctx = read.2; inregs = inregs })

  unfoldable pub read_input_fields : List (ℕ × ℕ) → Master C → Result (Master C)
  read_input_fields [] s = ok s
  read_input_fields ((address, count) ∷ fields) s = do
    next ← read_input_field address count s
    read_input_fields fields next

  -- `ReadPrint`: the return value, and the state.
  unfoldable pub read_print : ℕ → ℕ → Master C → Result (ℤ × Master C)
  read_print address cnt s =
      let read = m.read_registers s.ctx address cnt (replicate cnt 0) in
      if is_failure read.0 then ok (negsuc 0, record s { ctx = read.2 }) else (do
        assert x.ndebug (is_count read.0 cnt)
        ok (pos 0, record s { ctx = read.2; printed = s.printed ++ (read.1 ∷ []) }))

  -- One block of `main` that writes a field and reads it back.
  unfoldable pub write_field : ℕ → List ℕ → Master C → Result (Master C)
  write_field address values s = do
    let out = m.write_registers s.ctx address (length values) values
    read ← read_print address (length values) (record s { ctx = out.1 })
    ok read.1

  unfoldable pub write_fields : List (ℕ × List ℕ) → Master C → Result (Master C)
  write_fields [] s = ok s
  write_fields ((address, values) ∷ fields) s = do
    next ← write_field address values s
    write_fields fields next

  -- `main`, for a device's name and a slave's address: the exit status and the state.
  unfoldable pub main : List ℕ → ℕ → Result (ℤ × Master C)
  main dev_name slave_address = do
    let connected = m.connect (m.set_slave (connect_rtu m dev_name) slave_address)
    let start : Master C = record {
      ctx = connected.1;
      inregs = record { new_data = false; memory_controller = Input.new_registers };
      printed = [];
    }
    if is_failure connected.0 then ok (negsuc 0, start) else (do
      let debugged = m.set_debug connected.1 slave_address
      let timed = m.set_byte_timeout (m.set_response_timeout debugged 1 0) 1 0
      texts ← read_input_fields text_fields (record start { ctx = timed })
      voltages ← read_input_fields voltage_fields texts
      readings ← read_input_fields reading_fields voltages
      written ← write_fields written_fields readings
      ok (pos 0, record written { ctx = m.close written.ctx }))
