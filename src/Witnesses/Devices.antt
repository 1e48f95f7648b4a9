-- ===== src/Witnesses/Devices.antt =====
-- Concrete runs of the theorems: the connected device.
use modbus_basic.Common.{◌≡◌, refl, true, false, ◌>>=◌, [], ◌∷◌, ok, arith}
use modbus_basic.MappedStore.{MappedRegisterDataStore, check_location_valid, any_equal}
use modbus_basic.Maps.Input
use modbus_basic.Maps.Input.{InputRegisters}
use modbus_basic.Maps.Input.Places.{
  BeginsField, EndsField, check_location_valid-fields, input_offsets, input_ends,
}
use modbus_basic.ConnectedDevice.{input_store}
use modbus_basic.DataStores.{DataStore, CallbackStore}
use modbus_basic.DataStores.Registers.{RegisterDataStore}
use modbus_basic.DataStores.Updating.{UpdatingRegisterDataStore, updating_store, register_store}
use modbus_basic.ModbusRtu.Protocol.Reply.{IsFramed}
use modbus_basic.ModbusRtu.Slave.{Slave, new_base, receive, process_message}
use modbus_basic.ConnectedDevice.Sessions.{field_session}
use modbus_basic.ConnectedDevice.Refusals.{refused_session}
use modbus_basic.Maps.Holding
use modbus_basic.ConnectedDevice.Settings.{HoldingStore, with_callbacks}
use modbus_basic.ConnectedDevice.Settings.Sessions.{setting_session}
use modbus_basic.Witnesses.{inputs, plain, plain_laws, store, slave-IsIdle}
use modbus_basic.Witnesses.Maps.{conversion, conversion_laws}

-- A device whose p5_micro_volts is 0x01020304, and a read of it.
abbrev measured : MappedRegisterDataStore InputRegisters
measured = record {
  new_data = false;
  memory_controller = record Input.new_registers { p5_micro_volts = 16909060 };
}

abbrev device : Slave UpdatingRegisterDataStore (MappedRegisterDataStore InputRegisters)
device = record { base = new_base; slave_address = 9; holding = store; input = measured }

abbrev device_store : DataStore (MappedRegisterDataStore InputRegisters)
device_store = input_store plain conversion

field_session_example :
    (t : Slave UpdatingRegisterDataStore (MappedRegisterDataStore InputRegisters)) × ((do
      u ←
          receive plain
            (updating_store plain)
            device_store
            (9 ∷ 4 ∷ 0 ∷ 150 ∷ 0 ∷ 2 ∷ 0 ∷ 165 ∷ [])
            device
      process_message plain (updating_store plain) device_store true u)
      ≡ ok t)
    × (t.holding ≡ store)
    × (t.input ≡ measured)
    × (t.base.response_valid ≡ true)
    × IsFramed plain (9 ∷ 4 ∷ 4 ∷ 1 ∷ 2 ∷ 3 ∷ 4 ∷ []) t.base.response
field_session_example =
    field_session plain plain_laws (updating_store plain) conversion conversion_laws device 6 9
      (omega arith) (refl, refl, refl, refl, refl) (ground arith) refl refl slave-IsIdle.window
      (omega arith) refl

-- The first register of `version`, which has 32.
first_only : ¬ (BeginsField 0 × EndsField 0 1)
unfolding check_location_valid any_equal
first_only h =
    let accepted : check_location_valid 0 1 input_offsets input_ends ≡ true =
      (check_location_valid-fields 0 1 (omega arith) (omega arith)).1 h in
    cc accepted

refused_session_example :
    (t : Slave UpdatingRegisterDataStore (MappedRegisterDataStore InputRegisters)) × ((do
      u ←
          receive plain
            (updating_store plain)
            device_store
            (9 ∷ 4 ∷ 0 ∷ 0 ∷ 0 ∷ 1 ∷ 0 ∷ 14 ∷ [])
            device
      process_message plain (updating_store plain) device_store true u)
      ≡ ok t)
    × (t.holding ≡ store)
    × (t.input ≡ measured)
    × (t.base.response_valid ≡ true)
    × IsFramed plain (9 ∷ 0x84 ∷ 2 ∷ []) t.base.response
refused_session_example =
    refused_session plain plain_laws (updating_store plain) conversion device 9 0 1 (omega arith)
      first_only refl refl slave-IsIdle.window (omega arith) refl

-- A device whose isp_mode is 0x01020304, and a read of it.
abbrev settings : HoldingStore
settings = record {
  new_data = false;
  memory_controller = record Holding.new_registers { isp_mode = 16909060 };
}

abbrev configured : Slave HoldingStore RegisterDataStore
configured = record { base = new_base; slave_address = 9; holding = settings; input = inputs }

-- A holding store that does nothing when it is told of a write.
abbrev settings_store : CallbackStore HoldingStore
settings_store = with_callbacks plain conversion conversion_laws (λ s a w. ok s) (λ s a n v. ok s)

setting_session_example :
    (t : Slave HoldingStore RegisterDataStore) × ((do
      u ←
          receive plain settings_store
            (register_store plain)
            (9 ∷ 3 ∷ 0 ∷ 4 ∷ 0 ∷ 2 ∷ 0 ∷ 18 ∷ [])
            configured
      process_message plain settings_store (register_store plain) true u)
      ≡ ok t)
    × (t.holding ≡ settings)
    × (t.input ≡ inputs)
    × (t.base.response_valid ≡ true)
    × IsFramed plain (9 ∷ 3 ∷ 4 ∷ 1 ∷ 2 ∷ 3 ∷ 4 ∷ []) t.base.response
setting_session_example =
    setting_session plain plain_laws conversion conversion_laws (λ s a w. ok s) (λ s a n v. ok s)
      (register_store plain) configured 2 9 (omega arith) refl refl slave-IsIdle.window
      (omega arith) refl
