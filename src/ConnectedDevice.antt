-- ===== src/ConnectedDevice.antt =====
-- examples/ConnectedDevice/LinuxSlave/source/LinuxSlave.h: the slave whose stores are mapped stores over the
-- generated maps.
pub mod Reads
pub mod Sessions
pub mod Refusals
pub mod Settings
use modbus_basic.Common.{ℕ, List, Bool, Result}
use modbus_basic.External.{External}
use modbus_basic.DataStores.{DataStore, CallbackStore}
use modbus_basic.MappedStore.{MappedRegisterDataStore, MemoryController, mapped_store}
use modbus_basic.Maps.{Conversion}
use modbus_basic.Maps.Holding.{HoldingRegisters}
use modbus_basic.Maps.Input
use modbus_basic.Maps.Input.{InputRegisters}
use modbus_basic.Maps.Input.Places.{input_map}
use modbus_basic.Linux.Serial.{Device}
use modbus_basic.Linux.Tools.{Timeval}
use modbus_basic.Linux.Run
use modbus_basic.Linux.Run.{LinuxSlave}

-- `input_register_data_store_`
abbrev pub input_store : External → Conversion → DataStore (MappedRegisterDataStore InputRegisters)
input_store x conversion = mapped_store x (input_map conversion)

-- `class LinuxSlave : public SlaveBase`, with its two stores.
abbrev pub ConnectedSlave : Type 0 → Type 0 → Type 0
ConnectedSlave B P =
    LinuxSlave B P (MappedRegisterDataStore HoldingRegisters)
      (MappedRegisterDataStore InputRegisters)

-- Its members are those of the class of examples/LinuxSlave. The callbacks that the holding controller asks of
-- its store are not members of MappedRegisterDataStore; they are a parameter.
module _ {B P : Type 0} (x : External)
    (holding : CallbackStore (MappedRegisterDataStore HoldingRegisters)) (conversion : Conversion)
    (d : Device B P) where
  -- `ProcessPacket`, without what it prints.
  abbrev pub process_packet : ConnectedSlave B P → Result (ConnectedSlave B P)
  process_packet l = Run.process_packet x holding (input_store x conversion) d l

  -- `Run`
  abbrev pub run : ℕ → Timeval → ConnectedSlave B P → Result (ConnectedSlave B P)
  run fuel now l = Run.run x holding (input_store x conversion) d fuel now l
