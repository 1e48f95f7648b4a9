-- ===== src/DataCommand.antt =====
-- include/Modbus/DataCommand.h: the address that every register command begins with.
use modbus_basic.Common.{ℕ, ◌+◌, ◌-◌, Result}
use modbus_basic.External.{External}
use modbus_basic.View.{View, read_uint16}

abbrev pub k_integer_size : ℕ
k_integer_size = 2

abbrev pub k_data_address_start : ℕ
k_data_address_start = 0

abbrev pub k_data_address_end : ℕ
k_data_address_end = k_data_address_start + k_integer_size - 1

-- `DataCommand::ReadAddressStart`
unfoldable pub read_address_start : External → View → Result ℕ
read_address_start x data_array = read_uint16 x data_array k_data_address_start
