-- ===== src/Modbus.antt =====
-- include/Modbus/Modbus.h: the shared definitions of the library.
pub mod Function
pub mod Frame
pub mod Response
use modbus_basic.Common.{ℕ}

-- `struct Command`: the layout of a packet's header and footer.
abbrev pub k_header_length : ℕ
k_header_length = 2

abbrev pub k_footer_length : ℕ
k_footer_length = 2

-- `struct CommandPacket`
abbrev pub k_slave_address : ℕ
k_slave_address = 0

abbrev pub k_function : ℕ
k_function = 1

abbrev pub k_header_end : ℕ
k_header_end = k_function

-- `struct ResponsePacket`
abbrev pub response_slave_address : ℕ
response_slave_address = k_slave_address

abbrev pub response_function : ℕ
response_function = k_function

abbrev pub response_header_end : ℕ
response_header_end = k_header_end
