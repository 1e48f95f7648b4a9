-- ===== src/Modbus/Function.antt =====
-- include/Modbus/Modbus.h: function codes, address spaces, exceptions, and the functions that
-- classify a code.
pub mod Laws
use modbus_basic.Common.{
  ℕ, ◌+◌, ◌≡◌, Bool, true, false, List, [], ◌∷◌, Result, ok, err, no_return, ◌>>=◌, ◌>>◌, assert,
  ltb, leb, ◌==◌, if◌then◌else◌,
}
use modbus_basic.External.{External}

abbrev pub k_status_response_add_value : ℕ
k_status_response_add_value = 0x80

pub data Exception : Type 0 where
  no_exception illegal_function illegal_data_address illegal_data_value : Exception
  slave_device_failure ack slave_device_busy nak memory_parity_error : Exception
  gateway_path_unavailable gateway_path_device_no_response crc_failure : Exception

-- `static_cast<uint8_t>(exception)`
abbrev pub exception_code : Exception → ℕ
exception_code no_exception = 0
exception_code illegal_function = 1
exception_code illegal_data_address = 2
exception_code illegal_data_value = 3
exception_code slave_device_failure = 4
exception_code ack = 5
exception_code slave_device_busy = 6
exception_code nak = 7
exception_code memory_parity_error = 8
exception_code gateway_path_unavailable = 9
exception_code gateway_path_device_no_response = 10
exception_code crc_failure = 11

pub data AddressSpace : Type 0 where
  coil discrete_input input_register holding_register : AddressSpace
  system_status device_identifier unmapped : AddressSpace

-- `unnamed n` is a value with no enumerator, which a cast of a byte to the enum can make.
pub data Function : Type 0 where
  read_coils read_discrete_inputs read_multiple_holding_registers read_input_registers : Function
  write_single_coil write_single_holding_register read_exception_status diagnostic : Function
  get_com_event_counter get_com_event_log write_multiple_coils : Function
  write_multiple_holding_registers report_slave_id read_file_record write_file_record : Function
  mask_write_register read_write_multiple_registers read_fifo_queue : Function
  read_device_identification : Function
  error_read_coils error_read_discrete_inputs error_read_multiple_holding_registers : Function
  error_read_input_registers error_write_single_coil error_write_single_holding_register : Function
  error_read_exception_status error_diagnostic error_get_com_event_counter : Function
  error_get_com_event_log error_write_multiple_coils : Function
  error_write_multiple_holding_registers error_report_slave_id error_read_file_record : Function
  error_write_file_record error_mask_write_register error_read_write_multiple_registers : Function
  error_read_fifo_queue error_read_device_identification : Function
  none : Function
  unnamed : ℕ → Function

-- `static_cast<uint8_t>(function)`
abbrev pub code : Function → ℕ
code read_coils = 1
code read_discrete_inputs = 2
code read_multiple_holding_registers = 3
code read_input_registers = 4
code write_single_coil = 5
code write_single_holding_register = 6
code read_exception_status = 7
code diagnostic = 8
code get_com_event_counter = 11
code get_com_event_log = 12
code write_multiple_coils = 15
code write_multiple_holding_registers = 16
code report_slave_id = 17
code read_file_record = 20
code write_file_record = 21
code mask_write_register = 22
code read_write_multiple_registers = 23
code read_fifo_queue = 24
code read_device_identification = 43
code error_read_coils = 1 + k_status_response_add_value
code error_read_discrete_inputs = 2 + k_status_response_add_value
code error_read_multiple_holding_registers = 3 + k_status_response_add_value
code error_read_input_registers = 4 + k_status_response_add_value
code error_write_single_coil = 5 + k_status_response_add_value
code error_write_single_holding_register = 6 + k_status_response_add_value
code error_read_exception_status = 7 + k_status_response_add_value
code error_diagnostic = 8 + k_status_response_add_value
code error_get_com_event_counter = 11 + k_status_response_add_value
code error_get_com_event_log = 12 + k_status_response_add_value
code error_write_multiple_coils = 15 + k_status_response_add_value
code error_write_multiple_holding_registers = 16 + k_status_response_add_value
code error_report_slave_id = 17 + k_status_response_add_value
code error_read_file_record = 20 + k_status_response_add_value
code error_write_file_record = 21 + k_status_response_add_value
code error_mask_write_register = 22 + k_status_response_add_value
code error_read_write_multiple_registers = 23 + k_status_response_add_value
code error_read_fifo_queue = 24 + k_status_response_add_value
code error_read_device_identification = 43 + k_status_response_add_value
code none = 0xff
code (unnamed n) = n

-- `f == g`
infix 50 ◌==f◌
abbrev pub ◌==f◌ : Function → Function → Bool
f ==f g = code f == code g

abbrev pub get_valid_functions : List Function
get_valid_functions =
    read_coils ∷ read_discrete_inputs ∷ read_multiple_holding_registers ∷ read_input_registers
    ∷ write_single_coil ∷ write_single_holding_register ∷ read_exception_status ∷ diagnostic
    ∷ get_com_event_counter ∷ get_com_event_log ∷ write_multiple_coils
    ∷ write_multiple_holding_registers ∷ report_slave_id ∷ read_file_record ∷ write_file_record
    ∷ mask_write_register ∷ read_write_multiple_registers ∷ read_fifo_queue
    ∷ read_device_identification ∷ []

abbrev pub get_supported_functions : List Function
get_supported_functions =
    read_multiple_holding_registers ∷ read_input_registers ∷ write_single_holding_register
    ∷ write_multiple_holding_registers ∷ []

-- The enumerators above `kStatusResponseAddValue`.
abbrev pub error_functions : List Function
error_functions =
    error_read_coils ∷ error_read_discrete_inputs ∷ error_read_multiple_holding_registers
    ∷ error_read_input_registers ∷ error_write_single_coil ∷ error_write_single_holding_register
    ∷ error_read_exception_status ∷ error_diagnostic ∷ error_get_com_event_counter
    ∷ error_get_com_event_log ∷ error_write_multiple_coils ∷ error_write_multiple_holding_registers
    ∷ error_report_slave_id ∷ error_read_file_record ∷ error_write_file_record
    ∷ error_mask_write_register ∷ error_read_write_multiple_registers ∷ error_read_fifo_queue
    ∷ error_read_device_identification ∷ none ∷ []

-- The first function of a list with a given code, or else another.
unfoldable pub first_with_code : ℕ → Function → List Function → Function
first_with_code n other [] = other
first_with_code n other (f ∷ fs) = if n == code f then f else first_with_code n other fs

-- `static_cast<Function>(n)`
unfoldable pub from_code : ℕ → Function
unfolding first_with_code
from_code n = first_with_code n (first_with_code n (unnamed n) error_functions) get_valid_functions

unfoldable pub get_error_function : Function → Function
get_error_function function =
    if leb k_status_response_add_value (code function)
    then function
    else from_code (code function + k_status_response_add_value)

unfoldable pub get_function : ℕ → Function
get_function n = first_with_code n none get_valid_functions

-- The loop returns in its first round, or breaks out of it and runs off the end of the function.
pub function_is_supported : Function → Result Bool
function_is_supported function = go get_supported_functions
  where
    go : List Function → Result Bool
    go [] = err no_return
    go (i ∷ rest) = if function ==f i then err no_return else ok false

unfoldable pub code_in : ℕ → List Function → Bool
code_in n [] = false
code_in n (pt ∷ fs) = if code pt == n then true else code_in n fs

unfoldable pub function_code_is_valid : ℕ → Bool
function_code_is_valid n =
    if ltb (code read_device_identification) n then false else code_in n get_valid_functions

unfoldable pub get_address_space_from_function : External → Function → Result AddressSpace
get_address_space_from_function x read_coils = ok coil
get_address_space_from_function x write_single_coil = ok coil
get_address_space_from_function x write_multiple_coils = ok coil
get_address_space_from_function x read_discrete_inputs = ok discrete_input
get_address_space_from_function x read_input_registers = ok input_register
get_address_space_from_function x read_multiple_holding_registers = ok holding_register
get_address_space_from_function x write_single_holding_register = ok holding_register
get_address_space_from_function x write_multiple_holding_registers = ok holding_register
get_address_space_from_function x read_write_multiple_registers = ok holding_register
get_address_space_from_function x mask_write_register = ok holding_register
get_address_space_from_function x read_exception_status = ok system_status
get_address_space_from_function x diagnostic = ok system_status
get_address_space_from_function x get_com_event_counter = ok system_status
get_address_space_from_function x get_com_event_log = ok system_status
get_address_space_from_function x report_slave_id = ok device_identifier
get_address_space_from_function x read_file_record = ok unmapped
get_address_space_from_function x write_file_record = ok unmapped
get_address_space_from_function x read_fifo_queue = ok unmapped
get_address_space_from_function x read_device_identification = ok device_identifier
get_address_space_from_function x none = ok unmapped
get_address_space_from_function x f = do assert x.ndebug false; ok unmapped
