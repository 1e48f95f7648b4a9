-- ===== src/Exchange.antt =====
-- What a slave promises its master, without bytes, frames and buffers: requests on registers and
-- replies to them. The files below relate it to include/Modbus/ModbusRtu.
pub mod Arrival
pub mod Serving
pub mod Answer
pub mod Session
pub mod Command
pub mod Reading
pub mod Call
use modbus_basic.Common.{
  ℕ, ◌+◌, ◌*◌, ◌≤◌, List, [], ◌∷◌, ◌++◌, leb, if◌then◌else◌, length, set, range, write_at,
  encode_words, All, IsWord,
}
use modbus_basic.External.{External}
use modbus_basic.Modbus.Function.{
  Function, Exception, exception_code, illegal_data_address, code, get_error_function,
  read_multiple_holding_registers, read_input_registers, write_single_holding_register,
  write_multiple_holding_registers,
}
use modbus_basic.ModbusRtu.Protocol.Received.{with_trailer}

pub data Request : Type 0 where
  read_holding read_input : (address count : ℕ) → Request
  write_single : (address value : ℕ) → Request
  write_multiple : (address : ℕ) → (values : List ℕ) → Request

-- The registers that the slave keeps.
pub record Registers : Type 0 where
  pub holding : List ℕ
  pub input : List ℕ

pub data Reply : Type 0 where
  refused : Exception → Reply
  values_read : List ℕ → Reply
  written : (address value : ℕ) → Reply

-- A request on registers that do not all exist is refused and changes nothing.
abbrev pub serve : Request → Registers → Registers × Reply
serve (read_holding address count) r =
    if leb (address + count) (length r.holding)
    then (r, values_read (range r.holding address count))
    else (r, refused illegal_data_address)
serve (read_input address count) r =
    if leb (address + count) (length r.input)
    then (r, values_read (range r.input address count))
    else (r, refused illegal_data_address)
serve (write_single address value) r =
    if leb (address + 1) (length r.holding)
    then (record r { holding = set r.holding address value }, written address value)
    else (r, refused illegal_data_address)
serve (write_multiple address values) r =
    if leb (address + length values) (length r.holding)
    then (record r { holding = write_at r.holding address values }, written address (length values))
    else (r, refused illegal_data_address)

-- Requests within the protocol's limits: 16-bit words, 1 to 125 registers to read, 1 to 123 to write.
abbrev pub IsRequest : Request → Type 0
IsRequest (read_holding address count) = IsWord address × (1 ≤ count) × (count ≤ 125)
IsRequest (read_input address count) = IsWord address × (1 ≤ count) × (count ≤ 125)
IsRequest (write_single address value) = IsWord address × IsWord value
IsRequest (write_multiple address values) =
    IsWord address × (1 ≤ length values) × (length values ≤ 123) × All IsWord values

-- A request on the wire: its function, and its payload in the two parts that the receiver takes.
abbrev pub function_of : Request → Function
function_of (read_holding address count) = read_multiple_holding_registers
function_of (read_input address count) = read_input_registers
function_of (write_single address value) = write_single_holding_register
function_of (write_multiple address values) = write_multiple_holding_registers

abbrev pub head_of : Request → List ℕ
head_of (read_holding address count) = encode_words (address ∷ count ∷ [])
head_of (read_input address count) = encode_words (address ∷ count ∷ [])
head_of (write_single address value) = encode_words (address ∷ [])
head_of (write_multiple address values) =
    encode_words (address ∷ length values ∷ []) ++ (2 * length values ∷ [])

abbrev pub rest_of : Request → List ℕ
rest_of (read_holding address count) = []
rest_of (read_input address count) = []
rest_of (write_single address value) = encode_words (value ∷ [])
rest_of (write_multiple address values) = encode_words values

-- The packet of a request to the slave at an address.
abbrev pub packet_of : External → ℕ → Request → List ℕ
packet_of x a q =
    a ∷ code (function_of q) ∷ with_trailer x a (function_of q) (head_of q ++ rest_of q)

-- A reply on the wire, before its CRC.
abbrev pub reply_of : ℕ → Request → Reply → List ℕ
reply_of a q (refused e) = a ∷ code (get_error_function (function_of q)) ∷ exception_code e ∷ []
reply_of a q (values_read values) =
    a ∷ code (function_of q) ∷ 2 * length values ∷ encode_words values
reply_of a q (written address value) =
    a ∷ code (function_of q) ∷ encode_words (address ∷ value ∷ [])
