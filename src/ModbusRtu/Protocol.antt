-- ===== src/ModbusRtu/Protocol.antt =====
-- include/Modbus/ModbusRtu/ModbusRtuProtocol.h: class ProtocolRtu, the framing of packets with their
-- CRC. `crc16_` is the function of examples/*/source/LinuxModbusTools.h.
pub mod Crc
pub mod Framing
pub mod Reply
pub mod Received
pub mod Overflow
pub mod Wire
pub mod RoundTrip
use modbus_basic.Common.{
  ℕ, zero, suc, ◌+◌, [], ◌∷◌, Bool, Result, ok, ◌>>=◌, ◌>>◌, assert, leb, ◌==◌, add_size, sub_size,
  min, replicate, List, IsByte,
}
use modbus_basic.External.{External}
use modbus_basic.View.{
  View, view_of, load_range, store, view_get, view_set, view_assign, read_uint16,
}
use modbus_basic.Modbus
use modbus_basic.Modbus.Function.{code, from_code}
use modbus_basic.Modbus.Frame.{Frame}
use modbus_basic.Modbus.Response.{Response, set_length, get_array_view, at_, put, assign}
use modbus_basic.ModbusRtu.ReadContext.{get_required_packet_size}

module _ (x : External) where
  -- The CRC of the first bytes of a view.
  pub crc16 : View → ℕ → Result ℕ
  crc16 array length = do
    assert x.ndebug (leb length array.size)
    bytes ← load_range array.storage array.start length
    ok (x.utilities_crc16 bytes)

  -- `FrameCrcIsValid` of a packet with header and CRC.
  unfoldable pub view_crc_is_valid : View → Result Bool
  unfolding crc16
  view_crc_is_valid frame_buffer = do
    frame_crc ← read_uint16 x frame_buffer (sub_size frame_buffer.size 2)
    calculated_crc ← crc16 frame_buffer (sub_size frame_buffer.size Modbus.k_footer_length)
    ok (frame_crc == calculated_crc)

  -- `data[i + kHeaderLength] = frame.data_array[i]`, for the `n` indices from `i` on.
  pub copy_to_array : View → List ℕ → ℕ → ℕ → Result (List ℕ)
  copy_to_array source array i zero = ok array
  copy_to_array source array i (suc n) = do
    b ← view_get x source i
    array' ← store array (i + Modbus.k_header_length) b
    copy_to_array source array' (suc i) n

  -- `FrameCrcIsValid` of a received frame, put together in an array of 256 bytes.
  unfoldable pub frame_crc_is_valid : Frame → Result Bool
  frame_crc_is_valid frame = do
    addressed ← store (replicate 256 0) Modbus.k_slave_address frame.address
    headed ← store addressed Modbus.k_function (code frame.function)
    copied ← copy_to_array frame.data_array headed 0 (min frame.data_length 256)
    view_crc_is_valid (record { storage = copied; start = 0; size = add_size frame.data_length 2 })

  -- `frame_buffer[i + kHeaderLength] = packet.data_array[i]`, likewise.
  pub copy_to_view : View → View → ℕ → ℕ → Result View
  copy_to_view source frame_buffer i zero = ok frame_buffer
  copy_to_view source frame_buffer i (suc n) = do
    b ← view_get x source i
    frame_buffer' ← view_set x frame_buffer (i + Modbus.k_header_length) b
    copy_to_view source frame_buffer' (suc i) n

  -- `ProtocolRtu::Frame`
  unfoldable pub frame_packet : Frame → View → Result View
  unfolding crc16
  frame_packet packet frame_buffer = do
    assert x.ndebug (leb (get_required_packet_size packet) frame_buffer.size)
    headed ←
        view_assign x frame_buffer (
          (Modbus.k_slave_address, packet.address) ∷ (Modbus.k_function, code packet.function) ∷ [])
    copied ← copy_to_view packet.data_array headed 0 packet.data_length
    crc ← crc16 copied (packet.data_length + Modbus.k_header_length)
    assert x.ndebug (get_required_packet_size packet == copied.size)
    let crc_start = sub_size (get_required_packet_size packet) 2
    view_assign x copied ((crc_start, x.get_byte crc 1) ∷ (crc_start + 1, x.get_byte crc 0) ∷ [])

  -- `FrameResponse`
  unfoldable pub frame_response : Frame → Response → Result Response
  unfolding crc16
  frame_response packet response = do
    addressed ← put x response Modbus.response_slave_address packet.address
    a ← at_ x addressed Modbus.response_slave_address
    assert x.ndebug (a == packet.address)
    headed ← put x addressed Modbus.response_function (code packet.function)
    f ← at_ x headed Modbus.response_function
    assert x.ndebug (f == code packet.function)
    crc ← crc16 (get_array_view headed) headed.length_
    let sized = set_length (add_size headed.length_ 2) headed
    let crc_start = sub_size sized.length_ 2
    assign x sized ((crc_start, x.get_byte crc 1) ∷ (add_size crc_start 1, x.get_byte crc 0) ∷ [])

  -- `packet->data_array[i] = frame_buffer[i + kHeaderLength]`, for the `n` indices from `i` on.
  pub copy_from_view : View → View → ℕ → ℕ → Result View
  copy_from_view frame_buffer target i zero = ok target
  copy_from_view frame_buffer target i (suc n) = do
    b ← view_get x frame_buffer (i + Modbus.k_header_length)
    target' ← view_set x target i b
    copy_from_view frame_buffer target' (suc i) n

  -- `ReadFrame`
  unfoldable pub read_frame : View → Frame → Result Frame
  read_frame frame_buffer packet = do
    let data_length =
        sub_size (sub_size frame_buffer.size Modbus.k_header_length) Modbus.k_footer_length
    assert x.ndebug (leb data_length packet.data_array.size)
    frame_function ← view_get x frame_buffer Modbus.k_function
    address ← view_get x frame_buffer Modbus.k_slave_address
    copied ← copy_from_view frame_buffer packet.data_array 0 data_length
    ok (record {
      address = address;
      function = from_code frame_function;
      data_length = data_length;
      data_array = copied;
    })
