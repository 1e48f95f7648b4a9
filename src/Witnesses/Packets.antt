-- ===== src/Witnesses/Packets.antt =====
-- Concrete runs of the theorems: functions, packets and their CRC.
use modbus_basic.Common.{
  ◌≡◌, refl, replicate-IsByte, true, false, [], ◌∷◌, ok, err, out_of_bounds, arith, replicate, pos,
}
use modbus_basic.View.{View, view_of}
use modbus_basic.Modbus.Function.{from_code}
use modbus_basic.Modbus.Frame.{Frame}
use modbus_basic.Common.{range}
use modbus_basic.ModbusRtu.Protocol.{frame_packet, read_frame, view_crc_is_valid}
use modbus_basic.ModbusRtu.Protocol.RoundTrip.{read_frame-frame_packet}
use modbus_basic.Modbus.Function.{
  Function, code, read_coils, write_single_holding_register, write_multiple_holding_registers,
  get_function, function_code_is_valid, code_in, first_with_code,
}
use modbus_basic.Modbus.Function.Laws.{get_function_lem}
use modbus_basic.Modbus.Frame.{frame_over}
use modbus_basic.Modbus.Response.{Response, new_response}
use modbus_basic.ModbusRtu.Protocol.Overflow.{frame_crc_is_valid-outside}
use modbus_basic.ModbusRtu.ReadContext
use modbus_basic.ModbusRtu.ReadContext.{PacketState, process_all, process_character}
use modbus_basic.ModbusRtu.ReadContext.Receive.{process_all_packet}
use modbus_basic.ModbusRtu.Protocol.{frame_crc_is_valid, frame_response}
use modbus_basic.ModbusRtu.Protocol.Reply.{IsFramed, frame_response-IsFramed}
use modbus_basic.ModbusRtu.Slave.Errors.{request}
use modbus_basic.Witnesses.{plain, plain_laws, read_two, frame_of}

get_function_lem_example :
    (function_code_is_valid 16 ≡ true → code (get_function 16) ≡ 16)
    × (function_code_is_valid 16 ≡ false → get_function 16 ≡ Function.none)
get_function_lem_example = get_function_lem 16

process_all_packet_example :
    process_all plain ReadContext.reset
      (frame_over (view_of (replicate 8 0)))
      (9 ∷ 6 ∷ 0 ∷ 1 ∷ 0 ∷ 77 ∷ 0 ∷ 93 ∷ [])
    ≡ ok (
      record { state = PacketState.done; bytes_to_read = pos 0 },
      record {
        address = 9;
        function = write_single_holding_register;
        data_length = 6;
        data_array = view_of (0 ∷ 1 ∷ 0 ∷ 77 ∷ 0 ∷ 93 ∷ 0 ∷ 0 ∷ []);
      },
    )
unfolding function_code_is_valid code_in get_function first_with_code
process_all_packet_example =
    process_all_packet plain plain_laws (frame_over (view_of (replicate 8 0))) 9 6 (0 ∷ 1 ∷ [])
      (0 ∷ 77 ∷ 0 ∷ 93 ∷ []) refl refl refl (omega arith) refl (omega arith)

frame_response-IsFramed_example :
    (framed : Response) × (frame_response plain
        (frame_of read_coils read_two)
        (record new_response { length_ = 3 })
      ≡ ok framed)
    × IsFramed plain (9 ∷ 1 ∷ 0 ∷ []) framed
frame_response-IsFramed_example =
    frame_response-IsFramed plain plain_laws (frame_of read_coils read_two)
      (record new_response { length_ = 3 }) 1 refl (replicate-IsByte 256 0 (omega arith))
      (omega arith) (omega arith) refl (omega arith)

frame_crc_is_valid-outside_example :
    frame_crc_is_valid plain
      (request 9 write_multiple_holding_registers 255 (view_of (replicate 256 0)))
    ≡ err out_of_bounds
frame_crc_is_valid-outside_example =
    frame_crc_is_valid-outside plain plain_laws
      (request 9 write_multiple_holding_registers 255 (view_of (replicate 256 0))) (omega arith)
      (omega arith) (omega arith)

abbrev sent : Frame
sent = record {
  address = 9;
  function = write_single_holding_register;
  data_length = 4;
  data_array = view_of (0 ∷ 1 ∷ 0 ∷ 77 ∷ []);
}

read_frame-frame_packet_example :
    (buffer : View) × (frame_packet plain sent (view_of (replicate 8 0)) ≡ ok buffer)
    × (range buffer.storage 0 8 ≡ 9 ∷ 6 ∷ 0 ∷ 1 ∷ 0 ∷ 77 ∷ 0 ∷ 93 ∷ [])
    × (view_crc_is_valid plain buffer ≡ ok true)
    × (read_frame plain buffer (frame_over (view_of (replicate 6 0)))
        ≡ ok (record {
          address = 9;
          function = write_single_holding_register;
          data_length = 4;
          data_array = view_of (0 ∷ 1 ∷ 0 ∷ 77 ∷ 0 ∷ 0 ∷ []);
        }))
unfolding from_code first_with_code
read_frame-frame_packet_example =
    read_frame-frame_packet plain plain_laws sent (frame_over (view_of (replicate 6 0)))
      (replicate 8 0) (omega arith) (omega arith) (ground arith) (omega arith) (omega arith)
      (replicate-IsByte 8 0 (omega arith)) refl (omega arith) (omega arith) (omega arith)
