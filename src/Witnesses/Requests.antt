-- ===== src/Witnesses/Requests.antt =====
-- Concrete runs of the theorems: whole requests.
use modbus_basic.Common.{◌≡◌, refl, true, false, [], ◌∷◌, ok, arith, replicate}
use modbus_basic.View.{view_of}
use modbus_basic.Modbus.Function.{
  illegal_data_address, code, read_multiple_holding_registers, read_input_registers,
  write_single_holding_register, write_multiple_holding_registers, get_error_function,
}
use modbus_basic.Modbus.Response.{Response}
use modbus_basic.DataStores.Updating.{updating_store, register_store}
use modbus_basic.ModbusRtu.Protocol.Received.{received, received-valid}
use modbus_basic.ModbusRtu.Protocol.{frame_crc_is_valid}
use modbus_basic.ModbusRtu.Protocol.Reply.{IsFramed}
use modbus_basic.ModbusRtu.Slave.{process_message, validate_message}
use modbus_basic.ModbusRtu.Slave.Validate.{validate_message-verdict}
use modbus_basic.ModbusRtu.Slave.Errors.{
  request, with_request, with_response, process_message_foreign, process_message_refused,
}
use modbus_basic.ModbusRtu.Slave.Commands.{
  with_holding, process_message_read_holding, process_message_write_single,
  process_message_write_multiple, process_message_read_input,
}
use modbus_basic.Witnesses.{
  plain, plain_laws, slave, store-IsStore, slave-IsSized, read_two, read_input, write_one,
  write_two, read_far, read_two-IsPayload, read_input-IsPayload, write_one-IsPayload,
  write_two-IsPayload, read_far-IsPayload, frame_of, read_two_crc, read_input_crc, read_far_crc,
  write_one_crc, write_two_crc, refused,
}

validate_message-verdict_example :
    validate_message plain
      (updating_store plain)
      (register_store plain)
      slave
      (frame_of read_multiple_holding_registers read_far)
    ≡ ok illegal_data_address
validate_message-verdict_example =
    validate_message-verdict plain plain_laws slave 9 6 read_far read_far-IsPayload (omega arith)
      (omega arith) read_multiple_holding_registers tt

process_message_foreign_example :
    process_message plain
      (updating_store plain)
      (register_store plain)
      true
      (with_request slave (request 8 read_multiple_holding_registers 6 read_two))
    ≡ ok (with_request slave (request 8 read_multiple_holding_registers 6 read_two))
process_message_foreign_example =
    process_message_foreign plain plain_laws slave slave-IsSized 8 6 read_multiple_holding_registers
      read_two read_two-IsPayload tt (λ e. omega arith)

process_message_refused_example :
    (r : Response) × (process_message plain
        (updating_store plain)
        (register_store plain)
        true
        (with_request slave (frame_of read_multiple_holding_registers read_far))
      ≡ ok (
          with_response (with_request slave (frame_of read_multiple_holding_registers read_far)) r))
    × IsFramed plain (9 ∷ code (get_error_function read_multiple_holding_registers) ∷ 2 ∷ []) r
process_message_refused_example =
    process_message_refused plain plain_laws slave slave-IsSized 9 6 read_multiple_holding_registers
      read_far read_far-IsPayload tt (omega arith) refl read_far_crc refused

process_message_read_holding_example :
    (r : Response) × (process_message plain
        (updating_store plain)
        (register_store plain)
        true
        (with_request slave (frame_of read_multiple_holding_registers read_two))
      ≡ ok (
          with_response (with_request slave (frame_of read_multiple_holding_registers read_two)) r))
    × IsFramed plain (9 ∷ 3 ∷ 4 ∷ 0 ∷ 20 ∷ 0 ∷ 30 ∷ []) r
process_message_read_holding_example =
    process_message_read_holding plain plain_laws slave slave-IsSized store-IsStore 9 6 read_two
      read_two-IsPayload (omega arith) refl read_two_crc (omega arith) (omega arith) (omega arith)

process_message_write_single_example :
    (r : Response) × (process_message plain
        (updating_store plain)
        (register_store plain)
        true
        (with_request slave (frame_of write_single_holding_register write_one))
      ≡ ok (
          with_response
            (with_holding
              (with_request slave (frame_of write_single_holding_register write_one))
              (record {
                base = record { registers = 10 ∷ 77 ∷ 30 ∷ 40 ∷ [] };
                flags = false ∷ true ∷ false ∷ false ∷ [];
              }))
            r))
    × IsFramed plain (9 ∷ 6 ∷ 0 ∷ 1 ∷ 0 ∷ 77 ∷ []) r
process_message_write_single_example =
    process_message_write_single plain plain_laws slave slave-IsSized store-IsStore 9 6 write_one
      write_one-IsPayload (omega arith) refl write_one_crc (omega arith)

process_message_write_multiple_example :
    (r : Response) × (process_message plain
        (updating_store plain)
        (register_store plain)
        true
        (with_request slave (request 9 write_multiple_holding_registers 11 write_two))
      ≡ ok (
          with_response
            (with_holding
              (with_request slave (request 9 write_multiple_holding_registers 11 write_two))
              (record {
                base = record { registers = 10 ∷ 50 ∷ 60 ∷ 40 ∷ [] };
                flags = false ∷ true ∷ true ∷ false ∷ [];
              }))
            r))
    × IsFramed plain (9 ∷ 16 ∷ 0 ∷ 1 ∷ 0 ∷ 2 ∷ []) r
process_message_write_multiple_example =
    process_message_write_multiple plain plain_laws slave slave-IsSized store-IsStore 9 11 write_two
      (write_two-IsPayload 5 (omega arith)) (omega arith) refl write_two_crc
      (write_two-IsPayload 9 (omega arith)) refl (omega arith) (omega arith)

process_message_read_input_example :
    (r : Response) × (process_message plain
        (updating_store plain)
        (register_store plain)
        true
        (with_request slave (frame_of read_input_registers read_input))
      ≡ ok (with_response (with_request slave (frame_of read_input_registers read_input)) r))
    × IsFramed plain (9 ∷ 4 ∷ 4 ∷ 0 ∷ 7 ∷ 3 ∷ 32 ∷ []) r
process_message_read_input_example =
    process_message_read_input plain plain_laws slave slave-IsSized store-IsStore 9 6 read_input
      read_input-IsPayload (omega arith) refl read_input_crc (omega arith) (omega arith)
      (omega arith) (omega arith)

received-valid_example :
    frame_crc_is_valid plain (
      received plain
        (view_of (replicate 6 0))
        9
        read_multiple_holding_registers
        (0 ∷ 1 ∷ 0 ∷ 2 ∷ []))
    ≡ ok true
received-valid_example =
    received-valid plain plain_laws (view_of (replicate 6 0)) 9 read_multiple_holding_registers
      (0 ∷ 1 ∷ 0 ∷ 2 ∷ []) (omega arith) (omega arith) (omega arith) (ground arith) (ground arith)
      (omega arith) (omega arith)
