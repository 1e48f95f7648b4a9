-- ===== src/ConnectedDevice/Refusals.antt =====
-- examples/ConnectedDevice/LinuxSlave/source/LinuxSlave.h: a master's request for registers of the input map
-- that do not begin where a field begins, or do not end where one ends.
use modbus_basic.Common.{
  ℕ, ◌+◌, ◌^◌, ◌≤◌, ◌<◌, Bool-cases, inl, inr, ◌≡◌, refl, [], ◌∷◌, true, false, ok, ◌>>=◌, IsByte,
  arith, ==_refl, ◌==◌,
}
use modbus_basic.External.{External, IsExternal}
use modbus_basic.View.{View}
use modbus_basic.View.Laws.{read_uint16_lem}
use modbus_basic.Modbus.Function.{
  read_input_registers, illegal_data_address, get_address_space_from_function, get_error_function,
  from_code, first_with_code,
}
use modbus_basic.Modbus.Frame.{Frame}
use modbus_basic.Modbus.Response.{Response}
use modbus_basic.DataStores.{CallbackStore}
use modbus_basic.DataCommand.{read_address_start}
use modbus_basic.RegisterControl.ReadMultiple
use modbus_basic.RegisterControl.InputController
use modbus_basic.RegisterControl.InputController.{validate_read_registers}
use modbus_basic.RegisterControl.HoldingController.Runs.{word, IsPayload}
use modbus_basic.MappedStore.{MappedRegisterDataStore, write_location_valid, check_location_valid}
use modbus_basic.Maps.{Conversion}
use modbus_basic.Maps.Input.{InputRegisters}
use modbus_basic.Maps.Input.Places.{
  input_offsets, input_ends, BeginsField, EndsField, check_location_valid-fields,
}
use modbus_basic.ModbusRtu.Protocol.{frame_crc_is_valid}
use modbus_basic.ModbusRtu.Protocol.Reply.{IsFramed}
use modbus_basic.ModbusRtu.Slave.{
  Slave, process_message, validate_message, validate_in_space, answer,
}
use modbus_basic.ModbusRtu.Slave.Errors.{send_error_response_lem}
use modbus_basic.ConnectedDevice.{input_store}
use modbus_basic.ConnectedDevice.Sessions.{asked, replied, received_by, session_lem, arrived-valid}
use modbus_basic.ModbusRtu.ReadContext
use modbus_basic.ModbusRtu.Slave.{receive}
use modbus_basic.Exchange.{Request, IsRequest, read_input, packet_of}
use modbus_basic.Exchange.Arrival.{IsWindow, arrived, two_words, arrived-IsPayload}

-- Registers that the check does not accept.
refused_lem :
    (address count : ℕ)
    → address + count < 2 ^ 64
    → 1 ≤ count
    → ¬ (BeginsField address × EndsField address count)
    → check_location_valid address count input_offsets input_ends ≡ false
refused_lem address count small some h =
    elim (Bool-cases (check_location_valid address count input_offsets input_ends)) [
      | inl valid ↦ absurd (h ((check_location_valid-fields address count small some).0 valid))
      | inr refused ↦ refused
    ]

module _ {H : Type 0} (x : External) (laws : IsExternal x) (h : CallbackStore H)
    (conversion : Conversion) where
  process_message-refused :
      (s : Slave H (MappedRegisterDataStore InputRegisters)) (a n : ℕ) (v : View)
      → IsPayload 4 v
      → IsByte a
      → s.slave_address ≡ a
      → frame_crc_is_valid x
          (record { address = a; function = read_input_registers; data_length = n; data_array = v })
        ≡ ok true
      → check_location_valid (word v 0) (word v 2) input_offsets input_ends ≡ false
      → (r : Response) × (process_message x h (input_store x conversion) true (
            asked s (record {
              address = a;
              function = read_input_registers;
              data_length = n;
              data_array = v;
            }))
          ≡ ok (
              replied
                (asked s (record {
                  address = a;
                  function = read_input_registers;
                  data_length = n;
                  data_array = v;
                }))
                r))
        × IsFramed x (a ∷ 0x84 ∷ 2 ∷ []) r
  unfolding process_message validate_message validate_in_space answer
      get_address_space_from_function InputController.validate_frame validate_read_registers
      read_address_start ReadMultiple.read_register_count write_location_valid get_error_function
      from_code first_with_code
  process_message-refused s a n v p byte mine good outside =
      let frame : Frame = record {
        address = a;
        function = read_input_registers;
        data_length = n;
        data_array = v;
      } in
      let same : (s.slave_address == a) ≡ true = rw mine (==_refl a) in
      let (r, eq, framed) =
        send_error_response_lem x laws frame illegal_data_address (asked s frame).base byte
          (omega arith) in
      (
        r,
        rw
            (
              read_uint16_lem x laws v 0 p.inside (omega (arith, p.room)) p.bytes,
              read_uint16_lem x laws v 2 p.inside (omega (arith, p.room)) p.bytes,
              outside,
              same,
              good,
              eq,
            )
            refl,
        framed,
      )

  -- A slave whose input store is the mapped store over the device's input map, whatever its holding
  -- store, receives byte by byte the packet of a request for input registers, within the protocol's
  -- limits, that do not begin where a field of the map begins or do not end where one ends, and
  -- processes it, all without a fault: both stores are as before, and a framed response is ready,
  -- which is the address, the error function and the exception of an illegal data address. The
  -- receiver is at rest over an empty frame with a window of 256 bytes in memory, and the slave has
  -- the packet's address, which is a byte.
  pub refused_session :
      (s : Slave H (MappedRegisterDataStore InputRegisters)) (a address count : ℕ)
      → IsRequest (read_input address count)
      → ¬ (BeginsField address × EndsField address count)
      → s.base.ctx ≡ ReadContext.reset
      → s.base.framein.data_length ≡ 0
      → IsWindow s.base.framein.data_array
      → IsByte a
      → s.slave_address ≡ a
      → (t : Slave H (MappedRegisterDataStore InputRegisters)) × ((do
        u ← receive x h (input_store x conversion) (packet_of x a (read_input address count)) s
        process_message x h (input_store x conversion) true u)
          ≡ ok t)
        × (t.holding ≡ s.holding)
        × (t.input ≡ s.input)
        × (t.base.response_valid ≡ true)
        × IsFramed x (a ∷ 0x84 ∷ 2 ∷ []) t.base.response
  refused_session s a address count valid outside calm empty window byte mine =
      let q : Request = read_input address count in
      let v : View = s.base.framein.data_array in
      let (first, second) =
        two_words x laws v window a byte q valid address count valid.0 (omega (arith, valid))
          (omega arith) (λ k below. refl) in
      let (r, eq, framed) =
        process_message-refused (received_by x a q s) a 6 (arrived x v a q)
          (arrived-IsPayload x laws v window a byte q valid 4 (omega arith)) byte mine
          (arrived-valid x laws v window a byte q valid)
          (rw (first, second)
            (refused_lem address count (omega (arith, valid)) (omega (arith, valid)) outside)) in
      (
        replied (received_by x a q s) r,
        session_lem x laws h (input_store x conversion) s a q _ calm empty window valid eq,
        refl,
        refl,
        refl,
        framed,
      )
