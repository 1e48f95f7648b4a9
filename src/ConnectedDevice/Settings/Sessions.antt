-- ===== src/ConnectedDevice/Settings/Sessions.antt =====
-- examples/ConnectedDevice/LinuxSlave/source/LinuxSlave.h: a master's request to read a field of the holding
-- map, from its first byte on the line to the framed response.
use modbus_basic.Common.{
  ℕ, suc, ◌+◌, ◌*◌, ◌/◌, ◌<◌, ◌≡◌, refl, List, [], ◌∷◌, true, false, Result, ok, ◌>>=◌, get_or,
  get_or-IsWord, write_at, IsByte, arith, ==_refl, ap, ◌∙◌, length-write_at, write_at-IsByte,
}
use modbus_basic.External.{External, IsExternal}
use modbus_basic.View.{View}
use modbus_basic.View.Laws.{set_all, length-set_all, set_all-IsByte}
use modbus_basic.Modbus.Function.{read_multiple_holding_registers, get_address_space_from_function}
use modbus_basic.Modbus.Frame.{Frame}
use modbus_basic.Modbus.Response.{Response}
use modbus_basic.DataStores.{DataStore, CallbackStore}
use modbus_basic.RegisterControl.HoldingController
use modbus_basic.RegisterControl.HoldingController.{validate_read_multiple, run_read_multiple}
use modbus_basic.RegisterControl.HoldingController.Runs.{word, IsPayload}
use modbus_basic.Maps.{Conversion, IsConversion}
use modbus_basic.Maps.Holding.Fields.{size_at}
use modbus_basic.Maps.Holding.Places.{holding_offsets, holding_places}
use modbus_basic.ModbusRtu.Protocol.{frame_crc_is_valid}
use modbus_basic.ModbusRtu.Protocol.Reply.{IsFramed, frame_response-IsFramed}
use modbus_basic.ModbusRtu.ReadContext
use modbus_basic.ModbusRtu.Slave.{
  Slave, receive, process_message, validate_message, validate_in_space, run_command, run_in_space,
  answer,
}
use modbus_basic.ModbusRtu.Slave.Replies.{zeros, zeros-IsByte, length-zeros, reframe, header_reply}
use modbus_basic.Exchange.{Request, IsRequest, read_holding, packet_of}
use modbus_basic.Exchange.Arrival.{IsWindow, arrived, two_words, arrived-IsPayload}
use modbus_basic.ConnectedDevice.Sessions.{asked, replied, received_by, session_lem, arrived-valid}
use modbus_basic.ConnectedDevice.Settings.{
  HoldingStore, with_callbacks, field_of, field-IsField, run_read_multiple-field,
}

module _ {I : Type 0} (x : External) (laws : IsExternal x) (c : Conversion) (cl : IsConversion c)
    (one : HoldingStore → ℕ → ℕ → Result HoldingStore)
    (several : HoldingStore → ℕ → ℕ → View → Result HoldingStore) (d : DataStore I) where
  abbrev pub holding_store : CallbackStore HoldingStore
  holding_store = with_callbacks x c cl one several

  -- The request in the frame of a slave whose address it has.
  process_message-setting :
      (s : Slave (HoldingStore) I) (i a n : ℕ) (v : View)
      → i < 7
      → IsPayload 4 v
      → IsByte a
      → s.slave_address ≡ a
      → frame_crc_is_valid x (record {
        address = a;
        function = read_multiple_holding_registers;
        data_length = n;
        data_array = v;
      })
        ≡ ok true
      → word v 0 ≡ get_or holding_offsets i 0
      → word v 2 ≡ size_at i / 2
      → (r : Response) × (process_message x holding_store d true (
            asked s (record {
              address = a;
              function = read_multiple_holding_registers;
              data_length = n;
              data_array = v;
            }))
          ≡ ok (
              replied
                (asked s (record {
                  address = a;
                  function = read_multiple_holding_registers;
                  data_length = n;
                  data_array = v;
                }))
                r))
        × IsFramed x (a ∷ 3 ∷ size_at i ∷ field_of s.holding i) r
  unfolding process_message validate_message validate_in_space run_command run_in_space answer
      get_address_space_from_function HoldingController.validate_frame HoldingController.read_frame
  process_message-setting s i a n v below p byte mine good address count =
      let frame : Frame = record {
        address = a;
        function = read_multiple_holding_registers;
        data_length = n;
        data_array = v;
      } in
      let field : List ℕ = field_of s.holding i in
      let ws : List (ℕ × ℕ) = (0, a) ∷ (1, 3) ∷ (2, 2 * word v 2) ∷ [] in
      let written : List ℕ = write_at (set_all zeros ws) 3 field in
      let (index, begins, ends, double, some, few) = holding_places i below in
      let (whole, bytes) = field-IsField s.holding.memory_controller i in
      let (fine, run) =
        run_read_multiple-field x laws c cl one several i s.holding frame below p address count in
      let (r, eq, framed) =
        frame_response-IsFramed x laws frame
          (record { length_ = 3 + 2 * word v 2; data_ = written; ready = false })
          (suc (2 * word v 2))
          (omega (
            arith,
            length-write_at (set_all zeros ws) 3 field,
            length-set_all zeros ws,
            length-zeros,
          ))
          (write_at-IsByte (set_all zeros ws) 3 field
            (set_all-IsByte zeros ws zeros-IsByte
              (byte, (omega arith, (omega (arith, count, few), tt))))
            bytes)
          byte (omega arith) (omega arith) (omega (arith, count, few)) in
      (
        r,
        rw (mine, ==_refl a, fine, good, run, eq) refl,
        reframe x r
            (ap (λ t. a ∷ 3 ∷ t)
              (header_reply ws field (2 * word v 2) (omega (arith, count, double, whole))
                  (omega (arith, count, few))
                ∙ ap (λ t. t ∷ field) (ap (λ t. 2 * t) count ∙ double)))
            framed,
      )

  -- The request for a field.
  abbrev pub setting_request : ℕ → Request
  setting_request i = read_holding (get_or holding_offsets i 0) (size_at i / 2)

  -- A slave whose holding store is the mapped store over the device's holding map, whatever its
  -- callbacks and its input store, receives byte by byte the packet of a request for the
  -- registers of one of the map's 7 fields and processes it, all without a fault: both stores are
  -- as before, and a framed response is ready, which is the address, the function's code, the
  -- field's size and the field's bytes. The receiver is at rest over an empty frame with a window
  -- of 256 bytes in memory, and the slave has the packet's address, which is a byte.
  pub setting_session :
      (s : Slave (HoldingStore) I) (i a : ℕ)
      → i < 7
      → s.base.ctx ≡ ReadContext.reset
      → s.base.framein.data_length ≡ 0
      → IsWindow s.base.framein.data_array
      → IsByte a
      → s.slave_address ≡ a
      → (t : Slave (HoldingStore) I) × ((do
        u ← receive x holding_store d (packet_of x a (setting_request i)) s
        process_message x holding_store d true u)
          ≡ ok t)
        × (t.holding ≡ s.holding)
        × (t.input ≡ s.input)
        × (t.base.response_valid ≡ true)
        × IsFramed x (a ∷ 3 ∷ size_at i ∷ field_of s.holding i) t.base.response
  setting_session s i a below calm empty window byte mine =
      let q : Request = setting_request i in
      let (index, begins, ends, double, some, few) = holding_places i below in
      let reach : get_or holding_offsets i 0 < 65536 =
        get_or-IsWord holding_offsets i (ground arith) in
      let valid : IsRequest q = omega (arith, reach, some, few) in
      let v : View = s.base.framein.data_array in
      let (address, count) =
        two_words x laws v window a byte q valid (get_or holding_offsets i 0) (size_at i / 2) reach
          (omega (arith, few)) (omega arith) (λ k below. refl) in
      let (r, eq, framed) =
        process_message-setting (received_by x a q s) i a 6 (arrived x v a q) below
          (arrived-IsPayload x laws v window a byte q valid 4 (omega arith)) byte mine
          (arrived-valid x laws v window a byte q valid) address count in
      (
        replied (received_by x a q s) r,
        session_lem x laws holding_store d s a q _ calm empty window valid eq,
        refl,
        refl,
        refl,
        framed,
      )
