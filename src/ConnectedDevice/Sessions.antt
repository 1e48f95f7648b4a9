-- ===== src/ConnectedDevice/Sessions.antt =====
-- examples/ConnectedDevice/LinuxSlave/source/LinuxSlave.h: a master's request for a field of the input map,
-- from its first byte on the line to the framed response.
use modbus_basic.Common.{
  get_or-IsWord, ℕ, suc, ◌+◌, ◌/◌, ◌<◌, ◌≡◌, refl, List, [], ◌∷◌, true, false, ok, ◌>>=◌, length,
  get_or, write_at, All, IsByte, arith, ==_refl, ap, pos, length-write_at, write_at-IsByte,
}
use modbus_basic.External.{External, IsExternal}
use modbus_basic.View.{View}
use modbus_basic.View.Laws.{set_all, length-set_all, set_all-IsByte}
use modbus_basic.Modbus.Function.{read_input_registers, get_address_space_from_function}
use modbus_basic.Modbus.Frame.{Frame}
use modbus_basic.Modbus.Response.{Response, new_response}
use modbus_basic.DataStores.{DataStore, CallbackStore}
use modbus_basic.Exchange.Serving.{function_of-IsByte}
use modbus_basic.RegisterControl.HoldingController.Runs.{word, IsPayload}
use modbus_basic.MappedStore.{MappedRegisterDataStore}
use modbus_basic.Maps.{Conversion, IsConversion}
use modbus_basic.Maps.Input.{InputRegisters}
use modbus_basic.Maps.Input.Contents.{contents, IsSized, size_at, length-field}
use modbus_basic.Maps.Input.Places.{input_offsets, input_places}
use modbus_basic.ModbusRtu.Protocol.{frame_crc_is_valid}
use modbus_basic.ModbusRtu.Protocol.Reply.{IsFramed, frame_response-IsFramed}
use modbus_basic.ModbusRtu.Slave.{
  Slave, process_message, validate_message, validate_in_space, run_command, run_in_space, answer,
}
use modbus_basic.ModbusRtu.Slave.Replies.{
  zeros, zeros-IsByte, length-zeros, read_reply_bytes, reframe,
}
use modbus_basic.ModbusRtu.ReadContext
use modbus_basic.ModbusRtu.ReadContext.{PacketState}
use modbus_basic.ModbusRtu.Protocol.Received.{received-valid}
use modbus_basic.ModbusRtu.Slave.{receive}
use modbus_basic.ModbusRtu.Slave.Receive.{receive_lem, with_input}
use modbus_basic.Exchange.{Request, IsRequest, read_input, packet_of, function_of}
use modbus_basic.Exchange.Arrival.{
  IsWindow, frame_of, arrived, body_of, body_of-IsByte, length-body_of, two_words,
  arrived-IsPayload,
}
use modbus_basic.Exchange.Session.{arrives_in}
use modbus_basic.ConnectedDevice.{input_store}
use modbus_basic.ConnectedDevice.Reads.{read_frame-field}

pub input_offsets_lem : (i : ℕ) → get_or input_offsets i 0 < 65536
input_offsets_lem i = get_or-IsWord input_offsets i (ground arith)

-- The slave with a request in its frame, and with a response that is ready.
abbrev pub asked : {H I : Type 0} → Slave H I → Frame → Slave H I
asked s frame = record s { base = record s.base { framein = frame } }

abbrev pub replied : {H I : Type 0} → Slave H I → Response → Slave H I
replied s r = record s { base = record s.base { response = r; response_valid = true } }

-- The slave that has received the packet of a request.
abbrev pub received_by : {H I : Type 0} → External → ℕ → Request → Slave H I → Slave H I
received_by x a q s = with_input s (
  record { state = PacketState.done; bytes_to_read = pos 0 },
  frame_of x s.base.framein.data_array a q,
)

module _ (x : External) (laws : IsExternal x) where
  -- The packet of a request has a right CRC.
  pub arrived-valid :
      (v : View)
      → IsWindow v
      → (a : ℕ) → IsByte a
      → (q : Request) → IsRequest q
      → frame_crc_is_valid x (frame_of x v a q) ≡ ok true
  arrived-valid v window a byte q valid =
      received-valid x laws v a (function_of q) (body_of q) window.inside
        (omega (arith, window.whole, length-body_of q valid))
        (omega (arith, length-body_of q valid)) window.bytes (body_of-IsByte q valid) byte
        (function_of-IsByte q)

  -- A slave at rest that is given a packet and processes it.
  pub session_lem :
      {H I : Type 0} (h : CallbackStore H) (i : DataStore I) (s : Slave H I) (a : ℕ) (q : Request)
      (t : Slave H I)
      → s.base.ctx ≡ ReadContext.reset
      → s.base.framein.data_length ≡ 0
      → IsWindow s.base.framein.data_array
      → IsRequest q
      → process_message x h i true (received_by x a q s) ≡ ok t
      → (do u ← receive x h i (packet_of x a q) s; process_message x h i true u) ≡ ok t
  session_lem h i s a q t calm empty window valid eq =
      rw
        (
          receive_lem x h i (packet_of x a q) s,
          calm,
          arrives_in x laws a s.base.framein q empty window valid,
        )
        eq

module _ {H : Type 0} (x : External) (laws : IsExternal x) (h : CallbackStore H)
    (conversion : Conversion) (cl : IsConversion conversion) where
  -- The request in the frame of a slave whose address it has.
  pub process_message-field :
      (s : Slave H (MappedRegisterDataStore InputRegisters)) (i a n : ℕ) (v : View)
      → i < 17
      → IsSized s.input.memory_controller
      → All IsByte (get_or (contents s.input.memory_controller) i [])
      → IsPayload 4 v
      → IsByte a
      → s.slave_address ≡ a
      → frame_crc_is_valid x
          (record { address = a; function = read_input_registers; data_length = n; data_array = v })
        ≡ ok true
      → word v 0 ≡ get_or input_offsets i 0
      → word v 2 ≡ size_at i / 2
      → (r : Response) × (process_message x h (input_store x conversion) true (
            asked s (record {
              address = a;
              function = read_input_registers;
              data_length = n;
              data_array = v;
            }))
          ≡ ok (
              replied
                (asked s (record {
                  address = a;
                  function = read_input_registers;
                  data_length = n;
                  data_array = v;
                }))
                r))
        × IsFramed x (a ∷ 4 ∷ size_at i ∷ get_or (contents s.input.memory_controller) i []) r
  unfolding process_message validate_message validate_in_space run_command run_in_space answer
      get_address_space_from_function
  process_message-field s i a n v below sized bytes p byte mine good address count =
      let frame : Frame = record {
        address = a;
        function = read_input_registers;
        data_length = n;
        data_array = v;
      } in
      let field : List ℕ = get_or (contents s.input.memory_controller) i [] in
      let ws : List (ℕ × ℕ) = (0, a) ∷ (1, 4) ∷ (2, size_at i) ∷ [] in
      let whole : length field ≡ size_at i = length-field s.input.memory_controller i sized in
      let (index, begins, ends, double, some, few) = input_places i below in
      let (fine, run) =
        read_frame-field x laws conversion cl i s.input frame new_response below sized p refl refl
          address count in
      let (r, eq, framed) =
        frame_response-IsFramed x laws frame
          (record {
            length_ = 3 + size_at i;
            data_ = set_all (write_at zeros 3 field) ws;
            ready = false;
          })
          (suc (size_at i))
          (omega (
            arith,
            length-set_all (write_at zeros 3 field) ws,
            length-write_at zeros 3 field,
            length-zeros,
          ))
          (set_all-IsByte (write_at zeros 3 field) ws
            (write_at-IsByte zeros 3 field zeros-IsByte bytes)
            (byte, (omega arith, (omega (arith, double, few), tt))))
          byte (omega arith) (omega arith) (omega (arith, double, few)) in
      (
        r,
        rw (mine, ==_refl a, fine, good, run, eq) refl,
        reframe x r
            (ap (λ t. a ∷ 4 ∷ t)
              (read_reply_bytes a 4 (size_at i) field (size_at i) whole
                (omega (arith, double, few))))
            framed,
      )

  -- The request for a field.
  abbrev pub field_request : ℕ → Request
  field_request i = read_input (get_or input_offsets i 0) (size_at i / 2)

  -- A slave whose input store is the mapped store over the device's input map, whatever its holding
  -- store, receives byte by byte the packet of a request for the registers of one of the map's 17
  -- fields and processes it, all without a fault: both stores are as before, and a framed response
  -- is ready, which is the address, the function's code, the field's size and the field's bytes.
  -- The receiver is at rest over an empty frame with a window of 256 bytes in memory, the slave has
  -- the packet's address, which is a byte, the map's arrays have their sizes, and the field's bytes
  -- are bytes.
  pub field_session :
      (s : Slave H (MappedRegisterDataStore InputRegisters)) (i a : ℕ)
      → i < 17
      → IsSized s.input.memory_controller
      → All IsByte (get_or (contents s.input.memory_controller) i [])
      → s.base.ctx ≡ ReadContext.reset
      → s.base.framein.data_length ≡ 0
      → IsWindow s.base.framein.data_array
      → IsByte a
      → s.slave_address ≡ a
      → (t : Slave H (MappedRegisterDataStore InputRegisters)) × ((do
        u ← receive x h (input_store x conversion) (packet_of x a (field_request i)) s
        process_message x h (input_store x conversion) true u)
          ≡ ok t)
        × (t.holding ≡ s.holding)
        × (t.input ≡ s.input)
        × (t.base.response_valid ≡ true)
        × IsFramed x
            (a ∷ 4 ∷ size_at i ∷ get_or (contents s.input.memory_controller) i [])
            t.base.response
  field_session s i a below sized bytes calm empty window byte mine =
      let q : Request = field_request i in
      let (index, begins, ends, double, some, few) = input_places i below in
      let reach : get_or input_offsets i 0 < 65536 = input_offsets_lem i in
      let valid : IsRequest q = omega (arith, reach, some, few) in
      let v : View = s.base.framein.data_array in
      let (address, count) =
        two_words x laws v window a byte q valid (get_or input_offsets i 0) (size_at i / 2) reach
          (omega (arith, few)) (omega arith) (λ k below. refl) in
      let (r, eq, framed) =
        process_message-field (received_by x a q s) i a 6 (arrived x v a q) below sized bytes
          (arrived-IsPayload x laws v window a byte q valid 4 (omega arith)) byte mine
          (arrived-valid x laws v window a byte q valid) address count in
      (
        replied (received_by x a q s) r,
        session_lem x laws h (input_store x conversion) s a q _ calm empty window valid eq,
        refl,
        refl,
        refl,
        framed,
      )
