-- ===== src/ModbusRtu/Slave/Receive.antt =====
-- include/Modbus/ModbusRtu/ModbusRtuSlave.h: ProcessCharacter of the slave, on a whole packet.
use modbus_basic.Common.{
  ℕ, ◌+◌, ◌/◌, ◌%◌, ◌≤◌, ◌≡◌, refl, List, [], ◌∷◌, ◌++◌, Result, ok, err, ◌>>=◌, true, arith,
  length, max, pos, append_assoc, ap, ◌∙◌,
}
use modbus_basic.External.{External, IsExternal}
use modbus_basic.Modbus.Function.{code, get_function, function_code_is_valid}
use modbus_basic.Modbus.Frame.{Frame}
use modbus_basic.DataStores.{DataStore, CallbackStore}
use modbus_basic.DataStores.Updating.{register_store, updating_store}
use modbus_basic.ModbusRtu.ReadContext
use modbus_basic.ModbusRtu.ReadContext.{
  ReadContext, PacketState, process_character, process_all, calculate_meta_data_bytes_remaining,
}
use modbus_basic.ModbusRtu.ReadContext.Receive.{bytes_behind, process_all_packet}
use modbus_basic.ModbusRtu.Protocol.Received.{with_trailer, received, trailer_lem}
use modbus_basic.ModbusRtu.Slave.{Slave, receive, slave_process_character}
use modbus_basic.ModbusRtu.Slave.Validate.{RegisterSlave}

-- The slave whose receiver has come to a context and a frame.
abbrev pub with_input : {H I : Type 0} → Slave H I → ReadContext × Frame → Slave H I
with_input s out = record s { base = record s.base { ctx = out.0; framein = out.1 } }

module _ {H I : Type 0} (x : External) (h : CallbackStore H) (i : DataStore I) where
  pub receive_lem :
      (pts : List ℕ) (s : Slave H I)
      → receive x h i pts s
        ≡ (do out ← process_all x s.base.ctx s.base.framein pts; ok (with_input s out))
  unfolding receive process_all slave_process_character
  receive_lem [] s = refl
  receive_lem (pt ∷ pts) s =
      after (process_character x s.base.ctx s.base.framein pt)
        (λ next. receive_lem pts (with_input s next))
    where
      after :
          (r : Result (ReadContext × Frame))
          → ((next : ReadContext × Frame)
              → receive x h i pts (with_input s next)
                ≡ (do out ← process_all x next.0 next.1 pts; ok (with_input s out)))
          → (do s' ← (do next ← r; ok (with_input s next)); receive x h i pts s')
            ≡ (do out ← (do next ← r; process_all x next.0 next.1 pts); ok (with_input s out))
      after (ok next) rest = rest next
      after (err fault) rest = refl

module _ (x : External) (laws : IsExternal x) where
  -- A receiver at rest over an empty frame, fed with a packet.
  pub process_all-received :
      (frame : Frame) (a n : ℕ) (head rest : List ℕ)
      → frame.data_length ≡ 0
      → function_code_is_valid n ≡ true
      → length head ≡ max 1 (calculate_meta_data_bytes_remaining (get_function n))
      → length rest ≡ bytes_behind (get_function n) head
      → frame.data_array.start + frame.data_array.size ≤ length frame.data_array.storage
      → length head + length rest + 2 ≤ frame.data_array.size
      → process_all x ReadContext.reset frame
          (a ∷ n ∷ with_trailer x a (get_function n) (head ++ rest))
        ≡ ok (
          record { state = PacketState.done; bytes_to_read = pos 0 },
          received x frame.data_array a (get_function n) (head ++ rest),
        )
  process_all-received frame a n head rest empty valid e r inside room = rw (
    append_assoc head rest crc,
    process_all_packet x laws frame a n head (rest ++ crc) valid e (grows ∙ ap (λ k. k + 2) r)
        inside empty (omega (arith, grows)),
  )
    where
      crc : List ℕ
      crc =
          x.utilities_crc16 (a ∷ code (get_function n) ∷ (head ++ rest)) / 256 % 256
          ∷ x.utilities_crc16 (a ∷ code (get_function n) ∷ (head ++ rest)) % 256
          ∷ []

      grows : length (rest ++ crc) ≡ length rest + 2
      grows = (trailer_lem rest _ _).0

  -- A slave whose receiver is at rest and whose frame is empty, fed with the bytes of a packet,
  -- that is an address, the code of a valid function, a payload and their CRC, reports the packet
  -- at its last byte and has it in its frame. `head` is the part of the payload whose length goes
  -- by the function alone, and `rest` has the length that the function and `head` announce. The
  -- frame's window lies in memory and has room for the payload and the CRC.
  pub receive-received :
      (s : RegisterSlave) (a n : ℕ) (head rest : List ℕ)
      → s.base.ctx ≡ ReadContext.reset
      → s.base.framein.data_length ≡ 0
      → function_code_is_valid n ≡ true
      → length head ≡ max 1 (calculate_meta_data_bytes_remaining (get_function n))
      → length rest ≡ bytes_behind (get_function n) head
      → s.base.framein.data_array.start + s.base.framein.data_array.size
        ≤ length s.base.framein.data_array.storage
      → length head + length rest + 2 ≤ s.base.framein.data_array.size
      → receive x
          (updating_store x)
          (register_store x)
          (a ∷ n ∷ with_trailer x a (get_function n) (head ++ rest))
          s
        ≡ ok (
            with_input s (
              record { state = PacketState.done; bytes_to_read = pos 0 },
              received x s.base.framein.data_array a (get_function n) (head ++ rest),
            ))
  receive-received s a n head rest calm empty valid e r inside room =
      receive_lem x (updating_store x) (register_store x)
        (a ∷ n ∷ with_trailer x a (get_function n) (head ++ rest)) s
      ∙ rw (calm, process_all-received s.base.framein a n head rest empty valid e r inside room)
