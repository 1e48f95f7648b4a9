-- ===== src/ModbusRtu/ReadContext/Undone.antt =====
-- include/Modbus/ModbusRtu/ModbusRtuProtocol.h: a receiver in a build with assertions, which takes no byte
-- after a packet is reported, against one in any build.
use modbus_basic.Common.{ℕ, ◌≡◌, refl, List, ◌∷◌, false, Result, ok, err, ◌>>=◌, ℤ, pred_ℤ, arith}
use modbus_basic.External.{External, IsExternal}
use modbus_basic.View.{view_set, view_get}
use modbus_basic.Modbus.Frame.{Frame}
use modbus_basic.ModbusRtu.ReadContext.{
  ReadContext, PacketState, dispatch, push, process_character, process_all, packet_received,
}

-- The same program, built with assertions.
abbrev pub asserting : External → External
asserting x = record x { ndebug = false }

pub asserting-IsExternal : (x : External) → IsExternal x → IsExternal (asserting x)
asserting-IsExternal x laws = record {
  inside = laws.inside;
  low_byte = laws.low_byte;
  high_byte = laws.high_byte;
  msb_first = laws.msb_first;
  crc_word = laws.crc_word;
}

module _ (x : External) where
  -- The first of several bytes is taken, in any build, while no packet is reported.
  abbrev pub Takes : ReadContext → Frame → ℕ → List ℕ → ReadContext × Frame → Type 0
  Takes ctx frame pt pts out =
      (packet_received ctx ≡ false)
      × (next : ReadContext × Frame) × (process_character x ctx frame pt ≡ ok next)
      × (process_all (asserting x) next.0 next.1 pts ≡ ok out)

  after_step :
      (r : Result (ReadContext × Frame)) (pts : List ℕ) (out : ReadContext × Frame)
      → (do next ← r; process_all (asserting x) next.0 next.1 pts) ≡ ok out
      → (next : ReadContext × Frame) × (r ≡ ok next)
        × (process_all (asserting x) next.0 next.1 pts ≡ ok out)
  after_step (ok next) pts out h = (next, refl, h)
  after_step (err fault) pts out h = ground arith

  by_state :
      (st : PacketState) (left : ℤ) (frame : Frame) (pt : ℕ) (pts : List ℕ)
      (out : ReadContext × Frame)
      → process_all (asserting x) (record { state = st; bytes_to_read = left }) frame (pt ∷ pts)
        ≡ ok out
      → Takes (record { state = st; bytes_to_read = left }) frame pt pts out
  unfolding process_all process_character dispatch push view_set view_get
  by_state PacketState.address left frame pt pts out h =
      let (next, taken, rest) =
        after_step (dispatch x PacketState.address (pred_ℤ left) frame pt) pts out h in
      (refl, next, taken, rest)
  by_state PacketState.function left frame pt pts out h =
      let (next, taken, rest) =
        after_step (dispatch x PacketState.function (pred_ℤ left) frame pt) pts out h in
      (refl, next, taken, rest)
  by_state PacketState.meta left frame pt pts out h =
      let (next, taken, rest) =
        after_step (dispatch x PacketState.meta (pred_ℤ left) frame pt) pts out h in
      (refl, next, taken, rest)
  by_state PacketState.payload left frame pt pts out h =
      let (next, taken, rest) =
        after_step (dispatch x PacketState.payload (pred_ℤ left) frame pt) pts out h in
      (refl, next, taken, rest)
  by_state PacketState.done left frame pt pts out h = ground arith

  -- So a run of a build with assertions that ends well has reported nothing before its last byte, and any
  -- other build runs in the same way.
  pub process_all-Takes :
      (ctx : ReadContext) (frame : Frame) (pt : ℕ) (pts : List ℕ) (out : ReadContext × Frame)
      → process_all (asserting x) ctx frame (pt ∷ pts) ≡ ok out
      → Takes ctx frame pt pts out
  process_all-Takes ctx frame pt pts out h = by_state ctx.state ctx.bytes_to_read frame pt pts out h
