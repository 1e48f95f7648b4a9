-- ===== src/ModbusRtu/ReadContext/Progress.antt =====
-- include/Modbus/ModbusRtu/ModbusRtuProtocol.h: what the receiver's count and state mean between two
-- bytes, whatever bytes come in.
use native.Mathlib.Decide.{dec_le}
use modbus_basic.Common.{
  ℕ, zero, suc, ◌+◌, ◌-◌, ◌≤◌, ◌<◌, ◌≡◌, ◌≢◌, refl, true, false, Result, ok, arith, get_or, max, ℤ,
  pos, if◌then◌else◌, ap, ◌∙◌, pred_ℤ, nonpos, get_or-set_ne, Bool-cases, inl, inr,
}
use modbus_basic.External.{External, IsExternal}
use modbus_basic.View.{IsInside}
use modbus_basic.View.Laws.{view_get_lem}
use modbus_basic.Modbus.Function.{
  function_code_is_valid, ◌==f◌, write_single_holding_register, write_multiple_holding_registers,
}
use modbus_basic.Modbus.Frame.{Frame}
use modbus_basic.ModbusRtu.ReadContext.{
  ReadContext, PacketState, start_data, dispatch, process_character,
  calculate_meta_data_bytes_remaining, calculate_bytes_remaining,
}
use modbus_basic.ModbusRtu.ReadContext.Receive.{with_byte, push_lem, with_byte-IsInside}

-- The bytes of payload that the header alone determines.
abbrev pub header_bytes : Frame → ℕ
header_bytes frame = max 1 (calculate_meta_data_bytes_remaining frame.function)

-- The bytes that the header announces, which for a multiple write is its fifth byte.
abbrev pub announced : Frame → ℕ
announced frame =
    if frame.function ==f write_single_holding_register
    then 2
    else if frame.function ==f write_multiple_holding_registers
    then get_or frame.data_array.storage (frame.data_array.start + 4) 0
    else 0

-- The payload of the packet that the frame belongs to, with its CRC.
abbrev pub packet_length : Frame → ℕ
packet_length frame = header_bytes frame + announced frame + 2

-- The count is what is left of the part that is being read, and a packet is reported when exactly its
-- bytes are in.
abbrev pub IsReceiving : PacketState → ℤ → Frame → Type 0
IsReceiving PacketState.address left frame = (left ≡ pos 3) × (frame.data_length ≡ 0)
IsReceiving PacketState.function left frame = (left ≡ pos 2) × (frame.data_length ≡ 0)
IsReceiving PacketState.meta left frame =
    (left ≡ pos (calculate_meta_data_bytes_remaining frame.function - frame.data_length))
    × (frame.data_length < header_bytes frame)
IsReceiving PacketState.payload left frame =
    (left ≡ pos (packet_length frame - frame.data_length))
    × (header_bytes frame ≤ frame.data_length)
    × (frame.data_length < packet_length frame)
IsReceiving PacketState.done left frame = (left ≡ pos 0) × (frame.data_length ≡ packet_length frame)

nonpos-pred : (n : ℕ) → n ≤ 1 → nonpos (pred_ℤ (pos n)) ≡ true
nonpos-pred zero h = refl
nonpos-pred (suc zero) h = refl
nonpos-pred (suc (suc n)) h = absurd (omega arith)

pos-pred : (n : ℕ) → 1 < n → (nonpos (pred_ℤ (pos n)) ≡ false) × (pred_ℤ (pos n) ≡ pos (n - 1))
pos-pred zero h = absurd (omega arith)
pos-pred (suc zero) h = absurd (omega arith)
pos-pred (suc (suc n)) h = (refl, ap pos (omega arith))

pred_one : (n : ℕ) → n ≡ 1 → pred_ℤ (pos n) ≡ pos 0
pred_one n h = rw h

-- A byte behind the header leaves the length of the packet.
packet_length-with_byte :
    (frame : Frame) (b : ℕ)
    → header_bytes frame ≤ frame.data_length
    → packet_length (with_byte frame b) ≡ packet_length frame
packet_length-with_byte frame b h = ground (
  arith,
  get_or-set_ne frame.data_array.storage (frame.data_array.start + frame.data_length)
      (frame.data_array.start + 4) b 0,
)

-- What a step leads to: a state of which the invariant holds, with the same room.
abbrev pub Advances : Frame → Result (ReadContext × Frame) → Type 0
Advances frame r =
    (next : ReadContext × Frame) × (r ≡ ok next)
    × IsReceiving next.0.state next.0.bytes_to_read next.1
    × IsInside next.1.data_array
    × (next.1.data_array.size ≡ frame.data_array.size)

module _ (x : External) (laws : IsExternal x) where
  remaining_announced :
      (frame : Frame)
      → header_bytes frame ≤ frame.data_array.size
      → IsInside frame.data_array
      → calculate_bytes_remaining x frame ≡ ok (announced frame)
  remaining_announced frame h w = ground (arith, view_get_lem x laws frame.data_array 4 w)

  module _ (frame : Frame) (pt : ℕ) (w : IsInside frame.data_array)
      (h : frame.data_length < frame.data_array.size) where
    meta-Advances :
        (left : ℤ)
        → IsReceiving PacketState.meta left frame
        → Advances frame (dispatch x PacketState.meta (pred_ℤ left) frame pt)
    unfolding dispatch
    meta-Advances left (e, fits) = elim (dec_le (m - frame.data_length) 1) [
      | yes last ↦ (
        (start_data x p (announced p), p),
        rw (
          push_lem x laws frame pt w h,
          left_last last,
          remaining_announced p (omega arith) (with_byte-IsInside frame pt w),
        ),
        rw two (ap pos (omega arith), omega arith, omega arith),
        with_byte-IsInside frame pt w,
        refl,
      )
      | no more ↦ (
        (record { state = PacketState.meta; bytes_to_read = pred_ℤ left }, p),
        rw (push_lem x laws frame pt w h, left_more more),
        (ap pred_ℤ e ∙ (pos-pred _ (omega arith)).1 ∙ ap pos (omega arith), omega arith),
        with_byte-IsInside frame pt w,
        refl,
      )
    ]
      where
        m : ℕ
        m = calculate_meta_data_bytes_remaining frame.function

        p : Frame
        p = with_byte frame pt

        two : announced p + 2 ≡ suc (suc (announced p))
        two = omega arith

        left_last : m - frame.data_length ≤ 1 → nonpos (pred_ℤ left) ≡ true
        left_last last = rw e (nonpos-pred (m - frame.data_length) last)

        left_more : ¬ (m - frame.data_length ≤ 1) → nonpos (pred_ℤ left) ≡ false
        left_more more = rw e (pos-pred (m - frame.data_length) (omega arith)).0

    payload-Advances :
        (left : ℤ)
        → IsReceiving PacketState.payload left frame
        → Advances frame (dispatch x PacketState.payload (pred_ℤ left) frame pt)
    unfolding dispatch
    payload-Advances left (e, behind, fits) =
        elim (dec_le (packet_length frame - frame.data_length) 1) [
          | yes last ↦ (
            (record { state = PacketState.done; bytes_to_read = pred_ℤ left }, p),
            rw (push_lem x laws frame pt w h, left_last last),
            (
              ap pred_ℤ e ∙ pred_one _ (omega arith),
              omega (arith, packet_length-with_byte frame pt behind),
            ),
            with_byte-IsInside frame pt w,
            refl,
          )
          | no more ↦ (
            (record { state = PacketState.payload; bytes_to_read = pred_ℤ left }, p),
            rw (push_lem x laws frame pt w h, left_more more),
            (
              ap pred_ℤ e
                  ∙ (pos-pred _ (omega arith)).1
                  ∙ ap pos (omega (arith, packet_length-with_byte frame pt behind)),
              omega arith,
              omega (arith, packet_length-with_byte frame pt behind),
            ),
            with_byte-IsInside frame pt w,
            refl,
          )
        ]
      where
        p : Frame
        p = with_byte frame pt

        n : ℕ
        n = packet_length frame - frame.data_length

        left_last : n ≤ 1 → nonpos (pred_ℤ left) ≡ true
        left_last last = rw e (nonpos-pred n last)

        left_more : ¬ (n ≤ 1) → nonpos (pred_ℤ left) ≡ false
        left_more more = rw e (pos-pred n (omega arith)).0

    dispatch-Advances :
        (st : PacketState) (left : ℤ)
        → st ≢ PacketState.done
        → IsReceiving st left frame
        → Advances frame (dispatch x st (pred_ℤ left) frame pt)
    unfolding dispatch
    dispatch-Advances PacketState.address left ne (e, z) = ((_, _), refl, (ap pred_ℤ e, z), w, refl)
    dispatch-Advances PacketState.function left ne (e, z) =
        elim (Bool-cases (function_code_is_valid pt)) [
          | inl valid ↦ rw valid ((_, _), refl, (ap pos (omega arith), omega arith), w, refl)
          | inr bad ↦ rw bad ((_, _), refl, (refl, z), w, refl)
        ]
    dispatch-Advances PacketState.meta left ne i = meta-Advances left i
    dispatch-Advances PacketState.payload left ne i = payload-Advances left i
    dispatch-Advances PacketState.done left ne i = absurd (ne refl)

  -- While no packet is reported and the frame's window lies in memory and is not full, a byte is
  -- taken without a fault, and afterwards state, count and payload length fit one another as
  -- before: the count is what is left of the part that is being read, and a packet is reported
  -- exactly when as many bytes are in as its header announces.
  pub process_character-IsReceiving :
      (ctx : ReadContext) (frame : Frame) (pt : ℕ)
      → ctx.state ≢ PacketState.done
      → IsReceiving ctx.state ctx.bytes_to_read frame
      → IsInside frame.data_array
      → frame.data_length < frame.data_array.size
      → Advances frame (process_character x ctx frame pt)
  unfolding process_character
  process_character-IsReceiving ctx frame pt ne i w h =
      dispatch-Advances frame pt w h ctx.state ctx.bytes_to_read ne i
