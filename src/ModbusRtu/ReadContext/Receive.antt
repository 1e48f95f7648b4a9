-- ===== src/ModbusRtu/ReadContext/Receive.antt =====
-- include/Modbus/ModbusRtu/ModbusRtuProtocol.h: the bytes of one packet, handed to the receiver.
use modbus_basic.Common.{
  ℕ, zero, suc, ◌+◌, ◌≤◌, ◌<◌, ◌≡◌, refl, List, [], ◌∷◌, ◌++◌, true, ok, arith, length, set,
  write_at, get_or, get_or-write_at_inside, max, ℤ, pos, if◌then◌else◌, length-set, ap, ◌∙◌,
  length-write_at, pred_ℤ, nonpos,
}
use native.Mathlib.Nat.{zero-add, add-zero}
use modbus_basic.External.{External, IsExternal}
use modbus_basic.View.{View, IsInside, view_get}
use modbus_basic.View.Laws.{view_set_lem, view_get_lem}
use modbus_basic.Modbus.Function.{
  Function, get_function, function_code_is_valid, ◌==f◌, write_single_holding_register,
  write_multiple_holding_registers,
}
use modbus_basic.Modbus.Frame.{Frame}
use modbus_basic.ModbusRtu.ReadContext.{
  PacketState, reset, push, start_data, dispatch, process_character, process_all,
  calculate_meta_data_bytes_remaining, calculate_bytes_remaining,
}

-- The frame with one more byte of payload, and with several.
abbrev pub with_byte : Frame → ℕ → Frame
with_byte frame b = record frame {
  data_length = frame.data_length + 1;
  data_array = record frame.data_array {
    storage = set frame.data_array.storage (frame.data_array.start + frame.data_length) b;
  };
}

abbrev pub with_bytes : Frame → List ℕ → Frame
with_bytes frame [] = frame
with_bytes frame (b ∷ bs) = with_bytes (with_byte frame b) bs

pub with_bytes_lem :
    (frame : Frame) (bs : List ℕ)
    → with_bytes frame bs ≡ record frame {
      data_length = frame.data_length + length bs;
      data_array = record frame.data_array {
        storage = write_at frame.data_array.storage (frame.data_array.start + frame.data_length) bs;
      };
    }
with_bytes_lem frame [] =
    let same : frame.data_length + 0 ≡ frame.data_length = omega arith in rw same
with_bytes_lem frame (b ∷ bs) =
    let count : frame.data_length + suc (length bs) ≡ frame.data_length + 1 + length bs =
      omega arith in
    let place : suc (frame.data_array.start + frame.data_length)
        ≡ frame.data_array.start + (frame.data_length + 1) =
      omega arith in
    rw (count, place) (with_bytes_lem (with_byte frame b) bs)

pub with_byte-IsInside :
    (frame : Frame) (b : ℕ) → IsInside frame.data_array → IsInside (with_byte frame b).data_array
with_byte-IsInside frame b w =
    omega (
      arith,
      length-set {0} frame.data_array.storage (frame.data_array.start + frame.data_length) b,
    )

pub with_bytes_shape :
    (frame : Frame) (bs : List ℕ)
    → IsInside frame.data_array
    → ((with_bytes frame bs).data_length ≡ frame.data_length + length bs)
      × ((with_bytes frame bs).data_array.size ≡ frame.data_array.size)
      × IsInside (with_bytes frame bs).data_array
with_bytes_shape frame [] w = (omega arith, refl, w)
with_bytes_shape frame (b ∷ bs) w =
    let (p, q, r) = with_bytes_shape (with_byte frame b) bs (with_byte-IsInside frame b w) in
    (omega arith, q, r)

pub with_bytes-append :
    (frame : Frame) (bs rest : List ℕ)
    → with_bytes (with_bytes frame bs) rest ≡ with_bytes frame (bs ++ rest)
with_bytes-append frame [] rest = refl
with_bytes-append frame (b ∷ bs) rest = with_bytes-append (with_byte frame b) bs rest

-- The bytes that follow the header of a packet, by its function and the header's fifth byte.
abbrev pub bytes_behind : Function → List ℕ → ℕ
bytes_behind f head =
    if f ==f write_single_holding_register
    then 2
    else if f ==f write_multiple_holding_registers
    then get_or head 4 0
    else 0

module _ (x : External) (laws : IsExternal x) where
  pub push_lem :
      (frame : Frame) (b : ℕ)
      → IsInside frame.data_array
      → frame.data_length < frame.data_array.size
      → push x frame b ≡ ok (with_byte frame b)
  unfolding push
  push_lem frame b w h = rw (view_set_lem x laws frame.data_array frame.data_length b w h)

  payload_lem :
      (k : ℕ) (frame : Frame) (bs : List ℕ)
      → length bs ≡ suc k
      → IsInside frame.data_array
      → frame.data_length + length bs ≤ frame.data_array.size
      → process_all x (record { state = PacketState.payload; bytes_to_read = pos (suc k) }) frame bs
        ≡ ok (record { state = PacketState.done; bytes_to_read = pos 0 }, with_bytes frame bs)
  unfolding process_all process_character dispatch
  payload_lem zero frame (b ∷ []) e w h = rw (push_lem frame b w (omega arith))
  payload_lem (suc k) frame (b ∷ c ∷ bs) e w h = rw (push_lem frame b w (omega arith)) (
      payload_lem k (with_byte frame b) (c ∷ bs) (omega arith) (with_byte-IsInside frame b w)
        (omega arith))
  payload_lem zero frame [] e w h = absurd (omega arith)
  payload_lem zero frame (b ∷ c ∷ bs) e w h = absurd (omega arith)
  payload_lem (suc k) frame [] e w h = absurd (omega arith)
  payload_lem (suc k) frame (b ∷ []) e w h = absurd (omega arith)

  -- The last byte of a function's header, by the count that it leaves.
  meta_last :
      (left : ℤ) (frame : Frame) (b n : ℕ) (rest : List ℕ)
      → nonpos (pred_ℤ left) ≡ true
      → IsInside frame.data_array
      → frame.data_length < frame.data_array.size
      → calculate_bytes_remaining x (with_byte frame b) ≡ ok n
      → process_all x (record { state = PacketState.meta; bytes_to_read = left }) frame (b ∷ rest)
        ≡ process_all x (start_data x (with_byte frame b) n) (with_byte frame b) rest
  unfolding process_all process_character dispatch
  meta_last left frame b n rest last w h c = rw (push_lem frame b w h, last, c)

  meta_more :
      (k : ℕ) (frame : Frame) (b : ℕ) (rest : List ℕ)
      → IsInside frame.data_array
      → frame.data_length < frame.data_array.size
      → process_all x
          (record { state = PacketState.meta; bytes_to_read = pos (suc (suc k)) })
          frame
          (b ∷ rest)
        ≡ process_all x
            (record { state = PacketState.meta; bytes_to_read = pos (suc k) })
            (with_byte frame b)
            rest
  unfolding process_all process_character dispatch
  meta_more k frame b rest w h = rw (push_lem frame b w h)

  meta_lem :
      (k : ℕ) (frame : Frame) (bs rest : List ℕ) (n : ℕ)
      → length bs ≡ suc k
      → IsInside frame.data_array
      → frame.data_length + length bs ≤ frame.data_array.size
      → calculate_bytes_remaining x (with_bytes frame bs) ≡ ok n
      → process_all x
          (record { state = PacketState.meta; bytes_to_read = pos (suc k) })
          frame
          (bs ++ rest)
        ≡ process_all x (start_data x (with_bytes frame bs) n) (with_bytes frame bs) rest
  meta_lem zero frame (b ∷ []) rest n e w h c =
      meta_last (pos 1) frame b n rest refl w (omega arith) c
  meta_lem (suc k) frame (b ∷ d ∷ bs) rest n e w h c =
      meta_more k frame b (d ∷ bs ++ rest) w (omega arith)
      ∙ (meta_lem k (with_byte frame b) (d ∷ bs) rest n (omega arith) (with_byte-IsInside frame b w)
          (omega arith) c)
  meta_lem zero frame [] rest n e w h c = absurd (omega arith)
  meta_lem zero frame (b ∷ d ∷ bs) rest n e w h c = absurd (omega arith)
  meta_lem (suc k) frame [] rest n e w h c = absurd (omega arith)
  meta_lem (suc k) frame (b ∷ []) rest n e w h c = absurd (omega arith)

  tail_lem :
      (n : ℕ) (frame : Frame) (rest : List ℕ)
      → length rest ≡ n + 2
      → IsInside frame.data_array
      → frame.data_length + length rest ≤ frame.data_array.size
      → process_all x (start_data x frame n) frame rest
        ≡ ok (record { state = PacketState.done; bytes_to_read = pos 0 }, with_bytes frame rest)
  tail_lem n frame rest r w h =
      let two : n + 2 ≡ suc (suc n) = omega arith in
      rw two (payload_lem (suc n) frame rest (omega arith) w h)

  -- The whole payload: a function's header of one byte at least, and what it announces with a CRC.
  body_lem :
      (m n : ℕ) (frame : Frame) (bs rest : List ℕ)
      → length bs ≡ max 1 m
      → length rest ≡ n + 2
      → IsInside frame.data_array
      → frame.data_length + length bs + length rest ≤ frame.data_array.size
      → calculate_bytes_remaining x (with_bytes frame bs) ≡ ok n
      → process_all x
          (record { state = PacketState.meta; bytes_to_read = pos m })
          frame
          (bs ++ rest)
        ≡ ok (
          record { state = PacketState.done; bytes_to_read = pos 0 },
          with_bytes frame (bs ++ rest),
        )
  body_lem zero n frame (b ∷ []) rest e r w h c =
      meta_last (pos 0) frame b n rest refl w (omega arith) c
      ∙ tail_lem n (with_byte frame b) rest r (with_byte-IsInside frame b w) (omega arith)
  body_lem zero n frame [] rest e r w h c = absurd (omega arith)
  body_lem zero n frame (b ∷ d ∷ bs) rest e r w h c = absurd (omega arith)
  body_lem (suc k) n frame bs rest e r w h c =
      meta_lem k frame bs rest n (omega arith) w (omega arith) c
      ∙ tail_lem n (with_bytes frame bs) rest r (with_bytes_shape frame bs w).2
          (omega (arith, with_bytes_shape frame bs w))
      ∙ ap (λ fr. ok (record { state = PacketState.done; bytes_to_read = pos 0 }, fr))
          (with_bytes-append frame bs rest)

  fifth_lem :
      (frame : Frame) (head : List ℕ)
      → length head ≡ 5
      → frame.data_length ≡ 0
      → IsInside frame.data_array
      → length head ≤ frame.data_array.size
      → view_get x (with_bytes frame head).data_array 4 ≡ ok (get_or head 4 0)
  fifth_lem frame head e z w h = rw (
    with_bytes_lem frame head,
    view_get_lem x laws filled 4
        (omega (
          arith,
          length-write_at frame.data_array.storage (frame.data_array.start + frame.data_length)
              head,
        ))
        (omega arith),
    z,
    start,
    get_or-write_at_inside frame.data_array.storage frame.data_array.start head 4 (omega arith)
        (omega arith),
  )
    where
      filled : View
      filled = record frame.data_array {
        storage =
            write_at frame.data_array.storage (frame.data_array.start + frame.data_length) head;
      }

      start : frame.data_array.start + 0 ≡ frame.data_array.start
      start = omega arith

  function-with_bytes :
      (frame : Frame) (bs : List ℕ) → (with_bytes frame bs).function ≡ frame.function
  function-with_bytes frame [] = refl
  function-with_bytes frame (b ∷ bs) = function-with_bytes (with_byte frame b) bs

  remaining_lem :
      (frame : Frame) (head : List ℕ)
      → length head ≡ max 1 (calculate_meta_data_bytes_remaining frame.function)
      → frame.data_length ≡ 0
      → IsInside frame.data_array
      → length head ≤ frame.data_array.size
      → calculate_bytes_remaining x (with_bytes frame head) ≡ ok (bytes_behind frame.function head)
  remaining_lem frame head e z w h =
      rw (function-with_bytes frame head) (ground (arith, fifth_lem frame head))

  -- A receiver at rest takes a packet byte by byte, and reports it at its last byte: the frame then
  -- has the address, the function of the code, and the payload with its CRC from the start of the
  -- frame's window on. `head` is the part of the payload whose length goes by the function alone,
  -- and `rest` is as many bytes as the function and `head` announce, and two of CRC. The function's
  -- code is valid, the frame is empty, and its window lies in memory and has room for the payload.
  pub process_all_packet :
      (frame : Frame) (a n : ℕ) (head rest : List ℕ)
      → function_code_is_valid n ≡ true
      → length head ≡ max 1 (calculate_meta_data_bytes_remaining (get_function n))
      → length rest ≡ bytes_behind (get_function n) head + 2
      → IsInside frame.data_array
      → frame.data_length ≡ 0
      → length head + length rest ≤ frame.data_array.size
      → process_all x reset frame (a ∷ n ∷ head ++ rest)
        ≡ ok (
          record { state = PacketState.done; bytes_to_read = pos 0 },
          record frame {
            address = a;
            function = get_function n;
            data_length = length (head ++ rest);
            data_array = record frame.data_array {
              storage = write_at frame.data_array.storage frame.data_array.start (head ++ rest);
            };
          },
        )
  unfolding process_all process_character dispatch
  process_all_packet frame a n head rest valid e r w z h = rw valid (
      body_lem (calculate_meta_data_bytes_remaining (get_function n))
        (bytes_behind (get_function n) head) begun head rest e r w (omega arith)
        (remaining_lem begun head e z w (omega arith))
      ∙ ap (λ fr. ok (record { state = PacketState.done; bytes_to_read = pos 0 }, fr))
          (with_bytes_lem begun (head ++ rest) ∙ rw (z, zero-add, add-zero)))
    where
      begun : Frame
      begun = record frame { address = a; function = get_function n }
