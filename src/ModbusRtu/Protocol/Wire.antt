-- ===== src/ModbusRtu/Protocol/Wire.antt =====
-- include/Modbus/ModbusRtu/ModbusRtuProtocol.h: the copying loops, and the buffer that Frame leaves.
use modbus_basic.Common.{
  ℕ, zero, suc, ◌+◌, ◌≤◌, ◌<◌, ◌≡◌, refl, List, [], ◌∷◌, ok, arith, length, get_or, set, range,
  write_at, length-set, length-range, length-write_at, range-write_at, get_or-write_at_below,
  get_or-set_ne, get_or-set_self, assert-true, le→leb, ==_refl, sub_size, ap, ap₂, ◌∙◌, sym,
}
use modbus_basic.External.{External, IsExternal}
use modbus_basic.View.{View, IsInside}
use modbus_basic.View.Laws.{view_get_lem, view_set_lem, view_assign_lem}
use modbus_basic.Modbus.Function.{code}
use modbus_basic.Modbus.Frame.{Frame}
use modbus_basic.ModbusRtu.ReadContext.{get_required_packet_size}
use modbus_basic.ModbusRtu.Protocol.{frame_packet, copy_to_view, copy_from_view}
use modbus_basic.ModbusRtu.Protocol.Crc.{set_crc, crc16_lem}

module _ (x : External) (laws : IsExternal x) where
  copy_to_view_lem :
      (source buffer : View) (i n : ℕ)
      → IsInside source
      → i + n ≤ source.size
      → IsInside buffer
      → i + n + 2 ≤ buffer.size
      → copy_to_view x source buffer i n
        ≡ ok (record buffer {
          storage =
              write_at buffer.storage
                (buffer.start + (i + 2))
                (range source.storage (source.start + i) n);
        })
  unfolding copy_to_view
  copy_to_view_lem source buffer i zero w h u k = refl
  copy_to_view_lem source buffer i (suc n) w h u k = rw (
    view_get_lem x laws source i w (omega arith),
    view_set_lem x laws buffer (i + 2) b u (omega arith),
    copy_to_view_lem source
        (record buffer { storage = set buffer.storage (buffer.start + (i + 2)) b }) (suc i) n w
        (omega arith) (omega (arith, length-set {0} buffer.storage (buffer.start + (i + 2)) b))
        (omega arith),
    place,
    next,
  )
    where
      b : ℕ
      b = get_or source.storage (source.start + i) 0

      place : buffer.start + (suc i + 2) ≡ suc (buffer.start + (i + 2))
      place = omega arith

      next : source.start + suc i ≡ suc (source.start + i)
      next = omega arith

  pub copy_from_view_lem :
      (buffer target : View) (i n : ℕ)
      → IsInside buffer
      → i + n + 2 ≤ buffer.size
      → IsInside target
      → i + n ≤ target.size
      → copy_from_view x buffer target i n
        ≡ ok (record target {
          storage =
              write_at target.storage
                (target.start + i)
                (range buffer.storage (buffer.start + (i + 2)) n);
        })
  unfolding copy_from_view
  copy_from_view_lem buffer target i zero w h u k = refl
  copy_from_view_lem buffer target i (suc n) w h u k = rw (
    view_get_lem x laws buffer (i + 2) w (omega arith),
    view_set_lem x laws target i b u (omega arith),
    copy_from_view_lem buffer (record target { storage = set target.storage (target.start + i) b })
        (suc i) n w (omega arith)
        (omega (arith, length-set {0} target.storage (target.start + i) b)) (omega arith),
    place,
    next,
  )
    where
      b : ℕ
      b = get_or buffer.storage (buffer.start + (i + 2)) 0

      place : buffer.start + (suc i + 2) ≡ suc (buffer.start + (i + 2))
      place = omega arith

      next : target.start + suc i ≡ suc (target.start + i)
      next = omega arith

  -- The array with the address, the function and the payload of a packet in it.
  abbrev pub filled : Frame → List ℕ → List ℕ
  filled p bytes =
      write_at (set (set bytes 0 p.address) 1 (code p.function)) 2
        (range p.data_array.storage p.data_array.start p.data_length)

  pub length-filled : (p : Frame) (bytes : List ℕ) → length (filled p bytes) ≡ length bytes
  length-filled p bytes = omega (
    arith,
    length-write_at (set (set bytes 0 p.address) 1 (code p.function)) 2
        (range p.data_array.storage p.data_array.start p.data_length),
    length-set {0} (set bytes 0 p.address) 1 (code p.function),
    length-set {0} bytes 0 p.address,
  )

  pub range-filled :
      (p : Frame) (bytes : List ℕ)
      → p.data_length + 2 ≤ length bytes
      → range (filled p bytes) 0 (p.data_length + 2)
        ≡ p.address ∷ code p.function ∷ range p.data_array.storage p.data_array.start p.data_length
  range-filled p bytes h =
      ap (range (filled p bytes) 0) two_more ∙ ap₂ ◌∷◌ first (ap₂ ◌∷◌ second third)
    where
      n : ℕ
      n = p.data_length

      payload : List ℕ
      payload = range p.data_array.storage p.data_array.start n

      one : List ℕ
      one = set bytes 0 p.address

      two : List ℕ
      two = set one 1 (code p.function)

      two_more : n + 2 ≡ suc (suc n)
      two_more = omega arith

      first : get_or (filled p bytes) 0 0 ≡ p.address
      first =
          get_or-write_at_below two 2 payload 0 (omega arith)
          ∙ get_or-set_ne one 1 0 (code p.function) 0 (omega arith)
          ∙ get_or-set_self bytes 0 p.address 0 (omega (arith, h))

      second : get_or (filled p bytes) 1 0 ≡ code p.function
      second =
          get_or-write_at_below two 2 payload 1 (omega arith)
          ∙ get_or-set_self one 1 (code p.function) 0
              (omega (arith, h, length-set {0} bytes 0 p.address))

      third : range (filled p bytes) 2 n ≡ payload
      third =
          ap (range (filled p bytes) 2)
            (sym (length-range p.data_array.storage p.data_array.start n))
          ∙ range-write_at two 2 payload (
              omega (
                arith,
                h,
                length-range p.data_array.storage p.data_array.start n,
                length-set {0} one 1 (code p.function),
                length-set {0} bytes 0 p.address,
              ))

  -- The view onto the framed packet.
  abbrev pub framed : Frame → List ℕ → View
  framed p bytes = record {
    storage = set_crc x (filled p bytes) (p.data_length + 2);
    start = 0;
    size = p.data_length + 4;
  }

  pub frame_packet_lem :
      (p : Frame) (bytes : List ℕ)
      → IsInside p.data_array
      → p.data_length ≤ p.data_array.size
      → length bytes ≡ p.data_length + 4
      → p.data_length + 4 < 65536
      → frame_packet x p (record { storage = bytes; start = 0; size = p.data_length + 4 })
        ≡ ok (framed p bytes)
  unfolding frame_packet get_required_packet_size
  frame_packet_lem p bytes w h e small =
      rw
        (
          required,
          le→leb (n + 4) (n + 4) (omega arith),
          assert-true,
          view_assign_lem x laws (n + 4) bytes ((0, p.address) ∷ (1, code p.function) ∷ []) e
              (omega arith, (omega arith, tt)),
          copy_to_view_lem p.data_array (record { storage = two; start = 0; size = n + 4 }) 0 n w
              (omega (arith, h)) (omega (arith, lengths)) (omega arith),
          add_zero,
          crc16_lem x (record { storage = filled p bytes; start = 0; size = n + 4 }) (n + 2)
              (omega (arith, lengths)) (omega arith),
          ==_refl (n + 4),
          assert-true,
          crc_start,
          behind,
          view_assign_lem x laws (n + 4) (filled p bytes)
              ((n + 2, x.get_byte c 1) ∷ (suc (n + 2), x.get_byte c 0) ∷ [])
              (omega (arith, lengths, e)) (omega arith, (omega arith, tt)),
          laws.high_byte,
          laws.low_byte,
        )
        refl
    where
      n : ℕ
      n = p.data_length

      two : List ℕ
      two = set (set bytes 0 p.address) 1 (code p.function)

      c : ℕ
      c = x.utilities_crc16 (range (filled p bytes) 0 (n + 2))

      lengths : (n + 4 ≤ length two) × (length (filled p bytes) ≡ length bytes)
      lengths = omega (
        arith,
        e,
        length-filled p bytes,
        length-set {0} (set bytes 0 p.address) 1 (code p.function),
        length-set {0} bytes 0 p.address,
      )

      required : 2 + n + 2 ≡ n + 4
      required = omega arith

      add_zero : p.data_array.start + 0 ≡ p.data_array.start
      add_zero = omega arith

      crc_start : sub_size (n + 4) 2 ≡ n + 2
      crc_start = omega (arith, small)

      behind : n + 2 + 1 ≡ suc (n + 2)
      behind = omega arith
