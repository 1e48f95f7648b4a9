-- ===== src/ModbusRtu/Protocol/RoundTrip.antt =====
-- include/Modbus/ModbusRtu/ModbusRtuProtocol.h: Frame and ReadFrame, the way from a packet to the wire and
-- back.
use modbus_basic.Common.{
  ℕ, suc, ◌+◌, ◌≤◌, ◌<◌, ◌≡◌, refl, List, ◌∷◌, true, ok, arith, length, get_or, range, write_at,
  IsByte, All, set-IsByte, range-IsByte, write_at-IsByte, assert-true, le→leb, sub_size, ap, ◌∙◌,
  subst, sym,
}
use modbus_basic.External.{External, IsExternal}
use modbus_basic.View.{View, IsInside}
use modbus_basic.View.Laws.{view_get_lem}
use modbus_basic.Modbus.Function.{code, from_code}
use modbus_basic.Modbus.Frame.{Frame}
use modbus_basic.ModbusRtu.Protocol.{frame_packet, read_frame, view_crc_is_valid}
use modbus_basic.ModbusRtu.Protocol.Crc.{
  with_crc, length-set_crc, range-set_crc, range-set_crc_below, view_crc_is_valid-set_crc,
}
use modbus_basic.ModbusRtu.Protocol.Wire.{
  copy_from_view_lem, filled, length-filled, range-filled, framed, frame_packet_lem,
}

module _ (x : External) (laws : IsExternal x) where
  cons-parts :
      (a b c d : ℕ) (xs ys : List ℕ) → (a ∷ b ∷ xs) ≡ (c ∷ d ∷ ys) → (a ≡ c) × (b ≡ d) × (xs ≡ ys)
  cons-parts a b c d xs ys h = (cc, cc, cc)

  -- The parts of the framed x laws packet.
  framed-parts :
      (p : Frame) (bytes : List ℕ)
      → p.data_length + 2 ≤ length bytes
      → (get_or (framed x laws p bytes).storage 0 0 ≡ p.address)
        × (get_or (framed x laws p bytes).storage 1 0 ≡ code p.function)
        × (range (framed x laws p bytes).storage 2 p.data_length
            ≡ range p.data_array.storage p.data_array.start p.data_length)
  framed-parts p bytes h =
      cons-parts (get_or (framed x laws p bytes).storage 0 0)
        (get_or (framed x laws p bytes).storage 1 0) p.address (code p.function)
        (range (framed x laws p bytes).storage 2 p.data_length)
        (range p.data_array.storage p.data_array.start p.data_length)
        (sym (ap (range (framed x laws p bytes).storage 0) two_more)
          ∙ range-set_crc_below x (filled x laws p bytes) (p.data_length + 2)
          ∙ range-filled x laws p bytes h)
    where
      two_more : p.data_length + 2 ≡ suc (suc p.data_length)
      two_more = omega arith

  read_frame_lem :
      (p target : Frame) (bytes : List ℕ)
      → length bytes ≡ p.data_length + 4
      → p.data_length + 4 < 65536
      → IsInside target.data_array
      → p.data_length ≤ target.data_array.size
      → read_frame x (framed x laws p bytes) target
        ≡ ok (record {
          address = p.address;
          function = from_code (code p.function);
          data_length = p.data_length;
          data_array = record target.data_array {
            storage =
                write_at target.data_array.storage target.data_array.start
                  (range p.data_array.storage p.data_array.start p.data_length);
          };
        })
  unfolding read_frame
  read_frame_lem p target bytes e small w h =
      rw
        (
          shorter,
          le→leb p.data_length target.data_array.size h,
          assert-true,
          view_get_lem x laws (framed x laws p bytes) 1 inside (omega arith),
          view_get_lem x laws (framed x laws p bytes) 0 inside (omega arith),
          copy_from_view_lem x laws (framed x laws p bytes) target.data_array 0 p.data_length inside
              (omega arith) w (omega (arith, h)),
          add_zero,
          (framed-parts p bytes (omega (arith, e))).0,
          (framed-parts p bytes (omega (arith, e))).1,
          (framed-parts p bytes (omega (arith, e))).2,
        )
        refl
    where
      shorter : sub_size (sub_size (p.data_length + 4) 2) 2 ≡ p.data_length
      shorter = omega (arith, small)

      inside : IsInside (framed x laws p bytes)
      inside = omega (
        arith,
        e,
        length-set_crc x (filled x laws p bytes) (p.data_length + 2),
        length-filled x laws p bytes,
      )

      add_zero : target.data_array.start + 0 ≡ target.data_array.start
      add_zero = omega arith

  -- `Frame` on a buffer of exactly the packet's size puts the packet on the wire: address,
  -- function, payload and their CRC, high byte first. The buffer passes the CRC check, and
  -- `ReadFrame` reads it back into another frame, whose address, length and payload are then those
  -- of the packet and whose function is the one that the packet's code casts to. The payload's
  -- views lie in memory and have room for it, memory, address and code are bytes, and the packet is
  -- shorter than 65536 bytes.
  pub read_frame-frame_packet :
      (p target : Frame) (bytes : List ℕ)
      → IsInside p.data_array
      → p.data_length ≤ p.data_array.size
      → All IsByte p.data_array.storage
      → IsByte p.address
      → IsByte (code p.function)
      → All IsByte bytes
      → length bytes ≡ p.data_length + 4
      → p.data_length + 4 < 65536
      → IsInside target.data_array
      → p.data_length ≤ target.data_array.size
      → (buffer : View) × (frame_packet x p
            (record { storage = bytes; start = 0; size = p.data_length + 4 })
          ≡ ok buffer)
        × (range buffer.storage 0 (p.data_length + 4)
            ≡ with_crc x (
                p.address
                ∷ code p.function
                ∷ range p.data_array.storage p.data_array.start p.data_length))
        × (view_crc_is_valid x buffer ≡ ok true)
        × (read_frame x buffer target
            ≡ ok (record {
              address = p.address;
              function = from_code (code p.function);
              data_length = p.data_length;
              data_array = record target.data_array {
                storage =
                    write_at target.data_array.storage target.data_array.start
                      (range p.data_array.storage p.data_array.start p.data_length);
              };
            }))
  read_frame-frame_packet p target bytes w h payload address function memory e small u k = (
    framed x laws p bytes,
    frame_packet_lem x laws p bytes w h e small,
    sym (ap (range (framed x laws p bytes).storage 0) two_more)
        ∙ range-set_crc x (filled x laws p bytes) (p.data_length + 2)
            (omega (arith, e, length-filled x laws p bytes))
        ∙ ap (with_crc x) (range-filled x laws p bytes (omega (arith, e))),
    subst
        (λ n.
          view_crc_is_valid x
            (record { storage = (framed x laws p bytes).storage; start = 0; size = n })
          ≡ ok true)
        two_more
        (view_crc_is_valid-set_crc x laws (filled x laws p bytes) (p.data_length + 2)
          (omega (arith, e, length-filled x laws p bytes)) (omega (arith, small))
          (write_at-IsByte _ 2 _
            (set-IsByte _ 1 _ (set-IsByte bytes 0 p.address memory address) function)
            (range-IsByte p.data_array.storage p.data_array.start p.data_length payload))),
    read_frame_lem p target bytes e small u k,
  )
    where
      two_more : p.data_length + 2 + 2 ≡ p.data_length + 4
      two_more = omega arith
