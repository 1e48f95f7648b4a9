-- ===== src/ModbusRtu/Protocol/Received.antt =====
-- include/Modbus/ModbusRtu/ModbusRtuProtocol.h: the check of a packet that was sent with its CRC.
use modbus_basic.Common.{
  ℕ, suc, ◌+◌, ◌/◌, ◌%◌, ◌≤◌, ◌≡◌, refl, List, [], ◌∷◌, ◌++◌, true, ok, arith, length, get_or, set,
  range, write_at, IsByte, All, bytes_of_word, ==_refl, ap₂, ◌∙◌, get_or-write_at_below,
  get_or-write_at_inside, get_or-set_self, length-set, length-write_at, write_at-IsByte,
}
use modbus_basic.External.{External, IsExternal}
use modbus_basic.View.{View}
use modbus_basic.Modbus.Function.{Function, code}
use modbus_basic.Modbus.Frame.{Frame}
use modbus_basic.ModbusRtu.Protocol.{frame_crc_is_valid}
use modbus_basic.ModbusRtu.Protocol.Framing.{frame_crc_is_valid_lem}

range-write_at_prefix :
    (xs : List ℕ) (i : ℕ) (bs cs : List ℕ)
    → i + length bs ≤ length xs
    → range (write_at xs i (bs ++ cs)) i (length bs) ≡ bs
range-write_at_prefix xs i [] cs h = refl
range-write_at_prefix xs i (b ∷ bs) cs h =
    ap₂ ◌∷◌
      (get_or-write_at_below (set xs i b) (suc i) (bs ++ cs) i (omega arith)
        ∙ get_or-set_self xs i b 0 (omega arith))
      (range-write_at_prefix (set xs i b) (suc i) bs cs (omega (arith, length-set {0} xs i b)))

pub trailer_lem :
    (bs : List ℕ) (hi lo : ℕ)
    → (length (bs ++ (hi ∷ lo ∷ [])) ≡ length bs + 2)
      × (get_or (bs ++ (hi ∷ lo ∷ [])) (length bs) 0 ≡ hi)
      × (get_or (bs ++ (hi ∷ lo ∷ [])) (suc (length bs)) 0 ≡ lo)
trailer_lem [] hi lo = (refl, refl, refl)
trailer_lem (b ∷ bs) hi lo =
    let (count, high, low) = trailer_lem bs hi lo in (omega (arith, count), high, low)

pub append-IsByte :
    (bs : List ℕ) (hi lo : ℕ)
    → All IsByte bs
    → IsByte hi
    → IsByte lo
    → All IsByte (bs ++ (hi ∷ lo ∷ []))
append-IsByte [] hi lo h p q = (p, (q, tt))
append-IsByte (b ∷ bs) hi lo h p q = (h.0, append-IsByte bs hi lo h.1 p q)

-- The payload of a packet with its CRC behind it, which is that of the address, the function and the
-- payload.
abbrev pub with_trailer : External → ℕ → Function → List ℕ → List ℕ
with_trailer x a f body =
    body
    ++ (x.utilities_crc16 (a ∷ code f ∷ body) / 256 % 256
        ∷ x.utilities_crc16 (a ∷ code f ∷ body) % 256
        ∷ [])

-- The frame that holds such a packet, in a window of memory.
abbrev pub received : External → View → ℕ → Function → List ℕ → Frame
received x v a f body = record {
  address = a;
  function = f;
  data_length = length (with_trailer x a f body);
  data_array = record v { storage = write_at v.storage v.start (with_trailer x a f body) };
}

module _ (x : External) (laws : IsExternal x) where
  -- A packet that arrives with the CRC of its address, function and payload passes the check. The
  -- payload has at most 252 bytes, the window lies in memory and has room for it and the CRC, and
  -- the memory, the address, the function's code and the payload are bytes.
  pub received-valid :
      (v : View) (a : ℕ) (f : Function) (body : List ℕ)
      → v.start + v.size ≤ length v.storage
      → length body + 2 ≤ v.size
      → length body + 4 ≤ 256
      → All IsByte v.storage
      → All IsByte body
      → IsByte a
      → IsByte (code f)
      → frame_crc_is_valid x (received x v a f body) ≡ ok true
  received-valid v a f body inside room fits memory bytes address function =
      frame_crc_is_valid_lem x laws (received x v a f body) (length body) trailer.0 fits
        (omega (arith, trailer.0)) (omega (arith, length-write_at v.storage v.start packet))
        (write_at-IsByte v.storage v.start packet memory
          (append-IsByte body _ _ bytes (omega arith) (omega arith)))
        address function
      ∙ rw (
        get_or-write_at_inside v.storage v.start packet (length body) (omega (arith, trailer.0))
            (omega (arith, trailer.0)),
        get_or-write_at_inside v.storage v.start packet (suc (length body))
            (omega (arith, trailer.0)) (omega (arith, trailer.0)),
        trailer.1,
        trailer.2,
        range-write_at_prefix v.storage v.start body _ (omega arith),
        bytes_of_word crc (laws.crc_word (a ∷ code f ∷ body)),
        ==_refl crc,
      )
    where
      crc : ℕ
      crc = x.utilities_crc16 (a ∷ code f ∷ body)

      packet : List ℕ
      packet = with_trailer x a f body

      trailer :
          (length packet ≡ length body + 2)
          × (get_or packet (length body) 0 ≡ crc / 256 % 256)
          × (get_or packet (suc (length body)) 0 ≡ crc % 256)
      trailer = trailer_lem body (crc / 256 % 256) (crc % 256)
