-- ===== src/ModbusRtu/Protocol/Framing.antt =====
-- include/Modbus/ModbusRtu/ModbusRtuProtocol.h: what is put on the wire, and what is read from it.
use modbus_basic.Common.{
  ℕ, zero, suc, ◌+◌, ◌*◌, ◌≤◌, min, ◌≡◌, refl, List, [], ◌∷◌, ok, ◌==◌, arith, length, get_or, set,
  range, write_at, IsByte, All, assert-true, get_or-set_self, get_or-set_ne, length-set, set-IsByte,
  ap₂, ◌∙◌, ==_refl, add_size, sub_size, replicate, length-write_at, get_or-write_at_below,
  range-write_at-range, get_or-write_at-range, write_at-IsByte, replicate-IsByte, range-IsByte,
}
use native.Mathlib.Nat.{zero-add, add-zero, add_comm}
use modbus_basic.External.{External, IsExternal}
use modbus_basic.View.{View, IsInside}
use modbus_basic.View.Laws.{view_get_lem, store_lem}
use modbus_basic.Modbus.Function.{code}
use modbus_basic.Modbus.Frame.{Frame}
use modbus_basic.Modbus.Response.{Response, get_array_view}
use modbus_basic.Modbus.Response.Laws.{IsFull, put_lem, at_lem, assign_lem}
use modbus_basic.ModbusRtu.Protocol.{frame_response, frame_crc_is_valid, copy_to_array}
use modbus_basic.ModbusRtu.Protocol.Crc.{set_crc, crc16_lem, view_crc_is_valid_lem}

-- A response with the address and the function of a packet.
abbrev pub headed : Frame → Response → List ℕ
headed packet r = set (set r.data_ 0 packet.address) 1 (code packet.function)

pub length-headed : (packet : Frame) (r : Response) → length (headed packet r) ≡ length r.data_
length-headed packet r = omega (
  arith,
  length-set {0} r.data_ 0 packet.address,
  length-set {0} (set r.data_ 0 packet.address) 1 (code packet.function),
)

module _ (zeros : List ℕ) (full : length zeros ≡ 256) (a f : ℕ) where
  -- An array with a header.
  abbrev pub header : List ℕ
  header = set (set zeros 0 a) 1 f

  pub length-header : length header ≡ 256
  length-header = omega (arith, length-set {0} zeros 0 a, length-set {0} (set zeros 0 a) 1 f)

  pub header-IsByte : All IsByte zeros → IsByte a → IsByte f → All IsByte header
  header-IsByte bytes ha hf = set-IsByte _ 1 f (set-IsByte zeros 0 a bytes ha) hf

  -- A header with a payload copied behind it begins with the two bytes of the header.
  pub range-header :
      (payload : List ℕ) (s m n : ℕ)
      → n ≤ m
      → 2 + m ≤ 256
      → range (write_at header 2 (range payload s m)) 0 (n + 2) ≡ a ∷ f ∷ range payload s n
  range-header payload s m n h fits = rw count (
      ap₂ (λ p t. p ∷ t)
        (get_or-write_at_below header 2 bs 0 (omega arith)
          ∙ get_or-set_ne (set zeros 0 a) 1 0 f 0 (omega arith)
          ∙ get_or-set_self zeros 0 a 0 (omega arith))
        (ap₂ (λ p t. p ∷ t)
          (get_or-write_at_below header 2 bs 1 (omega arith)
            ∙ get_or-set_self (set zeros 0 a) 1 f 0 (omega (arith, length-set {0} zeros 0 a)))
          (range-write_at-range header 2 payload s m n h (omega (arith, length-header)))))
    where
      bs : List ℕ
      bs = range payload s m

      count : n + 2 ≡ suc (suc n)
      count = omega arith

module _ (x : External) (laws : IsExternal x) where
  -- A response of at most 254 bytes gets its header again and the CRC of what it then holds.
  pub frame_response_lem :
      (packet : Frame) (r : Response)
      → IsFull r
      → r.length_ + 2 ≤ 256
      → frame_response x packet r
        ≡ ok (record r { length_ = r.length_ + 2; data_ = set_crc x (headed packet r) r.length_ })
  unfolding frame_response
  frame_response_lem packet r full fits = rw (
    put_lem x r 0 packet.address full (omega arith),
    at_lem x one 0 one_full (omega arith),
    get_or-set_self r.data_ 0 packet.address 0 (omega arith),
    ==_refl packet.address,
    assert-true,
    put_lem x one 1 (code packet.function) one_full (omega arith),
    at_lem x two 1 two_full (omega arith),
    get_or-set_self (set r.data_ 0 packet.address) 1 (code packet.function) 0
        (omega (arith, one_full)),
    ==_refl (code packet.function),
    assert-true,
    crc16_lem x (get_array_view two) r.length_ (omega (arith, two_full)) (omega arith),
    longer,
    start,
    behind,
    assign_lem x (record two { length_ = r.length_ + 2 })
        ((r.length_, x.get_byte c 1) ∷ (suc r.length_, x.get_byte c 0) ∷ []) two_full (omega arith),
    laws.high_byte,
    laws.low_byte,
  )
    where
      c : ℕ
      c = x.utilities_crc16 (range (headed packet r) 0 r.length_)

      one : Response
      one = record r { data_ = set r.data_ 0 packet.address }

      two : Response
      two = record r { data_ = headed packet r }

      one_full : IsFull one
      one_full = omega (arith, length-set {0} r.data_ 0 packet.address)

      two_full : IsFull two
      two_full = omega (arith, length-headed packet r)

      longer : add_size r.length_ 2 ≡ r.length_ + 2
      longer = omega arith

      start : sub_size (r.length_ + 2) 2 ≡ r.length_
      start = omega arith

      behind : add_size r.length_ 1 ≡ suc r.length_
      behind = omega arith

  copy_to_array_lem :
      (source : View) (array : List ℕ) (i n : ℕ)
      → IsInside source
      → i + n ≤ source.size
      → i + n + 2 ≤ length array
      → copy_to_array x source array i n
        ≡ ok (write_at array (i + 2) (range source.storage (source.start + i) n))
  unfolding copy_to_array
  copy_to_array_lem source array i zero w h k = refl
  copy_to_array_lem source array i (suc n) w h k = rw (
    view_get_lem x laws source i w (omega arith),
    store_lem {0} array (i + 2) b (omega arith),
    copy_to_array_lem source (set array (i + 2) b) (suc i) n w (omega arith)
        (omega (arith, length-set {0} array (i + 2) b)),
    place,
    next,
  )
    where
      b : ℕ
      b = get_or source.storage (source.start + i) 0

      place : suc i + 2 ≡ suc (i + 2)
      place = omega arith

      next : source.start + suc i ≡ suc (source.start + i)
      next = omega arith

  -- The check of a received frame with `n + 2` bytes of data, at most 254, compares the word that
  -- the last two of them hold with the CRC of the address, the function and the first `n`. The data
  -- lie in a window inside memory, and all of memory, the address and the function are bytes.
  pub frame_crc_is_valid_lem :
      (frame : Frame) (n : ℕ)
      → frame.data_length ≡ n + 2
      → n + 4 ≤ 256
      → frame.data_length ≤ frame.data_array.size
      → IsInside frame.data_array
      → All IsByte frame.data_array.storage
      → IsByte frame.address
      → IsByte (code frame.function)
      → frame_crc_is_valid x frame
        ≡ ok (
            get_or frame.data_array.storage (frame.data_array.start + n) 0 * 256
              + get_or frame.data_array.storage (frame.data_array.start + suc n) 0
            == x.utilities_crc16 (
                frame.address
                ∷ code frame.function
                ∷ range frame.data_array.storage frame.data_array.start n))
  unfolding frame_crc_is_valid
  frame_crc_is_valid_lem frame n len fits size inside bytes address function = rw (
    store_lem {0} zeros 0 a (omega arith),
    store_lem {0} (set zeros 0 a) 1 f (omega (arith, length-set {0} zeros 0 a)),
    len,
    rounds,
    copy_to_array_lem frame.data_array (header zeros full a f) 0 (n + 2) inside (omega arith)
        (omega (arith, length-header zeros full a f)),
    whole,
    zero-add,
    add-zero,
    view_crc_is_valid_lem x laws copied (n + 2) (omega (arith, lengths)) (omega arith) (
        write_at-IsByte _ 2 _
          (header-IsByte zeros full a f (replicate-IsByte 256 0 (omega arith)) address function)
          (range-IsByte st s (n + 2) bytes)),
    range-header zeros full a f st s (n + 2) n (omega arith) (omega arith),
    high,
    low,
  )
    where
      a : ℕ
      a = frame.address

      f : ℕ
      f = code frame.function

      st : List ℕ
      st = frame.data_array.storage

      s : ℕ
      s = frame.data_array.start

      zeros : List ℕ
      zeros = replicate 256 0

      full : length zeros ≡ 256
      full = refl

      copied : List ℕ
      copied = write_at (header zeros full a f) 2 (range st s (n + 2))

      lengths : length copied ≡ 256
      lengths = omega (
        arith,
        length-write_at (header zeros full a f) 2 (range st s (n + 2)),
        length-header zeros full a f,
      )

      rounds : min (n + 2) 256 ≡ n + 2
      rounds = omega arith

      whole : add_size (n + 2) 2 ≡ n + 2 + 2
      whole = omega arith

      high : get_or copied (n + 2) 0 ≡ get_or st (s + n) 0
      high = rw (add_comm n 2) (
          get_or-write_at-range (header zeros full a f) 2 st s (2 + n) n (omega arith)
            (omega (arith, length-header zeros full a f)))

      low : get_or copied (suc (n + 2)) 0 ≡ get_or st (s + suc n) 0
      low =
          let place : suc (n + 2) ≡ 2 + suc n = omega arith in
          rw place (
            get_or-write_at-range (header zeros full a f) 2 st s (n + 2) (suc n) (omega arith)
              (omega (arith, length-header zeros full a f)))
