-- ===== src/ModbusRtu/Slave/Replies.antt =====
-- include/Modbus/ModbusRtu/ModbusRtuSlave.h: the replies that RunCommand frames.
use modbus_basic.Common.{
  ℕ, suc, false, ◌+◌, ◌*◌, ◌/◌, ◌%◌, ◌<◌, ◌≤◌, ◌≡◌, refl, true, List, [], ◌∷◌, ok, arith, length,
  get_or, set, range, IsByte, All, replicate-IsByte, replicate, ap₂, ◌∙◌, write_at, encode_words,
  length-encode_words, get_or-write_at_below, range-write_at, length-write_at, le→leb, lt→ltb,
  subst, inl, range-set_outside, get_or-set_self, length-set,
}
use modbus_basic.External.{External, IsExternal}
use modbus_basic.View.Laws.{set_all, set_all-IsByte, length-set_all}
use modbus_basic.Modbus.Function.{code}
use modbus_basic.Modbus.Frame.{Frame}
use modbus_basic.Modbus.Response.{Response}
use modbus_basic.DataStores.Registers.{RegisterDataStore}
use modbus_basic.ModbusRtu.Protocol.{frame_response}
use modbus_basic.ModbusRtu.Protocol.Reply.{IsFramed, frame_response-IsFramed}
use modbus_basic.ModbusRtu.Slave.Validate.{in_store}

abbrev pub zeros : List ℕ
zeros = replicate 256 0

pub zeros-IsByte : All IsByte zeros
zeros-IsByte = replicate-IsByte 256 0 (omega arith)

pub length-zeros : length zeros ≡ 256
length-zeros = refl

-- A reply of bytes behind a header, whatever the header is.
pub header_reply :
    (ws : List (ℕ × ℕ)) (bs : List ℕ) (n : ℕ)
    → length bs ≡ n
    → 3 + n ≤ 256
    → range (write_at (set_all zeros ws) 3 bs) 2 (suc n) ≡ get_or (set_all zeros ws) 2 0 ∷ bs
header_reply ws bs n e h = rw (← e) (
    ap₂ (λ a t. a ∷ t) (get_or-write_at_below (set_all zeros ws) 3 bs 2 (omega arith))
      (range-write_at (set_all zeros ws) 3 bs
        (omega (arith, length-set_all zeros ws, length-zeros))))

-- A reply of a count and the registers, whatever is written of it first.
pub read_reply :
    (ws : List (ℕ × ℕ)) (regs : List ℕ) (c : ℕ)
    → length regs ≡ c
    → 3 + 2 * c ≤ 256
    → range (write_at (set_all zeros ws) 3 (encode_words regs)) 2 (suc (2 * c))
      ≡ get_or (set_all zeros ws) 2 0 ∷ encode_words regs
read_reply ws regs c e h =
    header_reply ws (encode_words regs) (2 * c) (omega (arith, length-encode_words regs)) h

-- The same with the bytes of the registers written first.
pub read_reply_bytes :
    (a g b : ℕ) (bs : List ℕ) (n : ℕ)
    → length bs ≡ n
    → 3 + n ≤ 256
    → range (set_all (write_at zeros 3 bs) ((0, a) ∷ (1, g) ∷ (2, b) ∷ [])) 2 (suc n) ≡ b ∷ bs
read_reply_bytes a g b bs n e h = rw (← e) (
    ap₂ (λ a t. a ∷ t)
      (get_or-set_self (set (set below 0 a) 1 g) 2 b 0 (
        omega (
          arith,
          length-set {0} below 0 a,
          length-set {0} (set below 0 a) 1 g,
          length-write_at zeros 3 bs,
          length-zeros,
        )))
      (range-set_outside (set (set below 0 a) 1 g) 2 b 3 _ (inl (omega arith))
        ∙ range-set_outside (set below 0 a) 1 g 3 _ (inl (omega arith))
        ∙ range-set_outside below 0 a 3 _ (inl (omega arith))
        ∙ range-write_at zeros 3 bs (omega (arith, length-zeros))))
  where
    below : List ℕ
    below = write_at zeros 3 bs

pub read_reply_below :
    (a g b : ℕ) (regs : List ℕ) (c : ℕ)
    → length regs ≡ c
    → 3 + 2 * c ≤ 256
    → range
        (set_all (write_at zeros 3 (encode_words regs)) ((0, a) ∷ (1, g) ∷ (2, b) ∷ []))
        2
        (suc (2 * c))
      ≡ b ∷ encode_words regs
read_reply_below a g b regs c e h =
    read_reply_bytes a g b (encode_words regs) (2 * c) (omega (arith, length-encode_words regs))
      (omega arith)

pub in_store_lem :
    (s : RegisterDataStore) (address count : ℕ)
    → address < length s.registers
    → address + count ≤ length s.registers
    → in_store s address count ≡ true
in_store_lem s address count begins h =
    rw (lt→ltb address (length s.registers) begins, le→leb (address + count) (length s.registers) h)

pub reframe :
    (x : External) {bs bs' : List ℕ} (r : Response) → bs ≡ bs' → IsFramed x bs r → IsFramed x bs' r
reframe x {bs} {bs'} r e h = subst (λ t. IsFramed x t r) e h

module _ (x : External) (laws : IsExternal x) where
  -- A reply of two words is framed.
  pub short_reply :
      (frame : Frame) (g u w : ℕ)
      → IsByte frame.address
      → IsByte g
      → IsByte (code frame.function)
      → (r : Response) × (frame_response x frame (record {
        length_ = 6;
        data_ = set_all zeros (
            (0, frame.address)
            ∷ (1, g)
            ∷ (2, u / 256 % 256)
            ∷ (3, u % 256)
            ∷ (4, w / 256 % 256)
            ∷ (5, w % 256)
            ∷ []);
        ready = false;
      })
          ≡ ok r)
        × IsFramed x (frame.address ∷ code frame.function ∷ encode_words (u ∷ w ∷ [])) r
  short_reply frame g u w a c f =
      frame_response-IsFramed x laws frame
        (record { length_ = 6; data_ = set_all zeros ws; ready = false }) 4 refl
        (set_all-IsByte zeros ws zeros-IsByte
          (a, (c, (omega arith, (omega arith, (omega arith, (omega arith, tt)))))))
        a f refl (omega arith)
    where
      ws : List (ℕ × ℕ)
      ws =
          (0, frame.address)
          ∷ (1, g)
          ∷ (2, u / 256 % 256)
          ∷ (3, u % 256)
          ∷ (4, w / 256 % 256)
          ∷ (5, w % 256)
          ∷ []
