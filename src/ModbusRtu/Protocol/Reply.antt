-- ===== src/ModbusRtu/Protocol/Reply.antt =====
-- include/Modbus/ModbusRtu/ModbusRtuProtocol.h: FrameResponse, as the master sees its bytes.
use modbus_basic.Common.{
  ℕ, suc, ◌+◌, ◌≤◌, ◌≡◌, List, ◌∷◌, true, ok, arith, set, range, IsByte, All, get_or-set_self,
  get_or-set_ne, range-set_outside, length-set, set-IsByte, ap, ap₂, ◌∙◌, inl,
}
use modbus_basic.External.{External, IsExternal}
use modbus_basic.Modbus.Function.{code}
use modbus_basic.Modbus.Frame.{Frame}
use modbus_basic.Modbus.Response.{Response, get_array_view}
use modbus_basic.Modbus.Response.Laws.{IsFull}
use modbus_basic.ModbusRtu.Protocol.{frame_response, view_crc_is_valid}
use modbus_basic.ModbusRtu.Protocol.Crc.{
  with_crc, set_crc, length-set_crc, range-set_crc, view_crc_is_valid-set_crc,
}
use modbus_basic.ModbusRtu.Protocol.Framing.{headed, length-headed, frame_response_lem}

range-headed :
    (packet : Frame) (r : Response) (n : ℕ)
    → IsFull r
    → range (headed packet r) 0 (n + 2) ≡ packet.address ∷ code packet.function ∷ range r.data_ 2 n
range-headed packet r n full = rw count (
    ap₂ (λ p t. p ∷ t)
      (get_or-set_ne (set r.data_ 0 packet.address) 1 0 (code packet.function) 0 (omega arith)
        ∙ get_or-set_self r.data_ 0 packet.address 0 (omega arith))
      (ap₂ (λ p t. p ∷ t)
        (get_or-set_self (set r.data_ 0 packet.address) 1 (code packet.function) 0
          (omega (arith, length-set {0} r.data_ 0 packet.address)))
        (range-set_outside (set r.data_ 0 packet.address) 1 (code packet.function) 2 n
            (inl (omega arith))
          ∙ range-set_outside r.data_ 0 packet.address 2 n (inl (omega arith)))))
  where
    count : n + 2 ≡ suc (suc n)
    count = omega arith

-- The bytes that a response holds up to its length, which are those that are sent.
abbrev pub sent : Response → List ℕ
sent r = range r.data_ 0 r.length_

-- What a framed response is: on the wire it is the given bytes and their CRC, and its CRC is accepted
-- by the check that the protocol makes of a packet.
abbrev pub IsFramed : External → List ℕ → Response → Type 0
IsFramed x bytes r =
    (sent r ≡ with_crc x bytes) × (view_crc_is_valid x (get_array_view r) ≡ ok true) × IsFull r

module _ (x : External) (laws : IsExternal x) where
  -- A response that holds `n` bytes behind its two header bytes, at most 252, is framed without a
  -- fault: what is sent then is the address and the function of the packet, those `n` bytes and
  -- their CRC, and the check of a packet's CRC accepts it. The response's array has its 256
  -- entries, and they, the address and the function are bytes.
  pub frame_response-IsFramed :
      (packet : Frame) (r : Response) (n : ℕ)
      → IsFull r
      → All IsByte r.data_
      → IsByte packet.address
      → IsByte (code packet.function)
      → r.length_ ≡ n + 2
      → n + 4 ≤ 256
      → (framed : Response) × (frame_response x packet r ≡ ok framed)
        × IsFramed x (packet.address ∷ code packet.function ∷ range r.data_ 2 n) framed
  frame_response-IsFramed packet r n full bytes a f e fits = (
    record r { length_ = n + 2 + 2; data_ = set_crc x (headed packet r) (n + 2) },
    frame_response_lem x laws packet r full (omega arith) ∙ rw e,
    (
      range-set_crc x (headed packet r) (n + 2) (omega (arith, length-headed packet r))
          ∙ ap (with_crc x) (range-headed packet r n full),
      view_crc_is_valid-set_crc x laws (headed packet r) (n + 2)
          (omega (arith, length-headed packet r)) (omega arith)
          (set-IsByte _ 1 _ (set-IsByte r.data_ 0 _ bytes a) f),
      omega (arith, length-set_crc x (headed packet r) (n + 2), length-headed packet r),
    ),
  )
