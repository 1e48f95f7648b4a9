-- ===== src/Modbus/Response/Laws.antt =====
-- include/Modbus/Modbus.h: writes to a response inside its 256 bytes.
use modbus_basic.Common.{
  ℕ, ◌<◌, ◌≡◌, refl, List, [], ◌∷◌, ok, length, get_or, set, arith, length-set, assert-true, le→leb,
  lt→ltb,
}
use modbus_basic.External.{External}
use modbus_basic.View.Laws.{load_lem, store_lem, set_all, AllBelow}
use modbus_basic.Modbus.Response.{Response, max_frame_length, at_, put, assign}

-- The array of a response has its 256 bytes.
abbrev pub IsFull : Response → Type 0
IsFull r = length r.data_ ≡ max_frame_length

module _ (x : External) where
  pub put_lem :
      (r : Response) (i b : ℕ)
      → IsFull r
      → i < max_frame_length
      → put x r i b ≡ ok (record r { data_ = set r.data_ i b })
  unfolding put
  put_lem r i b w h = rw (
    le→leb i 256 (omega arith),
    lt→ltb i 256 h,
    assert-true,
    store_lem {0} r.data_ i b (omega arith),
  )

  pub at_lem :
      (r : Response) (i : ℕ) → IsFull r → i < max_frame_length → at_ x r i ≡ ok (get_or r.data_ i 0)
  unfolding at_
  at_lem r i w h =
      rw (le→leb i 256 (omega arith), lt→ltb i 256 h, assert-true, load_lem r.data_ i (omega arith))

  -- Index 256 passes the bounds assertion, and names byte 0.
  pub put_end :
      (r : Response) (b : ℕ)
      → IsFull r
      → put x r max_frame_length b ≡ ok (record r { data_ = set r.data_ 0 b })
  unfolding put
  put_end r b w = rw (assert-true, store_lem {0} r.data_ 0 b (omega arith))

  pub assign_lem :
      (r : Response) (ws : List (ℕ × ℕ))
      → IsFull r
      → AllBelow max_frame_length ws
      → assign x r ws ≡ ok (record r { data_ = set_all r.data_ ws })
  unfolding assign
  assign_lem r [] w h = refl
  assign_lem r ((i, b) ∷ rest) w h = rw (put_lem r i b w h.0) (
      assign_lem (record r { data_ = set r.data_ i b }) rest
        (omega (arith, length-set {0} r.data_ i b)) h.1)
