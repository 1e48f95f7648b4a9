-- ===== src/Modbus/Frame/Laws.antt =====
-- include/Modbus/Modbus.h: what `Frame::Reset` does to the window of a frame.
use modbus_basic.Common.{
  ℕ, zero, suc, ◌+◌, ◌≤◌, ◌≡◌, refl, ok, arith, set, length-set, replicate, write_at,
}
use modbus_basic.External.{External, IsExternal}
use modbus_basic.View.{View, IsInside}
use modbus_basic.View.Laws.{view_set_lem}
use modbus_basic.Modbus.Frame.{clear_from}

module _ (x : External) (laws : IsExternal x) where
  pub clear_from_lem :
      (v : View) (i n : ℕ)
      → IsInside v
      → i + n ≤ v.size
      → clear_from x v i n
        ≡ ok (record v { storage = write_at v.storage (v.start + i) (replicate n 0) })
  unfolding clear_from
  clear_from_lem v i zero w h = refl
  clear_from_lem v i (suc n) w h = rw (
    view_set_lem x laws v i 0 w (omega arith),
    clear_from_lem (record v { storage = set v.storage (v.start + i) 0 }) (suc i) n
        (omega (arith, length-set {0} v.storage (v.start + i) 0)) (omega arith),
    next,
  )
    where
      next : v.start + suc i ≡ suc (v.start + i)
      next = omega arith
