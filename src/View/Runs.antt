-- ===== src/View/Runs.antt =====
-- Assignments to consecutive elements of a view, which write a list of bytes.
use modbus_basic.Common.{
  ℕ, suc, ◌+◌, ◌≤◌, ◌≡◌, refl, List, [], ◌∷◌, ok, length, set, write_at, arith, length-set,
}
use modbus_basic.External.{External, IsExternal}
use modbus_basic.View.{View, IsInside, view_assign}
use modbus_basic.View.Laws.{view_set_lem}

-- The assignments of bytes to the elements from index `i` on.
abbrev pub run : ℕ → List ℕ → List (ℕ × ℕ)
run i [] = []
run i (b ∷ bs) = (i, b) ∷ run (suc i) bs

module _ (x : External) (laws : IsExternal x) where
  pub view_assign-run :
      (v : View) (i : ℕ) (bs : List ℕ)
      → IsInside v
      → i + length bs ≤ v.size
      → view_assign x v (run i bs) ≡ ok (record v { storage = write_at v.storage (v.start + i) bs })
  unfolding view_assign
  view_assign-run v i [] w h = refl
  view_assign-run v i (b ∷ bs) w h = rw (
    view_set_lem x laws v i b w (omega arith),
    view_assign-run (record v { storage = set v.storage (v.start + i) b }) (suc i) bs
        (omega (arith, length-set {0} v.storage (v.start + i) b)) (omega arith),
    place,
  )
    where
      place : v.start + suc i ≡ suc (v.start + i)
      place = omega arith
