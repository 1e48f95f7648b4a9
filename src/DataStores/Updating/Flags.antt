-- ===== src/DataStores/Updating/Flags.antt =====
-- include/Modbus/DataStores/RegisterDataStore.h: which flags a write sets, and which of them
-- `new_data_available` looks at.
use modbus_basic.Common.{
  ℕ, zero, suc, ◌+◌, ◌-◌, ◌%◌, ◌≤◌, ◌≡◌, refl, Bool, true, List, ok, arith, length, set, length-set,
  add_size,
}
use modbus_basic.View.Laws.{store_lem}
use modbus_basic.DataStores.Registers.{RegisterDataStore}
use modbus_basic.DataStores.Updating.{flag_from}

-- The flags of `n` registers from `a` on, set.
abbrev pub flag_run : List Bool → ℕ → ℕ → List Bool
flag_run flags a zero = flags
flag_run flags a (suc n) = flag_run (set flags a true) (suc a) n

pub flag_from_lem :
    (flags : List Bool) (base : RegisterDataStore) (a k n : ℕ)
    → a + k + n ≤ length flags
    → a + k + n ≤ 65536
    → flag_from (record { base = base; flags = flags }) a k n
      ≡ ok (record { base = base; flags = flag_run flags (a + k) n })
unfolding flag_from
flag_from_lem flags base a k zero h w = refl
flag_from_lem flags base a k (suc n) h w = rw (
  same,
  store_lem {0} flags (a + k) true (omega arith),
  flag_from_lem (set flags (a + k) true) base a (k + 1) n
      (omega (arith, length-set {0} flags (a + k) true)) (omega arith),
  next,
)
  where
    same : add_size a k % 65536 - 0 ≡ a + k
    same = omega arith

    next : a + (k + 1) ≡ suc (a + k)
    next = omega arith
