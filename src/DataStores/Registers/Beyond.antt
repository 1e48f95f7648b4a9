-- ===== src/DataStores/Registers/Beyond.antt =====
-- include/Modbus/DataStores/RegisterDataStore.h: a read of more registers than the memory of the view can hold.
use native.Mathlib.Decide.{dec_le}
use modbus_basic.Common.{
  ℕ, zero, suc, ◌+◌, ◌*◌, ◌/◌, ◌%◌, ◌≤◌, ◌<◌, ◌≡◌, List, err, out_of_bounds, arith, length, get_or,
  set, length-set, add_size, mul_size,
}
use modbus_basic.External.{External, IsExternal}
use modbus_basic.View.{View}
use modbus_basic.View.Beyond.{put_word_within, put_word_beyond}
use modbus_basic.DataStores.Registers.{RegisterDataStore, get_from, get_registers}
use modbus_basic.DataStores.Registers.Access.{get_register_lem}

module _ (x : External) (laws : IsExternal x) where
  get_from-beyond :
      (s : RegisterDataStore) (a b : ℕ) (v : View) (n : ℕ)
      → a + n ≤ length s.registers
      → a + n ≤ 65536
      → b + 2 * n ≤ v.size
      → v.start + b ≤ length v.storage
      → length v.storage < v.start + b + 2 * n
      → get_from x s a b v n ≡ err out_of_bounds
  unfolding get_from
  get_from-beyond s a b v zero h w fits from to = absurd (omega arith)
  get_from-beyond s a b v (suc n) h w fits from to =
      elim (dec_le (v.start + b + 2) (length v.storage)) [
        | yes room ↦ rw (
          get_register_lem x laws s a (omega arith) (omega arith),
          put_word_within x laws v b word (omega arith) (omega arith),
          next,
          get_from-beyond s (suc a) (b + 2) filled n (omega arith) (omega arith) (omega arith)
              (omega (arith, lengths)) (omega (arith, lengths)),
        )
        | no full ↦ rw (
          get_register_lem x laws s a (omega arith) (omega arith),
          put_word_beyond x laws v b word (omega arith) (omega arith),
        )
      ]
    where
      word : ℕ
      word = get_or s.registers a 0

      first : List ℕ
      first = set v.storage (v.start + b) (word / 256 % 256)

      filled : View
      filled = record v { storage = set first (suc (v.start + b)) (word % 256) }

      lengths : (length first ≡ length v.storage) × (length filled.storage ≡ length first)
      lengths = omega (
        arith,
        length-set {0} v.storage (v.start + b) (word / 256 % 256),
        length-set {0} first (suc (v.start + b)) (word % 256),
      )

      next : add_size a 1 ≡ suc a
      next = omega arith

  -- `GetRegisters` on registers of the store, into a view whose memory ends before their last byte,
  -- writes outside that memory.
  pub get_registers-beyond :
      (s : RegisterDataStore) (address n : ℕ) (v : View)
      → address + n ≤ length s.registers
      → address + n ≤ 65536
      → 2 * n ≤ v.size
      → v.start ≤ length v.storage
      → length v.storage < v.start + 2 * n
      → get_registers x s address n v ≡ err out_of_bounds
  unfolding get_registers
  get_registers-beyond s address n v h w fits from to =
      let rounds : mul_size n 2 / 2 ≡ n = omega arith in
      rw (rounds, get_from-beyond s address 0 v n h w (omega arith) (omega arith) (omega arith))
