-- ===== src/View/Beyond.antt =====
-- Views that reach beyond the memory that they stand in.
use native.Mathlib.Decide.{dec_le}
use modbus_basic.Common.{
  ℕ, suc, ◌+◌, ◌/◌, ◌%◌, ◌≤◌, ◌<◌, ◌≡◌, ok, err, out_of_bounds, length, set, arith, length-set,
}
use modbus_basic.External.{External, IsExternal}
use modbus_basic.View.{View, view_set, put_word}
use modbus_basic.View.Laws.{store_lem, store_outside}

module _ (x : External) (laws : IsExternal x) where
  view_set_within :
      (v : View) (i b : ℕ)
      → i < v.size
      → v.start + i < length v.storage
      → view_set x v i b ≡ ok (record v { storage = set v.storage (v.start + i) b })
  unfolding view_set
  view_set_within v i b h w = rw (laws.inside v.size i h, store_lem {0} v.storage (v.start + i) b w)

  view_set_beyond :
      (v : View) (i b : ℕ)
      → i < v.size
      → length v.storage ≤ v.start + i
      → view_set x v i b ≡ err out_of_bounds
  unfolding view_set
  view_set_beyond v i b h w =
      rw (laws.inside v.size i h, store_outside {0} v.storage (v.start + i) b w)

  -- A word whose two bytes stand in memory.
  pub put_word_within :
      (v : View) (i word : ℕ)
      → suc i < v.size
      → suc (v.start + i) < length v.storage
      → put_word x v i word
        ≡ ok (record v {
          storage =
              set (set v.storage (v.start + i) (word / 256 % 256)) (suc (v.start + i)) (word % 256);
        })
  unfolding put_word
  put_word_within v i word h w = rw (
    view_set_within v i (x.get_byte word 1) (omega arith) (omega arith),
    view_set_within first (i + 1) (x.get_byte word 0) (omega arith)
        (omega (arith, length-set {0} v.storage (v.start + i) (x.get_byte word 1))),
    laws.high_byte,
    laws.low_byte,
    next,
  )
    where
      first : View
      first = record v { storage = set v.storage (v.start + i) (x.get_byte word 1) }

      next : v.start + (i + 1) ≡ suc (v.start + i)
      next = omega arith

  -- A word whose second byte does not.
  pub put_word_beyond :
      (v : View) (i word : ℕ)
      → suc i < v.size
      → length v.storage ≤ suc (v.start + i)
      → put_word x v i word ≡ err out_of_bounds
  unfolding put_word
  put_word_beyond v i word h w = elim (dec_le (length v.storage) (v.start + i)) [
    | yes out ↦ rw (view_set_beyond v i (x.get_byte word 1) (omega arith) out)
    | no last ↦ rw (
      view_set_within v i (x.get_byte word 1) (omega arith) (omega arith),
      view_set_beyond (record v { storage = set v.storage (v.start + i) (x.get_byte word 1) })
          (i + 1) (x.get_byte word 0) (omega arith)
          (omega (arith, length-set {0} v.storage (v.start + i) (x.get_byte word 1))),
    )
  ]
