-- ===== src/RegisterControl/WriteMultiple/Values.antt =====
-- include/Modbus/RegisterControl.h: the loop of WriteMultipleHoldingRegistersCommand::FillFrame.
use modbus_basic.Common.{
  ℕ, suc, ◌+◌, ◌*◌, ◌/◌, ◌%◌, ◌≤◌, ◌≡◌, refl, List, [], ◌∷◌, ok, length, set, write_at,
  encode_words, arith, length-set,
}
use modbus_basic.External.{External, IsExternal}
use modbus_basic.View.{View, IsInside}
use modbus_basic.View.Laws.{put_word_lem}
use modbus_basic.RegisterControl.WriteMultiple.{fill_values}

module _ (x : External) (laws : IsExternal x) where
  pub fill_values_lem :
      (v : View) (i : ℕ) (words : List ℕ)
      → IsInside v
      → i + 2 * length words ≤ v.size
      → fill_values x v i words
        ≡ ok (record v { storage = write_at v.storage (v.start + i) (encode_words words) })
  unfolding fill_values
  fill_values_lem v i [] w h = refl
  fill_values_lem v i (word ∷ words) w h = rw (
    put_word_lem x laws v i word w (omega arith),
    fill_values_lem
        (record v {
          storage =
              set (set v.storage (v.start + i) (word / 256 % 256)) (suc (v.start + i)) (word % 256);
        })
        (i + 2) words
        (omega (
          arith,
          length-set {0} v.storage (v.start + i) (word / 256 % 256),
          length-set {0} (set v.storage (v.start + i) (word / 256 % 256)) (suc (v.start + i))
              (word % 256),
        ))
        (omega arith),
    place,
  )
    where
      place : v.start + (i + 2) ≡ suc (suc (v.start + i))
      place = omega arith
