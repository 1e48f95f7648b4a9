-- ===== src/Utilities.antt =====
-- include/Modbus/Utilities.h: MakeRegistersToBytes.
use modbus_basic.Common.{
  ℕ, suc, ◌+◌, ◌*◌, ◌/◌, ◌%◌, ◌≤◌, ◌≡◌, refl, List, [], ◌∷◌, Result, ok, ◌>>=◌, length, set,
  write_at, encode_words, arith, length-set,
}
use modbus_basic.External.{External, IsExternal}
use modbus_basic.View.{View, IsInside, put_word}
use modbus_basic.View.Laws.{put_word_lem}

-- The loop, from index `i` on: `data_out[i * 2]` and `data_out[i * 2 + 1]`.
pub make_from : External → ℕ → List ℕ → View → Result View
make_from x i [] data_out = ok data_out
make_from x i (word ∷ words) data_out = do
  next ← put_word x data_out (i * 2) word
  make_from x (suc i) words next

unfoldable pub make_registers_to_bytes : External → List ℕ → View → Result View
make_registers_to_bytes x data_view data_out = make_from x 0 data_view data_out

module _ (x : External) (laws : IsExternal x) where
  make_from_lem :
      (i : ℕ) (words : List ℕ) (out : View)
      → IsInside out
      → 2 * (i + length words) ≤ out.size
      → make_from x i words out
        ≡ ok
            (record out { storage = write_at out.storage (out.start + i * 2) (encode_words words) })
  unfolding make_from
  make_from_lem i [] out w h = refl
  make_from_lem i (word ∷ words) out w h = rw (
    put_word_lem x laws out (i * 2) word w (omega arith),
    make_from_lem (suc i) words
        (record out {
          storage =
              set (set out.storage (out.start + i * 2) (word / 256 % 256)) (suc (out.start + i * 2))
                (word % 256);
        })
        (omega (
          arith,
          length-set {0} out.storage (out.start + i * 2) (word / 256 % 256),
          length-set {0} (set out.storage (out.start + i * 2) (word / 256 % 256))
              (suc (out.start + i * 2)) (word % 256),
        ))
        (omega arith),
    place,
  )
    where
      place : out.start + suc i * 2 ≡ suc (suc (out.start + i * 2))
      place = omega arith

  -- The bytes of the registers, high byte first, over the beginning of the view.
  pub make_registers_to_bytes_lem :
      (words : List ℕ) (out : View)
      → IsInside out
      → 2 * length words ≤ out.size
      → make_registers_to_bytes x words out
        ≡ ok (record out { storage = write_at out.storage out.start (encode_words words) })
  unfolding make_registers_to_bytes
  make_registers_to_bytes_lem words out w h =
      rw (make_from_lem 0 words out w (omega arith), none_before) refl
    where
      none_before : out.start + 0 * 2 ≡ out.start
      none_before = omega arith
