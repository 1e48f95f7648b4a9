-- ===== src/ByteFields/Writes.antt =====
-- include/Modbus/RegisterController.h: what a write does to the blocks, and what is read after it.
use modbus_basic.Common.{
  ℕ, zero, suc, ◌+◌, ◌*◌, ◌<◌, ◌≤◌, ◌≡◌, ◌≢◌, refl, List, [], ◌∷◌, true, ok, arith, length,
  get_elem?, set, write_at, range, assert-true, lt→ltb, size_mod, ◌∙◌, ap, length-range,
  range-write_at, length-write_at,
}
use modbus_basic.External.{External}
use modbus_basic.ByteFields.{
  U8Field, U8Buffer, find_block, access_valid, entry_at, block_end, transfer_length, read, write,
}
use modbus_basic.ByteFields.Blocks.{copy_from_lem, read_lem}

-- A block with other bytes in its buffer.
abbrev pub with_bytes : U8Field → List ℕ → U8Field
with_bytes f bytes = record f { buffer = record f.buffer { bytes = bytes } }

entry_at-set :
    (entries : List U8Field) (k : ℕ) (f g : U8Field)
    → entry_at entries k ≡ ok f
    → entry_at (set entries k g) k ≡ ok g
entry_at-set [] k f g h = cc
entry_at-set (e ∷ entries) zero f g h = refl
entry_at-set (e ∷ entries) (suc k) f g h = entry_at-set entries k f g h

-- The blocks are found by their places alone.
find_block-set :
    (entries : List U8Field) (k address : ℕ) (f : U8Field) (bytes : List ℕ)
    → entry_at entries k ≡ ok f
    → find_block (set entries k (with_bytes f bytes)) address ≡ find_block entries address
unfolding find_block
find_block-set [] k address f bytes h = refl
find_block-set (e ∷ entries) zero address f bytes h =
    let same : e ≡ f = cc in rw (ap (λ b. block_end b.address b.field_length) same) refl
find_block-set (e ∷ entries) (suc k) address f bytes h =
    rw (find_block-set entries k address f bytes h) refl

get_elem?-set_other :
    (entries : List U8Field) (k m : ℕ) (g : U8Field)
    → m ≢ k
    → get_elem? (set entries k g) m ≡ get_elem? entries m
get_elem?-set_other [] k m g h = refl
get_elem?-set_other (e ∷ entries) zero zero g h = absurd (h refl)
get_elem?-set_other (e ∷ entries) zero (suc m) g h = refl
get_elem?-set_other (e ∷ entries) (suc k) zero g h = refl
get_elem?-set_other (e ∷ entries) (suc k) (suc m) g h =
    get_elem?-set_other entries k m g (λ e. h (ap suc e))

module _ (x : External) (entries : List U8Field) (address n : ℕ) (f : U8Field)
    (valid : access_valid entries address n ≡ ok true)
    (found : entry_at entries (find_block entries address) ≡ ok f) where
  -- The blocks after a write of the first bytes of a list.
  abbrev pub written : List ℕ → List U8Field
  written source =
      set entries (find_block entries address)
        (with_bytes f (write_at f.buffer.bytes address (range source 0 (2 * n))))

  found-written :
      (bytes : List ℕ)
      → entry_at
          (set entries (find_block entries address) (with_bytes f bytes))
          (find_block (set entries (find_block entries address) (with_bytes f bytes)) address)
        ≡ ok (with_bytes f bytes)
  found-written bytes =
      rw (find_block-set entries (find_block entries address) address f bytes found)
        (entry_at-set entries (find_block entries address) f (with_bytes f bytes) found)

  access_valid-written :
      (bytes : List ℕ)
      → access_valid (set entries (find_block entries address) (with_bytes f bytes)) address n
        ≡ ok true
  unfolding access_valid
  access_valid-written bytes = rw (found-written bytes) (rw found at valid)

  -- A valid write copies the words to the place in the block's buffer that the address names.
  pub write_lem :
      (buffer : U8Buffer)
      → 1 ≤ n
      → 2 * n ≤ buffer.size
      → 2 * n ≤ f.buffer.size
      → buffer.size ≡ length buffer.bytes
      → address + 2 * n ≤ length f.buffer.bytes
      → length buffer.bytes < size_mod
      → length f.buffer.bytes < size_mod
      → write x entries address n buffer ≡ ok (n, written buffer.bytes)
  unfolding write
  write_lem buffer one own room full inside p q = rw (
    valid,
    found,
    all,
    lt→ltb 0 n (omega arith),
    assert-true,
    copy_from_lem x buffer.bytes 0 f.buffer.bytes address 0 n (omega arith) (omega arith) p q,
    start,
    zero_start,
  )
    where
      all : transfer_length buffer f.buffer n ≡ n
      all = omega arith

      start : address + 2 * 0 ≡ address
      start = omega arith

      zero_start : 0 + 2 * 0 ≡ 0
      zero_start = omega arith

  -- A write of `n` registers, at least one, that is declared valid and finds its block, succeeds, a
  -- read of the same registers then gives the first 2 n bytes of what was written, and no other
  -- block has changed. The buffers have the sizes that are noted and at least 2 n bytes, the
  -- block's 2 n from the address on, and all three are smaller than the address range.
  pub write-read :
      (source target : U8Buffer)
      → 1 ≤ n
      → 2 * n ≤ source.size
      → 2 * n ≤ target.size
      → 2 * n ≤ f.buffer.size
      → source.size ≡ length source.bytes
      → target.size ≡ length target.bytes
      → address + 2 * n ≤ length f.buffer.bytes
      → length source.bytes < size_mod
      → length target.bytes < size_mod
      → length f.buffer.bytes < size_mod
      → (after : List U8Field) × (write x entries address n source ≡ ok (n, after))
        × (read x after address n target
            ≡ ok (
              n,
              record target { bytes = write_at target.bytes 0 (range source.bytes 0 (2 * n)) },
            ))
        × ((m : ℕ) → m ≢ find_block entries address → get_elem? after m ≡ get_elem? entries m)
  write-read source target one own room fits full whole inside p q r =
      let words : List ℕ = range source.bytes 0 (2 * n) in
      let bytes : List ℕ = write_at f.buffer.bytes address words in
      let count : length words ≡ 2 * n = length-range source.bytes 0 (2 * n) in
      let kept : length bytes ≡ length f.buffer.bytes =
        length-write_at f.buffer.bytes address words in
      (
        written source.bytes,
        write_lem source one own fits full inside p r,
        read_lem x (written source.bytes) address n (with_bytes f bytes) target
              (access_valid-written bytes) (found-written bytes) one room fits whole
              (omega (arith, kept)) q (omega (arith, kept))
            ∙ ap (λ bs. ok (n, record target { bytes = write_at target.bytes 0 bs }))
                (range_back f.buffer.bytes words count inside),
        λ m other. get_elem?-set_other entries (find_block entries address) m _ other,
      )
    where
      range_back :
          (old words : List ℕ)
          → length words ≡ 2 * n
          → address + 2 * n ≤ length old
          → range (write_at old address words) address (2 * n) ≡ words
      range_back old words count h =
          rw (← count) (range-write_at old address words (omega (arith, count)))
