-- ===== src/ByteFields/Blocks.antt =====
-- include/Modbus/ByteFieldController.h and RegisterController.h: which accesses are valid, and what a
-- valid one copies.
use modbus_basic.Common.{
  ℕ, zero, suc, ◌+◌, ◌*◌, ◌<◌, ◌≤◌, ◌≡◌, refl, List, [], ◌∷◌, true, ok, err, out_of_bounds, arith,
  length, get_or, All, size_mod, lt→ltb, set, length-set, write_at, range, assert-true, add_size,
  mul_size, ◌∙◌,
}
use modbus_basic.External.{External}
use modbus_basic.View.Laws.{load_lem, store_lem}
use modbus_basic.ByteFields.{
  U8Field, U8Buffer, find_block, access_valid, entry_at, block_end, copy_from, transfer_length,
  read,
}

find_block-beyond :
    (entries : List U8Field) (address : ℕ)
    → All (λ f. block_end f.address f.field_length < address) entries
    → find_block entries address ≡ length entries
unfolding find_block
find_block-beyond [] address h = refl
find_block-beyond (f ∷ fs) address h = ground (arith, find_block-beyond fs address h.1, h.0)

entry_at-end : (entries : List U8Field) → entry_at entries (length entries) ≡ err out_of_bounds
entry_at-end [] = refl
entry_at-end (f ∷ fs) = entry_at-end fs

-- The check of an access whose address lies behind the end of every block reads outside the list of
-- blocks.
pub access_valid-beyond :
    (entries : List U8Field) (address n : ℕ)
    → All (λ f. block_end f.address f.field_length < address) entries
    → access_valid entries address n ≡ err out_of_bounds
unfolding access_valid
access_valid-beyond entries address n h =
    rw (find_block-beyond entries address h, entry_at-end entries)

pub copy_from_lem :
    (x : External) (source : List ℕ) (a : ℕ) (target : List ℕ) (b i n : ℕ)
    → a + 2 * i + 2 * n ≤ length source
    → b + 2 * i + 2 * n ≤ length target
    → length source < size_mod
    → length target < size_mod
    → copy_from x source a target b i n
      ≡ ok (write_at target (b + 2 * i) (range source (a + 2 * i) (2 * n)))
unfolding copy_from
copy_from_lem x source a target b i zero h k p q = refl
copy_from_lem x source a target b i (suc n) h k p q = rw (
  from,
  to,
  from_next,
  to_next,
  load_lem source (a + 2 * i) (omega arith),
  load_lem source (suc (a + 2 * i)) (omega arith),
  store_lem {0} target (b + 2 * i) hi (omega arith),
  store_lem {0} (set target (b + 2 * i) hi) (suc (b + 2 * i)) lo
      (omega (arith, length-set {0} target (b + 2 * i) hi)),
  copy_from_lem x source a (set (set target (b + 2 * i) hi) (suc (b + 2 * i)) lo) b (i + 1) n
      (omega arith) (omega (arith, lengths)) p (omega (arith, lengths)),
  from_then,
  to_then,
  count,
)
  where
    hi : ℕ
    hi = get_or source (a + 2 * i) 0

    lo : ℕ
    lo = get_or source (suc (a + 2 * i)) 0

    from : add_size a (mul_size 2 i) ≡ a + 2 * i
    from = omega arith

    to : add_size b (mul_size 2 i) ≡ b + 2 * i
    to = omega arith

    from_next : add_size (a + 2 * i) 1 ≡ suc (a + 2 * i)
    from_next = omega arith

    to_next : add_size (b + 2 * i) 1 ≡ suc (b + 2 * i)
    to_next = omega arith

    count : 2 * suc n ≡ suc (suc (2 * n))
    count = omega arith

    lengths : length (set (set target (b + 2 * i) hi) (suc (b + 2 * i)) lo) ≡ length target
    lengths =
        length-set (set target (b + 2 * i) hi) (suc (b + 2 * i)) lo
        ∙ length-set target (b + 2 * i) hi

    from_then : a + 2 * (i + 1) ≡ suc (suc (a + 2 * i))
    from_then = omega arith

    to_then : b + 2 * (i + 1) ≡ suc (suc (b + 2 * i))
    to_then = omega arith

-- A read of `n` registers, at least one, that is declared valid and finds its block, copies 2 n
-- bytes to the beginning of the reader's buffer, from the place in the block's buffer that the
-- address itself names, and not its distance from the block's address. Both buffers have at least 2
-- n bytes, the reader's as many as it says, the block's 2 n from the address on, and both are
-- smaller than the address range.
pub read_lem :
    (x : External) (entries : List U8Field) (address n : ℕ) (f : U8Field) (buffer : U8Buffer)
    → access_valid entries address n ≡ ok true
    → entry_at entries (find_block entries address) ≡ ok f
    → 1 ≤ n
    → 2 * n ≤ buffer.size
    → 2 * n ≤ f.buffer.size
    → buffer.size ≡ length buffer.bytes
    → address + 2 * n ≤ length f.buffer.bytes
    → length buffer.bytes < size_mod
    → length f.buffer.bytes < size_mod
    → read x entries address n buffer
      ≡ ok (
        n,
        record buffer { bytes = write_at buffer.bytes 0 (range f.buffer.bytes address (2 * n)) },
      )
unfolding read
read_lem x entries address n f buffer valid found one own room full inside p q = rw (
  valid,
  found,
  all,
  lt→ltb 0 n (omega arith),
  assert-true,
  copy_from_lem x f.buffer.bytes address buffer.bytes 0 0 n (omega arith) (omega arith) q p,
  start,
  zero_start,
)
  where
    all : transfer_length buffer f.buffer n ≡ n
    all = omega arith

    start : address + 2 * 0 ≡ address
    start = omega arith

    zero_start : 0 + 2 * 0 ≡ 0
    zero_start = omega arith
