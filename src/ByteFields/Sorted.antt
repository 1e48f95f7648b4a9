-- ===== src/ByteFields/Sorted.antt =====
-- include/Modbus/ByteFieldController.h: sorted blocks, and the accesses that lie inside one of them.
use modbus_basic.Common.{
  ℕ, zero, suc, ◌+◌, ◌<◌, ◌≤◌, ◌≡◌, refl, List, [], ◌∷◌, Bool, true, false, ◌&&◌, ok, err,
  out_of_bounds, arith, All, leb, if◌then◌else◌, size_mod, inl, inr, ap, ◌⊎◌, add_size,
}
use modbus_basic.ByteFields.{
  U8Field, find_block, access_valid, entry_at, block_end, sorted_from, fields_are_sorted,
}

-- A block that is not empty and ends within the address range.
abbrev pub IsBlock : U8Field → Type 0
IsBlock f = (1 ≤ f.field_length) × (f.address + f.field_length < size_mod)

-- An access to a block.
abbrev pub Inside : ℕ → ℕ → U8Field → Type 0
Inside address n f = (f.address ≤ address) × (address + n ≤ f.address + f.field_length)

entry_at-cases :
    (entries : List U8Field) (k : ℕ)
    → ((f : U8Field) × (entry_at entries k ≡ ok f)) ⊎ (entry_at entries k ≡ err out_of_bounds)
entry_at-cases [] k = inr refl
entry_at-cases (e ∷ entries) zero = inl (e, refl)
entry_at-cases (e ∷ entries) (suc k) = entry_at-cases entries k

sorted_from-cons :
    (start : ℕ) (e : U8Field) (entries : List U8Field)
    → sorted_from start (e ∷ entries) ≡ true
    → (start ≤ e.address) × (sorted_from (add_size e.address e.field_length) entries ≡ true)
unfolding sorted_from
sorted_from-cons start e entries h = (ground (arith, h), ground (arith, h))

-- No block of a sorted list begins before the given start.
sorted_from-start :
    (entries : List U8Field) (start k : ℕ) (f : U8Field)
    → sorted_from start entries ≡ true
    → All IsBlock entries
    → entry_at entries k ≡ ok f
    → start ≤ f.address
sorted_from-start [] start k f sorted blocks h = cc
sorted_from-start (e ∷ entries) start zero f sorted blocks h =
    let same : e ≡ f = cc in rw (← same) (sorted_from-cons start e entries sorted).0
sorted_from-start (e ∷ entries) start (suc k) f sorted blocks h =
    let (first, rest) = sorted_from-cons start e entries sorted in
    let next = sorted_from-start entries (add_size e.address e.field_length) k f rest blocks.1 h in
    let block : IsBlock e = blocks.0 in omega (arith, first, next, block)

-- In a sorted list, an access to a block finds that block.
find_block-Inside :
    (entries : List U8Field) (start k address n : ℕ) (f : U8Field)
    → sorted_from start entries ≡ true
    → All IsBlock entries
    → entry_at entries k ≡ ok f
    → 1 ≤ n
    → Inside address n f
    → find_block entries address ≡ k
unfolding find_block
find_block-Inside [] start k address n f sorted blocks h one inside = cc
find_block-Inside (e ∷ entries) start zero address n f sorted blocks h one inside =
    let same : e ≡ f = cc in
    let block : IsBlock e = blocks.0 in
    let here : Inside address n e = rw same inside in ground (arith, one, block, here)
find_block-Inside (e ∷ entries) start (suc k) address n f sorted blocks h one inside =
    let (first, rest) = sorted_from-cons start e entries sorted in
    let next = sorted_from-start entries (add_size e.address e.field_length) k f rest blocks.1 h in
    let block : IsBlock e = blocks.0 in
    let found =
      find_block-Inside entries (add_size e.address e.field_length) k address n f rest blocks.1 h
        one inside in
    ground (arith, one, block, next, inside, found)

entry_at-All :
    (entries : List U8Field) (k : ℕ) (f : U8Field)
    → All IsBlock entries
    → entry_at entries k ≡ ok f
    → IsBlock f
entry_at-All [] k f blocks h = cc
entry_at-All (e ∷ entries) zero f blocks h = let same : e ≡ f = cc in rw (← same) blocks.0
entry_at-All (e ∷ entries) (suc k) f blocks h = entry_at-All entries k f blocks.1 h

-- The answer of `access_valid` on the block that it has found.
abbrev holds : ℕ → ℕ → U8Field → Bool
holds address n f =
    if leb address (block_end f.address f.field_length)
    then leb f.address address && leb (block_end address n) (block_end f.address f.field_length)
    else false

holds_iff :
    (address n : ℕ) (f : U8Field)
    → IsBlock f
    → 1 ≤ n
    → address + n < size_mod
    → (holds address n f ≡ true → Inside address n f)
      × (Inside address n f → holds address n f ≡ true)
holds_iff address n f block one reach =
    (λ h. ground (arith, h, block, one, reach), λ inside. ground (arith, inside, block, one, reach))

-- In a sorted list of blocks, none empty and each within the address range, an access of at least
-- one register that ends within that range is declared valid only if it lies inside one of the
-- blocks, and each access inside one of the blocks finds that block and is declared valid.
pub access_valid_iff :
    (entries : List U8Field) (address n : ℕ)
    → fields_are_sorted entries ≡ true
    → All IsBlock entries
    → 1 ≤ n
    → address + n < size_mod
    → (access_valid entries address n ≡ ok true
        → (k : ℕ) × (f : U8Field) × (entry_at entries k ≡ ok f) × Inside address n f)
      × ((k : ℕ) (f : U8Field)
          → entry_at entries k ≡ ok f
          → Inside address n f
          → (find_block entries address ≡ k) × (access_valid entries address n ≡ ok true))
unfolding access_valid fields_are_sorted
access_valid_iff entries address n sorted blocks one reach = (
  λ valid. elim (entry_at-cases entries (find_block entries address)) [
    | inl (f, found) ↦
        let answer : ok (holds address n f) ≡ ok true = rw found at valid in
        let yes_holds : holds address n f ≡ true = cc in
        let block : IsBlock f = entry_at-All entries (find_block entries address) f blocks found in
        (find_block entries address, f, found, (holds_iff address n f block one reach).0 yes_holds)
    | inr missing ↦ let wrong : err out_of_bounds ≡ ok true = rw missing at valid in cc
  ],
  λ k f h inside.
      let found = find_block-Inside entries 0 k address n f sorted blocks h one inside in
      let block : IsBlock f = entry_at-All entries k f blocks h in
      (found, rw (found, h) (ap ok ((holds_iff address n f block one reach).1 inside))),
)
