-- ===== src/ByteFields.antt =====
-- include/Modbus/ByteField.h, ByteFieldController.h, RegisterController.h and Accessor.h: blocks of
-- bytes at addresses, and accesses to them by registers. A block is taken to have its buffer to
-- itself.
pub mod Blocks
pub mod Writes
pub mod Sorted
pub mod Accessor
use modbus_basic.Common.{
  ℕ, zero, suc, ◌+◌, ◌*◌, ◌/◌, List, [], ◌∷◌, Bool, true, false, ◌&&◌, Result, ok, err,
  out_of_bounds, ◌>>=◌, ◌>>◌, assert, ltb, leb, if◌then◌else◌, length, get_elem?, set, add_size,
  sub_size, mul_size, min, none, some,
}
use modbus_basic.External.{External}
use modbus_basic.View.{load, store}
use modbus_basic.Modbus.Function.{
  AddressSpace, coil, discrete_input, input_register, holding_register, system_status,
  device_identifier, unmapped,
}

-- `struct u8_Buffer`: the bytes that the pointer leads to, and the size that is noted beside it.
pub record U8Buffer : Type 0 where
  pub bytes : List ℕ
  pub size : ℕ

-- `struct U8Field`
pub record U8Field : Type 0 where
  pub address : ℕ
  pub field_length : ℕ
  pub buffer : U8Buffer

-- The loop of `fields_are_sorted`, with the start that the next field may have.
unfoldable pub sorted_from : ℕ → List U8Field → Bool
sorted_from next_start [] = true
sorted_from next_start (f ∷ fs) =
    let rest = sorted_from (add_size f.address f.field_length) fs in
    if ltb f.address next_start then false else rest

unfoldable pub fields_are_sorted : List U8Field → Bool
fields_are_sorted fields = sorted_from 0 fields

-- `address + length - 1`
abbrev pub block_end : ℕ → ℕ → ℕ
block_end address n = sub_size (add_size address n) 1

-- `find_block`: the first block that does not end before the address, else the number of blocks.
unfoldable pub find_block : List U8Field → ℕ → ℕ
find_block [] address = zero
find_block (f ∷ fs) address =
    let rest = find_block fs address in
    if leb address (block_end f.address f.field_length) then zero else suc rest

-- `entries_.first[block]`
abbrev pub entry_at : List U8Field → ℕ → Result U8Field
entry_at entries block = elim (get_elem? entries block) [ none ↦ err out_of_bounds | some f ↦ ok f ]

-- `ByteFieldController::access_valid`, which `RegisterController::access_valid` hands on.
unfoldable pub access_valid : List U8Field → ℕ → ℕ → Result Bool
access_valid entries address n = do
  p_block ← entry_at entries (find_block entries address)
  ok (
      if leb address (block_end p_block.address p_block.field_length)
      then leb p_block.address address
        && leb (block_end address n) (block_end p_block.address p_block.field_length)
      else false)

abbrev pub transfer_length : U8Buffer → U8Buffer → ℕ → ℕ
transfer_length one other n = min (min one.size other.size / 2) n

module _ (x : External) where
  -- The constructor of `ByteFieldController`
  unfoldable pub new_controller : List U8Field → Result (List U8Field)
  new_controller entries = do assert x.ndebug (fields_are_sorted entries); ok entries

  -- The loop that both directions have: `n` rounds from `i` on copy two bytes each, from
  -- `source[a + 2 i]` to `target[b + 2 i]`.
  pub copy_from : List ℕ → ℕ → List ℕ → ℕ → ℕ → ℕ → Result (List ℕ)
  copy_from source a target b i zero = ok target
  copy_from source a target b i (suc n) = do
    let byte_number = mul_size 2 i
    hi ← load source (add_size a byte_number)
    once ← store target (add_size b byte_number) hi
    lo ← load source (add_size (add_size a byte_number) 1)
    twice ← store once (add_size (add_size b byte_number) 1) lo
    copy_from source a twice b (i + 1) n

  -- `RegisterController::read`: the number of registers read, and the buffer.
  unfoldable pub read : List U8Field → ℕ → ℕ → U8Buffer → Result (ℕ × U8Buffer)
  read entries address n buffer = do
    valid ← access_valid entries address n
    if valid
        then (do
          p_block ← entry_at entries (find_block entries address)
          assert x.ndebug (ltb 0 (transfer_length buffer p_block.buffer n))
          bytes ←
              copy_from p_block.buffer.bytes address buffer.bytes 0 0
                (transfer_length buffer p_block.buffer n)
          ok (transfer_length buffer p_block.buffer n, record buffer { bytes = bytes }))
        else ok (0, buffer)

  -- `RegisterController::write`: the number of registers written, and the blocks.
  unfoldable pub write : List U8Field → ℕ → ℕ → U8Buffer → Result (ℕ × List U8Field)
  write entries address n buffer = do
    valid ← access_valid entries address n
    if valid
        then (do
          let block = find_block entries address
          p_block ← entry_at entries block
          assert x.ndebug (ltb 0 (transfer_length buffer p_block.buffer n))
          bytes ←
              copy_from buffer.bytes 0 p_block.buffer.bytes address 0
                (transfer_length buffer p_block.buffer n)
          ok (
            transfer_length buffer p_block.buffer n,
            set entries block (record p_block { buffer = record p_block.buffer { bytes = bytes } }),
          ))
        else ok (0, entries)
