-- ===== src/External.antt =====
-- What the library uses of external/CppUtilities, a submodule whose text is not in the repository
-- (ArrayView, Utilities::GetByte, Utilities::Make_MSB_uint16_tFromU8Array, Utilities::crc16), and
-- whether it is built with NDEBUG. The definitions take it as a parameter.
use modbus_basic.Common.{ℕ, ◌+◌, ◌*◌, ◌/◌, ◌%◌, ◌<◌, ◌≡◌, Bool, List, Result, ok, IsByte, IsWord}

pub record External : Type 0 where
  -- Are the `assert`s compiled out?
  pub ndebug : Bool
  -- `view[i]`: the place in the viewed memory of the element that it refers to, by the view's size.
  pub view_index : ℕ → ℕ → Result ℕ
  -- `Utilities::GetByte(value, n)`
  pub get_byte : ℕ → ℕ → ℕ
  -- `Utilities::Make_MSB_uint16_tFromU8Array` of a view of two bytes.
  pub make_msb_uint16 : ℕ → ℕ → ℕ
  -- `Utilities::crc16(data, length)`, by the bytes that it runs over.
  pub utilities_crc16 : List ℕ → ℕ

-- What the callers rely on: an index inside a view names that element, GetByte counts from the low
-- byte of a 16-bit number, the MSB reading takes the high byte first, and a CRC has 16 bits.
pub record IsExternal (x : External) : Type 0 where
  pub inside : (size i : ℕ) → i < size → x.view_index size i ≡ ok i
  pub low_byte : (w : ℕ) → x.get_byte w 0 ≡ w % 256
  pub high_byte : (w : ℕ) → x.get_byte w 1 ≡ w / 256 % 256
  pub msb_first : (hi lo : ℕ) → IsByte hi → IsByte lo → x.make_msb_uint16 hi lo ≡ hi * 256 + lo
  pub crc_word : (bytes : List ℕ) → IsWord (x.utilities_crc16 bytes)
