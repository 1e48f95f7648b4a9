-- ===== src/Maps.antt =====
-- examples/ConnectedDevice/common: what the generated maps of registers have in common.
pub mod Bytes
pub mod Access
pub mod Places
pub mod Holding
pub mod Input
use modbus_basic.Common.{
  ℕ, zero, suc, ◌+◌, ◌*◌, ◌/◌, ◌%◌, List, [], ◌∷◌, Result, ok, ◌>>=◌, ◌≡◌, length, range, All,
  IsByte, min,
}
use modbus_basic.View.{View, IsInside, load, store}

-- The C++ integer types of the fields. A value of each is kept as its bits, read as a natural number.
pub data IntegerType : Type 0 where
  uint16 uint32 int32 : IntegerType

abbrev pub size_of : IntegerType → ℕ
size_of uint16 = 2
size_of uint32 = 4
size_of int32 = 4

-- `Utilities::Make_MSB_IntegerTypeFromArray<t, uint8_t>(data, size)` and `Utilities::MakeMSBU8Array<t>`,
-- of a submodule whose text is not in the repository.
pub record Conversion : Type 0 where
  pub make_msb_integer : IntegerType → View → Result ℕ
  pub make_msb_u8_array : IntegerType → ℕ → List ℕ

-- The number whose digits to the base 256 are the bytes, behind the digits of `acc`.
abbrev pub msb_value : ℕ → List ℕ → ℕ
msb_value acc [] = acc
msb_value acc (b ∷ bs) = msb_value (acc * 256 + b) bs

-- The last `w` digits of a number, before `rest`.
abbrev pub msb_bytes : ℕ → ℕ → List ℕ → List ℕ
msb_bytes zero n rest = rest
msb_bytes (suc w) n rest = msb_bytes w (n / 256) (n % 256 ∷ rest)

-- What the maps rely on: both conversions have the most significant byte first.
pub record IsConversion (c : Conversion) : Type 0 where
  pub from_bytes :
      (t : IntegerType) (v : View)
      → IsInside v
      → v.size ≡ size_of t
      → All IsByte v.storage
      → c.make_msb_integer t v ≡ ok (msb_value 0 (range v.storage v.start v.size))
  pub to_bytes : (t : IntegerType) (n : ℕ) → c.make_msb_u8_array t n ≡ msb_bytes (size_of t) n []

-- `for (i = 0; i < n; i++) { to[i] = from[i]; }`, from the two given places on.
pub copy_bytes : List ℕ → ℕ → List ℕ → ℕ → ℕ → Result (List ℕ)
copy_bytes from i to j zero = ok to
copy_bytes from i to j (suc n) = do
  b ← load from i
  to' ← store to j b
  copy_bytes from (suc i) to' (suc j) n

-- The loop of `GetField`: `data[i] = array[i]` for `i < std::min(array.size(), size)`.
unfoldable pub copy_out : List ℕ → View → Result View
copy_out array v = do
  written ← copy_bytes array 0 v.storage v.start (min (length array) v.size)
  ok (record v { storage = written })

-- The loop of `SetField`: `array[i] = data[i]` for `i < std::min(sizeof(array), size)`.
unfoldable pub copy_in : List ℕ → View → Result (List ℕ)
copy_in array v = copy_bytes v.storage v.start array 0 (min (length array) v.size)
