-- ===== src/Maps/Input/Bounds.antt =====
-- examples/ConnectedDevice/common/InputRegisterMappedDataStore.h: the setters of the byte arrays, which take
-- the length that the caller gives.
use modbus_basic.Common.{
  ℕ, ◌≤◌, ◌≡◌, refl, List, Bool, true, false, ok, err, out_of_bounds, ◌>>=◌, length, range,
  write_at, leb, if◌then◌else◌, Bool-cases, inl, inr, arith,
}
use modbus_basic.Maps.{copy_bytes}
use modbus_basic.Maps.Bytes.{copy_bytes_lem, copy_bytes-beyond}
use modbus_basic.Maps.Input.{InputRegisters}
use modbus_basic.Maps.Input.Access.{
  set_version, set_firmware_version, set_compile_date, set_compile_time, set_serial_number,
}
use modbus_basic.Maps.Input.Contents.{IsSized}

copy_bytes-bounded :
    (value array : List ℕ) (room n : ℕ)
    → length array ≡ room
    → n ≤ length value
    → copy_bytes value 0 array 0 n
      ≡ (if leb n room then ok (write_at array 0 (range value 0 n)) else err out_of_bounds)
copy_bytes-bounded value array room n e h = elim (Bool-cases (leb n room)) [
  | inl fits ↦ rw fits (copy_bytes_lem value 0 array 0 n (omega arith) (ground (arith, fits, e)))
  | inr over ↦
      rw over
        (copy_bytes-beyond value 0 array 0 n (omega arith) (ground (arith, over, e)) (omega arith))
]

after_copy :
    {A B : Type 0} (b : Bool) (a : A) (f : A → B)
    → (do bytes ← (if b then ok a else err out_of_bounds); ok (f bytes))
      ≡ (if b then ok (f a) else err out_of_bounds)
after_copy true a f = refl
after_copy false a f = refl

-- The setters of the byte arrays, in registers whose arrays have their sizes, given at least as
-- many bytes as the length: they write that many bytes over the beginning of the array if it has
-- room for them, and otherwise write outside it.
pub set_bytes_lem :
    (r : InputRegisters) (value : List ℕ) (n : ℕ)
    → IsSized r
    → n ≤ length value
    → (set_version r value n ≡ (
        if leb n 64
        then ok (record r { version = write_at r.version 0 (range value 0 n) })
        else err out_of_bounds))
      × (set_firmware_version r value n ≡ (
          if leb n 64
          then ok (record r { firmware_version = write_at r.firmware_version 0 (range value 0 n) })
          else err out_of_bounds))
      × (set_compile_date r value n ≡ (
          if leb n 64
          then ok (record r { compile_date = write_at r.compile_date 0 (range value 0 n) })
          else err out_of_bounds))
      × (set_compile_time r value n ≡ (
          if leb n 64
          then ok (record r { compile_time = write_at r.compile_time 0 (range value 0 n) })
          else err out_of_bounds))
      × (set_serial_number r value n ≡ (
          if leb n 40
          then ok (record r { serial_number = write_at r.serial_number 0 (range value 0 n) })
          else err out_of_bounds))
unfolding set_version set_firmware_version set_compile_date set_compile_time set_serial_number
set_bytes_lem r value n z h = (
  rw (copy_bytes-bounded value r.version 64 n z.0 h) (
      after_copy (leb n 64) (write_at r.version 0 (range value 0 n))
        (λ b. record r { version = b })),
  rw (copy_bytes-bounded value r.firmware_version 64 n z.1 h) (
      after_copy (leb n 64) (write_at r.firmware_version 0 (range value 0 n))
        (λ b. record r { firmware_version = b })),
  rw (copy_bytes-bounded value r.compile_date 64 n z.2 h) (
      after_copy (leb n 64) (write_at r.compile_date 0 (range value 0 n))
        (λ b. record r { compile_date = b })),
  rw (copy_bytes-bounded value r.compile_time 64 n z.3 h) (
      after_copy (leb n 64) (write_at r.compile_time 0 (range value 0 n))
        (λ b. record r { compile_time = b })),
  rw (copy_bytes-bounded value r.serial_number 40 n z.4 h) (
      after_copy (leb n 40) (write_at r.serial_number 0 (range value 0 n))
        (λ b. record r { serial_number = b })),
)
