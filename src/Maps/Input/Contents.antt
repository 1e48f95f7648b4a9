-- ===== src/Maps/Input/Contents.antt =====
-- examples/ConnectedDevice/common/InputRegisterMappedDataStore.h: the bytes of the fields, and their places.
use modbus_basic.Common.{
  ℕ, zero, suc, ◌<◌, ◌≡◌, refl, List, [], ◌∷◌, length, get_or, arith, sym, ap, ◌∙◌,
}
use modbus_basic.Maps.{msb_bytes}
use modbus_basic.Maps.Input.{
  InputRegisters, InputRegistersEntryIdentifier, entry_positions, identifier_of,
}

-- The bytes of each field, most significant first, and the sizes of the arrays.
abbrev pub contents : InputRegisters → List (List ℕ)
contents r =
    r.version
    ∷ r.firmware_version
    ∷ r.compile_date
    ∷ r.compile_time
    ∷ r.serial_number
    ∷ msb_bytes 2 r.fault_status []
    ∷ msb_bytes 4 r.p5_micro_volts []
    ∷ msb_bytes 4 r.p5_reading []
    ∷ msb_bytes 4 r.p23_micro_volts []
    ∷ msb_bytes 4 r.p23_reading []
    ∷ msb_bytes 4 r.vlo_micro_volts []
    ∷ msb_bytes 4 r.vlo_reading []
    ∷ msb_bytes 4 r.thermistor_temp_spi []
    ∷ msb_bytes 4 r.thermistor_temp_mcu []
    ∷ msb_bytes 4 r.data_frequency []
    ∷ msb_bytes 4 r.p3_3_micro_volts []
    ∷ msb_bytes 4 r.p3_3_reading []
    ∷ []

abbrev pub IsSized : InputRegisters → Type 0
IsSized r =
    (length r.version ≡ 64)
    × (length r.firmware_version ≡ 64)
    × (length r.compile_date ≡ 64)
    × (length r.compile_time ≡ 64)
    × (length r.serial_number ≡ 40)

-- The size that a field has in `entry_positions_`.
abbrev pub size_at : ℕ → ℕ
size_at i = (get_or entry_positions i (InputRegistersEntryIdentifier.unknown, 0, 0)).2

abbrev pub index_of : InputRegistersEntryIdentifier → ℕ
index_of InputRegistersEntryIdentifier.version = 0
index_of InputRegistersEntryIdentifier.firmware_version = 1
index_of InputRegistersEntryIdentifier.compile_date = 2
index_of InputRegistersEntryIdentifier.compile_time = 3
index_of InputRegistersEntryIdentifier.serial_number = 4
index_of InputRegistersEntryIdentifier.fault_status = 5
index_of InputRegistersEntryIdentifier.p5_micro_volts = 6
index_of InputRegistersEntryIdentifier.p5_reading = 7
index_of InputRegistersEntryIdentifier.p23_micro_volts = 8
index_of InputRegistersEntryIdentifier.p23_reading = 9
index_of InputRegistersEntryIdentifier.vlo_micro_volts = 10
index_of InputRegistersEntryIdentifier.vlo_reading = 11
index_of InputRegistersEntryIdentifier.thermistor_temp_spi = 12
index_of InputRegistersEntryIdentifier.thermistor_temp_mcu = 13
index_of InputRegistersEntryIdentifier.data_frequency = 14
index_of InputRegistersEntryIdentifier.p3_3_micro_volts = 15
index_of InputRegistersEntryIdentifier.p3_3_reading = 16
index_of InputRegistersEntryIdentifier.unknown = 17

pub index_of-identifier_of : (i : ℕ) → i < 17 → index_of (identifier_of i) ≡ i
unfolding identifier_of
index_of-identifier_of zero h = refl
index_of-identifier_of (suc zero) h = refl
index_of-identifier_of (suc (suc zero)) h = refl
index_of-identifier_of (suc (suc (suc zero))) h = refl
index_of-identifier_of (suc (suc (suc (suc zero)))) h = refl
index_of-identifier_of (suc (suc (suc (suc (suc zero))))) h = refl
index_of-identifier_of (suc (suc (suc (suc (suc (suc zero)))))) h = refl
index_of-identifier_of (suc (suc (suc (suc (suc (suc (suc zero))))))) h = refl
index_of-identifier_of (suc (suc (suc (suc (suc (suc (suc (suc zero)))))))) h = refl
index_of-identifier_of (suc (suc (suc (suc (suc (suc (suc (suc (suc zero))))))))) h = refl
index_of-identifier_of (suc (suc (suc (suc (suc (suc (suc (suc (suc (suc zero)))))))))) h = refl
index_of-identifier_of (suc (suc (suc (suc (suc (suc (suc (suc (suc (suc (suc zero))))))))))) h =
    refl
index_of-identifier_of (suc (suc (suc (suc (suc (suc (suc (suc (suc (suc (suc (suc zero))))))))))))
      h =
    refl
index_of-identifier_of
      (suc (suc (suc (suc (suc (suc (suc (suc (suc (suc (suc (suc (suc zero))))))))))))) h =
    refl
index_of-identifier_of
      (suc (suc (suc (suc (suc (suc (suc (suc (suc (suc (suc (suc (suc (suc zero)))))))))))))) h =
    refl
index_of-identifier_of
      (suc (suc (suc (suc (suc (suc (suc (suc (suc (suc (suc (suc (suc (suc (suc zero)))))))))))))))
      h =
    refl
index_of-identifier_of
      (suc (
        suc
          (suc (suc (suc (suc (suc (suc (suc (suc (suc (suc (suc (suc (suc (suc zero))))))))))))))))
      h =
    refl
index_of-identifier_of
      (suc (
        suc (
          suc
            (suc (suc (suc (suc (suc (suc (suc (suc (suc (suc (suc (suc (suc (suc i)))))))))))))))))
      h =
    absurd (omega arith)

abbrev lengths : List (List ℕ) → List ℕ
lengths [] = []
lengths (bs ∷ rest) = length bs ∷ lengths rest

abbrev sizes : List (InputRegistersEntryIdentifier × ℕ × ℕ) → List ℕ
sizes [] = []
sizes ((field, offset, size) ∷ entries) = size ∷ sizes entries

get_or-lengths : (c : List (List ℕ)) (i : ℕ) → get_or (lengths c) i 0 ≡ length (get_or c i [])
get_or-lengths [] i = refl
get_or-lengths (bs ∷ rest) zero = refl
get_or-lengths (bs ∷ rest) (suc i) = get_or-lengths rest i

get_or-sizes :
    (entries : List (InputRegistersEntryIdentifier × ℕ × ℕ)) (i : ℕ)
    → get_or (sizes entries) i 0
      ≡ (get_or entries i (InputRegistersEntryIdentifier.unknown, 0, 0)).2
get_or-sizes [] i = refl
get_or-sizes (entry ∷ entries) zero = refl
get_or-sizes (entry ∷ entries) (suc i) = get_or-sizes entries i

lengths-contents : (r : InputRegisters) → IsSized r → lengths (contents r) ≡ sizes entry_positions
lengths-contents r (version, firmware_version, compile_date, compile_time, serial_number) =
    rw (version, firmware_version, compile_date, compile_time, serial_number) refl

-- The bytes of a field are as many as its size.
pub length-field :
    (r : InputRegisters) (i : ℕ) → IsSized r → length (get_or (contents r) i []) ≡ size_at i
length-field r i sized =
    sym (get_or-lengths (contents r) i)
    ∙ ap (λ c. get_or c i 0) (lengths-contents r sized)
    ∙ get_or-sizes entry_positions i
