-- ===== src/Maps/Input/Fields.antt =====
-- examples/ConnectedDevice/common/InputRegisterMappedDataStore.h: the bytes of the fields, and the accesses to them.
use modbus_basic.Common.{
  ℕ, ◌≤◌, ◌<◌, ◌≡◌, refl, [], ok, length-range, get_or, set, range, write_at, All, IsByte, arith,
  ◌∙◌, subst, sym,
}
use modbus_basic.View.{View, IsInside}
use modbus_basic.Maps.{Conversion, IsConversion, msb_bytes, msb_value, int32, uint16, uint32}
use modbus_basic.Maps.Bytes.{msb_bytes-view, copy_out_lem, copy_in_lem}
use modbus_basic.Maps.Access.{Fields, IsFields, Accesses, accesses_lem}
use modbus_basic.Maps.Input.Contents.{contents, IsSized, size_at, index_of, index_of-identifier_of}
use modbus_basic.Maps.Input.{
  InputRegisters, InputRegistersEntryIdentifier, identifier_of, set_entry, get_entry, set_field,
  get_field,
}

module _ (c : Conversion) (laws : IsConversion c) where
  set_entry_lem :
      (id : InputRegistersEntryIdentifier) (v : View) (r : InputRegisters)
      → IsSized r
      → index_of id < 17
      → IsInside v
      → v.size ≡ size_at (index_of id)
      → All IsByte v.storage
      → (r' : InputRegisters) × (set_entry c id v r ≡ ok r')
        × (contents r' ≡ set (contents r) (index_of id) (range v.storage v.start v.size))
        × IsSized r'
  unfolding set_entry
  set_entry_lem InputRegistersEntryIdentifier.unknown v r z h w e b = absurd (omega arith)
  set_entry_lem InputRegistersEntryIdentifier.version v r z h w e b = (
    record r { version = range v.storage v.start v.size },
    rw (copy_in_lem r.version v w (omega (arith, e, z.0))) refl,
    refl,
    (length-range v.storage v.start v.size ∙ e, z.1, z.2, z.3, z.4),
  )
  set_entry_lem InputRegistersEntryIdentifier.firmware_version v r z h w e b = (
    record r { firmware_version = range v.storage v.start v.size },
    rw (copy_in_lem r.firmware_version v w (omega (arith, e, z.1))) refl,
    refl,
    (z.0, length-range v.storage v.start v.size ∙ e, z.2, z.3, z.4),
  )
  set_entry_lem InputRegistersEntryIdentifier.compile_date v r z h w e b = (
    record r { compile_date = range v.storage v.start v.size },
    rw (copy_in_lem r.compile_date v w (omega (arith, e, z.2))) refl,
    refl,
    (z.0, z.1, length-range v.storage v.start v.size ∙ e, z.3, z.4),
  )
  set_entry_lem InputRegistersEntryIdentifier.compile_time v r z h w e b = (
    record r { compile_time = range v.storage v.start v.size },
    rw (copy_in_lem r.compile_time v w (omega (arith, e, z.3))) refl,
    refl,
    (z.0, z.1, z.2, length-range v.storage v.start v.size ∙ e, z.4),
  )
  set_entry_lem InputRegistersEntryIdentifier.serial_number v r z h w e b = (
    record r { serial_number = range v.storage v.start v.size },
    rw (copy_in_lem r.serial_number v w (omega (arith, e, z.4))) refl,
    refl,
    (z.0, z.1, z.2, z.3, length-range v.storage v.start v.size ∙ e),
  )
  set_entry_lem InputRegistersEntryIdentifier.fault_status v r z h w e b = (
    record r { fault_status = msb_value 0 (range v.storage v.start v.size) },
    rw (laws.from_bytes uint16 v w e b) refl,
    rw (msb_bytes-view 2 v e b) refl,
    z,
  )
  set_entry_lem InputRegistersEntryIdentifier.p5_micro_volts v r z h w e b = (
    record r { p5_micro_volts = msb_value 0 (range v.storage v.start v.size) },
    rw (laws.from_bytes int32 v w e b) refl,
    rw (msb_bytes-view 4 v e b) refl,
    z,
  )
  set_entry_lem InputRegistersEntryIdentifier.p5_reading v r z h w e b = (
    record r { p5_reading = msb_value 0 (range v.storage v.start v.size) },
    rw (laws.from_bytes uint32 v w e b) refl,
    rw (msb_bytes-view 4 v e b) refl,
    z,
  )
  set_entry_lem InputRegistersEntryIdentifier.p23_micro_volts v r z h w e b = (
    record r { p23_micro_volts = msb_value 0 (range v.storage v.start v.size) },
    rw (laws.from_bytes int32 v w e b) refl,
    rw (msb_bytes-view 4 v e b) refl,
    z,
  )
  set_entry_lem InputRegistersEntryIdentifier.p23_reading v r z h w e b = (
    record r { p23_reading = msb_value 0 (range v.storage v.start v.size) },
    rw (laws.from_bytes uint32 v w e b) refl,
    rw (msb_bytes-view 4 v e b) refl,
    z,
  )
  set_entry_lem InputRegistersEntryIdentifier.vlo_micro_volts v r z h w e b = (
    record r { vlo_micro_volts = msb_value 0 (range v.storage v.start v.size) },
    rw (laws.from_bytes int32 v w e b) refl,
    rw (msb_bytes-view 4 v e b) refl,
    z,
  )
  set_entry_lem InputRegistersEntryIdentifier.vlo_reading v r z h w e b = (
    record r { vlo_reading = msb_value 0 (range v.storage v.start v.size) },
    rw (laws.from_bytes uint32 v w e b) refl,
    rw (msb_bytes-view 4 v e b) refl,
    z,
  )
  set_entry_lem InputRegistersEntryIdentifier.thermistor_temp_spi v r z h w e b = (
    record r { thermistor_temp_spi = msb_value 0 (range v.storage v.start v.size) },
    rw (laws.from_bytes int32 v w e b) refl,
    rw (msb_bytes-view 4 v e b) refl,
    z,
  )
  set_entry_lem InputRegistersEntryIdentifier.thermistor_temp_mcu v r z h w e b = (
    record r { thermistor_temp_mcu = msb_value 0 (range v.storage v.start v.size) },
    rw (laws.from_bytes int32 v w e b) refl,
    rw (msb_bytes-view 4 v e b) refl,
    z,
  )
  set_entry_lem InputRegistersEntryIdentifier.data_frequency v r z h w e b = (
    record r { data_frequency = msb_value 0 (range v.storage v.start v.size) },
    rw (laws.from_bytes uint32 v w e b) refl,
    rw (msb_bytes-view 4 v e b) refl,
    z,
  )
  set_entry_lem InputRegistersEntryIdentifier.p3_3_micro_volts v r z h w e b = (
    record r { p3_3_micro_volts = msb_value 0 (range v.storage v.start v.size) },
    rw (laws.from_bytes int32 v w e b) refl,
    rw (msb_bytes-view 4 v e b) refl,
    z,
  )
  set_entry_lem InputRegistersEntryIdentifier.p3_3_reading v r z h w e b = (
    record r { p3_3_reading = msb_value 0 (range v.storage v.start v.size) },
    rw (laws.from_bytes uint32 v w e b) refl,
    rw (msb_bytes-view 4 v e b) refl,
    z,
  )

  get_entry_lem :
      (id : InputRegistersEntryIdentifier) (v : View) (r : InputRegisters)
      → IsSized r
      → index_of id < 17
      → IsInside v
      → size_at (index_of id) ≤ v.size
      → get_entry c id v r
        ≡ ok (record v {
          storage = write_at v.storage v.start (get_or (contents r) (index_of id) []);
        })
  unfolding get_entry
  get_entry_lem InputRegistersEntryIdentifier.unknown v r z h w e = absurd (omega arith)
  get_entry_lem InputRegistersEntryIdentifier.version v r z h w e =
      copy_out_lem r.version v w (omega (arith, e, z.0))
  get_entry_lem InputRegistersEntryIdentifier.firmware_version v r z h w e =
      copy_out_lem r.firmware_version v w (omega (arith, e, z.1))
  get_entry_lem InputRegistersEntryIdentifier.compile_date v r z h w e =
      copy_out_lem r.compile_date v w (omega (arith, e, z.2))
  get_entry_lem InputRegistersEntryIdentifier.compile_time v r z h w e =
      copy_out_lem r.compile_time v w (omega (arith, e, z.3))
  get_entry_lem InputRegistersEntryIdentifier.serial_number v r z h w e =
      copy_out_lem r.serial_number v w (omega (arith, e, z.4))
  get_entry_lem InputRegistersEntryIdentifier.fault_status v r z h w e =
      rw (laws.to_bytes uint16 r.fault_status) (copy_out_lem (msb_bytes 2 r.fault_status []) v w e)
  get_entry_lem InputRegistersEntryIdentifier.p5_micro_volts v r z h w e =
      rw (laws.to_bytes int32 r.p5_micro_volts)
        (copy_out_lem (msb_bytes 4 r.p5_micro_volts []) v w e)
  get_entry_lem InputRegistersEntryIdentifier.p5_reading v r z h w e =
      rw (laws.to_bytes uint32 r.p5_reading) (copy_out_lem (msb_bytes 4 r.p5_reading []) v w e)
  get_entry_lem InputRegistersEntryIdentifier.p23_micro_volts v r z h w e =
      rw (laws.to_bytes int32 r.p23_micro_volts)
        (copy_out_lem (msb_bytes 4 r.p23_micro_volts []) v w e)
  get_entry_lem InputRegistersEntryIdentifier.p23_reading v r z h w e =
      rw (laws.to_bytes uint32 r.p23_reading) (copy_out_lem (msb_bytes 4 r.p23_reading []) v w e)
  get_entry_lem InputRegistersEntryIdentifier.vlo_micro_volts v r z h w e =
      rw (laws.to_bytes int32 r.vlo_micro_volts)
        (copy_out_lem (msb_bytes 4 r.vlo_micro_volts []) v w e)
  get_entry_lem InputRegistersEntryIdentifier.vlo_reading v r z h w e =
      rw (laws.to_bytes uint32 r.vlo_reading) (copy_out_lem (msb_bytes 4 r.vlo_reading []) v w e)
  get_entry_lem InputRegistersEntryIdentifier.thermistor_temp_spi v r z h w e =
      rw (laws.to_bytes int32 r.thermistor_temp_spi)
        (copy_out_lem (msb_bytes 4 r.thermistor_temp_spi []) v w e)
  get_entry_lem InputRegistersEntryIdentifier.thermistor_temp_mcu v r z h w e =
      rw (laws.to_bytes int32 r.thermistor_temp_mcu)
        (copy_out_lem (msb_bytes 4 r.thermistor_temp_mcu []) v w e)
  get_entry_lem InputRegistersEntryIdentifier.data_frequency v r z h w e =
      rw (laws.to_bytes uint32 r.data_frequency)
        (copy_out_lem (msb_bytes 4 r.data_frequency []) v w e)
  get_entry_lem InputRegistersEntryIdentifier.p3_3_micro_volts v r z h w e =
      rw (laws.to_bytes int32 r.p3_3_micro_volts)
        (copy_out_lem (msb_bytes 4 r.p3_3_micro_volts []) v w e)
  get_entry_lem InputRegistersEntryIdentifier.p3_3_reading v r z h w e =
      rw (laws.to_bytes uint32 r.p3_3_reading) (copy_out_lem (msb_bytes 4 r.p3_3_reading []) v w e)

  abbrev pub fields : Fields InputRegisters
  fields = record {
    set_field = set_field c;
    get_field = get_field c;
    contents = contents;
    IsSized = IsSized;
    count = 17;
    size_at = size_at;
  }

  pub fields-IsFields : IsFields fields
  unfolding set_field get_field
  fields-IsFields = record {
    length-contents = λ r. refl;
    set_lem = λ r i v z h w e b.
        let place : index_of (identifier_of i) ≡ i = index_of-identifier_of i h in
        subst
          (λ k.
            (r' : InputRegisters) × (set_entry c (identifier_of i) v r ≡ ok r')
            × (contents r' ≡ set (contents r) k (range v.storage v.start v.size))
            × IsSized r')
          place
          (set_entry_lem (identifier_of i) v r z (subst (λ k. k < 17) (sym place) h) w
            (subst (λ k. v.size ≡ size_at k) (sym place) e) b);
    get_lem = λ r i v z h w e.
        let place : index_of (identifier_of i) ≡ i = index_of-identifier_of i h in
        subst
          (λ k.
            get_entry c (identifier_of i) v r
            ≡ ok (record v { storage = write_at v.storage v.start (get_or (contents r) k []) }))
          place
          (get_entry_lem (identifier_of i) v r z (subst (λ k. k < 17) (sym place) h) w
            (subst (λ k. size_at k ≤ v.size) (sym place) e));
  }

  -- In registers whose arrays have their sizes, a write of the field at an index below 17 from a
  -- view of the field's size succeeds and keeps the sizes, and a read of the field at an index
  -- below 17 into a view of its size then gives the bytes that were written where the two indices
  -- are equal, and otherwise what it gave before the write. The views lie in memory, and the memory
  -- of the first holds bytes.
  pub set_input_field-get_field :
      (r : InputRegisters) (i : ℕ) (v : View) (j : ℕ) (u : View)
      → IsSized r
      → i < 17
      → IsInside v
      → v.size ≡ size_at i
      → All IsByte v.storage
      → j < 17
      → IsInside u
      → u.size ≡ size_at j
      → Accesses fields r i v j u
  set_input_field-get_field r i v j u z h w e b below inside fits =
      accesses_lem fields fields-IsFields r i v j u z h w e b below inside fits
