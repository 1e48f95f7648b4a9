-- ===== src/Maps/Holding/Fields.antt =====
-- examples/ConnectedDevice/common/HoldingRegisterMappedDataStore.h: the bytes of the fields, and the accesses to them.
use modbus_basic.Common.{
  ℕ, zero, suc, ◌≤◌, ◌<◌, ◌≡◌, refl, List, [], ◌∷◌, ok, get_or, set, range, write_at, All, IsByte,
  arith, subst, sym,
}
use modbus_basic.View.{View, IsInside}
use modbus_basic.Maps.{Conversion, IsConversion, msb_bytes, msb_value, uint16, uint32}
use modbus_basic.Maps.Bytes.{msb_bytes-view, copy_out_lem}
use modbus_basic.Maps.Access.{Fields, IsFields, Accesses, accesses_lem}
use modbus_basic.Maps.Holding.{
  HoldingRegisters, HoldingRegistersEntryIdentifier, entry_positions, identifier_of, set_entry,
  get_entry, set_field, get_field,
}

-- The bytes of each field, most significant first, and the sizes of the arrays.
abbrev pub contents : HoldingRegisters → List (List ℕ)
contents r =
    msb_bytes 4 r.analog_output0 []
    ∷ msb_bytes 4 r.analog_output1 []
    ∷ msb_bytes 4 r.isp_mode []
    ∷ msb_bytes 4 r.slave_address_unlock []
    ∷ msb_bytes 2 r.slave_address []
    ∷ msb_bytes 4 r.clear_faults []
    ∷ msb_bytes 4 r.start_data_read []
    ∷ []

abbrev pub IsSized : HoldingRegisters → Type 0
IsSized r = Unit

-- The size that a field has in `entry_positions_`.
abbrev pub size_at : ℕ → ℕ
size_at i = (get_or entry_positions i (HoldingRegistersEntryIdentifier.unknown, 0, 0)).2

abbrev pub index_of : HoldingRegistersEntryIdentifier → ℕ
index_of HoldingRegistersEntryIdentifier.analog_output0 = 0
index_of HoldingRegistersEntryIdentifier.analog_output1 = 1
index_of HoldingRegistersEntryIdentifier.isp_mode = 2
index_of HoldingRegistersEntryIdentifier.slave_address_unlock = 3
index_of HoldingRegistersEntryIdentifier.slave_address = 4
index_of HoldingRegistersEntryIdentifier.clear_faults = 5
index_of HoldingRegistersEntryIdentifier.start_data_read = 6
index_of HoldingRegistersEntryIdentifier.unknown = 7

pub index_of-identifier_of : (i : ℕ) → i < 7 → index_of (identifier_of i) ≡ i
unfolding identifier_of
index_of-identifier_of zero h = refl
index_of-identifier_of (suc zero) h = refl
index_of-identifier_of (suc (suc zero)) h = refl
index_of-identifier_of (suc (suc (suc zero))) h = refl
index_of-identifier_of (suc (suc (suc (suc zero)))) h = refl
index_of-identifier_of (suc (suc (suc (suc (suc zero))))) h = refl
index_of-identifier_of (suc (suc (suc (suc (suc (suc zero)))))) h = refl
index_of-identifier_of (suc (suc (suc (suc (suc (suc (suc i))))))) h = absurd (omega arith)

module _ (c : Conversion) (laws : IsConversion c) where
  set_entry_lem :
      (id : HoldingRegistersEntryIdentifier) (v : View) (r : HoldingRegisters)
      → IsSized r
      → index_of id < 7
      → IsInside v
      → v.size ≡ size_at (index_of id)
      → All IsByte v.storage
      → (r' : HoldingRegisters) × (set_entry c id v r ≡ ok r')
        × (contents r' ≡ set (contents r) (index_of id) (range v.storage v.start v.size))
        × IsSized r'
  unfolding set_entry
  set_entry_lem HoldingRegistersEntryIdentifier.unknown v r z h w e b = absurd (omega arith)
  set_entry_lem HoldingRegistersEntryIdentifier.analog_output0 v r z h w e b = (
    record r { analog_output0 = msb_value 0 (range v.storage v.start v.size) },
    rw (laws.from_bytes uint32 v w e b) refl,
    rw (msb_bytes-view 4 v e b) refl,
    tt,
  )
  set_entry_lem HoldingRegistersEntryIdentifier.analog_output1 v r z h w e b = (
    record r { analog_output1 = msb_value 0 (range v.storage v.start v.size) },
    rw (laws.from_bytes uint32 v w e b) refl,
    rw (msb_bytes-view 4 v e b) refl,
    tt,
  )
  set_entry_lem HoldingRegistersEntryIdentifier.isp_mode v r z h w e b = (
    record r { isp_mode = msb_value 0 (range v.storage v.start v.size) },
    rw (laws.from_bytes uint32 v w e b) refl,
    rw (msb_bytes-view 4 v e b) refl,
    tt,
  )
  set_entry_lem HoldingRegistersEntryIdentifier.slave_address_unlock v r z h w e b = (
    record r { slave_address_unlock = msb_value 0 (range v.storage v.start v.size) },
    rw (laws.from_bytes uint32 v w e b) refl,
    rw (msb_bytes-view 4 v e b) refl,
    tt,
  )
  set_entry_lem HoldingRegistersEntryIdentifier.slave_address v r z h w e b = (
    record r { slave_address = msb_value 0 (range v.storage v.start v.size) },
    rw (laws.from_bytes uint16 v w e b) refl,
    rw (msb_bytes-view 2 v e b) refl,
    tt,
  )
  set_entry_lem HoldingRegistersEntryIdentifier.clear_faults v r z h w e b = (
    record r { clear_faults = msb_value 0 (range v.storage v.start v.size) },
    rw (laws.from_bytes uint32 v w e b) refl,
    rw (msb_bytes-view 4 v e b) refl,
    tt,
  )
  set_entry_lem HoldingRegistersEntryIdentifier.start_data_read v r z h w e b = (
    record r { start_data_read = msb_value 0 (range v.storage v.start v.size) },
    rw (laws.from_bytes uint32 v w e b) refl,
    rw (msb_bytes-view 4 v e b) refl,
    tt,
  )

  get_entry_lem :
      (id : HoldingRegistersEntryIdentifier) (v : View) (r : HoldingRegisters)
      → IsSized r
      → index_of id < 7
      → IsInside v
      → size_at (index_of id) ≤ v.size
      → get_entry c id v r
        ≡ ok (record v {
          storage = write_at v.storage v.start (get_or (contents r) (index_of id) []);
        })
  unfolding get_entry
  get_entry_lem HoldingRegistersEntryIdentifier.unknown v r z h w e = absurd (omega arith)
  get_entry_lem HoldingRegistersEntryIdentifier.analog_output0 v r z h w e =
      rw (laws.to_bytes uint32 r.analog_output0)
        (copy_out_lem (msb_bytes 4 r.analog_output0 []) v w e)
  get_entry_lem HoldingRegistersEntryIdentifier.analog_output1 v r z h w e =
      rw (laws.to_bytes uint32 r.analog_output1)
        (copy_out_lem (msb_bytes 4 r.analog_output1 []) v w e)
  get_entry_lem HoldingRegistersEntryIdentifier.isp_mode v r z h w e =
      rw (laws.to_bytes uint32 r.isp_mode) (copy_out_lem (msb_bytes 4 r.isp_mode []) v w e)
  get_entry_lem HoldingRegistersEntryIdentifier.slave_address_unlock v r z h w e =
      rw (laws.to_bytes uint32 r.slave_address_unlock)
        (copy_out_lem (msb_bytes 4 r.slave_address_unlock []) v w e)
  get_entry_lem HoldingRegistersEntryIdentifier.slave_address v r z h w e =
      rw (laws.to_bytes uint16 r.slave_address)
        (copy_out_lem (msb_bytes 2 r.slave_address []) v w e)
  get_entry_lem HoldingRegistersEntryIdentifier.clear_faults v r z h w e =
      rw (laws.to_bytes uint32 r.clear_faults) (copy_out_lem (msb_bytes 4 r.clear_faults []) v w e)
  get_entry_lem HoldingRegistersEntryIdentifier.start_data_read v r z h w e =
      rw (laws.to_bytes uint32 r.start_data_read)
        (copy_out_lem (msb_bytes 4 r.start_data_read []) v w e)

  abbrev pub fields : Fields HoldingRegisters
  fields = record {
    set_field = set_field c;
    get_field = get_field c;
    contents = contents;
    IsSized = IsSized;
    count = 7;
    size_at = size_at;
  }

  pub fields-IsFields : IsFields fields
  unfolding set_field get_field
  fields-IsFields = record {
    length-contents = λ r. refl;
    set_lem = λ r i v z h w e b.
        let place : index_of (identifier_of i) ≡ i = index_of-identifier_of i h in
        subst
          (λ k.
            (r' : HoldingRegisters) × (set_entry c (identifier_of i) v r ≡ ok r')
            × (contents r' ≡ set (contents r) k (range v.storage v.start v.size))
            × IsSized r')
          place
          (set_entry_lem (identifier_of i) v r z (subst (λ k. k < 7) (sym place) h) w
            (subst (λ k. v.size ≡ size_at k) (sym place) e) b);
    get_lem = λ r i v z h w e.
        let place : index_of (identifier_of i) ≡ i = index_of-identifier_of i h in
        subst
          (λ k.
            get_entry c (identifier_of i) v r
            ≡ ok (record v { storage = write_at v.storage v.start (get_or (contents r) k []) }))
          place
          (get_entry_lem (identifier_of i) v r z (subst (λ k. k < 7) (sym place) h) w
            (subst (λ k. size_at k ≤ v.size) (sym place) e));
  }

  -- A write of the field at an index below 7 from a view of the field's size succeeds, and a read
  -- of the field at an index below 7 into a view of its size then gives the bytes that were written
  -- where the two indices are equal, and otherwise what it gave before the write. The views lie in
  -- memory, and the memory of the first holds bytes.
  pub set_holding_field-get_field :
      (r : HoldingRegisters) (i : ℕ) (v : View) (j : ℕ) (u : View)
      → IsSized r
      → i < 7
      → IsInside v
      → v.size ≡ size_at i
      → All IsByte v.storage
      → j < 7
      → IsInside u
      → u.size ≡ size_at j
      → Accesses fields r i v j u
  set_holding_field-get_field r i v j u z h w e b below inside fits =
      accesses_lem fields fields-IsFields r i v j u z h w e b below inside fits
