-- ===== src/TestMaster/Remote.antt =====
-- examples/ConnectedDevice/LibmodbusMaster/source/LibModbusTestMaster.cpp: what the blocks of `main` do with a
-- device that keeps the promise of a slave.
use modbus_basic.Common.{
  ℕ, ◌+◌, ◌*◌, ◌≤◌, ◌<◌, ◌≡◌, refl, true, false, List, [], ◌∷◌, ◌++◌, ok, length, range, write_at,
  encode_words, All, IsWord, arith, replicate, length-replicate, length-range, length-write_at,
  length-encode_words, encode_words-IsByte, write_at-IsByte, replicate-IsByte, range-write_at,
  ==_refl, assert-true, ℤ, pos, set, ◌==◌, ap, ◌∙◌,
}
use modbus_basic.External.{External, IsExternal}
use modbus_basic.View.{View, view_of}
use modbus_basic.Utilities.{make_registers_to_bytes_lem}
use modbus_basic.MappedStore.{
  MemoryController, set_field_from_address, get_memory_map_entry_index, get_matching_index,
  set_field,
}
use modbus_basic.Maps.Input.{InputRegisters}
use modbus_basic.Maps.{Conversion, IsConversion}
use modbus_basic.Maps.Input.Places.{input_map, input_offsets}
use modbus_basic.Maps.Input.Contents.{contents, IsSized, size_at}
use modbus_basic.Maps.Input.Fields.{fields-IsFields}
use modbus_basic.Exchange.{Registers}
use modbus_basic.TestMaster.{
  Libmodbus, Master, is_failure, read_input_field, read_print, write_field,
}

-- What the program relies on: a connected context reads and writes the registers of the device, within the
-- protocol's limits, and nothing else changes them.
pub record IsLibmodbus {C : Type 0} (m : Libmodbus C) : Type 1 where
  pub IsOnline : C → Type 0
  pub device : C → Registers
  pub connected : (c : C) → is_failure (m.connect c).0 ≡ false → IsOnline (m.connect c).1
  pub debugged :
      (c : C) (level : ℕ)
      → IsOnline c
      → IsOnline (m.set_debug c level) × (device (m.set_debug c level) ≡ device c)
  pub timed :
      (c : C) (sec usec : ℕ)
      → IsOnline c
      → IsOnline (m.set_response_timeout c sec usec)
        × (device (m.set_response_timeout c sec usec) ≡ device c)
  pub timed_byte :
      (c : C) (sec usec : ℕ)
      → IsOnline c
      → IsOnline (m.set_byte_timeout c sec usec)
        × (device (m.set_byte_timeout c sec usec) ≡ device c)
  pub input_read :
      (c : C) (address count : ℕ) (dest : List ℕ)
      → IsOnline c
      → 1 ≤ count
      → count ≤ 125
      → length dest ≡ count
      → address + count ≤ length (device c).input
      → (m.read_input_registers c address count dest).0 ≡ pos count
        × ((m.read_input_registers c address count dest).1 ≡ range (device c).input address count)
        × IsOnline (m.read_input_registers c address count dest).2
        × (device (m.read_input_registers c address count dest).2 ≡ device c)
  pub holding_read :
      (c : C) (address count : ℕ) (dest : List ℕ)
      → IsOnline c
      → 1 ≤ count
      → count ≤ 125
      → length dest ≡ count
      → address + count ≤ length (device c).holding
      → (m.read_registers c address count dest).0 ≡ pos count
        × ((m.read_registers c address count dest).1 ≡ range (device c).holding address count)
        × IsOnline (m.read_registers c address count dest).2
        × (device (m.read_registers c address count dest).2 ≡ device c)
  pub holding_written :
      (c : C) (address : ℕ) (values : List ℕ)
      → IsOnline c
      → 1 ≤ length values
      → length values ≤ 123
      → All IsWord values
      → address + length values ≤ length (device c).holding
      → IsOnline (m.write_registers c address (length values) values).1
        × (device (m.write_registers c address (length values) values).1
            ≡ record (device c) { holding = write_at (device c).holding address values })
  pub closed : (c : C) → IsOnline c → device (m.close c) ≡ device c

module _ {C : Type 0} (x : External) (laws : IsExternal x) (m : Libmodbus C) (ml : IsLibmodbus m)
    (c : MemoryController InputRegisters) where
  -- A write of a field within the device, which is then read back.
  pub write_field_lem :
      (address : ℕ) (values : List ℕ) (s : Master C) (r : Registers)
      → ml.IsOnline s.ctx
      → ml.device s.ctx ≡ r
      → 1 ≤ length values
      → length values ≤ 123
      → All IsWord values
      → address + length values ≤ length r.holding
      → (t : Master C) × (write_field x m c address values s ≡ ok t)
        × ml.IsOnline t.ctx
        × (ml.device t.ctx ≡ record r { holding = write_at r.holding address values })
        × (t.inregs ≡ s.inregs)
        × (t.printed ≡ s.printed ++ (values ∷ []))
  unfolding write_field read_print
  write_field_lem address values s r online same some few words fits =
      let n : ℕ = length values in
      let (on, changed) =
        ml.holding_written s.ctx address values online some few words (rw same fits) in
      let now : ml.device (m.write_registers s.ctx address n values).1
          ≡ record r { holding = write_at r.holding address values } =
        rw same at changed in
      let (rc, got, still, kept) =
        ml.holding_read (m.write_registers s.ctx address n values).1 address n (replicate n 0) on
          some (omega (arith, few)) (length-replicate n 0)
          (rw now (omega (arith, fits, length-write_at r.holding address values))) in
      let read : ℤ × List ℕ × C =
        m.read_registers (m.write_registers s.ctx address n values).1 address n (replicate n 0) in
      let back : read.1 ≡ values = got ∙ rw now (range-write_at r.holding address values fits) in
      (
        record s { ctx = read.2; printed = s.printed ++ (read.1 ∷ []) },
        rw (rc, ==_refl n, assert-true) refl,
        still,
        kept ∙ now,
        refl,
        ap (λ v. s.printed ++ (v ∷ [])) back,
      )

module _ {C : Type 0} (x : External) (laws : IsExternal x) (m : Libmodbus C) (ml : IsLibmodbus m)
    (conversion : Conversion) (cl : IsConversion conversion) where
  -- A read of the registers of a field into the map.
  pub read_input_field_lem :
      (i address count : ℕ) (s : Master C) (r : Registers)
      → ml.IsOnline s.ctx
      → ml.device s.ctx ≡ r
      → 1 ≤ count
      → count ≤ 125
      → address + count ≤ length r.input
      → i < 17
      → size_at i ≡ 2 * count
      → get_matching_index address input_offsets ≡ i
      → IsSized s.inregs.memory_controller
      → (t : Master C) × (read_input_field x m (input_map conversion) address count s ≡ ok t)
        × ml.IsOnline t.ctx
        × (ml.device t.ctx ≡ r)
        × (t.printed ≡ s.printed)
        × IsSized t.inregs.memory_controller
        × (contents t.inregs.memory_controller
            ≡ set
                (contents s.inregs.memory_controller)
                i
                (encode_words (range r.input address count)))
  unfolding read_input_field set_field_from_address set_field get_memory_map_entry_index
  read_input_field_lem i address count s r online same some few fits below sized place h =
      let (rc, got, still, kept) =
        ml.input_read s.ctx address count (replicate count 0) online some few
          (length-replicate count 0) (rw same fits) in
      let words : List ℕ = range r.input address count in
      let zeros : List ℕ = replicate (count * 2) 0 in
      let out : View = record (view_of zeros) { storage = write_at zeros 0 (encode_words words) } in
      let whole : length zeros ≡ length (encode_words words) = omega (
        arith,
        length-replicate {A = ℕ} (count * 2) 0,
        length-encode_words words,
        length-range r.input address count,
      ) in
      let bytes : range out.storage 0 (length zeros) ≡ encode_words words =
        ap (range out.storage 0) whole
        ∙ range-write_at zeros 0 (encode_words words) (omega (arith, whole)) in
      let (r', stored, held, sized') =
        (fields-IsFields conversion cl).set_lem s.inregs.memory_controller i out h below
          (omega (arith, length-write_at zeros 0 (encode_words words)))
          (omega (arith, length-replicate {A = ℕ} (count * 2) 0, sized))
          (write_at-IsByte zeros 0 (encode_words words)
            (replicate-IsByte (count * 2) 0 (omega arith)) (encode_words-IsByte words)) in
      let found : (i == 17) ≡ false = ground (arith, below) in
      (
        record s {
          ctx = (m.read_input_registers s.ctx address count (replicate count 0)).2;
          inregs = record { new_data = true; memory_controller = r' };
        },
        rw
            (
              got,
              same,
              make_registers_to_bytes_lem x laws words (view_of zeros) (omega arith) (
                  omega (
                    arith,
                    length-replicate {A = ℕ} (count * 2) 0,
                    length-range r.input address count,
                  )),
              place,
              found,
              stored,
            )
            refl,
        still,
        kept ∙ same,
        refl,
        sized',
        held ∙ ap (set (contents s.inregs.memory_controller) i) bytes,
      )
