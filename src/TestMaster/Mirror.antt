-- ===== src/TestMaster/Mirror.antt =====
-- examples/ConnectedDevice/LibmodbusMaster/source/LibModbusTestMaster.cpp: `main` as a whole.
use modbus_basic.Common.{
  ℕ, suc, ◌+◌, ◌*◌, ◌≤◌, ◌<◌, ◌≡◌, refl, false, List, [], ◌∷◌, ◌++◌, ok, length, range, write_at,
  encode_words, All, IsWord, arith, length-write_at, pos, set, append_assoc, append-nil, ap, ◌∙◌,
  sym,
}
use modbus_basic.External.{External, IsExternal}
use modbus_basic.MappedStore.{get_matching_index}
use modbus_basic.Maps.{Conversion, IsConversion}
use modbus_basic.Maps.Input
use modbus_basic.Maps.Input.{InputRegisters, InputRegistersEntryIdentifier, entry_positions}
use modbus_basic.Maps.Input.Places.{input_map, input_offsets}
use modbus_basic.Maps.Input.Contents.{contents, IsSized, size_at}
use modbus_basic.Exchange.{Registers}
use modbus_basic.TestMaster.{
  Libmodbus, Master, is_failure, read_input_fields, write_fields, main, connect_rtu, text_fields,
  voltage_fields, reading_fields, written_fields,
}
use modbus_basic.TestMaster.Remote.{IsLibmodbus, read_input_field_lem, write_field_lem}

-- The bytes of the device's registers, field by field.
abbrev pub bytes_of_fields : Registers → List (ℕ × ℕ) → List (List ℕ)
bytes_of_fields r [] = []
bytes_of_fields r ((address, count) ∷ fields) =
    encode_words (range r.input address count) ∷ bytes_of_fields r fields

abbrev stored : Registers → ℕ → List (ℕ × ℕ) → List (List ℕ) → List (List ℕ)
stored r i [] c = c
stored r i ((address, count) ∷ fields) c =
    stored r (suc i) fields (set c i (encode_words (range r.input address count)))

-- The fields, from the one at `i` on, are fields of the map and of the device.
abbrev InPlace : Registers → ℕ → List (ℕ × ℕ) → Type 0
InPlace r i [] = Unit
InPlace r i ((address, count) ∷ fields) =
    ((1 ≤ count)
      × (count ≤ 125)
      × (address + count ≤ length r.input)
      × (i < 17)
      × (size_at i ≡ 2 * count)
      × (get_matching_index address input_offsets ≡ i))
    × InPlace r (suc i) fields

-- Registers with the given values in them, and the values.
abbrev pub overwritten : List (ℕ × List ℕ) → List ℕ → List ℕ
overwritten [] holding = holding
overwritten ((address, values) ∷ fields) holding =
    overwritten fields (write_at holding address values)

abbrev pub values_of : List (ℕ × List ℕ) → List (List ℕ)
values_of [] = []
values_of ((address, values) ∷ fields) = values ∷ values_of fields

abbrev Fits : ℕ → List (ℕ × List ℕ) → Type 0
Fits n [] = Unit
Fits n ((address, values) ∷ fields) =
    ((1 ≤ length values)
      × (length values ≤ 123)
      × All IsWord values
      × (address + length values ≤ n))
    × Fits n fields

module _ {C : Type 0} (x : External) (laws : IsExternal x) (m : Libmodbus C) (ml : IsLibmodbus m)
    (conversion : Conversion) (cl : IsConversion conversion) where
  read_input_fields_lem :
      (i : ℕ) (fields : List (ℕ × ℕ)) (s : Master C) (r : Registers)
      → ml.IsOnline s.ctx
      → ml.device s.ctx ≡ r
      → InPlace r i fields
      → IsSized s.inregs.memory_controller
      → (t : Master C) × (read_input_fields x m (input_map conversion) fields s ≡ ok t)
        × ml.IsOnline t.ctx
        × (ml.device t.ctx ≡ r)
        × (t.printed ≡ s.printed)
        × IsSized t.inregs.memory_controller
        × (contents t.inregs.memory_controller
            ≡ stored r i fields (contents s.inregs.memory_controller))
  unfolding read_input_fields
  read_input_fields_lem i [] s r online same places sized =
      (s, refl, online, same, refl, sized, refl)
  read_input_fields_lem i ((address, count) ∷ fields) s r online same places sized =
      let ((some, few, fits, below, room, place), others) = places in
      let (u, read, on, kept, quiet, sized', held) =
        read_input_field_lem x laws m ml conversion cl i address count s r online same some few fits
          below room place sized in
      let (t, rest, on', kept', quiet', sized'', held') =
        read_input_fields_lem (suc i) fields u r on kept others sized' in
      (
        t,
        rw read rest,
        on',
        kept',
        quiet' ∙ quiet,
        sized'',
        held' ∙ ap (stored r (suc i) fields) held,
      )

  write_fields_lem :
      (fields : List (ℕ × List ℕ)) (s : Master C) (r : Registers)
      → ml.IsOnline s.ctx
      → ml.device s.ctx ≡ r
      → Fits (length r.holding) fields
      → (t : Master C) × (write_fields x m (input_map conversion) fields s ≡ ok t)
        × ml.IsOnline t.ctx
        × (ml.device t.ctx ≡ record r { holding = overwritten fields r.holding })
        × (t.inregs ≡ s.inregs)
        × (t.printed ≡ s.printed ++ values_of fields)
  unfolding write_fields
  write_fields_lem [] s r online same fits =
      (s, refl, online, same, refl, sym (append-nil s.printed))
  write_fields_lem ((address, values) ∷ fields) s r online same fits =
      let ((some, few, words, room), others) = fits in
      let (u, wrote, on, changed, kept, printed) =
        write_field_lem x laws m ml (input_map conversion) address values s r online same some few
          words room in
      let (t, rest, on', changed', kept', printed') =
        write_fields_lem fields u (record r { holding = write_at r.holding address values }) on
          changed (rw (length-write_at r.holding address values) others) in
      (
        t,
        rw wrote rest,
        on',
        changed',
        kept' ∙ kept,
        printed'
            ∙ ap (λ p. p ++ values_of fields) printed
            ∙ append_assoc s.printed (values ∷ []) (values_of fields),
      )

  in_place :
      (r : Registers)
      → 172 ≤ length r.input
      → InPlace r 0 text_fields × InPlace r 5 voltage_fields × InPlace r 12 reading_fields
  unfolding get_matching_index
  in_place r h = (ground (arith, h), ground (arith, h), ground (arith, h))

  written_fields-Fits : (n : ℕ) → 14 ≤ n → Fits n written_fields
  written_fields-Fits n h = ground (arith, h)

  -- If libmodbus answers the connection without an error, and keeps its laws over a device of at
  -- least 172 input and 14 holding registers, the test program ends with exit status 0 and without
  -- a fault. The fields of its input map are then the bytes of the device's input registers, field
  -- by field and high byte first, each of the values that it wrote was read back and printed, in
  -- their order, and in the device the holding registers have been overwritten with them and the
  -- input registers are as before.
  pub main_lem :
      (dev_name : List ℕ) (slave_address : ℕ) (r : Registers)
      → is_failure (m.connect (m.set_slave (connect_rtu m dev_name) slave_address)).0 ≡ false
      → ml.device (m.connect (m.set_slave (connect_rtu m dev_name) slave_address)).1 ≡ r
      → 172 ≤ length r.input
      → 14 ≤ length r.holding
      → (t : Master C) × (main x m (input_map conversion) dev_name slave_address ≡ ok (pos 0, t))
        × (contents t.inregs.memory_controller
            ≡ bytes_of_fields r (text_fields ++ voltage_fields ++ reading_fields))
        × (t.printed ≡ values_of written_fields)
        × (ml.device t.ctx ≡ record r { holding = overwritten written_fields r.holding })
  unfolding main
  main_lem dev_name slave_address r success same many_in many =
      let c0 : C = m.set_slave (connect_rtu m dev_name) slave_address in
      let (on1, kept1) = ml.debugged (m.connect c0).1 slave_address (ml.connected c0 success) in
      let (on2, kept2) = ml.timed (m.set_debug (m.connect c0).1 slave_address) 1 0 on1 in
      let (on3, kept3) =
        ml.timed_byte (m.set_response_timeout (m.set_debug (m.connect c0).1 slave_address) 1 0) 1 0
          on2 in
      let (places0, places1, places2) = in_place r many_in in
      let start : Master C = record {
        ctx =
            m.set_byte_timeout
              (m.set_response_timeout (m.set_debug (m.connect c0).1 slave_address) 1 0) 1 0;
        inregs = record { new_data = false; memory_controller = Input.new_registers };
        printed = [];
      } in
      let (s1, run1, o1, d1, p1, z1, held1) =
        read_input_fields_lem 0 text_fields start r on3 (kept3 ∙ kept2 ∙ kept1 ∙ same) places0
          (refl, refl, refl, refl, refl) in
      let (s2, run2, o2, d2, p2, z2, held2) =
        read_input_fields_lem 5 voltage_fields s1 r o1 d1 places1 z1 in
      let (s3, run3, o3, d3, p3, z3, held3) =
        read_input_fields_lem 12 reading_fields s2 r o2 d2 places2 z2 in
      let (s4, run4, o4, d4, k4, p4) =
        write_fields_lem written_fields s3 r o3 d3 (written_fields-Fits (length r.holding) many) in
      (
        record s4 { ctx = m.close s4.ctx },
        rw (success, run1, run2, run3, run4) refl,
        ap (λ i. contents i.memory_controller) k4
            ∙ held3
            ∙ ap (stored r 12 reading_fields) (held2 ∙ ap (stored r 5 voltage_fields) held1),
        p4 ∙ ap (λ p. p ++ values_of written_fields) (p3 ∙ p2 ∙ p1),
        ml.closed s4.ctx o4 ∙ d4,
      )
