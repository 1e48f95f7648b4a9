-- ===== src/ConnectedDevice/Settings.antt =====
-- examples/ConnectedDevice/LinuxSlave/source/LinuxSlave.h: what the holding controller makes of a request to
-- read a field of the holding map.
pub mod Sessions
use modbus_basic.Common.{
  ℕ, zero, suc, ◌%◌, ◌+◌, ◌*◌, ◌/◌, ◌≤◌, ◌<◌, ◌≡◌, refl, List, [], ◌∷◌, true, false, Result, ok,
  ◌>>=◌, ◌>>◌, length, get_or, get_or-IsWord, write_at, IsByte, All, arith, ==_refl, ◌==◌, ap, ◌∙◌,
  pos, length-write_at, write_at-IsByte,
}
use modbus_basic.External.{External, IsExternal}
use modbus_basic.View.{View}
use modbus_basic.View.Laws.{set_all, length-set_all, set_all-IsByte, read_uint16_lem}
use modbus_basic.Modbus.Function.{
  ack, read_multiple_holding_registers, get_address_space_from_function,
}
use modbus_basic.Modbus.Frame.{Frame}
use modbus_basic.Modbus.Response.{Response, new_response}
use modbus_basic.DataStores.{DataStore, CallbackStore}
use modbus_basic.DataCommand.{read_address_start}
use modbus_basic.RegisterControl.ReadMultiple
use modbus_basic.RegisterControl.HoldingController
use modbus_basic.RegisterControl.HoldingController.{validate_read_multiple, run_read_multiple}
use modbus_basic.RegisterControl.HoldingController.Runs.{word, IsPayload}
use modbus_basic.RegisterControl.HoldingController.Reads.{read_header, run_read_multiple-answered}
use modbus_basic.MappedStore.{
  MappedRegisterDataStore, mapped_store, write_location_valid, get_registers,
}
use modbus_basic.Maps.{Conversion, IsConversion, msb_bytes}
use modbus_basic.Maps.Places.{map_of, get_registers-place, place-valid}
use modbus_basic.Maps.Holding.{HoldingRegisters}
use modbus_basic.Maps.Holding.Fields.{contents, size_at, fields, fields-IsFields}
use modbus_basic.Maps.Holding.Places.{
  holding_offsets, holding_ends, holding_places, fields-IsPlaced,
}
use modbus_basic.ModbusRtu.Protocol.{frame_crc_is_valid}
use modbus_basic.ModbusRtu.Protocol.Reply.{IsFramed, frame_response-IsFramed}
use modbus_basic.ModbusRtu.ReadContext
use modbus_basic.ModbusRtu.Slave.{
  Slave, receive, process_message, validate_message, validate_in_space, run_command, run_in_space,
  answer,
}
use modbus_basic.ModbusRtu.Slave.Replies.{zeros, zeros-IsByte, length-zeros, reframe}
use modbus_basic.Exchange.{Request, IsRequest, read_holding, packet_of}
use modbus_basic.Exchange.Arrival.{IsWindow, arrived, two_words, arrived-IsPayload}
use modbus_basic.ConnectedDevice.Sessions.{asked, replied, received_by, session_lem, arrived-valid}

-- The mapped store over the device's holding map.
abbrev pub HoldingStore : Type 0
HoldingStore = MappedRegisterDataStore HoldingRegisters

-- The bytes of one of its fields.
abbrev pub field_of : HoldingStore → ℕ → List ℕ
field_of s i = get_or (contents s.memory_controller) i []

-- A holding store that keeps the holding map, whatever it does when it is told of a write.
abbrev pub with_callbacks :
    (x : External) (c : Conversion) (laws : IsConversion c)
    → (HoldingStore → ℕ → ℕ → Result HoldingStore)
    → (HoldingStore → ℕ → ℕ → View → Result HoldingStore)
    → CallbackStore HoldingStore
with_callbacks x c laws one several = record {
  store = mapped_store x (map_of (fields c laws) holding_offsets holding_ends);
  set_register_callback = one;
  set_registers_callback = several;
}

msb_bytes-IsByte : (w n : ℕ) (rest : List ℕ) → All IsByte rest → All IsByte (msb_bytes w n rest)
msb_bytes-IsByte zero n rest h = h
msb_bytes-IsByte (suc w) n rest h = msb_bytes-IsByte w (n / 256) (n % 256 ∷ rest) (omega arith, h)

-- The bytes of a field are as many as its size, and they are bytes.
pub field-IsField :
    (r : HoldingRegisters) (i : ℕ)
    → (length (get_or (contents r) i []) ≡ size_at i) × All IsByte (get_or (contents r) i [])
field-IsField r zero = (refl, msb_bytes-IsByte 4 r.analog_output0 [] tt)
field-IsField r (suc zero) = (refl, msb_bytes-IsByte 4 r.analog_output1 [] tt)
field-IsField r (suc (suc zero)) = (refl, msb_bytes-IsByte 4 r.isp_mode [] tt)
field-IsField r (suc (suc (suc zero))) = (refl, msb_bytes-IsByte 4 r.slave_address_unlock [] tt)
field-IsField r (suc (suc (suc (suc zero)))) = (refl, msb_bytes-IsByte 2 r.slave_address [] tt)
field-IsField r (suc (suc (suc (suc (suc zero))))) = (refl, msb_bytes-IsByte 4 r.clear_faults [] tt)
field-IsField r (suc (suc (suc (suc (suc (suc zero)))))) =
    (refl, msb_bytes-IsByte 4 r.start_data_read [] tt)
field-IsField r (suc (suc (suc (suc (suc (suc (suc i))))))) = (refl, tt)

module _ (x : External) (laws : IsExternal x) (c : Conversion) (cl : IsConversion c)
    (one : HoldingStore → ℕ → ℕ → Result HoldingStore)
    (several : HoldingStore → ℕ → ℕ → View → Result HoldingStore) where
  abbrev holding_store : CallbackStore (HoldingStore)
  holding_store = with_callbacks x c cl one several

  -- What the controller makes of a request for a field.
  pub run_read_multiple-field :
      (i : ℕ) (s : HoldingStore) (frame : Frame)
      → i < 7
      → IsPayload 4 frame.data_array
      → word frame.data_array 0 ≡ get_or holding_offsets i 0
      → word frame.data_array 2 ≡ size_at i / 2
      → (validate_read_multiple x holding_store s frame.data_array ≡ ok ack)
        × (run_read_multiple x holding_store s frame new_response
            ≡ ok (
              pos 0,
              s,
              record new_response {
                length_ = 3 + 2 * word frame.data_array 2;
                data_ = write_at (read_header frame new_response) 3 (field_of s i);
              },
            ))
  unfolding validate_read_multiple read_address_start ReadMultiple.read_register_count
  run_read_multiple-field i s frame below p address count =
      let v : View = frame.data_array in
      let (index, begins, ends, double, some, few) = holding_places i below in
      let valid =
        place-valid (fields c cl) holding_offsets holding_ends x (fields-IsPlaced c cl) s i below in
      let sized = (field-IsField s.memory_controller i).0 in
      (
        rw
            (
              read_uint16_lem x laws v 0 p.inside (omega (arith, p.room)) p.bytes,
              read_uint16_lem x laws v 2 p.inside (omega (arith, p.room)) p.bytes,
              address,
              count,
              valid,
            )
            refl,
        run_read_multiple-answered x laws holding_store s frame new_response (field_of s i) p refl
            (omega (arith, count, few)) (rw (address, count) valid)
            (rw (address, count)
              (get_registers-place (fields c cl) holding_offsets holding_ends x
                  (fields-IsPlaced c cl) s i below _
                ∙ (fields-IsFields c cl).get_lem s.memory_controller i
                    (record {
                      storage =
                          set_all zeros
                            ((0, frame.address) ∷ (1, 3) ∷ (2, 2 * (size_at i / 2)) ∷ []);
                      start = 3;
                      size = 2 * (size_at i / 2);
                    })
                    tt below
                    (omega (
                      arith,
                      few,
                      length-set_all zeros
                          ((0, frame.address) ∷ (1, 3) ∷ (2, 2 * (size_at i / 2)) ∷ []),
                      length-zeros,
                    ))
                    (omega (arith, double)))),
      )
