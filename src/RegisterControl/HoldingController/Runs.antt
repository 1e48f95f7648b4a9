-- ===== src/RegisterControl/HoldingController/Runs.antt =====
-- include/Modbus/RegisterControl.h: what the handlers of the holding registers do on an
-- UpdatingRegisterDataStore, to the registers, the flags and the response.
use modbus_basic.Common.{
  max, ℕ, ◌+◌, ◌*◌, ◌/◌, ◌%◌, ◌-◌, ◌≤◌, ◌<◌, ◌≡◌, List, [], ◌∷◌, true, ok, arith, length, get_or,
  set, IsByte, All, write_at, words_at, pos, mul_size,
}
use native.Mathlib.Nat.{add-zero}
use modbus_basic.External.{External, IsExternal}
use modbus_basic.View.{View, IsInside}
use modbus_basic.View.Laws.{read_uint16_lem, store_lem, sub_view_lem, set_all}
use modbus_basic.Modbus.Frame.{Frame}
use modbus_basic.Modbus.Response.{Response}
use modbus_basic.Modbus.Response.Laws.{IsFull, assign_lem}
use modbus_basic.DataCommand.{read_address_start}
use modbus_basic.DataStores.Registers.Access.{set_register_lem, set_registers_lem}
use modbus_basic.DataStores.Updating.{
  UpdatingRegisterDataStore, updating_store, set_register_callback, set_registers_callback,
}
use modbus_basic.DataStores.Updating.Flags.{flag_run, flag_from_lem}
use modbus_basic.RegisterControl.WriteSingle
use modbus_basic.RegisterControl.WriteMultiple
use modbus_basic.RegisterControl.HoldingController.{run_write_single, run_write_multiple}

-- The 16-bit number at a place of a payload, high byte first.
abbrev pub word : View → ℕ → ℕ
word v i = get_or v.storage (v.start + i) 0 * 256 + get_or v.storage (v.start + i + 1) 0

-- A store of as many flags as registers, all of them within the reach of 16-bit addresses.
pub record IsStore (s : UpdatingRegisterDataStore) : Type 0 where
  pub reach : length s.base.registers ≤ 65536
  pub flagged : length s.flags ≡ length s.base.registers

-- A payload of `n` bytes in memory.
pub record IsPayload (n : ℕ) (v : View) : Type 0 where
  pub inside : IsInside v
  pub room : n ≤ v.size
  pub bytes : All IsByte v.storage

module _ (x : External) (laws : IsExternal x) (s : UpdatingRegisterDataStore) (i : IsStore s)
    (frame : Frame) where
  abbrev v : View
  v = frame.data_array

  address_lem : IsPayload 4 v → read_address_start x v ≡ ok (word v 0)
  unfolding read_address_start
  address_lem p = read_uint16_lem x laws v 0 p.inside (omega arith) p.bytes

  -- A single write to a register of the store stores the setting and sets the register's flag,
  -- returns 0, and leaves in the response the address, the function, the register's address and the
  -- setting, as its first 6 bytes. The store has a flag for each register and at most 65536
  -- registers, the response its 256 entries, and the payload lies in memory with at least 4 bytes.
  pub run_write_single_lem :
      (response : Response)
      → IsPayload 4 v
      → IsFull response
      → word v 0 < length s.base.registers
      → run_write_single x (updating_store x) s frame response
        ≡ ok (
          pos 0,
          record {
            base = record { registers = set s.base.registers (word v 0) (word v 2) };
            flags = set s.flags (word v 0) true;
          },
          record response {
            length_ = 6;
            data_ = set_all response.data_ (
                (0, frame.address)
                ∷ (1, 6)
                ∷ (2, word v 0 / 256 % 256)
                ∷ (3, word v 0 % 256)
                ∷ (4, word v 2 / 256 % 256)
                ∷ (5, word v 2 % 256)
                ∷ []);
          },
        )
  unfolding run_write_single WriteSingle.read_setting WriteSingle.fill_response_header
      set_register_callback
  run_write_single_lem response p full h = rw (
    address_lem p,
    read_uint16_lem x laws v 2 p.inside (omega arith) p.bytes,
    set_register_lem s.base (word v 0) (word v 2) h (omega arith),
    same,
    store_lem {0} s.flags (word v 0) true (omega arith),
    assign_lem x response ws full (omega arith),
    laws.high_byte (word v 0),
    laws.low_byte (word v 0),
    laws.high_byte (word v 2),
    laws.low_byte (word v 2),
  )
    where
      ws : List (ℕ × ℕ)
      ws =
          (0, frame.address)
          ∷ (1, 6)
          ∷ (2, x.get_byte (word v 0) 1)
          ∷ (3, x.get_byte (word v 0) 0)
          ∷ (4, x.get_byte (word v 2) 1)
          ∷ (5, x.get_byte (word v 2) 0)
          ∷ []

      same : word v 0 % 65536 - 0 ≡ word v 0
      same = omega arith

  -- A multiple write, from a register of the store on and all in it, stores the words of the
  -- payload from the address on and sets their flags, returns 0, and leaves in the response the
  -- address, the function, the first register's address and the count, as its first 6 bytes. The
  -- store has a flag for each register and at most 65536 registers, the response its 256 entries,
  -- and the payload lies in memory with all the words and at least 6 bytes.
  pub run_write_multiple_lem :
      (response : Response)
      → IsPayload (5 + max 1 (2 * word v 2)) v
      → IsFull response
      → word v 0 < length s.base.registers
      → word v 0 + word v 2 ≤ length s.base.registers
      → run_write_multiple x (updating_store x) s frame response
        ≡ ok (
          pos 0,
          record {
            base = record {
              registers =
                  write_at s.base.registers
                    (word v 0)
                    (words_at v.storage (v.start + 5) (word v 2));
            };
            flags = flag_run s.flags (word v 0) (word v 2);
          },
          record response {
            length_ = 6;
            data_ = set_all response.data_ (
                (0, frame.address)
                ∷ (1, 16)
                ∷ (2, word v 0 / 256 % 256)
                ∷ (3, word v 0 % 256)
                ∷ (4, word v 2 / 256 % 256)
                ∷ (5, word v 2 % 256)
                ∷ []);
          },
        )
  unfolding run_write_multiple WriteMultiple.read_register_count WriteMultiple.fill_response_header
      set_registers_callback
  run_write_multiple_lem response p full begins h = rw (
    address_lem (record { inside = p.inside; room = omega arith; bytes = p.bytes }),
    read_uint16_lem x laws v 2 p.inside (omega arith) p.bytes,
    assign_lem x response ws full (omega arith),
    sub_view_lem x laws v 5 (mul_size (word v 2) 2) (omega arith),
    bytes,
    set_registers_lem x laws s.base (word v 0) (word v 2) data_view h (omega arith) (omega arith)
        (omega arith) p.bytes,
    flag_from_lem s.flags (record { registers = stored }) (word v 0) 0 (word v 2) (omega arith)
        (omega arith),
    add-zero (word v 0),
    laws.high_byte (word v 0),
    laws.low_byte (word v 0),
    laws.high_byte (word v 2),
    laws.low_byte (word v 2),
  )
    where
      ws : List (ℕ × ℕ)
      ws =
          (0, frame.address)
          ∷ (1, 16)
          ∷ (2, x.get_byte (word v 0) 1)
          ∷ (3, x.get_byte (word v 0) 0)
          ∷ (4, x.get_byte (word v 2) 1)
          ∷ (5, x.get_byte (word v 2) 0)
          ∷ []

      bytes : mul_size (word v 2) 2 ≡ 2 * word v 2
      bytes = omega arith

      stored : List ℕ
      stored = write_at s.base.registers (word v 0) (words_at v.storage (v.start + 5) (word v 2))

      data_view : View
      data_view = record { storage = v.storage; start = v.start + 5; size = 2 * word v 2 }
