-- ===== src/DataStores/Registers/Access.antt =====
-- include/Modbus/DataStores/RegisterDataStore.h: what reading and writing registers through byte
-- views does.
use modbus_basic.Common.{
  ℕ, zero, suc, ◌+◌, ◌-◌, ◌*◌, ◌/◌, ◌%◌, ◌≤◌, ◌<◌, ◌≡◌, refl, ok, arith, List, length, get_or, set,
  range, write_at, encode_words, words_at, length-set, IsByte, All, lt→ltb, assert-true, add_size,
  mul_size,
}
use modbus_basic.External.{External, IsExternal}
use modbus_basic.View.{View, IsInside}
use modbus_basic.View.Laws.{load_lem, store_lem, put_word_lem, read_uint16_lem}
use modbus_basic.DataStores.Registers.{
  RegisterDataStore, get_register, set_register, get_from, get_registers, set_from, set_registers,
}

pub set_register_lem :
    (s : RegisterDataStore) (address value : ℕ)
    → address < length s.registers
    → address < 65536
    → set_register s address value ≡ ok (record { registers = set s.registers address value })
unfolding set_register
set_register_lem s address value h w =
    let same : address % 65536 - 0 ≡ address = omega arith in
    rw (same, store_lem {0} s.registers address value h)

module _ (x : External) (laws : IsExternal x) where
  pub get_register_lem :
      (s : RegisterDataStore) (address : ℕ)
      → address < length s.registers
      → address < 65536
      → get_register x s address ≡ ok (get_or s.registers address 0)
  unfolding get_register
  get_register_lem s address h w =
      let same : address % 65536 - 0 ≡ address = omega arith in
      rw (same, lt→ltb address (length s.registers) h, assert-true, load_lem s.registers address h)

  get_from_lem :
      (s : RegisterDataStore) (a b : ℕ) (v : View) (n : ℕ)
      → a + n ≤ length s.registers
      → a + n ≤ 65536
      → b + 2 * n ≤ v.size
      → IsInside v
      → get_from x s a b v n
        ≡ ok (record v {
          storage = write_at v.storage (v.start + b) (encode_words (range s.registers a n));
        })
  unfolding get_from
  get_from_lem s a b v zero h w fits inside = refl
  get_from_lem s a b v (suc n) h w fits inside = rw (
    get_register_lem s a (omega arith) (omega arith),
    put_word_lem x laws v b word inside (omega arith),
    next,
    get_from_lem s (suc a) (b + 2) filled n (omega arith) (omega arith) (omega arith)
        (omega (arith, lengths)),
    place,
  )
    where
      word : ℕ
      word = get_or s.registers a 0

      first : List ℕ
      first = set v.storage (v.start + b) (word / 256 % 256)

      filled : View
      filled = record v { storage = set first (suc (v.start + b)) (word % 256) }

      lengths : (length first ≡ length v.storage) × (length filled.storage ≡ length first)
      lengths = omega (
        arith,
        length-set {0} v.storage (v.start + b) (word / 256 % 256),
        length-set {0} first (suc (v.start + b)) (word % 256),
      )

      next : add_size a 1 ≡ suc a
      next = omega arith

      place : v.start + (b + 2) ≡ suc (suc (v.start + b))
      place = omega arith

  -- `GetRegisters` on `n` registers of the store within 16-bit addresses writes their bytes, high
  -- byte first, over the first 2 n bytes of the view, and changes no other byte. The view lies in
  -- memory and has room.
  pub get_registers_lem :
      (s : RegisterDataStore) (address n : ℕ) (v : View)
      → address + n ≤ length s.registers
      → address + n ≤ 65536
      → 2 * n ≤ v.size
      → IsInside v
      → get_registers x s address n v
        ≡ ok (record v {
          storage = write_at v.storage v.start (encode_words (range s.registers address n));
        })
  unfolding get_registers
  get_registers_lem s address n v h w fits inside =
      let rounds : mul_size n 2 / 2 ≡ n = omega arith in
      let start : v.start + 0 ≡ v.start = omega arith in
      rw (rounds, get_from_lem s address 0 v n h w (omega arith) inside, start)

  set_from_lem :
      (s : RegisterDataStore) (address i : ℕ) (v : View) (n : ℕ)
      → address + i + n ≤ length s.registers
      → address + i + n ≤ 65536
      → 2 * (i + n) ≤ v.size
      → IsInside v
      → All IsByte v.storage
      → set_from x s address i v n
        ≡ ok (record {
          registers = write_at s.registers (address + i) (words_at v.storage (v.start + 2 * i) n);
        })
  unfolding set_from
  set_from_lem s address i v zero h w fits inside bytes = refl
  set_from_lem s address i v (suc n) h w fits inside bytes = rw (
    from,
    read_uint16_lem x laws v (2 * i) inside (omega arith) bytes,
    to,
    low,
    set_register_lem s (address + i) word (omega arith) (omega arith),
    set_from_lem written address (i + 1) v n
        (omega (arith, length-set {0} s.registers (address + i) word)) (omega arith) (omega arith)
        inside bytes,
    next,
    step,
  )
    where
      word : ℕ
      word = get_or v.storage (v.start + 2 * i) 0 * 256 + get_or v.storage (suc (v.start + 2 * i)) 0

      written : RegisterDataStore
      written = record { registers = set s.registers (address + i) word }

      from : mul_size i 2 ≡ 2 * i
      from = omega arith

      to : add_size address i ≡ address + i
      to = omega arith

      low : v.start + 2 * i + 1 ≡ suc (v.start + 2 * i)
      low = omega arith

      next : address + (i + 1) ≡ suc (address + i)
      next = omega arith

      step : v.start + 2 * (i + 1) ≡ suc (suc (v.start + 2 * i))
      step = omega arith

  -- `SetRegisters` on `n` registers of the store within 16-bit addresses stores the words that the
  -- view's bytes hold, high byte first, and changes no other register. The view lies in memory,
  -- which holds bytes, and has 2 n of them.
  pub set_registers_lem :
      (s : RegisterDataStore) (address n : ℕ) (v : View)
      → address + n ≤ length s.registers
      → address + n ≤ 65536
      → 2 * n ≤ v.size
      → IsInside v
      → All IsByte v.storage
      → set_registers x s address n v
        ≡ ok (record { registers = write_at s.registers address (words_at v.storage v.start n) })
  unfolding set_registers
  set_registers_lem s address n v h w fits inside bytes =
      let from : address + 0 ≡ address = omega arith in
      let start : v.start + 2 * 0 ≡ v.start = omega arith in
      rw (
        set_from_lem s address 0 v n (omega arith) (omega arith) (omega arith) inside bytes,
        from,
        start,
      )
