-- ===== src/DataStores/Registers/Bounds.antt =====
-- include/Modbus/DataStores/RegisterDataStore.h: which accesses the store declares valid.
use modbus_basic.Common.{ℕ, ◌+◌, ◌≤◌, ◌<◌, ◌≡◌, ◌↔◌, true, arith, length, size_mod}
use modbus_basic.DataStores.Registers.{RegisterDataStore, read_location_valid}

-- An access is valid exactly if it begins at a register of the store and ends inside the store, so
-- one of no register at all is valid wherever a register stands. Address and count have 16 bits,
-- and the store is smaller than the address range.
pub read_location_valid_iff :
    (s : RegisterDataStore) (address count : ℕ)
    → address < 65536
    → count < 65536
    → length s.registers < size_mod
    → (read_location_valid s address count ≡ true)
      ↔ ((address < length s.registers) × (address + count ≤ length s.registers))
unfolding read_location_valid
read_location_valid_iff s address count ha hc hs = ground arith
