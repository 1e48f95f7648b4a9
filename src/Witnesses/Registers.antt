-- ===== src/Witnesses/Registers.antt =====
-- Concrete runs of the theorems: the runs on the register stores.
use modbus_basic.Common.{
  ℕ, ◌+◌, ◌≤◌, ◌<◌, ◌≡◌, ◌↔◌, refl, true, false, [], ◌∷◌, ok, arith, replicate, length,
}
use modbus_basic.View.{view_of}
use modbus_basic.DataStores.Registers.{read_location_valid, get_registers, set_registers}
use modbus_basic.DataStores.Registers.Bounds.{read_location_valid_iff}
use modbus_basic.DataStores.Registers.Access.{get_registers_lem, set_registers_lem}
use modbus_basic.Common.{◌>>=◌}
use modbus_basic.DataStores.Updating.{
  set_register_callback, new_data_available, clear_new_data_flags,
}
use modbus_basic.DataStores.Updating.NewData.{new_data_lem}
use modbus_basic.Witnesses.{plain, plain_laws, four, store}

read_location_valid_iff_example :
    (read_location_valid four 1 3 ≡ true)
    ↔ ((1 < length four.registers) × (1 + 3 ≤ length four.registers))
read_location_valid_iff_example =
    read_location_valid_iff four 1 3 (omega arith) (omega arith) (omega arith)

get_registers_lem_example :
    get_registers plain four 1 2 (view_of (replicate 6 0))
    ≡ ok (view_of (0 ∷ 20 ∷ 0 ∷ 30 ∷ 0 ∷ 0 ∷ []))
get_registers_lem_example =
    get_registers_lem plain plain_laws four 1 2 (view_of (replicate 6 0)) (omega arith)
      (omega arith) (omega arith) (omega arith)

set_registers_lem_example :
    set_registers plain four 1 2 (view_of (0 ∷ 50 ∷ 1 ∷ 4 ∷ []))
    ≡ ok (record { registers = 10 ∷ 50 ∷ 260 ∷ 40 ∷ [] })
set_registers_lem_example =
    set_registers_lem plain plain_laws four 1 2 (view_of (0 ∷ 50 ∷ 1 ∷ 4 ∷ [])) (omega arith)
      (omega arith) (omega arith) (omega arith) (ground arith)

new_data_lem_example :
    ((a : ℕ)
      → a < 3
      → (do written ← set_register_callback store a 5; new_data_available written) ≡ ok true)
    × ((do written ← set_register_callback store 3 5; new_data_available written)
        ≡ new_data_available store)
    × ((do cleared ← clear_new_data_flags store; new_data_available cleared) ≡ ok false)
new_data_lem_example = new_data_lem store 3 5 refl (omega arith)
