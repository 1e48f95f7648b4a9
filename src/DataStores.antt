-- ===== src/DataStores.antt =====
-- include/Modbus/DataStores, and what the register controllers ask of the data store that they are
-- templates over.
pub mod Registers
pub mod Updating
use modbus_basic.Common.{ℕ, Bool, Result}
use modbus_basic.View.{View}

-- The members of `T` in `InputRegisterController<T>` and `HoldingRegisterController<T>`.
pub record DataStore (S : Type 0) : Type 0 where
  pub read_location_valid : S → ℕ → ℕ → Bool
  pub write_location_valid : S → ℕ → ℕ → Bool
  pub get_register : S → ℕ → Result ℕ
  pub set_register : S → ℕ → ℕ → Result S
  pub get_registers : S → ℕ → ℕ → View → Result View
  pub set_registers : S → ℕ → ℕ → View → Result S

-- The two more that `HoldingRegisterController<T>` calls.
pub record CallbackStore (S : Type 0) : Type 0 where
  pub store : DataStore S
  pub open store use *
  pub set_register_callback : S → ℕ → ℕ → Result S
  pub set_registers_callback : S → ℕ → ℕ → View → Result S
