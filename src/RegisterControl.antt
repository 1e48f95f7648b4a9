-- ===== src/RegisterControl.antt =====
-- include/Modbus/RegisterControl.h: the register commands, their packets, and the controllers that
-- validate and run them on a data store.
pub mod WriteSingle
pub mod ReadMultiple
pub mod WriteMultiple
pub mod HoldingController
pub mod InputController
