-- ===== src/ModbusRtu.antt =====
-- include/Modbus/ModbusRtu: the RTU framing, the receiver and the slave.
pub mod ReadContext
pub mod Protocol
pub mod Slave
