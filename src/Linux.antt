-- ===== src/Linux.antt =====
-- examples: the slave on a serial port of a Linux host.
pub mod Serial
pub mod Tools
pub mod Printing
pub mod Run
pub mod Snooper
