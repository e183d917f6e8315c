-- ===== src/Modbus.antt =====
-- modbus.c, the library on the high-level core.
pub mod Types
pub mod Fcode
pub mod Transport
pub mod Receive
pub mod Wait
pub mod Request
pub mod Read
pub mod Write
pub mod File
pub mod Connect
