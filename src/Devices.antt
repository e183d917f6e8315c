-- ===== src/Devices.antt =====
-- The devices of ModbusOnSphereA7: what they ask of the Modbus client, and what they remember.
pub mod Adam4150
pub mod Tcw241
pub mod RtuOverTcp
