-- ===== src/Simulator.antt =====
-- SlaveSimulator/modbuscommands.c and the answer that main.c sends: a slave that keeps six files.
pub mod Files
pub mod Requests
pub mod Store
pub mod Decoding
pub mod Answering
pub mod RoundTrip
pub mod Steps
pub mod Termination
