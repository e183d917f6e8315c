-- ===== src/RealTime.antt =====
-- The real-time core (ModbusOnSphereM4): messages to and from the A7, what main.c does with them,
-- its list of callbacks, and the drivers of the UART and of the GPIO pins.
pub mod Message
pub mod Handlers
pub mod Send
pub mod Response
pub mod Answer
pub mod Command
pub mod Pieces
pub mod Reply
pub mod Text
pub mod Settings
pub mod Config
pub mod Uart
pub mod Irq
pub mod Stream
pub mod Serial
pub mod Interrupt
pub mod Drain
pub mod Callbacks
pub mod Dispatch
pub mod Gpio
pub mod HalfDuplex
