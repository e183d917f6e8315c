-- ===== src/Lib.antt =====
-- Modbus on Sphere: a Modbus client for an Azure Sphere device, with a serial transport through the
-- real-time core.
--
-- The program and its model:
--   * Crc (crc-util.c): the table-driven CRC-16 and the two operations on a message's footer.
--   * Modbus (ModbusOnSphereA7/modbus.c): the client.
--       - Types: the handle (`struct _modbus_t` as the record `Modbus`), the constants of
--         modbusCommon.h, and the environment.
--       - Fcode: `GetFcodeLength`. Transport: `ModBusWrite` and `SendToSlave` on the transports tcp,
--         rtuOverTcp and rtu.
--       - Receive: `ModBusRead` and `MessageHandler`, cut into the steps that it consists of: store
--         the bytes, find the length by the function code, test the transaction identifier and the
--         CRC, hand over the PDU, move the rest to the front.
--       - Wait: one round of `EpollThread` (`epoll_event`) and `WaitForData`.
--       - Connect: `ModbusInit`, the `ModbusConnect` functions, `ModbusClose` and `ModbusExit`; its
--         Ledger is what a program holds of the operating system after a sequence of calls.
--       - Request: what `ReadCoils` and its like share; Read, Write and File: the request functions.
--         The modules Tcp follow a request that is answered, the modules Safety one to which the other
--         side may send anything.
--   * Intercore (ModbusOnSphereM4/mt3620-intercore.c): the two ring buffers through which the cores
--     exchange messages; `EnqueueData` writes to one, `DequeueData` reads from the other. Queue is
--     what the two ends of a ring promise, a bounded queue of messages; Contents says which messages
--     lie in a ring, and Refine runs both side by side.
--   * RealTime (ModbusOnSphereM4): Message is message-handler.c. Handlers, Send, Response, Answer
--     and Pieces are the Modbus part of main.c, from the A7 to the UART and back. Dispatch is
--     `ReceiveCommandFromA7` and `HandleUARTRequest` of main.c, and Callbacks its list of deferred
--     interrupts. Config is the way of the serial settings from `WriteSerialConfig` to
--     `SetSerialConfig`. Uart is one end of each software ring of mt3620-uart.c, and Irq the
--     interrupt handler at the other end; Stream says which bytes lie in a ring, and Serial,
--     Interrupt and Drain follow them. Text is the driver's output of numbers; Digits says what a
--     numeral is, and Reversal, Printing and Hexadecimal follow the output to the ring. Gpio is mt3620-gpio.c, and HalfDuplex its use by the driver
--     of the UART. Command is the whole way of a request, from the message that the client sends to
--     the UART; Settings that of the serial settings, and Reply the answer to them.
--   * Devices: Adam4150 (ModbusOnSphereA7/adam4150.c), Tcw241 (tcw241.c) and RtuOverTcp
--     (rtuovertcp.c), the clients of modbus.c.
--   * AzureIot (ModbusOnSphereA7/azure_iot.c): Client is the connection to the hub, with the calls of
--     the SDK as a result; Calls says which of its objects are live, and Safety follows their use;
--     Attempts and Backoff are about how often it tries to connect. Twin is the table of callbacks on the device
--     twin, and Registry the list of registrations that it stands for.
--   * Application (ModbusOnSphereA7/main.c and epoll_timerfd_utilities.c): Arguments and CommandLine
--     are the devices on the command line; Timers and Handlers the start and the end of the
--     application, which Connections and Start follow.
--   * Simulator (SlaveSimulator/modbuscommands.c, and the loop of main.c): a slave that stores files;
--     Decoding and Answering are what it makes of a request with the fields that the builders of
--     modbus.c lay out, and RoundTrip joins the two.
--   * Base, Outcome and Memory: the helpers that the parts share.
--
-- How C is modelled. A function that can access memory returns an `Outcome`: `ok` with its results,
-- `fault` for an access outside an object, `hang` for a loop that has used up its fuel. An array is a
-- list of numbers of the length that is declared; a local array holds what `Env.stack` says until it
-- is written. Integers are natural numbers, with the reductions `% 2 ^ w` where C converts; `size_t`
-- has 32 bits. A pointer parameter `readArray` is an argument and part of the `Reply`.
--
-- The environment. `send` is the parameter `Env.send`: it returns the number of bytes taken or -1,
-- and the record `World` keeps what it was given. The events of the handle come from `Env.polls`: the
-- list for each sleep of `WaitForData`, each with the flags and the result of `recv`. The event thread
-- runs during these sleeps only: a run in which it interrupts the statements between two sleeps is
-- not in the model. One handle is in use at a time.
-- What `malloc`, `socket`, `connect`, `epoll_ctl` and their like answer is the record `System`; what
-- has been granted or given back is a list of `Call`. The UART's registers are arguments of the
-- interrupt handler, which runs between two calls of the driver and not inside one.
--
-- Fuel. The loop of `WaitForData` has fuel. With a timeout of `t > 0` it takes at most `t + 2`
-- rounds, so fuel for `t + 2` is enough; with the timeout 0 the C code may wait for ever, and no
-- theorem covers it. The loop of the simulator's `requestWrite` has fuel for 38 rounds: a round reads
-- at least seven of at most 255 bytes. The loop of `InvokeCallbacks` has fuel for one round more than
-- there are nodes that wait or are enqueued while it runs. The loops over the digits of a number have
-- fuel for 12 rounds, and its text has at most 11 characters.
--
-- Not modelled: the JSON library (parson.c), a copy of another project's, which is a parameter of the
-- Azure client; logging and the buffer zones that a build flag switches on; the event loop of the
-- application and its handler of the timer, which uses several handles; the set-up of the UART and the
-- timers of the real-time core, and its main function; the text that the devices print for the hub, of
-- which only the states in a report are kept.
pub mod Application
pub mod AzureIot
pub mod Base
pub mod Outcome
pub mod Memory
pub mod Crc
pub mod Intercore
pub mod Modbus
pub mod RealTime
pub mod Simulator
pub mod Devices
pub mod Tests
