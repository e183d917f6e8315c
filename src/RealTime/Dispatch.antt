-- ===== src/RealTime/Dispatch.antt =====
-- main.c: `ReceiveCommandFromA7` and `HandleUARTRequest`.
use modbus_sphere_library.Base.{
  ℕ, ◌+◌, List, [], ◌∷◌, Option, none, some, ◌==◌, drop, if◌then◌else◌,
}
use modbus_sphere_library.Outcome.{Outcome, ok, ◌>>=◌}
use modbus_sphere_library.Memory.{uninit}
use modbus_sphere_library.Intercore.Ring.{BufferHeader}
use modbus_sphere_library.RealTime.Message.{
  MessageHandle, prefix_length, max_message_length, read_a7_message, get_message_protocol,
  get_message_command, get_message_length, get_message_prefix, get_message_data_index,
  set_message_prefix, set_message_protocol, set_message_command, set_message_data, send_a7_message,
  init_message,
}
use modbus_sphere_library.RealTime.Handlers.{handle_modbus_request}
use modbus_sphere_library.RealTime.HalfDuplex.{HalfDuplex}
use modbus_sphere_library.RealTime.Config.{LineSettings, set_serial_config}

-- `UartIsu0`.
abbrev pub uart_isu0 : ℕ
uart_isu0 = 1

-- Whether there are settings, as a byte.
unfoldable pub success_byte : Option LineSettings → ℕ
success_byte none = 0
success_byte (some line) = 1

-- The response to the A7.
unfoldable pub uart_response : (ℕ → ℕ) → List ℕ → Option LineSettings → Outcome MessageHandle
unfolding success_byte
uart_response stack msg_prefix line = do
  let empty : MessageHandle = record {
    length = stack 1044;
    data_bytes = uninit stack (prefix_length + max_message_length);
  }
  resp ← init_message empty
  prefixed ← set_message_prefix resp msg_prefix
  typed ← set_message_protocol prefixed 1
  commanded ← set_message_command typed 1
  filled ← set_message_data commanded (success_byte line ∷ []) 1
  ok filled.1

-- The settings for the UART, if there are new ones, and the outbound buffer.
unfoldable pub handle_uart_request :
    (ℕ → ℕ)
    → HalfDuplex
    → List ℕ
    → BufferHeader
    → BufferHeader
    → ℕ
    → MessageHandle
    → Outcome (Option LineSettings × BufferHeader)
unfolding uart_response
handle_uart_request stack before msg_prefix inbound outbound buf_size req = do
  command ← get_message_command req
  (if command == 1
      then (do
        index ← get_message_data_index req
        n ← get_message_length req
        line ← set_serial_config before (drop index req.data_bytes) n uart_isu0
        resp ← uart_response stack msg_prefix line
        outbound' ← send_a7_message inbound outbound buf_size resp
        ok (line, outbound'))
      else ok (none, outbound))

-- What `ReceiveCommandFromA7` leaves: `msgPrefix`, the new settings, the bytes for the UART, and
-- the outbound buffer.
pub record Received : Type 0 where
  pub msg_prefix : List ℕ
  pub line : Option LineSettings
  pub to_uart : Option (List ℕ)
  pub outbound : BufferHeader

-- `before` is the state of half duplex; the timer is started again in each case.
unfoldable pub receive_command_from_a7 :
    (ℕ → ℕ) → HalfDuplex → List ℕ → BufferHeader → BufferHeader → ℕ → Outcome Received
unfolding handle_uart_request
receive_command_from_a7 stack before msg_prefix inbound outbound buf_size = do
  let empty : MessageHandle = record {
    length = stack 1044;
    data_bytes = uninit stack (prefix_length + max_message_length);
  }
  (arrived, (req, outbound')) ← read_a7_message inbound outbound buf_size empty
  (if arrived
      then (do
        prefix ← get_message_prefix req
        protocol ← get_message_protocol req
        (if protocol == 1
            then (do
              (line, answered) ←
                  handle_uart_request stack before prefix inbound outbound' buf_size req
              ok (record { msg_prefix = prefix; line = line; to_uart = none; outbound = answered }))
            else if protocol == 2
            then (do
              bytes ← handle_modbus_request stack req
              ok (record {
                msg_prefix = prefix;
                line = none;
                to_uart = bytes;
                outbound = outbound';
              }))
            else ok (record {
              msg_prefix = prefix;
              line = none;
              to_uart = none;
              outbound = outbound';
            })))
      else ok
          (record { msg_prefix = msg_prefix; line = none; to_uart = none; outbound = outbound' }))
