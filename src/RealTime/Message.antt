-- ===== src/RealTime/Message.antt =====
-- message-handler.c: a message of the A7 is a prefix of 20 bytes, a header and data.
use modbus_sphere_library.Base.{
  ℕ, ◌+◌, ◌-◌, ◌%◌, ◌^◌, List, Bool, true, false, ltb, ◌||◌, not, if◌then◌else◌,
}
use modbus_sphere_library.Outcome.{Outcome, ok, ◌>>=◌}
use modbus_sphere_library.Memory.{read_byte, read_bytes, write_byte, write_bytes}
use modbus_sphere_library.Modbus.Types.{message_header_length}
use modbus_sphere_library.Intercore.Ring.{BufferHeader, dequeue_data, enqueue_data}

abbrev pub max_message_length : ℕ
max_message_length = 1024

abbrev pub prefix_length : ℕ
prefix_length = 20

abbrev pub min_header_length : ℕ
min_header_length = 4

-- `messageHandle`; `data` has room for 1044 bytes.
pub record MessageHandle : Type 0 where
  pub length : ℕ
  pub data_bytes : List ℕ

-- Whether a message was read, the message, and the outbound header.
unfoldable pub read_a7_message :
    BufferHeader
    → BufferHeader
    → ℕ
    → MessageHandle
    → Outcome (Bool × (MessageHandle × BufferHeader))
read_a7_message inbound outbound buf_size message = do
  d ← dequeue_data outbound inbound buf_size message.data_bytes message.length
  ok (
    not (not d.result || ltb d.data_size (prefix_length + min_header_length)),
    (record { length = d.data_size; data_bytes = d.dest }, d.outbound),
  )

unfoldable pub get_message_protocol : MessageHandle → Outcome ℕ
get_message_protocol message = read_byte message.data_bytes prefix_length

unfoldable pub get_message_command : MessageHandle → Outcome ℕ
get_message_command message = read_byte message.data_bytes (prefix_length + 1)

-- A `size_t`: the length may be less than that of the header.
unfoldable pub get_message_length : MessageHandle → Outcome ℕ
get_message_length message = do
  header ← read_byte message.data_bytes (prefix_length + 2)
  ok ((message.length + 2 ^ 32 - prefix_length - header) % 2 ^ 32)

unfoldable pub get_message_max_length : ℕ
get_message_max_length = max_message_length - prefix_length - message_header_length

unfoldable pub get_message_prefix : MessageHandle → Outcome (List ℕ)
get_message_prefix message = read_bytes message.data_bytes 0 prefix_length

-- `GetMessageDataPtr` as an index.
unfoldable pub get_message_data_index : MessageHandle → Outcome ℕ
get_message_data_index message = do
  header ← read_byte message.data_bytes (prefix_length + 2)
  ok (prefix_length + header)

unfoldable pub set_message_prefix : MessageHandle → List ℕ → Outcome MessageHandle
set_message_prefix message prefix = do
  bytes ← read_bytes prefix 0 prefix_length
  changed ← write_bytes message.data_bytes 0 bytes
  ok (record message { data_bytes = changed })

unfoldable pub set_message_protocol : MessageHandle → ℕ → Outcome MessageHandle
set_message_protocol message protocol = do
  changed ← write_byte message.data_bytes prefix_length protocol
  ok (record message { data_bytes = changed })

unfoldable pub set_message_command : MessageHandle → ℕ → Outcome MessageHandle
set_message_command message command = do
  changed ← write_byte message.data_bytes (prefix_length + 1) command
  ok (record message { data_bytes = changed })

-- The message is unchanged if the body is too long.
unfoldable pub set_message_data : MessageHandle → List ℕ → ℕ → Outcome (Bool × MessageHandle)
set_message_data message body n =
    if ltb (max_message_length - message_header_length) n then ok (false, message) else (do
      bytes ← read_bytes body 0 n
      changed ← write_bytes message.data_bytes (prefix_length + message_header_length) bytes
      ok (
        true,
        record { length = n + prefix_length + message_header_length; data_bytes = changed },
      ))

unfoldable pub set_message_length : MessageHandle → ℕ → MessageHandle
set_message_length message n = record message {
  length = (n + prefix_length + message_header_length) % 2 ^ 32;
}

-- `SendA7Message`: the outbound buffer.
unfoldable pub send_a7_message :
    BufferHeader → BufferHeader → ℕ → MessageHandle → Outcome BufferHeader
send_a7_message inbound outbound buf_size message = do
  sent ← enqueue_data inbound outbound buf_size message.data_bytes message.length
  ok sent.1

unfoldable pub init_message : MessageHandle → Outcome MessageHandle
init_message message = do
  changed ← write_byte message.data_bytes (prefix_length + 2) message_header_length
  ok (record { length = prefix_length + message_header_length; data_bytes = changed })
