-- ===== src/Modbus/Types.antt =====
-- The data of modbus.c and the constants of modbusCommon.h: the handle that a connection keeps,
-- the state shared by all handles, and what the operating system answers.
use modbus_sphere_library.Base.{ℕ, List, Bool, true, false, Option}

-- Function codes.
abbrev pub read_coils_code : ℕ
read_coils_code = 1

abbrev pub read_discrete_inputs_code : ℕ
read_discrete_inputs_code = 2

abbrev pub read_multiple_holding_registers_code : ℕ
read_multiple_holding_registers_code = 3

abbrev pub read_input_registers_code : ℕ
read_input_registers_code = 4

abbrev pub write_single_coil_code : ℕ
write_single_coil_code = 5

abbrev pub write_single_holding_register_code : ℕ
write_single_holding_register_code = 6

abbrev pub read_exception_status_code : ℕ
read_exception_status_code = 7

abbrev pub write_multiple_coils_code : ℕ
write_multiple_coils_code = 15

abbrev pub write_multiple_holding_registers_code : ℕ
write_multiple_holding_registers_code = 16

abbrev pub read_file_code : ℕ
read_file_code = 20

abbrev pub write_file_code : ℕ
write_file_code = 21

-- Error codes of the library itself.
abbrev pub modbus_timeout : ℕ
modbus_timeout = 20

abbrev pub message_send_fail : ℕ
message_send_fail = 21

abbrev pub handle_in_use : ℕ
handle_in_use = 22

abbrev pub invalid_response : ℕ
invalid_response = 23

abbrev pub device_disconnected : ℕ
device_disconnected = 24

-- Lengths and offsets.
abbrev pub max_pdu_length : ℕ
max_pdu_length = 254

abbrev pub pdu_header_length : ℕ
pdu_header_length = 3

abbrev pub error_code_length : ℕ
error_code_length = 3

abbrev pub fcode_range : ℕ
fcode_range = 32

abbrev pub fcode_error_offset : ℕ
fcode_error_offset = 128

abbrev pub tcp_header_length : ℕ
tcp_header_length = 6

abbrev pub message_header_length : ℕ
message_header_length = 4

abbrev pub write_response_start : ℕ
write_response_start = 2

abbrev pub write_response_bytes : ℕ
write_response_bytes = 4

abbrev pub uart_cfg_message_resp_length : ℕ
uart_cfg_message_resp_length = 1

-- `modbusTransportType_t`.
pub data TransportType : Type 0 where
  tcp rtu_over_tcp rtu : TransportType

-- `messageHandlerState_t`.
pub data MessageHandlerState : Type 0 where
  success failure waiting : MessageHandlerState

-- `MODBUS_STATE`.
pub data ModbusState : Type 0 where
  idle sending_request waiting_for_response data_received transaction_failed disconnected :
      ModbusState

-- `serialSetup`; also `struct _RTU`, which holds the same settings.
pub record SerialSetup : Type 0 where
  pub baud_rate : ℕ
  pub duplex_mode : ℕ
  pub parity_mode : ℕ
  pub parity_state : ℕ
  pub stop_bits : ℕ
  pub word_length : ℕ

-- `union _connectData`; the text of an IP address is a list of
-- characters, `none` for NULL.
pub data ConnectData : Type 0 where
  unset : ConnectData
  tcp_data : Option (List ℕ) → ℕ → ConnectData
  rtu_data : SerialSetup → ConnectData

-- `struct _modbus_t`.
pub record Modbus : Type 0 where
  pub type : TransportType
  pub connect_data : ConnectData
  pub fd : ℕ
  pub transaction_id : ℕ
  pub last_transaction_id : ℕ
  pub state : ModbusState
  pub buffered_message_length : ℕ
  pub pdu_length : ℕ
  pub is_cfg : Bool
  pub buffered_message : List ℕ
  pub pdu : List ℕ

-- One `struct epoll_event` for the handle: its flags, and what `recv` gives if it is called
-- (`none` for -1).
pub record Event : Type 0 where
  pub readable : Bool
  pub recv : Option (List ℕ)
  pub hangup : Bool

-- What the operating system and the other side do: what `send` returns (`none` for -1), the
-- events that the epoll thread handles during each sleep of `WaitForData`, and the values that a
-- local array holds before anything is stored in it. `fuel` bounds the rounds of one wait.
pub record Env : Type 0 where
  pub send : ℕ → List ℕ → Option ℕ
  pub polls : ℕ → List Event
  pub stack : ℕ → ℕ
  pub fuel : ℕ

-- The handle in use, the `transactionIdentifier` of the module, the messages handed to `send`
-- (newest first), and the number of sleeps so far.
pub record World : Type 0 where
  pub hndl : Modbus
  pub transaction_identifier : ℕ
  pub wire : List (List ℕ)
  pub tick : ℕ

unfoldable pub is_idle : ModbusState → Bool
is_idle idle = true
is_idle _ = false

unfoldable pub is_waiting : ModbusState → Bool
is_waiting waiting_for_response = true
is_waiting _ = false

unfoldable pub is_data_received : ModbusState → Bool
is_data_received data_received = true
is_data_received _ = false

unfoldable pub is_disconnected : ModbusState → Bool
is_disconnected disconnected = true
is_disconnected _ = false

unfoldable pub is_rtu : TransportType → Bool
is_rtu rtu = true
is_rtu _ = false
