-- ===== src/RealTime/Handlers.antt =====
-- main.c: `GetFcodeLength`, `HandleModbusRequest` and `HandleUartIsu0RxIrqDeferred`.
use modbus_sphere_library.Base.{
  ℕ, ◌+◌, ◌%◌, ◌^◌, ◌<◌, ◌≤◌, ◌≡◌, ◌≢◌, List, [], ◌∷◌, Option, none, some, ltb, leb, ◌==◌, drop,
  length, if◌then◌else◌, arith,
}
use modbus_sphere_library.Outcome.{Outcome, ok, ◌>>=◌}
use modbus_sphere_library.Memory.{uninit, read_byte, read_bytes, write_bytes}
use modbus_sphere_library.Crc.{add_crc, validate_crc, crc_footer_length}
use modbus_sphere_library.Modbus.Types.{
  read_coils_code, read_discrete_inputs_code, read_multiple_holding_registers_code,
  read_input_registers_code, write_single_coil_code, write_single_holding_register_code,
  read_exception_status_code, write_multiple_coils_code, write_multiple_holding_registers_code,
  error_code_length, pdu_header_length, max_pdu_length, fcode_error_offset,
}
use modbus_sphere_library.Modbus.Fcode.{get_fcode_length}
use modbus_sphere_library.Intercore.Ring.{BufferHeader}
use modbus_sphere_library.RealTime.Message.{
  MessageHandle, prefix_length, max_message_length, get_message_command, get_message_length,
  get_message_data_index, set_message_prefix, set_message_protocol, set_message_command,
  set_message_data, set_message_length, send_a7_message,
}

-- `GetFcodeLength` of the real-time core; the second condition of the first test is a constant
-- that is not zero.
unfoldable pub rt_fcode_length : ℕ → ℕ → ℕ
rt_fcode_length f_code data_length =
    if ltb fcode_error_offset f_code
    then error_code_length
    else if f_code == read_coils_code
    then pdu_header_length + data_length
    else if f_code == read_discrete_inputs_code
    then pdu_header_length + data_length
    else if f_code == read_multiple_holding_registers_code
    then pdu_header_length + data_length
    else if f_code == read_input_registers_code
    then pdu_header_length + data_length
    else if f_code == write_single_coil_code
    then pdu_header_length + 3
    else if f_code == write_single_holding_register_code
    then pdu_header_length + 3
    else if f_code == read_exception_status_code
    then pdu_header_length
    else if f_code == write_multiple_coils_code
    then pdu_header_length + 3
    else if f_code == write_multiple_holding_registers_code
    then pdu_header_length + 3
    else 0

-- For function codes up to 160 other than the file requests 20 and 21, the two cores agree on the
-- length of a response.
rt_fcode_length_lem :
    (f_code data_length : ℕ)
    → f_code ≤ 160
    → data_length < 256
    → f_code ≢ 20
    → f_code ≢ 21
    → rt_fcode_length f_code data_length ≡ get_fcode_length f_code data_length
unfolding rt_fcode_length get_fcode_length
rt_fcode_length_lem f_code data_length h k n m = ground arith

-- The bytes handed to `Uart_EnqueueData`, or `none` if it is not called.
unfoldable pub handle_modbus_request : (ℕ → ℕ) → MessageHandle → Outcome (Option (List ℕ))
handle_modbus_request stack req = do
  command ← get_message_command req
  (if command == 1
      then (do
        n ← get_message_length req
        (if ltb max_pdu_length n then ok none else (do
          index ← get_message_data_index req
          bytes ← read_bytes req.data_bytes index n
          filled ← write_bytes (uninit stack (max_pdu_length + crc_footer_length)) 0 bytes
          (added, footed) ← add_crc filled n (max_pdu_length + crc_footer_length)
          (if added
              then (do out ← read_bytes footed 0 (n + crc_footer_length); ok (some out))
              else ok none))))
      else ok none)

-- The response that goes to the A7; its header's length is not set.
unfoldable pub rt_response : (ℕ → ℕ) → List ℕ → List ℕ → ℕ → Outcome MessageHandle
rt_response stack prefix body n = do
  let empty : MessageHandle = record {
    length = stack 1044;
    data_bytes = uninit stack (prefix_length + max_message_length);
  }
  prefixed ← set_message_prefix empty prefix
  typed ← set_message_protocol prefixed 2
  commanded ← set_message_command typed 1
  filled ← set_message_data commanded body n
  ok filled.1

-- One round of the loop in `HandleUartIsu0RxIrqDeferred`, for the bytes that `Uart_DequeueData`
-- stores, at least one: the receive buffer, and the message for the A7 if there is one.
unfoldable pub rx_round :
    (ℕ → ℕ) → List ℕ → MessageHandle → List ℕ → Outcome (MessageHandle × Option MessageHandle)
rx_round stack prefix rx received = do
  n ← get_message_length rx
  base ← get_message_data_index rx
  stored ← write_bytes rx.data_bytes (base + n) received
  let current = (n + length received) % 2 ^ 32
  let rx' = set_message_length (record rx { data_bytes = stored }) current
  (if ltb current pdu_header_length then ok (rx', none) else (do
    f_code ← read_byte stored (base + 1)
    data_length ← read_byte stored (base + 2)
    let expected = rt_fcode_length f_code data_length
    (if leb expected current
        then (do
          valid ← validate_crc (drop base stored) (expected + crc_footer_length)
          (if valid
              then (do
                resp ← rt_response stack prefix (drop base stored) expected
                ok (set_message_length rx' 0, some resp))
              else ok (set_message_length rx' 0, none)))
        else ok (rx', none))))

-- The loop, for the bytes of each round until none are left, with the buffers to the A7.
unfoldable pub rx_deferred :
    (ℕ → ℕ)
    → List ℕ
    → BufferHeader
    → BufferHeader
    → ℕ
    → MessageHandle
    → List (List ℕ)
    → Outcome (MessageHandle × BufferHeader)
rx_deferred stack prefix inbound outbound buf_size rx [] = ok (rx, outbound)
rx_deferred stack prefix inbound outbound buf_size rx (received ∷ rounds) = do
  (rx', resp) ← rx_round stack prefix rx received
  outbound' ← (elim resp [
    | none ↦ ok outbound
    | some message ↦ send_a7_message inbound outbound buf_size message
  ])
  rx_deferred stack prefix inbound outbound' buf_size rx' rounds
