-- ===== src/Modbus/Receive.antt =====
-- `MessageHandler` and `ModBusRead` of modbus.c: bytes received are buffered until a whole message
-- is there, which is checked and handed over.
pub mod Buffer
pub mod Transaction
pub mod Tcp
pub mod Complete
pub mod Invariant
use modbus_sphere_library.Base.{
  ℕ, ◌+◌, ◌-◌, ◌*◌, ◌/◌, ◌%◌, ◌^◌, List, [], ◌∷◌, Bool, true, false, ◌&&◌, ◌||◌, Option, none, some,
  ltb, leb, ◌==◌, if◌then◌else◌, length,
}
use modbus_sphere_library.Outcome.{Outcome, ok, ◌>>=◌}
use modbus_sphere_library.Memory.{uninit, read_byte, read_bytes, write_bytes}
use modbus_sphere_library.Crc.{crc_footer_length, validate_crc}
use modbus_sphere_library.Modbus.Types.{
  TransportType, tcp, rtu_over_tcp, rtu, MessageHandlerState, success, failure, waiting, Modbus,
  Env, is_waiting, is_rtu, max_pdu_length, pdu_header_length, tcp_header_length,
  message_header_length, uart_cfg_message_resp_length,
}
use modbus_sphere_library.Modbus.Fcode.{get_fcode_length}

-- The local variables that `MessageHandler` sets by the type of the handle.
pub record Layout : Type 0 where
  pub min_length : ℕ
  pub f_code_offset : ℕ
  pub pdu_length_offset : ℕ
  pub transport_header_length : ℕ
  pub transport_footer_length : ℕ
  pub check_transaction : Bool
  pub check_crc : Bool

abbrev pub layout : TransportType → Layout
layout rtu = record {
  min_length = message_header_length + pdu_header_length;
  f_code_offset = message_header_length + 1;
  pdu_length_offset = message_header_length + 2;
  transport_header_length = message_header_length;
  transport_footer_length = 0;
  check_transaction = false;
  check_crc = false;
}
layout rtu_over_tcp = record {
  min_length = crc_footer_length + pdu_header_length;
  f_code_offset = 1;
  pdu_length_offset = 2;
  transport_header_length = 0;
  transport_footer_length = crc_footer_length;
  check_transaction = false;
  check_crc = true;
}
layout tcp = record {
  min_length = tcp_header_length + pdu_header_length;
  f_code_offset = tcp_header_length + 1;
  pdu_length_offset = tcp_header_length + 2;
  transport_header_length = tcp_header_length;
  transport_footer_length = 0;
  check_transaction = true;
  check_crc = false;
}

-- What the transaction identifier of a message says: it answers the current request, one that
-- has timed out, or none that was made.
pub data Verdict : Type 0 where
  current past future : Verdict

-- The nested tests on `transactionId`, `lastTransactionId` and `rxTransaction`.
unfoldable pub check_transaction_id : ℕ → ℕ → ℕ → Verdict
check_transaction_id transaction_id last_transaction_id rx =
    if transaction_id == rx
    then current
    else if ltb last_transaction_id transaction_id
    then (if ltb transaction_id rx || leb rx last_transaction_id
        then future
        else if ltb rx transaction_id
        then past
        else current)
    else if leb last_transaction_id rx || ltb rx transaction_id
    then past
    else if ltb transaction_id rx
    then future
    else current

abbrev pub is_current : Verdict → Bool
is_current current = true
is_current _ = false

unfoldable pub discard : Modbus → Outcome (MessageHandlerState × Modbus)
discard hndl = ok (waiting, record hndl { buffered_message_length = 0 })

-- The data behind a message of `total` bytes moves to the front of the buffer.
unfoldable pub keep_rest : MessageHandlerState → Modbus → ℕ → Outcome (MessageHandlerState × Modbus)
keep_rest ret hndl total =
    let remaining = hndl.buffered_message_length - total in
    if ltb 0 remaining
    then (do
      rest ← read_bytes hndl.buffered_message total remaining
      moved ← write_bytes hndl.buffered_message 0 rest
      ok (
        ret,
        record hndl { buffered_message = moved; buffered_message_length = remaining % 2 ^ 16 },
      ))
    else ok (ret, record hndl { buffered_message_length = remaining % 2 ^ 16 })

-- The PDU is copied to the handle if it fits, answers the current request and has no CRC error.
unfoldable pub hand_over :
    Modbus → Layout → ℕ → ℕ → Verdict → Outcome (MessageHandlerState × Modbus)
hand_over hndl l pdu_message_length rx verdict = do
  let total = pdu_message_length + l.transport_header_length + l.transport_footer_length
  crc_ok ←
      (if l.check_crc
        then validate_crc hndl.buffered_message (pdu_message_length + crc_footer_length)
        else ok true)
  (if leb pdu_message_length max_pdu_length && is_current verdict && crc_ok
      then (do
        payload ← read_bytes hndl.buffered_message l.transport_header_length pdu_message_length
        pdu ← write_bytes hndl.pdu 0 payload
        keep_rest success
            (record hndl { pdu_length = pdu_message_length; last_transaction_id = rx; pdu = pdu })
            total)
      else keep_rest waiting hndl total)

-- The part of `MessageHandler` under `fullMessageAvailable`.
unfoldable pub full_message : Modbus → Layout → ℕ → Outcome (MessageHandlerState × Modbus)
full_message hndl l pdu_message_length = do
  high ← read_byte hndl.buffered_message 0
  low ← read_byte hndl.buffered_message 1
  let rx = (high * 2 ^ 8 + low) % 2 ^ 16
  let verdict =
      if l.check_transaction
      then check_transaction_id hndl.transaction_id hndl.last_transaction_id rx
      else current
  elim verdict [
    | future ↦ ok (failure, record hndl { buffered_message_length = 0 })
    | past ↦ hand_over hndl l pdu_message_length rx past
    | current ↦ hand_over hndl l pdu_message_length rx current
  ]

unfoldable pub expected_length : Modbus → Layout → Outcome ℕ
expected_length hndl l = if hndl.is_cfg then ok uart_cfg_message_resp_length else (do
  f_code ← read_byte hndl.buffered_message l.f_code_offset
  data_length ← read_byte hndl.buffered_message l.pdu_length_offset
  ok (get_fcode_length f_code data_length))

-- The part of `MessageHandler` from "reading buffer" on.
unfoldable pub scan_buffer : Modbus → Layout → Outcome (MessageHandlerState × Modbus)
scan_buffer hndl l =
    if leb l.min_length hndl.buffered_message_length || is_rtu hndl.type
    then (do
      pdu_message_length ← expected_length hndl l
      (if leb (pdu_message_length + l.transport_header_length + l.transport_footer_length)
            hndl.buffered_message_length
          then full_message hndl l pdu_message_length
          else ok (waiting, hndl)))
    else ok (waiting, hndl)

-- `message` is the caller's array, `input_length` a `uint16_t`.
unfoldable pub message_handler : Modbus → List ℕ → ℕ → Outcome (MessageHandlerState × Modbus)
message_handler hndl message input_length =
    if is_waiting hndl.state
    then (if ltb (hndl.buffered_message_length + input_length) max_pdu_length
        then (do
          input ← read_bytes message 0 input_length
          buffer ← write_bytes hndl.buffered_message hndl.buffered_message_length input
          let hndl' = record hndl {
            buffered_message = buffer;
            buffered_message_length = (hndl.buffered_message_length + input_length) % 2 ^ 16;
          }
          scan_buffer hndl' (layout hndl.type))
        else discard hndl)
    else discard hndl

-- `recv` returns -1 (65535 as a `uint16_t`) and leaves the array as it was, or stores at most 254
-- bytes at its start.
unfoldable pub modbus_read :
    (ℕ → ℕ) → Modbus → Option (List ℕ) → Outcome (MessageHandlerState × Modbus)
modbus_read stack hndl none = message_handler hndl (uninit stack max_pdu_length) (2 ^ 16 - 1)
modbus_read stack hndl (some bytes) = do
  message ← write_bytes (uninit stack max_pdu_length) 0 bytes
  message_handler hndl message (length bytes % 2 ^ 16)
