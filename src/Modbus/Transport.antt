-- ===== src/Modbus/Transport.antt =====
-- `ModBusWrite` and `SendToSlave` of modbus.c: the message of each transport, and its dispatch.
pub mod Frames
use modbus_sphere_library.Base.{
  ℕ, ◌+◌, ◌*◌, ◌/◌, ◌%◌, ◌^◌, List, [], ◌∷◌, Bool, true, false, Option, none, some, ◌==◌,
  if◌then◌else◌,
}
use modbus_sphere_library.Outcome.{Outcome, ok, ◌>>=◌}
use modbus_sphere_library.Memory.{uninit, read_bytes, write_bytes}
use modbus_sphere_library.Crc.{crc_footer_length, add_crc}
use modbus_sphere_library.Modbus.Types.{
  TransportType, tcp, rtu_over_tcp, rtu, sending_request, waiting_for_response, idle, Modbus, Env,
  World, max_pdu_length, tcp_header_length, message_header_length,
}

-- `pduLength == send(...)`.
unfoldable pub is_sent : Option ℕ → ℕ → Bool
is_sent none n = false
is_sent (some sent) n = sent == n

-- What follows the call of `send` with these bytes.
unfoldable pub after_send : Env → World → List ℕ → ℕ → Bool × World
after_send env w bytes pdu_length =
    let w' = record w { wire = bytes ∷ w.wire } in
    if is_sent (env.send w.hndl.fd bytes) pdu_length
    then (
      true,
      record w' {
        hndl = record w.hndl {
          transaction_id = w.transaction_identifier;
          state = waiting_for_response;
        };
        transaction_identifier = (w.transaction_identifier + 1) % 2 ^ 16;
      },
    )
    else (false, record w' { hndl = record w.hndl { state = idle } })

unfoldable pub send_to_slave : Env → World → List ℕ → ℕ → Outcome (Bool × World)
send_to_slave env w adu pdu_length = do
  bytes ← read_bytes adu 0 pdu_length
  ok (after_send env w bytes pdu_length)

-- The six bytes in front of the message on Modbus TCP.
unfoldable pub mbap_header : ℕ → ℕ → List ℕ
mbap_header transaction packet_length =
    (transaction / 2 ^ 8 % 2 ^ 8)
    ∷ (transaction % 2 ^ 8)
    ∷ 0
    ∷ 0
    ∷ (packet_length / 2 ^ 8 % 2 ^ 8)
    ∷ (packet_length % 2 ^ 8)
    ∷ []

-- `UART`, `UART_CFG_MESSAGE` or `MODBUS`, `MODBUS_DATA_MESSAGE`, then the header's length; the
-- fourth byte is not set.
unfoldable pub intercore_header : Bool → List ℕ
intercore_header true = 1 ∷ 1 ∷ message_header_length ∷ []
intercore_header false = 2 ∷ 1 ∷ message_header_length ∷ []

-- The three branches of `ModBusWrite`.
unfoldable pub write_framed : Env → World → TransportType → List ℕ → ℕ → Outcome (Bool × World)
write_framed env w tcp packet n = do
  payload ← read_bytes packet 0 n
  body ←
      write_bytes (uninit env.stack (max_pdu_length + tcp_header_length)) tcp_header_length payload
  adu ← write_bytes body 0 (mbap_header w.transaction_identifier n)
  send_to_slave env w adu (n + tcp_header_length)
write_framed env w rtu_over_tcp packet n = do
  payload ← read_bytes packet 0 n
  body ← write_bytes (uninit env.stack (max_pdu_length + crc_footer_length)) 0 payload
  footed ← add_crc body n max_pdu_length
  send_to_slave env w footed.1 (n + crc_footer_length)
write_framed env w rtu packet n = do
  payload ← read_bytes packet 0 n
  body ←
      write_bytes (uninit env.stack (max_pdu_length + message_header_length)) message_header_length
        payload
  adu ← write_bytes body 0 (intercore_header w.hndl.is_cfg)
  send_to_slave env w adu (n + message_header_length)

-- `packet_length` is a `uint16_t`.
unfoldable pub modbus_write : Env → World → List ℕ → ℕ → Outcome (Bool × World)
modbus_write env w packet packet_length =
    let hndl = record w.hndl { state = sending_request; pdu_length = 0 } in
    write_framed env (record w { hndl = hndl }) hndl.type packet packet_length
