-- ===== src/Modbus/File.antt =====
-- File records in modbus.c: the builders of sub-requests, `ReadFile` and `WriteFile`.
use modbus_sphere_library.Base.{ℕ, ◌+◌, ◌*◌, ◌/◌, ◌%◌, ◌^◌, List, [], ◌∷◌, ltb, ◌==◌, if◌then◌else◌}
use modbus_sphere_library.Outcome.{Outcome, ok, ◌>>=◌}
use modbus_sphere_library.Memory.{uninit, read_bytes, write_bytes}
use modbus_sphere_library.Modbus.Types.{
  Env, World, read_file_code, write_file_code, max_pdu_length, pdu_header_length, message_send_fail,
}
use modbus_sphere_library.Modbus.Request.{Reply, when_idle, fail_with, exchange, copy_data}
use modbus_sphere_library.Modbus.Write.{register_bytes}

-- The seven bytes of a sub-request; the reference type is 6.
unfoldable pub sub_request : ℕ → ℕ → ℕ → List ℕ
sub_request file_number record_number record_length =
    6
    ∷ (file_number / 2 ^ 8 % 2 ^ 8)
    ∷ (file_number % 2 ^ 8)
    ∷ (record_number / 2 ^ 8 % 2 ^ 8)
    ∷ (record_number % 2 ^ 8)
    ∷ 0
    ∷ record_length
    ∷ []

-- The returned index, a `uint8_t`, and the array.
unfoldable pub read_file_sub_request_builder : List ℕ → ℕ → ℕ → ℕ → ℕ → Outcome (ℕ × List ℕ)
read_file_sub_request_builder message_array index file_number record_number record_length = do
  message ← write_bytes message_array index (sub_request file_number record_number record_length)
  ok ((index + 7) % 2 ^ 8, message)

unfoldable pub write_file_sub_request_builder :
    List ℕ → ℕ → ℕ → ℕ → ℕ → List ℕ → Outcome (ℕ × List ℕ)
write_file_sub_request_builder message_array index file_number record_number record_length records =
    do
      headed ← write_bytes message_array index (sub_request file_number record_number record_length)
      values ← read_bytes records 0 record_length
      message ← write_bytes headed (index + 7) (register_bytes values)
      ok ((index + 7 + record_length * 2) % 2 ^ 8, message)

-- The loop over the record lengths of the sub-requests, at index `i`; a `uint16_t`.
unfoldable pub expected_message_length : ℕ → List ℕ → ℕ → ℕ
expected_message_length i [] total = total
expected_message_length i (byte ∷ bytes) total =
    expected_message_length (i + 1) bytes
      (if i % 7 == 6 then (total + (byte * 2 + 2)) % 2 ^ 16 else total)

module _ (env : Env) (w : World) (slave : ℕ) where
  unfoldable pub read_file : List ℕ → ℕ → List ℕ → ℕ → Outcome Reply
  read_file message_array message_length read_array timeout = when_idle w read_array (do
    headed ←
        write_bytes (uninit env.stack (max_pdu_length + pdu_header_length)) 0
          (slave ∷ read_file_code ∷ message_length ∷ [])
    (if ltb message_length max_pdu_length
        then (do
          requests ← read_bytes message_array 0 message_length
          message ← write_bytes headed 3 requests
          exchange env w message (3 + message_length) read_file_code read_array timeout
              (copy_data (expected_message_length 0 requests 0)))
        else fail_with message_send_fail read_array w))

  unfoldable pub write_file : List ℕ → ℕ → List ℕ → ℕ → Outcome Reply
  write_file message_array message_length read_array timeout = when_idle w read_array (do
    headed ←
        write_bytes (uninit env.stack max_pdu_length) 0
          (slave ∷ write_file_code ∷ message_length ∷ [])
    requests ← read_bytes message_array 0 message_length
    message ← write_bytes headed 3 requests
    exchange env w message (pdu_header_length + message_length) write_file_code read_array timeout
        (copy_data message_length))
