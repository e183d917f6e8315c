-- ===== src/Modbus/Request.antt =====
-- What every request function of modbus.c has in common: the test for an idle handle, the header,
-- the exchange with the device, and the checks of the response.
pub mod Checks
pub mod Exchange
pub mod Success
pub mod Safety
use modbus_sphere_library.Base.{
  ℕ, ◌+◌, ◌-◌, ◌*◌, ◌/◌, ◌%◌, ◌^◌, List, [], ◌∷◌, Bool, true, false, ◌==◌, if◌then◌else◌,
}
use modbus_sphere_library.Outcome.{Outcome, ok, ◌>>=◌}
use modbus_sphere_library.Memory.{read_byte, read_bytes, write_byte, write_bytes}
use modbus_sphere_library.Modbus.Types.{
  Modbus, Env, World, is_idle, pdu_header_length, modbus_timeout, message_send_fail,
  invalid_response, write_response_start, write_response_bytes,
}
use modbus_sphere_library.Modbus.Transport.{modbus_write}
use modbus_sphere_library.Modbus.Wait.{wait_for_data, not_ready_reason}

-- What a request function leaves: its result, the caller's array, and the state.
pub record Reply : Type 0 where
  pub result : Bool
  pub read_array : List ℕ
  pub world : World

-- `readArray[0] = code; return false;`
unfoldable pub fail_with : ℕ → List ℕ → World → Outcome Reply
fail_with code read_array w = do
  stored ← write_byte read_array 0 code
  ok (record { result = false; read_array = stored; world = w })

-- The test at the head of each function.
unfoldable pub when_idle : World → List ℕ → Outcome Reply → Outcome Reply
when_idle w read_array request =
    if is_idle w.hndl.state then request else fail_with (not_ready_reason w.hndl) read_array w

-- `SET_MODBUS_HEADER`.
unfoldable pub modbus_header : ℕ → ℕ → ℕ → ℕ → List ℕ
modbus_header slave f_code d e =
    slave ∷ f_code ∷ (d / 2 ^ 8 % 2 ^ 8) ∷ (d % 2 ^ 8) ∷ (e / 2 ^ 8 % 2 ^ 8) ∷ (e % 2 ^ 8) ∷ []

-- The tests on `hndl->pdu` once data was received.
unfoldable pub check_response :
    World → ℕ → List ℕ → (World → List ℕ → Outcome (List ℕ)) → Outcome Reply
check_response w f_code read_array copy = do
  received ← read_byte w.hndl.pdu 1
  (if received / 2 ^ 7 % 2 == 1
      then (do code ← read_byte w.hndl.pdu 2; fail_with code read_array w)
      else if received == f_code
      then (do
        filled ← copy w read_array
        ok (record { result = true; read_array = filled; world = w }))
      else fail_with invalid_response read_array w)

-- From `hndl->isCFG = false` to the end of a request function.
unfoldable pub exchange :
    Env → World → List ℕ → ℕ → ℕ → List ℕ → ℕ → (World → List ℕ → Outcome (List ℕ)) → Outcome Reply
exchange env w message length f_code read_array timeout copy = do
  (sent, asked) ←
      modbus_write env (record w { hndl = record w.hndl { is_cfg = false } }) message length
  (if sent
      then (do
        (received, answered) ← wait_for_data env asked timeout
        (if received
            then check_response answered f_code read_array copy
            else fail_with modbus_timeout read_array answered))
      else fail_with message_send_fail read_array asked)

-- `PduDataLength`; `expected` is only logged.
unfoldable pub pdu_data_length : Modbus → ℕ → ℕ
pdu_data_length hndl expected = (hndl.pdu_length + 2 ^ 16 - pdu_header_length) % 2 ^ 16

-- `memcpy(readArray, &hndl->pdu[PDU_HEADER_LENGTH], PduDataLength(hndl, expected))`.
unfoldable pub copy_data : ℕ → World → List ℕ → Outcome (List ℕ)
copy_data expected w read_array = do
  bytes ← read_bytes w.hndl.pdu pdu_header_length (pdu_data_length w.hndl expected)
  write_bytes read_array 0 bytes

-- Pairs of bytes as registers, high byte first.
unfoldable pub registers : List ℕ → List ℕ
registers [] = []
registers (high ∷ []) = []
registers (high ∷ low ∷ bytes) = (high * 2 ^ 8 + low) ∷ registers bytes

-- The loop that fills an array of `uint16_t`.
unfoldable pub copy_registers : ℕ → World → List ℕ → Outcome (List ℕ)
copy_registers expected w read_array = do
  bytes ← read_bytes w.hndl.pdu pdu_header_length (pdu_data_length w.hndl expected / 2 * 2)
  write_bytes read_array 0 (registers bytes)

-- `memcpy(readArray, &hndl->pdu[WRITE_RESPONSE_START], WRITE_RESPONSE_BYTES)`.
unfoldable pub copy_echo : World → List ℕ → Outcome (List ℕ)
copy_echo w read_array = do
  bytes ← read_bytes w.hndl.pdu write_response_start write_response_bytes
  write_bytes read_array 0 bytes
