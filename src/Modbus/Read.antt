-- ===== src/Modbus/Read.antt =====
-- The functions of modbus.c that read coils, inputs and registers.
pub mod Tcp
pub mod Safety
use modbus_sphere_library.Base.{
  ℕ, ◌+◌, ◌*◌, ◌/◌, ◌%◌, ◌^◌, List, Bool, false, ltb, ◌==◌, if◌then◌else◌,
}
use modbus_sphere_library.Outcome.{Outcome, ok, ◌>>=◌}
use modbus_sphere_library.Memory.{read_byte, read_bytes, write_bytes}
use modbus_sphere_library.Modbus.Types.{
  Env, World, read_coils_code, read_discrete_inputs_code, read_multiple_holding_registers_code,
  read_input_registers_code, pdu_header_length, modbus_timeout,
}
use modbus_sphere_library.Modbus.Wait.{wait_for_data}
use modbus_sphere_library.Modbus.Request.{
  Reply, when_idle, fail_with, modbus_header, exchange, copy_data, copy_registers,
}

-- `bytesToRead`, a `uint8_t`.
unfoldable pub bytes_to_read : ℕ → ℕ
bytes_to_read bits =
    let whole = bits / 8 % 2 ^ 8 in if bits % 8 == 0 then whole else (whole + 1) % 2 ^ 8

module _ (env : Env) (w : World) (slave address : ℕ) where
  unfoldable pub read_coils : ℕ → List ℕ → ℕ → Outcome Reply
  read_coils bits read_array timeout = when_idle w read_array (
      exchange env w (modbus_header slave read_coils_code address bits) 6 read_coils_code read_array
        timeout (copy_data (bytes_to_read bits)))

  unfoldable pub read_discrete_inputs : ℕ → List ℕ → ℕ → Outcome Reply
  read_discrete_inputs bits read_array timeout = when_idle w read_array (
      exchange env w (modbus_header slave read_discrete_inputs_code address bits) 6
        read_discrete_inputs_code read_array timeout (copy_data (bytes_to_read bits)))

  unfoldable pub read_multiple_holding_registers : ℕ → List ℕ → ℕ → Outcome Reply
  read_multiple_holding_registers count read_array timeout = when_idle w read_array (
      exchange env w (modbus_header slave read_multiple_holding_registers_code address count) 6
        read_multiple_holding_registers_code read_array timeout
        (copy_registers (count * 2 % 2 ^ 16)))

  unfoldable pub read_input_registers : ℕ → List ℕ → ℕ → Outcome Reply
  read_input_registers count read_array timeout = when_idle w read_array (
      exchange env w (modbus_header slave read_input_registers_code address count) 6
        read_input_registers_code read_array timeout (copy_registers (count * 2 % 2 ^ 16)))

-- `PassiveRead` never returns true.
unfoldable pub passive_read : Env → World → List ℕ → ℕ → ℕ → Outcome Reply
passive_read env w read_array bytes timeout = do
  (received, w') ← wait_for_data env w timeout
  (if received
      then (do
        counted ← read_byte w'.hndl.pdu 2
        taken ←
            read_bytes w'.hndl.pdu pdu_header_length (if ltb counted bytes then counted else bytes)
        filled ← write_bytes read_array 0 taken
        ok (record { result = false; read_array = filled; world = w' }))
      else fail_with modbus_timeout read_array w')
