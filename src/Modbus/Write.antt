-- ===== src/Modbus/Write.antt =====
-- The functions of modbus.c that write coils and registers.
pub mod Tcp
pub mod Safety
pub mod Coils
use modbus_sphere_library.Base.{
  ℕ, ◌+◌, ◌*◌, ◌/◌, ◌%◌, ◌^◌, List, [], ◌∷◌, Bool, ◌==◌, if◌then◌else◌,
}
use modbus_sphere_library.Outcome.{Outcome, ◌>>=◌}
use modbus_sphere_library.Memory.{uninit, read_bytes, write_bytes, write_byte}
use modbus_sphere_library.Modbus.Types.{
  Env, World, write_single_coil_code, write_single_holding_register_code, write_multiple_coils_code,
  write_multiple_holding_registers_code, max_pdu_length,
}
use modbus_sphere_library.Modbus.Request.{Reply, when_idle, modbus_header, exchange, copy_echo}

-- `(uint8_t)(numToWrite / 8 + (numToWrite & 0x7) ? 1 : 0)`: the sum is the condition of `?:`.
unfoldable pub coil_byte_count : ℕ → ℕ
coil_byte_count num_to_write = if num_to_write / 8 + num_to_write % 8 == 0 then 0 else 1

-- The bytes of registers, high byte first.
unfoldable pub register_bytes : List ℕ → List ℕ
register_bytes [] = []
register_bytes (r ∷ rs) = (r / 2 ^ 8 % 2 ^ 8) ∷ (r % 2 ^ 8) ∷ register_bytes rs

module _ (env : Env) (w : World) (slave address : ℕ) where
  unfoldable pub write_single_coil : Bool → List ℕ → ℕ → Outcome Reply
  write_single_coil bit read_array timeout = when_idle w read_array (
      exchange env w
        (modbus_header slave write_single_coil_code address (if bit then 0xff00 else 0x00)) 6
        write_single_coil_code read_array timeout copy_echo)

  unfoldable pub write_single_holding_register : ℕ → List ℕ → ℕ → Outcome Reply
  write_single_holding_register mb_register read_array timeout = when_idle w read_array (
      exchange env w (modbus_header slave write_single_holding_register_code address mb_register) 6
        write_single_holding_register_code read_array timeout copy_echo)

  unfoldable pub write_multiple_coils : ℕ → List ℕ → List ℕ → ℕ → Outcome Reply
  write_multiple_coils num_to_write bit_array read_array timeout =
      let count = coil_byte_count num_to_write in
      when_idle w read_array (do
        headed ←
            write_bytes (uninit env.stack max_pdu_length) 0
              (modbus_header slave write_multiple_coils_code address num_to_write)
        counted ← write_byte headed 6 count
        bits ← read_bytes bit_array 0 count
        message ← write_bytes counted 7 bits
        exchange env w message (7 + count) write_multiple_coils_code read_array timeout copy_echo)

  -- The length of the packet is cast to `uint8_t`.
  unfoldable pub write_multiple_holding_registers : ℕ → List ℕ → List ℕ → ℕ → Outcome Reply
  write_multiple_holding_registers num_to_write register_array read_array timeout =
      let count = num_to_write * 2 % 2 ^ 8 in
      when_idle w read_array (do
        headed ←
            write_bytes (uninit env.stack max_pdu_length) 0
              (modbus_header slave write_multiple_holding_registers_code address num_to_write)
        counted ← write_byte headed 6 count
        values ← read_bytes register_array 0 (count / 2)
        message ← write_bytes counted 7 (register_bytes values)
        exchange env w message ((7 + count) % 2 ^ 8) write_multiple_holding_registers_code
            read_array timeout copy_echo)
