-- ===== src/RealTime/Config.antt =====
-- The serial settings on their way from `WriteSerialConfig` (modbus.c) to `SetSerialConfig`
-- (mt3620-uart.c).
use modbus_sphere_library.Base.{
  ℕ, ◌+◌, ◌*◌, ◌/◌, ◌%◌, ◌^◌, ◌<◌, ◌≡◌, refl, List, [], ◌∷◌, ◌++◌, Bool, true, false, Option, none,
  some, ltb, ◌==◌, if◌then◌else◌, arith, inl, inr, Bool-cases,
}
use modbus_sphere_library.Outcome.{Outcome, ok, ◌>>=◌}
use modbus_sphere_library.Memory.{read_byte}
use modbus_sphere_library.RealTime.Gpio.{RegWrite}
use modbus_sphere_library.RealTime.HalfDuplex.{HalfDuplex, enable_half_duplex}
use modbus_sphere_library.Modbus.Types.{SerialSetup, World, Env, modbus_timeout, message_send_fail}
use modbus_sphere_library.Modbus.Transport.{modbus_write}
use modbus_sphere_library.Modbus.Wait.{wait_for_data}

abbrev pub uart_cfg_message_length : ℕ
uart_cfg_message_length = 7

-- The seven bytes at their offsets.
unfoldable pub serial_config_message : SerialSetup → List ℕ
serial_config_message s =
    (s.baud_rate / 2 ^ 8 % 2 ^ 8)
    ∷ (s.baud_rate % 2 ^ 8)
    ∷ s.duplex_mode
    ∷ s.parity_state
    ∷ s.parity_mode
    ∷ s.stop_bits
    ∷ s.word_length
    ∷ []

-- `WriteSerialConfig` for the settings of the handle: its result, `receivedMessage[0]`, and the
-- state.
unfoldable pub write_serial_config :
    Env → World → SerialSetup → ℕ → ℕ → Outcome (Bool × (ℕ × World))
write_serial_config env w settings received_message timeout = do
  (sent, asked) ←
      modbus_write env (record w { hndl = record w.hndl { is_cfg = true } })
        (serial_config_message settings) uart_cfg_message_length
  (if sent
      then (do
        (received, answered) ← wait_for_data env asked timeout
        (if received
            then ok (received_message == 0, (received_message, answered))
            else ok (false, (modbus_timeout, answered))))
      else ok (false, (message_send_fail, asked)))

-- What `SetSerialConfig` leaves: the line control register, the divisor, the static variables of
-- half duplex, and what has been written to the registers of the pins.
pub record LineSettings : Type 0 where
  pub lcr : ℕ
  pub upper_divisor : ℕ
  pub lower_divisor : ℕ
  pub half_duplex : HalfDuplex
  pub pin_writes : List RegWrite

unfoldable pub lcr_bits : ℕ → ℕ → ℕ → ℕ → ℕ
lcr_bits parity_state parity_mode stop_bits word_length =
    (if parity_state == 0 then 0 else 2 ^ 3)
    + (if parity_mode == 0 then 0 else 2 ^ 4)
    + (if stop_bits == 2 then 2 ^ 2 else 0)
    + (if word_length == 6
        then 1
        else if word_length == 7
        then 2
        else if word_length == 8
        then 3
        else 0)

-- `none` for false. Half duplex can be switched on, and else stays as it was `before`.
unfoldable pub set_serial_config : HalfDuplex → List ℕ → ℕ → ℕ → Outcome (Option LineSettings)
set_serial_config before config_setup len id =
    if ltb len uart_cfg_message_length then ok none else (do
      upper ← read_byte config_setup 0
      lower ← read_byte config_setup 1
      duplex ← read_byte config_setup 2
      parity_state ← read_byte config_setup 3
      parity_mode ← read_byte config_setup 4
      stop_bits ← read_byte config_setup 5
      word_length ← read_byte config_setup 6
      ok (
          some (record {
            lcr = lcr_bits parity_state parity_mode stop_bits word_length;
            upper_divisor = upper;
            lower_divisor = lower;
            half_duplex = if duplex == 0 then before else (enable_half_duplex before id).0;
            pin_writes = if duplex == 0 then [] else (enable_half_duplex before id).1;
          })))

-- From the message that `WriteSerialConfig` sends for a 16-bit divisor and 5 to 8 data bits,
-- `SetSerialConfig` takes the divisor, and a line control register with the number of data bits less
-- 5 in bits 0 and 1, two stop bits in bit 2, parity in bit 3 and even parity in bit 4. It switches
-- half duplex on for the UART if that is asked for, and leaves it as it was otherwise.
pub set_serial_config-serial_config_message :
    (before : HalfDuplex) (id : ℕ) (s : SerialSetup) (rest : List ℕ)
    → s.baud_rate < 2 ^ 16
    → s.word_length < 9
    → 4 < s.word_length
    → (line : LineSettings) × (set_serial_config before (serial_config_message s ++ rest) 7 id
        ≡ ok (some line))
      × (line.upper_divisor * 2 ^ 8 + line.lower_divisor ≡ s.baud_rate)
      × (line.half_duplex.enabled ≡ (if s.duplex_mode == 0 then before.enabled else true))
      × (line.half_duplex.uart ≡ (if s.duplex_mode == 0 then before.uart else some id))
      × (line.lcr % 2 ^ 2 + 5 ≡ s.word_length)
      × ((line.lcr / 2 ^ 2 % 2 == 1) ≡ (s.stop_bits == 2))
      × ((line.lcr / 2 ^ 3 % 2 == 0) ≡ (s.parity_state == 0))
      × ((line.lcr / 2 ^ 4 % 2 == 0) ≡ (s.parity_mode == 0))
unfolding set_serial_config serial_config_message lcr_bits read_byte enable_half_duplex
set_serial_config-serial_config_message before id s rest h long short = (
  record {
    lcr = lcr_bits s.parity_state s.parity_mode s.stop_bits s.word_length;
    upper_divisor = s.baud_rate / 2 ^ 8 % 2 ^ 8;
    lower_divisor = s.baud_rate % 2 ^ 8;
    half_duplex = if s.duplex_mode == 0 then before else (enable_half_duplex before id).0;
    pin_writes = if s.duplex_mode == 0 then [] else (enable_half_duplex before id).1;
  },
  refl,
  omega arith,
  elim (Bool-cases (s.duplex_mode == 0)) [ inl e ↦ rw e refl | inr e ↦ rw e refl ],
  elim (Bool-cases (s.duplex_mode == 0)) [ inl e ↦ rw e refl | inr e ↦ rw e refl ],
  ground arith,
  ground arith,
  ground arith,
  ground arith,
)
