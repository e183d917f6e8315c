-- ===== src/RealTime/HalfDuplex.antt =====
-- mt3620-uart.c: `Uart_EnableHalfDuplex`, `Uart_DisableHalfDuplex` and `Uart_SetHalfDuplexMode`.
use modbus_sphere_library.Base.{
  ℕ, List, [], ◌++◌, Bool, true, false, Option, none, some, if◌then◌else◌,
}
use modbus_sphere_library.RealTime.Gpio.{
  GpioBlock, grp, RegWrite, add_block, configure_pin, gpio_write,
}

abbrev pub half_duplex_pin : ℕ
half_duplex_pin = 0

-- `hdControlBlock`.
abbrev pub hd_control_block : GpioBlock
hd_control_block = record { base_addr = 0x38010000; type = grp; first_pin = 0; pin_count = 4 }

-- `halfDuplexUart` (`none` for -1), `halfDuplexEnabled`, `firstTime`, and the pins.
pub record HalfDuplex : Type 0 where
  pub uart : Option ℕ
  pub enabled : Bool
  pub first_time : Bool
  pub pins : List (Option GpioBlock)

-- The results of the calls are not used.
unfoldable pub writes_of : Option (List RegWrite) → List RegWrite
writes_of none = []
writes_of (some writes) = writes

unfoldable pub set_half_duplex_mode : List (Option GpioBlock) → Bool → List RegWrite
unfolding writes_of
set_half_duplex_mode pins mode = writes_of (gpio_write pins half_duplex_pin mode)

unfoldable pub enable_half_duplex : HalfDuplex → ℕ → HalfDuplex × List RegWrite
unfolding set_half_duplex_mode writes_of
enable_half_duplex s id =
    let (result, added) = add_block s.pins hd_control_block in
    let pins' = if s.first_time then added else s.pins in
    (
      record { uart = some id; enabled = true; first_time = false; pins = pins' },
      if s.first_time
          then writes_of (configure_pin pins' half_duplex_pin false)
            ++ set_half_duplex_mode pins' false
          else [],
    )

unfoldable pub disable_half_duplex : HalfDuplex → HalfDuplex
disable_half_duplex s = record s { uart = none; enabled = false }
