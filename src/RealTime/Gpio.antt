-- ===== src/RealTime/Gpio.antt =====
-- mt3620-gpio.c: which block of pins a pin belongs to, and the registers that are written for it.
pub mod Blocks
use modbus_sphere_library.Base.{
  ℕ, all_below, all_below_sound, zero, suc, ◌+◌, ◌-◌, ◌/◌, ◌%◌, ◌^◌, ◌<◌, ◌≤◌, ◌≡◌, ◌≢◌, refl, sym,
  ap, ◌∙◌, List, [], ◌∷◌, Bool, true, false, Option, none, some, ltb, ◌==◌, if◌then◌else◌,
  get_elem?, set, get_elem?-set_self, get_elem?-set_ne, length, length-set, arith, inl, inr,
  Bool-cases,
}

abbrev pub gpio_count : ℕ
gpio_count = 76

-- `GpioBlockType`.
pub data GpioBlockType : Type 0 where
  adc pwm grp isu i2s : GpioBlockType

-- `GpioBlock`.
pub record GpioBlock : Type 0 where
  pub base_addr : ℕ
  pub type : GpioBlockType
  pub first_pin : ℕ
  pub pin_count : ℕ

-- The offset of the input register of a block of this type.
unfoldable pub din_reg : GpioBlockType → ℕ
din_reg adc = 0x04
din_reg pwm = 0x04
din_reg grp = 0x04
din_reg isu = 0x0c
din_reg i2s = 0x00

-- A write of a register: its address and the value.
pub record RegWrite : Type 0 where
  pub address : ℕ
  pub value : ℕ

-- `pins`, which has 76 entries; `none` for NULL. The block of a pin and its mask.
unfoldable pub pin_id_to_block : List (Option GpioBlock) → ℕ → Option (GpioBlock × ℕ)
pin_id_to_block pins gpio_id = elim (get_elem? pins gpio_id) [
  | none ↦ none
  | some none ↦ none
  | some (some block) ↦ some (block, 2 ^ (gpio_id - block.first_pin) % 2 ^ 32)
]

abbrev pub dout_set : ℕ
dout_set = 0x14

abbrev pub dout_reset : ℕ
dout_reset = 0x18

abbrev pub oe_set : ℕ
oe_set = 0x24

abbrev pub oe_reset : ℕ
oe_reset = 0x28

abbrev pub ies_set : ℕ
ies_set = 0x64

abbrev pub ies_reset : ℕ
ies_reset = 0x68

unfoldable pub write_reg : GpioBlock → ℕ → ℕ → RegWrite
write_reg block reg value = record { address = (block.base_addr + reg) % 2 ^ 32; value = value }

-- The writes; `none` for -ENOENT.
unfoldable pub configure_pin : List (Option GpioBlock) → ℕ → Bool → Option (List RegWrite)
unfolding pin_id_to_block write_reg
configure_pin pins pin as_input = elim (pin_id_to_block pins pin) [
  | none ↦ none
  | some (block, mask) ↦ some (
      write_reg block oe_reset mask
      ∷ write_reg block ies_reset mask
      ∷ (if as_input then write_reg block ies_set mask ∷ [] else write_reg block oe_set mask ∷ []))
]

unfoldable pub gpio_write : List (Option GpioBlock) → ℕ → Bool → Option (List RegWrite)
unfolding pin_id_to_block write_reg
gpio_write pins pin state = elim (pin_id_to_block pins pin) [
  | none ↦ none
  | some (block, mask) ↦ some (write_reg block (if state then dout_set else dout_reset) mask ∷ [])
]

-- `reg_at` is what the registers hold. The mask has one bit.
unfoldable pub gpio_read : (ℕ → ℕ) → List (Option GpioBlock) → ℕ → Option Bool
unfolding pin_id_to_block din_reg
gpio_read reg_at pins pin = elim (pin_id_to_block pins pin) [
  | none ↦ none
  | some (block, mask) ↦
      some (reg_at ((block.base_addr + din_reg block.type) % 2 ^ 32) / mask % 2 == 1)
]

pub data GpioResult : Type 0 where
  done no_such_pin already_there : GpioResult

-- The loop over `n` pins from `pin` on.
unfoldable pub add_pins :
    List (Option GpioBlock) → GpioBlock → ℕ → ℕ → GpioResult × List (Option GpioBlock)
add_pins pins block pin zero = (done, pins)
add_pins pins block pin (suc n) =
    let rest = add_pins (set pins pin (some block)) block (pin + 1) n in
    elim (get_elem? pins pin) [
      | some (some other) ↦ (already_there, pins)
      | some none ↦ rest
      | none ↦ rest
    ]

unfoldable pub add_block :
    List (Option GpioBlock) → GpioBlock → GpioResult × List (Option GpioBlock)
unfolding add_pins
add_block pins block =
    if ltb gpio_count (block.first_pin + block.pin_count)
    then (no_such_pin, pins)
    else add_pins pins block block.first_pin block.pin_count
