-- ===== src/Tests/Gpio.antt =====
-- A block of four pins that is added to the pins of the core.
use modbus_sphere_library.Base.{
  ◌≡◌, refl, List, [], ◌∷◌, true, Option, none, some, arith, replicate,
}
use modbus_sphere_library.RealTime.Gpio.{GpioBlock, grp, add_block, done, gpio_write}
use modbus_sphere_library.RealTime.Gpio.Blocks.{gpio_write-add_block}

abbrev block : GpioBlock
block = record { base_addr = 0x38010000; type = grp; first_pin = 4; pin_count = 4 }

abbrev no_pins : List (Option GpioBlock)
no_pins = replicate 76 none

abbrev pins : List (Option GpioBlock)
pins =
    none
    ∷ none
    ∷ none
    ∷ none
    ∷ some block
    ∷ some block
    ∷ some block
    ∷ some block
    ∷ replicate 68 none

pins_added : add_block no_pins block ≡ (done, pins)
unfolding add_block
pins_added = refl

gpio_write-add_block_example :
    gpio_write pins 6 true ≡ some (record { address = 0x38010014; value = 4 } ∷ [])
gpio_write-add_block_example =
    gpio_write-add_block no_pins pins block 2 true refl pins_added (omega arith) (omega arith)
