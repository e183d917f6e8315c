-- ===== src/RealTime/Gpio/Blocks.antt =====
-- The pins of a block, once `Mt3620_Gpio_AddBlock` has succeeded.
use modbus_sphere_library.Base.{
  ℕ, all_below, all_below_sound, zero, suc, ◌+◌, ◌-◌, ◌%◌, ◌^◌, ◌<◌, ◌≤◌, ◌≡◌, ◌≢◌, refl, sym, ap,
  ◌∙◌, List, [], ◌∷◌, Bool, true, false, Option, none, some, ltb, ◌==◌, if◌then◌else◌, get_elem?,
  set, get_elem?-set_self, get_elem?-set_ne, length, length-set, arith,
}
use modbus_sphere_library.RealTime.Gpio.{
  GpioBlock, done, no_such_pin, already_there, add_pins, add_block, gpio_write, pin_id_to_block,
  write_reg,
}

-- A run of the loop that succeeds went on from each pin to the next.
went_on :
    (n : ℕ) (pins pins' : List (Option GpioBlock)) (block : GpioBlock) (pin : ℕ)
    → add_pins pins block pin (suc n) ≡ (done, pins')
    → add_pins (set pins pin (some block)) block (pin + 1) n ≡ (done, pins')
unfolding add_pins
went_on n pins pins' block pin e = go (get_elem? pins pin) e
  where
    go :
        (o : Option (Option GpioBlock))
        → elim o [
          | some (some other) ↦ (already_there, pins)
          | some none ↦ add_pins (set pins pin (some block)) block (pin + 1) n
          | none ↦ add_pins (set pins pin (some block)) block (pin + 1) n
        ]
          ≡ (done, pins')
        → add_pins (set pins pin (some block)) block (pin + 1) n ≡ (done, pins')
    go none h = h
    go (some none) h = h
    go (some (some other)) h = absurd (cc h)

-- The pins before the first one stay.
before_kept :
    (n : ℕ) (pins pins' : List (Option GpioBlock)) (block : GpioBlock) (first j : ℕ)
    → add_pins pins block first n ≡ (done, pins')
    → j < first
    → get_elem? pins' j ≡ get_elem? pins j
unfolding add_pins
before_kept zero pins pins' block first j e h = ap (λ r. get_elem? r.1 j) (sym e)
before_kept (suc n) pins pins' block first j e h =
    before_kept n (set pins first (some block)) pins' block (first + 1) j
      (went_on n pins pins' block first e) (omega arith)
    ∙ get_elem?-set_ne pins (some block) (let other : first ≢ j = λ same. omega arith in other)

added :
    (n : ℕ) (pins pins' : List (Option GpioBlock)) (block : GpioBlock) (first k : ℕ)
    → first + n ≤ length pins
    → add_pins pins block first n ≡ (done, pins')
    → k < n
    → get_elem? pins' (first + k) ≡ some (some block)
added zero pins pins' block first k fits e small = absurd (omega arith)
added (suc n) pins pins' block first zero fits e small =
    ap (get_elem? pins') (let same : first + 0 ≡ first = omega arith in same)
    ∙ before_kept n (set pins first (some block)) pins' block (first + 1) first
        (went_on n pins pins' block first e) (omega arith)
    ∙ get_elem?-set_self pins first (some block) (omega arith)
added (suc n) pins pins' block first (suc k) fits e small =
    ap (get_elem? pins') (let same : first + suc k ≡ first + 1 + k = omega arith in same)
    ∙ added n (set pins first (some block)) pins' block (first + 1) k
        (omega (arith, length-set pins first (some block))) (went_on n pins pins' block first e)
        (omega arith)

masks_fit : all_below 32 (λ k. (2 ^ k % 2 ^ 32) == 2 ^ k) ≡ true
unfolding all_below
masks_fit = refl

mask : (k : ℕ) → k < 32 → 2 ^ k % 2 ^ 32 ≡ 2 ^ k
mask k h =
    let fits : ((2 ^ k % 2 ^ 32) == 2 ^ k) ≡ true =
      all_below_sound 32 (λ k. (2 ^ k % 2 ^ 32) == 2 ^ k) k masks_fit h in
    ground arith

done-add_pins :
    (pins pins' : List (Option GpioBlock)) (block : GpioBlock)
    → add_block pins block ≡ (done, pins')
    → (block.first_pin + block.pin_count ≤ 76)
      × (add_pins pins block block.first_pin block.pin_count ≡ (done, pins'))
unfolding add_block
done-add_pins pins pins' block e = go (ltb 76 (block.first_pin + block.pin_count)) refl e
  where
    go :
        (b : Bool)
        → ltb 76 (block.first_pin + block.pin_count) ≡ b
        → (if b then (no_such_pin, pins) else add_pins pins block block.first_pin block.pin_count)
          ≡ (done, pins')
        → (block.first_pin + block.pin_count ≤ 76)
          × (add_pins pins block block.first_pin block.pin_count ≡ (done, pins'))
    go true h k = absurd (cc k)
    go false h k = (ground arith, k)

-- After `Mt3620_Gpio_AddBlock` has succeeded on the 76 pins, `Mt3620_Gpio_Write` to the pin number
-- `k` of the block writes the mask with the bit `k`, below 32, alone, to the set register of that
-- block for true, and to its reset register for false.
pub gpio_write-add_block :
    (pins pins' : List (Option GpioBlock)) (block : GpioBlock) (k : ℕ) (state : Bool)
    → length pins ≡ 76
    → add_block pins block ≡ (done, pins')
    → k < block.pin_count
    → k < 32
    → gpio_write pins' (block.first_pin + k) state
      ≡ some (
          record {
            address = (block.base_addr + (if state then 0x14 else 0x18)) % 2 ^ 32;
            value = 2 ^ k;
          }
          ∷ [])
unfolding gpio_write pin_id_to_block write_reg
gpio_write-add_block pins pins' block k state size e small below =
    let (inside, looped) = done-add_pins pins pins' block e in
    let entry =
      added block.pin_count pins pins' block block.first_pin k (omega arith) looped small in
    let index : block.first_pin + k - block.first_pin ≡ k = omega arith in
    rw (gpio_write, pin_id_to_block, entry, index, mask k below)
      (elim state [ true ↦ refl | false ↦ refl ])
