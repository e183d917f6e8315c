-- ===== src/Crc/Bitwise.antt =====
-- The table of crc-util.c against the definition of the CRC, one bit at a time.
use modbus_sphere_library.Base.{
  ℕ, zero, suc, ◌+◌, ◌*◌, ◌/◌, ◌%◌, ◌^◌, ◌<◌, bit_xor, ◌≡◌, refl, sym, ap, ◌∙◌, List, [], ◌∷◌, true,
  arith, ◌==◌, ==_iff, all_below, all_below_sound, get_or, if◌then◌else◌,
}
use native.Mathlib.Nat.{pow-suc, pow-succ', mul-one, div-div-eq-div-mul}
use modbus_sphere_library.Memory.{IsBytes}
use modbus_sphere_library.Crc.Defs.{crc_table, crc_update, crc_rounds}
use modbus_sphere_library.Crc.Xor.{
  bit_xor-half, bit_xor-parity, bit_xor_assoc, bit_xor_fields, zero-bit_xor,
}

-- One bit: shift right, and subtract the reversed polynomial x^16 + x^15 + x^2 + 1 if a one
-- falls out.
pub shift_bit : ℕ → ℕ
shift_bit x = if x % 2 == 1 then bit_xor (x / 2) 0xa001 else x / 2

pub shift_bits : ℕ → ℕ → ℕ
unfolding shift_bit
shift_bits zero x = x
shift_bits (suc n) x = shift_bits n (shift_bit x)

-- The CRC of a sequence of bytes by its definition: add a byte, then shift eight times.
pub crc_bitwise : ℕ → List ℕ → ℕ
crc_bitwise crc [] = crc
crc_bitwise crc (byte ∷ bytes) = crc_bitwise (shift_bits 8 (bit_xor byte crc)) bytes

-- What stands above the bit that is shifted out only moves down.
shift_bit-high : (h l : ℕ) → shift_bit (bit_xor (h * 2) l) ≡ bit_xor h (shift_bit l)
unfolding shift_bit
shift_bit-high h l =
    ground (arith, bit_xor-half (h * 2) l, bit_xor-parity (h * 2) l, bit_xor_assoc h (l / 2) 0xa001)

two_pow : (h n : ℕ) → h * 2 ^ suc n ≡ h * 2 ^ n * 2
two_pow h n = omega (arith, ap (λ (t : ℕ). h * t) (pow-suc 2 n))

shift_bits-high : (n h l : ℕ) → shift_bits n (bit_xor (h * 2 ^ n) l) ≡ bit_xor h (shift_bits n l)
unfolding shift_bits
shift_bits-high zero h l = ap (λ t. bit_xor t l) (mul-one h)
shift_bits-high (suc n) h l =
    ap (λ t. shift_bits n (shift_bit (bit_xor t l))) (two_pow h n)
    ∙ ap (shift_bits n) (shift_bit-high (h * 2 ^ n) l)
    ∙ shift_bits-high n h (shift_bit l)

table_check : all_below 256 (λ i. shift_bits 8 i == get_or crc_table i 0) ≡ true
unfolding all_below shift_bits crc_table
table_check = refl

-- Each entry of the table is its index after eight shifts.
crc_table-entry : (i : ℕ) → i < 256 → shift_bits 8 i ≡ get_or crc_table i 0
crc_table-entry i h =
    (==_iff _ _).0
      (all_below_sound 256 (λ i. shift_bits 8 i == get_or crc_table i 0) i table_check h)

halve_first : (n x : ℕ) → x / 2 ^ suc n ≡ x / 2 / 2 ^ n
halve_first n x = ap (λ t. x / t) (pow-succ' 2 n) ∙ sym (div-div-eq-div-mul x 2 (2 ^ n))

-- A byte leaves what stands above the low byte alone.
byte_above : (n b c : ℕ) → b < 2 ^ n → bit_xor b c / 2 ^ n ≡ c / 2 ^ n
byte_above zero b c h = ground (arith, zero-bit_xor c)
byte_above (suc n) b c h =
    halve_first n (bit_xor b c)
    ∙ ap (λ t. t / 2 ^ n) (bit_xor-half b c)
    ∙ byte_above n (b / 2) (c / 2) (omega (arith, pow-suc 2 n))
    ∙ sym (halve_first n c)

-- One table lookup is eight single shifts.
pub crc_update_lem :
    (crc byte : ℕ) → byte < 256 → crc_update crc byte ≡ shift_bits 8 (bit_xor byte crc)
unfolding crc_update
crc_update_lem crc byte h =
    ap (bit_xor (crc / 256)) (sym (crc_table-entry (x % 256) (omega arith)))
    ∙ sym (shift_bits-high 8 (crc / 256) (x % 256))
    ∙ ap (shift_bits 8) (bit_xor_fields 8 (crc / 256) (x % 256) (omega arith) ∙ whole)
  where
    x : ℕ
    x = bit_xor byte crc

    whole : crc / 256 * 2 ^ 8 + x % 256 ≡ x
    whole = omega (arith, byte_above 8 byte crc h)

-- For a list of bytes the table-driven loop computes the CRC of the definition, whatever it starts
-- from.
pub crc_rounds-eq-crc_bitwise :
    (crc : ℕ) (bytes : List ℕ) → IsBytes bytes → crc_rounds crc bytes ≡ crc_bitwise crc bytes
unfolding crc_rounds crc_bitwise
crc_rounds-eq-crc_bitwise crc [] h = refl
crc_rounds-eq-crc_bitwise crc (byte ∷ bytes) h =
    ap (λ c. crc_rounds c bytes) (crc_update_lem crc byte h.0)
    ∙ crc_rounds-eq-crc_bitwise (shift_bits 8 (bit_xor byte crc)) bytes h.1
