-- ===== src/Crc/Xor.antt =====
-- Laws of exclusive or at variables, from the recursion on binary digits.
use Prim.Native.Nat.{differ, digits, bit_xor-bitwise}
use native.Mathlib.Nat.{pow-suc}
use modbus_sphere_library.Base.{
  ℕ, zero, suc, ◌+◌, ◌*◌, ◌/◌, ◌%◌, ◌^◌, ◌≤◌, ◌<◌, bit_xor, ◌≡◌, refl, ap, arith,
}

abbrev xor_digits : ℕ → ℕ → ℕ → ℕ
xor_digits = digits (λ y. y) differ

-- Fuel beyond the first number changes nothing.
xor_digits_fuel : (f a b : ℕ) → a ≤ f → xor_digits f a b ≡ xor_digits a a b
xor_digits_fuel f a b h = more a f b h a (omega arith)
  where
    more :
        (x fuel y : ℕ)
        → x ≤ fuel
        → (least : ℕ) → x ≤ least
        → xor_digits fuel x y ≡ xor_digits least x y
    more (suc x) (suc fuel) y enough (suc least) fits =
        omega (arith, more (suc x / 2) fuel (y / 2) (omega arith) least (omega arith))
    more (suc x) zero y enough least fits = absurd (omega arith)
    more (suc x) (suc fuel) y enough zero fits = absurd (omega arith)
    more zero (suc fuel) y enough zero fits = refl
    more zero (suc fuel) y enough (suc least) fits = refl
    more zero zero y enough (suc least) fits = refl
    more zero zero y enough zero fits = refl

differ_digits : (x y : ℕ) → x < 2 → y < 2 → differ x y ≡ (x + y) % 2
differ_digits zero y p q = omega arith
differ_digits (suc zero) zero p q = refl
differ_digits (suc zero) (suc zero) p q = refl
differ_digits (suc zero) (suc (suc y)) p q = absurd (omega arith)
differ_digits (suc (suc x)) y p q = absurd (omega arith)

pub zero-bit_xor : (b : ℕ) → bit_xor 0 b ≡ b
zero-bit_xor b = bit_xor-bitwise 0 b

pub bit_xor_step : (a b : ℕ) → bit_xor a b ≡ bit_xor (a / 2) (b / 2) * 2 + (a % 2 + b % 2) % 2
bit_xor_step zero b = omega (arith, zero-bit_xor b, zero-bit_xor (b / 2))
bit_xor_step (suc a) b = omega (
  arith,
  bit_xor-bitwise (suc a) b,
  bit_xor-bitwise (suc a / 2) (b / 2),
  xor_digits_fuel a (suc a / 2) (b / 2) (omega arith),
  differ_digits (suc a % 2) (b % 2) (omega arith) (omega arith),
)

pub bit_xor-half : (a b : ℕ) → bit_xor a b / 2 ≡ bit_xor (a / 2) (b / 2)
bit_xor-half a b = omega (arith, bit_xor_step a b)

pub bit_xor-parity : (a b : ℕ) → bit_xor a b % 2 ≡ (a % 2 + b % 2) % 2
bit_xor-parity a b = omega (arith, bit_xor_step a b)

xor_assoc_fuel :
    (n a b c : ℕ) → a ≤ n → b ≤ n → c ≤ n → bit_xor (bit_xor a b) c ≡ bit_xor a (bit_xor b c)
xor_assoc_fuel zero zero zero zero p q r = refl
xor_assoc_fuel zero zero zero (suc c) p q r = absurd (omega arith)
xor_assoc_fuel zero zero (suc b) c p q r = absurd (omega arith)
xor_assoc_fuel zero (suc a) b c p q r = absurd (omega arith)
xor_assoc_fuel (suc n) a b c p q r = ground (
  arith,
  bit_xor_step (bit_xor a b) c,
  bit_xor_step a (bit_xor b c),
  bit_xor-half a b,
  bit_xor-half b c,
  bit_xor-parity a b,
  bit_xor-parity b c,
  xor_assoc_fuel n (a / 2) (b / 2) (c / 2) (omega arith) (omega arith) (omega arith),
)

pub bit_xor_assoc : (a b c : ℕ) → bit_xor (bit_xor a b) c ≡ bit_xor a (bit_xor b c)
bit_xor_assoc a b c = xor_assoc_fuel (a + b + c) a b c (omega arith) (omega arith) (omega arith)

xor_zero_fuel : (n a : ℕ) → a ≤ n → bit_xor a 0 ≡ a
xor_zero_fuel n zero h = refl
xor_zero_fuel zero (suc a) h = absurd (omega arith)
xor_zero_fuel (suc n) (suc a) h =
    omega (arith, bit_xor_step (suc a) 0, xor_zero_fuel n (suc a / 2) (omega arith))

pub bit_xor-zero : (a : ℕ) → bit_xor a 0 ≡ a
bit_xor-zero a = xor_zero_fuel a a (omega arith)

xor_lt_fuel : (k a b : ℕ) → a < 2 ^ k → b < 2 ^ k → bit_xor a b < 2 ^ k
xor_lt_fuel zero a b p q = omega (
  arith,
  bit_xor_step a b,
  zero-bit_xor 0,
  ap (λ t. bit_xor t (b / 2)) (let e : a / 2 ≡ 0 = omega arith in e),
  ap (λ t. bit_xor 0 t) (let e : b / 2 ≡ 0 = omega arith in e),
)
xor_lt_fuel (suc k) a b p q = omega (
  arith,
  bit_xor_step a b,
  pow-suc 2 k,
  xor_lt_fuel k (a / 2) (b / 2) (omega (arith, pow-suc 2 k)) (omega (arith, pow-suc 2 k)),
)

-- Numbers of `k` bits are closed under exclusive or.
pub bit_xor-lt : (k a b : ℕ) → a < 2 ^ k → b < 2 ^ k → bit_xor a b < 2 ^ k
bit_xor-lt = xor_lt_fuel

-- Fields that do not overlap add up.
pub bit_xor_fields : (k h l : ℕ) → l < 2 ^ k → bit_xor (h * 2 ^ k) l ≡ h * 2 ^ k + l
bit_xor_fields zero h l p = ground (arith, bit_xor-zero h)
bit_xor_fields (suc k) h l p = ground (
  arith,
  bit_xor_step (h * 2 ^ suc k) l,
  pow-suc 2 k,
  ap (λ (t : ℕ). h * t) (pow-suc 2 k),
  bit_xor_fields k h (l / 2),
)
