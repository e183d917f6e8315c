-- ===== src/RealTime/Text.antt =====
-- mt3620-uart.c: the text output of the driver of the UART.
pub mod Digits
pub mod Reversal
pub mod Printing
pub mod Hexadecimal
use modbus_sphere_library.Base.{
  ℕ, zero, suc, ◌+◌, ◌-◌, ◌*◌, ◌/◌, ◌%◌, ◌^◌, List, [], ◌∷◌, Bool, true, false, ltb, ◌==◌, length,
  if◌then◌else◌,
}
use modbus_sphere_library.Outcome.{Outcome, ok, fault, hang, ◌>>=◌}
use modbus_sphere_library.Memory.{uninit, read_byte, write_byte}
use modbus_sphere_library.RealTime.Uart.{UartRing, uart_enqueue_data}

-- An `int`, of 32 bits: `negsuc n` is `- (n + 1)`.
pub data ℤ : Type 0 where
  pos : ℕ → ℤ
  negsuc : ℕ → ℤ

unfoldable pub abs : ℤ → ℕ
abs (pos n) = n
abs (negsuc n) = suc n

unfoldable pub neg : ℕ → ℤ
neg zero = pos 0
neg (suc n) = negsuc n

unfoldable pub is_negative : ℤ → Bool
is_negative (pos n) = false
is_negative (negsuc n) = true

-- C rounds towards 0.
unfoldable pub quot : ℤ → ℕ → ℤ
unfolding neg
quot (pos n) base = pos (n / base)
quot (negsuc n) base = neg (suc n / base)

unfoldable pub rem : ℤ → ℕ → ℤ
unfolding neg
rem (pos n) base = pos (n % base)
rem (negsuc n) base = neg (suc n % base)

-- `0123456789abcdef`, with its NUL.
abbrev pub digits : List ℕ
digits = 48 ∷ 49 ∷ 50 ∷ 51 ∷ 52 ∷ 53 ∷ 54 ∷ 55 ∷ 56 ∷ 57 ∷ 97 ∷ 98 ∷ 99 ∷ 100 ∷ 101 ∷ 102 ∷ 0 ∷ []

-- The loop over the digits, from `p` on: the text, and its end.
unfoldable pub digit_loop : ℕ → List ℕ → ℕ → ℤ → ℕ → Outcome (List ℕ × ℕ)
unfolding abs quot rem
digit_loop zero txt p value base = hang
digit_loop (suc fuel) txt p value base = do
  digit ← read_byte digits (abs (rem value base))
  stored ← write_byte txt p digit
  let rest = digit_loop fuel stored (p + 1) (quot value base) base
  (if abs (quot value base) == 0 then ok (stored, p + 1) else rest)

unfoldable pub reverse_loop : ℕ → List ℕ → ℕ → ℕ → Outcome (List ℕ)
reverse_loop zero txt low high = hang
reverse_loop (suc fuel) txt low high =
    let rest : Outcome (List ℕ) = (do
      tmp ← read_byte txt low
      last ← read_byte txt high
      once ← write_byte txt low last
      swapped ← write_byte once high tmp
      reverse_loop fuel swapped (low + 1) (high - 1)) in
    if ltb low high then rest else ok txt

-- `txt` of `EnqueueIntegerAsStringWithBase`, and the length of what it holds.
unfoldable pub integer_text : (ℕ → ℕ) → ℤ → ℕ → Outcome (List ℕ × ℕ)
unfolding is_negative
integer_text stack value base = do
  let start = if is_negative value then 1 else 0
  txt ←
      (if is_negative value
        then write_byte (uninit stack (1 + 10)) 0 45
        else ok (uninit stack (1 + 10)))
  (filled, p) ← digit_loop 12 txt start value base
  reversed ← reverse_loop 12 filled start (p - 1)
  ok (reversed, p)

-- `EnqueueIntegerAsStringWithBase`.
unfoldable pub enqueue_integer : (ℕ → ℕ) → UartRing → ℤ → ℕ → Outcome (Bool × UartRing)
enqueue_integer stack ring value base = do
  (txt, n) ← integer_text stack value base
  uart_enqueue_data ring txt n

-- `msg` without its NUL.
unfoldable pub uart_enqueue_string : UartRing → List ℕ → Outcome (Bool × UartRing)
uart_enqueue_string ring msg = uart_enqueue_data ring msg (length msg)

unfoldable pub uart_enqueue_integer_as_string : (ℕ → ℕ) → UartRing → ℤ → Outcome (Bool × UartRing)
uart_enqueue_integer_as_string stack ring value = enqueue_integer stack ring value 10

-- The shift by 32 bits or more is undefined in C.
unfoldable pub uart_enqueue_integer_as_hex_string_width :
    (ℕ → ℕ) → UartRing → ℕ → ℕ → Outcome (Bool × UartRing)
uart_enqueue_integer_as_hex_string_width stack ring value zero = ok (true, ring)
uart_enqueue_integer_as_hex_string_width stack ring value (suc width) =
    if ltb (width * 4 % 2 ^ 32) 32
    then (do
      (sent, ring') ← enqueue_integer stack ring (pos (value / 2 ^ (width * 4) % 2 ^ 4)) 16
      let rest = uart_enqueue_integer_as_hex_string_width stack ring' value width
      (if sent then rest else ok (false, ring')))
    else fault

-- Each half-word on its own, when there are two.
unfoldable pub uart_enqueue_integer_as_hex_string :
    (ℕ → ℕ) → UartRing → ℕ → Outcome (Bool × UartRing)
unfolding uart_enqueue_integer_as_hex_string_width
uart_enqueue_integer_as_hex_string stack ring value =
    if value / 2 ^ 16 % 2 ^ 16 == 0
    then enqueue_integer stack ring (pos (value % 2 ^ 16)) 16
    else (do
      (sent, ring') ← enqueue_integer stack ring (pos (value / 2 ^ 16)) 16
      (if sent
          then uart_enqueue_integer_as_hex_string_width stack ring' value 4
          else ok (false, ring')))
