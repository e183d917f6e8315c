-- ===== src/RealTime/Text/Printing.antt =====
-- What the text output of the UART's driver (mt3620-uart.c) puts into the transmit ring.
use mathlib.Core.List.{reverse, reverse-cons}
use mathlib.Core.Path.{subst}
use modbus_sphere_library.Base.{
  ℕ, suc, ◌+◌, ◌-◌, ◌^◌, ◌≤◌, ◌<◌, ◌≡◌, refl, sym, ap, ◌∙◌, List, [], ◌∷◌, ◌++◌, true, ltb, leb,
  min, length, length-append, append_assoc, arith, drop, take, take-append,
}
use modbus_sphere_library.Outcome.{Outcome, ok, ◌>>=◌}
use modbus_sphere_library.Memory.{uninit, length-uninit, write_byte, write_byte_split}
use modbus_sphere_library.RealTime.Uart.{UartRing}
use modbus_sphere_library.RealTime.Stream.{Streams}
use modbus_sphere_library.RealTime.Serial.{uart_enqueue_data-Streams}
use modbus_sphere_library.RealTime.Text.{
  ℤ, pos, negsuc, abs, is_negative, digit_loop, reverse_loop, integer_text, enqueue_integer,
  uart_enqueue_integer_as_string,
}
use modbus_sphere_library.RealTime.Text.Digits.{
  Numeral, lowest_first, length-lowest_first, length-lowest_first_pos, lowest_first-Numeral,
  digit_loop_lem, IsBase, IsBase-10, power,
}
use modbus_sphere_library.RealTime.Text.Reversal.{reverse_loop_lem}

abbrev pub sign : ℤ → List ℕ
sign (pos n) = []
sign (negsuc n) = 45 ∷ []

length-reverse : (l : List ℕ) → length (reverse l) ≡ length l
length-reverse [] = refl
length-reverse (x ∷ xs) =
    ap length (reverse-cons x xs)
    ∙ omega (arith, length-append (reverse xs) (x ∷ []), length-reverse xs)

minus_stored : (stack : ℕ → ℕ) → write_byte (uninit stack 11) 0 45 ≡ ok (45 ∷ uninit stack 10)
unfolding uninit
minus_stored stack = write_byte_split [] (uninit stack 10) (stack 10) 0 45 refl

-- The digits in order.
abbrev pub numeral : ℕ → ℕ → ℕ → List ℕ
numeral base more n = reverse (lowest_first more base n)

pub length-numeral : (base more n : ℕ) → length (numeral base more n) ≤ suc more
length-numeral base more n =
    omega (arith, length-reverse (lowest_first more base n), length-lowest_first more base n)

turned : ℕ → List ℕ × ℕ → Outcome (List ℕ × ℕ)
turned start (filled, p) = reverse_loop 12 filled start (p - 1) >>= λ reversed. ok (reversed, p)

module _ (base more : ℕ) (is_base : IsBase base) (value : ℤ)
    (small : abs value < power base more) where
  both_loops :
      (pre post : List ℕ)
      → suc more ≤ length post
      → length pre + length post < 12
      → (rest : List ℕ) × ((digit_loop 12 (pre ++ post) (length pre) value base
            >>= turned (length pre))
          ≡ ok (
            pre ++ (numeral base more (abs value) ++ rest),
            length (pre ++ numeral base more (abs value)),
          ))
  unfolding turned
  both_loops pre post room short =
      let l = lowest_first more base (abs value) in
      let rest = drop (length l) post in
      let place : length pre + length l ≡ length (pre ++ reverse l) =
        omega (arith, length-append pre (reverse l), length-reverse l) in
      (
        rest,
        rw
            (
              digit_loop_lem base is_base more 12 pre post value small room (omega arith),
              reverse_loop_lem 12 pre l rest (length pre + length l - 1)
                  (omega (arith, length-lowest_first_pos more base (abs value)))
                  (omega (arith, length-lowest_first more base (abs value))),
              place,
            )
            refl,
      )

module _ (base more : ℕ) (is_base : IsBase base) (stack : ℕ → ℕ) where
  printed :
      (value : ℤ) (small : abs value < power base more)
      → length (sign value) + suc more ≤ 11
      → (rest : List ℕ) × (integer_text stack value base
          ≡ ok (
            sign value ++ (numeral base more (abs value) ++ rest),
            length (sign value ++ numeral base more (abs value)),
          ))
  unfolding integer_text is_negative turned
  printed (pos n) small room =
      both_loops base more is_base (pos n) small [] (uninit stack 11)
        (omega (arith, length-uninit stack 11)) (omega (arith, length-uninit stack 11))
  printed (negsuc n) small room =
      let (rest, e) =
        both_loops base more is_base (negsuc n) small (45 ∷ []) (uninit stack 10)
          (omega (arith, length-uninit stack 10)) (omega (arith, length-uninit stack 10)) in
      let minus : write_byte (uninit stack 11) 0 45 ≡ ok (45 ∷ uninit stack 10) =
        minus_stored stack in
      (rest, rw minus e)

  pub enqueued :
      (value : ℤ) (ring : UartRing) (queue : List ℕ)
      → abs value < power base more
      → length (sign value) + suc more ≤ 11
      → Streams 256 ring queue
      → length queue + length (sign value) + suc more ≤ 256
      → (ring' : UartRing) × (enqueue_integer stack ring value base ≡ ok (true, ring'))
        × Streams 256 ring' (queue ++ (sign value ++ numeral base more (abs value)))
  unfolding enqueue_integer
  enqueued value ring queue small short streams room =
      let text = sign value ++ numeral base more (abs value) in
      let (rest, made) = printed value small short in
      let size : length text ≤ length (sign value) + suc more = omega (
        arith,
        length-append (sign value) (numeral base more (abs value)),
        length-numeral base more (abs value),
      ) in
      let (ring', e, s) =
        uart_enqueue_data-Streams ring queue (text ++ rest) (length text) streams
          (omega (arith, length-append text rest)) in
      let whole : take (min (length text) (256 - length queue)) (text ++ rest) ≡ text =
        take-append (min (length text) (256 - length queue)) text rest (omega arith) in
      let some_room : ltb (length queue) 256 ≡ true = ground arith in
      let all_room : leb (length text) (256 - length queue) ≡ true = ground arith in
      (
        ring',
        rw (made, sym (append_assoc (sign value) (numeral base more (abs value)) rest))
            (e ∙ rw (some_room, all_room) refl),
        subst (λ l. Streams 256 ring' (queue ++ l)) whole s,
      )

short_sign : (value : ℤ) → length (sign value) ≤ 1
short_sign (pos n) = omega arith
short_sign (negsuc n) = omega arith

module _ (stack : ℕ → ℕ) (ring : UartRing) (queue : List ℕ) (streams : Streams 256 ring queue) where
  -- On a transmit ring that holds `queue` and has room for 11 bytes: `Uart_EnqueueIntegerAsString`
  -- for an `int`, the least one included, returns true, without an access outside its buffer of 11
  -- characters, and the ring then holds, behind `queue`, a minus sign if the number is negative, and
  -- the decimal numeral of its absolute value, without leading zeros.
  pub uart_enqueue_integer_as_string-Numeral :
      (value : ℤ)
      → abs value ≤ 2 ^ 31
      → length queue + 11 ≤ 256
      → (text : List ℕ) × (ring' : UartRing) × (uart_enqueue_integer_as_string stack ring value
          ≡ ok (true, ring'))
        × Streams 256 ring' (queue ++ (sign value ++ text))
        × Numeral 10 text (abs value)
  unfolding uart_enqueue_integer_as_string
  uart_enqueue_integer_as_string-Numeral value int room =
      let one : length (sign value) ≤ 1 = short_sign value in
      let (ring', e, s) =
        enqueued 10 9 IsBase-10 stack value ring queue (omega (arith, int)) (omega arith) streams
          (omega arith) in
      (
        numeral 10 9 (abs value),
        ring',
        e,
        s,
        lowest_first-Numeral 10 IsBase-10 9 (abs value) (omega (arith, int)),
      )
