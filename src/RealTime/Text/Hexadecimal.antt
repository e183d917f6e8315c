-- ===== src/RealTime/Text/Hexadecimal.antt =====
-- The hexadecimal numbers that the UART's driver (mt3620-uart.c) prints.
use mathlib.Core.Path.{subst}
use modbus_sphere_library.Base.{
  ℕ, zero, suc, ◌+◌, ◌*◌, ◌/◌, ◌%◌, ◌^◌, ◌≤◌, ◌<◌, ◌≡◌, refl, sym, ◌∙◌, List, [], ◌∷◌, ◌++◌, true,
  ltb, ◌==◌, length, length-append, append_assoc, append-nil, arith, inl, inr, Bool-cases,
}
use modbus_sphere_library.Outcome.{ok}
use modbus_sphere_library.RealTime.Uart.{UartRing}
use modbus_sphere_library.RealTime.Stream.{Streams}
use modbus_sphere_library.RealTime.Text.{
  pos, abs, uart_enqueue_integer_as_hex_string_width, uart_enqueue_integer_as_hex_string,
}
use modbus_sphere_library.RealTime.Text.Digits.{
  Numeral, digit_char, lowest_first, lowest_first-Numeral, IsBase-16,
}
use modbus_sphere_library.RealTime.Text.Printing.{numeral, length-numeral, enqueued}

-- The lowest digits, with zeros in front.
hex_digits : ℕ → ℕ → List ℕ
hex_digits zero value = []
hex_digits (suc width) value = digit_char (value / 2 ^ (width * 4) % 2 ^ 4) ∷ hex_digits width value

hex_width :
    (stack : ℕ → ℕ) (ring : UartRing) (queue : List ℕ) (value width : ℕ)
    → Streams 256 ring queue
    → width ≤ 8
    → length queue + width ≤ 256
    → (ring' : UartRing) × (uart_enqueue_integer_as_hex_string_width stack ring value width
        ≡ ok (true, ring'))
      × Streams 256 ring' (queue ++ hex_digits width value)
unfolding uart_enqueue_integer_as_hex_string_width hex_digits abs lowest_first
hex_width stack ring queue value zero streams most room =
    (ring, refl, subst (Streams 256 ring) (sym (append-nil queue)) streams)
hex_width stack ring queue value (suc width) streams most room =
    let d = value / 2 ^ (width * 4) % 2 ^ 4 in
    let defined : ltb (width * 4 % 2 ^ 32) 32 ≡ true = ground arith in
    let (ring', e, s) =
      enqueued 16 0 IsBase-16 stack (pos d) ring queue (omega arith) (omega arith) streams
        (omega arith) in
    let s1 : Streams 256 ring' (queue ++ (digit_char d ∷ [])) =
      subst (λ k. Streams 256 ring' (queue ++ (digit_char k ∷ [])))
        (let same : d % 16 ≡ d = omega arith in same) s in
    let (ring2, e2, s2) =
      hex_width stack ring' (queue ++ (digit_char d ∷ [])) value width s1 (omega arith)
        (omega (arith, length-append queue (digit_char d ∷ []))) in
    (
      ring2,
      rw (defined, e) e2,
      subst (Streams 256 ring2) (append_assoc queue (digit_char d ∷ []) (hex_digits width value))
          s2,
    )

four_more :
    (text : List ℕ) (value : ℕ)
    → Numeral 16 text (value / 2 ^ 16)
    → 2 ^ 16 ≤ value
    → Numeral 16 (text ++ hex_digits 4 value) value
unfolding hex_digits
four_more text value high big =
    let three = value / 2 ^ 12 % 2 ^ 4 in
    let two = value / 2 ^ 8 % 2 ^ 4 in
    let one = value / 2 ^ 4 % 2 ^ 4 in
    let last = value / 2 ^ 0 % 2 ^ 4 in
    let n = value / 2 ^ 16 in
    let a = Numeral.longer text n three high (omega arith) (omega arith) in
    let b = Numeral.longer _ _ two a (omega arith) (omega arith) in
    let c = Numeral.longer _ _ one b (omega arith) (omega arith) in
    let d = Numeral.longer _ _ last c (omega arith) (omega arith) in
    let sum : (((n * 16 + three) * 16 + two) * 16 + one) * 16 + last ≡ value = omega arith in
    let c3 = digit_char three ∷ [] in
    let c2 = digit_char two ∷ [] in
    let c1 = digit_char one ∷ [] in
    let c0 = digit_char last ∷ [] in
    let joined : (((text ++ c3) ++ c2) ++ c1) ++ c0 ≡ text ++ hex_digits 4 value =
      append_assoc ((text ++ c3) ++ c2) c1 c0
      ∙ append_assoc (text ++ c3) c2 (c1 ++ c0)
      ∙ append_assoc text c3 (c2 ++ (c1 ++ c0)) in
    subst (Numeral 16 (text ++ hex_digits 4 value)) sum
      (subst (λ l. Numeral 16 l ((((n * 16 + three) * 16 + two) * 16 + one) * 16 + last)) joined d)

module _ (stack : ℕ → ℕ) (ring : UartRing) (queue : List ℕ) (streams : Streams 256 ring queue) where
  -- On a transmit ring that holds `queue` and has room for 8 bytes: `Uart_EnqueueIntegerAsHexString`
  -- for a 32-bit number, which is printed in halves if it has a second one, returns true, without
  -- an access outside its buffer of characters, and the ring then holds, behind `queue`, the
  -- hexadecimal numeral of the number, without leading zeros.
  pub uart_enqueue_integer_as_hex_string-Numeral :
      (value : ℕ)
      → value < 2 ^ 32
      → length queue + 8 ≤ 256
      → (text : List ℕ) × (ring' : UartRing) × (uart_enqueue_integer_as_hex_string stack ring value
          ≡ ok (true, ring'))
        × Streams 256 ring' (queue ++ text)
        × Numeral 16 text value
  unfolding uart_enqueue_integer_as_hex_string abs
  uart_enqueue_integer_as_hex_string-Numeral value int room =
      elim (Bool-cases ((value / 2 ^ 16 % 2 ^ 16) == 0)) [
        | inl e ↦
            let same : value % 2 ^ 16 ≡ value = ground arith in
            let (ring', sent, s) =
              enqueued 16 3 IsBase-16 stack (pos (value % 2 ^ 16)) ring queue (omega arith)
                (omega arith) streams (omega arith) in
            (
              numeral 16 3 (value % 2 ^ 16),
              ring',
              rw e sent,
              s,
              subst (Numeral 16 (numeral 16 3 (value % 2 ^ 16))) same
                  (lowest_first-Numeral 16 IsBase-16 3 (value % 2 ^ 16) (omega arith)),
            )
        | inr e ↦
            let n = value / 2 ^ 16 in
            let top = numeral 16 3 n in
            let (ring', sent, s) =
              enqueued 16 3 IsBase-16 stack (pos n) ring queue (omega arith) (omega arith) streams
                (omega arith) in
            let (ring2, sent2, s2) =
              hex_width stack ring' (queue ++ top) value 4 s (omega arith)
                (omega (arith, length-append queue top, length-numeral 16 3 n)) in
            (
              top ++ hex_digits 4 value,
              ring2,
              rw (e, sent) sent2,
              subst (Streams 256 ring2) (append_assoc queue top (hex_digits 4 value)) s2,
              four_more top value (lowest_first-Numeral 16 IsBase-16 3 n (omega arith))
                  (ground arith),
            )
      ]
