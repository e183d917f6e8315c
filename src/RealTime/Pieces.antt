-- ===== src/RealTime/Pieces.antt =====
-- A response that arrives in pieces, in `HandleUartIsu0RxIrqDeferred` (main.c).
use modbus_sphere_library.Base.{
  ℕ, ◌+◌, ◌-◌, ◌%◌, ◌^◌, ◌≤◌, ◌<◌, ◌≡◌, sym, ap, ◌∙◌, List, [], ◌∷◌, ◌++◌, append_assoc, false,
  Option, none, arith, ltb, leb, length, length-append, drop, length-drop, Bool-cases, inl, inr,
}
use modbus_sphere_library.Outcome.{Outcome, ok, ◌>>=◌}
use modbus_sphere_library.Memory.{read_byte, write_bytes, read_byte_split, read_byte_second}
use modbus_sphere_library.Crc.Footer.{crc_low, crc_high}
use modbus_sphere_library.Intercore.Ring.{BufferHeader}
use modbus_sphere_library.RealTime.Message.{
  MessageHandle, set_message_length, get_message_length, get_message_data_index, send_a7_message,
}
use modbus_sphere_library.RealTime.Handlers.{rt_fcode_length, rx_round, rx_deferred}
use modbus_sphere_library.RealTime.Response.{response}
use modbus_sphere_library.RealTime.Answer.{rx_round-response, stored, all_stored}

-- Nothing is handed over; the buffer's length in two ways.
same_length :
    (k n : ℕ) (bytes : List ℕ)
    → k ≡ n
    → ◌≡◌ {A = Outcome (MessageHandle × Option MessageHandle)}
        (ok (record { length = k; data_bytes = bytes }, none))
        (ok (record { length = n; data_bytes = bytes }, none))
same_length k n bytes e = ap (λ i. ok (record { length = i; data_bytes = bytes }, none)) e

-- The first three bytes of a list lie in a part of it that is long enough.
first_three :
    (xs ys zs : List ℕ) (a b c : ℕ)
    → xs ++ ys ≡ a ∷ b ∷ c ∷ zs
    → 3 ≤ length xs
    → (r : List ℕ) × (xs ≡ a ∷ b ∷ c ∷ r)
first_three [] ys zs a b c h long = absurd (omega arith)
first_three (x ∷ []) ys zs a b c h long = absurd (omega arith)
first_three (x ∷ y ∷ []) ys zs a b c h long = absurd (omega arith)
first_three (x ∷ y ∷ z ∷ r) ys zs a b c h long = (r, cc h)

unfoldable pub concat : List (List ℕ) → List ℕ
concat [] = []
concat (piece ∷ pieces) = piece ++ concat pieces

module _ (stack : ℕ → ℕ) (prefix : List ℕ) (twenty : length prefix ≡ 20) (head : List ℕ)
    (header : length head ≡ 22) (pad slave f_code data_length : ℕ) (more : List ℕ)
    (expected : rt_fcode_length f_code data_length ≡ length more + 3)
    (short : length more ≤ 1000) where
  -- The response with its CRC.
  unfoldable pub footed_response : List ℕ
  footed_response =
      (slave ∷ f_code ∷ data_length ∷ more)
      ++ (crc_low (slave ∷ f_code ∷ data_length ∷ more)
          ∷ crc_high (slave ∷ f_code ∷ data_length ∷ more)
          ∷ [])

  -- The receive buffer with these bytes.
  unfoldable pub received_so_far : List ℕ → List ℕ → MessageHandle
  received_so_far first area = record {
    length = 24 + length first;
    data_bytes = head ++ (4 ∷ pad ∷ (first ++ area));
  }

  -- The function code and the length, in the bytes that are there.
  codes_read :
      (r tail : List ℕ)
      → (read_byte (head ++ (4 ∷ pad ∷ ((slave ∷ f_code ∷ data_length ∷ r) ++ tail))) 25
          ≡ ok f_code)
        × (read_byte (head ++ (4 ∷ pad ∷ ((slave ∷ f_code ∷ data_length ∷ r) ++ tail))) 26
            ≡ ok data_length)
  codes_read r tail =
      let front = head ++ (4 ∷ pad ∷ slave ∷ []) in
      let third : length front ≡ 25 = omega (arith, length-append head (4 ∷ pad ∷ slave ∷ [])) in
      let split : head ++ (4 ∷ pad ∷ ((slave ∷ f_code ∷ data_length ∷ r) ++ tail))
          ≡ front ++ (f_code ∷ data_length ∷ (r ++ tail)) =
        sym (append_assoc head (4 ∷ pad ∷ slave ∷ []) (f_code ∷ data_length ∷ (r ++ tail))) in
      (
        ap (λ l. read_byte l 25) split
            ∙ read_byte_split front (data_length ∷ (r ++ tail)) f_code 25 (sym third),
        ap (λ l. read_byte l 26) split
            ∙ read_byte_second front (r ++ tail) f_code data_length 26 (omega (arith, third)),
      )

  -- A round that does not complete the response stores its bytes.
  waiting_round :
      (first second later area : List ℕ)
      → length second ≤ length area
      → first ++ (second ++ later) ≡ footed_response
      → length first + length second < length more + 3
      → rx_round stack prefix (received_so_far first area) second
        ≡ ok (received_so_far (first ++ second) (drop (length second) area), none)
  unfolding rx_round get_message_length get_message_data_index set_message_length received_so_far
      stored footed_response
  waiting_round first second later area room whole early =
      let tail = drop (length second) area in
      let n : (24 + length first + 2 ^ 32 - 20 - 4) % 2 ^ 32 ≡ length first = omega arith in
      let both : length (first ++ second) ≡ length first + length second =
        length-append first second in
      let current : (length first + length second) % 2 ^ 32 ≡ length first + length second =
        omega arith in
      let header_length : read_byte (head ++ (4 ∷ pad ∷ (first ++ area))) 22 ≡ ok 4 =
        read_byte_split head (pad ∷ (first ++ area)) 4 22 (sym header) in
      let kept : write_bytes (head ++ (4 ∷ pad ∷ (first ++ area))) (24 + length first) second
          ≡ ok (head ++ (4 ∷ pad ∷ ((first ++ second) ++ tail))) =
        all_stored stack prefix twenty head header pad first second area room slave f_code
          data_length more
        ∙ ap (λ l. ok (head ++ (4 ∷ pad ∷ l))) (sym (append_assoc first second tail)) in
      let bytes = head ++ (4 ∷ pad ∷ ((first ++ second) ++ tail)) in
      let so_far : (length first + length second + 20 + 4) % 2 ^ 32
          ≡ 24 + length (first ++ second) =
        omega (arith, both) in
      let done =
        same_length ((length first + length second + 20 + 4) % 2 ^ 32)
          (24 + length (first ++ second)) bytes so_far in
      elim (Bool-cases (ltb (length first + length second) 3)) [
        | inl e ↦ rw (header_length, n, kept, current, e) done
        | inr e ↦
            let (r, shape) =
              first_three (first ++ second) later
                (more
                  ++ (crc_low (slave ∷ f_code ∷ data_length ∷ more)
                      ∷ crc_high (slave ∷ f_code ∷ data_length ∷ more)
                      ∷ []))
                slave f_code data_length (append_assoc first second later ∙ whole)
                (ground (arith, both)) in
            let (code_read, length_read) = codes_read r tail in
            let split : bytes ≡ head ++ (4 ∷ pad ∷ ((slave ∷ f_code ∷ data_length ∷ r) ++ tail)) =
              ap (λ l. head ++ (4 ∷ pad ∷ (l ++ tail))) shape in
            let code : read_byte bytes 25 ≡ ok f_code =
              ap (λ l. read_byte l 25) split ∙ code_read in
            let size : read_byte bytes 26 ≡ ok data_length =
              ap (λ l. read_byte l 26) split ∙ length_read in
            let waits : leb (length more + 3) (length first + length second) ≡ false =
              ground arith in
            rw (header_length, n, kept, current, e, code, size, expected, waits) done
      ]

  module _ (inbound outbound : BufferHeader) (buf_size : ℕ) where
    -- The whole response has been handed over, and the buffer is empty again.
    abbrev handed_over : List ℕ → Outcome (MessageHandle × BufferHeader)
    handed_over area =
        send_a7_message inbound outbound buf_size
          (response stack prefix (slave ∷ f_code ∷ data_length ∷ more))
        >>= λ outbound'.
            ok (record { length = 24; data_bytes = head ++ (4 ∷ pad ∷ area) }, outbound')

    footed_length : length footed_response ≡ length more + 5
    unfolding footed_response
    footed_length = omega (
      arith,
      length-append (slave ∷ f_code ∷ data_length ∷ more) (
          crc_low (slave ∷ f_code ∷ data_length ∷ more)
          ∷ crc_high (slave ∷ f_code ∷ data_length ∷ more)
          ∷ []),
    )

    all_rounds :
        (pieces : List (List ℕ)) (first last area : List ℕ)
        → length more + 5 ≤ length first + length area
        → first ++ (concat pieces ++ last) ≡ footed_response
        → length first + length (concat pieces) < length more + 3
        → (rest : List ℕ) × (rx_deferred stack prefix inbound outbound buf_size
              (received_so_far first area)
              (pieces ++ (last ∷ []))
            ≡ handed_over (footed_response ++ rest))
    unfolding rx_deferred concat received_so_far footed_response
    all_rounds [] first last area room whole early =
        let sizes : length first + length last ≡ length more + 5 =
          sym (length-append first last) ∙ ap length whole ∙ footed_length in
        let area' = drop (length last) area in
        let done =
          rx_round-response stack prefix twenty head header pad first last area
            (omega (arith, sizes)) slave f_code data_length more whole expected short in
        (
          area',
          rw done
              (ap handed_over (sym (append_assoc first last area') ∙ ap (λ l. l ++ area') whole)),
        )
    all_rounds (piece ∷ pieces) first last area room whole early =
        let sizes : length first + (length piece + (length (concat pieces) + length last))
            ≡ length more + 5 =
          omega (
            arith,
            ap length whole,
            footed_length,
            length-append first ((piece ++ concat pieces) ++ last),
            length-append (piece ++ concat pieces) last,
            length-append piece (concat pieces),
          ) in
        let behind : first ++ (piece ++ (concat pieces ++ last)) ≡ footed_response =
          ap (λ l. first ++ l) (sym (append_assoc piece (concat pieces) last)) ∙ whole in
        let count = length-append piece (concat pieces) in
        let both = length-append first piece in
        let waited =
          waiting_round first piece (concat pieces ++ last) area (omega (arith, sizes)) behind
            (omega (arith, count)) in
        let (rest, e) =
          all_rounds pieces (first ++ piece) last (drop (length piece) area)
            (omega (arith, both, sizes, length-drop (length piece) area))
            (append_assoc first piece (concat pieces ++ last) ∙ behind)
            (omega (arith, both, count)) in
        (rest, rw waited e)

    -- For a prefix of 20 bytes, a receive buffer that is empty, with 22 bytes and the header length 4
    -- in front, and has room for the response, and a response of 3 to 1003 bytes whose function code
    -- and third byte give its length: however the response and its CRC are cut into pieces of which
    -- only the last one reaches the length that is expected, `HandleUartIsu0RxIrqDeferred` hands the
    -- response to the A7 once, after the last piece, and leaves the buffer empty.
    pub rx_deferred-response :
        (pieces : List (List ℕ)) (last area : List ℕ)
        → length more + 5 ≤ length area
        → concat pieces ++ last
          ≡ (slave ∷ f_code ∷ data_length ∷ more)
            ++ (crc_low (slave ∷ f_code ∷ data_length ∷ more)
                ∷ crc_high (slave ∷ f_code ∷ data_length ∷ more)
                ∷ [])
        → length (concat pieces) < length more + 3
        → (rest : List ℕ) × (rx_deferred stack prefix inbound outbound buf_size
              (record { length = 24; data_bytes = head ++ (4 ∷ pad ∷ area) })
              (pieces ++ (last ∷ []))
            ≡ (send_a7_message inbound outbound buf_size
                  (response stack prefix (slave ∷ f_code ∷ data_length ∷ more))
                >>= λ outbound'.
                    ok (record { length = 24; data_bytes = head ++ (4 ∷ pad ∷ rest) }, outbound')))
    unfolding received_so_far footed_response
    rx_deferred-response pieces last area room whole early =
        let (rest, e) = all_rounds pieces [] last area (omega arith) whole (omega arith) in
        (footed_response ++ rest, e)
