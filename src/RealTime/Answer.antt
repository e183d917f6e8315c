-- ===== src/RealTime/Answer.antt =====
-- A response of the slave on its way through `HandleUartIsu0RxIrqDeferred` (main.c).
use modbus_sphere_library.Base.{
  ℕ, ◌+◌, ◌-◌, ◌%◌, ◌^◌, ◌≤◌, ◌≡◌, sym, ap, ◌∙◌, List, [], ◌∷◌, ◌++◌, append_assoc, true, false,
  some, arith, ltb, leb, length, length-append, length-take, drop, take, take-append-drop,
  drop-append,
}
use modbus_sphere_library.Outcome.{ok}
use modbus_sphere_library.Memory.{
  read_byte, write_bytes, read_byte_split, read_byte_second, write_bytes_split,
}
use modbus_sphere_library.Crc.{validate_crc}
use modbus_sphere_library.Crc.Footer.{crc_low, crc_high, validate_crc_footed}
use modbus_sphere_library.RealTime.Message.{
  set_message_length, get_message_length, get_message_data_index,
}
use modbus_sphere_library.RealTime.Handlers.{rt_fcode_length, rt_response, rx_round}
use modbus_sphere_library.RealTime.Response.{response, rt_response_lem}

module _ (stack : ℕ → ℕ) (prefix : List ℕ) (twenty : length prefix ≡ 20) (head : List ℕ)
    (header : length head ≡ 22) (pad : ℕ) (first second area : List ℕ)
    (room : length second ≤ length area) (slave f_code data_length : ℕ) (more : List ℕ) where
  message : List ℕ
  message = slave ∷ f_code ∷ data_length ∷ more

  unfoldable pub stored : List ℕ
  stored = head ++ (4 ∷ pad ∷ (first ++ (second ++ drop (length second) area)))

  header_length : read_byte (head ++ (4 ∷ pad ∷ (first ++ area))) 22 ≡ ok 4
  header_length = read_byte_split head (pad ∷ (first ++ area)) 4 22 (sym header)

  long : length (head ++ (4 ∷ pad ∷ [])) ≡ 24
  long = omega (arith, length-append head (4 ∷ pad ∷ []))

  pub all_stored :
      write_bytes (head ++ (4 ∷ pad ∷ (first ++ area))) (24 + length first) second ≡ ok stored
  unfolding stored
  all_stored =
      let front = (head ++ (4 ∷ pad ∷ [])) ++ first in
      let k = length second in
      let size : length (take k area) ≡ k = omega (arith, length-take k area) in
      let whole : (zs : List ℕ) → front ++ zs ≡ head ++ (4 ∷ pad ∷ (first ++ zs)) = λ zs.
        append_assoc (head ++ (4 ∷ pad ∷ [])) first zs
        ∙ append_assoc head (4 ∷ pad ∷ []) (first ++ zs) in
      ap (λ l. write_bytes l (24 + length first) second)
        (sym (whole area) ∙ ap (λ l. front ++ l) (sym (take-append-drop k area)))
      ∙ write_bytes_split front (take k area) (drop k area) (24 + length first) second
          (omega (arith, long, length-append (head ++ (4 ∷ pad ∷ [])) first)) (sym size)
      ∙ ap (λ l. ok l) (whole (second ++ drop k area))

  module _
      (complete : first ++ second
        ≡ (slave ∷ f_code ∷ data_length ∷ more)
          ++ (crc_low (slave ∷ f_code ∷ data_length ∷ more)
              ∷ crc_high (slave ∷ f_code ∷ data_length ∷ more)
              ∷ []))
      (expected : rt_fcode_length f_code data_length ≡ length more + 3)
      (short : length more ≤ 1000) where
    tail : List ℕ
    tail = drop (length second) area

    footed : first ++ (second ++ tail) ≡ message ++ (crc_low message ∷ crc_high message ∷ tail)
    unfolding message tail
    footed =
        sym (append_assoc first second (drop (length second) area))
        ∙ ap (λ l. l ++ drop (length second) area) complete
        ∙ append_assoc (slave ∷ f_code ∷ data_length ∷ more)
            (crc_low (slave ∷ f_code ∷ data_length ∷ more)
              ∷ crc_high (slave ∷ f_code ∷ data_length ∷ more)
              ∷ [])
            (drop (length second) area)

    counted : length first + length second ≡ length more + 5
    counted = omega (
      arith,
      length-append first second,
      ap length complete,
      length-append (slave ∷ f_code ∷ data_length ∷ more) (
          crc_low (slave ∷ f_code ∷ data_length ∷ more)
          ∷ crc_high (slave ∷ f_code ∷ data_length ∷ more)
          ∷ []),
    )

    data_at : drop 24 stored ≡ message ++ (crc_low message ∷ crc_high message ∷ tail)
    unfolding stored tail
    data_at =
        ap (drop 24)
          (sym (append_assoc head (4 ∷ pad ∷ []) (first ++ (second ++ drop (length second) area))))
        ∙ drop-append 24 (head ++ (4 ∷ pad ∷ [])) (first ++ (second ++ drop (length second) area))
            long
        ∙ footed

    shape :
        stored
        ≡ (head ++ (4 ∷ pad ∷ slave ∷ []))
          ++ (f_code ∷ data_length ∷ (more ++ (crc_low message ∷ crc_high message ∷ tail)))
    unfolding stored tail message
    shape =
        ap (λ l. head ++ (4 ∷ pad ∷ l)) footed
        ∙ sym (
            append_assoc head (4 ∷ pad ∷ slave ∷ [])
              (f_code ∷ data_length ∷ (more ++ (crc_low message ∷ crc_high message ∷ tail))))

    third : length (head ++ (4 ∷ pad ∷ slave ∷ [])) ≡ 25
    third = omega (arith, length-append head (4 ∷ pad ∷ slave ∷ []))

    code_read : read_byte stored 25 ≡ ok f_code
    code_read =
        ap (λ l. read_byte l 25) shape
        ∙ read_byte_split (head ++ (4 ∷ pad ∷ slave ∷ [])) _ f_code 25 (sym third)

    length_read : read_byte stored 26 ≡ ok data_length
    length_read =
        ap (λ l. read_byte l 26) shape
        ∙ read_byte_second (head ++ (4 ∷ pad ∷ slave ∷ [])) _ f_code data_length 26
            (omega (arith, third))

    checked :
        validate_crc (message ++ (crc_low message ∷ crc_high message ∷ tail)) (length more + 3 + 2)
        ≡ ok true
    unfolding message
    checked =
        ap
          (validate_crc (
            (slave ∷ f_code ∷ data_length ∷ more)
            ++ (crc_low (slave ∷ f_code ∷ data_length ∷ more)
                ∷ crc_high (slave ∷ f_code ∷ data_length ∷ more)
                ∷ tail)))
          (let same : length more + 3 + 2 ≡ length (slave ∷ f_code ∷ data_length ∷ more) + 2 =
              omega arith in
            same)
        ∙ validate_crc_footed (slave ∷ f_code ∷ data_length ∷ more) tail (omega arith)

    made :
        rt_response stack prefix
          (message ++ (crc_low message ∷ crc_high message ∷ tail))
          (length more + 3)
        ≡ ok (response stack prefix (slave ∷ f_code ∷ data_length ∷ more))
    unfolding message
    made =
        ap
          (rt_response stack prefix (
            (slave ∷ f_code ∷ data_length ∷ more)
            ++ (crc_low (slave ∷ f_code ∷ data_length ∷ more)
                ∷ crc_high (slave ∷ f_code ∷ data_length ∷ more)
                ∷ tail)))
          (let same : length more + 3 ≡ length (slave ∷ f_code ∷ data_length ∷ more) =
              omega arith in
            same)
        ∙ rt_response_lem stack prefix twenty (slave ∷ f_code ∷ data_length ∷ more)
            (crc_low (slave ∷ f_code ∷ data_length ∷ more)
              ∷ crc_high (slave ∷ f_code ∷ data_length ∷ more)
              ∷ tail)
            (omega arith)

    -- For a response whose function code and third byte give its length, 3 to 1003 bytes, a receive
    -- buffer whose 22 first bytes are followed by the header length 4, with the bytes `first` in it
    -- and room for the bytes `second`, which complete the response and its CRC, and a prefix of 20
    -- bytes: the round of `HandleUartIsu0RxIrqDeferred` that stores `second` hands to the A7 one
    -- message, which is the prefix, the header of a Modbus message and the response without its CRC,
    -- and sets the length of the buffer back for the next response.
    pub rx_round-response :
        rx_round stack prefix
          (record { length = 24 + length first; data_bytes = head ++ (4 ∷ pad ∷ (first ++ area)) })
          second
        ≡ ok (
          record {
            length = 24;
            data_bytes = head ++ (4 ∷ pad ∷ (first ++ (second ++ drop (length second) area)));
          },
          some (response stack prefix (slave ∷ f_code ∷ data_length ∷ more)),
        )
    unfolding rx_round get_message_length get_message_data_index set_message_length stored
    rx_round-response =
        let n : (24 + length first + 2 ^ 32 - 20 - 4) % 2 ^ 32 ≡ length first =
          omega (arith, counted) in
        let current : (length first + length second) % 2 ^ 32 ≡ length more + 5 =
          omega (arith, counted) in
        let enough : ltb (length more + 5) 3 ≡ false = ground arith in
        let all : leb (length more + 3) (length more + 5) ≡ true = ground arith in
        rw (
          header_length, n, all_stored, current, enough, code_read, length_read, expected, all,
          data_at, checked, made,
        )
