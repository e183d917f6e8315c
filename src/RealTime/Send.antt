-- ===== src/RealTime/Send.antt =====
-- The way of a Modbus message through `HandleModbusRequest` (main.c).
use modbus_sphere_library.Base.{
  ℕ, ◌+◌, ◌-◌, ◌%◌, ◌^◌, ◌≤◌, ◌≡◌, refl, sym, ap, ◌∙◌, List, [], ◌∷◌, ◌++◌, append_assoc, false,
  some, arith, ltb, length, length-append, length-drop, drop,
}
use modbus_sphere_library.Outcome.{Outcome, ok, ◌>>=◌}
use modbus_sphere_library.Memory.{
  two_more, uninit, read_byte, read_bytes, read_byte_split, read_byte_second, read_bytes_split,
  write_bytes_front, length-uninit,
}
use modbus_sphere_library.Crc.Footer.{crc_low, crc_high, add_crc_split}
use modbus_sphere_library.RealTime.Message.{
  MessageHandle, get_message_command, get_message_length, get_message_data_index,
}
use modbus_sphere_library.RealTime.Handlers.{handle_modbus_request}

module _ (stack : ℕ → ℕ) (prefix message rest : List ℕ) (x : ℕ) (twenty : length prefix ≡ 20)
    (short : length message ≤ 254) where
  abbrev arrived : List ℕ
  arrived = prefix ++ (2 ∷ 1 ∷ 4 ∷ x ∷ (message ++ rest))

  abbrev req : MessageHandle
  req = record { length = 24 + length message; data_bytes = arrived }

  command : read_byte arrived 21 ≡ ok 1
  command = read_byte_second prefix (4 ∷ x ∷ (message ++ rest)) 2 1 21 (omega arith)

  header : read_byte arrived 22 ≡ ok 4
  header =
      ap (λ l. read_byte l 22) (sym (append_assoc prefix (2 ∷ 1 ∷ []) (4 ∷ x ∷ (message ++ rest))))
      ∙ read_byte_split (prefix ++ (2 ∷ 1 ∷ [])) (x ∷ (message ++ rest)) 4 22
          (omega (arith, length-append prefix (2 ∷ 1 ∷ [])))

  payload : read_bytes arrived 24 (length message) ≡ ok message
  payload =
      ap (λ l. read_bytes l 24 (length message))
        (sym (append_assoc prefix (2 ∷ 1 ∷ 4 ∷ x ∷ []) (message ++ rest)))
      ∙ read_bytes_split (prefix ++ (2 ∷ 1 ∷ 4 ∷ x ∷ [])) message rest 24 (length message)
          (omega (arith, length-append prefix (2 ∷ 1 ∷ 4 ∷ x ∷ []))) refl

  -- A data message of at most 254 bytes from the A7, behind a prefix of 20 bytes and the header
  -- that `ModBusWrite` gives it, goes to the UART as the message itself, followed by its CRC, low
  -- byte first.
  pub handle_modbus_request-frame :
      handle_modbus_request stack (record {
        length = 24 + length message;
        data_bytes = prefix ++ (2 ∷ 1 ∷ 4 ∷ x ∷ (message ++ rest));
      })
      ≡ ok (some (message ++ (crc_low message ∷ crc_high message ∷ [])))
  unfolding handle_modbus_request get_message_command get_message_length get_message_data_index
  handle_modbus_request-frame =
      let area = uninit stack 256 in
      let room : 2 ≤ length (drop (length message) area) =
        omega (arith, length-drop (length message) area, length-uninit stack 256) in
      let (a, b, more, e) = two_more (drop (length message) area) room in
      let n : (24 + length message + 2 ^ 32 - 20 - 4) % 2 ^ 32 ≡ length message = omega arith in
      let fits : ltb 254 (length message) ≡ false = ground arith in
      let whole : read_bytes (message ++ (crc_low message ∷ crc_high message ∷ more)) 0
            (length message + 2)
          ≡ ok (message ++ (crc_low message ∷ crc_high message ∷ [])) =
        ap (λ l. read_bytes l 0 (length message + 2))
          (sym (append_assoc message (crc_low message ∷ crc_high message ∷ []) more))
        ∙ read_bytes_split [] (message ++ (crc_low message ∷ crc_high message ∷ [])) more 0
            (length message + 2) refl
            (sym (length-append message (crc_low message ∷ crc_high message ∷ []))) in
      rw
        (
          command,
          header,
          n,
          fits,
          payload,
          write_bytes_front area message (omega (arith, length-uninit stack 256)),
          e,
          add_crc_split message more a b (length message) 256 refl (omega arith),
        )
        (ap (λ (o : Outcome (List ℕ)). o >>= λ out. ok (some out)) whole)
