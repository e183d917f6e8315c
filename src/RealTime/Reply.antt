-- ===== src/RealTime/Reply.antt =====
-- The reply of `HandleUARTRequest` (main.c) to the A7.
use modbus_sphere_library.Base.{
  ℕ, ◌≡◌, refl, sym, ap, ◌∙◌, List, [], ◌∷◌, ◌++◌, append_assoc, Option, arith, length,
  length-append, drop, take, take-length,
}
use modbus_sphere_library.Outcome.{ok}
use modbus_sphere_library.Memory.{
  uninit, length-uninit, read_bytes, read_bytes_ok, write_byte, write_bytes, write_bytes_front,
  write_bytes_split, write_byte_split, write_byte_second,
}
use modbus_sphere_library.RealTime.Message.{
  init_message, set_message_prefix, set_message_protocol, set_message_command, set_message_data,
}
use modbus_sphere_library.RealTime.Config.{LineSettings}
use modbus_sphere_library.RealTime.Dispatch.{success_byte, uart_response}

-- The reply without the rest of its buffer; the fourth byte of the header is not set.
abbrev pub reply : (ℕ → ℕ) → List ℕ → ℕ → List ℕ
reply stack prefix success = prefix ++ (1 ∷ 1 ∷ 4 ∷ stack 1020 ∷ success ∷ [])

module _ (stack : ℕ → ℕ) (prefix : List ℕ) (twenty : length prefix ≡ 20) where
  header_set :
      write_byte (uninit stack 1044) 22 4
      ≡ ok (take 22 (uninit stack 1044) ++ (4 ∷ uninit stack 1021))
  unfolding uninit
  header_set =
      write_byte_split (take 22 (uninit stack 1044)) (uninit stack 1021) (stack 1021) 22 4 refl

  prefix_set :
      write_bytes (take 22 (uninit stack 1044) ++ (4 ∷ uninit stack 1021)) 0 prefix
      ≡ ok (prefix ++ (stack 1023 ∷ stack 1022 ∷ 4 ∷ stack 1020 ∷ stack 1019 ∷ uninit stack 1019))
  unfolding uninit
  prefix_set =
      write_bytes_front (take 22 (uninit stack 1044) ++ (4 ∷ uninit stack 1021)) prefix
        (omega (arith, twenty, length-uninit stack 1021))
      ∙ ap (λ k. ok (prefix ++ drop k (take 22 (uninit stack 1044) ++ (4 ∷ uninit stack 1021))))
          twenty

  success_set :
      (success : ℕ)
      → write_bytes
          (prefix ++ (1 ∷ 1 ∷ 4 ∷ stack 1020 ∷ stack 1019 ∷ uninit stack 1019))
          24
          (success ∷ [])
        ≡ ok (reply stack prefix success ++ uninit stack 1019)
  success_set success =
      let front = prefix ++ (1 ∷ 1 ∷ 4 ∷ stack 1020 ∷ []) in
      ap (λ l. write_bytes l 24 (success ∷ []))
        (sym (append_assoc prefix (1 ∷ 1 ∷ 4 ∷ stack 1020 ∷ []) (stack 1019 ∷ uninit stack 1019)))
      ∙ write_bytes_split front (stack 1019 ∷ []) (uninit stack 1019) 24 (success ∷ [])
          (omega (arith, twenty, length-append prefix (1 ∷ 1 ∷ 4 ∷ stack 1020 ∷ []))) refl
      ∙ ap (λ l. ok l)
          (append_assoc prefix (1 ∷ 1 ∷ 4 ∷ stack 1020 ∷ []) (success ∷ uninit stack 1019)
            ∙ sym (append_assoc prefix (1 ∷ 1 ∷ 4 ∷ stack 1020 ∷ success ∷ []) (uninit stack 1019)))

  pub uart_response_lem :
      (line : Option LineSettings)
      → uart_response stack prefix line
        ≡ ok (record {
          length = 25;
          data_bytes = reply stack prefix (success_byte line) ++ uninit stack 1019;
        })
  unfolding uart_response init_message set_message_prefix set_message_protocol set_message_command
      set_message_data
  uart_response_lem line =
      let whole : read_bytes prefix 0 20 ≡ ok prefix =
        read_bytes_ok prefix 0 20 (omega arith)
        ∙ ap (λ k. ok (take k prefix)) (sym twenty)
        ∙ ap (λ l. ok l) (take-length prefix) in
      let one : read_bytes (success_byte line ∷ []) 0 1 ≡ ok (success_byte line ∷ []) =
        read_bytes_ok (success_byte line ∷ []) 0 1 (omega arith) in
      rw
        (
          header_set,
          whole,
          prefix_set,
          write_byte_split prefix (stack 1022 ∷ 4 ∷ stack 1020 ∷ stack 1019 ∷ uninit stack 1019)
              (stack 1023) 20 1 (sym twenty),
          write_byte_second prefix (4 ∷ stack 1020 ∷ stack 1019 ∷ uninit stack 1019) 1 (stack 1022)
              21 1 (omega arith),
          one,
          success_set (success_byte line),
        )
        refl
