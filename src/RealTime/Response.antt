-- ===== src/RealTime/Response.antt =====
-- The message for the A7 that `HandleUartIsu0RxIrqDeferred` (main.c) makes of a response.
use modbus_sphere_library.Base.{
  ℕ, ◌+◌, ◌≤◌, ◌≡◌, refl, sym, ap, ◌∙◌, List, [], ◌∷◌, ◌++◌, append_assoc, false, arith, ltb,
  length, length-append, length-take, drop, take, take-append-drop, take-length,
}
use modbus_sphere_library.Outcome.{ok}
use modbus_sphere_library.Memory.{
  uninit, length-uninit, read_bytes, read_bytes_ok, write_bytes, read_bytes_split,
  write_bytes_front, write_bytes_split, write_byte_split, write_byte_second,
}
use modbus_sphere_library.RealTime.Message.{
  MessageHandle, set_message_prefix, set_message_protocol, set_message_command, set_message_data,
}
use modbus_sphere_library.RealTime.Handlers.{rt_response}

-- The message that the A7 gets; the header's last two bytes are not set.
abbrev pub response : (ℕ → ℕ) → List ℕ → List ℕ → MessageHandle
response stack prefix message = record {
  length = length message + 20 + 4;
  data_bytes =
      prefix
      ++ (2 ∷ 1 ∷ stack 1021 ∷ stack 1020 ∷ (message ++ drop (length message) (uninit stack 1020)));
}

module _ (stack : ℕ → ℕ) (prefix : List ℕ) (twenty : length prefix ≡ 20) (message rest : List ℕ)
    (short : length message ≤ 1020) where
  area : List ℕ
  area = uninit stack 1020

  whole : read_bytes prefix 0 20 ≡ ok prefix
  whole =
      read_bytes_ok prefix 0 20 (omega arith)
      ∙ ap (λ k. ok (take k prefix)) (sym twenty)
      ∙ ap (λ l. ok l) (take-length prefix)

  prefixed :
      write_bytes (uninit stack 1044) 0 prefix
      ≡ ok (prefix ++ (stack 1023 ∷ stack 1022 ∷ stack 1021 ∷ stack 1020 ∷ area))
  unfolding area uninit
  prefixed =
      write_bytes_front (uninit stack 1044) prefix (omega (arith, length-uninit stack 1044))
      ∙ ap (λ k. ok (prefix ++ drop k (uninit stack 1044))) twenty

  body : read_bytes (message ++ rest) 0 (length message) ≡ ok message
  body = read_bytes_split [] message rest 0 (length message) refl refl

  placed :
      write_bytes (prefix ++ (2 ∷ 1 ∷ stack 1021 ∷ stack 1020 ∷ area)) 24 message
      ≡ ok ((response stack prefix message).data_bytes)
  unfolding area
  placed =
      let head = prefix ++ (2 ∷ 1 ∷ stack 1021 ∷ stack 1020 ∷ []) in
      let n = length message in
      let long : length head ≡ 24 =
        omega (arith, length-append prefix (2 ∷ 1 ∷ stack 1021 ∷ stack 1020 ∷ [])) in
      let room : length (take n area) ≡ n =
        omega (arith, length-take n area, length-uninit stack 1020) in
      ap (λ l. write_bytes l 24 message)
        (sym (append_assoc prefix (2 ∷ 1 ∷ stack 1021 ∷ stack 1020 ∷ []) area)
          ∙ ap (λ l. head ++ l) (sym (take-append-drop n area)))
      ∙ write_bytes_split head (take n area) (drop n area) 24 message (sym long) (sym room)
      ∙ ap (λ l. ok l)
          (append_assoc prefix (2 ∷ 1 ∷ stack 1021 ∷ stack 1020 ∷ []) (message ++ drop n area))

  pub rt_response_lem :
      rt_response stack prefix (message ++ rest) (length message)
      ≡ ok (response stack prefix message)
  unfolding rt_response set_message_prefix set_message_protocol set_message_command set_message_data
  rt_response_lem =
      let fits : ltb 1020 (length message) ≡ false = ground arith in
      rw (
        whole,
        prefixed,
        write_byte_split prefix (stack 1022 ∷ stack 1021 ∷ stack 1020 ∷ area) (stack 1023) 20 2
            (sym twenty),
        write_byte_second prefix (stack 1021 ∷ stack 1020 ∷ area) 2 (stack 1022) 21 1 (omega arith),
        fits,
        body,
        placed,
      )
