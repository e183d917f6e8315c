-- ===== src/Modbus/Request/Checks.antt =====
-- The checks of a response, for each kind of response.
use modbus_sphere_library.Base.{
  ℕ, ◌*◌, ◌/◌, ◌%◌, ◌^◌, ◌≤◌, ◌<◌, ◌≡◌, ◌≢◌, refl, ap, ◌∙◌, List, [], ◌∷◌, ◌++◌, true, false, arith,
  ◌==◌, ==_iff, zero, suc, drop, length,
}
use modbus_sphere_library.Outcome.{Outcome, ok, ◌>>=◌}
use modbus_sphere_library.Memory.{
  read_byte, read_byte_split, read_bytes, read_bytes_split, write_bytes_front,
}
use modbus_sphere_library.Modbus.Types.{Modbus, World, invalid_response}
use modbus_sphere_library.Modbus.Receive.Tcp.{Response, response_pdu}
use modbus_sphere_library.Modbus.Request.{
  fail_with, check_response, pdu_data_length, copy_data, copy_registers, copy_echo, registers,
}

-- The handle holds the PDU of `r`.
pub record Holds (h : Modbus) (r : Response) : Type 0 where
  pub tail : List ℕ
  pub pdu_is : h.pdu ≡ response_pdu r ++ tail
  pub length_is : h.pdu_length ≡ length (response_pdu r)

no_exception : (f : ℕ) → f < 128 → (f / 2 ^ 7 % 2 == 1) ≡ false
no_exception f h = ground arith

exception : (f : ℕ) → 128 ≤ f → f < 256 → (f / 2 ^ 7 % 2 == 1) ≡ true
exception f h h' = ground arith

module _ (w : World) (r : Response) (holds : Holds w.hndl r) (f_code : ℕ) (read_array : List ℕ)
    (copy : World → List ℕ → Outcome (List ℕ)) where
  code_byte : read_byte w.hndl.pdu 1 ≡ ok r.f_code
  code_byte =
      ap (λ l. read_byte l 1) holds.pdu_is
      ∙ read_byte_split (r.slave ∷ []) (r.third ∷ (r.rest ++ holds.tail)) r.f_code 1 refl

  third_byte : read_byte w.hndl.pdu 2 ≡ ok r.third
  third_byte =
      ap (λ l. read_byte l 2) holds.pdu_is
      ∙ read_byte_split (r.slave ∷ r.f_code ∷ []) (r.rest ++ holds.tail) r.third 2 refl

  -- A response with the requested function code is copied.
  pub check_response-matching :
      r.f_code ≡ f_code
      → f_code < 128
      → check_response w f_code read_array copy ≡ (do
        filled ← copy w read_array
        ok (record { result = true; read_array = filled; world = w }))
  unfolding check_response
  check_response-matching same low =
      let plain : (r.f_code / 2 ^ 7 % 2 == 1) ≡ false = no_exception r.f_code (omega arith) in
      let equal : (r.f_code == f_code) ≡ true = (==_iff r.f_code f_code).1 same in
      rw (code_byte, plain, equal)

  -- An exception is passed on by its code.
  pub check_response-exception :
      128 ≤ r.f_code
      → r.f_code < 256
      → check_response w f_code read_array copy ≡ fail_with r.third read_array w
  unfolding check_response
  check_response-exception high byte = rw (code_byte, exception r.f_code high byte, third_byte)

  -- Any other function code is refused.
  pub check_response-other :
      r.f_code < 128
      → r.f_code ≢ f_code
      → check_response w f_code read_array copy ≡ fail_with invalid_response read_array w
  unfolding check_response
  check_response-other low other =
      let unequal : (r.f_code == f_code) ≡ false = ground arith in
      rw (code_byte, no_exception r.f_code low, unequal)

length-registers : (m : ℕ) (bytes : List ℕ) → length bytes ≡ m * 2 → length (registers bytes) ≡ m
unfolding registers
length-registers zero [] h = refl
length-registers zero (x ∷ bytes) h = absurd (omega arith)
length-registers (suc m) [] h = absurd (omega arith)
length-registers (suc m) (x ∷ []) h = absurd (omega arith)
length-registers (suc m) (x ∷ y ∷ bytes) h = ap suc (length-registers m bytes (omega arith))

module _ (w : World) (r : Response) (holds : Holds w.hndl r) (small : length r.rest ≤ 250)
    (expected : ℕ) (read_array : List ℕ) where
  counted : pdu_data_length w.hndl expected ≡ length r.rest
  unfolding pdu_data_length
  counted = omega (arith, holds.length_is)

  data_bytes : read_bytes w.hndl.pdu 3 (length r.rest) ≡ ok r.rest
  data_bytes =
      ap (λ l. read_bytes l 3 (length r.rest)) holds.pdu_is
      ∙ read_bytes_split (r.slave ∷ r.f_code ∷ r.third ∷ []) r.rest holds.tail 3 (length r.rest)
          refl refl

  -- The data of the response fills the start of the caller's array.
  pub copy_data_lem :
      length r.rest ≤ length read_array
      → copy_data expected w read_array ≡ ok (r.rest ++ drop (length r.rest) read_array)
  unfolding copy_data
  copy_data_lem room = rw (counted, data_bytes, write_bytes_front read_array r.rest room)

  -- So do the registers, if the data has an even length.
  pub copy_registers_lem :
      (m : ℕ)
      → length r.rest ≡ m * 2
      → m ≤ length read_array
      → copy_registers expected w read_array ≡ ok (registers r.rest ++ drop m read_array)
  unfolding copy_registers
  copy_registers_lem m even room =
      let words : length (registers r.rest) ≡ m = length-registers m r.rest even in
      let whole : length r.rest / 2 * 2 ≡ length r.rest = omega arith in
      rw (counted, whole, data_bytes, write_bytes_front read_array (registers r.rest) (omega arith))
        (ap (λ k. ok (registers r.rest ++ drop k read_array)) words)

-- The echo of a write request: the four bytes behind the function code.
pub copy_echo_lem :
    (w : World) (r : Response) (holds : Holds w.hndl r) (a b c : ℕ) (more read_array : List ℕ)
    → r.rest ≡ a ∷ b ∷ c ∷ more
    → 4 ≤ length read_array
    → copy_echo w read_array ≡ ok (r.third ∷ a ∷ b ∷ c ∷ drop 4 read_array)
unfolding copy_echo
copy_echo_lem w r holds a b c more read_array e room =
    let shape : w.hndl.pdu ≡ r.slave ∷ r.f_code ∷ r.third ∷ a ∷ b ∷ c ∷ (more ++ holds.tail) =
      holds.pdu_is ∙ ap (λ l. r.slave ∷ r.f_code ∷ r.third ∷ (l ++ holds.tail)) e in
    let echoed : read_bytes w.hndl.pdu 2 4 ≡ ok (r.third ∷ a ∷ b ∷ c ∷ []) =
      ap (λ l. read_bytes l 2 4) shape
      ∙ read_bytes_split (r.slave ∷ r.f_code ∷ []) (r.third ∷ a ∷ b ∷ c ∷ []) (more ++ holds.tail) 2
          4 refl refl in
    rw (echoed, write_bytes_front read_array (r.third ∷ a ∷ b ∷ c ∷ []) room)
