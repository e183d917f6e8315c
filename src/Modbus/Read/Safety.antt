-- ===== src/Modbus/Read/Safety.antt =====
-- `ReadDiscreteInputs` (modbus.c), on every transport and whatever the device sends.
use modbus_sphere_library.Base.{
  ℕ, ◌+◌, ◌/◌, ◌%◌, ◌^◌, ◌≤◌, ◌<◌, refl, List, [], arith, length, inl, inr, Bool-cases, leb, ◌==◌,
  take, drop, ◌++◌, Option-cases, get_elem?,
}
use modbus_sphere_library.Outcome.{
  ok, fault, Keeps, Keeps->>=, Keeps-if, Returns-Keeps, Returns-imp,
}
use modbus_sphere_library.Memory.{read_byte, read_byte_ok, read_bytes, write_bytes}
use modbus_sphere_library.Modbus.Types.{
  Env, World, is_idle, invalid_response, read_discrete_inputs_code,
}
use modbus_sphere_library.Modbus.Receive.Buffer.{IsValid}
use modbus_sphere_library.Modbus.Wait.{not_ready_reason}
use modbus_sphere_library.Modbus.Wait.Loop.{AllFit}
use modbus_sphere_library.Modbus.Request.{
  Reply, modbus_header, when_idle, fail_with, check_response, copy_data, pdu_data_length,
}
use modbus_sphere_library.Modbus.Request.Safety.{IsSafe, exchange_cases, failed, is_idle-eq}
use modbus_sphere_library.Modbus.Read.{bytes_to_read, read_discrete_inputs}

abbrev HasValid : Reply → Type 0
HasValid r = IsValid r.world.hndl

pub read_byte-Keeps : (xs : List ℕ) (i : ℕ) → Keeps (λ x. Unit {0}) (read_byte xs i)
unfolding read_byte
read_byte-Keeps xs i = elim (Option-cases (get_elem? xs i)) [
  | inl e ↦ rw (e, read_byte) tt
  | inr (x, e) ↦ rw (e, read_byte) tt
]

read_bytes-Keeps : (xs : List ℕ) (off n : ℕ) → Keeps (λ l. Unit {0}) (read_bytes xs off n)
unfolding read_bytes
read_bytes-Keeps xs off n =
    Keeps-if (λ l. Unit {0}) (leb (off + n) (length xs)) (ok (take n (drop off xs))) fault tt tt

write_bytes-Keeps :
    (xs : List ℕ) (off : ℕ) (ys : List ℕ) → Keeps (λ l. Unit {0}) (write_bytes xs off ys)
unfolding write_bytes
write_bytes-Keeps xs off ys =
    Keeps-if (λ l. Unit {0}) (leb (off + length ys) (length xs))
      (ok (take off xs ++ (ys ++ drop (off + length ys) xs))) fault tt tt

-- The copy can go outside the arrays: the response gives its length.
copy_data-Keeps :
    (expected : ℕ) (w : World) (read_array : List ℕ)
    → Keeps (λ l. Unit {0}) (copy_data expected w read_array)
unfolding copy_data
copy_data-Keeps expected w read_array =
    let n = pdu_data_length w.hndl expected in
    Keeps->>= (λ l. Unit {0}) (λ l. Unit {0}) (read_bytes w.hndl.pdu 3 n) (write_bytes read_array 0)
      (read_bytes-Keeps w.hndl.pdu 3 n) λ bytes _. write_bytes-Keeps read_array 0 bytes

module _ (read_array : List ℕ) (room : 1 ≤ length read_array) where
  failed_valid :
      (code : ℕ) (w : World) → IsValid w.hndl → Keeps HasValid (fail_with code read_array w)
  failed_valid code w v = Returns-Keeps HasValid (fail_with code read_array w) (
      Returns-imp (IsSafe w read_array w.wire) HasValid (fail_with code read_array w)
        (failed w read_array w.wire room code w v refl refl) λ r safe. safe.valid)

  checked_valid :
      (w : World) (f_code expected : ℕ)
      → IsValid w.hndl
      → Keeps HasValid (check_response w f_code read_array (copy_data expected))
  unfolding check_response
  checked_valid w f_code expected v =
      let (received, e1) = read_byte_ok w.hndl.pdu 1 (omega (arith, v.pdu_size)) in
      let (code, e2) = read_byte_ok w.hndl.pdu 2 (omega (arith, v.pdu_size)) in
      rw (e1, e2)
        (Keeps-if HasValid (received / 2 ^ 7 % 2 == 1) (fail_with code read_array w) _
          (failed_valid code w v)
          (Keeps-if HasValid (received == f_code) _ (fail_with invalid_response read_array w)
            (Keeps->>= (λ l. Unit {0}) HasValid (copy_data expected w read_array) _
              (copy_data-Keeps expected w read_array) λ filled _. v)
            (failed_valid invalid_response w v)))

-- The client waits no longer than it should, and its handle stays valid, if the response does not
-- lead it outside the array.
pub read_discrete_inputs-Keeps :
    (env : Env) (w : World) (slave address bits timeout : ℕ) (read_array : List ℕ)
    → ((k : ℕ) → AllFit (env.polls k))
    → 0 < timeout
    → timeout + 2 < 2 ^ 32
    → timeout + 2 ≤ env.fuel
    → IsValid w.hndl
    → 4 ≤ length read_array
    → Keeps
        (λ r. IsValid r.world.hndl)
        (read_discrete_inputs env w slave address bits read_array timeout)
unfolding read_discrete_inputs when_idle modbus_header
read_discrete_inputs-Keeps env w slave address bits timeout read_array fit pos big enough valid
      room =
    elim (Bool-cases (is_idle w.hndl.state)) [
      | inl e ↦ rw e (
          exchange_cases env fit timeout pos big enough w valid read_array room
            (modbus_header slave read_discrete_inputs_code address bits) []
            read_discrete_inputs_code (copy_data (bytes_to_read bits)) (λ m. Keeps HasValid m)
            (omega arith) (is_idle-eq w.hndl.state e)
            (λ code w' v s t. failed_valid read_array (omega arith) code w' v)
            λ w' v s t.
              checked_valid read_array (omega arith) w' read_discrete_inputs_code
                (bytes_to_read bits) v)
      | inr e ↦ rw e (failed_valid read_array (omega arith) (not_ready_reason w.hndl) w valid)
    ]
