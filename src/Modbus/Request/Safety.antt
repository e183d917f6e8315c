-- ===== src/Modbus/Request/Safety.antt =====
-- A request that copies a part of the response with a fixed size, whatever the device sends.
use modbus_sphere_library.Base.{
  ℕ, ◌+◌, ◌%◌, ◌/◌, ◌^◌, ◌≤◌, ◌<◌, ◌≡◌, refl, sym, ◌∙◌, List, [], ◌∷◌, ◌++◌, true, arith, length,
  take, drop, inl, inr, Bool-cases, if◌then◌else◌, ◌==◌, take-append-drop, length-take,
}
use mathlib.Core.Path.{subst}
use modbus_sphere_library.Outcome.{
  Outcome, Returns, Returns->>=, Returns-if, Returns-elim, if-elim, Returns-elim, if-elim,
}
use modbus_sphere_library.Memory.{
  write_bytes_fit, read_bytes_fit, read_byte_ok, write_byte, write_bytes, read_bytes,
}
use modbus_sphere_library.Modbus.Types.{
  ModbusState, idle, sending_request, waiting_for_response, data_received, transaction_failed,
  disconnected, Env, World, is_idle, modbus_timeout, message_send_fail, invalid_response,
}
use modbus_sphere_library.Modbus.Transport.{is_sent, after_send}
use modbus_sphere_library.Modbus.Transport.Frames.{frame, sending, modbus_write-frame}
use modbus_sphere_library.Modbus.Receive.Buffer.{IsValid}
use modbus_sphere_library.Modbus.Wait.{wait_for_data, not_ready_reason}
use modbus_sphere_library.Modbus.Wait.Loop.{AllFit, IsWaited, wait_for_data-Returns}
use modbus_sphere_library.Modbus.Request.{
  Reply, when_idle, fail_with, check_response, exchange, copy_echo,
}
use modbus_sphere_library.Modbus.Request.Exchange.{data_mode}

-- The handle is valid and in the state that it was called in, the caller's array has its size, and
-- these messages have been sent.
pub record IsSafe (w : World) (read_array : List ℕ) (wire : List (List ℕ)) (r : Reply)
    : Type 0 where
  pub valid : IsValid r.world.hndl
  pub same_state : r.world.hndl.state ≡ w.hndl.state
  pub same_size : length r.read_array ≡ length read_array
  pub sent : r.world.wire ≡ wire

pub is_idle-eq : (s : ModbusState) → is_idle s ≡ true → s ≡ idle
unfolding is_idle
is_idle-eq idle e = refl
is_idle-eq sending_request e = cc
is_idle-eq waiting_for_response e = cc
is_idle-eq data_received e = cc
is_idle-eq transaction_failed e = cc
is_idle-eq disconnected e = cc

pub copy_echo_fit :
    (w : World) (read_array : List ℕ)
    → IsValid w.hndl
    → 4 ≤ length read_array
    → Returns (λ l. length l ≡ length read_array) (copy_echo w read_array)
unfolding copy_echo
copy_echo_fit w read_array v room =
    Returns->>= (λ bytes. length bytes ≡ 4) (λ l. length l ≡ length read_array)
      (read_bytes w.hndl.pdu 2 4) _ (read_bytes_fit w.hndl.pdu 2 4 (omega (arith, v.pdu_size)))
      λ bytes four. write_bytes_fit read_array 0 bytes (omega (arith, four))

module _ (w : World) (read_array : List ℕ) (wire : List (List ℕ))
    (some_room : 1 ≤ length read_array) where
  pub failed :
      (code : ℕ) (w' : World)
      → IsValid w'.hndl
      → w'.hndl.state ≡ w.hndl.state
      → w'.wire ≡ wire
      → Returns (IsSafe w read_array wire) (fail_with code read_array w')
  unfolding fail_with write_byte
  failed code w' v s e =
      Returns->>= (λ l. length l ≡ length read_array) (IsSafe w read_array wire)
        (write_bytes read_array 0 (code ∷ [])) _
        (write_bytes_fit read_array 0 (code ∷ []) (omega arith))
        λ stored size. record { valid = v; same_state = s; same_size = size; sent = e }

  checked :
      (w' : World) (f_code : ℕ) (copy : World → List ℕ → Outcome (List ℕ))
      → ((u : World)
          → IsValid u.hndl
          → Returns (λ l. length l ≡ length read_array) (copy u read_array))
      → IsValid w'.hndl
      → w'.hndl.state ≡ w.hndl.state
      → w'.wire ≡ wire
      → Returns (IsSafe w read_array wire) (check_response w' f_code read_array copy)
  unfolding check_response
  checked w' f_code copy fit v s e =
      let (received, e1) = read_byte_ok w'.hndl.pdu 1 (omega (arith, v.pdu_size)) in
      let (code, e2) = read_byte_ok w'.hndl.pdu 2 (omega (arith, v.pdu_size)) in
      rw (e1, e2)
        (Returns-if (IsSafe w read_array wire) (received / 2 ^ 7 % 2 == 1)
          (fail_with code read_array w') _ (failed code w' v s e)
          (Returns-if (IsSafe w read_array wire) (received == f_code) _
            (fail_with invalid_response read_array w')
            (Returns->>= (λ l. length l ≡ length read_array) (IsSafe w read_array wire)
              (copy w' read_array) _ (fit w' v)
              λ filled size. record { valid = v; same_state = s; same_size = size; sent = e })
            (failed invalid_response w' v s e)))

-- What has been sent after a request: its frame, if the handle was idle.
abbrev pub wire_after : Env → World → List ℕ → List (List ℕ)
wire_after env w message =
    if is_idle w.hndl.state then frame env (data_mode w) w.hndl.type message ∷ w.wire else w.wire

module _ (env : Env) (fit : (k : ℕ) → AllFit (env.polls k)) (timeout : ℕ) (pos : 0 < timeout)
    (big : timeout + 2 < 2 ^ 32) (enough : timeout + 2 ≤ env.fuel) (w : World)
    (valid : IsValid w.hndl) (read_array : List ℕ) (room : 4 ≤ length read_array) where
  -- What holds after each of the ways in which a request can end.
  pub exchange_cases :
      (message rest : List ℕ) (f_code : ℕ) (copy : World → List ℕ → Outcome (List ℕ))
      (Q : Outcome Reply → Type 0)
      → length message ≤ 252
      → w.hndl.state ≡ idle
      → ((code : ℕ) (w' : World)
          → IsValid w'.hndl
          → w'.hndl.state ≡ w.hndl.state
          → w'.wire ≡ frame env (data_mode w) w.hndl.type message ∷ w.wire
          → Q (fail_with code read_array w'))
      → ((w' : World)
          → IsValid w'.hndl
          → w'.hndl.state ≡ w.hndl.state
          → w'.wire ≡ frame env (data_mode w) w.hndl.type message ∷ w.wire
          → Q (check_response w' f_code read_array copy))
      → Q (exchange env w (message ++ rest) (length message) f_code read_array timeout copy)
  unfolding exchange after_send sending
  exchange_cases message rest f_code copy Q short free if_failed if_received =
      let f = frame env (data_mode w) w.hndl.type message in
      let written = modbus_write-frame env (data_mode w) message rest short in
      rw written (elim (Bool-cases (is_sent (env.send w.hndl.fd f) (length f))) [
        | inl e ↦ rw e (
            Returns-elim (λ out. IsWaited _ out.1 × (out.1.hndl.state ≡ idle)) Q
              (wait_for_data env _ timeout) _
              (wait_for_data-Returns env fit timeout _
                (record {
                  buffer_size = valid.buffer_size;
                  buffered = valid.buffered;
                  pdu_size = valid.pdu_size;
                  pdu_fits = omega arith;
                })
                pos big enough)
              λ out (waited, idle_again).
                if-elim Q out.0 _ _
                  (if_received out.1 waited.valid (idle_again ∙ sym free) waited.same_wire)
                  (if_failed modbus_timeout out.1 waited.valid (idle_again ∙ sym free)
                    waited.same_wire))
        | inr e ↦ rw e (
            if_failed message_send_fail _
              (record {
                buffer_size = valid.buffer_size;
                buffered = valid.buffered;
                pdu_size = valid.pdu_size;
                pdu_fits = omega arith;
              })
              (sym free) refl)
      ])

  -- A message in front of the rest of its array.
  pub exchange_front-IsSafe :
      (message rest : List ℕ) (f_code : ℕ)
      → length message ≤ 252
      → w.hndl.state ≡ idle
      → Returns
          (IsSafe w read_array (frame env (data_mode w) w.hndl.type message ∷ w.wire))
          (exchange env w (message ++ rest) (length message) f_code read_array timeout copy_echo)
  exchange_front-IsSafe message rest f_code short free =
      let wire = frame env (data_mode w) w.hndl.type message ∷ w.wire in
      exchange_cases message rest f_code copy_echo (λ m. Returns (IsSafe w read_array wire) m) short
        free (λ code w' v s e. failed w read_array wire (omega arith) code w' v s e)
        λ w' v s e.
          checked w read_array wire (omega arith) w' f_code copy_echo
            (λ u v. copy_echo_fit u read_array v room) v s e

  -- The first bytes of an array.
  pub exchange-IsSafe :
      (message : List ℕ) (n f_code : ℕ)
      → n ≤ 252
      → n ≤ length message
      → w.hndl.state ≡ idle
      → Returns
          (IsSafe w read_array (frame env (data_mode w) w.hndl.type (take n message) ∷ w.wire))
          (exchange env w message n f_code read_array timeout copy_echo)
  exchange-IsSafe message n f_code short whole free =
      let size : length (take n message) ≡ n = omega (arith, length-take n message) in
      subst
        (λ l.
          Returns
            (IsSafe w read_array (frame env (data_mode w) w.hndl.type (take n message) ∷ w.wire))
            (exchange env w l n f_code read_array timeout copy_echo))
        (take-append-drop n message)
        (subst
          (λ k.
            Returns
              (IsSafe w read_array (frame env (data_mode w) w.hndl.type (take n message) ∷ w.wire))
              (exchange env w (take n message ++ drop n message) k f_code read_array timeout
                copy_echo))
          size (exchange_front-IsSafe (take n message) (drop n message) f_code (omega arith) free))

  -- Behind the test for an idle handle.
  pub when_idle-IsSafe :
      (message : List ℕ) (request : Outcome Reply)
      → (w.hndl.state ≡ idle
          → Returns
              (IsSafe w read_array (frame env (data_mode w) w.hndl.type message ∷ w.wire))
              request)
      → Returns (IsSafe w read_array (wire_after env w message)) (when_idle w read_array request)
  unfolding when_idle
  when_idle-IsSafe message request safe = elim (Bool-cases (is_idle w.hndl.state)) [
    | inl e ↦ rw e (safe (is_idle-eq w.hndl.state e))
    | inr e ↦
        rw e (failed w read_array w.wire (omega arith) (not_ready_reason w.hndl) w valid refl refl)
  ]
