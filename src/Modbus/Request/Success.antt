-- ===== src/Modbus/Request/Success.antt =====
-- What a request that is answered over Modbus TCP leaves to its caller.
use modbus_sphere_library.Base.{
  ℕ, ◌+◌, ◌^◌, ◌≤◌, ◌<◌, ◌≡◌, refl, ap, List, [], ◌∷◌, true, false, drop, length, append-nil,
}
use mathlib.Core.Path.{subst}
use modbus_sphere_library.Outcome.{Outcome, ok, Returns}
use modbus_sphere_library.Memory.{write_byte, write_bytes_front}
use modbus_sphere_library.Modbus.Types.{idle, Env, World, is_idle}
use modbus_sphere_library.Modbus.Receive.Tcp.{Answers, Response}
use modbus_sphere_library.Modbus.Wait.Arrival.{Arrives}
use modbus_sphere_library.Modbus.Request.{Reply, when_idle, fail_with, exchange}
use modbus_sphere_library.Modbus.Request.Checks.{
  Holds, check_response-matching, check_response-exception,
}
use modbus_sphere_library.Modbus.Request.Exchange.{Ready, tcp_adu, requested, exchange-answered}

-- A successful call: the caller's array, an idle handle, and exactly one message sent.
pub record Succeeds (w : World) (message filled : List ℕ) (reply : Reply) : Type 0 where
  pub returned : reply.result ≡ true
  pub array : reply.read_array ≡ filled
  pub free_again : reply.world.hndl.state ≡ idle
  pub one_sent : reply.world.wire ≡ tcp_adu w message ∷ w.wire

-- The conditions on an exchange: an idle handle, a fitting response that arrives in time, and fuel
-- for the wait.
pub record Exchanged (env : Env) (w : World) (message : List ℕ) (r : Response) (timeout n : ℕ)
    (p : List ℕ) (ps : List (List ℕ)) : Type 0 where
  pub free : w.hndl.state ≡ idle
  pub ready : Ready env w message
  pub answers : Answers w.transaction_identifier r
  pub arrives : Arrives env (requested w message) r n p ps
  pub in_time : n ≤ timeout
  pub bounded : timeout + 2 < 2 ^ 32
  pub enough : timeout + 2 ≤ env.fuel

pub when_idle_lem :
    (w : World) (read_array : List ℕ) (request : Outcome Reply)
    → w.hndl.state ≡ idle
    → when_idle w read_array request ≡ request
unfolding when_idle is_idle
when_idle_lem w read_array request e =
    let free : is_idle w.hndl.state ≡ true = ap is_idle e in rw free

module _ (env : Env) (w : World) (message : List ℕ) (r : Response) (timeout n : ℕ) (p : List ℕ)
    (ps : List (List ℕ)) (x : Exchanged env w message r timeout n p ps) (f_code : ℕ)
    (read_array : List ℕ) where
  -- An exchange whose copying function gives `filled`.
  pub exchange-copies :
      (copy : World → List ℕ → Outcome (List ℕ)) (filled : List ℕ)
      → r.f_code ≡ f_code
      → f_code < 128
      → ((answered : World) → Holds answered.hndl r → copy answered read_array ≡ ok filled)
      → Returns
          (Succeeds w message filled)
          (exchange env w message (length message) f_code read_array timeout copy)
  unfolding requested
  exchange-copies copy filled same low copied =
      subst
        (λ l.
          Returns (Succeeds w message filled)
            (exchange env w l (length message) f_code read_array timeout copy))
        (append-nil message)
        (exchange-answered env w message [] x.ready f_code read_array timeout copy r n p ps
          (Succeeds w message filled) x.answers x.arrives x.in_time x.bounded x.enough
          λ answered holds a.
            rw
              (
                check_response-matching answered r holds f_code read_array copy same low,
                copied answered holds,
              )
              (record {
                returned = refl;
                array = refl;
                free_again = a.is_free;
                one_sent = a.same_wire;
              }))

  -- A request on an idle, valid TCP handle with an empty buffer, whose request is sent whole and
  -- whose fitting response (the length of its function code, at most 253 bytes with its header, the
  -- request's identifier) comes after at most `timeout` silent sleeps and all within one sleep,
  -- with fuel for the wait, that is answered with a function code from 128 to 255, of which only those
  -- from 129 to 160 have a length, fails with the third byte of the response in the caller's array,
  -- which has room for it, and leaves the handle idle.
  pub exchange-exception :
      (copy : World → List ℕ → Outcome (List ℕ))
      → 128 ≤ r.f_code
      → r.f_code < 256
      → 1 ≤ length read_array
      → Returns
          (λ reply.
            (reply.result ≡ false)
            × (reply.read_array ≡ r.third ∷ drop 1 read_array)
            × (reply.world.hndl.state ≡ idle))
          (exchange env w message (length message) f_code read_array timeout copy)
  unfolding fail_with write_byte
  exchange-exception copy high byte room =
      subst
        (λ l.
          Returns
            (λ reply.
              (reply.result ≡ false)
              × (reply.read_array ≡ r.third ∷ drop 1 read_array)
              × (reply.world.hndl.state ≡ idle))
            (exchange env w l (length message) f_code read_array timeout copy))
        (append-nil message)
        (exchange-answered env w message [] x.ready f_code read_array timeout copy r n p ps
          (λ reply.
            (reply.result ≡ false)
            × (reply.read_array ≡ r.third ∷ drop 1 read_array)
            × (reply.world.hndl.state ≡ idle))
          x.answers x.arrives x.in_time x.bounded x.enough
          λ answered holds a.
            rw
              (
                check_response-exception answered r holds f_code read_array copy high byte,
                write_bytes_front read_array (r.third ∷ []) room,
              )
              (refl, refl, a.is_free))
