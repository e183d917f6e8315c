-- ===== src/Modbus/Wait/Arrival.antt =====
-- `WaitForData` (modbus.c) when a response arrives within the timeout.
use modbus_sphere_library.Base.{
  ℕ, suc, ◌+◌, ◌-◌, ◌%◌, ◌^◌, ◌≤◌, ◌<◌, ◌≡◌, refl, ap, ◌∙◌, List, [], ◌∷◌, ◌++◌, map, Bool, true,
  false, ◌&&◌, arith, ltb, drop, length,
}
use modbus_sphere_library.Outcome.{ok, Returns, Returns->>=}
use modbus_sphere_library.Modbus.Types.{idle, Modbus, Env, World, is_data_received}
use modbus_sphere_library.Modbus.Receive.Buffer.{IsValid}
use modbus_sphere_library.Modbus.Receive.Tcp.{
  Buffered, Awaits, Answers, Response, response_frame, response_pdu,
}
use modbus_sphere_library.Modbus.Wait.{epoll_events, is_finished, wait_loop, wait_for_data}
use modbus_sphere_library.Modbus.Wait.Reassembly.{
  piece_event, concat, NoneEmpty, IsDelivered, reassemble,
}
use modbus_sphere_library.Modbus.Wait.Timing.{Quiet, later, quiet, finished_round}

-- What a successful wait leaves: data, and an idle handle that holds the response.
pub record IsAnswered (w : World) (r : Response) (out : Bool × World) : Type 0 where
  pub received : out.0 ≡ true
  pub is_free : out.1.hndl.state ≡ idle
  pub new_pdu : out.1.hndl.pdu ≡ response_pdu r ++ drop (length (response_pdu r)) w.hndl.pdu
  pub new_length : out.1.hndl.pdu_length ≡ length (response_pdu r)
  pub last_id : out.1.hndl.last_transaction_id ≡ w.hndl.transaction_id
  pub emptied : out.1.hndl.buffered_message_length ≡ 0
  pub same_wire : out.1.wire ≡ w.wire
  pub same_identifier : out.1.transaction_identifier ≡ w.transaction_identifier

-- The handle of `w'` holds the response; nothing was sent.
record Held (w : World) (r : Response) (w' : World) : Type 0 where
  delivery : IsDelivered w.hndl r w'.hndl
  wire_kept : w'.wire ≡ w.wire
  identifier_kept : w'.transaction_identifier ≡ w.transaction_identifier

-- After `n` silent sleeps the pieces of the response arrive in one sleep.
pub record Arrives (env : Env) (w : World) (r : Response) (n : ℕ) (p : List ℕ) (ps : List (List ℕ))
    : Type 0 where
  pub silent : Quiet env w n
  pub arrive : env.polls (w.tick + n) ≡ map piece_event (p ∷ ps)
  pub not_empty : NoneEmpty ps
  pub whole : p ++ concat ps ≡ response_frame r

module _ (env : Env) (timeout : ℕ) (big : timeout + 2 < 2 ^ 32) (r : Response) where
  arrival_round :
      (m counter : ℕ) (w : World) (p : List ℕ) (ps : List (List ℕ))
      → Awaits w.hndl
      → Buffered w.hndl []
      → IsValid w.hndl
      → Answers w.hndl.transaction_id r
      → NoneEmpty ps
      → p ++ concat ps ≡ response_frame r
      → env.polls w.tick ≡ map piece_event (p ∷ ps)
      → Returns (Held w r) (wait_loop env (suc (suc m)) w timeout counter)
  unfolding wait_loop is_finished
  arrival_round m counter w p ps a b v ans ne whole polls =
      let going : is_finished w.hndl.state ≡ false = ap is_finished a.is_awaiting in
      rw (going, wait_loop, polls)
        (Returns->>= (IsDelivered w.hndl r) (Held w r)
          (epoll_events env.stack w.hndl (map piece_event (p ∷ ps))) _
          (reassemble env.stack r p ps w.hndl [] a b v ans ne whole)
          λ h' d. after h' d (ltb 0 timeout && ltb timeout counter))
    where
      after :
          (h' : Modbus)
          → IsDelivered w.hndl r h'
          → (b : Bool)
          → Returns (Held w r) (elim b [
            | true ↦ ok (record w { hndl = h'; tick = w.tick + 1 })
            | false ↦
                wait_loop env
                  (suc m)
                  (record w { hndl = h'; tick = w.tick + 1 })
                  timeout
                  ((counter + 1) % 2 ^ 32)
          ])
      after h' d true = record { delivery = d; wire_kept = refl; identifier_kept = refl }
      after h' d false =
          rw
            (finished_round env timeout big m ((counter + 1) % 2 ^ 32)
              (record w { hndl = h'; tick = w.tick + 1 }) d.got_data)
            (record { delivery = d; wire_kept = refl; identifier_kept = refl })

  -- For a valid TCP handle that waits with an empty buffer: if a response of the length of its
  -- function code, of at most 253 bytes and with the awaited identifier comes in pieces within one
  -- sleep after at most `timeout` silent ones, and `timeout + 2` is below `2 ^ 32` and covered by
  -- the fuel, `WaitForData` reports data, and the handle holds the response, an empty buffer and
  -- the state idle.
  pub wait_for_data-Arrives :
      (w : World) (n : ℕ) (p : List ℕ) (ps : List (List ℕ))
      → Awaits w.hndl
      → Buffered w.hndl []
      → IsValid w.hndl
      → Answers w.hndl.transaction_id r
      → Arrives env w r n p ps
      → n ≤ timeout
      → timeout + 2 ≤ env.fuel
      → Returns (IsAnswered w r) (wait_for_data env w timeout)
  unfolding wait_for_data later is_data_received is_finished
  wait_for_data-Arrives w n p ps a b v ans arrives in_time enough =
      let going : is_finished w.hndl.state ≡ false = ap is_finished a.is_awaiting in
      let split : env.fuel ≡ n + suc (suc (env.fuel - n - 2)) = omega arith in
      let waited : wait_loop env env.fuel w timeout 0
          ≡ wait_loop env (suc (suc (env.fuel - n - 2))) (later w n) timeout (0 + n) =
        ap (λ k. wait_loop env k w timeout 0) split
        ∙ quiet env timeout big n (suc (suc (env.fuel - n - 2))) 0 w going arrives.silent
            (omega arith) in
      rw waited (
        Returns->>= (Held (later w n) r) (IsAnswered w r)
          (wait_loop env (suc (suc (env.fuel - n - 2))) (later w n) timeout (0 + n)) _
          (arrival_round (env.fuel - n - 2) (0 + n) (later w n) p ps a b v ans arrives.not_empty
            arrives.whole arrives.arrive)
          λ w' d. record {
            received = ap is_data_received d.delivery.got_data;
            is_free = refl;
            new_pdu = d.delivery.new_pdu;
            new_length = d.delivery.new_length;
            last_id = d.delivery.last_id;
            emptied = d.delivery.emptied;
            same_wire = d.wire_kept;
            same_identifier = d.identifier_kept;
          })
