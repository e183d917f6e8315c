-- ===== src/Modbus/Request/Exchange.antt =====
-- A request over Modbus TCP from the call to the response.
use modbus_sphere_library.Base.{
  ℕ, ◌+◌, ◌%◌, ◌^◌, ◌≤◌, ◌<◌, ◌≡◌, refl, ap, ◌∙◌, List, [], ◌∷◌, ◌++◌, Bool, true, false, some,
  arith, ==_iff, drop, length, if◌then◌else◌,
}
use modbus_sphere_library.Outcome.{Outcome, ok, Returns, Returns->>=}
use modbus_sphere_library.Modbus.Types.{tcp, waiting_for_response, Env, World, modbus_timeout}
use modbus_sphere_library.Modbus.Transport.{is_sent, after_send, mbap_header, modbus_write}
use modbus_sphere_library.Modbus.Transport.Frames.{frame, sending, modbus_write-frame}
use modbus_sphere_library.Modbus.Receive.Buffer.{IsValid}
use modbus_sphere_library.Modbus.Receive.Tcp.{Buffered, Answers, Response, response_pdu}
use modbus_sphere_library.Modbus.Wait.{wait_for_data}
use modbus_sphere_library.Modbus.Wait.Arrival.{IsAnswered, Arrives, wait_for_data-Arrives}
use modbus_sphere_library.Modbus.Request.{Reply, check_response, exchange, fail_with}
use modbus_sphere_library.Modbus.Request.Checks.{Holds}

-- The message as it goes out on Modbus TCP.
abbrev pub tcp_adu : World → List ℕ → List ℕ
tcp_adu w message = mbap_header w.transaction_identifier (length message) ++ message

-- The state once `send` has taken the request.
unfoldable pub requested : World → List ℕ → World
requested w message = record w {
  hndl = record w.hndl {
    is_cfg = false;
    state = waiting_for_response;
    pdu_length = 0;
    transaction_id = w.transaction_identifier;
  };
  transaction_identifier = (w.transaction_identifier + 1) % 2 ^ 16;
  wire = tcp_adu w message ∷ w.wire;
}

-- A Modbus TCP handle with nothing in its buffer, on a connection that takes the message.
pub record Ready (env : Env) (w : World) (message : List ℕ) : Type 0 where
  pub on_tcp : w.hndl.type ≡ tcp
  pub is_valid : IsValid w.hndl
  pub empty : Buffered w.hndl []
  pub takes : env.send w.hndl.fd (tcp_adu w message) ≡ some (length (tcp_adu w message))
  pub short : length message ≤ 252

abbrev pub data_mode : World → World
data_mode w = record w { hndl = record w.hndl { is_cfg = false } }

module _ (env : Env) (w : World) (message rest : List ℕ) (ready : Ready env w message) where
  taken : is_sent (env.send w.hndl.fd (tcp_adu w message)) (length (tcp_adu w message)) ≡ true
  unfolding is_sent
  taken =
      ap (λ s. is_sent s (length (tcp_adu w message))) ready.takes
      ∙ (==_iff (length (tcp_adu w message)) (length (tcp_adu w message))).1 refl

  write_requested :
      modbus_write env (data_mode w) (message ++ rest) (length message)
      ≡ ok (true, requested w message)
  unfolding after_send sending requested frame
  write_requested =
      let framed : frame env (data_mode w) w.hndl.type message ≡ tcp_adu w message =
        ap (λ t. frame env (data_mode w) t message) ready.on_tcp in
      modbus_write-frame env (data_mode w) message rest ready.short
      ∙ ap (λ f. ok (after_send env (sending (data_mode w)) f (length f))) framed
      ∙ rw taken

  waited :
      (timeout : ℕ) (r : Response) (n : ℕ) (p : List ℕ) (ps : List (List ℕ))
      → Answers w.transaction_identifier r
      → Arrives env (requested w message) r n p ps
      → n ≤ timeout
      → timeout + 2 < 2 ^ 32
      → timeout + 2 ≤ env.fuel
      → Returns
          (IsAnswered (requested w message) r)
          (wait_for_data env (requested w message) timeout)
  unfolding requested
  waited timeout r n p ps ans arrives in_time big enough =
      wait_for_data-Arrives env timeout big r (requested w message) n p ps
        (record { on_tcp = ready.on_tcp; is_awaiting = refl; no_cfg = refl })
        (record {
          junk = ready.empty.junk;
          contents = ready.empty.contents;
          counted = ready.empty.counted;
        })
        (record {
          buffer_size = ready.is_valid.buffer_size;
          buffered = ready.is_valid.buffered;
          pdu_size = ready.is_valid.pdu_size;
          pdu_fits = omega arith;
        })
        ans arrives in_time enough

  -- A request that is answered in time comes to the checks of the response.
  pub exchange-answered :
      (f_code : ℕ) (read_array : List ℕ) (timeout : ℕ) (copy : World → List ℕ → Outcome (List ℕ))
      (r : Response) (n : ℕ) (p : List ℕ) (ps : List (List ℕ)) (Post : Reply → Type 0)
      → Answers w.transaction_identifier r
      → Arrives env (requested w message) r n p ps
      → n ≤ timeout
      → timeout + 2 < 2 ^ 32
      → timeout + 2 ≤ env.fuel
      → ((answered : World)
          → Holds answered.hndl r
          → IsAnswered (requested w message) r (true, answered)
          → Returns Post (check_response answered f_code read_array copy))
      → Returns Post
          (exchange env w (message ++ rest) (length message) f_code read_array timeout copy)
  unfolding exchange
  exchange-answered f_code read_array timeout copy r n p ps Post ans arrives in_time big enough
        post =
      rw write_requested (
        Returns->>= (IsAnswered (requested w message) r) Post
          (wait_for_data env (requested w message) timeout) _
          (waited timeout r n p ps ans arrives in_time big enough)
          (λ out answered. checked out.0 out.1 answered.received answered))
    where
      checked :
          (received : Bool) (answered : World)
          → received ≡ true
          → IsAnswered (requested w message) r (received, answered)
          → Returns Post (
              if received
              then check_response answered f_code read_array copy
              else fail_with modbus_timeout read_array answered)
      checked true answered e a =
          post answered
            (record {
              tail = drop (length (response_pdu r)) (requested w message).hndl.pdu;
              pdu_is = a.new_pdu;
              length_is = a.new_length;
            })
            a
      checked false answered e a = cc
