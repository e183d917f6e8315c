-- ===== src/Modbus/Wait/Reassembly.antt =====
-- Pieces of a response arriving one event at a time.
use modbus_sphere_library.Base.{
  ℕ, ◌+◌, ◌≤◌, ◌<◌, ◌≡◌, refl, sym, ap, ◌∙◌, List, [], ◌∷◌, ◌++◌, append_assoc, append-nil, map,
  true, false, arith, length, drop, length-append, some,
}
use mathlib.Core.Path.{subst}
use modbus_sphere_library.Outcome.{ok}
use modbus_sphere_library.Modbus.Types.{
  MessageHandlerState, success, waiting, Modbus, waiting_for_response,
}
use modbus_sphere_library.Modbus.Receive.{modbus_read}
use modbus_sphere_library.Modbus.Receive.Buffer.{IsValid}
use modbus_sphere_library.Modbus.Types.{Event, data_received, is_disconnected}
use modbus_sphere_library.Outcome.{Returns, Returns->>=, Returns-imp}
use modbus_sphere_library.Modbus.Wait.{after_read, after_hangup, epoll_event, epoll_events}
use modbus_sphere_library.Modbus.Receive.Tcp.{
  Buffered, Response, response_pdu, response_frame, Answers, Awaits, scan_partial,
}
use modbus_sphere_library.Modbus.Receive.Complete.{scan_complete, delivered}
use modbus_sphere_library.Modbus.Wait.Piece.{
  with_piece, piece-Buffered, read_piece, Awaits-piece, piece-IsValid,
}

-- The event of a piece that has arrived.
unfoldable pub piece_event : List ℕ → Event
piece_event piece = record { readable = true; recv = some piece; hangup = false }

abbrev pub concat : List (List ℕ) → List ℕ
concat [] = []
concat (p ∷ ps) = p ++ concat ps

-- No piece is empty: `recv` returns 0 only at the end of the stream.
abbrev pub NoneEmpty : List (List ℕ) → Type 0
NoneEmpty [] = Unit {0}
NoneEmpty (p ∷ ps) = (0 < length p) × NoneEmpty ps

-- The handle holds the response, and nothing else is buffered.
pub record IsDelivered (h : Modbus) (r : Response) (h' : Modbus) : Type 0 where
  pub got_data : h'.state ≡ data_received
  pub new_pdu : h'.pdu ≡ response_pdu r ++ drop (length (response_pdu r)) h.pdu
  pub new_length : h'.pdu_length ≡ length (response_pdu r)
  pub last_id : h'.last_transaction_id ≡ h.transaction_id
  pub emptied : h'.buffered_message_length ≡ 0

module _ (stack : ℕ → ℕ) (r : Response) where
  event_read :
      (h : Modbus) (piece : List ℕ) (out : MessageHandlerState) (h' : Modbus)
      → h.state ≡ waiting_for_response
      → modbus_read stack h (some piece) ≡ ok (out, h')
      → epoll_event stack h (piece_event piece) ≡ ok (after_read out h')
  unfolding epoll_event piece_event is_disconnected after_hangup
  event_read h piece out h' e read =
      let connected : is_disconnected h.state ≡ false = ap is_disconnected e in rw (connected, read)

  ans' :
      (h : Modbus) (got piece : List ℕ)
      → Answers h.transaction_id r
      → Answers (with_piece h got piece).transaction_id r
  unfolding with_piece
  ans' h got piece ans = ans

  event_kept :
      (h : Modbus) (piece : List ℕ) (h' : Modbus)
      → h.state ≡ waiting_for_response
      → modbus_read stack h (some piece) ≡ ok (waiting, h')
      → epoll_event stack h (piece_event piece) ≡ ok h'
  unfolding after_read
  event_kept h piece h' e read = event_read h piece waiting h' e read

  IsDelivered-from :
      (h : Modbus) (got piece : List ℕ) (h' : Modbus)
      → IsDelivered (with_piece h got piece) r h'
      → IsDelivered h r h'
  unfolding with_piece
  IsDelivered-from h got piece h' d = record {
    got_data = d.got_data;
    new_pdu = d.new_pdu;
    new_length = d.new_length;
    last_id = d.last_id;
    emptied = d.emptied;
  }

  last_piece :
      (h : Modbus) (got piece : List ℕ)
      → Awaits h
      → Buffered h got
      → IsValid h
      → Answers h.transaction_id r
      → got ++ piece ≡ response_frame r
      → Returns (IsDelivered h r) (epoll_event stack h (piece_event piece))
  unfolding with_piece after_read
  last_piece h got piece a b v ans e =
      let room : length got + length piece ≤ 253 =
        omega (arith, ans.short, length-append got piece, ap length e) in
      let full : Buffered (with_piece h got piece) (response_frame r ++ []) =
        subst (Buffered (with_piece h got piece)) (e ∙ sym (append-nil (response_frame r)))
          (piece-Buffered stack h got piece a b v room) in
      let (moved, kept, done) =
        scan_complete (with_piece h got piece) r [] (Awaits-piece stack h got piece a b v room) full
          (piece-IsValid stack h got piece a b v room) ans in
      rw
        (event_read h piece success (delivered (with_piece h got piece) r [] moved) a.is_awaiting
          (read_piece stack h got piece a b v room ∙ done))
        (record {
          got_data = refl;
          new_pdu = refl;
          new_length = refl;
          last_id = refl;
          emptied = refl;
        })

  -- For a valid TCP handle that waits and has buffered a first part of a response of the length of
  -- its function code, of at most 253 bytes and with the awaited identifier: however the rest is
  -- cut into pieces (none but the first empty), each arriving as one event, the response is handed
  -- over whole with the last of them.
  pub reassemble :
      (p : List ℕ) (ps : List (List ℕ)) (h : Modbus) (got : List ℕ)
      → Awaits h
      → Buffered h got
      → IsValid h
      → Answers h.transaction_id r
      → NoneEmpty ps
      → got ++ (p ++ concat ps) ≡ response_frame r
      → Returns (IsDelivered h r) (epoll_events stack h (map piece_event (p ∷ ps)))
  unfolding epoll_events
  reassemble p [] h got a b v ans ne e =
      Returns->>= (IsDelivered h r) (IsDelivered h r) (epoll_event stack h (piece_event p)) _
        (last_piece h got p a b v ans (ap (λ l. got ++ l) (sym (append-nil p)) ∙ e)) (λ h' d. d)
  reassemble p ([] ∷ ps) h got a b v ans ne e = absurd (omega (arith, ne.0))
  reassemble p ((x ∷ q) ∷ ps) h got a b v ans ne e =
      let whole : (got ++ p) ++ (x ∷ (q ++ concat ps)) ≡ response_frame r =
        append_assoc got p (x ∷ (q ++ concat ps)) ∙ e in
      let room : length got + length p ≤ 253 = omega (
        arith,
        ans.short,
        length-append got p,
        length-append (got ++ p) (x ∷ (q ++ concat ps)),
        ap length whole,
      ) in
      let g = with_piece h got p in
      rw
        (event_kept h p g a.is_awaiting (
          read_piece stack h got p a b v room
          ∙ scan_partial g (got ++ p) r (piece-Buffered stack h got p a b v room) x (q ++ concat ps)
              (Awaits-piece stack h got p a b v room) (ans' h got p ans) whole))
        (Returns-imp (IsDelivered g r) (IsDelivered h r) _
          (reassemble (x ∷ q) ps g (got ++ p) (Awaits-piece stack h got p a b v room)
            (piece-Buffered stack h got p a b v room) (piece-IsValid stack h got p a b v room)
            (ans' h got p ans) ne.1 whole)
          (IsDelivered-from h got p))
