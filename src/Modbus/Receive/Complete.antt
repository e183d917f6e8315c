-- ===== src/Modbus/Receive/Complete.antt =====
-- `MessageHandler` (modbus.c) on Modbus TCP, once the whole response is in the buffer.
use modbus_sphere_library.Base.{
  ℕ, ◌+◌, ◌-◌, ◌*◌, ◌%◌, ◌^◌, ◌≤◌, ◌<◌, ◌≡◌, refl, sym, ap, ◌∙◌, List, [], ◌∷◌, ◌++◌, append_assoc,
  arith, leb-of_le, lt→ltb, length, drop, get_elem?, length-append, some,
}
use modbus_sphere_library.Outcome.{ok, ◌>>=◌}
use modbus_sphere_library.Memory.{read_byte, read_bytes, read_bytes_split, write_bytes_front}
use modbus_sphere_library.Modbus.Types.{tcp, MessageHandlerState, success, Modbus}
use modbus_sphere_library.Modbus.Receive.{
  layout, current, keep_rest, hand_over, full_message, expected_length, scan_buffer,
  check_transaction_id,
}
use modbus_sphere_library.Modbus.Receive.Buffer.{IsValid}
use modbus_sphere_library.Modbus.Receive.Transaction.{check_transaction_id-current}
use modbus_sphere_library.Modbus.Receive.Tcp.{
  Buffered, Response, response_pdu, response_frame, Answers, Awaits, read_byte_at,
}

-- What `keep_rest` leaves in front of the buffer is what stood behind the message.
keep_rest_lem :
    (ret : MessageHandlerState) (g : Modbus) (front extra junk : List ℕ) (total : ℕ)
    → g.buffered_message ≡ front ++ (extra ++ junk)
    → g.buffered_message_length ≡ length front + length extra
    → total ≡ length front
    → length g.buffered_message ≡ 254
    → (moved : List ℕ) × (tail : List ℕ) × (moved ≡ extra ++ tail)
      × (keep_rest ret g total
          ≡ ok (ret, record g { buffered_message = moved; buffered_message_length = length extra }))
unfolding keep_rest
keep_rest_lem ret g front [] junk total c n t size =
    (g.buffered_message, g.buffered_message, refl, rw (n, t) (ground arith))
keep_rest_lem ret g front (x ∷ xs) junk total c n t size =
    let extra : List ℕ = x ∷ xs in
    let whole : length g.buffered_message ≡ length front + (length extra + length junk) =
      ap length c
      ∙ length-append front (extra ++ junk)
      ∙ ap (λ k. length front + k) (length-append extra junk) in
    let room : length extra ≤ length g.buffered_message = omega (arith, whole) in
    let small : length extra % 2 ^ 16 ≡ length extra = omega (arith, whole) in
    let rem : g.buffered_message_length - total ≡ length extra = omega arith in
    (
      extra ++ drop (length extra) g.buffered_message,
      drop (length extra) g.buffered_message,
      refl,
      rw (
        rem,
        ap (λ l. read_bytes l total (length extra)) c
            ∙ read_bytes_split front extra junk total (length extra) t refl,
        write_bytes_front g.buffered_message extra room,
        lt→ltb 0 (length extra) (omega arith),
        small,
      ),
    )

-- The handle once the response has been taken out, with `extra` bytes in the buffer `moved`.
abbrev pub delivered : Modbus → Response → List ℕ → List ℕ → Modbus
delivered h r extra moved = record h {
  pdu_length = length (response_pdu r);
  last_transaction_id = h.transaction_id;
  pdu = response_pdu r ++ drop (length (response_pdu r)) h.pdu;
  buffered_message = moved;
  buffered_message_length = length extra;
}

module _ (h : Modbus) (r : Response) (extra : List ℕ) (a : Awaits h)
    (b : Buffered h (response_frame r ++ extra)) (v : IsValid h)
    (ans : Answers h.transaction_id r) where
  contents : h.buffered_message ≡ response_frame r ++ (extra ++ b.junk)
  contents = b.contents ∙ append_assoc (response_frame r) extra b.junk

  hand_over_complete :
      (moved : List ℕ) × Buffered (delivered h r extra moved) extra
      × (hand_over h (layout tcp) (length (response_pdu r)) h.transaction_id current
          ≡ ok (success, delivered h r extra moved))
  unfolding hand_over
  hand_over_complete =
      let n = length (response_pdu r) in
      let pdu = response_pdu r ++ drop n h.pdu in
      let g = record h { pdu_length = n; last_transaction_id = h.transaction_id; pdu = pdu } in
      let (moved, tail, e, k) =
        keep_rest_lem success g (response_frame r) extra b.junk (n + 6 + 0) contents
          (b.counted ∙ length-append (response_frame r) extra) (omega arith) v.buffer_size in
      (
        moved,
        record { junk = tail; contents = e; counted = refl },
        rw
            (
              leb-of_le n 254 (omega (arith, ans.short)),
              ap (λ l. read_bytes l 6 n) contents
                  ∙ read_bytes_split header (response_pdu r) (extra ++ b.junk) 6 n refl refl,
              write_bytes_front h.pdu (response_pdu r) (omega (arith, ans.short, v.pdu_size)),
            )
            k,
      )
    where
      header : List ℕ
      header =
          r.id_high ∷ r.id_low ∷ r.protocol_high ∷ r.protocol_low ∷ r.length_high ∷ r.length_low
          ∷ []

  byte :
      (i x : ℕ)
      → get_elem? (response_frame r) i ≡ some x
      → i < 9
      → read_byte h.buffered_message i ≡ ok x
  byte i x e lt =
      ap (λ l. read_byte l i) contents
      ∙ read_byte_at (response_frame r) (extra ++ b.junk) i x (omega arith) e

  expects_complete : expected_length h (layout tcp) ≡ ok (length (response_pdu r))
  unfolding expected_length
  expects_complete =
      rw (a.no_cfg, byte 7 r.f_code refl (omega arith), byte 8 r.third refl (omega arith))
        (ap (λ k. ok k) (sym ans.sized))

  identified :
      check_transaction_id h.transaction_id h.last_transaction_id
        ((r.id_high * 2 ^ 8 + r.id_low) % 2 ^ 16)
      ≡ current
  identified =
      (check_transaction_id-current h.transaction_id h.last_transaction_id
          ((r.id_high * 2 ^ 8 + r.id_low) % 2 ^ 16)).1
        (sym ans.same_id)

  full_message_complete :
      (n : ℕ) → full_message h (layout tcp) n ≡ hand_over h (layout tcp) n h.transaction_id current
  unfolding full_message
  full_message_complete n =
      rw
        (byte 0 r.id_high refl (omega arith), byte 1 r.id_low refl (omega arith), ◌>>=◌, identified)
        (ap (λ id. hand_over h (layout tcp) n id current) ans.same_id)

  -- The whole response is handed over, and what came after it stays in the buffer.
  pub scan_complete :
      (moved : List ℕ) × Buffered (delivered h r extra moved) extra
      × (scan_buffer h (layout tcp) ≡ ok (success, delivered h r extra moved))
  unfolding scan_buffer
  scan_complete =
      let (moved, kept, done) = hand_over_complete in
      (
        moved,
        kept,
        rw
            (
              leb-of_le 9 h.buffered_message_length
                  (omega (arith, b.counted, length-append (response_frame r) extra)),
              expects_complete,
              leb-of_le (length (response_pdu r) + 6 + 0) h.buffered_message_length
                  (omega (arith, b.counted, length-append (response_frame r) extra)),
            )
            (full_message_complete (length (response_pdu r)) ∙ done),
      )
