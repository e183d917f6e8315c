-- ===== src/Modbus/Wait/Piece.antt =====
-- One piece of a response that has arrived.
use modbus_sphere_library.Base.{
  ℕ, ◌+◌, ◌%◌, ◌^◌, ◌≤◌, ◌≡◌, refl, sym, ap, ◌∙◌, List, [], ◌++◌, append_assoc, true, arith, lt→ltb,
  length, take, drop, length-append, length-drop, take-append, some,
}
use modbus_sphere_library.Outcome.{ok}
use modbus_sphere_library.Memory.{
  uninit, write_bytes, read_bytes_split, write_bytes_ok, write_bytes_front, length-uninit,
}
use modbus_sphere_library.Modbus.Types.{tcp, Modbus, is_waiting}
use modbus_sphere_library.Modbus.Receive.{layout, scan_buffer, message_handler, modbus_read}
use modbus_sphere_library.Modbus.Receive.Buffer.{IsValid}
use modbus_sphere_library.Modbus.Receive.Tcp.{Buffered, Awaits}

-- The handle with one more piece in the buffer.
unfoldable pub with_piece : Modbus → List ℕ → List ℕ → Modbus
with_piece h got piece = record h {
  buffered_message = got ++ (piece ++ drop (length got + length piece) h.buffered_message);
  buffered_message_length = length (got ++ piece);
}

module _ (stack : ℕ → ℕ) (h : Modbus) (got piece : List ℕ) (a : Awaits h) (b : Buffered h got)
    (v : IsValid h) (room : length got + length piece ≤ 253) where
  pub piece-Buffered : Buffered (with_piece h got piece) (got ++ piece)
  unfolding with_piece
  piece-Buffered = record {
    junk = drop (length got + length piece) h.buffered_message;
    contents = sym (append_assoc got piece (drop (length got + length piece) h.buffered_message));
    counted = refl;
  }

  -- One event with a piece comes to a look at the longer buffer.
  pub read_piece :
      modbus_read stack h (some piece) ≡ scan_buffer (with_piece h got piece) (layout tcp)
  unfolding modbus_read message_handler with_piece is_waiting
  read_piece =
      let small : length piece % 2 ^ 16 ≡ length piece = omega arith in
      let sum : (h.buffered_message_length + length piece) % 2 ^ 16 ≡ length (got ++ piece) =
        omega (arith, b.counted, length-append got piece) in
      let waits : is_waiting h.state ≡ true = ap is_waiting a.is_awaiting in
      let laid : layout h.type ≡ layout tcp = ap layout a.on_tcp in
      let at_end : write_bytes h.buffered_message h.buffered_message_length piece
          ≡ ok (got ++ (piece ++ drop (length got + length piece) h.buffered_message)) =
        ap (λ k. write_bytes h.buffered_message k piece) b.counted
        ∙ write_bytes_ok h.buffered_message (length got) piece (omega (arith, v.buffer_size))
        ∙ ap (λ l. ok (l ++ (piece ++ drop (length got + length piece) h.buffered_message)))
            (ap (take (length got)) b.contents ∙ take-append (length got) got b.junk refl) in
      rw (
        write_bytes_front (uninit stack 254) piece (omega (arith, length-uninit stack 254)),
        small,
        waits,
        lt→ltb (h.buffered_message_length + length piece) 254 (omega (arith, b.counted)),
        read_bytes_split [] piece (drop (length piece) (uninit stack 254)) 0 (length piece) refl
            refl,
        at_end,
        sum,
        laid,
      )

  pub Awaits-piece : Awaits (with_piece h got piece)
  unfolding with_piece
  Awaits-piece = record { on_tcp = a.on_tcp; is_awaiting = a.is_awaiting; no_cfg = a.no_cfg }

  pub piece-IsValid : IsValid (with_piece h got piece)
  unfolding with_piece
  piece-IsValid = record {
    buffer_size = omega (
      arith,
      v.buffer_size,
      length-append got (piece ++ drop (length got + length piece) h.buffered_message),
      length-append piece (drop (length got + length piece) h.buffered_message),
      length-drop (length got + length piece) h.buffered_message,
    );
    buffered = omega (arith, length-append got piece);
    pdu_size = v.pdu_size;
    pdu_fits = v.pdu_fits;
  }
