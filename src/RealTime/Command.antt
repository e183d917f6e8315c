-- ===== src/RealTime/Command.antt =====
-- A request on its way from `ModBusWrite` (modbus.c) through the ring to the UART: the ends of
-- the way are `ModBusWrite` and `ReceiveCommandFromA7` (main.c).
use modbus_sphere_library.Base.{
  ℕ, ◌+◌, ◌≤◌, ◌≡◌, refl, sym, ◌∙◌, List, [], ◌∷◌, ◌++◌, append_assoc, true, false, some, arith,
  ap₂, ltb, length, length-append, drop,
}
use mathlib.Core.Path.{subst}
use modbus_sphere_library.Outcome.{ok, Returns}
use modbus_sphere_library.Memory.{
  uninit, length-uninit, read_byte, read_bytes, read_bytes_split, read_byte_split,
}
use modbus_sphere_library.Crc.Footer.{crc_low, crc_high}
use modbus_sphere_library.Modbus.Types.{Env, World, rtu}
use modbus_sphere_library.Modbus.Transport.{modbus_write, after_send, intercore_header}
use modbus_sphere_library.Modbus.Transport.Frames.{frame, sending, modbus_write-frame}
use modbus_sphere_library.Intercore.Ring.{BufferHeader, dequeue_data}
use modbus_sphere_library.Intercore.Contents.{Holds}
use modbus_sphere_library.Intercore.Reader.{first_dequeued}
use modbus_sphere_library.RealTime.Message.{
  read_a7_message, get_message_protocol, get_message_prefix,
}
use modbus_sphere_library.RealTime.HalfDuplex.{HalfDuplex}
use modbus_sphere_library.RealTime.Send.{handle_modbus_request-frame}
use modbus_sphere_library.RealTime.Dispatch.{receive_command_from_a7}

module _ (stack : ℕ → ℕ) (before : HalfDuplex) (prefix message old_prefix : List ℕ) (x buf_size : ℕ)
    (inbound outbound : BufferHeader) (ms : List (List ℕ)) (short : length message ≤ 252)
    (twenty : length prefix ≡ 20) where
  -- Once the message has been read.
  dispatched :
      (more : List ℕ) (next : BufferHeader)
      → Holds buf_size next inbound ms
      → dequeue_data outbound inbound buf_size (uninit stack 1044) (stack 1044)
        ≡ ok (record {
          result = true;
          dest = prefix ++ (2 ∷ 1 ∷ 4 ∷ x ∷ (message ++ more));
          data_size = 24 + length message;
          outbound = next;
        })
      → Returns
          (λ r.
            (r.msg_prefix ≡ prefix)
            × (r.to_uart ≡ some (message ++ (crc_low message ∷ crc_high message ∷ [])))
            × Holds buf_size r.outbound inbound ms)
          (receive_command_from_a7 stack before old_prefix inbound outbound buf_size)
  unfolding receive_command_from_a7 read_a7_message get_message_prefix get_message_protocol
  dispatched more next holds reads =
      let long : ltb (24 + length message) 24 ≡ false = ground arith in
      let whole = prefix ++ (2 ∷ 1 ∷ 4 ∷ x ∷ (message ++ more)) in
      let front : read_bytes whole 0 20 ≡ ok prefix =
        read_bytes_split [] prefix (2 ∷ 1 ∷ 4 ∷ x ∷ (message ++ more)) 0 20 refl (sym twenty) in
      let protocol : read_byte whole 20 ≡ ok 2 =
        read_byte_split prefix (1 ∷ 4 ∷ x ∷ (message ++ more)) 2 20 (sym twenty) in
      rw
        (
          reads,
          long,
          front,
          protocol,
          handle_modbus_request-frame stack prefix message more x twenty (omega arith),
        )
        (refl, refl, holds)

  -- A data message in front of the ring.
  received :
      Holds buf_size outbound inbound ((prefix ++ (2 ∷ 1 ∷ 4 ∷ x ∷ message)) ∷ ms)
      → 24 + length message ≤ stack 1044
      → stack 1044 ≤ 1044
      → Returns
          (λ r.
            (r.msg_prefix ≡ prefix)
            × (r.to_uart ≡ some (message ++ (crc_low message ∷ crc_high message ∷ [])))
            × Holds buf_size r.outbound inbound ms)
          (receive_command_from_a7 stack before old_prefix inbound outbound buf_size)
  received holds room fits =
      let dest = uninit stack 1044 in
      let f = 2 ∷ 1 ∷ 4 ∷ x ∷ message in
      let m = prefix ++ f in
      let more = drop (length m) dest in
      let size : length m ≡ 24 + length message = omega (arith, length-append prefix f) in
      let (p, reads, held) =
        first_dequeued buf_size outbound inbound m ms holds dest (stack 1044) (omega arith)
          (omega (arith, length-uninit stack 1044)) in
      dispatched more (record outbound { read_position = p }) held
        (reads
          ∙ ap₂
              (λ l n. ok (record {
                result = true;
                dest = l;
                data_size = n;
                outbound = record outbound { read_position = p };
              }))
              (append_assoc prefix f more) size)

module _ (stack : ℕ → ℕ) (before : HalfDuplex) (env : Env) (w : World) (message rest : List ℕ)
    (prefix : List ℕ) (old_prefix : List ℕ) (buf_size : ℕ) (inbound outbound : BufferHeader)
    (ms : List (List ℕ)) where
  -- On the serial transport, for a request of at most 252 bytes: `ModBusWrite` hands the frame of
  -- the request to `send`. When the ring holds, in front of other messages, this frame behind a
  -- prefix of 20 bytes, and the length that `ReceiveCommandFromA7` finds uninitialised in its
  -- buffer is large enough for the message and at most the size of the buffer, then it keeps that
  -- prefix for the answer, hands the request and its CRC, low byte first, to the UART, and leaves
  -- the other messages in the ring.
  pub receive_command_from_a7-modbus_write :
      w.hndl.type ≡ rtu
      → w.hndl.is_cfg ≡ false
      → length message ≤ 252
      → length prefix ≡ 20
      → Holds buf_size outbound inbound ((prefix ++ frame env w rtu message) ∷ ms)
      → 24 + length message ≤ stack 1044
      → stack 1044 ≤ 1044
      → (modbus_write env w (message ++ rest) (length message)
          ≡ ok (
              after_send env
                (sending w)
                (frame env w rtu message)
                (length (frame env w rtu message))))
        × Returns
            (λ r.
              (r.msg_prefix ≡ prefix)
              × (r.to_uart ≡ some (message ++ (crc_low message ∷ crc_high message ∷ [])))
              × Holds buf_size r.outbound inbound ms)
            (receive_command_from_a7 stack before old_prefix inbound outbound buf_size)
  unfolding frame intercore_header
  receive_command_from_a7-modbus_write serial data_frame short twenty holds room fits = (
    subst
        (λ t.
          modbus_write env w (message ++ rest) (length message)
          ≡ ok
              (after_send env (sending w) (frame env w t message) (length (frame env w t message))))
        serial (modbus_write-frame env w message rest short),
    received stack before prefix message old_prefix (env.stack 254) buf_size inbound outbound ms
        short twenty
        (subst
          (λ c.
            Holds buf_size outbound inbound
              ((prefix ++ (intercore_header c ++ (env.stack 254 ∷ message))) ∷ ms))
          data_frame holds)
        room fits,
  )
