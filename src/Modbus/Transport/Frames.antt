-- ===== src/Modbus/Transport/Frames.antt =====
-- What `ModBusWrite` hands to `send`, for each transport.
use modbus_sphere_library.Base.{
  ℕ, ◌+◌, ◌≤◌, ◌≡◌, refl, sym, ap, ◌∙◌, List, [], ◌∷◌, ◌++◌, append_assoc, Bool, true, false, arith,
  length, take, drop, length-append, length-take, length-drop,
}
use modbus_sphere_library.Outcome.{ok}
use modbus_sphere_library.Memory.{
  two_more, uninit, read_bytes, write_bytes, length-uninit, write_bytes_ok, read_bytes_split,
  write_bytes_split,
}
use modbus_sphere_library.Crc.Footer.{crc_low, crc_high, add_crc_split}
use modbus_sphere_library.Modbus.Types.{
  TransportType, tcp, rtu_over_tcp, rtu, sending_request, Env, World,
}
use modbus_sphere_library.Modbus.Transport.{
  after_send, send_to_slave, mbap_header, intercore_header, write_framed, modbus_write,
}

-- The message on the wire: the MBAP header in front, the CRC behind, or the header of the message
-- to the real-time core in front, whose fourth byte is whatever the stack holds.
unfoldable pub frame : Env → World → TransportType → List ℕ → List ℕ
frame env w tcp message = mbap_header w.transaction_identifier (length message) ++ message
frame env w rtu_over_tcp message = message ++ (crc_low message ∷ crc_high message ∷ [])
frame env w rtu message = intercore_header w.hndl.is_cfg ++ (env.stack 254 ∷ message)

-- The handle as `ModBusWrite` sets it first.
unfoldable pub sending : World → World
sending w = record w { hndl = record w.hndl { state = sending_request; pdu_length = 0 } }

send_prefix :
    (env : Env) (w : World) (adu rest : List ℕ) (n : ℕ)
    → n ≡ length adu
    → send_to_slave env w (adu ++ rest) n ≡ ok (after_send env w adu (length adu))
unfolding send_to_slave
send_prefix env w adu rest n h =
    rw (read_bytes_split [] adu rest 0 n refl h) (ap (λ k. ok (after_send env w adu k)) h)

-- A write into a fresh array splits it at both ends.
write_uninit :
    (stack : ℕ → ℕ) (size off : ℕ) (ys : List ℕ)
    → off + length ys ≤ size
    → write_bytes (uninit stack size) off ys
      ≡ ok (take off (uninit stack size) ++ (ys ++ drop (off + length ys) (uninit stack size)))
write_uninit stack size off ys h =
    write_bytes_ok (uninit stack size) off ys (omega (arith, length-uninit stack size))

length-mbap_header : (tid n : ℕ) → length (mbap_header tid n) ≡ 6
unfolding mbap_header
length-mbap_header tid n = refl

length-intercore_header : (cfg : Bool) → length (intercore_header cfg) ≡ 3
unfolding intercore_header
length-intercore_header true = refl
length-intercore_header false = refl

head_four :
    (stack : ℕ → ℕ) → take 4 (uninit stack 258) ≡ stack 257 ∷ stack 256 ∷ stack 255 ∷ stack 254 ∷ []
unfolding uninit
head_four stack = refl

module _ (env : Env) (w : World) (message rest : List ℕ) (short : length message ≤ 252) where
  -- What a branch of `ModBusWrite` comes to.
  abbrev Sends : TransportType → Type 0
  Sends t =
      write_framed env w t (message ++ rest) (length message)
      ≡ ok (after_send env w (frame env w t message) (length (frame env w t message)))

  taken : read_bytes (message ++ rest) 0 (length message) ≡ ok message
  taken = read_bytes_split [] message rest 0 (length message) refl refl

  write_tcp : Sends tcp
  unfolding write_framed frame
  write_tcp =
      rw
        (
          taken,
          write_uninit env.stack 260 6 message (omega arith),
          write_bytes_split [] (take 6 area) (message ++ drop (6 + length message) area) 0 header
              refl fits,
          ← append_assoc header message (drop (6 + length message) area),
        )
        (send_prefix env w (header ++ message) (drop (6 + length message) area) (length message + 6)
          whole)
    where
      area : List ℕ
      area = uninit env.stack 260

      header : List ℕ
      header = mbap_header w.transaction_identifier (length message)

      fits : length header ≡ length (take 6 area)
      fits = omega (
        arith,
        length-mbap_header w.transaction_identifier (length message),
        length-take 6 area,
        length-uninit env.stack 260,
      )

      whole : length message + 6 ≡ length (header ++ message)
      whole = omega (
        arith,
        length-append header message,
        length-mbap_header w.transaction_identifier (length message),
      )

  write_rtu : Sends rtu
  unfolding write_framed frame
  write_rtu =
      rw
        (
          taken,
          write_uninit env.stack 258 4 message (omega arith),
          head_four env.stack,
          write_bytes_split [] (env.stack 257 ∷ env.stack 256 ∷ env.stack 255 ∷ [])
              (env.stack 254 ∷ (message ++ drop (4 + length message) area)) 0 header refl
              length-header,
        )
        (ap (λ l. send_to_slave env w l (length message + 4))
            (sym (append_assoc header (env.stack 254 ∷ message) (drop (4 + length message) area)))
          ∙ send_prefix env w (header ++ (env.stack 254 ∷ message)) (drop (4 + length message) area)
              (length message + 4) whole)
    where
      area : List ℕ
      area = uninit env.stack 258

      header : List ℕ
      header = intercore_header w.hndl.is_cfg

      length-header : length header ≡ 3
      length-header = length-intercore_header w.hndl.is_cfg

      whole : length message + 4 ≡ length (header ++ (env.stack 254 ∷ message))
      whole = omega (arith, length-append header (env.stack 254 ∷ message), length-header)

  write_rtu_over_tcp : Sends rtu_over_tcp
  unfolding write_framed frame
  write_rtu_over_tcp =
      let (a, b, tail, e) = two_more (drop (0 + length message) area) room in
      rw
        (
          taken,
          write_uninit env.stack 256 0 message (omega arith),
          e,
          add_crc_split message tail a b (length message) 254 refl (omega arith),
          ← append_assoc message (crc_low message ∷ crc_high message ∷ []) tail,
        )
        (send_prefix env w (message ++ (crc_low message ∷ crc_high message ∷ [])) tail
          (length message + 2)
          (omega (arith, length-append message (crc_low message ∷ crc_high message ∷ []))))
    where
      area : List ℕ
      area = uninit env.stack 256

      room : 2 ≤ length (drop (0 + length message) area)
      room = omega (arith, length-drop (0 + length message) area, length-uninit env.stack 256)

  written_frame : (t : TransportType) → Sends t
  written_frame tcp = write_tcp
  written_frame rtu_over_tcp = write_rtu_over_tcp
  written_frame rtu = write_rtu

frame-sending :
    (env : Env) (w : World) (t : TransportType) (message : List ℕ)
    → frame env (sending w) t message ≡ frame env w t message
unfolding frame sending
frame-sending env w tcp message = refl
frame-sending env w rtu_over_tcp message = refl
frame-sending env w rtu message = refl

-- On every transport, for a message of at most 252 bytes, `ModBusWrite` hands exactly the frame of
-- the message to `send`, after it has set the handle's state and cleared the length of the last
-- response.
pub modbus_write-frame :
    (env : Env) (w : World) (message rest : List ℕ)
    → length message ≤ 252
    → modbus_write env w (message ++ rest) (length message)
      ≡ ok (
          after_send env
            (sending w)
            (frame env w w.hndl.type message)
            (length (frame env w w.hndl.type message)))
unfolding modbus_write sending
modbus_write-frame env w message rest short =
    written_frame env (sending w) message rest short w.hndl.type
    ∙ ap (λ f. ok (after_send env (sending w) f (length f)))
        (frame-sending env w w.hndl.type message)
