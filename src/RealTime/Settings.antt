-- ===== src/RealTime/Settings.antt =====
-- The serial settings on their way through the ring to the UART, and the reply (main.c).
use modbus_sphere_library.Base.{
  ℕ, ◌+◌, ◌*◌, ◌/◌, ◌%◌, ◌^◌, ◌≤◌, ◌<◌, ◌≡◌, refl, sym, ap, ap₂, ◌∙◌, Bool, List, [], ◌∷◌, ◌++◌,
  append_assoc, true, Option, none, some, arith, ◌==◌, length, length-append, drop, drop-append,
  if◌then◌else◌,
}
use mathlib.Core.Path.{subst}
use modbus_sphere_library.Outcome.{Outcome, ok, Returns, ◌>>=◌}
use modbus_sphere_library.Memory.{
  uninit, length-uninit, read_byte, read_bytes, read_bytes_split, read_byte_split, read_byte_second,
}
use modbus_sphere_library.Modbus.Types.{SerialSetup, Env}
use modbus_sphere_library.Modbus.Connect.Serial.{config_frame}
use modbus_sphere_library.Intercore.Ring.{BufferHeader, dequeue_data, enqueue_data}
use modbus_sphere_library.Intercore.Queue.{used}
use modbus_sphere_library.Intercore.Contents.{Holds}
use modbus_sphere_library.Intercore.Reader.{first_dequeued}
use modbus_sphere_library.Intercore.Writer.{front_enqueued}
use modbus_sphere_library.RealTime.Message.{
  read_a7_message, get_message_protocol, get_message_command, get_message_prefix,
  get_message_length, get_message_data_index, send_a7_message,
}
use modbus_sphere_library.RealTime.HalfDuplex.{HalfDuplex}
use modbus_sphere_library.RealTime.Config.{
  serial_config_message, LineSettings, set_serial_config-serial_config_message,
}
use modbus_sphere_library.RealTime.Reply.{reply, uart_response_lem}
use modbus_sphere_library.RealTime.Dispatch.{
  Received, success_byte, handle_uart_request, receive_command_from_a7,
}

-- The line is set as asked for, but half duplex is not switched off.
abbrev pub IsApplied : HalfDuplex → SerialSetup → Option LineSettings → Type 0
IsApplied before s none = ⊥
IsApplied before s (some line) =
    (line.upper_divisor * 2 ^ 8 + line.lower_divisor ≡ s.baud_rate)
    × (line.half_duplex.enabled ≡ (if s.duplex_mode == 0 then before.enabled else true))
    × (line.half_duplex.uart ≡ (if s.duplex_mode == 0 then before.uart else some 1))
    × (line.lcr % 2 ^ 2 + 5 ≡ s.word_length)
    × ((line.lcr / 2 ^ 2 % 2 == 1) ≡ (s.stop_bits == 2))
    × ((line.lcr / 2 ^ 3 % 2 == 0) ≡ (s.parity_state == 0))
    × ((line.lcr / 2 ^ 4 % 2 == 0) ≡ (s.parity_mode == 0))

-- What `ReceiveCommandFromA7` leaves.
abbrev pub IsConfigured :
    (ℕ → ℕ)
    → HalfDuplex
    → List ℕ
    → SerialSetup
    → ℕ
    → BufferHeader
    → List (List ℕ)
    → List (List ℕ)
    → Received
    → Type 0
IsConfigured stack before prefix setup buf_size inbound ms replies r =
    (r.msg_prefix ≡ prefix)
    × IsApplied before setup r.line
    × (r.to_uart ≡ none)
    × Holds buf_size r.outbound inbound ms
    × Holds buf_size inbound r.outbound (replies ++ (reply stack prefix 1 ∷ []))

module _ (stack : ℕ → ℕ) (before : HalfDuplex) (prefix : List ℕ) (setup : SerialSetup)
    (x buf_size : ℕ) (inbound outbound : BufferHeader) (ms replies : List (List ℕ))
    (twenty : length prefix ≡ 20) (fast : setup.baud_rate < 2 ^ 16) (long : setup.word_length < 9)
    (short : 4 < setup.word_length) where
  -- Once the message has been read.
  settings_taken :
      (old_prefix more : List ℕ) (p : ℕ)
      → Holds buf_size (record outbound { read_position = p }) inbound ms
      → Holds buf_size inbound outbound replies
      → used replies + 45 ≤ buf_size
      → dequeue_data outbound inbound buf_size (uninit stack 1044) (stack 1044)
        ≡ ok (record {
          result = true;
          dest = prefix ++ (1 ∷ 1 ∷ 4 ∷ x ∷ (serial_config_message setup ++ more));
          data_size = 31;
          outbound = record outbound { read_position = p };
        })
      → Returns
          (IsConfigured stack before prefix setup buf_size inbound ms replies)
          (receive_command_from_a7 stack before old_prefix inbound outbound buf_size)
  unfolding receive_command_from_a7 read_a7_message get_message_prefix get_message_protocol
      handle_uart_request get_message_command get_message_length get_message_data_index
      send_a7_message success_byte
  settings_taken old_prefix more p holds reply_ring room reads =
      let config = serial_config_message setup ++ more in
      let whole = prefix ++ (1 ∷ 1 ∷ 4 ∷ x ∷ config) in
      let next : BufferHeader = record outbound { read_position = p } in
      let (line, set, f1, f2, f3, f4, f5, f6, f7) =
        set_serial_config-serial_config_message before 1 setup more fast long short in
      let data_at : drop 24 whole ≡ config =
        ap (drop 24) (sym (append_assoc prefix (1 ∷ 1 ∷ 4 ∷ x ∷ []) config))
        ∙ drop-append 24 (prefix ++ (1 ∷ 1 ∷ 4 ∷ x ∷ [])) config
            (omega (arith, length-append prefix (1 ∷ 1 ∷ 4 ∷ x ∷ []))) in
      let size : length (reply stack prefix 1) ≡ 25 =
        omega (arith, length-append prefix (1 ∷ 1 ∷ 4 ∷ stack 1020 ∷ 1 ∷ [])) in
      let ring' : Holds buf_size inbound next replies = record {
        read_place = reply_ring.read_place;
        write_place = reply_ring.write_place;
        whole_area = reply_ring.whole_area;
        room = reply_ring.room;
        meets = reply_ring.meets;
        blocks = reply_ring.blocks;
      } in
      let (answered, sent, kept, replied) =
        front_enqueued buf_size inbound next replies ring' (reply stack prefix 1)
          (uninit stack 1019) (omega (arith, size)) in
      let front : read_bytes whole 0 20 ≡ ok prefix =
        read_bytes_split [] prefix (1 ∷ 1 ∷ 4 ∷ x ∷ config) 0 20 refl (sym twenty) in
      let protocol : read_byte whole 20 ≡ ok 1 =
        read_byte_split prefix (1 ∷ 4 ∷ x ∷ config) 1 20 (sym twenty) in
      let command : read_byte whole 21 ≡ ok 1 =
        read_byte_second prefix (4 ∷ x ∷ config) 1 1 21 (omega arith) in
      let header : read_byte whole 22 ≡ ok 4 =
        ap (λ l. read_byte l 22) (sym (append_assoc prefix (1 ∷ 1 ∷ []) (4 ∷ x ∷ config)))
        ∙ read_byte_split (prefix ++ (1 ∷ 1 ∷ [])) (x ∷ config) 4 22
            (omega (arith, length-append prefix (1 ∷ 1 ∷ []))) in
      let here : Holds buf_size (record answered { read_position = p }) inbound ms = record {
        read_place = holds.read_place;
        write_place = holds.write_place;
        whole_area = holds.whole_area;
        room = holds.room;
        meets = holds.meets;
        blocks = holds.blocks;
      } in
      let ring : Holds buf_size answered inbound ms =
        subst (λ q. Holds buf_size (record answered { read_position = q }) inbound ms) (sym kept)
          here in
      let sent' : send_a7_message inbound next buf_size
            (record { length = 25; data_bytes = reply stack prefix 1 ++ uninit stack 1019 })
          ≡ ok answered =
        ap
          (λ k.
            enqueue_data inbound next buf_size (reply stack prefix 1 ++ uninit stack 1019) k
            >>= λ sent. ok sent.1)
          (sym size)
        ∙ ap (λ (o : Outcome (Bool × BufferHeader)). o >>= λ sent. ok sent.1) sent in
      rw
        (
          reads,
          front,
          protocol,
          command,
          header,
          data_at,
          set,
          uart_response_lem stack prefix twenty (some line),
          sent',
        )
        (refl, (f1, f2, f3, f4, f5, f6, f7), refl, ring, replied)

module _ (stack : ℕ → ℕ) (before : HalfDuplex) (env : Env) (prefix old_prefix : List ℕ)
    (setup : SerialSetup) (buf_size : ℕ) (inbound outbound : BufferHeader)
    (ms replies : List (List ℕ)) where
  -- When the ring holds, in front of other messages, the frame that `WriteSerialConfig` hands to
  -- `send` for a 16-bit divisor and 5 to 8 data bits, behind a prefix of 20 bytes; the other ring
  -- has 45 bytes left besides the messages that it holds; and the length that
  -- `ReceiveCommandFromA7` finds uninitialised in its buffer is large enough for the message and at
  -- most the size of the buffer: then it sets the divisor and the line control register as the
  -- settings ask for, switches half duplex on for `UartIsu0` if they ask for it and leaves it as it
  -- was otherwise, keeps the prefix, hands nothing to the UART, leaves the other messages in the
  -- ring, and adds to the other ring, behind the messages there, the reply for success, with the
  -- command 1 of the request, behind the same prefix.
  pub receive_command_from_a7-config_frame :
      length prefix ≡ 20
      → setup.baud_rate < 2 ^ 16
      → setup.word_length < 9
      → 4 < setup.word_length
      → Holds buf_size outbound inbound ((prefix ++ config_frame env setup) ∷ ms)
      → Holds buf_size inbound outbound replies
      → used replies + 45 ≤ buf_size
      → 31 ≤ stack 1044
      → stack 1044 ≤ 1044
      → Returns
          (IsConfigured stack before prefix setup buf_size inbound ms replies)
          (receive_command_from_a7 stack before old_prefix inbound outbound buf_size)
  unfolding serial_config_message
  receive_command_from_a7-config_frame twenty fast long short holds reply_ring room enough fits =
      let dest = uninit stack 1044 in
      let frame = config_frame env setup in
      let m = prefix ++ frame in
      let more = drop (length m) dest in
      let size : length m ≡ 31 = omega (arith, length-append prefix frame) in
      let (p, reads, held) =
        first_dequeued buf_size outbound inbound m ms holds dest (stack 1044) (omega arith)
          (omega (arith, length-uninit stack 1044)) in
      settings_taken stack before prefix setup (env.stack 254) buf_size inbound outbound ms replies
        twenty fast long short old_prefix more p held reply_ring room
        (reads
          ∙ ap₂
              (λ l n. ok (record {
                result = true;
                dest = l;
                data_size = n;
                outbound = record outbound { read_position = p };
              }))
              (append_assoc prefix frame more) size)
