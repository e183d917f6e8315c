-- ===== src/Modbus/Receive/Invariant.antt =====
-- `MessageHandler` and `ModBusRead` (modbus.c) and the invariant of the handle.
use modbus_sphere_library.Base.{
  ℕ, ◌+◌, ◌-◌, ◌%◌, ◌^◌, ◌≤◌, ◌<◌, ◌≡◌, refl, List, Bool, true, false, ◌||◌, arith, ltb, leb,
  length, inl, inr, Bool-cases, if◌then◌else◌, Option, none, some, ltb→lt, leb→le, ◌∙◌,
}
use modbus_sphere_library.Outcome.{ok, ◌>>=◌, Returns, Returns->>=, Returns-imp}
use modbus_sphere_library.Memory.{
  read_bytes_fit, write_bytes_fit, uninit, read_bytes, write_bytes, read_byte_ok, length-uninit,
}
use modbus_sphere_library.Modbus.Types.{
  TransportType, tcp, rtu_over_tcp, rtu, waiting, Modbus, is_rtu, is_waiting,
}
use modbus_sphere_library.Modbus.Receive.{
  Layout, layout, discard, full_message, expected_length, scan_buffer, message_handler, modbus_read,
}
use modbus_sphere_library.Modbus.Receive.Buffer.{
  IsValid, IsNext, CountsCrc, layout-CountsCrc, full_message-IsNext,
}

expected_length_fit :
    (h : Modbus) (l : Layout)
    → IsValid h
    → l.f_code_offset < 254
    → l.pdu_length_offset < 254
    → Returns (λ n. Unit {0}) (expected_length h l)
unfolding expected_length
expected_length_fit h l v p q = elim (Bool-cases h.is_cfg) [
  | inl e ↦ rw e tt
  | inr e ↦
      let (f, ef) =
        read_byte_ok h.buffered_message l.f_code_offset (omega (arith, v.buffer_size)) in
      let (d, ed) =
        read_byte_ok h.buffered_message l.pdu_length_offset (omega (arith, v.buffer_size)) in
      rw (e, ef, ed) tt
]

scan_buffer-IsNext :
    (h : Modbus) (l : Layout)
    → IsValid h
    → CountsCrc l
    → l.f_code_offset < 254
    → l.pdu_length_offset < 254
    → Returns (IsNext h) (scan_buffer h l)
unfolding scan_buffer
scan_buffer-IsNext h l v counts p q =
    choose (leb l.min_length h.buffered_message_length || is_rtu h.type)
  where
    unchanged : IsNext h (waiting, h)
    unchanged = record { valid = v; same_type = refl; same_state = refl }

    enough :
        (n : ℕ)
        → Returns (IsNext h) (
            if leb
              (n + l.transport_header_length + l.transport_footer_length)
              h.buffered_message_length
            then full_message h l n
            else ok (waiting, h))
    enough n =
        elim (Bool-cases (
          leb (n + l.transport_header_length + l.transport_footer_length)
            h.buffered_message_length)) [
              | inl e ↦ rw e (full_message-IsNext h l v counts n (leb→le _ _ e))
              | inr e ↦ rw e unchanged
            ]

    choose :
        (b : Bool)
        → Returns (IsNext h) (
            if b
            then (do
              n ← expected_length h l
              (if leb
                    (n + l.transport_header_length + l.transport_footer_length)
                    h.buffered_message_length
                  then full_message h l n
                  else ok (waiting, h)))
            else ok (waiting, h))
    choose true =
        Returns->>= (λ n. Unit {0}) (IsNext h) (expected_length h l) _
          (expected_length_fit h l v p q) (λ n _. enough n)
    choose false = unchanged

scan_layout-IsNext :
    (h : Modbus) (t : TransportType) → IsValid h → Returns (IsNext h) (scan_buffer h (layout t))
scan_layout-IsNext h tcp v =
    scan_buffer-IsNext h (layout tcp) v (layout-CountsCrc tcp) (omega arith) (omega arith)
scan_layout-IsNext h rtu_over_tcp v =
    scan_buffer-IsNext h (layout rtu_over_tcp) v (layout-CountsCrc rtu_over_tcp) (omega arith)
      (omega arith)
scan_layout-IsNext h rtu v =
    scan_buffer-IsNext h (layout rtu) v (layout-CountsCrc rtu) (omega arith) (omega arith)

discard-IsNext : (h : Modbus) → IsValid h → Returns (IsNext h) (discard h)
unfolding discard
discard-IsNext h v = ground arith

-- For a valid handle and an array of 254 bytes, `MessageHandler` accesses nothing outside its
-- arrays at any input length, and leaves a valid handle of the same type and state.
pub message_handler-IsNext :
    (h : Modbus) (message : List ℕ) (n : ℕ)
    → IsValid h
    → length message ≡ 254
    → Returns (IsNext h) (message_handler h message n)
unfolding message_handler
message_handler-IsNext h message n v size = elim (Bool-cases (is_waiting h.state)) [
  | inr e ↦ rw e (discard-IsNext h v)
  | inl e ↦ elim (Bool-cases (ltb (h.buffered_message_length + n) 254)) [
    | inr e' ↦ rw (e, e') (discard-IsNext h v)
    | inl e' ↦
        let room : h.buffered_message_length + n < 254 = ltb→lt _ _ e' in
        rw (e, e')
          (Returns->>= (λ ys. length ys ≡ n) (IsNext h) (read_bytes message 0 n) _
            (read_bytes_fit message 0 n (omega arith))
            λ input en.
              Returns->>= (λ zs. length zs ≡ length h.buffered_message) (IsNext h)
                (write_bytes h.buffered_message h.buffered_message_length input) _
                (write_bytes_fit h.buffered_message h.buffered_message_length input
                  (omega (arith, v.buffer_size)))
                λ buffer eb. scanned buffer room (omega (arith, v.buffer_size)))
  ]
]
  where
    scanned :
        (buffer : List ℕ)
        → h.buffered_message_length + n < 254
        → length buffer ≡ 254
        → Returns (IsNext h) (
            scan_buffer
              (record h {
                buffered_message = buffer;
                buffered_message_length = (h.buffered_message_length + n) % 2 ^ 16;
              })
              (layout h.type))
    scanned buffer room eb =
        Returns-imp
          (IsNext (record h {
            buffered_message = buffer;
            buffered_message_length = (h.buffered_message_length + n) % 2 ^ 16;
          }))
          (IsNext h) _
          (scan_layout-IsNext
            (record h {
              buffered_message = buffer;
              buffered_message_length = (h.buffered_message_length + n) % 2 ^ 16;
            })
            h.type
            (record {
              buffer_size = eb;
              buffered = omega arith;
              pdu_size = v.pdu_size;
              pdu_fits = v.pdu_fits;
            }))
          λ out next. record {
            valid = next.valid;
            same_type = next.same_type;
            same_state = next.same_state;
          }

-- What `recv` stores fits the array that it is given.
abbrev pub FitsArray : Option (List ℕ) → Type 0
FitsArray none = Unit {0}
FitsArray (some bytes) = length bytes ≤ 254

pub modbus_read-IsNext :
    (stack : ℕ → ℕ) (h : Modbus) (received : Option (List ℕ))
    → IsValid h
    → FitsArray received
    → Returns (IsNext h) (modbus_read stack h received)
unfolding modbus_read
modbus_read-IsNext stack h none v fits =
    message_handler-IsNext h (uninit stack 254) (2 ^ 16 - 1) v (length-uninit stack 254)
modbus_read-IsNext stack h (some bytes) v fits =
    Returns->>= (λ zs. length zs ≡ length (uninit stack 254)) (IsNext h)
      (write_bytes (uninit stack 254) 0 bytes) _
      (write_bytes_fit (uninit stack 254) 0 bytes (omega (arith, length-uninit stack 254)))
      λ message e.
        message_handler-IsNext h message (length bytes % 2 ^ 16) v (e ∙ length-uninit stack 254)
