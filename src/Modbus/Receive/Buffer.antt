-- ===== src/Modbus/Receive/Buffer.antt =====
-- The invariant of the handle, and the last steps of `MessageHandler` (modbus.c).
use modbus_sphere_library.Base.{
  ℕ, ◌+◌, ◌-◌, ◌*◌, ◌%◌, ◌^◌, ◌≤◌, ◌≡◌, refl, List, Bool, true, false, ◌&&◌, arith, ltb, leb,
  length, inl, inr, Bool-cases, if◌then◌else◌, ltb→lt,
}
use modbus_sphere_library.Outcome.{ok, ◌>>=◌, Returns, Returns->>=, Returns-imp}
use modbus_sphere_library.Memory.{
  read_bytes_fit, write_bytes_fit, read_bytes, write_bytes, read_byte_ok, read_bytes_ok,
}
use modbus_sphere_library.Crc.{validate_crc, get_crc}
use modbus_sphere_library.Modbus.Types.{
  TransportType, tcp, rtu_over_tcp, rtu, MessageHandlerState, success, failure, waiting, Modbus,
}
use modbus_sphere_library.Modbus.Receive.{
  Layout, layout, Verdict, current, past, future, is_current, keep_rest, hand_over, full_message,
  check_transaction_id,
}

-- Both arrays have their declared size, and what is counted lies inside them.
pub record IsValid (h : Modbus) : Type 0 where
  pub buffer_size : length h.buffered_message ≡ 254
  pub buffered : h.buffered_message_length ≤ 253
  pub pdu_size : length h.pdu ≡ 254
  pub pdu_fits : h.pdu_length ≤ 253

-- The handle after `MessageHandler`: valid, and of the same type and state.
pub record IsNext (h : Modbus) (out : MessageHandlerState × Modbus) : Type 0 where
  pub valid : IsValid out.1
  pub same_type : out.1.type ≡ h.type
  pub same_state : out.1.state ≡ h.state

keep_rest-IsNext :
    (r : MessageHandlerState) (h : Modbus) (total : ℕ)
    → IsValid h
    → total ≤ h.buffered_message_length
    → Returns (IsNext h) (keep_rest r h total)
unfolding keep_rest
keep_rest-IsNext r h total v fits = elim (Bool-cases (ltb 0 (h.buffered_message_length - total))) [
  | inl more ↦ rw more (
      Returns->>= (λ ys. length ys ≡ h.buffered_message_length - total) (IsNext h)
        (read_bytes h.buffered_message total (h.buffered_message_length - total)) _
        (read_bytes_fit h.buffered_message total (h.buffered_message_length - total)
          (omega (arith, v.buffer_size)))
        λ rest e.
          Returns->>= (λ zs. length zs ≡ length h.buffered_message) (IsNext h)
            (write_bytes h.buffered_message 0 rest) _
            (write_bytes_fit h.buffered_message 0 rest (omega (arith, v.buffer_size)))
            λ moved e'. ground arith)
  | inr less ↦ rw less (ground arith)
]

validate_crc_fit :
    (xs : List ℕ) (n : ℕ) → n ≤ length xs → Returns (λ b. Unit {0}) (validate_crc xs n)
unfolding validate_crc get_crc
validate_crc_fit xs n h = elim (Bool-cases (ltb 2 n)) [
  | inl long ↦
      let (low, e) = read_byte_ok xs (n - 2) (omega (arith, ltb→lt 2 n long)) in
      let (high, e') = read_byte_ok xs (n - 1) (omega (arith, ltb→lt 2 n long)) in
      rw (long, read_bytes_ok xs 0 (n - 2) (omega arith), e', e) tt
  | inr short ↦ rw short tt
]

-- The layouts that check the CRC count it as a footer.
abbrev pub CountsCrc : Layout → Type 0
CountsCrc l = l.check_crc ≡ true → l.transport_footer_length ≡ 2

pub layout-CountsCrc : (t : TransportType) → CountsCrc (layout t)
layout-CountsCrc tcp e = cc
layout-CountsCrc rtu_over_tcp e = refl
layout-CountsCrc rtu e = cc

module _ (h : Modbus) (l : Layout) (v : IsValid h) (counts : CountsCrc l) where
  deliver-IsNext :
      (n rx : ℕ)
      → n + l.transport_header_length + l.transport_footer_length ≤ h.buffered_message_length
      → Returns (IsNext h) (do
        payload ← read_bytes h.buffered_message l.transport_header_length n
        pdu ← write_bytes h.pdu 0 payload
        keep_rest success
            (record h { pdu_length = n; last_transaction_id = rx; pdu = pdu })
            (n + l.transport_header_length + l.transport_footer_length))
  deliver-IsNext n rx fits =
      Returns->>= (λ ys. length ys ≡ n) (IsNext h)
        (read_bytes h.buffered_message l.transport_header_length n) _
        (read_bytes_fit h.buffered_message l.transport_header_length n
          (omega (arith, v.buffer_size, v.buffered)))
        λ payload e.
          Returns->>= (λ zs. length zs ≡ length h.pdu) (IsNext h) (write_bytes h.pdu 0 payload) _
            (write_bytes_fit h.pdu 0 payload (omega (arith, v.pdu_size, v.buffered)))
            λ pdu e'.
              Returns-imp
                (IsNext (record h { pdu_length = n; last_transaction_id = rx; pdu = pdu }))
                (IsNext h) _
                (keep_rest-IsNext success
                  (record h { pdu_length = n; last_transaction_id = rx; pdu = pdu })
                  (n + l.transport_header_length + l.transport_footer_length)
                  (record {
                    buffer_size = v.buffer_size;
                    buffered = v.buffered;
                    pdu_size = omega (arith, v.pdu_size);
                    pdu_fits = omega (arith, v.buffered);
                  })
                  fits)
                λ out next. record {
                  valid = next.valid;
                  same_type = next.same_type;
                  same_state = next.same_state;
                }

  hand_over-IsNext :
      (n rx : ℕ) (verdict : Verdict)
      → n + l.transport_header_length + l.transport_footer_length ≤ h.buffered_message_length
      → Returns (IsNext h) (hand_over h l n rx verdict)
  unfolding hand_over
  hand_over-IsNext n rx verdict fits =
      Returns->>= (λ b. Unit {0}) (IsNext h)
        (if l.check_crc then validate_crc h.buffered_message (n + 2) else ok true) _ checked
        λ crc_ok _. choose (leb n 254 && is_current verdict && crc_ok)
    where
      checked :
          Returns
            (λ b. Unit {0})
            (if l.check_crc then validate_crc h.buffered_message (n + 2) else ok true)
      checked = elim (Bool-cases l.check_crc) [
        | inl e ↦ rw e (
            validate_crc_fit h.buffered_message (n + 2)
              (omega (arith, counts e, v.buffered, v.buffer_size)))
        | inr e ↦ rw e tt
      ]

      choose :
          (b : Bool)
          → Returns (IsNext h) (
              if b
              then (do
                payload ← read_bytes h.buffered_message l.transport_header_length n
                pdu ← write_bytes h.pdu 0 payload
                keep_rest success
                    (record h { pdu_length = n; last_transaction_id = rx; pdu = pdu })
                    (n + l.transport_header_length + l.transport_footer_length))
              else keep_rest waiting h (n + l.transport_header_length + l.transport_footer_length))
      choose true = deliver-IsNext n rx fits
      choose false =
          keep_rest-IsNext waiting h (n + l.transport_header_length + l.transport_footer_length) v
            fits

  pub full_message-IsNext :
      (n : ℕ)
      → n + l.transport_header_length + l.transport_footer_length ≤ h.buffered_message_length
      → Returns (IsNext h) (full_message h l n)
  unfolding full_message
  full_message-IsNext n fits =
      let (high, e) = read_byte_ok h.buffered_message 0 (omega (arith, v.buffer_size)) in
      let (low, e') = read_byte_ok h.buffered_message 1 (omega (arith, v.buffer_size)) in
      rw (e, e')
        (choose ((high * 2 ^ 8 + low) % 2 ^ 16) (
          if l.check_transaction
          then check_transaction_id h.transaction_id h.last_transaction_id
              ((high * 2 ^ 8 + low) % 2 ^ 16)
          else current))
    where
      choose :
          (rx : ℕ) (verdict : Verdict)
          → Returns (IsNext h) (elim verdict [
            | future ↦ ok (failure, record h { buffered_message_length = 0 })
            | past ↦ hand_over h l n rx past
            | current ↦ hand_over h l n rx current
          ])
      choose rx future = ground arith
      choose rx past = hand_over-IsNext n rx past fits
      choose rx current = hand_over-IsNext n rx current fits
