-- ===== src/Modbus/Receive/Tcp.antt =====
-- `MessageHandler` (modbus.c) on Modbus TCP, for a part of the awaited response.
use modbus_sphere_library.Base.{
  ℕ, ◌+◌, ◌*◌, ◌%◌, ◌^◌, ◌≤◌, ◌<◌, ◌≡◌, refl, sym, ap, ◌∙◌, List, ◌∷◌, ◌++◌, false, arith, leb,
  leb→le, lt→not-leb, length, get_elem?, get_elem?-append_lt, length-append, some, Bool-cases, inl,
  inr,
}
use modbus_sphere_library.Outcome.{ok}
use modbus_sphere_library.Memory.{read_byte}
use modbus_sphere_library.Modbus.Types.{tcp, waiting, Modbus, is_rtu, waiting_for_response}
use modbus_sphere_library.Modbus.Fcode.{get_fcode_length}
use modbus_sphere_library.Modbus.Receive.{layout, expected_length, scan_buffer}

-- The buffer starts with the bytes `got`, and counts exactly them.
pub record Buffered (h : Modbus) (got : List ℕ) : Type 0 where
  pub junk : List ℕ
  pub contents : h.buffered_message ≡ got ++ junk
  pub counted : h.buffered_message_length ≡ length got

-- A response: the MBAP header with its identifier, the slave, the function code and the third
-- byte, from which the length of the rest follows.
pub record Response : Type 0 where
  pub id_high : ℕ
  pub id_low : ℕ
  pub protocol_high : ℕ
  pub protocol_low : ℕ
  pub length_high : ℕ
  pub length_low : ℕ
  pub slave : ℕ
  pub f_code : ℕ
  pub third : ℕ
  pub rest : List ℕ

abbrev pub response_pdu : Response → List ℕ
response_pdu r = r.slave ∷ r.f_code ∷ r.third ∷ r.rest

abbrev pub response_frame : Response → List ℕ
response_frame r =
    r.id_high
    ∷ r.id_low
    ∷ r.protocol_high
    ∷ r.protocol_low
    ∷ r.length_high
    ∷ r.length_low
    ∷ response_pdu r

-- It has the length that its function code says, fits the buffer, and has the identifier `id`.
pub record Answers (id : ℕ) (r : Response) : Type 0 where
  pub sized : length (response_pdu r) ≡ get_fcode_length r.f_code r.third
  pub short : length (response_frame r) ≤ 253
  pub same_id : (r.id_high * 2 ^ 8 + r.id_low) % 2 ^ 16 ≡ id

-- The handle waits for the response with the identifier of its last request.
pub record Awaits (h : Modbus) : Type 0 where
  pub on_tcp : h.type ≡ tcp
  pub is_awaiting : h.state ≡ waiting_for_response
  pub no_cfg : h.is_cfg ≡ false

pub read_byte_at :
    (xs ys : List ℕ) (i x : ℕ)
    → i < length xs
    → get_elem? xs i ≡ some x
    → read_byte (xs ++ ys) i ≡ ok x
unfolding read_byte
read_byte_at xs ys i x h e = rw (get_elem?-append_lt xs ys i h ∙ e, read_byte)

-- A byte of a prefix of the response.
pub prefix_byte :
    (got more frame : List ℕ) (i x : ℕ)
    → got ++ more ≡ frame
    → get_elem? frame i ≡ some x
    → i < length got
    → get_elem? got i ≡ some x
prefix_byte got more frame i x e f h =
    sym (get_elem?-append_lt got more i h) ∙ ap (λ l. get_elem? l i) e ∙ f

module _ (h : Modbus) (got : List ℕ) (r : Response) (b : Buffered h got) where
  -- Enough bytes to know the length.
  expects :
      (more : List ℕ)
      → h.is_cfg ≡ false
      → got ++ more ≡ response_frame r
      → 9 ≤ length got
      → expected_length h (layout tcp) ≡ ok (get_fcode_length r.f_code r.third)
  unfolding expected_length
  expects more no_cfg e long = rw (
    no_cfg,
    b.contents,
    read_byte_at got b.junk 7 r.f_code (omega arith)
        (prefix_byte got more (response_frame r) 7 r.f_code e refl (omega arith)),
    read_byte_at got b.junk 8 r.third (omega arith)
        (prefix_byte got more (response_frame r) 8 r.third e refl (omega arith)),
  )

  -- A part of the response is kept.
  pub scan_partial :
      (x : ℕ) (more : List ℕ)
      → Awaits h
      → Answers h.transaction_id r
      → got ++ (x ∷ more) ≡ response_frame r
      → scan_buffer h (layout tcp) ≡ ok (waiting, h)
  unfolding scan_buffer is_rtu
  scan_partial x more a ans e = elim (Bool-cases (leb 9 h.buffered_message_length)) [
    | inr few ↦ rw (few, a.on_tcp)
    | inl many ↦ rw (
      many,
      expects (x ∷ more) a.no_cfg e (omega (arith, leb→le _ _ many, b.counted)),
      lt→not-leb (get_fcode_length r.f_code r.third + 6 + 0) h.buffered_message_length
          (omega (arith, b.counted, ans.sized, length-append got (x ∷ more), ap length e)),
    )
  ]
