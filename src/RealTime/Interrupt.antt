-- ===== src/RealTime/Interrupt.antt =====
-- `Uart_HandleIrq` on rings that hold given bytes.
use modbus_sphere_library.Base.{
  ℕ, zero, suc, ◌+◌, ◌-◌, ◌%◌, ◌^◌, ◌≡◌, ◌⊎◌, refl, sym, ap, ◌∙◌, List, [], ◌∷◌, ◌++◌, arith,
  length, drop, true, false, ◌||◌, ◌==◌, inl, inr, Bool-cases, append_assoc, append-nil,
  take-append-drop, if◌then◌else◌,
}
use mathlib.Core.Path.{subst}
use modbus_sphere_library.Outcome.{Returns, Returns->>=}
use modbus_sphere_library.RealTime.Uart.{UartRing}
use modbus_sphere_library.RealTime.Irq.{
  UartInfo, tx_empty, rx_avail_space, rx_received, Registers, Handled, irq_round, uart_handle_irq,
}
use modbus_sphere_library.RealTime.Stream.{Streams}
use modbus_sphere_library.RealTime.Serial.{tx_fill-Streams, rx_store-Streams}

-- What the handler does to a transmit ring that holds `tx_queue` and a receive ring that holds
-- `rx_queue`.
pub record IsHandled (unit : UartInfo) (tx_queue rx_queue : List ℕ) (h : Handled) : Type 0 where
  pub tx_left : List ℕ
  pub in_order : tx_queue ≡ h.sent ++ tx_left
  pub tx_holds : Streams 256 h.unit.tx tx_left
  pub rx_holds : Streams 32 h.unit.rx (rx_queue ++ h.taken)
  pub stays_on : (tx_left ≡ []) ⊎ (h.unit.tx_interrupt ≡ unit.tx_interrupt)

rx_free :
    (ring : UartRing) (queue : List ℕ)
    → Streams 32 ring queue
    → rx_avail_space ring.enqueued ring.dequeued ≡ 32 - length queue
unfolding rx_avail_space
rx_free ring queue s = ground (arith, s.count, s.dequeued_16, s.small)

right_empty : (xs ys : List ℕ) → xs ++ ys ≡ [] → ys ≡ []
right_empty [] ys e = e
right_empty (x ∷ xs) ys e = absurd (cc e)

pub empty_lem : (xs : List ℕ) → length xs ≡ 0 → xs ≡ []
empty_lem [] h = refl
empty_lem (x ∷ xs) h = absurd (omega arith)

drop_empty : (k : ℕ) → drop {A = ℕ} k [] ≡ []
drop_empty zero = refl
drop_empty (suc k) = refl

module _ (unit : UartInfo) (tx_queue rx_queue : List ℕ) (t : Streams 256 unit.tx tx_queue)
    (r : Streams 32 unit.rx rx_queue) where
  nothing :
      IsHandled unit tx_queue rx_queue
        (record { sent = []; taken = []; callbacks = 0; unit = unit })
  nothing = record {
    tx_left = tx_queue;
    in_order = refl;
    tx_holds = t;
    rx_holds = subst (Streams 32 unit.rx) (sym (append-nil rx_queue)) r;
    stays_on = inr refl;
  }

  on :
      (space : ℕ)
      → (drop space tx_queue ≡ [])
        ⊎ ((if unit.tx.enqueued == unit.tx.dequeued then false else unit.tx_interrupt)
            ≡ unit.tx_interrupt)
  on space = elim (Bool-cases (unit.tx.enqueued == unit.tx.dequeued)) [
    | inl e ↦
        let empty : tx_queue ≡ [] =
          empty_lem tx_queue (ground (arith, t.count, t.small, t.dequeued_16)) in
        inl (ap (drop space) empty ∙ drop_empty space)
    | inr e ↦ rw e (inr refl)
  ]

  filled :
      (offset : ℕ)
      → Returns
          (λ out.
            IsHandled unit tx_queue rx_queue
              (record { sent = out.0; taken = []; callbacks = 0; unit = out.1 }))
          (tx_empty unit offset)
  unfolding tx_empty
  filled offset =
      let space = (16 + 2 ^ 32 - offset) % 2 ^ 32 in
      let (dequeued, e, t') = tx_fill-Streams space unit.tx tx_queue t in
      rw e (record {
        tx_left = drop space tx_queue;
        in_order = sym (take-append-drop space tx_queue);
        tx_holds = t';
        rx_holds = subst (Streams 32 unit.rx) (sym (append-nil rx_queue)) r;
        stays_on = on space;
      })

  emptied :
      (fifo : List ℕ)
      → Returns
          (λ out.
            IsHandled unit tx_queue rx_queue
              (record { sent = []; taken = out.0; callbacks = 1; unit = out.1 }))
          (rx_received unit fifo)
  unfolding rx_received
  emptied fifo =
      let space = rx_avail_space unit.rx.enqueued unit.rx.dequeued in
      let (buffer, enqueued, e, r') =
        rx_store-Streams fifo space unit.rx rx_queue r
          (omega (arith, rx_free unit.rx rx_queue r, r.small)) in
      rw e (record {
        tx_left = tx_queue;
        in_order = refl;
        tx_holds = t;
        rx_holds = r';
        stays_on = inr refl;
      })

  irq_round-IsHandled :
      (found : Registers) → Returns (IsHandled unit tx_queue rx_queue) (irq_round unit found)
  unfolding irq_round
  irq_round-IsHandled found = elim (Bool-cases (found.iir_id == 2)) [
    | inl e ↦ rw e (
        Returns->>=
          (λ out.
            IsHandled unit tx_queue rx_queue
              (record { sent = out.0; taken = []; callbacks = 0; unit = out.1 }))
          (IsHandled unit tx_queue rx_queue) (tx_empty unit found.offset) _ (filled found.offset)
          λ out h. h)
    | inr e ↦ elim (Bool-cases (found.iir_id == 4 || found.iir_id == 12)) [
      | inl e' ↦
          rw (e, e')
            (Returns->>=
              (λ out.
                IsHandled unit tx_queue rx_queue
                  (record { sent = []; taken = out.0; callbacks = 1; unit = out.1 }))
              (IsHandled unit tx_queue rx_queue) (rx_received unit found.fifo) _
              (emptied found.fifo) λ out h. h)
      | inr e' ↦ rw (e, e') nothing
    ]
  ]

-- One call after another.
both :
    (unit : UartInfo) (tx_queue rx_queue : List ℕ) (first : Handled)
    (h : IsHandled unit tx_queue rx_queue first) (rest : Handled)
    → IsHandled first.unit h.tx_left (rx_queue ++ first.taken) rest
    → IsHandled unit tx_queue rx_queue (record {
      sent = first.sent ++ rest.sent;
      taken = first.taken ++ rest.taken;
      callbacks = first.callbacks + rest.callbacks;
      unit = rest.unit;
    })
both unit tx_queue rx_queue first h rest h' = record {
  tx_left = h'.tx_left;
  in_order =
      h.in_order
      ∙ ap (λ l. first.sent ++ l) h'.in_order
      ∙ sym (append_assoc first.sent rest.sent h'.tx_left);
  tx_holds = h'.tx_holds;
  rx_holds =
      subst (Streams 32 rest.unit.rx) (append_assoc rx_queue first.taken rest.taken) h'.rx_holds;
  stays_on = elim h'.stays_on [
    | inl e ↦ inl e
    | inr e ↦ elim h.stays_on [
      | inl e' ↦ inl (right_empty rest.sent h'.tx_left (sym h'.in_order ∙ e'))
      | inr e' ↦ inr (e ∙ e')
    ]
  ];
}

-- For rings that hold `tx_queue` and `rx_queue`, and any sequence of interrupts after which none is
-- pending, `Uart_HandleIrq` returns without an invalid access: it sends a first part of `tx_queue` in
-- order and keeps the rest, puts what it takes from the receive FIFO behind `rx_queue`, and leaves
-- the transmit interrupt as it was if bytes remain to be sent.
pub uart_handle_irq-IsHandled :
    (rounds : List Registers) (last : Registers) (unit : UartInfo) (tx_queue rx_queue : List ℕ)
    → last.iir_id ≡ 1
    → Streams 256 unit.tx tx_queue
    → Streams 32 unit.rx rx_queue
    → Returns (IsHandled unit tx_queue rx_queue) (uart_handle_irq unit (rounds ++ (last ∷ [])))
unfolding uart_handle_irq
uart_handle_irq-IsHandled [] last unit tx_queue rx_queue done t r =
    let idle : (last.iir_id == 1) ≡ true = ground arith in
    Returns->>= (IsHandled unit tx_queue rx_queue) (IsHandled unit tx_queue rx_queue)
      (irq_round unit last) _ (irq_round-IsHandled unit tx_queue rx_queue t r last)
      λ first h. rw idle h
uart_handle_irq-IsHandled (found ∷ rounds) last unit tx_queue rx_queue done t r =
    Returns->>= (IsHandled unit tx_queue rx_queue) (IsHandled unit tx_queue rx_queue)
      (irq_round unit found) _ (irq_round-IsHandled unit tx_queue rx_queue t r found)
      λ first h. elim (Bool-cases (found.iir_id == 1)) [
        | inl e ↦ rw e h
        | inr e ↦ rw e (
            Returns->>= (IsHandled first.unit h.tx_left (rx_queue ++ first.taken))
              (IsHandled unit tx_queue rx_queue)
              (uart_handle_irq first.unit (rounds ++ (last ∷ []))) _
              (uart_handle_irq-IsHandled rounds last first.unit h.tx_left (rx_queue ++ first.taken)
                done h.tx_holds h.rx_holds)
              λ rest h'. both unit tx_queue rx_queue first h rest h')
      ]
