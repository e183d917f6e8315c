-- ===== src/RealTime/Serial.antt =====
-- The driver's rings under `Uart_EnqueueData` and `Uart_HandleIrq`.
use modbus_sphere_library.Base.{
  ℕ, min, zero, suc, ◌+◌, ◌-◌, ◌%◌, ◌^◌, ◌≤◌, ◌<◌, ◌≡◌, refl, sym, ap, ◌∙◌, List, [], ◌∷◌, ◌++◌,
  arith, length, take, drop, true, false, ◌&&◌, leb, ltb, ◌==◌, inl, inr, Bool-cases, length-append,
  append_assoc, append-nil, if◌then◌else◌, length-take,
}
use mathlib.Core.Path.{subst}
use modbus_sphere_library.Outcome.{ok}
use modbus_sphere_library.Memory.{read_bytes_ok}
use modbus_sphere_library.RealTime.Uart.{UartRing, tx_store, tx_avail_space, uart_enqueue_data}
use modbus_sphere_library.RealTime.Irq.{tx_fill, rx_store}
use modbus_sphere_library.RealTime.Stream.{Streams, IsMasked-256, IsMasked-32, stored, removed}

tx_store-Streams :
    (bytes : List ℕ) (ring : UartRing) (queue : List ℕ)
    → Streams 256 ring queue
    → length queue + length bytes ≤ 256
    → (buffer : List ℕ) × (enqueued : ℕ) × (tx_store ring.buffer ring.enqueued bytes
        ≡ ok (buffer, enqueued))
      × Streams 256
          (record { buffer = buffer; enqueued = enqueued; dequeued = ring.dequeued })
          (queue ++ bytes)
unfolding tx_store
tx_store-Streams [] ring queue s room =
    (ring.buffer, ring.enqueued, refl, subst (Streams 256 ring) (sym (append-nil queue)) s)
tx_store-Streams (x ∷ xs) ring queue s room =
    let (buffer, e, s') = stored 256 IsMasked-256 ring queue x s (omega arith) in
    let (buffer', enqueued', e', s'') =
      tx_store-Streams xs
        (record {
          buffer = buffer;
          enqueued = (ring.enqueued + 1) % 2 ^ 16;
          dequeued = ring.dequeued;
        })
        (queue ++ (x ∷ [])) s' (omega (arith, length-append queue (x ∷ []))) in
    (
      buffer',
      enqueued',
      rw e e',
      subst
          (Streams 256
            (record { buffer = buffer'; enqueued = enqueued'; dequeued = ring.dequeued }))
          (append_assoc queue (x ∷ []) xs) s'',
    )

free :
    (ring : UartRing) (queue : List ℕ)
    → Streams 256 ring queue
    → tx_avail_space ring.enqueued ring.dequeued ≡ 256 - length queue
unfolding tx_avail_space
free ring queue s = ground (arith, s.count, s.dequeued_16, s.small)

module _ (ring : UartRing) (queue data_bytes : List ℕ) (n : ℕ) (s : Streams 256 ring queue)
    (given : n ≤ length data_bytes) where
  k : ℕ
  k = min n (256 - length queue)

  module _ (buffer : List ℕ) (enqueued : ℕ)
      (all_stored : tx_store ring.buffer ring.enqueued (take k data_bytes)
        ≡ ok (buffer, enqueued)) where
    some_room :
        length queue < 256
        → uart_enqueue_data ring data_bytes n
          ≡ ok (leb n (256 - length queue), record ring { buffer = buffer; enqueued = enqueued })
    unfolding uart_enqueue_data k
    some_room room =
        let some_space : ((256 - length queue) == 0) ≡ false = ground arith in
        let count : (if leb n (256 - length queue) then n else 256 - length queue)
            ≡ min n (256 - length queue) =
          ground arith in
        rw (
          free ring queue s,
          some_space,
          count,
          read_bytes_ok data_bytes 0 (min n (256 - length queue)) (omega arith),
          all_stored,
        )

  -- On a transmit ring that holds `queue`, `Uart_EnqueueData` with `n` bytes puts behind them as
  -- many as there is room for, and says whether these are all; it says no to a full ring even if
  -- `n` is 0.
  pub uart_enqueue_data-Streams :
      (ring' : UartRing) × (uart_enqueue_data ring data_bytes n
        ≡ ok (ltb (length queue) 256 && leb n (256 - length queue), ring'))
      × Streams 256 ring' (queue ++ take (min n (256 - length queue)) data_bytes)
  unfolding uart_enqueue_data k
  uart_enqueue_data-Streams = elim (Bool-cases (ltb (length queue) 256)) [
    | inl e ↦
        let (buffer, enqueued, e', s') =
          tx_store-Streams (take k data_bytes) ring queue s
            (omega (arith, length-take k data_bytes, s.small)) in
        (
          record ring { buffer = buffer; enqueued = enqueued },
          rw e (some_room buffer enqueued e' (ground arith)),
          s',
        )
    | inr e ↦
        let no_space : ((256 - length queue) == 0) ≡ true = ground arith in
        let nothing : min n (256 - length queue) ≡ 0 = ground arith in
        (
          ring,
          rw (free ring queue s, no_space, e),
          subst (Streams 256 ring)
              (sym (ap (λ k. queue ++ take k data_bytes) nothing ∙ append-nil queue)) s,
        )
  ]

pub tx_fill-Streams :
    (space : ℕ) (ring : UartRing) (queue : List ℕ)
    → Streams 256 ring queue
    → (dequeued : ℕ) × (tx_fill ring.buffer ring.dequeued ring.enqueued space
        ≡ ok (take space queue, dequeued))
      × Streams 256 (record ring { dequeued = dequeued }) (drop space queue)
unfolding tx_fill
tx_fill-Streams zero ring queue s = (ring.dequeued, refl, s)
tx_fill-Streams (suc space) ring [] s =
    let done : (ring.dequeued == ring.enqueued) ≡ true = ground (arith, s.count, s.dequeued_16) in
    (ring.dequeued, rw done, s)
tx_fill-Streams (suc space) ring (x ∷ xs) s =
    let more : (ring.dequeued == ring.enqueued) ≡ false =
      ground (arith, s.count, s.dequeued_16, s.small) in
    let (e, s') = removed 256 IsMasked-256 ring x xs s in
    let (dequeued, e', s'') =
      tx_fill-Streams space (record ring { dequeued = (ring.dequeued + 1) % 2 ^ 16 }) xs s' in
    (dequeued, rw (more, e, e'), s'')

pub rx_store-Streams :
    (fifo : List ℕ) (space : ℕ) (ring : UartRing) (queue : List ℕ)
    → Streams 32 ring queue
    → length queue + space ≤ 32
    → (buffer : List ℕ) × (enqueued : ℕ) × (rx_store ring.buffer ring.enqueued space fifo
        ≡ ok (buffer, (enqueued, take space fifo)))
      × Streams 32
          (record { buffer = buffer; enqueued = enqueued; dequeued = ring.dequeued })
          (queue ++ take space fifo)
unfolding rx_store
rx_store-Streams fifo zero ring queue s room =
    (ring.buffer, ring.enqueued, refl, subst (Streams 32 ring) (sym (append-nil queue)) s)
rx_store-Streams [] (suc space) ring queue s room =
    (ring.buffer, ring.enqueued, refl, subst (Streams 32 ring) (sym (append-nil queue)) s)
rx_store-Streams (x ∷ fifo) (suc space) ring queue s room =
    let (buffer, e, s') = stored 32 IsMasked-32 ring queue x s (omega arith) in
    let (buffer', enqueued', e', s'') =
      rx_store-Streams fifo space
        (record {
          buffer = buffer;
          enqueued = (ring.enqueued + 1) % 2 ^ 16;
          dequeued = ring.dequeued;
        })
        (queue ++ (x ∷ [])) s' (omega (arith, length-append queue (x ∷ []))) in
    (
      buffer',
      enqueued',
      rw (e, e'),
      subst
          (Streams 32 (record { buffer = buffer'; enqueued = enqueued'; dequeued = ring.dequeued }))
          (append_assoc queue (x ∷ []) (take space fifo)) s'',
    )
