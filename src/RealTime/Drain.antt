-- ===== src/RealTime/Drain.antt =====
-- `Uart_DequeueData` on a receive ring that holds given bytes.
use modbus_sphere_library.Base.{
  ℕ, zero, suc, ◌+◌, ◌-◌, ◌%◌, ◌^◌, ◌≤◌, ◌<◌, ◌≡◌, refl, sym, ap, ap₂, ◌∙◌, List, [], ◌∷◌, ◌++◌,
  arith, length, take, drop, true, false, ltb, ◌==◌, inl, inr, length-take, length-drop, Bool-cases,
  append_assoc, take-append-drop, get_elem?, some,
}
use mathlib.Core.Path.{subst}
use modbus_sphere_library.Outcome.{Outcome, ok, ◌>>=◌}
use modbus_sphere_library.Memory.{
  read_byte, read_bytes, write_bytes, read_bytes_ok, write_bytes_front,
}
use modbus_sphere_library.Intercore.Take.{bind_after, store_parts}
use modbus_sphere_library.RealTime.Uart.{UartRing, rx_avail_data, uart_dequeue_data}
use modbus_sphere_library.RealTime.Interrupt.{empty_lem}
use modbus_sphere_library.RealTime.Stream.{Streams, Held, IsMasked, IsMasked-32}

-- Bytes that are read one by one are read together.
Reads : List ℕ → ℕ → List ℕ → Type 0
Reads buffer i queue = read_bytes buffer i (length queue) ≡ ok queue

read_cons_take :
    (buffer : List ℕ) (i x : ℕ) (n : ℕ)
    → get_elem? buffer i ≡ some x
    → take (suc n) (drop i buffer) ≡ x ∷ take n (drop (suc i) buffer)
read_cons_take [] i x n h = absurd (cc h)
read_cons_take (y ∷ ys) zero x n h = ap (λ z. z ∷ take n ys) (cc h)
read_cons_take (y ∷ ys) (suc i) x n h = read_cons_take ys i x n h

found_elem : (buffer : List ℕ) (i x : ℕ) → read_byte buffer i ≡ ok x → get_elem? buffer i ≡ some x
unfolding read_byte
found_elem [] i x h = absurd (cc h)
found_elem (y ∷ ys) zero x h = cc h
found_elem (y ∷ ys) (suc i) x h = found_elem ys i x h

module _ (size : ℕ) (masked : IsMasked size) where
  taken_together :
      (queue buffer : List ℕ) (p : ℕ)
      → length buffer ≡ size
      → p % size + length queue ≤ size
      → Held size buffer p queue
      → take (length queue) (drop (p % size) buffer) ≡ queue
  taken_together [] buffer p whole fits h = refl
  taken_together (x ∷ []) buffer p whole fits h =
      read_cons_take buffer (p % size) x 0 (found_elem buffer (p % size) x h.0)
  taken_together (x ∷ y ∷ ys) buffer p whole fits h =
      let step = masked.next p (omega arith) in
      read_cons_take buffer (p % size) x (length (y ∷ ys)) (found_elem buffer (p % size) x h.0)
      ∙ ap (λ i. x ∷ take (length (y ∷ ys)) (drop i buffer))
          (let e : suc (p % size) ≡ (p + 1) % 2 ^ 16 % size = omega (arith, step) in e)
      ∙ ap (λ l. x ∷ l)
          (taken_together (y ∷ ys) buffer ((p + 1) % 2 ^ 16) whole (omega (arith, step)) h.1)

  pub read_together :
      (queue buffer : List ℕ) (p : ℕ)
      → length buffer ≡ size
      → p % size + length queue ≤ size
      → Held size buffer p queue
      → read_bytes buffer (p % size) (length queue) ≡ ok queue
  read_together queue buffer p whole fits h =
      read_bytes_ok buffer (p % size) (length queue) (omega arith)
      ∙ ap (λ l. ok l) (taken_together queue buffer p whole fits h)

  pub Held-take :
      (k : ℕ) (queue buffer : List ℕ) (p : ℕ)
      → Held size buffer p queue
      → Held size buffer p (take k queue)
  Held-take zero queue buffer p h = tt
  Held-take (suc k) [] buffer p h = tt
  Held-take (suc k) (x ∷ xs) buffer p h = (h.0, Held-take k xs buffer ((p + 1) % 2 ^ 16) h.1)

  pub Held-drop :
      (k : ℕ) (queue buffer : List ℕ) (p : ℕ)
      → p < 2 ^ 16
      → Held size buffer p queue
      → Held size buffer ((p + k) % 2 ^ 16) (drop k queue)
  Held-drop zero queue buffer p small h = subst (λ q. Held size buffer q queue) (omega arith) h
  Held-drop (suc k) [] buffer p small h = tt
  Held-drop (suc k) (x ∷ xs) buffer p small h =
      subst (λ q. Held size buffer q (drop k xs)) (omega arith)
        (Held-drop k xs buffer ((p + 1) % 2 ^ 16) (omega arith) h.1)

module _ (ring : UartRing) (queue : List ℕ) (s : Streams 32 ring queue) where
  available : rx_avail_data ring.enqueued ring.dequeued ≡ length queue
  unfolding rx_avail_data
  available = ground (arith, s.count, s.dequeued_16, s.small)

  emptied : UartRing
  emptied = record ring { dequeued = (ring.dequeued + length queue) % 2 ^ 16 }

  nothing_left : Streams 32 emptied []
  unfolding emptied
  nothing_left = record {
    whole = s.whole;
    dequeued_16 = omega arith;
    count = omega (arith, s.count);
    small = omega arith;
    held = tt;
  }

  module _ (buffer : List ℕ) (room : length queue ≤ length buffer) where
    result : Outcome (ℕ × (List ℕ × UartRing))
    result = ok (length queue, (queue ++ drop (length queue) buffer, emptied))

    at_once :
        0 < length queue
        → ring.dequeued % 32 < ring.enqueued % 32
        → uart_dequeue_data ring buffer ≡ result
    unfolding uart_dequeue_data result emptied
    at_once some_data order =
        let test : (length queue == 0) ≡ false = ground arith in
        let test' : ltb (ring.dequeued % 32) (ring.enqueued % 32) ≡ true = ground arith in
        let fits : ring.dequeued % 32 + length queue ≤ 32 =
          omega (arith, s.count, s.small, s.dequeued_16) in
        rw (
          available,
          test,
          test',
          read_together 32 IsMasked-32 queue ring.buffer ring.dequeued s.whole fits s.held,
          write_bytes_front buffer queue room,
        )

    k : ℕ
    k = 32 - ring.dequeued % 32

    tail : List ℕ
    tail = take k queue

    head : List ℕ
    head = drop k queue

    in_two :
        0 < length queue
        → ring.enqueued % 32 ≤ ring.dequeued % 32
        → uart_dequeue_data ring buffer ≡ result
    unfolding uart_dequeue_data result emptied k tail head
    in_two some_data order =
        let test : (length queue == 0) ≡ false = ground arith in
        let test' : ltb (ring.dequeued % 32) (ring.enqueued % 32) ≡ false = ground arith in
        let long : k ≤ length queue = omega (arith, s.count, s.small, s.dequeued_16) in
        let lt : length (take k queue) ≡ k = omega (arith, length-take k queue) in
        let lh : length (drop k queue) ≡ ring.enqueued % 32 =
          omega (arith, length-drop k queue, s.count, s.small, s.dequeued_16) in
        let first : read_bytes ring.buffer (ring.dequeued % 32) k ≡ ok (take k queue) =
          ap (read_bytes ring.buffer (ring.dequeued % 32)) (sym lt)
          ∙ read_together 32 IsMasked-32 (take k queue) ring.buffer ring.dequeued s.whole
              (omega arith) (Held-take 32 IsMasked-32 k queue ring.buffer ring.dequeued s.held) in
        let second : read_bytes ring.buffer 0 (ring.enqueued % 32) ≡ ok (drop k queue) =
          ap₂ (read_bytes ring.buffer)
            (let e : 0 ≡ (ring.dequeued + k) % 2 ^ 16 % 32 = omega arith in e) (sym lh)
          ∙ read_together 32 IsMasked-32 (drop k queue) ring.buffer ((ring.dequeued + k) % 2 ^ 16)
              s.whole (omega arith)
              (Held-drop 32 IsMasked-32 k queue ring.buffer ring.dequeued s.dequeued_16 s.held) in
        let all : length (take k queue) + length (drop k queue) ≡ length queue =
          omega (arith, lt, length-drop k queue) in
        let stores : (do
          half ← write_bytes buffer 0 (take k queue)
          write_bytes half k (drop k queue))
            ≡ ok (queue ++ drop (length queue) buffer) =
          ap
            (λ j. write_bytes buffer 0 (take k queue) >>= λ half. write_bytes half j (drop k queue))
            (sym lt)
          ∙ store_parts buffer (take k queue) (drop k queue) (omega arith)
          ∙ ap (λ j. ok (take k queue ++ (drop k queue ++ drop j buffer))) all
          ∙ ap (λ l. ok l)
              (sym (append_assoc (take k queue) (drop k queue) (drop (length queue) buffer)))
          ∙ ap (λ l. ok (l ++ drop (length queue) buffer)) (take-append-drop k queue) in
        rw (available, test, test', first, second)
          (bind_after (write_bytes buffer 0 (take k queue))
            (λ half. write_bytes half k (drop k queue)) _ stores)

    none_there : length queue ≡ 0 → uart_dequeue_data ring buffer ≡ ok (0, (buffer, ring))
    unfolding uart_dequeue_data
    none_there h = let test : (length queue == 0) ≡ true = ground arith in rw (available, test)

    -- From a receive ring that holds `queue`, `Uart_DequeueData` with a buffer that has room for all
    -- of it takes all of it in order, and leaves the ring empty.
    pub uart_dequeue_data-Streams :
        (ring' : UartRing) × (uart_dequeue_data ring buffer
          ≡ ok (length queue, (queue ++ drop (length queue) buffer, ring')))
        × Streams 32 ring' []
    unfolding result
    uart_dequeue_data-Streams = elim (Bool-cases (length queue == 0)) [
      | inl e ↦
          let none : length queue ≡ 0 = ground arith in
          let empty : [] ≡ queue = sym (empty_lem queue none) in
          (
            ring,
            none_there none ∙ ap (λ q. ok (length q, (q ++ drop (length q) buffer, ring))) empty,
            subst (Streams 32 ring) (sym empty) s,
          )
      | inr e ↦ elim (Bool-cases (ltb (ring.dequeued % 32) (ring.enqueued % 32))) [
        | inl e' ↦ (emptied, at_once (ground arith) (ground arith), nothing_left)
        | inr e' ↦ (emptied, in_two (ground arith) (ground arith), nothing_left)
      ]
    ]
