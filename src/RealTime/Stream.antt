-- ===== src/RealTime/Stream.antt =====
-- The bytes that lie in a ring of the UART driver, from the oldest on.
use modbus_sphere_library.Base.{
  ℕ, zero, suc, ◌+◌, ◌%◌, ◌^◌, ◌≤◌, ◌<◌, ◌≡◌, ◌≢◌, refl, sym, ap, ◌∙◌, List, [], ◌∷◌, ◌++◌, arith,
  length, take, drop, set, length-set, get_elem?-set_self, get_elem?-set_ne, length-append,
}
use modbus_sphere_library.Outcome.{ok}
use modbus_sphere_library.Memory.{read_byte, write_byte, write_bytes_ok}
use modbus_sphere_library.RealTime.Uart.{UartRing}

-- What the mask of a ring's index needs of the ring's size, beside the 16-bit counters.
pub record IsMasked (size : ℕ) : Type 0 where
  pub inside : (p : ℕ) → p % size < size
  pub apart : (p n : ℕ) → 0 < n → n < size → (p + n) % 2 ^ 16 % size ≢ p % size
  pub next : (p : ℕ) → p % size + 1 < size → (p + 1) % 2 ^ 16 % size ≡ p % size + 1
  pub wrapped : (p : ℕ) → p % size + 1 ≡ size → (p + 1) % 2 ^ 16 % size ≡ 0

pub IsMasked-256 : IsMasked 256
IsMasked-256 = record {
  inside = λ p. omega arith;
  apart = λ p n h k e. omega arith;
  next = λ p h. omega arith;
  wrapped = λ p h. omega arith;
}

pub IsMasked-32 : IsMasked 32
IsMasked-32 = record {
  inside = λ p. omega arith;
  apart = λ p n h k e. omega arith;
  next = λ p h. omega arith;
  wrapped = λ p h. omega arith;
}

abbrev pub Held : ℕ → List ℕ → ℕ → List ℕ → Type 0
Held size buffer p [] = Unit {0}
Held size buffer p (x ∷ xs) =
    (read_byte buffer (p % size) ≡ ok x) × Held size buffer ((p + 1) % 2 ^ 16) xs

-- A ring that holds exactly the bytes `queue`.
pub record Streams (size : ℕ) (ring : UartRing) (queue : List ℕ) : Type 0 where
  pub whole : length ring.buffer ≡ size
  pub dequeued_16 : ring.dequeued < 2 ^ 16
  pub count : ring.enqueued ≡ (ring.dequeued + length queue) % 2 ^ 16
  pub small : length queue ≤ size
  pub held : Held size ring.buffer ring.dequeued queue

set_split :
    (xs : List ℕ) (i v : ℕ) → i < length xs → take i xs ++ (v ∷ drop (suc i) xs) ≡ set xs i v
set_split [] i v h = absurd (omega arith)
set_split (x ∷ xs) zero v h = refl
set_split (x ∷ xs) (suc i) v h = ap (λ l. x ∷ l) (set_split xs i v (omega arith))

pub write_byte-set : (xs : List ℕ) (i v : ℕ) → i < length xs → write_byte xs i v ≡ ok (set xs i v)
unfolding write_byte
write_byte-set xs i v h =
    write_bytes_ok xs i (v ∷ []) (omega arith)
    ∙ ap (λ k. ok (take i xs ++ (v ∷ drop k xs))) (let e : i + 1 ≡ suc i = omega arith in e)
    ∙ ap (λ l. ok l) (set_split xs i v h)

module _ (size : ℕ) (masked : IsMasked size) where
  read_byte-set :
      (buffer : List ℕ) (i j v x : ℕ)
      → i ≢ j
      → read_byte buffer j ≡ ok x
      → read_byte (set buffer i v) j ≡ ok x
  unfolding read_byte
  read_byte-set buffer i j v x h e = rw (read_byte, get_elem?-set_ne buffer v h) e

  -- A byte stored behind all the others leaves them.
  pub Held-set :
      (queue : List ℕ) (buffer : List ℕ) (p e v : ℕ)
      → e ≡ (p + length queue) % 2 ^ 16
      → length queue < size
      → Held size buffer p queue
      → Held size (set buffer (e % size) v) p queue
  Held-set [] buffer p e v at room h = tt
  Held-set (x ∷ xs) buffer p e v at room h =
      let differs : e % size ≢ p % size = λ same.
        masked.apart p (suc (length xs)) (omega arith) room (ap (λ k. k % size) (sym at) ∙ same) in
      (
        read_byte-set buffer (e % size) (p % size) v x differs h.0,
        Held-set xs buffer ((p + 1) % 2 ^ 16) e v (omega arith) (omega arith) h.1,
      )

  pub Held-append :
      (queue : List ℕ) (buffer : List ℕ) (p e v : ℕ)
      → e ≡ (p + length queue) % 2 ^ 16
      → p < 2 ^ 16
      → read_byte buffer (e % size) ≡ ok v
      → Held size buffer p queue
      → Held size buffer p (queue ++ (v ∷ []))
  Held-append [] buffer p e v at small last h =
      (ap (λ k. read_byte buffer (k % size)) (let same : p ≡ e = omega arith in same) ∙ last, tt)
  Held-append (x ∷ xs) buffer p e v at small last h =
      (h.0, Held-append xs buffer ((p + 1) % 2 ^ 16) e v (omega arith) (omega arith) last h.1)

  -- One byte more.
  pub stored :
      (ring : UartRing) (queue : List ℕ) (v : ℕ)
      → Streams size ring queue
      → length queue < size
      → (buffer : List ℕ) × (write_byte ring.buffer (ring.enqueued % size) v ≡ ok buffer)
        × Streams size
            (record {
              buffer = buffer;
              enqueued = (ring.enqueued + 1) % 2 ^ 16;
              dequeued = ring.dequeued;
            })
            (queue ++ (v ∷ []))
  unfolding read_byte
  stored ring queue v s room =
      let i = ring.enqueued % size in
      let fits : i < length ring.buffer = omega (arith, s.whole, masked.inside ring.enqueued) in
      let now : read_byte (set ring.buffer i v) i ≡ ok v =
        rw (get_elem?-set_self ring.buffer i v fits, read_byte) in
      let longer = length-append queue (v ∷ []) in
      (
        set ring.buffer i v,
        write_byte-set ring.buffer i v fits,
        record {
          whole = length-set ring.buffer i v ∙ s.whole;
          dequeued_16 = s.dequeued_16;
          count = omega (arith, longer, s.count);
          small = omega (arith, longer);
          held =
              Held-append queue (set ring.buffer i v) ring.dequeued ring.enqueued v s.count
                s.dequeued_16 now
                (Held-set queue ring.buffer ring.dequeued ring.enqueued v s.count room s.held);
        },
      )

  -- One byte less.
  pub removed :
      (ring : UartRing) (x : ℕ) (queue : List ℕ)
      → Streams size ring (x ∷ queue)
      → (read_byte ring.buffer (ring.dequeued % size) ≡ ok x)
        × Streams size (record ring { dequeued = (ring.dequeued + 1) % 2 ^ 16 }) queue
  removed ring x queue s = (
    s.held.0,
    record {
      whole = s.whole;
      dequeued_16 = omega arith;
      count = omega (arith, s.count);
      small = omega (arith, s.small);
      held = s.held.1;
    },
  )
