-- ===== src/Intercore/Take.antt =====
-- `DequeueData` on a block that the ring holds.
use modbus_sphere_library.Base.{
  ℕ, zero, suc, ◌+◌, ◌-◌, ◌%◌, ◌^◌, ◌≤◌, ◌<◌, ◌≡◌, refl, sym, ap, ap₂, ◌∙◌, List, [], ◌∷◌, ◌++◌,
  append_assoc, true, false, arith, ltb, leb, length, take, drop, length-append, length-drop,
  length-take, take-append, drop-append, drop-drop, take-length,
}
use modbus_sphere_library.Outcome.{Outcome, ok, fault, hang, ◌>>=◌}
use modbus_sphere_library.Memory.{write_bytes, write_bytes_ok, write_bytes_front}
use modbus_sphere_library.Intercore.Words.{word_bytes, word_value, word_value-word_bytes}
use modbus_sphere_library.Intercore.Ring.{
  BufferHeader, advance, avail_data, Dequeued, dequeue_block, dequeue_data,
}
use modbus_sphere_library.Intercore.Blocks.{first_part, IsPlace, first_part-Parts}
use modbus_sphere_library.Intercore.Held.{HasBlock}

take-take-drop :
    (f n : ℕ) (xs : List ℕ)
    → f ≤ n
    → n ≤ length xs
    → take f xs ++ take (n - f) (drop f xs) ≡ take n xs
take-take-drop zero n xs h k = ap (λ i. take i xs) (let e : n - 0 ≡ n = omega arith in e)
take-take-drop (suc f) zero xs h k = absurd (omega arith)
take-take-drop (suc f) (suc n) [] h k = absurd (omega arith)
take-take-drop (suc f) (suc n) (x ∷ xs) h k =
    ap₂ (λ i l. x ∷ (take f xs ++ take i l)) (let e : suc n - suc f ≡ n - f = omega arith in e) refl
    ∙ ap (λ l. x ∷ l) (take-take-drop f n xs (omega arith) (omega arith))

pub bind_after :
    {A B C : Type 0} (m : Outcome A) (f : A → Outcome B) (k : B → Outcome C) {b : B}
    → (m >>= f) ≡ ok b
    → (m >>= λ a. f a >>= k) ≡ k b
bind_after (ok a) f k h = ap (λ o. o >>= k) h
bind_after fault f k h = ap (λ o. o >>= k) h
bind_after hang f k h = ap (λ o. o >>= k) h

-- The two stores of `DequeueData`.
pub store_parts :
    (dest xs ys : List ℕ)
    → length xs + length ys ≤ length dest
    → (do filled ← write_bytes dest 0 xs; write_bytes filled (length xs) ys)
      ≡ ok (xs ++ (ys ++ drop (length xs + length ys) dest))
store_parts dest xs ys h =
    rw
      (
        write_bytes_front dest xs (omega arith),
        write_bytes_ok (xs ++ drop (length xs) dest) (length xs) ys
            (omega (arith, length-append xs (drop (length xs) dest), length-drop (length xs) dest)),
      )
      (ap₂ (λ l r. ok (l ++ (ys ++ r))) (take-append (length xs) xs (drop (length xs) dest) refl)
        (sym (drop-drop (length ys) (length xs) (xs ++ drop (length xs) dest))
          ∙ ap (drop (length ys)) (drop-append (length xs) xs (drop (length xs) dest) refl)
          ∙ drop-drop (length ys) (length xs) dest))

module _ (outbound inbound : BufferHeader) (buf_size : ℕ) (message : List ℕ)
    (place : IsPlace buf_size outbound.read_position) (fits : length message + 4 ≤ buf_size)
    (block : HasBlock buf_size inbound.area outbound.read_position message) where
  n : ℕ
  n = length message

  f : ℕ
  f = first_part buf_size outbound.read_position (length message)

  front : List ℕ
  front = take f message

  back : List ℕ
  back = take (n - f) (drop f message)

  small : f ≤ n
  unfolding f n
  small = (first_part-Parts buf_size outbound.read_position (length message) place fits).small

  length-parts : length front + length back ≡ n
  unfolding front back n
  length-parts = omega (
    arith,
    small,
    length-take f message,
    length-take (length message - f) (drop f message),
    length-drop f message,
  )

  length-front : length front ≡ f
  unfolding front n
  length-front = omega (arith, small, length-take f message)

  joined : front ++ back ≡ message
  unfolding front back n
  joined = take-take-drop f (length message) message small (omega arith) ∙ take-length message

  -- The caller's buffer and the header afterwards.
  abbrev pub dequeued : List ℕ → Dequeued
  dequeued dest = record {
    result = true;
    dest = message ++ drop (length message) dest;
    data_size = length message;
    outbound = record outbound {
      read_position = advance outbound.read_position (length message) buf_size;
    };
  }

  both_stored :
      (dest : List ℕ)
      → length message ≤ length dest
      → (do filled ← write_bytes dest 0 front; write_bytes filled f back)
        ≡ ok (message ++ drop (length message) dest)
  unfolding n
  both_stored dest room =
      ap (λ k. write_bytes dest 0 front >>= λ filled. write_bytes filled k back) (sym length-front)
      ∙ store_parts dest front back (omega (arith, length-parts))
      ∙ ap (λ k. ok (front ++ (back ++ drop k dest))) length-parts
      ∙ ap (λ l. ok l) (sym (append_assoc front back (drop (length message) dest)))
      ∙ ap (λ l. ok (l ++ drop (length message) dest)) joined

  block_dequeued :
      (dest : List ℕ)
      → length message ≤ length dest
      → dequeue_block outbound inbound buf_size dest
          (length message)
          (buf_size - outbound.read_position)
        ≡ ok (dequeued dest)
  unfolding dequeue_block f n front back
  block_dequeued dest room =
      rw (block.front_read, block.back_read)
        (bind_after (write_bytes dest 0 front) (λ filled. write_bytes filled f back) _
          (both_stored dest room))

  module _ (inside : inbound.write_position < buf_size) (short : length message < 2 ^ 31)
      (available : length message + 4
        ≤ avail_data inbound.write_position outbound.read_position buf_size)
      (dest : List ℕ) (capacity : ℕ) where
    size_known : word_value (word_bytes (length message)) ≡ length message
    size_known = word_value-word_bytes (length message) (omega arith)

    valid : leb buf_size inbound.write_position ≡ false
    valid = ground (arith, inside)

    some_data : ltb (avail_data inbound.write_position outbound.read_position buf_size) 4 ≡ false
    some_data = ground (arith, available)

    to_end :
        (buf_size + 2 ^ 32 - outbound.read_position) % 2 ^ 32 ≡ buf_size - outbound.read_position
    to_end = omega (arith, place.inside, place.bounded)

    contiguous : ltb (buf_size - outbound.read_position) 4 ≡ false
    contiguous = ground (arith, place.inside, place.aligned, place.aligned_size)

    complete :
        ltb
          (avail_data inbound.write_position outbound.read_position buf_size)
          ((length message + 4) % 2 ^ 32)
        ≡ false
    complete = ground (arith, available, place.bounded)

    pub data_dequeued :
        length message ≤ capacity
        → capacity ≤ length dest
        → dequeue_data outbound inbound buf_size dest capacity ≡ ok (dequeued dest)
    unfolding dequeue_data
    data_dequeued room given =
        let roomy : ltb capacity (length message) ≡ false = ground arith in
        rw (valid, some_data, to_end, contiguous, block.size_read, size_known, complete, roomy)
          (block_dequeued dest (omega arith))

    -- A buffer that is too small gets the size that is needed.
    pub data_refused :
        capacity < length message
        → dequeue_data outbound inbound buf_size dest capacity
          ≡ ok (record {
            result = false;
            dest = dest;
            data_size = length message;
            outbound = outbound;
          })
    unfolding dequeue_data
    data_refused small =
        let tight : ltb capacity (length message) ≡ true = ground arith in
        rw (valid, some_data, to_end, contiguous, block.size_read, size_known, complete, tight)
