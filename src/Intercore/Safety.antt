-- ===== src/Intercore/Safety.antt =====
-- `EnqueueData` and `DequeueData` with a shared memory that the other core can change.
use mathlib.Core.Path.{subst}
use modbus_sphere_library.Base.{
  ℕ, ◌+◌, ◌-◌, ◌%◌, ◌^◌, ◌≤◌, ◌<◌, ◌≡◌, refl, sym, ◌∙◌, List, Bool, false, arith, ltb, leb, inl,
  inr, Bool-cases, length, if◌then◌else◌,
}
use modbus_sphere_library.Outcome.{ok, Returns, Returns->>=}
use modbus_sphere_library.Memory.{read_bytes_fit, write_bytes_fit, read_bytes, write_bytes}
use modbus_sphere_library.Intercore.Words.{word_value}
use modbus_sphere_library.Intercore.Ring.{
  BufferHeader, avail_space, avail_data, enqueue_data, enqueue_block, Dequeued, dequeue_block,
  dequeue_data,
}
use modbus_sphere_library.Intercore.Blocks.{
  IsPlace, Parts, first_part, advance-IsPlace, length-with_block, first_part-Parts,
}
use modbus_sphere_library.Intercore.Enqueue.{block_enqueued}

-- The outbound buffer after `EnqueueData`: its position is one of the ring, and its area has the
-- size of the ring.
pub record IsKept (buf_size : ℕ) (outbound : BufferHeader) (out : Bool × BufferHeader)
    : Type 0 where
  pub place : IsPlace buf_size out.1.write_position
  pub whole_area : length out.1.area ≡ buf_size
  pub same_read : out.1.read_position ≡ outbound.read_position

module _ (inbound outbound : BufferHeader) (buf_size : ℕ)
    (p : IsPlace buf_size outbound.write_position) (area_size : length outbound.area ≡ buf_size)
    (src : List ℕ) (n : ℕ) (given : n ≤ length src) (short : n < 2 ^ 31) where
  kept : (b : Bool) → Returns (IsKept buf_size outbound) (ok (b, outbound))
  kept b = record { place = p; whole_area = area_size; same_read = refl }

  stored :
      n + 20 ≤ buf_size
      → Returns
          (IsKept buf_size outbound)
          (enqueue_block outbound buf_size src n (buf_size - outbound.write_position))
  stored fits = rw (block_enqueued outbound buf_size src n p area_size fits given) (record {
    place = advance-IsPlace buf_size outbound.write_position n p (omega arith);
    whole_area =
        length-with_block outbound.area outbound.write_position src n
          (first_part buf_size outbound.write_position n)
          (subst
            (λ b. Parts b outbound.write_position n (first_part buf_size outbound.write_position n))
            (sym area_size) (first_part-Parts buf_size outbound.write_position n p (omega arith)))
          given
        ∙ area_size;
    same_read = refl;
  })

  -- For a ring whose size (below `2 ^ 31`) and write position are multiples of 16 and whose area
  -- has that size, and a message of less than `2 ^ 31` bytes: whatever read position the other core
  -- has written, `EnqueueData` accesses nothing outside the area and the message, and its write
  -- position stays a multiple of 16 in the ring.
  pub enqueue_data-IsKept :
      Returns (IsKept buf_size outbound) (enqueue_data inbound outbound buf_size src n)
  unfolding enqueue_data avail_space
  enqueue_data-IsKept =
      let to_end : (buf_size + 2 ^ 32 - outbound.write_position) % 2 ^ 32
          ≡ buf_size - outbound.write_position =
        omega (arith, p.inside, p.bounded) in
      elim (Bool-cases (leb buf_size inbound.read_position)) [
        | inl e ↦ rw e (kept false)
        | inr e ↦
            elim (Bool-cases (
              ltb (avail_space inbound.read_position outbound.write_position buf_size)
                ((4 + n + 16) % 2 ^ 32))) [
                  | inl e' ↦ rw (e, e') (kept false)
                  | inr e' ↦ elim (Bool-cases (ltb (buf_size - outbound.write_position) 4)) [
                    | inl e'' ↦ rw (e, e', to_end, e'') (kept false)
                    | inr e'' ↦
                        rw (e, e', to_end, e'') (stored (ground (arith, p.inside, p.bounded)))
                  ]
                ]
      ]

-- What `DequeueData` leaves: a read position of the ring, and a caller's array of the same size.
pub record IsTaken (buf_size : ℕ) (dest : List ℕ) (d : Dequeued) : Type 0 where
  pub place : IsPlace buf_size d.outbound.read_position
  pub same_size : length d.dest ≡ length dest

module _ (outbound inbound : BufferHeader) (buf_size : ℕ)
    (p : IsPlace buf_size outbound.read_position) (area_size : length inbound.area ≡ buf_size)
    (dest : List ℕ) (capacity : ℕ) (given : capacity ≤ length dest)
    (short : capacity < 2 ^ 31) where
  left :
      (size : ℕ)
      → Returns
          (IsTaken buf_size dest)
          (ok (record { result = false; dest = dest; data_size = size; outbound = outbound }))
  left size = record { place = p; same_size = refl }

  taken :
      (n : ℕ)
      → n + 4 ≤ buf_size
      → n ≤ capacity
      → Returns
          (IsTaken buf_size dest)
          (dequeue_block outbound inbound buf_size dest n (buf_size - outbound.read_position))
  unfolding dequeue_block
  taken n fits room =
      let f = first_part buf_size outbound.read_position n in
      let parts = first_part-Parts buf_size outbound.read_position n p fits in
      Returns->>= (λ xs. length xs ≡ f) (IsTaken buf_size dest)
        (read_bytes inbound.area (outbound.read_position + 4) f) _
        (read_bytes_fit inbound.area (outbound.read_position + 4) f
          (omega (arith, parts.before_end)))
        λ front ef.
          Returns->>= (λ xs. length xs ≡ length dest) (IsTaken buf_size dest)
            (write_bytes dest 0 front) _ (write_bytes_fit dest 0 front (omega (arith, parts.small)))
            λ filled e1.
              Returns->>= (λ xs. length xs ≡ n - f) (IsTaken buf_size dest)
                (read_bytes inbound.area 0 (n - f)) _
                (read_bytes_fit inbound.area 0 (n - f)
                  (omega (arith, parts.before_end, parts.wrapped)))
                λ back eb.
                  Returns->>= (λ xs. length xs ≡ length filled) (IsTaken buf_size dest)
                    (write_bytes filled f back) _
                    (write_bytes_fit filled f back (omega (arith, parts.small)))
                    λ whole e2. record {
                      place = advance-IsPlace buf_size outbound.read_position n p fits;
                      same_size = e2 ∙ e1;
                    }

  -- For a ring whose size (below `2 ^ 31`) and read position are multiples of 16 and whose area has
  -- that size, and a buffer with room for the capacity given (below `2 ^ 31`): whatever write
  -- position and data the other core has written, `DequeueData` accesses nothing outside the area
  -- and the buffer, and its read position stays a multiple of 16 in the ring.
  pub dequeue_data-IsTaken :
      Returns (IsTaken buf_size dest) (dequeue_data outbound inbound buf_size dest capacity)
  unfolding dequeue_data avail_data
  dequeue_data-IsTaken =
      let to_end : (buf_size + 2 ^ 32 - outbound.read_position) % 2 ^ 32
          ≡ buf_size - outbound.read_position =
        omega (arith, p.inside, p.bounded) in
      elim (Bool-cases (leb buf_size inbound.write_position)) [
        | inl e ↦ rw e (left capacity)
        | inr e ↦
            elim (Bool-cases
              (ltb (avail_data inbound.write_position outbound.read_position buf_size) 4)) [
                | inl e' ↦ rw (e, e') (left capacity)
                | inr e' ↦ elim (Bool-cases (ltb (buf_size - outbound.read_position) 4)) [
                  | inl e'' ↦ rw (e, e', to_end, e'') (left capacity)
                  | inr e'' ↦
                      rw (e, e', to_end, e'')
                        (Returns->>= (λ xs. length xs ≡ 4) (IsTaken buf_size dest)
                          (read_bytes inbound.area outbound.read_position 4) _
                          (read_bytes_fit inbound.area outbound.read_position 4
                            (ground (arith, p.inside, p.aligned, p.aligned_size)))
                          λ word _. sized (word_value word) e)
                ]
              ]
      ]
    where
      sized :
          (n : ℕ)
          → leb buf_size inbound.write_position ≡ false
          → Returns (IsTaken buf_size dest) (
              if ltb
                (avail_data inbound.write_position outbound.read_position buf_size)
                ((n + 4) % 2 ^ 32)
              then ok (record {
                result = false;
                dest = dest;
                data_size = capacity;
                outbound = outbound;
              })
              else if ltb capacity n
              then ok (record { result = false; dest = dest; data_size = n; outbound = outbound })
              else dequeue_block outbound inbound buf_size dest n
                  (buf_size - outbound.read_position))
      sized n valid =
          elim (Bool-cases (
            ltb (avail_data inbound.write_position outbound.read_position buf_size)
              ((n + 4) % 2 ^ 32))) [
                | inl e ↦ rw e (left capacity)
                | inr e ↦ elim (Bool-cases (ltb capacity n)) [
                  | inl e' ↦ rw (e, e') (left n)
                  | inr e' ↦
                      rw (e, e') (taken n (ground (arith, p.inside, p.bounded)) (ground arith))
                ]
              ]
