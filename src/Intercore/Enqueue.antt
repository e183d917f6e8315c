-- ===== src/Intercore/Enqueue.antt =====
-- `EnqueueData` when the block fits.
use mathlib.Core.Path.{subst}
use modbus_sphere_library.Base.{
  ℕ, ◌+◌, ◌-◌, ◌%◌, ◌^◌, ◌≤◌, ◌<◌, ◌≡◌, sym, List, true, false, arith, ltb, leb, length,
  if◌then◌else◌,
}
use modbus_sphere_library.Outcome.{ok}
use modbus_sphere_library.Intercore.Ring.{
  BufferHeader, advance, avail_space, enqueue_block, enqueue_data,
}
use modbus_sphere_library.Intercore.Blocks.{
  first_part, IsPlace, Parts, first_part-Parts, with_block, store_block,
}

-- The outbound buffer once the message is in it.
abbrev pub enqueued : BufferHeader → ℕ → List ℕ → ℕ → BufferHeader
enqueued outbound buf_size src n = record outbound {
  area =
      with_block outbound.area outbound.write_position src n
        (first_part buf_size outbound.write_position n);
  write_position = advance outbound.write_position n buf_size;
}

module _ (outbound : BufferHeader) (buf_size : ℕ) (src : List ℕ) (n : ℕ)
    (place : IsPlace buf_size outbound.write_position)
    (whole_area : length outbound.area ≡ buf_size) (fits : n + 20 ≤ buf_size)
    (given : n ≤ length src) where
  w : ℕ
  w = outbound.write_position

  split : Parts (length outbound.area) w n (first_part buf_size w n)
  unfolding w
  split =
      subst (λ b. Parts b w n (first_part buf_size w n)) (sym whole_area)
        (first_part-Parts buf_size w n place (omega arith))

  first_written :
      ((if ltb (buf_size - w) ((4 + n) % 2 ^ 32) then buf_size - w else (4 + n) % 2 ^ 32)
          + 2 ^ 32
          - 4)
        % 2 ^ 32
      ≡ first_part buf_size w n
  unfolding w
  first_written = ground (arith, place.bounded, place.inside, place.aligned, place.aligned_size)

  rest_written : (n + 2 ^ 32 - first_part buf_size w n) % 2 ^ 32 ≡ n - first_part buf_size w n
  rest_written = omega (arith, place.bounded, split.small)

  pub block_enqueued :
      enqueue_block outbound buf_size src n (buf_size - outbound.write_position)
      ≡ ok (true, enqueued outbound buf_size src n)
  unfolding enqueue_block w
  block_enqueued =
      rw (first_written, rest_written)
        (store_block outbound.area w src n (first_part buf_size w n) split given (λ area.
          ok (true, record outbound { area = area; write_position = advance w n buf_size })))

  -- Any remote position that leaves room for the block and 16 bytes more is fine.
  pub data_enqueued :
      (inbound : BufferHeader)
      → inbound.read_position < buf_size
      → n + 20 ≤ avail_space inbound.read_position outbound.write_position buf_size
      → enqueue_data inbound outbound buf_size src n ≡ ok (true, enqueued outbound buf_size src n)
  unfolding enqueue_data w
  data_enqueued inbound inside room =
      let valid : leb buf_size inbound.read_position ≡ false = ground arith in
      let enough : ltb (avail_space inbound.read_position outbound.write_position buf_size)
            ((4 + n + 16) % 2 ^ 32)
          ≡ false =
        ground (arith, place.bounded) in
      let to_end : (buf_size + 2 ^ 32 - outbound.write_position) % 2 ^ 32 ≡ buf_size - w =
        omega (arith, place.inside, place.bounded) in
      let contiguous : ltb (buf_size - w) 4 ≡ false =
        ground (arith, place.inside, place.aligned, place.aligned_size) in
      rw (valid, enough, to_end, contiguous) block_enqueued
