-- ===== src/Intercore/Refine.antt =====
-- The two ends of a ring (`EnqueueData` and `DequeueData`) together.
use modbus_sphere_library.Base.{
  ℕ, take, length-take, ◌+◌, ◌-◌, ◌^◌, ◌≤◌, ◌<◌, ◌≡◌, refl, sym, ap, ◌∙◌, List, [], ◌∷◌, ap₂, ◌++◌,
  true, arith, length, drop,
}
use mathlib.Core.Path.{subst}
use modbus_sphere_library.Outcome.{Outcome, ok, ◌>>=◌}
use modbus_sphere_library.Intercore.Ring.{
  BufferHeader, advance, avail_space, avail_data, enqueue_data, dequeue_data,
}
use modbus_sphere_library.Intercore.Blocks.{
  with_block-take, IsPlace, Parts, first_part, first_part-Parts, advance-IsPlace, with_block,
  length-with_block,
}
use modbus_sphere_library.Intercore.Enqueue.{enqueued, data_enqueued}
use modbus_sphere_library.Intercore.Held.{HasBlock, with_block-HasBlock}
use modbus_sphere_library.Intercore.Take.{data_dequeued}
use modbus_sphere_library.Intercore.Queue.{
  block_size, used, put, get, Answer, Op, send, receive, Seen, sent, received,
}
use modbus_sphere_library.Intercore.Queue
use modbus_sphere_library.Intercore.Contents.{
  place_after, Holds, block_size-bounds, block_size-aligned, advance_lem, avail_space_lem,
  avail_data_lem,
}
use modbus_sphere_library.Intercore.Writer.{enqueue_data-put}
use modbus_sphere_library.Intercore.Reader.{dequeue_data-get, answer}

-- A sequence of calls at the two ends, in any order.
unfoldable pub run_ring : ℕ → BufferHeader → BufferHeader → List Op → Outcome (List Seen)
run_ring buf_size reader writer [] = ok []
run_ring buf_size reader writer (send m ∷ ops) = do
  (accepted, writer') ← enqueue_data reader writer buf_size m (length m)
  seen ← run_ring buf_size reader writer' ops
  ok (sent accepted ∷ seen)
run_ring buf_size reader writer (receive dest capacity ∷ ops) = do
  d ← dequeue_data reader writer buf_size dest capacity
  seen ← run_ring buf_size d.outbound writer ops
  ok (received (answer d) ∷ seen)

-- The messages are shorter than `2 ^ 31` bytes, and the buffers have room for the capacities.
abbrev pub AreCalls : List Op → Type 0
AreCalls [] = Unit {0}
AreCalls (send m ∷ ops) = (length m < 2 ^ 31) × AreCalls ops
AreCalls (receive dest capacity ∷ ops) = (capacity ≤ length dest) × AreCalls ops

-- No sequence of calls at the two ends, in any order, tells a ring that holds `messages` from the
-- bounded queue of these messages, if each message sent is shorter than `2 ^ 31` bytes and each
-- buffer has room for its capacity; none of the calls makes an invalid access.
pub run_ring-run :
    (ops : List Op) (buf_size : ℕ) (reader writer : BufferHeader) (messages : List (List ℕ))
    → Holds buf_size reader writer messages
    → AreCalls ops
    → run_ring buf_size reader writer ops ≡ ok (Queue.run buf_size messages ops)
unfolding run_ring Queue.run
run_ring-run [] buf_size reader writer messages holds calls = refl
run_ring-run (send m ∷ ops) buf_size reader writer messages holds calls =
    let (writer', e, kept) = enqueue_data-put buf_size reader writer messages holds m calls.0 in
    rw (e, run_ring-run ops buf_size reader writer' (put buf_size messages m).1 kept calls.1)
run_ring-run (receive dest capacity ∷ ops) buf_size reader writer messages holds calls =
    let (d, e, told, kept) =
      dequeue_data-get buf_size reader writer messages holds dest capacity calls.0 in
    rw (e, run_ring-run ops buf_size d.outbound writer (get messages dest capacity).1 kept calls.1)
      (ap (λ a. ok (received a ∷ Queue.run buf_size (get messages dest capacity).1 ops)) told)

-- The ring between two exchanges: everything in it has been read.
pub record Empty (inbound outbound : BufferHeader) (buf_size : ℕ) : Type 0 where
  pub place : IsPlace buf_size outbound.write_position
  pub whole_area : length outbound.area ≡ buf_size
  pub all_read : inbound.read_position ≡ outbound.write_position

module _ (inbound outbound : BufferHeader) (buf_size : ℕ) (src : List ℕ) (n : ℕ)
    (start : Empty inbound outbound buf_size) (fits : n + 20 ≤ buf_size)
    (given : n ≤ length src) where
  w : ℕ
  w = outbound.write_position

  block :
      HasBlock buf_size (enqueued outbound buf_size src n).area outbound.write_position (take n src)
  block =
      let f = first_part buf_size outbound.write_position n in
      let short : length (take n src) ≡ n = omega (arith, length-take n src) in
      subst (λ area. HasBlock buf_size area outbound.write_position (take n src))
        (with_block-take outbound.area outbound.write_position src n f
          (first_part-Parts buf_size outbound.write_position n start.place (omega arith)).small)
        (subst
          (λ k.
            HasBlock buf_size
              (with_block outbound.area outbound.write_position (take n src) k
                (first_part buf_size outbound.write_position k))
              outbound.write_position (take n src))
          short
          (with_block-HasBlock buf_size outbound.area outbound.write_position (take n src)
            start.whole_area start.place (omega arith)))

  moved :
      advance outbound.write_position n buf_size
      ≡ place_after buf_size outbound.write_position (block_size n)
  moved = advance_lem buf_size outbound.write_position n start.place (omega arith)

  available :
      n + 4 ≤ avail_data (advance outbound.write_position n buf_size) inbound.read_position buf_size
  available =
      let (lower, upper) = block_size-bounds n in
      let all : avail_data (advance outbound.write_position n buf_size) outbound.write_position
            buf_size
          ≡ block_size n =
        avail_data_lem buf_size outbound.write_position (advance outbound.write_position n buf_size)
          (block_size n) start.place moved
          (omega (arith, block_size-aligned n, start.place.aligned_size)) in
      rw start.all_read (omega arith)

  sent_room : n + 20 ≤ avail_space inbound.read_position outbound.write_position buf_size
  sent_room =
      let none_used : avail_space outbound.write_position outbound.write_position buf_size
          ≡ buf_size - 0 =
        avail_space_lem buf_size outbound.write_position outbound.write_position 0 start.place
          (let e : outbound.write_position ≡ place_after buf_size outbound.write_position 0 =
              ground (arith, start.place.inside) in
            e)
          (omega arith) in
      rw start.all_read (omega arith)

  received_back :
      (dest : List ℕ)
      → n ≤ length dest
      → dequeue_data inbound (enqueued outbound buf_size src n) buf_size dest (length dest)
        ≡ ok (record {
          result = true;
          dest = take n src ++ drop n dest;
          data_size = n;
          outbound = record inbound { read_position = advance outbound.write_position n buf_size };
        })
  received_back dest room =
      let short : length (take n src) ≡ n = omega (arith, length-take n src) in
      let place : IsPlace buf_size inbound.read_position =
        subst (IsPlace buf_size) (sym start.all_read) start.place in
      let there : HasBlock buf_size (enqueued outbound buf_size src n).area inbound.read_position
          (take n src) =
        subst (λ p. HasBlock buf_size (enqueued outbound buf_size src n).area p (take n src))
          (sym start.all_read) block in
      data_dequeued inbound (enqueued outbound buf_size src n) buf_size (take n src) place
        (omega arith) there
        (advance-IsPlace buf_size outbound.write_position n start.place (omega arith)).inside
        (omega (arith, start.place.bounded)) (omega (arith, available)) dest (length dest)
        (omega arith) (omega arith)
      ∙ ap₂
          (λ k p. ok (record {
            result = true;
            dest = take n src ++ drop k dest;
            data_size = k;
            outbound = record inbound { read_position = advance p k buf_size };
          }))
          short start.all_read

  -- In a ring whose size (below `2 ^ 31`) and position are multiples of 16, whose area has that size
  -- and that has been read to its end, a message of at most the size less 20 bytes is enqueued, and
  -- is dequeued at the other end into any buffer with room for it as it was, with its size;
  -- afterwards the two positions meet again, at a multiple of 16 in the ring.
  pub dequeue_data-enqueue_data :
      (dest : List ℕ)
      → n ≤ length dest
      → (sent : BufferHeader) × (enqueue_data inbound outbound buf_size src n ≡ ok (true, sent))
        × (dequeue_data inbound sent buf_size dest (length dest)
            ≡ ok (record {
              result = true;
              dest = take n src ++ drop n dest;
              data_size = n;
              outbound = record inbound { read_position = sent.write_position };
            }))
        × Empty (record inbound { read_position = sent.write_position }) sent buf_size
  dequeue_data-enqueue_data dest room = (
    enqueued outbound buf_size src n,
    data_enqueued outbound buf_size src n start.place start.whole_area fits given inbound
        (rw start.all_read start.place.inside) sent_room,
    received_back dest room,
    record {
      place = advance-IsPlace buf_size outbound.write_position n start.place (omega arith);
      whole_area =
          length-with_block outbound.area outbound.write_position src n
            (first_part buf_size outbound.write_position n)
            (subst
              (λ b.
                Parts b outbound.write_position n (first_part buf_size outbound.write_position n))
              (sym start.whole_area)
              (first_part-Parts buf_size outbound.write_position n start.place (omega arith)))
            given
          ∙ start.whole_area;
      all_read = refl;
    },
  )
