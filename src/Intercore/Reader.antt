-- ===== src/Intercore/Reader.antt =====
-- `DequeueData` on a ring that holds messages.
use modbus_sphere_library.Base.{
  ℕ, ◌+◌, ◌^◌, ◌≤◌, ◌<◌, ◌≡◌, refl, sym, ap, ◌∙◌, List, [], ◌∷◌, ◌++◌, true, false, arith, drop,
  ltb, leb, inl, inr, Bool-cases, length,
}
use mathlib.Core.Path.{subst}
use modbus_sphere_library.Outcome.{ok}
use modbus_sphere_library.Intercore.Ring.{BufferHeader, advance, avail_data, Dequeued, dequeue_data}
use modbus_sphere_library.Intercore.Blocks.{advance-IsPlace}
use modbus_sphere_library.Intercore.Take.{dequeued, data_dequeued, data_refused}
use modbus_sphere_library.Intercore.Queue.{block_size, used, get, Answer}
use modbus_sphere_library.Intercore.Contents.{
  place_after, Blocks, Holds, block_size-bounds, place_after-sum, advance_lem, avail_data_lem,
}

empty_dequeued :
    (buf_size : ℕ) (reader writer : BufferHeader)
    → Holds buf_size reader writer []
    → (dest : List ℕ) (capacity : ℕ)
    → dequeue_data reader writer buf_size dest capacity
      ≡ ok (record { result = false; dest = dest; data_size = capacity; outbound = reader })
unfolding dequeue_data used
empty_dequeued buf_size reader writer holds dest capacity =
    let valid : leb buf_size writer.write_position ≡ false =
      ground (arith, holds.write_place.inside) in
    let none_there : ltb (avail_data writer.write_position reader.read_position buf_size) 4 ≡ true =
      ground (
        arith,
        avail_data_lem buf_size reader.read_position writer.write_position 0 holds.read_place
            holds.meets holds.room,
      ) in
    rw (valid, none_there)

module _ (buf_size : ℕ) (reader writer : BufferHeader) (m : List ℕ) (ms : List (List ℕ))
    (holds : Holds buf_size reader writer (m ∷ ms)) where
  n : ℕ
  n = length m

  fits : block_size n + used ms + 16 ≤ buf_size
  unfolding used n
  fits = holds.room

  here : writer.write_position ≡ place_after buf_size reader.read_position (block_size n + used ms)
  unfolding used n
  here = holds.meets

  available : length m + 4 ≤ avail_data writer.write_position reader.read_position buf_size
  unfolding n
  available =
      let (lower, upper) = block_size-bounds (length m) in
      omega (
        arith,
        avail_data_lem buf_size reader.read_position writer.write_position
            (block_size (length m) + used ms) holds.read_place here fits,
      )

  short : length m + 4 ≤ buf_size
  unfolding n
  short = let (lower, upper) = block_size-bounds (length m) in omega (arith, fits)

  small : length m < 2 ^ 31
  small = omega (arith, short, holds.read_place.bounded)

  rest :
      Holds buf_size
        (record reader { read_position = advance reader.read_position (length m) buf_size })
        writer
        ms
  unfolding n
  rest =
      let r = reader.read_position in
      let next : advance r (length m) buf_size ≡ place_after buf_size r (block_size (length m)) =
        advance_lem buf_size r (length m) holds.read_place short in
      record {
        read_place = advance-IsPlace buf_size r (length m) holds.read_place short;
        write_place = holds.write_place;
        whole_area = holds.whole_area;
        room = omega (arith, fits);
        meets =
            here
            ∙ sym (
                place_after-sum buf_size r (block_size (length m)) (used ms) holds.read_place.inside
                  (omega (arith, fits)))
            ∙ ap (λ p. place_after buf_size p (used ms)) (sym next);
        blocks = subst (λ p. Blocks buf_size writer.area p ms) (sym next) holds.blocks.1;
      }

  taken :
      (dest : List ℕ) (capacity : ℕ)
      → length m ≤ capacity
      → capacity ≤ length dest
      → dequeue_data reader writer buf_size dest capacity
        ≡ ok (dequeued reader writer buf_size m holds.read_place short holds.blocks.0 dest)
  taken dest capacity room given =
      data_dequeued reader writer buf_size m holds.read_place short holds.blocks.0
        holds.write_place.inside small available dest capacity room given

  refused :
      (dest : List ℕ) (capacity : ℕ)
      → capacity < length m
      → dequeue_data reader writer buf_size dest capacity
        ≡ ok (record { result = false; dest = dest; data_size = length m; outbound = reader })
  refused dest capacity tight =
      data_refused reader writer buf_size m holds.read_place short holds.blocks.0
        holds.write_place.inside small available dest capacity tight

-- What `DequeueData` tells its caller.
abbrev pub answer : Dequeued → Answer
answer d = record { got = d.result; size = d.data_size; buffer = d.dest }

-- On a ring that holds `messages`, `DequeueData` with a buffer that has room for the capacity given
-- tells its caller what the queue `get` does, without an invalid access, and the ring then holds
-- the messages of that queue.
pub dequeue_data-get :
    (buf_size : ℕ) (reader writer : BufferHeader) (messages : List (List ℕ))
    → Holds buf_size reader writer messages
    → (dest : List ℕ) (capacity : ℕ) → capacity ≤ length dest
    → (d : Dequeued) × (dequeue_data reader writer buf_size dest capacity ≡ ok d)
      × (answer d ≡ (get messages dest capacity).0)
      × Holds buf_size d.outbound writer (get messages dest capacity).1
unfolding get
dequeue_data-get buf_size reader writer [] holds dest capacity given =
    (_, empty_dequeued buf_size reader writer holds dest capacity, refl, holds)
dequeue_data-get buf_size reader writer (m ∷ ms) holds dest capacity given =
    elim (Bool-cases (ltb capacity (length m))) [
      | inl e ↦
          rw e
            (_, refused buf_size reader writer m ms holds dest capacity (ground arith), refl, holds)
      | inr e ↦ rw e (
        _,
        taken buf_size reader writer m ms holds dest capacity (ground arith) given,
        refl,
        rest buf_size reader writer m ms holds,
      )
    ]

-- The oldest message is read whole by a buffer with room for it; of the reader's header only the
-- read position changes.
pub first_dequeued :
    (buf_size : ℕ) (reader writer : BufferHeader) (m : List ℕ) (ms : List (List ℕ))
    → Holds buf_size reader writer (m ∷ ms)
    → (dest : List ℕ) (capacity : ℕ) → length m ≤ capacity
    → capacity ≤ length dest
    → (p : ℕ) × (dequeue_data reader writer buf_size dest capacity
        ≡ ok (record {
          result = true;
          dest = m ++ drop (length m) dest;
          data_size = length m;
          outbound = record reader { read_position = p };
        }))
      × Holds buf_size (record reader { read_position = p }) writer ms
first_dequeued buf_size reader writer m ms holds dest capacity room given = (
  advance reader.read_position (length m) buf_size,
  taken buf_size reader writer m ms holds dest capacity room given,
  rest buf_size reader writer m ms holds,
)
