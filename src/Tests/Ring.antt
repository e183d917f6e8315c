-- ===== src/Tests/Ring.antt =====
-- A message that crosses the end of the data area, and rings that the other core has spoilt.
use modbus_sphere_library.Base.{ℕ, ◌≡◌, refl, List, [], ◌∷◌, ◌++◌, true, arith, replicate}
use modbus_sphere_library.Outcome.{ok, Returns}
use modbus_sphere_library.Intercore.Ring.{BufferHeader, enqueue_data, dequeue_data}
use modbus_sphere_library.Intercore.Blocks.{IsPlace}
use modbus_sphere_library.Intercore.Queue
use modbus_sphere_library.Intercore.Queue.{Op, send, receive}
use modbus_sphere_library.Intercore.Refine.{
  Empty, dequeue_data-enqueue_data, run_ring, run_ring-run,
}
use modbus_sphere_library.Intercore.Safety.{
  IsKept, IsTaken, enqueue_data-IsKept, dequeue_data-IsTaken,
}

abbrev writer : BufferHeader
writer = record { write_position = 48; read_position = 0; area = replicate 64 0 }

abbrev reader : BufferHeader
reader = record { write_position = 16; read_position = 48; area = replicate 64 0 }

abbrev message : List ℕ
message = replicate 15 7 ++ (1 ∷ 2 ∷ 3 ∷ 4 ∷ 5 ∷ [])

place : IsPlace 64 48
place = record { aligned_size = refl; bounded = omega arith; aligned = refl; inside = omega arith }

dequeue_data-enqueue_data_example :
    (sent : BufferHeader) × (enqueue_data reader writer 64 message 20 ≡ ok (true, sent))
    × (dequeue_data reader sent 64 (replicate 24 9) 24
        ≡ ok (record {
          result = true;
          dest = message ++ (9 ∷ 9 ∷ 9 ∷ 9 ∷ []);
          data_size = 20;
          outbound = record reader { read_position = sent.write_position };
        }))
    × Empty (record reader { read_position = sent.write_position }) sent 64
dequeue_data-enqueue_data_example =
    dequeue_data-enqueue_data reader writer 64 message 20
      (record { place = place; whole_area = refl; all_read = refl }) (omega arith) (omega arith)
      (replicate 24 9) (omega arith)

-- The other core claims to have read up to an unaligned position.
enqueue_data-IsKept_example :
    Returns
      (IsKept 64 writer)
      (enqueue_data (record reader { read_position = 47 }) writer 64 message 20)
enqueue_data-IsKept_example =
    enqueue_data-IsKept (record reader { read_position = 47 }) writer 64 place refl message 20
      (omega arith) (omega arith)

-- The other core has written a block of 255 bytes into a ring of 64.
dequeue_data-IsTaken_example : Returns (IsTaken 64 (replicate 24 9)) (
    dequeue_data reader
      (record writer { write_position = 31; area = replicate 64 255 })
      64
      (replicate 24 9)
      24)
dequeue_data-IsTaken_example =
    dequeue_data-IsTaken reader (record writer { write_position = 31; area = replicate 64 255 }) 64
      place refl (replicate 24 9) 24 (omega arith) (omega arith)

empty-IsPlace : IsPlace 64 16
empty-IsPlace = record {
  aligned_size = refl;
  bounded = omega arith;
  aligned = refl;
  inside = omega arith;
}

-- The second message does not fit; the third, after a receive, crosses the end of the area.
abbrev calls : List Op
calls =
    send message
    ∷ send message
    ∷ receive (replicate 4 9) 4
    ∷ receive (replicate 24 9) 24
    ∷ send message
    ∷ receive (replicate 24 9) 24
    ∷ receive (replicate 24 9) 24
    ∷ []

run_ring-run_example :
    run_ring 64 (record reader { read_position = 16 }) (record writer { write_position = 16 }) calls
    ≡ ok (Queue.run 64 [] calls)
unfolding Queue.used
run_ring-run_example =
    run_ring-run calls 64 (record reader { read_position = 16 })
      (record writer { write_position = 16 }) []
      (record {
        read_place = empty-IsPlace;
        write_place = empty-IsPlace;
        whole_area = refl;
        room = omega arith;
        meets = refl;
        blocks = tt;
      })
      (
        omega arith,
        (
          omega arith,
          (omega arith, (omega arith, (omega arith, (omega arith, (omega arith, tt))))),
        ),
      )
