-- ===== src/Tests/Wait.antt =====
-- Waits for a response, and the events that end them.
use modbus_sphere_library.Base.{◌≡◌, refl, [], ◌∷◌, true, false, arith, map, replicate}
use modbus_sphere_library.Outcome.{ok, Returns}
use modbus_sphere_library.Modbus.Types.{idle, Event}
use modbus_sphere_library.Modbus.Fcode.{get_fcode_length}
use modbus_sphere_library.Modbus.Receive.{message_handler}
use modbus_sphere_library.Modbus.Receive.Buffer.{IsNext}
use modbus_sphere_library.Modbus.Receive.Invariant.{message_handler-IsNext}
use modbus_sphere_library.Modbus.Receive.Tcp.{Response}
use modbus_sphere_library.Modbus.Wait.{epoll_events, wait_for_data}
use modbus_sphere_library.Modbus.Wait.Loop.{IsWaited, wait_for_data-Returns}
use modbus_sphere_library.Modbus.Wait.Reassembly.{piece_event, IsDelivered, reassemble}
use modbus_sphere_library.Modbus.Wait.Timing.{wait_for_data_silent}
use modbus_sphere_library.Modbus.Wait.Arrival.{IsAnswered, wait_for_data-Arrives}
use modbus_sphere_library.Tests.Data.{
  env, silent_env, waiting_world, waiting-IsValid, waiting-empty, waiting-Awaits, response, piece_1,
  piece_2, response-Answers, arrival-silent,
}

abbrev r : Response
r = response 3 4 (2 ∷ 43 ∷ 0 ∷ 100 ∷ [])

reassemble_example :
    Returns (IsDelivered waiting_world.hndl r) (
      epoll_events silent_env.stack waiting_world.hndl (map piece_event (piece_1 ∷ piece_2 r ∷ [])))
unfolding get_fcode_length
reassemble_example =
    reassemble silent_env.stack r piece_1 (piece_2 r ∷ []) waiting_world.hndl [] waiting-Awaits
      waiting-empty waiting-IsValid
      (response-Answers [] 3 4 (2 ∷ 43 ∷ 0 ∷ 100 ∷ []) refl (omega arith) (omega arith))
      (omega arith, tt) refl

wait_for_data-Arrives_example :
    Returns (IsAnswered waiting_world r) (wait_for_data (env r) waiting_world 10)
unfolding get_fcode_length
wait_for_data-Arrives_example =
    wait_for_data-Arrives (env r) 10 (omega arith) r waiting_world 1 piece_1 (piece_2 r ∷ [])
      waiting-Awaits waiting-empty waiting-IsValid
      (response-Answers [] 3 4 (2 ∷ 43 ∷ 0 ∷ 100 ∷ []) refl (omega arith) (omega arith))
      (record {
        silent = λ k lt. arrival-silent r k lt;
        arrive = refl;
        not_empty = (omega arith, tt);
        whole = refl;
      })
      (omega arith) (omega arith)

message_handler-IsNext_example :
    Returns (IsNext waiting_world.hndl) (message_handler waiting_world.hndl (replicate 254 9) 300)
message_handler-IsNext_example =
    message_handler-IsNext waiting_world.hndl (replicate 254 9) 300 waiting-IsValid refl

-- Bytes and a hangup at once.
abbrev last_event : Event
last_event = record (piece_event piece_1) { hangup = true }

wait_for_data-Returns_example :
    Returns
      (λ out. IsWaited waiting_world out.1 × (out.1.hndl.state ≡ idle))
      (wait_for_data silent_env waiting_world 10)
wait_for_data-Returns_example =
    wait_for_data-Returns silent_env (λ k. tt) 10 waiting_world waiting-IsValid (omega arith)
      (omega arith) (omega arith)

wait_for_data_silent_example :
    wait_for_data silent_env waiting_world 10
    ≡ ok (
      false,
      record waiting_world { hndl = record waiting_world.hndl { state = idle }; tick = 12 },
    )
wait_for_data_silent_example =
    wait_for_data_silent silent_env 10 (omega arith) waiting_world refl (omega arith) (omega arith)
      (λ k lt. refl)
