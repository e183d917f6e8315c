-- ===== src/Modbus/Wait.antt =====
-- `WaitForData`, `NotReadyReason` and the body of `EpollThread` in modbus.c. The epoll thread acts
-- on the handle during the sleeps of the waiting thread.
pub mod Loop
pub mod Piece
pub mod Reassembly
pub mod Timing
pub mod Arrival
use modbus_sphere_library.Base.{
  ℕ, zero, suc, ◌+◌, ◌%◌, ◌^◌, List, [], ◌∷◌, Bool, true, false, ◌&&◌, ◌||◌, ltb, if◌then◌else◌,
}
use modbus_sphere_library.Outcome.{Outcome, ok, hang, ◌>>=◌}
use modbus_sphere_library.Modbus.Types.{
  MessageHandlerState, success, failure, waiting, ModbusState, idle, sending_request,
  waiting_for_response, data_received, transaction_failed, disconnected, Modbus, Event, Env, World,
  is_disconnected, is_data_received, handle_in_use, device_disconnected,
}
use modbus_sphere_library.Modbus.Receive.{modbus_read}

-- The state after `ModBusRead` returned.
unfoldable pub after_read : MessageHandlerState → Modbus → Modbus
after_read success hndl = record hndl { state = data_received }
after_read failure hndl = record hndl { state = transaction_failed }
after_read waiting hndl = hndl

unfoldable pub after_hangup : Bool → Modbus → Modbus
after_hangup true hndl = record hndl { state = disconnected }
after_hangup false hndl = hndl

-- One round of the thread's loop, for an event of this handle.
unfoldable pub epoll_event : (ℕ → ℕ) → Modbus → Event → Outcome Modbus
epoll_event stack hndl event =
    if is_disconnected hndl.state
    then ok hndl
    else if event.readable
    then (do
      (state, read) ← modbus_read stack hndl event.recv
      ok (after_hangup event.hangup (after_read state read)))
    else ok (after_hangup event.hangup hndl)

unfoldable pub epoll_events : (ℕ → ℕ) → Modbus → List Event → Outcome Modbus
epoll_events stack hndl [] = ok hndl
epoll_events stack hndl (event ∷ events) = do
  hndl' ← epoll_event stack hndl event
  epoll_events stack hndl' events

-- The states that end the loop of `WaitForData`.
unfoldable pub is_finished : ModbusState → Bool
is_finished data_received = true
is_finished transaction_failed = true
is_finished disconnected = true
is_finished _ = false

-- The loop with fuel; `counter` is a 32-bit `size_t`.
unfoldable pub wait_loop : Env → ℕ → World → ℕ → ℕ → Outcome World
wait_loop env zero w timeout counter = hang
wait_loop env (suc fuel) w timeout counter = elim (is_finished w.hndl.state) [
  | true ↦ ok w
  | false ↦ (do
    hndl ← epoll_events env.stack w.hndl (env.polls w.tick)
    let w' = record w { hndl = hndl; tick = w.tick + 1 }
    elim (ltb 0 timeout && ltb timeout counter) [
      | true ↦ ok w'
      | false ↦ wait_loop env fuel w' timeout ((counter + 1) % 2 ^ 32)
    ])
]

-- Whether data came; the handle is idle afterwards.
unfoldable pub wait_for_data : Env → World → ℕ → Outcome (Bool × World)
wait_for_data env w timeout = do
  w' ← wait_loop env env.fuel w timeout 0
  ok (is_data_received w'.hndl.state, record w' { hndl = record w'.hndl { state = idle } })

unfoldable pub not_ready_reason : Modbus → ℕ
not_ready_reason hndl = if is_disconnected hndl.state then device_disconnected else handle_in_use
