-- ===== src/Modbus/Wait/Loop.antt =====
-- The loops of `EpollThread` and `WaitForData` (modbus.c): their invariant and their end.
use modbus_sphere_library.Base.{
  ℕ, zero, suc, ◌+◌, ◌%◌, ◌^◌, ◌≤◌, ◌<◌, ◌≡◌, refl, List, [], ◌∷◌, Bool, true, false, ◌&&◌, arith,
  ltb, inl, inr, Bool-cases,
}
use modbus_sphere_library.Outcome.{ok, Returns, Returns->>=, Returns-imp}
use modbus_sphere_library.Modbus.Types.{
  MessageHandlerState, success, failure, waiting, idle, Modbus, Event, Env, World, is_disconnected,
}
use modbus_sphere_library.Modbus.Receive.{modbus_read}
use modbus_sphere_library.Modbus.Receive.Buffer.{IsValid, IsNext}
use modbus_sphere_library.Modbus.Receive.Invariant.{FitsArray, modbus_read-IsNext}
use modbus_sphere_library.Modbus.Wait.{
  after_read, after_hangup, epoll_event, epoll_events, is_finished, wait_loop, wait_for_data,
}

abbrev pub AllFit : List Event → Type 0
AllFit [] = Unit {0}
AllFit (event ∷ events) = FitsArray event.recv × AllFit events

after_read-IsValid : (r : MessageHandlerState) (h : Modbus) → IsValid h → IsValid (after_read r h)
unfolding after_read
after_read-IsValid success h v = ground arith
after_read-IsValid failure h v = ground arith
after_read-IsValid waiting h v = v

after_hangup-IsValid : (b : Bool) (h : Modbus) → IsValid h → IsValid (after_hangup b h)
unfolding after_hangup
after_hangup-IsValid true h v = ground arith
after_hangup-IsValid false h v = v

-- On a valid handle the epoll thread handles any event that stores at most 254 bytes without an
-- invalid access, and leaves a valid handle.
pub epoll_event-IsValid :
    (stack : ℕ → ℕ) (h : Modbus) (event : Event)
    → IsValid h
    → FitsArray event.recv
    → Returns IsValid (epoll_event stack h event)
unfolding epoll_event
epoll_event-IsValid stack h event v fits = elim (Bool-cases (is_disconnected h.state)) [
  | inl e ↦ rw e v
  | inr e ↦ elim (Bool-cases event.readable) [
    | inr e' ↦ rw (e, e') (after_hangup-IsValid event.hangup h v)
    | inl e' ↦
        rw (e, e')
          (Returns->>= (IsNext h) IsValid (modbus_read stack h event.recv) _
            (modbus_read-IsNext stack h event.recv v fits)
            λ out next.
              after_hangup-IsValid event.hangup (after_read out.0 out.1)
                (after_read-IsValid out.0 out.1 next.valid))
  ]
]

pub epoll_events-IsValid :
    (stack : ℕ → ℕ) (h : Modbus) (events : List Event)
    → IsValid h
    → AllFit events
    → Returns IsValid (epoll_events stack h events)
unfolding epoll_events
epoll_events-IsValid stack h [] v fits = v
epoll_events-IsValid stack h (event ∷ events) v fits =
    Returns->>= IsValid IsValid (epoll_event stack h event) _
      (epoll_event-IsValid stack h event v fits.0)
      (λ h' v'. epoll_events-IsValid stack h' events v' fits.1)

-- The world after a wait: the handle is valid, the module's counter and the wire are as before.
pub record IsWaited (w : World) (w' : World) : Type 0 where
  pub valid : IsValid w'.hndl
  pub same_identifier : w'.transaction_identifier ≡ w.transaction_identifier
  pub same_wire : w'.wire ≡ w.wire

module _ (env : Env) (fit : (k : ℕ) → AllFit (env.polls k)) (timeout : ℕ) where
  wait_loop-IsWaited :
      (fuel counter : ℕ) (w : World)
      → IsValid w.hndl
      → 0 < timeout
      → timeout + 2 < 2 ^ 32
      → counter ≤ timeout + 1
      → timeout + 2 ≤ fuel + counter
      → Returns (IsWaited w) (wait_loop env fuel w timeout counter)
  unfolding wait_loop
  wait_loop-IsWaited zero counter w v pos big le enough = absurd (omega arith)
  wait_loop-IsWaited (suc fuel) counter w v pos big le enough =
      elim (Bool-cases (is_finished w.hndl.state)) [
        | inl e ↦ rw (e, wait_loop) (record { valid = v; same_identifier = refl; same_wire = refl })
        | inr e ↦
            rw (e, wait_loop)
              (Returns->>= IsValid (IsWaited w) (epoll_events env.stack w.hndl (env.polls w.tick)) _
                (epoll_events-IsValid env.stack w.hndl (env.polls w.tick) v (fit w.tick))
                λ h' v'.
                  next h' v'
                    (λ w' v'' le'.
                      wait_loop-IsWaited fuel ((counter + 1) % 2 ^ 32) w' v'' pos big (omega arith)
                        (omega arith))
                    (ltb 0 timeout && ltb timeout counter) refl)
      ]
    where
      next :
          (h' : Modbus)
          → IsValid h'
          → ((w' : World)
              → IsValid w'.hndl
              → counter ≤ timeout
              → Returns (IsWaited w') (wait_loop env fuel w' timeout ((counter + 1) % 2 ^ 32)))
          → (b : Bool) → (ltb 0 timeout && ltb timeout counter) ≡ b
          → Returns (IsWaited w) (elim b [
            | true ↦ ok (record w { hndl = h'; tick = w.tick + 1 })
            | false ↦
                wait_loop env fuel
                  (record w { hndl = h'; tick = w.tick + 1 })
                  timeout
                  ((counter + 1) % 2 ^ 32)
          ])
      next h' v' again true e = record { valid = v'; same_identifier = refl; same_wire = refl }
      next h' v' again false e =
          Returns-imp (IsWaited (record w { hndl = h'; tick = w.tick + 1 })) (IsWaited w) _
            (again (record w { hndl = h'; tick = w.tick + 1 }) v' (ground arith))
            λ w' p. record {
              valid = p.valid;
              same_identifier = p.same_identifier;
              same_wire = p.same_wire;
            }

  -- With a timeout `t > 0`, `t + 2 < 2 ^ 32`, fuel for `t + 2` rounds is enough: for a valid handle
  -- and events that store at most 254 bytes each, the wait returns without an invalid access and
  -- leaves a valid, idle handle, having sent nothing.
  pub wait_for_data-Returns :
      (w : World)
      → IsValid w.hndl
      → 0 < timeout
      → timeout + 2 < 2 ^ 32
      → timeout + 2 ≤ env.fuel
      → Returns (λ out. IsWaited w out.1 × (out.1.hndl.state ≡ idle)) (wait_for_data env w timeout)
  unfolding wait_for_data
  wait_for_data-Returns w v pos big enough =
      Returns->>= (IsWaited w) (λ out. IsWaited w out.1 × (out.1.hndl.state ≡ idle))
        (wait_loop env env.fuel w timeout 0) _
        (wait_loop-IsWaited env.fuel 0 w v pos big (omega arith) (omega arith))
        λ w' p. (
          record {
            valid = record {
              buffer_size = p.valid.buffer_size;
              buffered = p.valid.buffered;
              pdu_size = p.valid.pdu_size;
              pdu_fits = p.valid.pdu_fits;
            };
            same_identifier = p.same_identifier;
            same_wire = p.same_wire;
          },
          refl,
        )
