-- ===== src/Application/Timers.antt =====
-- epoll_timerfd_utilities.c: timers that the event loop watches. What the system answers is an
-- argument, what it is asked for a result.
use modbus_sphere_library.Base.{
  ℕ, List, [], ◌∷◌, ◌++◌, Bool, true, false, Option, none, some, if◌then◌else◌,
}

-- Whether `timerfd_create` gives a descriptor, and whether `timerfd_settime` and `epoll_ctl`, to add
-- and to modify, succeed.
pub record TimerSystem : Type 0 where
  pub created : Option ℕ
  pub sets : Bool
  pub adds : Bool
  pub modifies : Bool

pub data TimerCall : Type 0 where
  open_timer close_descriptor watch_timer : ℕ → TimerCall
  arm : ℕ → ℕ → TimerCall

-- The calls that were granted.
unfoldable pub register_event_handler_to_epoll : Bool → Bool → ℕ → Bool × List TimerCall
register_event_handler_to_epoll adds modifies fd =
    if adds
    then (true, watch_timer fd ∷ [])
    else if modifies
    then (true, watch_timer fd ∷ [])
    else (false, [])

-- The period in seconds.
unfoldable pub set_timer_fd_to_period : Bool → ℕ → ℕ → Bool × List TimerCall
set_timer_fd_to_period sets fd period = if sets then (true, arm fd period ∷ []) else (false, [])

unfoldable pub create_timer_fd_and_add_to_epoll : TimerSystem → ℕ → Option ℕ × List TimerCall
unfolding register_event_handler_to_epoll set_timer_fd_to_period
create_timer_fd_and_add_to_epoll s period = elim s.created [
  | none ↦ (none, [])
  | some fd ↦
      let (armed, set_calls) = set_timer_fd_to_period s.sets fd period in
      if armed
      then (let (registered, calls) = register_event_handler_to_epoll s.adds s.modifies fd in
          if registered
          then (some fd, open_timer fd ∷ (set_calls ++ calls))
          else (none, open_timer fd ∷ (set_calls ++ calls)))
      else (none, open_timer fd ∷ close_descriptor fd ∷ [])
]

unfoldable pub close_fd_and_print_error : Option ℕ → List TimerCall
close_fd_and_print_error none = []
close_fd_and_print_error (some fd) = close_descriptor fd ∷ []
