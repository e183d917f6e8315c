-- ===== src/Application/Start.antt =====
-- From the command line to the handles (main.c).
use modbus_sphere_library.Base.{
  ℕ, ◌-◌, ◌≤◌, ◌≡◌, refl, ap, sym, ◌∙◌, List, [], ◌∷◌, ◌++◌, Bool, true, false, ◌&&◌, Option, some,
  if◌then◌else◌, length, map, leb-of_le, length-map, Bool-cases, Option-cases, inl, inr, replicate,
}
use mathlib.Core.Path.{subst}
use modbus_sphere_library.Outcome.{◌>>=◌, Returns, Returns->>=}
use modbus_sphere_library.Application.Arguments.{DeviceConnection, read_command_line}
use modbus_sphere_library.Application.CommandLine.{
  Device, arguments_of, IsPlain, AreAddressed, connection_of, connections, blank,
  read_command_line-arguments_of,
}
use modbus_sphere_library.Application.Timers.{create_timer_fd_and_add_to_epoll}
use modbus_sphere_library.Application.Handlers.{
  Started, InitSystem, Initialised, connect_devices, create_timer, create_timers, not_started,
  init_handlers, has_descriptor,
}
use modbus_sphere_library.Application.Connections.{
  HasTable, Serves, AreMade, any_made, devices_made,
}

-- Both timers can be created and watched.
unfoldable pub timers_start : InitSystem → Bool
unfolding has_descriptor
timers_start system =
    has_descriptor (create_timer_fd_and_add_to_epoll system.send_timer 10).0
    && has_descriptor (create_timer_fd_and_add_to_epoll system.azure_timer 5).0

-- The connections, and whether the application runs.
abbrev pub IsStarted : InitSystem → List Device → Initialised → Type 0
IsStarted system ds r =
    AreMade ds r.connections
    × (r.result ≡ (
        has_descriptor system.epoll && (any_made (length ds) r.connections && timers_start system)))

not_made :
    (ds : List Device) (rest : List DeviceConnection) → AreMade ds (map connection_of ds ++ rest)
unfolding connection_of
not_made [] rest = tt
not_made (d ∷ ds) rest = (refl, tt, not_made ds rest)

timers_created :
    (system : InitSystem) (cs : List DeviceConnection) (s : Started) (epoll_fd : Option ℕ)
    → ((create_timers system cs s epoll_fd).result ≡ timers_start system)
      × ((create_timers system cs s epoll_fd).connections ≡ cs)
unfolding create_timers create_timer timers_start
timers_created system cs s epoll_fd =
    elim (Bool-cases (has_descriptor (create_timer_fd_and_add_to_epoll system.send_timer 10).0)) [
      | inl e ↦ rw e (refl, refl)
      | inr e ↦ rw e (refl, refl)
    ]

-- With or without timers.
picked :
    (ds : List Device) (cs : List DeviceConnection) (timers b : Bool) (m n : Initialised)
    → AreMade ds cs
    → b ≡ any_made (length ds) cs
    → (m.result ≡ timers) × (m.connections ≡ cs)
    → (n.result ≡ false) × (n.connections ≡ cs)
    → AreMade ds (if b then m else n).connections
      × ((if b then m else n).result
          ≡ (any_made (length ds) (if b then m else n).connections && timers))
picked ds cs timers true m n made flag (result, same) other = (
  subst (AreMade ds) (sym same) made,
  result ∙ ap (λ b. b && timers) (flag ∙ ap (any_made (length ds)) (sym same)),
)
picked ds cs timers false m n made flag other (result, same) = (
  subst (AreMade ds) (sym same) made,
  result ∙ ap (λ b. b && timers) (flag ∙ ap (any_made (length ds)) (sym same)),
)

module _ (system : InitSystem) (serve : (k : ℕ) → Serves (system.devices k)) (ds : List Device)
    (s : Started) (table : HasTable s) where
  initialised :
      (k : ℕ)
      → Returns
          (IsStarted system ds)
          (init_handlers system (connections (map connection_of ds) k) s)
  unfolding init_handlers connections not_started has_descriptor
  initialised k = elim (Option-cases system.epoll) [
    | inl none_there ↦ rw none_there (not_made ds (replicate k blank), refl)
    | inr (fd, given) ↦
        let start : Started = record s { connection_made = false } in
        let cs = map connection_of ds ++ replicate k blank in
        let opened : InitSystem = record system { epoll = some fd } in
        rw (given, length-map ds connection_of)
          (Returns->>=
            (λ out. AreMade ds out.0 × (out.1.connection_made ≡ any_made (length ds) out.0))
            (IsStarted opened ds) (connect_devices system.devices 0 (length ds) cs start) _
            (devices_made system.devices serve ds 0 (replicate k blank) start table)
            λ out (made, flag).
              picked ds out.0 (timers_start opened) out.1.connection_made
                (create_timers opened out.0 out.1 (some fd)) (not_started out.0 out.1 (some fd))
                made flag (timers_created opened out.0 out.1 (some fd)) (refl, refl))
  ]

  -- When the events of each device store at most 254 bytes at once and there is fuel for the wait
  -- of `ModbusConnectRtu`, the table of callbacks has its ten entries, and name, scope and addresses
  -- do not begin with a dash: with a command line of at most five devices, `main` reads them, and
  -- `InitHandlers` returns without an invalid access. Each device then has the handle NULL or a
  -- valid, idle handle, of its own transport if it has an address. The result is 0 exactly when
  -- there is an epoll descriptor, some device has a handle, and both timers can be created and
  -- watched.
  pub init_handlers-read_command_line :
      (name scope : List ℕ)
      → IsPlain name
      → IsPlain scope
      → AreAddressed ds
      → length ds ≤ 5
      → Returns (IsStarted system ds) (
          read_command_line (name ∷ scope ∷ arguments_of ds) >>= λ out.
          init_handlers system out.0 s)
  init_handlers-read_command_line name scope n sc a few =
      rw (read_command_line-arguments_of name scope ds n sc a, leb-of_le (length ds) 5 few)
        (initialised (5 - length ds))
