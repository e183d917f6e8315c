-- ===== src/Modbus/Connect/Serial.antt =====
-- `ModbusConnectRtu`.
use modbus_sphere_library.Base.{
  ℕ, suc, ◌+◌, ◌≤◌, ◌<◌, ◌^◌, ◌%◌, ◌==◌, ◌≡◌, refl, List, [], ◌∷◌, Bool, true, false, Option, none,
  some, arith, if◌then◌else◌, inl, inr, Bool-cases,
}
use modbus_sphere_library.Outcome.{ok, ◌>>=◌, Returns, Returns->>=}
use modbus_sphere_library.Modbus.Types.{
  SerialSetup, idle, waiting_for_response, Env, World, modbus_timeout,
}
use modbus_sphere_library.Modbus.Wait.{wait_for_data}
use modbus_sphere_library.Modbus.Transport.{after_send, is_sent, intercore_header}
use modbus_sphere_library.Modbus.Transport.Frames.{frame, sending, modbus_write-frame}
use modbus_sphere_library.Modbus.Receive.Buffer.{IsValid}
use modbus_sphere_library.Modbus.Wait.Loop.{AllFit, wait_for_data-Returns, IsWaited}
use modbus_sphere_library.RealTime.Config.{serial_config_message, write_serial_config}
use modbus_sphere_library.Modbus.Connect.{
  System, Call, take_handle, open_socket, watch, modbus_connect_rtu, rtu_handle, zero_handle,
  add_to_epoll,
}
use modbus_sphere_library.Modbus.Connect.Ledger.{Ledger, after_calls, after_call}
use modbus_sphere_library.Modbus.Connect.Handles.{IsNew, freed, closed}

-- What `WriteSerialConfig` leaves: a valid, idle handle, one message having been handed to `send`.
record Configured (message : List ℕ) (out : Bool × (ℕ × World)) : Type 0 where
  valid : IsValid out.1.1.hndl
  is_free : out.1.1.hndl.state ≡ idle
  one_sent : out.1.1.wire ≡ message ∷ []

-- The message with the settings.
abbrev pub config_frame : Env → SerialSetup → List ℕ
config_frame env setup = 1 ∷ 1 ∷ 4 ∷ env.stack 254 ∷ serial_config_message setup

-- NULL, and nothing is held that was not before; or a valid, idle handle whose settings have been
-- handed to `send`, with its memory and the socket given, in the epoll set.
abbrev pub ConnectedRtu : Env → SerialSetup → Option ℕ → Ledger → Option World × List Call → Type 0
ConnectedRtu env setup socket l (none, calls) = after_calls calls l ≡ l
ConnectedRtu env setup socket l (some w, calls) =
    IsValid w.hndl
    × (w.hndl.state ≡ idle)
    × (w.wire ≡ config_frame env setup ∷ [])
    × (fd : ℕ) × (socket ≡ some fd)
    × (after_calls calls l
        ≡ record l { handles = suc l.handles; sockets = fd ∷ l.sockets; watched = fd ∷ l.watched })

module _ (env : Env) (fit : (k : ℕ) → AllFit (env.polls k)) (timeout : ℕ) (pos : 0 < timeout)
    (big : timeout + 2 < 2 ^ 32) (enough : timeout + 2 ≤ env.fuel) (setup : SerialSetup)
    (identifier received_message : ℕ) where
  start : ℕ → World
  start fd = record {
    hndl = rtu_handle fd setup;
    transaction_identifier = identifier;
    wire = [];
    tick = 0;
  }

  -- The handle once its settings have been sent, or not.
  asked : ℕ → Bool → World
  asked fd sent = record {
    hndl = record (rtu_handle fd setup) {
      is_cfg = true;
      transaction_id = if sent then identifier else 0;
      state = if sent then waiting_for_response else idle;
    };
    transaction_identifier = if sent then (identifier + 1) % 2 ^ 16 else identifier;
    wire = config_frame env setup ∷ [];
    tick = 0;
  }

  asked-IsValid : (fd : ℕ) (sent : Bool) → IsValid (asked fd sent).hndl
  unfolding asked rtu_handle zero_handle
  asked-IsValid fd sent = record {
    buffer_size = refl;
    buffered = omega arith;
    pdu_size = refl;
    pdu_fits = omega arith;
  }

  waited :
      (fd : ℕ)
      → Returns
          (λ out. IsWaited (asked fd true) out.1 × (out.1.hndl.state ≡ idle))
          (wait_for_data env (asked fd true) timeout)
  waited fd =
      wait_for_data-Returns env fit timeout (asked fd true) (asked-IsValid fd true) pos big enough

  checked :
      (fd : ℕ) (out : Bool × World)
      → IsWaited (asked fd true) out.1 × (out.1.hndl.state ≡ idle)
      → Returns (Configured (config_frame env setup)) (
          if out.0
          then ok (received_message == 0, (received_message, out.1))
          else ok (false, (modbus_timeout, out.1)))
  unfolding asked
  checked fd out (w, free) =
      let done : (b : Bool) (r : ℕ) → Configured (config_frame env setup) (b, (r, out.1)) =
        λ b r. record { valid = w.valid; is_free = free; one_sent = w.same_wire } in
      elim (Bool-cases out.0) [
        | inl e ↦ rw e (done (received_message == 0) received_message)
        | inr e ↦ rw e (done false modbus_timeout)
      ]

  configured :
      (fd : ℕ)
      → Returns
          (Configured (config_frame env setup))
          (write_serial_config env (start fd) setup received_message timeout)
  unfolding write_serial_config start serial_config_message frame after_send sending rtu_handle
      zero_handle intercore_header asked
  configured fd =
      let w = record (start fd) { hndl = record (rtu_handle fd setup) { is_cfg = true } } in
      let framed = modbus_write-frame env w (serial_config_message setup) [] (omega arith) in
      rw framed (elim (Bool-cases (is_sent (env.send fd (config_frame env setup)) 11)) [
        | inl e ↦ rw e (
            Returns->>= (λ out. IsWaited (asked fd true) out.1 × (out.1.hndl.state ≡ idle))
              (Configured (config_frame env setup)) (wait_for_data env (asked fd true) timeout) _
              (waited fd) (checked fd))
        | inr e ↦ rw e (record { valid = asked-IsValid fd false; is_free = refl; one_sent = refl })
      ])

  connected_rtu :
      (memory : Bool) (socket : Option ℕ) (l : Ledger) (system : System)
      → system.has_memory ≡ memory
      → system.socket ≡ socket
      → IsNew socket l
      → Returns
          (ConnectedRtu env setup socket l)
          (modbus_connect_rtu system env identifier received_message setup timeout)
  unfolding modbus_connect_rtu add_to_epoll after_calls after_call start
  connected_rtu false socket l system m e new = rw m refl
  connected_rtu true none l system m e new = rw (m, e) (freed l)
  connected_rtu true (some fd) l system m e new =
      let go : Returns (ConnectedRtu env setup (some fd) l) (
          write_serial_config env (start fd) setup received_message timeout >>= λ out.
          ok (some out.1.1, take_handle ∷ open_socket fd ∷ watch fd ∷ [])) =
        Returns->>= (Configured (config_frame env setup)) (ConnectedRtu env setup (some fd) l)
          (write_serial_config env (start fd) setup received_message timeout) _ (configured fd)
          λ out c. (c.valid, c.is_free, c.one_sent, fd, refl, refl) in
      elim (Bool-cases system.adds) [
        | inl a ↦ rw (m, e, a) go
        | inr a ↦ elim (Bool-cases system.modifies) [
          | inl b ↦ rw (m, e, a, b) go
          | inr b ↦ rw (m, e, a, b) (closed l fd new)
        ]
      ]

  pub modbus_connect_rtu-ConnectedRtu :
      (system : System) (l : Ledger)
      → IsNew system.socket l
      → Returns
          (ConnectedRtu env setup system.socket l)
          (modbus_connect_rtu system env identifier received_message setup timeout)
  modbus_connect_rtu-ConnectedRtu system l new =
      connected_rtu system.has_memory system.socket l system refl refl new
