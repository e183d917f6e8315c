-- ===== src/Modbus/Connect/Thread.antt =====
-- `ModbusInit` and `ModbusExit`.
use modbus_sphere_library.Base.{ℕ, ◌≡◌, refl, ◌++◌, Bool, true, false, Option, none, some}
use modbus_sphere_library.Modbus.Connect.{System, Statics, modbus_init, modbus_exit}
use modbus_sphere_library.Modbus.Connect.Ledger.{
  Ledger, after_calls, after_call, without_self, given_back,
}

module _ (l : Ledger) where
  started_and_ended :
      (creates : Bool) (epoll : Option ℕ) (system : System) (statics : Statics)
      → system.creates_thread ≡ creates
      → system.epoll ≡ epoll
      → statics.epoll_thread ≡ false
      → after_calls
          ((modbus_init system statics).1.1 ++ (modbus_exit (modbus_init system statics).1.0).1)
          l
        ≡ l
  unfolding modbus_init modbus_exit after_calls after_call
  started_and_ended creates none system statics c e off = rw (e, off)
  started_and_ended true (some fd) system statics c e off =
      rw (e, c, given_back l.threads, without_self fd l.epolls)
  started_and_ended false (some fd) system statics c e off =
      rw (e, c, off, without_self fd l.epolls)

-- When no epoll thread has been started, `ModbusInit`, whether it succeeds or not, and then
-- `ModbusExit` close every epoll descriptor and join every thread that `ModbusInit` has created.
pub modbus_exit-modbus_init :
    (system : System) (statics : Statics) (l : Ledger)
    → statics.epoll_thread ≡ false
    → after_calls
        ((modbus_init system statics).1.1 ++ (modbus_exit (modbus_init system statics).1.0).1)
        l
      ≡ l
modbus_exit-modbus_init system statics l off =
    started_and_ended l system.creates_thread system.epoll system statics refl refl off
