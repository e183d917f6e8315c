-- ===== src/Tests/Connect.antt =====
-- Connecting and closing, with concrete answers of the operating system.
use modbus_sphere_library.Base.{ℕ, ◌≡◌, refl, List, [], ◌∷◌, ◌++◌, true, false, some}
use modbus_sphere_library.Modbus.Types.{SerialSetup, tcp, rtu_over_tcp, Env}
use modbus_sphere_library.Modbus.Connect.{
  System, modbus_connect_tcp, modbus_connect_rtu_over_tcp, modbus_close,
}
use modbus_sphere_library.Modbus.Connect.Ledger.{Ledger, without, after_calls}
use modbus_sphere_library.Modbus.Connect.Handles.{
  Connected, Kept, modbus_connect_tcp-Connected, modbus_close-modbus_connect_tcp,
}

-- `epoll_ctl` cannot add the socket, and modifies its entry.
abbrev system : System
system = record {
  has_memory = true;
  socket = some 7;
  connects = true;
  adds = false;
  modifies = true;
  copies = true;
  creates_thread = true;
  epoll = some 3;
}

abbrev before : Ledger
before = record {
  handles = 1;
  texts = 1;
  sockets = 5 ∷ [];
  watched = 5 ∷ [];
  epolls = [];
  threads = 0;
}

abbrev ip : List ℕ
ip = 49 ∷ 48 ∷ []

not_watched : without 7 (5 ∷ []) ≡ 5 ∷ []
unfolding without
not_watched = refl

modbus_connect_tcp-Connected_example :
    Connected tcp (some 7) before (modbus_connect_tcp system ip 502)
    × Connected rtu_over_tcp (some 7) before (modbus_connect_rtu_over_tcp system ip 502)
modbus_connect_tcp-Connected_example = modbus_connect_tcp-Connected system ip 502 before not_watched

modbus_close-modbus_connect_tcp_example :
    (after_calls
        ((modbus_connect_tcp system ip 502).1 ++ modbus_close (modbus_connect_tcp system ip 502).0)
        before
      ≡ before)
    × Kept before (modbus_connect_rtu_over_tcp system ip 502).0 (
        after_calls
          ((modbus_connect_rtu_over_tcp system ip 502).1
            ++ modbus_close (modbus_connect_rtu_over_tcp system ip 502).0)
          before)
modbus_close-modbus_connect_tcp_example =
    modbus_close-modbus_connect_tcp system ip 502 before not_watched

abbrev setup : SerialSetup
setup = record {
  baud_rate = 12;
  duplex_mode = 0;
  parity_mode = 0;
  parity_state = 0;
  stop_bits = 1;
  word_length = 8;
}

-- The real-time core does not answer.
abbrev silent : Env
silent = record { send = λ fd bytes. some 11; polls = λ k. []; stack = λ k. 170; fuel = 100 }
