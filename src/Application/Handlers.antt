-- ===== src/Application/Handlers.antt =====
-- `InitHandlers` and `CloseHandlers` of main.c.
use modbus_sphere_library.Base.{
  ℕ, zero, suc, ◌+◌, List, [], ◌∷◌, ◌++◌, Bool, true, false, Option, none, some, if◌then◌else◌,
}
use modbus_sphere_library.Outcome.{Outcome, ok, fault, ◌>>=◌}
use modbus_sphere_library.Modbus.Types.{Modbus, Env, World, SerialSetup}
use modbus_sphere_library.Modbus.Connect
use modbus_sphere_library.Modbus.Connect.{
  System, modbus_connect_tcp, modbus_connect_rtu_over_tcp, modbus_connect_rtu, modbus_close,
}
use modbus_sphere_library.AzureIot.Twin.{TwinTable}
use modbus_sphere_library.AzureIot.Client.{azure_iot_default_poll_period}
use modbus_sphere_library.Devices.Adam4150.{Adam4150, set_config}
use modbus_sphere_library.Devices.Adam4150.Outputs.{set_twin_update_callbacks}
use modbus_sphere_library.Application.Arguments.{
  ConnectionType, tcp, rtu_over_tcp, rtu, unconnected, DeviceConnection, ArgConnections,
}
use modbus_sphere_library.Application.Timers.{
  TimerSystem, TimerCall, create_timer_fd_and_add_to_epoll, register_event_handler_to_epoll,
  close_fd_and_print_error,
}

abbrev pub default_adam4150_id : ℕ
default_adam4150_id = 5

-- `rtuSetup`.
unfoldable pub rtu_setup : SerialSetup
rtu_setup = record {
  baud_rate = 12;
  duplex_mode = 1;
  parity_mode = 0;
  parity_state = 0;
  stop_bits = 1;
  word_length = 8;
}

-- What the connections change: the state of adam4150.c and the table of azure_iot.c, the
-- `transactionIdentifier` of modbus.c, `connectionMade`, and what has been asked of the system.
pub record Started : Type 0 where
  pub adam : Adam4150
  pub twin_table : TwinTable
  pub transaction_identifier : ℕ
  pub connection_made : Bool
  pub device_calls : List Connect.Call

-- What the system and the other side answer while one device is connected, what the array that
-- `ModbusConnectRtu` stores nothing in holds, and for which outputs `strdup` succeeds.
pub record Answers : Type 0 where
  pub system : System
  pub env : Env
  pub received_message : ℕ
  pub copies : ℕ → Bool

-- A handle that is not NULL is a connection.
unfoldable pub count_connection : Option Modbus → List Connect.Call → Started → Started
count_connection none calls s = record s { device_calls = s.device_calls ++ calls }
count_connection (some h) calls s = record s {
  connection_made = true;
  device_calls = s.device_calls ++ calls;
}

-- The handle of a Modbus TCP or RTU over TCP connection; `inet_addr` reads the address.
unfoldable pub connect_ip :
    (List ℕ → Option Modbus × List Connect.Call)
    → Option (List ℕ)
    → Started
    → Outcome (Option Modbus × Started)
unfolding count_connection
connect_ip connect none s = fault
connect_ip connect (some address) s =
    let (hndl, calls) = connect address in ok (hndl, count_connection hndl calls s)

unfoldable pub handle_of : Option World → Option Modbus
handle_of none = none
handle_of (some w) = some w.hndl

-- The callback of adam4150.c is known by the number 1.
unfoldable pub configure_adam4150 :
    Answers → Option World → Started → Outcome (Option Modbus × Started)
unfolding handle_of
configure_adam4150 answers none s = ok (none, s)
configure_adam4150 answers (some w) s = do
  table ← set_twin_update_callbacks answers.copies 1 s.twin_table
  ok (
    some w.hndl,
    record s {
      adam = set_config s.adam true default_adam4150_id;
      twin_table = table;
      transaction_identifier = w.transaction_identifier;
    },
  )

unfoldable pub connect_rtu : Answers → Started → Outcome (Option Modbus × Started)
unfolding configure_adam4150 count_connection handle_of rtu_setup
connect_rtu answers s = do
  (world, calls) ←
      modbus_connect_rtu answers.system answers.env s.transaction_identifier
        answers.received_message rtu_setup 400
  configure_adam4150 answers world (count_connection (handle_of world) calls s)

-- The body of the loop: the handle that is stored, and what changes.
unfoldable pub connect_device :
    Answers → ConnectionType → DeviceConnection → Started → Outcome (Option Modbus × Started)
unfolding connect_ip connect_rtu
connect_device answers tcp d s =
    connect_ip (λ address. modbus_connect_tcp answers.system address 502) d.address s
connect_device answers rtu_over_tcp d s =
    connect_ip (λ address. modbus_connect_rtu_over_tcp answers.system address 8000) d.address s
connect_device answers rtu d s = connect_rtu answers s
connect_device answers unconnected d s = ok (d.modbushndl, s)

-- The loop over `left` entries, from entry `i` on.
unfoldable pub connect_devices :
    (ℕ → Answers)
    → ℕ
    → ℕ
    → List DeviceConnection
    → Started
    → Outcome (List DeviceConnection × Started)
unfolding connect_device
connect_devices answers i zero ds s = ok (ds, s)
connect_devices answers i (suc left) [] s = fault
connect_devices answers i (suc left) (d ∷ ds) s = do
  (hndl, s') ← connect_device (answers i) d.connection_type d s
  (rest, s'') ← connect_devices answers (i + 1) left ds s'
  ok (record d { modbushndl = hndl } ∷ rest, s'')

-- What the system answers: the epoll descriptor, the two timers, and whether `epoll_ctl`, to add and
-- to modify, succeeds when a timer is registered once more.
pub record InitSystem : Type 0 where
  pub epoll : Option ℕ
  pub devices : ℕ → Answers
  pub send_timer : TimerSystem
  pub azure_timer : TimerSystem
  pub adds_again : Bool
  pub modifies_again : Bool

-- Whether the result is 0, the connections, `epollFd`, `timerFd`, `azureTimerFd`, and what has
-- changed and been asked.
pub record Initialised : Type 0 where
  pub result : Bool
  pub connections : List DeviceConnection
  pub epoll_fd : Option ℕ
  pub timer_fd : Option ℕ
  pub azure_timer_fd : Option ℕ
  pub started : Started
  pub timer_calls : List TimerCall

-- A timer that is registered twice.
unfoldable pub create_timer : InitSystem → TimerSystem → ℕ → Option ℕ × List TimerCall
create_timer system timer period =
    let (created, calls) = create_timer_fd_and_add_to_epoll timer period in
    (
      created,
      calls ++ elim created [
        | none ↦ []
        | some fd ↦ (register_event_handler_to_epoll system.adds_again system.modifies_again fd).1
      ],
    )

unfoldable pub has_descriptor : Option ℕ → Bool
has_descriptor none = false
has_descriptor (some fd) = true

-- The timers: of 10 seconds, and for the hub.
unfoldable pub create_timers : InitSystem → List DeviceConnection → Started → Option ℕ → Initialised
unfolding create_timer has_descriptor
create_timers system connections s epoll_fd =
    let (timer_fd, calls) = create_timer system system.send_timer 10 in
    let (azure_timer_fd, azure_calls) =
      create_timer system system.azure_timer azure_iot_default_poll_period in
    if has_descriptor timer_fd
    then record {
      result = has_descriptor azure_timer_fd;
      connections = connections;
      epoll_fd = epoll_fd;
      timer_fd = timer_fd;
      azure_timer_fd = azure_timer_fd;
      started = s;
      timer_calls = calls ++ azure_calls;
    }
    else record {
      result = false;
      connections = connections;
      epoll_fd = epoll_fd;
      timer_fd = timer_fd;
      azure_timer_fd = none;
      started = s;
      timer_calls = calls;
    }

-- Without timers.
unfoldable pub not_started : List DeviceConnection → Started → Option ℕ → Initialised
not_started connections s epoll_fd = record {
  result = false;
  connections = connections;
  epoll_fd = epoll_fd;
  timer_fd = none;
  azure_timer_fd = none;
  started = s;
  timer_calls = [];
}

-- `connectionMade` is false in front of the loop.
unfoldable pub init_handlers : InitSystem → ArgConnections → Started → Outcome Initialised
unfolding connect_devices create_timers not_started
init_handlers system c s = elim system.epoll [
  | none ↦ ok (not_started c.arg_connections s none)
  | some fd ↦ do
    (ds, s') ←
        connect_devices system.devices 0 c.arg_num c.arg_connections
          (record s { connection_made = false })
    ok (
        if s'.connection_made
        then create_timers system ds s' (some fd)
        else not_started ds s' (some fd))
]

unfoldable pub close_devices : ℕ → List DeviceConnection → List Connect.Call
close_devices zero ds = []
close_devices (suc left) [] = []
close_devices (suc left) (d ∷ ds) = modbus_close d.modbushndl ++ close_devices left ds

-- For a handle of modbus.c, what is given back there; the timer for the hub stays open.
unfoldable pub close_handlers : ℕ → Initialised → List Connect.Call × List TimerCall
unfolding close_devices
close_handlers arg_num r = (
  close_devices arg_num r.connections,
  close_fd_and_print_error r.timer_fd ++ close_fd_and_print_error r.epoll_fd,
)
