-- ===== src/Modbus/Connect.antt =====
-- Connecting and closing in modbus.c: `ModbusInit`, the `ModbusConnect` functions, `ModbusClose`
-- and `ModbusExit`. What the operating system answers is an argument; what is asked of it is a
-- result.
pub mod Ledger
pub mod Handles
pub mod Thread
pub mod Serial
use modbus_sphere_library.Base.{
  ℕ, List, [], ◌∷◌, ◌++◌, Bool, true, false, Option, none, some, if◌then◌else◌, replicate,
}
use modbus_sphere_library.Outcome.{Outcome, ok, ◌>>=◌}
use modbus_sphere_library.Modbus.Types.{
  TransportType, tcp, rtu_over_tcp, rtu, ConnectData, unset, tcp_data, rtu_data, Modbus, idle, Env,
  World, SerialSetup, max_pdu_length,
}
use modbus_sphere_library.RealTime.Config.{write_serial_config}

-- What the system answers: whether `malloc`, `connect`, `epoll_ctl` to add, `epoll_ctl` to modify,
-- `strdup` and `pthread_create` succeed, and the descriptors it gives (`none` for -1).
pub record System : Type 0 where
  pub has_memory : Bool
  pub socket : Option ℕ
  pub connects : Bool
  pub adds : Bool
  pub modifies : Bool
  pub copies : Bool
  pub creates_thread : Bool
  pub epoll : Option ℕ

-- What has been asked and granted.
pub data Call : Type 0 where
  take_handle free_handle take_text free_text : Call
  open_socket close_socket watch unwatch open_epoll close_epoll : ℕ → Call
  start_thread join_thread : Call

-- The static variables `epollFd`, `epollThreadId` (whether it is set) and `epollThreadContinue`.
pub record Statics : Type 0 where
  pub epoll_fd : Option ℕ
  pub epoll_thread : Bool
  pub epoll_thread_continue : Bool

unfoldable pub modbus_init : System → Statics → Bool × (Statics × List Call)
modbus_init system statics = elim system.epoll [
  | none ↦ (false, (record statics { epoll_fd = none }, []))
  | some fd ↦
      if system.creates_thread
      then (
        true,
        (
          record { epoll_fd = some fd; epoll_thread = true; epoll_thread_continue = true },
          open_epoll fd ∷ start_thread ∷ [],
        ),
      )
      else (false, (record statics { epoll_fd = some fd }, open_epoll fd ∷ []))
]

unfoldable pub modbus_exit : Statics → Statics × List Call
modbus_exit statics = (
  record statics {
    epoll_thread_continue = if statics.epoll_thread then false else statics.epoll_thread_continue;
  },
  (if statics.epoll_thread then join_thread ∷ [] else [])
      ++ elim statics.epoll_fd [ none ↦ [] | some fd ↦ close_epoll fd ∷ [] ],
)

-- After `memset`.
unfoldable pub zero_handle : Modbus
zero_handle = record {
  type = tcp;
  connect_data = unset;
  fd = 0;
  transaction_id = 0;
  last_transaction_id = 0;
  state = idle;
  buffered_message_length = 0;
  pdu_length = 0;
  is_cfg = false;
  buffered_message = replicate max_pdu_length 0;
  pdu = replicate max_pdu_length 0;
}

-- `epollAddOk`.
unfoldable pub add_to_epoll : System → ℕ → Bool × List Call
add_to_epoll system fd =
    if system.adds
    then (true, watch fd ∷ [])
    else if system.modifies
    then (true, watch fd ∷ [])
    else (false, [])

unfoldable pub modbus_connect_ip : System → List ℕ → ℕ → Option Modbus × List Call
unfolding zero_handle
modbus_connect_ip system ip port =
    if system.has_memory
    then elim system.socket [
      | none ↦ (none, take_handle ∷ free_handle ∷ [])
      | some fd ↦
          if system.connects
          then (let (added, calls) = add_to_epoll system fd in
              if added
              then (
                some (record zero_handle {
                  connect_data = tcp_data (if system.copies then some ip else none) port;
                  fd = fd;
                }),
                take_handle
                    ∷ open_socket fd
                    ∷ (calls ++ (if system.copies then take_text ∷ [] else [])),
              )
              else (
                none,
                take_handle ∷ open_socket fd ∷ (calls ++ (close_socket fd ∷ free_handle ∷ [])),
              ))
          else (none, take_handle ∷ open_socket fd ∷ close_socket fd ∷ free_handle ∷ [])
    ]
    else (none, [])

-- The handle with the type set.
unfoldable pub set_type : TransportType → Option Modbus → Option Modbus
set_type type none = none
set_type type (some hndl) = some (record hndl { type = type })

unfoldable pub modbus_connect_rtu_over_tcp : System → List ℕ → ℕ → Option Modbus × List Call
modbus_connect_rtu_over_tcp system ip port =
    let (hndl, calls) = modbus_connect_ip system ip port in (set_type rtu_over_tcp hndl, calls)

unfoldable pub modbus_connect_tcp : System → List ℕ → ℕ → Option Modbus × List Call
modbus_connect_tcp system ip port =
    let (hndl, calls) = modbus_connect_ip system ip port in (set_type tcp hndl, calls)

-- The handle in front of `WriteSerialConfig`.
unfoldable pub rtu_handle : ℕ → SerialSetup → Modbus
unfolding zero_handle
rtu_handle fd setup = record zero_handle { type = rtu; connect_data = rtu_data setup; fd = fd }

-- The result of `WriteSerialConfig` is not used. `received_message` is what the array that nothing
-- is stored in holds; the world is that of the new handle, for the transaction identifier given.
unfoldable pub modbus_connect_rtu :
    System → Env → ℕ → ℕ → SerialSetup → ℕ → Outcome (Option World × List Call)
modbus_connect_rtu system env identifier received_message setup timeout =
    if system.has_memory
    then elim system.socket [
      | none ↦ ok (none, take_handle ∷ free_handle ∷ [])
      | some fd ↦
          let (added, calls) = add_to_epoll system fd in
          if added
          then (do
            (result, (received, w)) ←
                write_serial_config env
                  (record {
                    hndl = rtu_handle fd setup;
                    transaction_identifier = identifier;
                    wire = [];
                    tick = 0;
                  })
                  setup received_message timeout
            ok (some w, take_handle ∷ open_socket fd ∷ calls))
          else ok
              (none, take_handle ∷ open_socket fd ∷ (calls ++ (close_socket fd ∷ free_handle ∷ [])))
    ]
    else ok (none, [])

unfoldable pub free_ip : ConnectData → List Call
free_ip (tcp_data (some ip) port) = free_text ∷ []
free_ip _ = []

-- What is done for a handle of type tcp only.
unfoldable pub close_tcp : TransportType → ConnectData → ℕ → List Call
unfolding free_ip
close_tcp tcp connect_data fd = free_ip connect_data ++ (unwatch fd ∷ close_socket fd ∷ [])
close_tcp _ connect_data fd = []

-- `none` for a handle that is NULL.
unfoldable pub modbus_close : Option Modbus → List Call
modbus_close none = []
modbus_close (some hndl) = close_tcp hndl.type hndl.connect_data hndl.fd ++ (free_handle ∷ [])
