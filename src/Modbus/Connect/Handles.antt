-- ===== src/Modbus/Connect/Handles.antt =====
-- What connecting and closing take and give back.
use modbus_sphere_library.Base.{
  ℕ, suc, ◌-◌, ◌≡◌, refl, ap, ◌∙◌, List, [], ◌∷◌, ◌++◌, Bool, true, false, Option, none, some,
  arith,
}
use mathlib.Core.Path.{subst}
use modbus_sphere_library.Modbus.Types.{
  TransportType, tcp, rtu_over_tcp, ConnectData, unset, tcp_data, rtu_data, Modbus, idle,
}
use modbus_sphere_library.Modbus.Receive.Buffer.{IsValid}
use modbus_sphere_library.Modbus.Connect.{
  System, Call, free_handle, zero_handle, add_to_epoll, modbus_connect_ip, set_type,
  modbus_connect_rtu_over_tcp, modbus_connect_tcp, free_ip, close_tcp, modbus_close,
}
use modbus_sphere_library.Modbus.Connect.Ledger.{
  Ledger, without, after_calls, after_call, without_self, after_calls-append, given_back,
}

-- With the text of the address, if there is one.
abbrev pub with_text : ConnectData → ℕ → ℕ
with_text (tcp_data (some ip) port) n = suc n
with_text _ n = n

-- What a connection of type `type` is: NULL, and nothing is held that was not before; or an idle
-- handle with nothing buffered, which holds its memory, its text, and the socket given, in the epoll set.
abbrev pub Connected : TransportType → Option ℕ → Ledger → Option Modbus × List Call → Type 0
Connected type socket l (none, calls) = after_calls calls l ≡ l
Connected type socket l (some h, calls) =
    (h.type ≡ type)
    × (socket ≡ some h.fd)
    × (h.state ≡ idle)
    × IsValid h
    × (h.buffered_message_length ≡ 0)
    × (after_calls calls l ≡ record l {
      handles = suc l.handles;
      texts = with_text h.connect_data l.texts;
      sockets = h.fd ∷ l.sockets;
      watched = h.fd ∷ l.watched;
    })

-- A descriptor that the system gives is not in the epoll set.
abbrev pub IsNew : Option ℕ → Ledger → Type 0
IsNew none l = Unit {0}
IsNew (some fd) l = without fd l.watched ≡ l.watched

module _ (l : Ledger) where
  pub freed : record l { handles = suc l.handles - 1 } ≡ l
  freed = rw (given_back l.handles)

  pub closed :
      (fd : ℕ)
      → without fd l.watched ≡ l.watched
      → record l {
        handles = suc l.handles - 1;
        sockets = without fd (fd ∷ l.sockets);
        watched = without fd l.watched;
      }
        ≡ l
  closed fd new = rw (given_back l.handles, without_self fd l.sockets, new)

module _ (type : TransportType) (ip : List ℕ) (port : ℕ) (l : Ledger) where
  fresh : ℕ → ConnectData → Modbus
  fresh fd data_of = record zero_handle { type = type; connect_data = data_of; fd = fd }

  fresh-IsValid : (fd : ℕ) (data_of : ConnectData) → IsValid (fresh fd data_of)
  unfolding fresh zero_handle
  fresh-IsValid fd data_of = record {
    buffer_size = refl;
    buffered = omega arith;
    pdu_size = refl;
    pdu_fits = omega arith;
  }

  ip_reached :
      (memory : Bool) (socket : Option ℕ) (connects adds modifies copies creates : Bool)
      (epoll : Option ℕ)
      → IsNew socket l
      → let system : System = record {
        has_memory = memory;
        socket = socket;
        connects = connects;
        adds = adds;
        modifies = modifies;
        copies = copies;
        creates_thread = creates;
        epoll = epoll;
      } in
        Connected type socket l
          (set_type type (modbus_connect_ip system ip port).0, (modbus_connect_ip system ip port).1)
  unfolding modbus_connect_ip set_type add_to_epoll after_calls after_call zero_handle fresh
  ip_reached false socket connects adds modifies copies creates epoll new = refl
  ip_reached true none connects adds modifies copies creates epoll new = freed l
  ip_reached true (some fd) false adds modifies copies creates epoll new = closed l fd new
  ip_reached true (some fd) true true modifies true creates epoll new =
      (refl, refl, refl, fresh-IsValid fd (tcp_data (some ip) port), refl, refl)
  ip_reached true (some fd) true true modifies false creates epoll new =
      (refl, refl, refl, fresh-IsValid fd (tcp_data none port), refl, refl)
  ip_reached true (some fd) true false true true creates epoll new =
      (refl, refl, refl, fresh-IsValid fd (tcp_data (some ip) port), refl, refl)
  ip_reached true (some fd) true false true false creates epoll new =
      (refl, refl, refl, fresh-IsValid fd (tcp_data none port), refl, refl)
  ip_reached true (some fd) true false false copies creates epoll new = closed l fd new

module _ (system : System) (ip : List ℕ) (port : ℕ) (l : Ledger) (new : IsNew system.socket l) where
  of_type :
      (type : TransportType)
      → Connected type system.socket l
          (set_type type (modbus_connect_ip system ip port).0, (modbus_connect_ip system ip port).1)
  of_type type =
      ip_reached type ip port l system.has_memory system.socket system.connects system.adds
        system.modifies system.copies system.creates_thread system.epoll new

  -- For every answer of the system, with a socket that is not yet in the epoll set:
  -- `ModbusConnectTcp` and `ModbusConnectRtuOverTcp` return NULL and hold nothing that was not held
  -- before, or return a valid, idle handle of their type with an empty buffer, which holds its
  -- memory, its text, and the system's socket, in the epoll set.
  pub modbus_connect_tcp-Connected :
      Connected tcp system.socket l (modbus_connect_tcp system ip port)
      × Connected rtu_over_tcp system.socket l (modbus_connect_rtu_over_tcp system ip port)
  unfolding modbus_connect_tcp modbus_connect_rtu_over_tcp
  modbus_connect_tcp-Connected = (of_type tcp, of_type rtu_over_tcp)

module _ (l : Ledger) (fd : ℕ) (new : without fd l.watched ≡ l.watched) where
  -- What `ModbusClose` asks for on Modbus TCP.
  released :
      (d : ConnectData)
      → after_calls (close_tcp tcp d fd ++ (free_handle ∷ [])) (record l {
        handles = suc l.handles;
        texts = with_text d l.texts;
        sockets = fd ∷ l.sockets;
        watched = fd ∷ l.watched;
      })
        ≡ l
  unfolding close_tcp free_ip after_calls after_call
  released unset = rw (without_self fd l.watched) (closed l fd new)
  released (tcp_data none port) = rw (without_self fd l.watched) (closed l fd new)
  released (tcp_data (some ip) port) =
      rw (without_self fd l.watched, given_back l.texts) (closed l fd new)
  released (rtu_data setup) = rw (without_self fd l.watched) (closed l fd new)

-- Everything is given back.
tcp_closed :
    (l : Ledger) (socket : Option ℕ) (h : Option Modbus) (calls : List Call)
    → IsNew socket l
    → Connected tcp socket l (h, calls)
    → after_calls (calls ++ modbus_close h) l ≡ l
unfolding modbus_close after_calls
tcp_closed l socket none calls new c = after_calls-append calls [] l ∙ c
tcp_closed l socket (some h) calls new (type, given, idle_now, valid, empty, held) =
    let new' : without h.fd l.watched ≡ l.watched = subst (λ s. IsNew s l) given new in
    after_calls-append calls (modbus_close (some h)) l
    ∙ ap (after_calls (modbus_close (some h))) held
    ∙ rw type (released l h.fd new' h.connect_data)

-- What is held after a connection that was closed without its socket.
abbrev pub Kept : Ledger → Option Modbus → Ledger → Type 0
Kept l none l' = l' ≡ l
Kept l (some h) l' = l' ≡ record l {
  texts = with_text h.connect_data l.texts;
  sockets = h.fd ∷ l.sockets;
  watched = h.fd ∷ l.watched;
}

rtu_closed :
    (l : Ledger) (socket : Option ℕ) (h : Option Modbus) (calls : List Call)
    → Connected rtu_over_tcp socket l (h, calls)
    → Kept l h (after_calls (calls ++ modbus_close h) l)
unfolding modbus_close close_tcp after_calls after_call
rtu_closed l socket none calls c = after_calls-append calls [] l ∙ c
rtu_closed l socket (some h) calls (type, given, idle_now, valid, empty, held) =
    after_calls-append calls (modbus_close (some h)) l
    ∙ ap (after_calls (modbus_close (some h))) held
    ∙ rw (type, given_back l.handles)

module _ (system : System) (ip : List ℕ) (port : ℕ) (l : Ledger) (new : IsNew system.socket l) where
  -- For every answer of the system, with a socket that is not yet in the epoll set: `ModbusClose`
  -- after `ModbusConnectTcp` gives everything back. After `ModbusConnectRtuOverTcp` it gives back
  -- the memory of the handle alone: the text, the open socket and its place in the epoll set stay.
  pub modbus_close-modbus_connect_tcp :
      (after_calls
          ((modbus_connect_tcp system ip port).1
            ++ modbus_close (modbus_connect_tcp system ip port).0)
          l
        ≡ l)
      × Kept l (modbus_connect_rtu_over_tcp system ip port).0 (
          after_calls
            ((modbus_connect_rtu_over_tcp system ip port).1
              ++ modbus_close (modbus_connect_rtu_over_tcp system ip port).0)
            l)
  modbus_close-modbus_connect_tcp =
      let both = modbus_connect_tcp-Connected system ip port l new in
      (
        tcp_closed l system.socket (modbus_connect_tcp system ip port).0
            (modbus_connect_tcp system ip port).1 new both.0,
        rtu_closed l system.socket (modbus_connect_rtu_over_tcp system ip port).0
            (modbus_connect_rtu_over_tcp system ip port).1 both.1,
      )
