-- ===== src/Application/Connections.antt =====
-- What `InitHandlers` (main.c) makes of the devices on the command line.
use modbus_sphere_library.Base.{
  ℕ, zero, suc, ◌+◌, ◌≤◌, ◌≡◌, refl, ap, ◌∙◌, List, [], ◌∷◌, ◌++◌, Bool, true, false, ◌||◌, Option,
  none, some, if◌then◌else◌, length, map, arith, length-set, ltb, leb, Bool-cases, inl, inr,
}
use modbus_sphere_library.Outcome.{Returns, Returns->>=}
use modbus_sphere_library.Modbus.Types
use modbus_sphere_library.Modbus.Types.{Modbus, Env, World, TransportType, idle}
use modbus_sphere_library.Modbus.Receive.Buffer.{IsValid}
use modbus_sphere_library.Modbus.Wait.Loop.{AllFit}
use modbus_sphere_library.Modbus.Connect
use modbus_sphere_library.Modbus.Connect.{
  System, modbus_connect_tcp, modbus_connect_rtu_over_tcp, modbus_connect_rtu,
}
use modbus_sphere_library.Modbus.Connect.Ledger.{Ledger, without}
use modbus_sphere_library.Modbus.Connect.Handles.{Connected, modbus_connect_tcp-Connected, IsNew}
use modbus_sphere_library.Modbus.Connect.Serial.{ConnectedRtu, modbus_connect_rtu-ConnectedRtu}
use modbus_sphere_library.AzureIot.Twin.{TwinTable, add_twin_update_callback}
use modbus_sphere_library.Devices.Adam4150.Outputs.{
  set_callbacks_loop, set_twin_update_callbacks, out_text,
}
use modbus_sphere_library.Application.Arguments.{DeviceConnection}
use modbus_sphere_library.Application.CommandLine.{
  Device, tcp_device, rtu_over_tcp_device, rtu_device, connection_of, type_of, address_of,
}
use modbus_sphere_library.Application.Handlers.{
  Started, Answers, count_connection, connect_ip, handle_of, configure_adam4150, connect_rtu,
  connect_device, connect_devices, rtu_setup,
}

-- The table has its ten entries.
abbrev pub HasTable : Started → Type 0
HasTable s = length s.twin_table.twin_callback_array ≡ 10

add_keeps :
    (copies : Bool) (name : List ℕ) (f : Option ℕ) (context : ℕ) (t : TwinTable)
    → length t.twin_callback_array ≡ 10
    → Returns
        (λ out. length out.1.twin_callback_array ≡ 10)
        (add_twin_update_callback copies name f context t)
unfolding add_twin_update_callback
add_keeps copies name f context t h = elim (Bool-cases (leb 10 t.num_callbacks_set)) [
  | inl e ↦ rw e h
  | inr e ↦
      let fits : ltb t.num_callbacks_set (length t.twin_callback_array) ≡ true =
        ground (arith, h) in
      rw (e, fits)
        (length-set t.twin_callback_array t.num_callbacks_set
            (record { property = if copies then some name else none; f_ptr = f; context = context })
          ∙ h)
]

callbacks_set :
    (copies : ℕ → Bool) (f i left : ℕ) (t : TwinTable)
    → length t.twin_callback_array ≡ 10
    → Returns (λ t'. length t'.twin_callback_array ≡ 10) (set_callbacks_loop copies f i left t)
unfolding set_callbacks_loop
callbacks_set copies f i zero t h = h
callbacks_set copies f i (suc left) t h =
    Returns->>= (λ out. length out.1.twin_callback_array ≡ 10)
      (λ t'. length t'.twin_callback_array ≡ 10)
      (add_twin_update_callback (copies i) (out_text i) (some f) i t) _
      (add_keeps (copies i) (out_text i) (some f) i t h)
      λ out h'. callbacks_set copies f (i + 1) left out.1 h'

-- The transport of a handle for a device with an address.
abbrev HasType : Device → Modbus → Type 0
HasType (tcp_device address) h = h.type ≡ Types.tcp
HasType (rtu_over_tcp_device address) h = h.type ≡ Types.rtu_over_tcp
HasType rtu_device h = Unit {0}

-- NULL, or a valid, idle handle.
abbrev pub IsMade : Device → Option Modbus → Type 0
IsMade d none = Unit {0}
IsMade d (some h) = IsValid h × (h.state ≡ idle) × HasType d h

unfoldable pub is_made : Option Modbus → Bool
is_made none = false
is_made (some h) = true

-- A device that has been connected, and what has changed.
abbrev Made : Device → Started → Option Modbus × Started → Type 0
Made d s (hndl, s') =
    IsMade d hndl × (s'.connection_made ≡ (s.connection_made || is_made hndl)) × HasTable s'

or_false : (b : Bool) → b ≡ (b || false)
or_false true = refl
or_false false = refl

or_true : (b : Bool) → true ≡ (b || true)
or_true true = refl
or_true false = refl

module _ (calls : List Connect.Call) (s : Started) where
  counted :
      (hndl : Option Modbus)
      → (count_connection hndl calls s).connection_made ≡ (s.connection_made || is_made hndl)
  unfolding is_made count_connection
  counted none = or_false s.connection_made
  counted (some h) = or_true s.connection_made

  same_table : (hndl : Option Modbus) → (count_connection hndl calls s).twin_table ≡ s.twin_table
  unfolding count_connection
  same_table none = refl
  same_table (some h) = refl

-- Nothing is held.
abbrev nothing : Ledger
nothing = record { handles = 0; texts = 0; sockets = []; watched = []; epolls = []; threads = 0 }

socket-IsNew : (socket : Option ℕ) → IsNew socket nothing
unfolding without
socket-IsNew none = tt
socket-IsNew (some fd) = refl

tcp-IsMade :
    (address : List ℕ) (socket : Option ℕ) (r : Option Modbus × List Connect.Call)
    → Connected Types.tcp socket nothing r
    → IsMade (tcp_device address) r.0
tcp-IsMade address socket (none, calls) c = tt
tcp-IsMade address socket (some h, calls) (type, given, is_free, valid, empty, held) =
    (valid, is_free, type)

rtu_over_tcp-IsMade :
    (address : List ℕ) (socket : Option ℕ) (r : Option Modbus × List Connect.Call)
    → Connected Types.rtu_over_tcp socket nothing r
    → IsMade (rtu_over_tcp_device address) r.0
rtu_over_tcp-IsMade address socket (none, calls) c = tt
rtu_over_tcp-IsMade address socket (some h, calls) (type, given, is_free, valid, empty, held) =
    (valid, is_free, type)

-- The events store at most 254 bytes each, and there is fuel for the wait of `ModbusConnectRtu`.
pub record Serves (a : Answers) : Type 0 where
  pub fit : (k : ℕ) → AllFit (a.env.polls k)
  pub enough : 402 ≤ a.env.fuel

module _ (a : Answers) (s : Started) (table : HasTable s) where
  ip-Made :
      (d : Device) (connect : List ℕ → Option Modbus × List Connect.Call) (address : List ℕ)
      → IsMade d (connect address).0
      → Returns (Made d s) (connect_ip connect (some address) s)
  unfolding connect_ip
  ip-Made d connect address made =
      let (hndl, calls) = connect address in
      (
        made,
        counted (connect address).1 s (connect address).0,
        ap (λ (t : TwinTable). length t.twin_callback_array)
              (same_table (connect address).1 s (connect address).0)
            ∙ table,
      )

  configured :
      (world : Option World) (calls : List Connect.Call)
      → IsMade rtu_device (handle_of world)
      → Returns
          (Made rtu_device s)
          (configure_adam4150 a world (count_connection (handle_of world) calls s))
  unfolding configure_adam4150 handle_of set_twin_update_callbacks count_connection is_made
  configured none calls made = (tt, or_false s.connection_made, table)
  configured (some w) calls made =
      Returns->>= (λ t. length t.twin_callback_array ≡ 10) (Made rtu_device s)
        (set_callbacks_loop a.copies 1 0 8 s.twin_table) _
        (callbacks_set a.copies 1 0 8 s.twin_table table)
        λ t ten. (made, or_true s.connection_made, ten)

  rtu-IsMade :
      (socket : Option ℕ) (world : Option World) (calls : List Connect.Call)
      → ConnectedRtu a.env rtu_setup socket nothing (world, calls)
      → IsMade rtu_device (handle_of world)
  unfolding handle_of
  rtu-IsMade socket none calls c = tt
  rtu-IsMade socket (some w) calls (valid, is_free, sent, fd, given, held) = (valid, is_free, tt)

  device-Made :
      (d : Device)
      → Serves a
      → Returns (Made d s) (connect_device a (type_of d) (connection_of d) s)
  unfolding connect_device connection_of type_of address_of connect_rtu
  device-Made (tcp_device address) serves =
      let both =
        modbus_connect_tcp-Connected a.system address 502 nothing (socket-IsNew a.system.socket) in
      ip-Made (tcp_device address) (λ ip. modbus_connect_tcp a.system ip 502) address
        (tcp-IsMade address a.system.socket (modbus_connect_tcp a.system address 502) both.0)
  device-Made (rtu_over_tcp_device address) serves =
      let both =
        modbus_connect_tcp-Connected a.system address 8000 nothing (socket-IsNew a.system.socket) in
      ip-Made (rtu_over_tcp_device address) (λ ip. modbus_connect_rtu_over_tcp a.system ip 8000)
        address
        (rtu_over_tcp-IsMade address a.system.socket
          (modbus_connect_rtu_over_tcp a.system address 8000) both.1)
  device-Made rtu_device serves =
      Returns->>= (ConnectedRtu a.env rtu_setup a.system.socket nothing) (Made rtu_device s)
        (modbus_connect_rtu a.system a.env s.transaction_identifier a.received_message rtu_setup
          400)
        _
        (modbus_connect_rtu-ConnectedRtu a.env serves.fit 400 (omega arith) (omega arith)
          serves.enough rtu_setup s.transaction_identifier a.received_message a.system nothing
          (socket-IsNew a.system.socket))
        λ out c. configured out.0 out.1 (rtu-IsMade a.system.socket out.0 out.1 c)

-- Every device of the command line, in order.
abbrev pub AreMade : List Device → List DeviceConnection → Type 0
AreMade [] cs = Unit {0}
AreMade (d ∷ ds) [] = ⊥
AreMade (d ∷ ds) (c ∷ cs) = (c.connection_type ≡ type_of d) × IsMade d c.modbushndl × AreMade ds cs

-- One of the first `n` has a handle.
unfoldable pub any_made : ℕ → List DeviceConnection → Bool
unfolding is_made
any_made zero cs = false
any_made (suc n) [] = false
any_made (suc n) (c ∷ cs) = is_made c.modbushndl || any_made n cs

or_assoc : (a b c : Bool) → ((a || b) || c) ≡ (a || (b || c))
or_assoc true b c = refl
or_assoc false b c = refl

pub devices_made :
    (answers : ℕ → Answers) (serve : (k : ℕ) → Serves (answers k)) (ds : List Device) (i : ℕ)
    (rest : List DeviceConnection) (s : Started)
    → HasTable s
    → Returns
        (λ out.
          AreMade ds out.0
          × (out.1.connection_made ≡ (s.connection_made || any_made (length ds) out.0)))
        (connect_devices answers i (length ds) (map connection_of ds ++ rest) s)
unfolding connect_devices any_made connection_of
devices_made answers serve [] i rest s table = (tt, or_false s.connection_made)
devices_made answers serve (d ∷ ds) i rest s table =
    Returns->>= (Made d s)
      (λ out.
        AreMade (d ∷ ds) out.0
        × (out.1.connection_made ≡ (s.connection_made || any_made (suc (length ds)) out.0)))
      (connect_device (answers i) (type_of d) (connection_of d) s) _
      (device-Made (answers i) s table d (serve i))
      λ out (made, flag, table').
        Returns->>=
          (λ out'.
            AreMade ds out'.0
            × (out'.1.connection_made ≡ (out.1.connection_made || any_made (length ds) out'.0)))
          (λ out'.
            AreMade (d ∷ ds) out'.0
            × (out'.1.connection_made ≡ (s.connection_made || any_made (suc (length ds)) out'.0)))
          (connect_devices answers (i + 1) (length ds) (map connection_of ds ++ rest) out.1) _
          (devices_made answers serve ds (i + 1) rest out.1 table')
          λ out' (all, flag'). (
            (refl, made, all),
            flag'
                ∙ ap (λ b. b || any_made (length ds) out'.0) flag
                ∙ or_assoc s.connection_made (is_made out.0) (any_made (length ds) out'.0),
          )
