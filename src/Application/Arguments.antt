-- ===== src/Application/Arguments.antt =====
-- The command line of main.c. A text is the list of its characters without the NUL at its end.
use modbus_sphere_library.Base.{
  ℕ, ◌+◌, List, [], ◌∷◌, ◌++◌, Option, none, some, if◌then◌else◌, ◌==◌, set, get_elem?, replicate,
  take,
}
use modbus_sphere_library.Outcome.{Outcome, ok, fault, ◌>>=◌}
use modbus_sphere_library.Modbus.Types.{Modbus}

abbrev pub device_limit : ℕ
device_limit = 5

abbrev pub scopeid_length : ℕ
scopeid_length = 20

-- The `modbusTransportType_t` of main.c.
pub data ConnectionType : Type 0 where
  tcp rtu_over_tcp rtu unconnected : ConnectionType

-- `deviceConnection`; `none` for NULL.
pub record DeviceConnection : Type 0 where
  pub connection_type : ConnectionType
  pub address : Option (List ℕ)
  pub modbushndl : Option Modbus

-- `argNum` (or the `i` that it gets its value from) and `argConnections`.
pub record ArgConnections : Type 0 where
  pub arg_num : ℕ
  pub arg_connections : List DeviceConnection

-- After start-up, when the first type of the enumeration stands everywhere.
unfoldable pub no_connections : ArgConnections
no_connections = record {
  arg_num = 0;
  arg_connections =
      replicate device_limit (record { connection_type = tcp; address = none; modbushndl = none });
}

-- `text[0]`, the NUL for an empty text.
unfoldable pub first_char : List ℕ → ℕ
first_char [] = 0
first_char (c ∷ cs) = c

-- `text[1]` of a text that is not empty.
unfoldable pub second_char : List ℕ → ℕ
unfolding first_char
second_char [] = 0
second_char (c ∷ cs) = first_char cs

abbrev pub dash : ℕ
dash = 45

-- The entry at `i` gets its type, and its address if there is one in the argument.
unfoldable pub changed : ConnectionType → Option (List ℕ) → DeviceConnection → DeviceConnection
changed type none d = record d { connection_type = type }
changed type (some address) d = record d { connection_type = type; address = some address }

-- The argument is what stands at `argNum`, if that is inside the array.
unfoldable pub change_entry :
    ConnectionType
    → Option (List ℕ)
    → ArgConnections
    → Option DeviceConnection
    → Outcome ArgConnections
unfolding changed
change_entry type address c none = fault
change_entry type address c (some d) = ok (record {
  arg_num = c.arg_num + 1;
  arg_connections = set c.arg_connections c.arg_num (changed type address d);
})

unfoldable pub add_connection :
    ConnectionType → Option (List ℕ) → ArgConnections → Outcome ArgConnections
unfolding change_entry
add_connection type address c = change_entry type address c (get_elem? c.arg_connections c.arg_num)

-- What an option wants: an address behind it, nothing, or the option is not known.
pub data Switch : Type 0 where
  with_address : ConnectionType → Switch
  alone : Switch
  unknown : Switch

-- 't', 'o' and 'r'.
unfoldable pub option_of : ℕ → Switch
option_of opt =
    if opt == 116
    then with_address tcp
    else if opt == 111
    then with_address rtu_over_tcp
    else if opt == 114
    then alone
    else unknown

-- The loop. An option that wants an address takes the next argument, but ignores one that begins
-- with a dash; behind the last argument stands NULL.
unfoldable pub read_arguments : List (List ℕ) → ArgConnections → Outcome ArgConnections
unfolding first_char second_char add_connection option_of
read_arguments [] c = ok c
read_arguments (arg ∷ []) c =
    if first_char arg == dash
    then elim (option_of (second_char arg)) [
      | with_address type ↦ fault
      | alone ↦ add_connection rtu none c
      | unknown ↦ ok c
    ]
    else ok c
read_arguments (arg ∷ next ∷ args) c =
    let behind_both = read_arguments args in
    let behind = read_arguments (next ∷ args) in
    if first_char arg == dash
    then elim (option_of (second_char arg)) [
      | with_address type ↦
          if first_char next == dash
          then behind_both c
          else add_connection type (some next) c >>= λ c'. behind_both c'
      | alone ↦ add_connection rtu none c >>= λ c'. behind c'
      | unknown ↦ behind c
    ]
    else behind c

-- `strncpy` to `scopeId`: the rest is filled with NULs, of which there is none after a text of 20
-- characters or more.
unfoldable pub copy_scope_id : List ℕ → List ℕ
copy_scope_id text = take scopeid_length (text ++ replicate scopeid_length 0)

-- The first part of `main`: the devices, and `scopeId`, `none` if the first argument is missing or
-- an option. The program's name is read as an argument, too.
unfoldable pub read_command_line : List (List ℕ) → Outcome (ArgConnections × Option (List ℕ))
unfolding no_connections copy_scope_id
read_command_line argv = do
  c ← read_arguments argv no_connections
  (elim argv [
    | [] ↦ ok (c, none)
    | name ∷ rest ↦ elim rest [
      | [] ↦ ok (c, none)
      | scope ∷ args ↦
          if first_char scope == dash then ok (c, none) else ok (c, some (copy_scope_id scope))
    ]
  ])
