-- ===== src/Tests/Start.antt =====
-- The start of the application with two devices.
use modbus_sphere_library.Base.{
  ℕ, ◌≡◌, refl, List, [], ◌∷◌, ◌-◌, true, false, some, arith, if◌then◌else◌, leb, length, map,
}
use modbus_sphere_library.Outcome.{ok, fault, ◌>>=◌, Returns}
use modbus_sphere_library.Modbus.Types.{Env}
use modbus_sphere_library.AzureIot.Twin.{initial_table}
use modbus_sphere_library.Devices.Adam4150.{boot}
use modbus_sphere_library.Application.Arguments.{read_command_line, copy_scope_id, first_char}
use modbus_sphere_library.Application.CommandLine.{
  Device, tcp_device, rtu_device, arguments_of, connections, connection_of, IsPlain,
  read_command_line-arguments_of,
}
use modbus_sphere_library.Application.Handlers.{Answers, Started, InitSystem, init_handlers}
use modbus_sphere_library.Application.Connections.{Serves}
use modbus_sphere_library.Application.Start.{IsStarted, init_handlers-read_command_line}

abbrev devices : List Device
devices = tcp_device (49 ∷ 48 ∷ []) ∷ rtu_device ∷ []

abbrev name : List ℕ
name = 97 ∷ []

abbrev scope : List ℕ
scope = 48 ∷ 110 ∷ 101 ∷ []

plain : IsPlain name × (IsPlain scope × IsPlain (49 ∷ 48 ∷ []))
unfolding first_char
plain = (refl, (refl, refl))

read_command_line-arguments_of_example : read_command_line (name ∷ scope ∷ arguments_of devices) ≡ (
    if leb (length devices) 5
    then ok
        (connections (map connection_of devices) (5 - length devices), some (copy_scope_id scope))
    else fault)
read_command_line-arguments_of_example =
    read_command_line-arguments_of name scope devices plain.0 plain.1.0 (plain.1.1, tt)

-- The real-time core does not answer.
abbrev silent : Env
silent = record { send = λ fd bytes. some 11; polls = λ k. []; stack = λ k. 170; fuel = 500 }

abbrev answers : Answers
answers = record {
  system = record {
    has_memory = true;
    socket = some 7;
    connects = true;
    adds = true;
    modifies = true;
    copies = true;
    creates_thread = true;
    epoll = some 3;
  };
  env = silent;
  received_message = 0;
  copies = λ i. true;
}

abbrev system : InitSystem
system = record {
  epoll = some 4;
  devices = λ i. answers;
  send_timer = record { created = some 8; sets = true; adds = true; modifies = true };
  azure_timer = record { created = some 9; sets = true; adds = false; modifies = true };
  adds_again = false;
  modifies_again = true;
}

serves : (k : ℕ) → Serves (system.devices k)
serves k = record { fit = λ n. tt; enough = omega arith }

abbrev fresh : Started
fresh = record {
  adam = boot;
  twin_table = initial_table;
  transaction_identifier = 0;
  connection_made = false;
  device_calls = [];
}

ten_entries : length initial_table.twin_callback_array ≡ 10
unfolding initial_table
ten_entries = refl

init_handlers-read_command_line_example : Returns (IsStarted system devices) (
    read_command_line (name ∷ scope ∷ arguments_of devices) >>= λ out.
    init_handlers system out.0 fresh)
init_handlers-read_command_line_example =
    init_handlers-read_command_line system serves devices fresh ten_entries name scope plain.0
      plain.1.0 (plain.1.1, tt) (omega arith)
