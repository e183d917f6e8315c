-- ===== src/Devices/Adam4150.antt =====
-- adam4150.c: the outputs that are toggled, the inputs that are read, and their reports to the
-- device twin.
pub mod Twin
pub mod Run
pub mod Outputs
use modbus_sphere_library.Base.{
  ℕ, zero, suc, ◌+◌, ◌/◌, ◌%◌, ◌^◌, List, [], ◌∷◌, Bool, true, false, not, ◌&&◌, Option, none, some,
  ltb, leb, ◌==◌, if◌then◌else◌, set, get_or, length,
}
use modbus_sphere_library.Outcome.{Outcome, ok, fault, ◌>>=◌}
use modbus_sphere_library.Memory.{uninit, read_byte}
use modbus_sphere_library.Modbus.Types.{Env, World}
use modbus_sphere_library.Modbus.Request.{Reply}
use modbus_sphere_library.Modbus.Write.{write_single_coil}
use modbus_sphere_library.Modbus.Read.{read_discrete_inputs}

abbrev pub default_adam4150_timeout : ℕ
default_adam4150_timeout = 500

abbrev pub base_output_address : ℕ
base_output_address = 16

abbrev pub num_inputs : ℕ
num_inputs = 7

abbrev pub max_twin_update_size : ℕ
max_twin_update_size = 1024

-- The static variables: `config` (whether it has a handle, and the address), the states, and
-- `counterRTU`.
pub record Adam4150 : Type 0 where
  pub configured : Bool
  pub slave_address : ℕ
  pub digital_out_state : List Bool
  pub digital_in_state : List Bool
  pub output_twin_update_required : Bool
  pub input_twin_update_required : Bool
  pub counter_rtu : ℕ

-- The text of a report, by the states that stand in it.
pub data Report : Type 0 where
  outputs inputs : List Bool → Report

unfoldable pub store_state : List Bool → ℕ → Bool → Outcome (List Bool)
store_state states pin state = if ltb pin (length states) then ok (set states pin state) else fault

unfoldable pub set_output : Env → World → Adam4150 → ℕ → Bool → Outcome (World × Adam4150)
unfolding store_state
set_output env w a pin state =
    if a.configured
    then (do
      reply ←
          write_single_coil env w a.slave_address ((base_output_address + pin) % 2 ^ 16) state
            (uninit env.stack 4) default_adam4150_timeout
      (if reply.result
          then (do
            states ← store_state a.digital_out_state pin state
            ok (
              reply.world,
              record a { output_twin_update_required = true; digital_out_state = states },
            ))
          else ok (reply.world, a)))
    else ok (w, a)

-- `strcmp` gives 0.
unfoldable pub same_text : List ℕ → List ℕ → Bool
same_text [] [] = true
same_text [] (y ∷ ys) = false
same_text (x ∷ xs) [] = false
same_text (x ∷ xs) (y ∷ ys) = (x == y) && same_text xs ys

abbrev pub closed_text : List ℕ
closed_text = 67 ∷ 108 ∷ 111 ∷ 115 ∷ 101 ∷ 100 ∷ []

abbrev pub open_text : List ℕ
open_text = 79 ∷ 112 ∷ 101 ∷ 110 ∷ []

-- The text that the JSON value gives, `none` for NULL, and `t.intVal`.
unfoldable pub twin_update_callback :
    Env → World → Adam4150 → Option (List ℕ) → ℕ → Outcome (World × Adam4150)
unfolding set_output same_text
twin_update_callback env w a none pin = ok (w, a)
twin_update_callback env w a (some state) pin =
    if same_text state closed_text
    then set_output env w a (pin % 2 ^ 8) false
    else if same_text state open_text
    then set_output env w a (pin % 2 ^ 8) true
    else ok (w, a)

unfoldable pub set_config : Adam4150 → Bool → ℕ → Adam4150
set_config a configured slave_address = record a {
  configured = configured;
  slave_address = slave_address;
}

unfoldable pub same_state : Bool → Bool → Bool
same_state true b = b
same_state false b = not b

-- The loop over the inputs: their states, and whether an update is required.
unfoldable pub store_inputs : List Bool → ℕ → Bool → List Bool × Bool
unfolding same_state
store_inputs [] values required = ([], required)
store_inputs (state ∷ states) values required =
    let input = values % 2 == 1 in
    let changed = if same_state state input then required else true in
    let (states', required') = store_inputs states (values / 2) changed in
    (input ∷ states', required')

-- After the output has been set.
unfoldable pub read_inputs : Env → World → Adam4150 → Outcome (World × Adam4150)
unfolding store_inputs
read_inputs env w a = do
  reply ←
      read_discrete_inputs env w a.slave_address 0 num_inputs (uninit env.stack 4)
        default_adam4150_timeout
  (if reply.result
      then (do
        values ← read_byte reply.read_array 0
        let (states, required) = store_inputs a.digital_in_state values a.input_twin_update_required
        ok (
          reply.world,
          record a { digital_in_state = states; input_twin_update_required = required },
        ))
      else ok (reply.world, a))

unfoldable pub digital_control : Env → World → Adam4150 → Outcome (World × Adam4150)
unfolding set_output read_inputs
digital_control env w a =
    let counter = (a.counter_rtu + 1) % 8 in
    let counted = record a { counter_rtu = counter } in
    let new_state = not (get_or a.digital_out_state counter false) in
    if a.configured
    then (do (w', a') ← set_output env w counted counter new_state; read_inputs env w' a')
    else ok (w, counted)

-- `printed` is what `snprintf` returns; the reports that are sent, newest first.
unfoldable pub update_device_twin : (Report → ℕ) → Adam4150 → List Report → Adam4150 × List Report
update_device_twin printed a reports =
    let out = outputs a.digital_out_state in
    let send_out = a.output_twin_update_required && ltb (printed out) max_twin_update_size in
    let input = inputs a.digital_in_state in
    let send_in = a.input_twin_update_required && ltb (printed input) max_twin_update_size in
    let reported = if send_out then out ∷ reports else reports in
    (
      record a {
        output_twin_update_required = if send_out then false else a.output_twin_update_required;
        input_twin_update_required = if send_in then false else a.input_twin_update_required;
      },
      if send_in then input ∷ reported else reported,
    )

-- The state after start-up.
unfoldable pub boot : Adam4150
boot = record {
  configured = false;
  slave_address = 0;
  digital_out_state = false ∷ false ∷ false ∷ false ∷ false ∷ false ∷ false ∷ false ∷ [];
  digital_in_state = false ∷ false ∷ false ∷ false ∷ false ∷ false ∷ false ∷ [];
  output_twin_update_required = true;
  input_twin_update_required = true;
  counter_rtu = 0;
}
