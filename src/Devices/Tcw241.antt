-- ===== src/Devices/Tcw241.antt =====
-- tcw241.c: `TCW241_ReadModbusData`.
use modbus_sphere_library.Base.{
  ℕ, zero, suc, ◌+◌, ◌*◌, ◌/◌, ◌%◌, ◌^◌, List, [], ◌∷◌, Bool, true, false, ◌==◌, if◌then◌else◌,
}
use modbus_sphere_library.Outcome.{Outcome, ok, ◌>>=◌}
use modbus_sphere_library.Memory.{uninit, read_byte}
use modbus_sphere_library.Modbus.Types.{Env, World}
use modbus_sphere_library.Modbus.Request.{Reply}
use modbus_sphere_library.Modbus.Write.{write_single_coil}
use modbus_sphere_library.Modbus.Read.{
  read_coils, read_discrete_inputs, read_multiple_holding_registers,
}

abbrev pub default_timeout : ℕ
default_timeout = 1000

abbrev pub relay_count : ℕ
relay_count = 4

abbrev pub relay_address_1 : ℕ
relay_address_1 = 100

abbrev pub digital_input_count : ℕ
digital_input_count = 4

abbrev pub digital_input_address_1 : ℕ
digital_input_address_1 = 100

abbrev pub analogue_input_count : ℕ
analogue_input_count = 4

abbrev pub analogue_input_address_1 : ℕ
analogue_input_address_1 = 300

-- The static variables; a `float` is its 32 bits.
pub record Tcw241 : Type 0 where
  pub relay_status : List Bool
  pub digital_input : List Bool
  pub analog_input : List ℕ
  pub counter_tcp : ℕ

-- The loop over the bits of a byte, from the lowest on.
unfoldable pub bits : ℕ → ℕ → List Bool
bits zero state = []
bits (suc n) state = (state % 2 == 1) ∷ bits n (state / 2)

-- The loop over the pairs of registers: the first of a pair has the upper half.
unfoldable pub floats : List ℕ → List ℕ
floats [] = []
floats (high ∷ []) = []
floats (high ∷ low ∷ rest) = (high * 2 ^ 16 + low) ∷ floats rest

-- The two writes; `data` is returned because it is used again.
unfoldable pub next_relay : Env → World → Tcw241 → List ℕ → Outcome Reply
next_relay env w t data_bytes = do
  off ←
      write_single_coil env w 0 ((relay_address_1 + t.counter_tcp) % 2 ^ 16) false data_bytes
        default_timeout
  write_single_coil env off.world 0 ((relay_address_1 + (t.counter_tcp + 1) % 4) % 2 ^ 16) true
      off.read_array default_timeout

unfoldable pub read_relays : Env → World → Tcw241 → List ℕ → Outcome (Reply × Tcw241)
unfolding bits
read_relays env w t data_bytes = do
  reply ← read_coils env w 0 relay_address_1 relay_count data_bytes default_timeout
  (if reply.result
      then (do
        state ← read_byte reply.read_array 0
        ok (reply, record t { relay_status = bits relay_count state }))
      else ok (reply, t))

unfoldable pub read_digital_inputs : Env → World → Tcw241 → List ℕ → Outcome (Reply × Tcw241)
unfolding bits
read_digital_inputs env w t data_bytes = do
  reply ←
      read_discrete_inputs env w 0 digital_input_address_1 digital_input_count data_bytes
        default_timeout
  (if reply.result
      then (do
        state ← read_byte reply.read_array 0
        ok (reply, record t { digital_input = bits digital_input_count state }))
      else ok (reply, t))

-- The array of eight registers is another local array.
unfoldable pub read_analogue_inputs : Env → World → Tcw241 → Outcome (World × Tcw241)
unfolding floats
read_analogue_inputs env w t = do
  reply ←
      read_multiple_holding_registers env w 0 analogue_input_address_1 (analogue_input_count * 2)
        (uninit env.stack (analogue_input_count * 2)) default_timeout
  (if reply.result
      then ok (reply.world, record t { analog_input = floats reply.read_array })
      else ok (reply.world, t))

unfoldable pub read_modbus_data : Env → World → Tcw241 → Outcome (World × Tcw241)
unfolding next_relay read_relays read_digital_inputs read_analogue_inputs
read_modbus_data env w t = do
  written ← next_relay env w t (uninit env.stack 4)
  let counted = record t { counter_tcp = (t.counter_tcp + 1) % 4 }
  (relays, t1) ← read_relays env written.world counted written.read_array
  (inputs, t2) ← read_digital_inputs env relays.world t1 relays.read_array
  read_analogue_inputs env inputs.world t2
