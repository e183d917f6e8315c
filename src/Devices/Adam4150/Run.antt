-- ===== src/Devices/Adam4150/Run.antt =====
-- Any sequence of calls to adam4150.c, from the start on.
use modbus_sphere_library.Base.{ℕ, ◌<◌, true, false, List, [], ◌∷◌, Bool, Option}
use modbus_sphere_library.Outcome.{Outcome, ok, ◌>>=◌}
use modbus_sphere_library.Modbus.Types.{Env, World}
use modbus_sphere_library.Modbus.Receive.Buffer.{IsValid}
use modbus_sphere_library.Devices.Adam4150.{
  Adam4150, Report, twin_update_callback, set_config, digital_control, update_device_twin,
}
use modbus_sphere_library.Devices.Adam4150.Twin.{IsInStep}

pub data DeviceCall : Type 0 where
  configure : Bool → ℕ → DeviceCall
  desired : Option (List ℕ) → ℕ → DeviceCall
  control update : DeviceCall

-- The client's state, the device's, and the reports.
pub record Twinned : Type 0 where
  pub world : World
  pub device : Adam4150
  pub reports : List Report

unfoldable pub device_call : Env → (Report → ℕ) → Twinned → DeviceCall → Outcome Twinned
device_call env printed t (configure configured slave_address) =
    ok (record t { device = set_config t.device configured slave_address })
device_call env printed t (desired state pin) = do
  (w, a) ← twin_update_callback env t.world t.device state pin
  ok (record t { world = w; device = a })
device_call env printed t control = do
  (w, a) ← digital_control env t.world t.device
  ok (record t { world = w; device = a })
device_call env printed t update =
    let (a, reports) = update_device_twin printed t.device t.reports in
    ok (record t { device = a; reports = reports })

unfoldable pub device_calls : Env → (Report → ℕ) → Twinned → List DeviceCall → Outcome Twinned
unfolding device_call
device_calls env printed t [] = ok t
device_calls env printed t (call ∷ calls) = do
  t' ← device_call env printed t call
  device_calls env printed t' calls

-- A desired state names one of the eight outputs.
abbrev pub AreOutputs : List DeviceCall → Type 0
AreOutputs [] = Unit {0}
AreOutputs (desired state pin ∷ calls) = (pin < 8) × AreOutputs calls
AreOutputs (configure configured slave_address ∷ calls) = AreOutputs calls
AreOutputs (control ∷ calls) = AreOutputs calls
AreOutputs (update ∷ calls) = AreOutputs calls

-- Whether inputs are read.
abbrev pub reads_inputs : List DeviceCall → Bool
reads_inputs [] = false
reads_inputs (control ∷ calls) = true
reads_inputs (desired state pin ∷ calls) = reads_inputs calls
reads_inputs (configure configured slave_address ∷ calls) = reads_inputs calls
reads_inputs (update ∷ calls) = reads_inputs calls

abbrev InStep : Twinned → Type 0
InStep t = IsInStep t.reports t.device × IsValid t.world.hndl
