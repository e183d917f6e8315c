-- ===== src/Tests/Azure.antt =====
-- The connection to the hub and the callbacks on its twin, with concrete answers of the SDK.
use modbus_sphere_library.Base.{
  ℕ, ◌≡◌, inl, refl, List, [], ◌∷◌, true, false, none, some, Option, length, ◌==◌, if◌then◌else◌,
}
use modbus_sphere_library.Outcome.{ok, Returns}
use modbus_sphere_library.AzureIot.Client.{
  Provisioning, Use, timer, message, report, run_uses, initial_client, is_some,
}
use modbus_sphere_library.AzureIot.Calls.{after_calls, live, IsConnected, AreDocumented}
use modbus_sphere_library.AzureIot.Safety.{run_uses-Leads}
use modbus_sphere_library.AzureIot.Attempts.{attempts, periods, expected_periods}
use modbus_sphere_library.AzureIot.Backoff.{run_uses-expected_periods}
use modbus_sphere_library.AzureIot.Twin.{Json, Invocation, initial_table, twin_callback}
use modbus_sphere_library.Devices.Adam4150.Outputs.{
  calls_for_names, set_twin_update_callbacks, twin_callback-set_twin_update_callbacks,
}
use modbus_sphere_library.AzureIot.Registry.{
  Registration, register_all, accepted, calls_for, inside, twin_callback-register_all,
}

abbrev refused : Provisioning
refused = record { provisioned = false; created = none; option_set = true }

abbrev granted : Provisioning
granted = record { provisioned = true; created = some 12; option_set = true }

-- Two failures, a success, a message and a report; the hub drops the connection, and the next
-- attempt fails.
abbrev uses : List Use
uses =
    timer (some true) refused []
    ∷ timer (some true) refused []
    ∷ timer (some true) granted (true ∷ [])
    ∷ message (some 4)
    ∷ report
    ∷ timer none refused (false ∷ [])
    ∷ timer (some true) refused []
    ∷ []

documented : AreDocumented uses
unfolding is_some
documented = (refl, (refl, (refl, (refl, (refl, tt)))))

run_uses-Leads_example :
    IsConnected (run_uses uses initial_client).0
    × (after_calls (run_uses uses initial_client).1 (live none)
        ≡ some (live (run_uses uses initial_client).0.iothub_client_handle))
unfolding initial_client
run_uses-Leads_example = run_uses-Leads uses initial_client documented (inl refl)

run_uses-expected_periods_example :
    periods (run_uses uses initial_client).1
    ≡ expected_periods 0 (attempts (run_uses uses initial_client).1)
run_uses-expected_periods_example = run_uses-expected_periods uses documented

-- The success in between does not bring the back-off to its start.
fourth_period : periods (run_uses uses initial_client).1 ≡ 60 ∷ 120 ∷ 5 ∷ 240 ∷ []
unfolding periods run_uses initial_client
fourth_period = refl

-- A library whose documents have an object 20 as "desired", with the property "a" and the eight
-- outputs but "out2"; a value is the last character of the name.
abbrev value_in : ℕ → List ℕ → Option ℕ
value_in object (b ∷ []) = if object == 20 then some b else none
value_in object (b ∷ c ∷ d ∷ e ∷ []) = if e == 50 then none else some e
value_in object name = none

abbrev json : Json ℕ ℕ
json = record {
  json_parse_string = λ text. some 7;
  json_value_get_object = λ value. value;
  json_object_dotget_object = λ root name. if length name == 7 then some 20 else none;
  json_object_get_value = λ object name. elim object [ none ↦ none | some o ↦ value_in o name ];
}

abbrev registrations : List Registration
registrations =
    (record { copies = true; name = 97 ∷ []; callback = some 1; context = 5 })
    ∷ (record { copies = true; name = []; callback = some 1; context = 6 })
    ∷ []

-- The callback 1 gets the value 97 and the context 5.
twin_callback-register_all_example :
    Returns
      (λ out.
        (out.0 ≡ true ∷ true ∷ [])
        × (twin_callback json true [] out.1
            ≡ ok (some ((record { called = 1; value = 97; given_context = 5 }) ∷ []))))
      (register_all registrations initial_table)
unfolding accepted calls_for
twin_callback-register_all_example =
    twin_callback-register_all json registrations [] 7 (some 20) refl (inside 20 refl)

-- The callback 1 gets the values of the outputs, of which "out2" has none.
abbrev output_calls : List (Invocation ℕ)
output_calls =
    (record { called = 1; value = 49; given_context = 0 })
    ∷ (record { called = 1; value = 51; given_context = 2 })
    ∷ (record { called = 1; value = 52; given_context = 3 })
    ∷ (record { called = 1; value = 53; given_context = 4 })
    ∷ (record { called = 1; value = 54; given_context = 5 })
    ∷ (record { called = 1; value = 55; given_context = 6 })
    ∷ (record { called = 1; value = 56; given_context = 7 })
    ∷ []

twin_callback-set_twin_update_callbacks_example :
    Returns
      (λ t. twin_callback json true [] t ≡ ok (some output_calls))
      (set_twin_update_callbacks (λ k. true) 1 initial_table)
unfolding calls_for_names
twin_callback-set_twin_update_callbacks_example =
    twin_callback-set_twin_update_callbacks json 1 [] 7 (some 20) refl (inside 20 refl)
