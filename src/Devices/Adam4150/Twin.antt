-- ===== src/Devices/Adam4150/Twin.antt =====
-- The device twin under any sequence of calls to adam4150.c.
use modbus_sphere_library.Base.{
  ℕ, ◌+◌, ◌%◌, ◌<◌, ◌≤◌, ◌≡◌, ◌⊎◌, inl, inr, refl, sym, ap, ◌∙◌, List, [], ◌∷◌, Bool, true, false,
  ◌&&◌, Option, none, some, Bool-cases, arith, length, length-set, ltb, ◌==◌, ◌/◌, ◌^◌, ap₂, not,
  get_or,
}
use modbus_sphere_library.Outcome.{
  ok, Returns, Returns->>=, Returns-if, Keeps, Keeps->>=, Keeps-if, Returns-Keeps,
}
use modbus_sphere_library.Memory.{uninit, length-uninit, read_byte}
use modbus_sphere_library.Modbus.Types.{Env, World}
use modbus_sphere_library.Modbus.Receive.Buffer.{IsValid}
use modbus_sphere_library.Modbus.Wait.Loop.{AllFit}
use modbus_sphere_library.Modbus.Write.{write_single_coil}
use modbus_sphere_library.Modbus.Write.Safety.{write_single-IsSafe}
use modbus_sphere_library.Modbus.Read.Safety.{read_byte-Keeps, read_discrete_inputs-Keeps}
use modbus_sphere_library.Modbus.Read.{read_discrete_inputs}
use modbus_sphere_library.Devices.Adam4150.{
  Adam4150, Report, outputs, inputs, set_output, store_state, twin_update_callback, store_inputs,
  read_inputs, digital_control, update_device_twin, same_state, closed_text, open_text, same_text,
}

-- The states in the last report of each kind.
unfoldable pub last_outputs : List Report → Option (List Bool)
last_outputs [] = none
last_outputs (outputs states ∷ reports) = some states
last_outputs (inputs states ∷ reports) = last_outputs reports

unfoldable pub last_inputs : List Report → Option (List Bool)
last_inputs [] = none
last_inputs (inputs states ∷ reports) = some states
last_inputs (outputs states ∷ reports) = last_inputs reports

-- An update is due, or the last report has the states as they are.
pub record IsInStep (reports : List Report) (a : Adam4150) : Type 0 where
  pub eight : length a.digital_out_state ≡ 8
  pub out_told :
      (a.output_twin_update_required ≡ true) ⊎ (last_outputs reports ≡ some a.digital_out_state)
  pub in_told :
      (a.input_twin_update_required ≡ true) ⊎ (last_inputs reports ≡ some a.digital_in_state)

same_state_lem : (a b : Bool) → same_state a b ≡ true → b ≡ a
unfolding same_state
same_state_lem true b h = h
same_state_lem false true h = absurd (cc h)
same_state_lem false false h = refl

-- Inputs that ask for no update are the states that were there.
store_inputs_lem :
    (states : List Bool) (values : ℕ) (required : Bool)
    → ((store_inputs states values required).1 ≡ true)
      ⊎ ((store_inputs states values required).1 ≡ required)
        × ((store_inputs states values required).0 ≡ states)
unfolding store_inputs
store_inputs_lem [] values required = inr (refl, refl)
store_inputs_lem (state ∷ states) values required =
    elim (Bool-cases (same_state state (values % 2 == 1))) [
      | inl e ↦ rw e (elim (store_inputs_lem states (values / 2) required) [
        | inl h ↦ inl h
        | inr (h, k) ↦ inr (h, ap₂ (λ x xs. x ∷ xs) (same_state_lem state (values % 2 == 1) e) k)
      ])
      | inr e ↦
          rw e (elim (store_inputs_lem states (values / 2) true) [
            | inl h ↦ inl h
            | inr (h, k) ↦ inl h
          ])
    ]

-- In step, with a valid handle.
abbrev pub IsKept : List Report → World × Adam4150 → Type 0
IsKept reports (w, a) = IsInStep reports a × IsValid w.hndl

module _ (env : Env) (fit : (k : ℕ) → AllFit (env.polls k)) (enough : 502 ≤ env.fuel)
    (reports : List Report) where
  four : 4 ≤ length (uninit env.stack 4)
  four = omega (arith, length-uninit env.stack 4)

  set_output-IsInStep :
      (w : World) (a : Adam4150) (pin : ℕ) (state : Bool)
      → pin < 8
      → IsKept reports (w, a)
      → Returns (IsKept reports) (set_output env w a pin state)
  unfolding set_output store_state
  set_output-IsInStep w a pin state small (i, v) =
      let address = (16 + pin) % 2 ^ 16 in
      let safe =
        write_single-IsSafe env fit 500 (omega arith) (omega arith) (omega arith) w v
          (uninit env.stack 4) four a.slave_address address state 0 in
      Returns-if (IsKept reports) a.configured _ (ok (w, a))
        (Returns->>= _ (IsKept reports)
          (write_single_coil env w a.slave_address address state (uninit env.stack 4) 500) _ safe.0
          λ reply s.
            let fits : ltb pin (length a.digital_out_state) ≡ true = ground (arith, i.eight) in
            Returns-if (IsKept reports) reply.result _ (ok (reply.world, a))
              (rw fits (
                record {
                  eight = length-set a.digital_out_state pin state ∙ i.eight;
                  out_told = inl refl;
                  in_told = i.in_told;
                },
                s.valid,
              ))
              (i, s.valid))
        (i, v)

  read_inputs-IsInStep :
      (w : World) (a : Adam4150)
      → IsKept reports (w, a)
      → Keeps (IsKept reports) (read_inputs env w a)
  unfolding read_inputs
  read_inputs-IsInStep w a (i, v) =
      Keeps->>= (λ r. IsValid r.world.hndl) (IsKept reports)
        (read_discrete_inputs env w a.slave_address 0 7 (uninit env.stack 4) 500) _
        (read_discrete_inputs-Keeps env w a.slave_address 0 7 500 (uninit env.stack 4) fit
          (omega arith) (omega arith) (omega arith) v four)
        λ reply v'.
          Keeps-if (IsKept reports) reply.result _ (ok (reply.world, a))
            (Keeps->>= (λ x. Unit {0}) (IsKept reports) (read_byte reply.read_array 0) _
              (read_byte-Keeps reply.read_array 0)
              λ x _. (
                record {
                  eight = i.eight;
                  out_told = i.out_told;
                  in_told =
                      elim (store_inputs_lem a.digital_in_state x a.input_twin_update_required) [
                        | inl h ↦ inl h
                        | inr (h, k) ↦ elim i.in_told [
                          | inl t ↦ inl (h ∙ t)
                          | inr t ↦ inr (t ∙ ap (λ l. some l) (sym k))
                        ]
                      ];
                },
                v',
              ))
            (i, v')

  pub digital_control-IsInStep :
      (w : World) (a : Adam4150)
      → IsKept reports (w, a)
      → Keeps (IsKept reports) (digital_control env w a)
  unfolding digital_control
  digital_control-IsInStep w a (i, v) =
      let counter = (a.counter_rtu + 1) % 8 in
      let counted : Adam4150 = record a { counter_rtu = counter } in
      let new_state = not (get_or a.digital_out_state counter false) in
      let j : IsInStep reports counted = record {
        eight = i.eight;
        out_told = i.out_told;
        in_told = i.in_told;
      } in
      Keeps-if (IsKept reports) a.configured _ (ok (w, counted))
        (Keeps->>= (IsKept reports) (IsKept reports) (set_output env w counted counter new_state) _
          (Returns-Keeps (IsKept reports) (set_output env w counted counter new_state)
            (set_output-IsInStep w counted counter new_state (omega arith) (j, v)))
          λ out k. read_inputs-IsInStep out.0 out.1 k)
        (j, v)

  pub twin_update_callback-IsInStep :
      (w : World) (a : Adam4150) (state : Option (List ℕ)) (pin : ℕ)
      → pin < 8
      → IsKept reports (w, a)
      → Returns (IsKept reports) (twin_update_callback env w a state pin)
  unfolding twin_update_callback
  twin_update_callback-IsInStep w a none pin small i = i
  twin_update_callback-IsInStep w a (some state) pin small i =
      elim (Bool-cases (same_text state closed_text)) [
        | inl e ↦ rw e (set_output-IsInStep w a (pin % 2 ^ 8) false (omega arith) i)
        | inr e ↦ elim (Bool-cases (same_text state open_text)) [
          | inl e' ↦ rw (e, e') (set_output-IsInStep w a (pin % 2 ^ 8) true (omega arith) i)
          | inr e' ↦ rw (e, e') i
        ]
      ]

module _ (reports : List Report) where
  pub update_device_twin-IsInStep :
      (printed : Report → ℕ) (a : Adam4150)
      → IsInStep reports a
      → IsInStep (update_device_twin printed a reports).1 (update_device_twin printed a reports).0
  unfolding update_device_twin last_outputs last_inputs
  update_device_twin-IsInStep printed a i =
      elim (Bool-cases
        (a.output_twin_update_required && ltb (printed (outputs a.digital_out_state)) 1024)) [
          | inl e ↦
              elim (Bool-cases
                (a.input_twin_update_required && ltb (printed (inputs a.digital_in_state)) 1024)) [
                  | inl e' ↦
                      rw (e, e')
                        (record { eight = i.eight; out_told = inr refl; in_told = inr refl })
                  | inr e' ↦
                      rw (e, e')
                        (record { eight = i.eight; out_told = inr refl; in_told = i.in_told })
                ]
          | inr e ↦
              elim (Bool-cases
                (a.input_twin_update_required && ltb (printed (inputs a.digital_in_state)) 1024)) [
                  | inl e' ↦
                      rw (e, e')
                        (record { eight = i.eight; out_told = i.out_told; in_told = inr refl })
                  | inr e' ↦
                      rw (e, e')
                        (record { eight = i.eight; out_told = i.out_told; in_told = i.in_told })
                ]
        ]
