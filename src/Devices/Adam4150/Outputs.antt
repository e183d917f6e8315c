-- ===== src/Devices/Adam4150/Outputs.antt =====
-- `Adam4150_SetTwinUpdateCallbacks` (adam4150.c): a callback for each output.
use modbus_sphere_library.Base.{
  ℕ, zero, suc, ◌+◌, ◌≡◌, List, [], ◌∷◌, ◌++◌, Bool, true, Option, some,
}
use modbus_sphere_library.Outcome.{Outcome, ok, fault, hang, ◌>>=◌, Returns, Returns-imp}
use modbus_sphere_library.AzureIot.Twin.{
  TwinTable, add_twin_update_callback, initial_table, Json, Invocation, twin_callback,
}
use modbus_sphere_library.AzureIot.Registry.{
  Registration, register_all, call_for, calls_for, Desired, twin_callback-register_all,
}

-- "out" and a digit: the text that `snprintf` makes of `i`, which is less than 8.
unfoldable pub out_text : ℕ → List ℕ
out_text i = 111 ∷ 117 ∷ 116 ∷ (48 + (i + 1)) ∷ []

-- The loop from output `i` on; `copies` says for which outputs `strdup` succeeds, and the number
-- stands for `Adam4150_TwinUpdateCallback`. A failure is only logged.
unfoldable pub set_callbacks_loop : (ℕ → Bool) → ℕ → ℕ → ℕ → TwinTable → Outcome TwinTable
unfolding out_text
set_callbacks_loop copies callback i zero t = ok t
set_callbacks_loop copies callback i (suc left) t = do
  (added, t') ← add_twin_update_callback (copies i) (out_text i) (some callback) i t
  set_callbacks_loop copies callback (i + 1) left t'

unfoldable pub set_twin_update_callbacks : (ℕ → Bool) → ℕ → TwinTable → Outcome TwinTable
unfolding set_callbacks_loop
set_twin_update_callbacks copies callback t = set_callbacks_loop copies callback 0 8 t

-- The registrations that the loop makes from output `i` on, with `strdup` succeeding.
unfoldable registrations_of : ℕ → ℕ → ℕ → List Registration
unfolding out_text
registrations_of callback i zero = []
registrations_of callback i (suc left) =
    (record { copies = true; name = out_text i; callback = some callback; context = i })
    ∷ registrations_of callback (i + 1) left

-- What holds after the registrations in a list holds after the loop.
module _ (P : TwinTable → Type 0) (callback : ℕ) where
  after_both :
      (m : Outcome (List Bool × TwinTable)) (b : Bool)
      → Returns
          (λ (out : List Bool × TwinTable). P out.1)
          (m >>= λ (results, t). ok (b ∷ results, t))
      → Returns (λ (out : List Bool × TwinTable). P out.1) m
  after_both (ok (results, t)) b h = h
  after_both fault b h = h
  after_both hang b h = h

  after_add :
      (m : Outcome (Bool × TwinTable)) (rs : List Registration)
      (loop : TwinTable → Outcome TwinTable)
      → ((t : TwinTable)
          → Returns (λ (out : List Bool × TwinTable). P out.1) (register_all rs t)
          → Returns P (loop t))
      → Returns
          (λ (out : List Bool × TwinTable). P out.1)
          (m >>= λ (added, t). register_all rs t >>= λ (results, t'). ok (added ∷ results, t'))
      → Returns P (m >>= λ (added, t). loop t)
  after_add (ok (added, t)) rs loop next h = next t (after_both (register_all rs t) added h)
  after_add fault rs loop next h = h
  after_add hang rs loop next h = h

  set_callbacks_loop-register_all :
      (left i : ℕ) (t : TwinTable)
      → Returns
          (λ (out : List Bool × TwinTable). P out.1)
          (register_all (registrations_of callback i left) t)
      → Returns P (set_callbacks_loop (λ k. true) callback i left t)
  unfolding registrations_of register_all set_callbacks_loop
  set_callbacks_loop-register_all zero i t h = h
  set_callbacks_loop-register_all (suc left) i t h =
      after_add (add_twin_update_callback true (out_text i) (some callback) i t)
        (registrations_of callback (i + 1) left)
        (set_callbacks_loop (λ k. true) callback (i + 1) left)
        (λ t'. set_callbacks_loop-register_all left (i + 1) t') h

-- "out1" to "out8".
abbrev pub output_names : List (List ℕ)
output_names =
    (b'o' ∷ b'u' ∷ b't' ∷ b'1' ∷ [])
    ∷ (b'o' ∷ b'u' ∷ b't' ∷ b'2' ∷ [])
    ∷ (b'o' ∷ b'u' ∷ b't' ∷ b'3' ∷ [])
    ∷ (b'o' ∷ b'u' ∷ b't' ∷ b'4' ∷ [])
    ∷ (b'o' ∷ b'u' ∷ b't' ∷ b'5' ∷ [])
    ∷ (b'o' ∷ b'u' ∷ b't' ∷ b'6' ∷ [])
    ∷ (b'o' ∷ b'u' ∷ b't' ∷ b'7' ∷ [])
    ∷ (b'o' ∷ b'u' ∷ b't' ∷ b'8' ∷ [])
    ∷ []

-- One call for each of the names that has a value, with the value and the place of the name, which
-- is counted from `i` on.
unfoldable pub calls_for_names :
    {Value : Type 0} → (List ℕ → Option Value) → ℕ → ℕ → List (List ℕ) → List (Invocation Value)
unfolding call_for
calls_for_names value_of callback i [] = []
calls_for_names value_of callback i (name ∷ names) =
    call_for true (some callback) (value_of name) i
    ++ calls_for_names value_of callback (i + 1) names

module _ {Value Object : Type 0} (json : Json Value Object) (callback : ℕ) where
  -- When `strdup` succeeds, after `Adam4150_SetTwinUpdateCallbacks` on the table after start-up: for
  -- an update of the twin whose text can be parsed, when there is memory for it,
  -- `AzureIoT_TwinCallback` calls `Adam4150_TwinUpdateCallback` for exactly those of the outputs 0 to
  -- 7 for which "out1" to "out8" has a value in the desired properties, in this order, with that
  -- value and the number of the output. The desired properties are the object "desired" of the
  -- document, or the document itself if it has none.
  pub twin_callback-set_twin_update_callbacks :
      (payload : List ℕ) (root : Value) (desired : Option Object)
      → json.json_parse_string (payload ++ (0 ∷ [])) ≡ some root
      → Desired json root desired
      → Returns
          (λ t.
            twin_callback json true payload t
            ≡ ok (
                some
                  (calls_for_names (json.json_object_get_value desired) callback 0 output_names)))
          (set_twin_update_callbacks (λ k. true) callback initial_table)
  unfolding set_twin_update_callbacks registrations_of calls_for_names calls_for
  twin_callback-set_twin_update_callbacks payload root desired parsed wanted =
      set_callbacks_loop-register_all
        (λ t.
          twin_callback json true payload t
          ≡ ok
              (some (calls_for_names (json.json_object_get_value desired) callback 0 output_names)))
        callback 8 0 initial_table
        (Returns-imp _ _ (register_all (registrations_of callback 0 8) initial_table)
          (twin_callback-register_all json (registrations_of callback 0 8) payload root desired
            parsed wanted)
          λ out (results, calls). calls)
