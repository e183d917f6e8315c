-- ===== src/AzureIot/Twin.antt =====
-- The callbacks of azure_iot.c on properties of the device twin. The JSON library is a parameter.
use modbus_sphere_library.Base.{
  ℕ, zero, suc, ◌+◌, List, [], ◌∷◌, ◌++◌, Bool, true, false, Option, none, some, if◌then◌else◌, leb,
  ltb, length, set, get_elem?, replicate,
}
use modbus_sphere_library.Outcome.{Outcome, ok, fault, ◌>>=◌}

abbrev pub max_twin_callbacks : ℕ
max_twin_callbacks = 10

-- `TWIN_CALLBACK`: the name of the property, `none` for NULL; the callback, which is known by a
-- number, `none` for NULL; and the context.
pub record TwinCallback : Type 0 where
  pub property : Option (List ℕ)
  pub f_ptr : Option ℕ
  pub context : ℕ

-- `numCallbacksSet` and `twinCallbackArray`.
pub record TwinTable : Type 0 where
  pub num_callbacks_set : ℕ
  pub twin_callback_array : List TwinCallback

-- After start-up.
unfoldable pub initial_table : TwinTable
initial_table = record {
  num_callbacks_set = 0;
  twin_callback_array =
      replicate max_twin_callbacks (record { property = none; f_ptr = none; context = 0 });
}

-- `copies`: whether `strdup` succeeds.
unfoldable pub add_twin_update_callback :
    Bool → List ℕ → Option ℕ → ℕ → TwinTable → Outcome (Bool × TwinTable)
add_twin_update_callback copies property f_ptr context t =
    if leb max_twin_callbacks t.num_callbacks_set
    then ok (false, t)
    else if ltb t.num_callbacks_set (length t.twin_callback_array)
    then ok (
      true,
      record {
        num_callbacks_set = t.num_callbacks_set + 1;
        twin_callback_array = set t.twin_callback_array t.num_callbacks_set (record {
          property = if copies then some property else none;
          f_ptr = f_ptr;
          context = context;
        });
      },
    )
    else fault

-- The functions of the JSON library; `none` is NULL.
pub record Json (Value Object : Type 0) : Type 0 where
  pub json_parse_string : List ℕ → Option Value
  pub json_value_get_object : Option Value → Option Object
  pub json_object_dotget_object : Option Object → List ℕ → Option Object
  pub json_object_get_value : Option Object → List ℕ → Option Value

-- One call of a callback.
pub record Invocation (Value : Type 0) : Type 0 where
  pub called : ℕ
  pub value : Value
  pub given_context : ℕ

-- "desired".
abbrev pub desired_text : List ℕ
desired_text = 100 ∷ 101 ∷ 115 ∷ 105 ∷ 114 ∷ 101 ∷ 100 ∷ []

unfoldable pub entry_at : List TwinCallback → ℕ → Outcome TwinCallback
entry_at entries i = elim (get_elem? entries i) [ none ↦ fault | some entry ↦ ok entry ]

module _ {Value Object : Type 0} (json : Json Value Object) where
  unfoldable pub call_if_given : ℕ → Option Value → ℕ → List (Invocation Value)
  call_if_given f none context = []
  call_if_given f (some value) context =
      (record { called = f; value = value; given_context = context }) ∷ []

  -- The body of the loop.
  unfoldable pub invoke : Option Object → TwinCallback → List (Invocation Value)
  unfolding call_if_given
  invoke desired entry = elim entry.property [
    | none ↦ []
    | some property ↦ elim entry.f_ptr [
      | none ↦ []
      | some f ↦ call_if_given f (json.json_object_get_value desired property) entry.context
    ]
  ]

  -- `left` rounds from the index `i`.
  unfoldable pub invoke_loop :
      Option Object → List TwinCallback → ℕ → ℕ → Outcome (List (Invocation Value))
  unfolding invoke entry_at
  invoke_loop desired entries i zero = ok []
  invoke_loop desired entries i (suc left) = do
    entry ← entry_at entries i
    rest ← invoke_loop desired entries (i + 1) left
    ok (invoke desired entry ++ rest)

  unfoldable pub choose_object : Option Object → Option Object → Option Object
  choose_object none root = root
  choose_object (some desired) root = some desired

  -- The desired properties of a document: the root itself if it has no "desired".
  unfoldable pub desired_properties : Value → Option Object
  unfolding choose_object
  desired_properties root_value =
      let root = json.json_value_get_object (some root_value) in
      choose_object (json.json_object_dotget_object root desired_text) root

  -- `none` if `malloc` fails, after which the code aborts.
  unfoldable pub twin_callback :
      Bool → List ℕ → TwinTable → Outcome (Option (List (Invocation Value)))
  unfolding desired_properties invoke_loop
  twin_callback has_memory payload t =
      if has_memory
      then elim (json.json_parse_string (payload ++ (0 ∷ []))) [
        | none ↦ ok (some [])
        | some root ↦ do
          calls ← invoke_loop (desired_properties root) t.twin_callback_array 0 t.num_callbacks_set
          ok (some calls)
      ]
      else ok none
