-- ===== src/AzureIot/Registry.antt =====
-- The table of callbacks of azure_iot.c as a list of at most ten registrations.
use modbus_sphere_library.Base.{
  ℕ, zero, suc, ◌+◌, ◌-◌, ◌<◌, min, ◌≡◌, refl, ap, ap₂, sym, ◌∙◌, List, [], ◌∷◌, ◌++◌, Bool, true,
  false, Option, none, some, if◌then◌else◌, leb, ltb, length, set, replicate, take, drop, map,
  arith, length-append, length-set, take-append-drop, append-nil, append_assoc,
}
use mathlib.Core.Path.{subst}
use modbus_sphere_library.Outcome.{Outcome, ok, ◌>>=◌, Returns, Returns->>=, Returns-imp}
use modbus_sphere_library.AzureIot.Twin.{
  TwinCallback, TwinTable, add_twin_update_callback, Json, Invocation, invoke, entry_at,
  invoke_loop, twin_callback, desired_properties, initial_table, call_if_given, choose_object,
}

-- The arguments of `AzureIoT_AddTwinUpdateCallback`, and whether `strdup` succeeds.
pub record Registration : Type 0 where
  pub copies : Bool
  pub name : List ℕ
  pub callback : Option ℕ
  pub context : ℕ

unfoldable pub entry_of : Registration → TwinCallback
entry_of r = record {
  property = if r.copies then some r.name else none;
  f_ptr = r.callback;
  context = r.context;
}

-- Every call in order, and its result.
unfoldable pub register_all : List Registration → TwinTable → Outcome (List Bool × TwinTable)
register_all [] t = ok ([], t)
register_all (r ∷ rs) t = do
  (added, t') ← add_twin_update_callback r.copies r.name r.callback r.context t
  (results, t'') ← register_all rs t'
  ok (added ∷ results, t'')

-- The desired properties of a document: its object "desired", or all of it if it has none.
pub data Desired {Value Object : Type 0} (json : Json Value Object) (root : Value)
    : Option Object → Type 0 where
  inside :
      (object : Object)
      → json.json_object_dotget_object
          (json.json_value_get_object (some root))
          (b'd' ∷ b'e' ∷ b's' ∷ b'i' ∷ b'r' ∷ b'e' ∷ b'd' ∷ [])
        ≡ some object
      → Desired json root (some object)
  whole :
      json.json_object_dotget_object
          (json.json_value_get_object (some root))
          (b'd' ∷ b'e' ∷ b's' ∷ b'i' ∷ b'r' ∷ b'e' ∷ b'd' ∷ [])
        ≡ none
      → Desired json root (json.json_value_get_object (some root))

-- The call for a registration, from whether the name was copied, the callback, the value of the
-- property and the context.
unfoldable pub call_for :
    {Value : Type 0} → Bool → Option ℕ → Option Value → ℕ → List (Invocation Value)
call_for true (some f) (some v) context =
    (record { called = f; value = v; given_context = context }) ∷ []
call_for true (some f) none context = []
call_for true none v context = []
call_for false callback v context = []

-- The calls for registrations when `value_of` gives the properties their values.
unfoldable pub calls_for :
    {Value : Type 0} → (List ℕ → Option Value) → List Registration → List (Invocation Value)
unfolding call_for
calls_for value_of [] = []
calls_for value_of (r ∷ rs) =
    call_for r.copies r.callback (value_of r.name) r.context ++ calls_for value_of rs

-- The table has these entries in front.
pub record Holds (t : TwinTable) (entries : List TwinCallback) : Type 0 where
  pub ten : length t.twin_callback_array ≡ 10
  pub counted : t.num_callbacks_set ≡ length entries
  pub in_front : take t.num_callbacks_set t.twin_callback_array ≡ entries

take-set :
    {A : Type 0} (xs : List A) (n : ℕ) (v : A)
    → n < length xs
    → take (n + 1) (set xs n v) ≡ take n xs ++ (v ∷ [])
take-set [] n v h = absurd (omega arith)
take-set (x ∷ xs) zero v h = refl
take-set (x ∷ xs) (suc n) v h =
    let next : suc n + 1 ≡ suc (n + 1) = omega arith in
    rw next (ap (λ l. x ∷ l) (take-set xs n v (omega arith)))

-- With room, an entry goes behind the others.
added :
    (t : TwinTable) (entries : List TwinCallback) (r : Registration)
    → Holds t entries
    → length entries < 10
    → Returns
        (λ out. (out.0 ≡ true) × Holds out.1 (entries ++ (entry_of r ∷ [])))
        (add_twin_update_callback r.copies r.name r.callback r.context t)
unfolding add_twin_update_callback entry_of
added t entries r h room =
    let open_ : leb 10 t.num_callbacks_set ≡ false = ground (arith, h.counted) in
    let inside : ltb t.num_callbacks_set (length t.twin_callback_array) ≡ true =
      ground (arith, h.counted, h.ten) in
    rw (open_, inside)
      (
        refl,
        record {
          ten = length-set t.twin_callback_array t.num_callbacks_set (entry_of r) ∙ h.ten;
          counted = omega (arith, h.counted, length-append entries (entry_of r ∷ []));
          in_front =
              take-set t.twin_callback_array t.num_callbacks_set (entry_of r)
                (omega (arith, h.counted, h.ten))
              ∙ ap (λ l. l ++ (entry_of r ∷ [])) h.in_front;
        },
      )

-- A full table stays as it is.
full :
    (t : TwinTable) (entries : List TwinCallback) (r : Registration)
    → Holds t entries
    → length entries ≡ 10
    → add_twin_update_callback r.copies r.name r.callback r.context t ≡ ok (false, t)
unfolding add_twin_update_callback
full t entries r h ten =
    let closed : leb 10 t.num_callbacks_set ≡ true = ground (arith, h.counted) in rw closed refl

-- The results with room for `k` more.
unfoldable pub accepted : ℕ → List Registration → List Bool
accepted k rs = replicate (min k (length rs)) true ++ replicate (length rs - k) false

accepted-suc :
    (k : ℕ) (r : Registration) (rs : List Registration)
    → accepted (suc k) (r ∷ rs) ≡ true ∷ accepted k rs
unfolding accepted
accepted-suc k r rs =
    let one : min (suc k) (suc (length rs)) ≡ suc (min k (length rs)) = omega arith in
    let rest : suc (length rs) - suc k ≡ length rs - k = omega arith in rw (one, rest) refl

accepted-zero :
    (r : Registration) (rs : List Registration) → accepted 0 (r ∷ rs) ≡ false ∷ accepted 0 rs
unfolding accepted
accepted-zero r rs =
    let one : min 0 (suc (length rs)) ≡ 0 = omega arith in
    let rest : min 0 (length rs) ≡ 0 = omega arith in
    let all_left : suc (length rs) - 0 ≡ suc (length rs - 0) = omega arith in
    rw (one, rest, all_left) refl

take_nil : (k : ℕ) → take {A = TwinCallback} k [] ≡ []
take_nil zero = refl
take_nil (suc k) = refl

-- All registrations, with room for `k` more.
registered :
    (rs : List Registration) (k : ℕ) (t : TwinTable) (entries : List TwinCallback)
    → Holds t entries
    → length entries + k ≡ 10
    → Returns
        (λ out. (out.0 ≡ accepted k rs) × Holds out.1 (entries ++ take k (map entry_of rs)))
        (register_all rs t)
unfolding register_all accepted
registered [] k t entries h room =
    let one : min k 0 ≡ 0 = omega arith in
    let rest : 0 - k ≡ 0 = omega arith in
    (
      sym (rw (one, rest) refl),
      subst (Holds t) (sym (ap (λ l. entries ++ l) (take_nil k) ∙ append-nil entries)) h,
    )
registered (r ∷ rs) zero t entries h room =
    let closed = full t entries r h (omega (arith, room)) in
    rw closed (
      Returns->>= (λ out. (out.0 ≡ accepted 0 rs) × Holds out.1 (entries ++ []))
        (λ out. (out.0 ≡ accepted 0 (r ∷ rs)) × Holds out.1 (entries ++ [])) (register_all rs t) _
        (registered rs zero t entries h room)
        λ out (results, held). (ap (λ l. false ∷ l) results ∙ sym (accepted-zero r rs), held))
registered (r ∷ rs) (suc k) t entries h room =
    let all = entries ++ (entry_of r ∷ take k (map entry_of rs)) in
    Returns->>= (λ out. (out.0 ≡ true) × Holds out.1 (entries ++ (entry_of r ∷ [])))
      (λ out. (out.0 ≡ accepted (suc k) (r ∷ rs)) × Holds out.1 all)
      (add_twin_update_callback r.copies r.name r.callback r.context t) _
      (added t entries r h (omega (arith, room)))
      λ out (stored, held).
        Returns->>=
          (λ out'.
            (out'.0 ≡ accepted k rs)
            × Holds out'.1 ((entries ++ (entry_of r ∷ [])) ++ take k (map entry_of rs)))
          (λ out'. (out'.0 ≡ accepted (suc k) (r ∷ rs)) × Holds out'.1 all) (register_all rs out.1)
          _
          (registered rs k out.1 (entries ++ (entry_of r ∷ [])) held
            (omega (arith, room, length-append entries (entry_of r ∷ []))))
          λ out' (results, held'). (
            ap₂ (λ x l. x ∷ l) stored results ∙ sym (accepted-suc k r rs),
            subst (Holds out'.1) (append_assoc entries (entry_of r ∷ []) (take k (map entry_of rs)))
                held',
          )

next_entry :
    (xs ys zs : List TwinCallback) (y : TwinCallback)
    → entry_at (xs ++ ((y ∷ ys) ++ zs)) (length xs) ≡ ok y
unfolding entry_at
next_entry [] ys zs y = refl
next_entry (x ∷ xs) ys zs y = next_entry xs ys zs y

take-map : (k : ℕ) (rs : List Registration) → take k (map entry_of rs) ≡ map entry_of (take k rs)
take-map zero rs = refl
take-map (suc k) [] = refl
take-map (suc k) (r ∷ rs) = ap (λ l. entry_of r ∷ l) (take-map k rs)

module _ {Value Object : Type 0} (json : Json Value Object) where
  -- The calls for a list of entries, in their order.
  calls_of : Option Object → List TwinCallback → List (Invocation Value)
  calls_of desired [] = []
  calls_of desired (entry ∷ entries) = invoke json desired entry ++ calls_of desired entries

  looped :
      (desired : Option Object) (xs ys zs : List TwinCallback)
      → invoke_loop json desired (xs ++ (ys ++ zs)) (length xs) (length ys)
        ≡ ok (calls_of desired ys)
  unfolding invoke_loop calls_of
  looped desired xs [] zs = refl
  looped desired xs (y ∷ ys) zs =
      let moved : xs ++ (y ∷ (ys ++ zs)) ≡ (xs ++ (y ∷ [])) ++ (ys ++ zs) =
        sym (append_assoc xs (y ∷ []) (ys ++ zs)) in
      let one_more : length xs + 1 ≡ length (xs ++ (y ∷ [])) =
        omega (arith, length-append xs (y ∷ [])) in
      let rest : invoke_loop json desired (xs ++ (y ∷ (ys ++ zs))) (length xs + 1) (length ys)
          ≡ ok (calls_of desired ys) =
        ap₂ (λ l i. invoke_loop json desired l i (length ys)) moved one_more
        ∙ looped desired (xs ++ (y ∷ [])) ys zs in
      rw (next_entry xs ys zs y, rest) refl

  held_calls :
      (payload : List ℕ) (root : Value) (t : TwinTable) (entries : List TwinCallback)
      → json.json_parse_string (payload ++ (0 ∷ [])) ≡ some root
      → Holds t entries
      → twin_callback json true payload t
        ≡ ok (some (calls_of (desired_properties json root) entries))
  unfolding twin_callback
  held_calls payload root t entries parsed h =
      let desired = desired_properties json root in
      let whole : entries ++ drop t.num_callbacks_set t.twin_callback_array
          ≡ t.twin_callback_array =
        ap (λ l. l ++ drop t.num_callbacks_set t.twin_callback_array) (sym h.in_front)
        ∙ take-append-drop t.num_callbacks_set t.twin_callback_array in
      let all : invoke_loop json desired t.twin_callback_array 0 t.num_callbacks_set
          ≡ ok (calls_of desired entries) =
        ap₂ (λ l n. invoke_loop json desired l 0 n) (sym whole) h.counted
        ∙ looped desired [] entries (drop t.num_callbacks_set t.twin_callback_array) in
      rw (parsed, all) refl

  call_if_given_lem :
      (f context : ℕ) (v : Option Value)
      → call_if_given json f v context ≡ call_for true (some f) v context
  unfolding call_if_given call_for
  call_if_given_lem f context none = refl
  call_if_given_lem f context (some v) = refl

  invoke_lem :
      (desired : Option Object) (copies : Bool) (name : List ℕ) (callback : Option ℕ) (context : ℕ)
      → invoke json desired (
          entry_of
            (record { copies = copies; name = name; callback = callback; context = context }))
        ≡ call_for copies callback (json.json_object_get_value desired name) context
  unfolding entry_of invoke call_for
  invoke_lem desired false name callback context = refl
  invoke_lem desired true name none context = refl
  invoke_lem desired true name (some f) context =
      call_if_given_lem f context (json.json_object_get_value desired name)

  calls_of_lem :
      (desired : Option Object) (rs : List Registration)
      → calls_of desired (map entry_of rs) ≡ calls_for (json.json_object_get_value desired) rs
  unfolding calls_of calls_for
  calls_of_lem desired [] = refl
  calls_of_lem desired (r ∷ rs) =
      ap₂ (λ c l. c ++ l) (invoke_lem desired r.copies r.name r.callback r.context)
        (calls_of_lem desired rs)

  desired_properties_lem :
      (root : Value) (desired : Option Object)
      → Desired json root desired
      → desired_properties json root ≡ desired
  unfolding desired_properties choose_object
  desired_properties_lem root desired (inside object e) = rw e refl
  desired_properties_lem root desired (whole e) = rw e refl

  -- For every list of calls of `AzureIoT_AddTwinUpdateCallback` after start-up: the first ten
  -- return true and the others false. For an update of the twin whose text can be parsed, when
  -- there is memory for it, `AzureIoT_TwinCallback` then calls, in the order of the registrations,
  -- the callbacks of those among the first ten whose name could be copied, that have a callback and
  -- whose name has a value in the desired properties, each with this value and its context, and
  -- nothing else. The desired properties are the object "desired" of the document, or the document
  -- itself if it has none.
  pub twin_callback-register_all :
      (registrations : List Registration) (payload : List ℕ) (root : Value)
      (desired : Option Object)
      → json.json_parse_string (payload ++ (0 ∷ [])) ≡ some root
      → Desired json root desired
      → Returns
          (λ out.
            (out.0 ≡ accepted 10 registrations)
            × (twin_callback json true payload out.1
                ≡ ok (
                    some (calls_for (json.json_object_get_value desired) (take 10 registrations)))))
          (register_all registrations initial_table)
  unfolding initial_table
  twin_callback-register_all registrations payload root desired parsed wanted =
      let empty : Holds initial_table [] = record { ten = refl; counted = refl; in_front = refl } in
      let entries = take 10 (map entry_of registrations) in
      let same : calls_of (desired_properties json root) entries
          ≡ calls_for (json.json_object_get_value desired) (take 10 registrations) =
        ap₂ calls_of (desired_properties_lem root desired wanted) (take-map 10 registrations)
        ∙ calls_of_lem desired (take 10 registrations) in
      Returns-imp (λ out. (out.0 ≡ accepted 10 registrations) × Holds out.1 entries) _
        (register_all registrations initial_table)
        (registered registrations 10 initial_table [] empty refl)
        λ out (results, held).
          (results, held_calls payload root out.1 entries parsed held ∙ ap (λ c. ok (some c)) same)
