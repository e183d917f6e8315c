-- ===== src/AzureIot/Safety.antt =====
-- azure_iot.c uses only objects of the SDK that are live, whatever the application asks of it.
use modbus_sphere_library.Base.{
  ℕ, ◌≡◌, inl, inr, refl, List, [], ◌∷◌, ◌++◌, Bool, true, false, not, ◌&&◌, Option, none, some,
  if◌then◌else◌, ◌==◌, arith, ◌∙◌,
}
use modbus_sphere_library.AzureIot.Client.{
  Client, Provisioning, Call, do_work, is_some, create, destroy_old, setup_client, connect_if_ready,
  report_statuses, connection_status_callback, event_handler, send_message, twin_report_state, Use,
  timer, message, report, run_use, run_uses,
}
use modbus_sphere_library.AzureIot.Calls.{
  Live, same_handle, if_live, after_call, after_calls, after_calls-append, live, IsConnected,
  AreDocumented,
}

-- The calls lead from the live client of one state to that of the next.
abbrev Leads : Client → Client × List Call → Type 0
Leads c (c', calls) =
    IsConnected c'
    × (after_calls calls (live c.iothub_client_handle) ≡ some (live c'.iothub_client_handle))

same_self : (h : ℕ) → (h == h) ≡ true
same_self h = ground arith

if_live_self :
    (h : ℕ) (m : Option ℕ)
    → let l : Live = record { client = some h; held_message = m } in if_live (some h) l ≡ some l
unfolding if_live same_handle
if_live_self h m = rw (same_self h) refl

setup_client-Leads :
    (period : ℕ) (handle : Option ℕ) (authenticated provisioned : Bool) (created : Option ℕ)
    (option_set : Bool)
    → is_some created ≡ provisioned
    → let c : Client = record {
      poll_period = period;
      iothub_client_handle = handle;
      iothub_authenticated = authenticated;
    } in
      IsConnected c
      → Leads c (
          setup_client
            (record { provisioned = provisioned; created = created; option_set = option_set })
            c)
unfolding setup_client create destroy_old after_calls after_call is_some live same_handle
setup_client-Leads period (some h) true provisioned created option_set d i = (inr refl, refl)
setup_client-Leads period none true provisioned created option_set d (inl e) = absurd (cc e)
setup_client-Leads period none true provisioned created option_set d (inr e) = absurd (cc e)
setup_client-Leads period none false true none option_set d i = absurd (cc d)
setup_client-Leads period (some h) false true none option_set d i = absurd (cc d)
setup_client-Leads period none false false (some k) option_set d i = absurd (cc d)
setup_client-Leads period (some h) false false (some k) option_set d i = absurd (cc d)
setup_client-Leads period none false false none option_set d i = (inl refl, refl)
setup_client-Leads period (some h) false false none option_set d i =
    (inl refl, rw (same_self h) refl)
setup_client-Leads period none false true (some k) true d i = (
  inr refl,
  rw (if_live_self k none, if_live_self k none, if_live_self k none, if_live_self k none) refl,
)
setup_client-Leads period none false true (some k) false d i =
    (inr refl, rw (if_live_self k none) refl)
setup_client-Leads period (some h) false true (some k) true d i = (
  inr refl,
  rw
      (
        same_self h,
        if_live_self k none,
        if_live_self k none,
        if_live_self k none,
        if_live_self k none,
      )
      refl,
)
setup_client-Leads period (some h) false true (some k) false d i =
    (inr refl, rw (same_self h, if_live_self k none) refl)

report_statuses-IsConnected :
    (statuses : List Bool) (c : Client)
    → is_some c.iothub_client_handle ≡ true
    → ((report_statuses statuses c).iothub_client_handle ≡ c.iothub_client_handle)
      × IsConnected (report_statuses statuses c)
unfolding report_statuses connection_status_callback
report_statuses-IsConnected [] c h = (refl, inr h)
report_statuses-IsConnected (status ∷ statuses) c h =
    report_statuses-IsConnected statuses (record c { iothub_authenticated = status }) h

work_live :
    (handle : Option ℕ)
    → is_some handle ≡ true
    → after_calls (do_work handle ∷ []) (live handle) ≡ some (live handle)
unfolding is_some after_calls live after_call
work_live none h = absurd (cc h)
work_live (some k) h = rw (if_live_self k none) refl

module _ (c : Client) where
  Leads-if :
      (b : Bool) (m n : Client × List Call)
      → (b ≡ true → Leads c m)
      → Leads c n
      → Leads c (if b then m else n)
  Leads-if true m n f g = f refl
  Leads-if false m n f g = g

  worked :
      (c' : Client) (calls : List Call) (statuses : List Bool)
      → Leads c (c', calls)
      → c'.iothub_authenticated ≡ true
      → Leads c (report_statuses statuses c', calls ++ (do_work c'.iothub_client_handle ∷ []))
  worked c' calls statuses (i, leads) e =
      let given : is_some c'.iothub_client_handle ≡ true = elim i [
        | inl off ↦ absurd (cc (e, off))
        | inr given ↦ given
      ] in
      let (same, i') = report_statuses-IsConnected statuses c' given in
      (
        i',
        rw same (
            after_calls-append calls (do_work c'.iothub_client_handle ∷ [])
              (live c.iothub_client_handle) (live c'.iothub_client_handle) leads
            ∙ work_live c'.iothub_client_handle given),
      )

  connect_if_ready-Leads :
      (network : Option Bool) (p : Provisioning)
      → is_some p.created ≡ p.provisioned
      → IsConnected c
      → Leads c (connect_if_ready network p c)
  unfolding connect_if_ready after_calls
  connect_if_ready-Leads none p d i = (i, refl)
  connect_if_ready-Leads (some ready) p d i =
      Leads-if (ready && not c.iothub_authenticated) (setup_client p c) (c, [])
        (λ e.
          setup_client-Leads c.poll_period c.iothub_client_handle c.iothub_authenticated
            p.provisioned p.created p.option_set d i)
        (i, refl)

  event_handler-Leads :
      (network : Option Bool) (p : Provisioning) (statuses : List Bool)
      → is_some p.created ≡ p.provisioned
      → IsConnected c
      → Leads c (event_handler network p statuses c)
  unfolding event_handler
  event_handler-Leads network p statuses d i =
      let start = connect_if_ready network p c in
      let leads = connect_if_ready-Leads network p d i in
      Leads-if start.0.iothub_authenticated _ start (worked start.0 start.1 statuses leads) leads

message_live :
    (handle m : Option ℕ) (period : ℕ) (authenticated : Bool)
    → let c : Client = record {
      poll_period = period;
      iothub_client_handle = handle;
      iothub_authenticated = authenticated;
    } in
      after_calls (send_message m c) (live handle) ≡ some (live handle)
unfolding send_message after_calls after_call live is_some same_handle
message_live handle none period authenticated = refl
message_live none (some m) period authenticated = rw (same_self m, same_self m) refl
message_live (some h) (some m) period authenticated =
    rw (same_self h, same_self m, same_self m) refl

report_live :
    (handle : Option ℕ) (period : ℕ) (authenticated : Bool)
    → let c : Client = record {
      poll_period = period;
      iothub_client_handle = handle;
      iothub_authenticated = authenticated;
    } in
      after_calls (twin_report_state c) (live handle) ≡ some (live handle)
unfolding twin_report_state after_calls after_call live is_some
report_live none period authenticated = refl
report_live (some h) period authenticated = rw (if_live_self h none) refl

-- For a state in which a client is in the handle if the hub is taken to be authenticated, and any
-- sequence of timer events, messages and reports in which the SDK gives a client exactly when it
-- reports success: no call uses, or destroys, a client or a message that has been destroyed or was
-- never created, or creates one while another one is live; after the sequence the client in the
-- handle is the one that is live, no message is, and the first condition holds again.
pub run_uses-Leads :
    (uses : List Use) (c : Client)
    → AreDocumented uses
    → IsConnected c
    → IsConnected (run_uses uses c).0
      × (after_calls (run_uses uses c).1 (live c.iothub_client_handle)
          ≡ some (live (run_uses uses c).0.iothub_client_handle))
unfolding run_uses run_use after_calls
run_uses-Leads [] c d i = (i, refl)
run_uses-Leads (timer network p statuses ∷ uses) c (d, ds) i =
    let (i', leads) = event_handler-Leads c network p statuses d i in
    let next = event_handler network p statuses c in
    let (i'', leads') = run_uses-Leads uses next.0 ds i' in
    (
      i'',
      after_calls-append next.1 (run_uses uses next.0).1 (live c.iothub_client_handle)
            (live next.0.iothub_client_handle) leads
          ∙ leads',
    )
run_uses-Leads (message m ∷ uses) c d i =
    let (i', leads) = run_uses-Leads uses c d i in
    (
      i',
      after_calls-append (send_message m c) (run_uses uses c).1 (live c.iothub_client_handle)
            (live c.iothub_client_handle)
            (message_live c.iothub_client_handle m c.poll_period c.iothub_authenticated)
          ∙ leads,
    )
run_uses-Leads (report ∷ uses) c d i =
    let (i', leads) = run_uses-Leads uses c d i in
    (
      i',
      after_calls-append (twin_report_state c) (run_uses uses c).1 (live c.iothub_client_handle)
            (live c.iothub_client_handle)
            (report_live c.iothub_client_handle c.poll_period c.iothub_authenticated)
          ∙ leads,
    )
