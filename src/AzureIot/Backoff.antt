-- ===== src/AzureIot/Backoff.antt =====
-- How often azure_iot.c tries to connect.
use modbus_sphere_library.Base.{
  ℕ, suc, ◌+◌, ◌≡◌, refl, ap, sym, ◌∙◌, List, [], ◌∷◌, ◌++◌, Bool, true, false, not, ◌&&◌, Option,
  none, some, if◌then◌else◌, arith, ap₂, Bool-cases, inl, inr,
}
use modbus_sphere_library.AzureIot.Client.{
  Client, initial_client, Provisioning, Call, do_work, is_some, create, destroy_old, setup_client,
  connect_if_ready, report_statuses, connection_status_callback, event_handler, send_message,
  twin_report_state, Use, timer, message, report, run_use, run_uses, next_poll_period,
}
use modbus_sphere_library.AzureIot.Calls.{AreDocumented}
use modbus_sphere_library.AzureIot.Attempts.{
  backoff, attempts, periods, expected_periods, failed, attempt_of, period_of, filter_map-append,
  expected_periods-append, failed-append, next_poll_period-backoff,
}

-- The calls set the timer as the attempts among them ask for, after `k` failures.
abbrev Paces : ℕ → Client × List Call → Type 0
Paces k (c, calls) =
    (periods calls ≡ expected_periods k (attempts calls))
    × (c.poll_period ≡ backoff (k + failed (attempts calls)))

plus_one : (k : ℕ) → suc k ≡ k + 1
plus_one k = omega arith

create-Paces :
    (k : ℕ) (c : Client) (provisioned : Bool) (created : Option ℕ) (option_set : Bool)
    → is_some created ≡ provisioned
    → c.poll_period ≡ backoff k
    → Paces k (
        create (record { provisioned = provisioned; created = created; option_set = option_set }) c)
unfolding create is_some attempts periods expected_periods failed
create-Paces k c true none option_set d e = absurd (cc d)
create-Paces k c false (some h) option_set d e = absurd (cc d)
create-Paces k c true (some h) true d e = (refl, e ∙ ap backoff (omega arith))
create-Paces k c true (some h) false d e = (refl, e ∙ ap backoff (omega arith))
create-Paces k c false none option_set d e =
    let next : next_poll_period c.poll_period ≡ backoff (suc k) =
      ap next_poll_period e ∙ next_poll_period-backoff k in
    (ap (λ p. p ∷ []) next, next ∙ ap backoff (plus_one k))

-- Calls that make no attempt keep the pace.
unmoved : (k : ℕ) (c : Client) → c.poll_period ≡ backoff k → c.poll_period ≡ backoff (k + 0)
unmoved k c e = e ∙ ap backoff (omega arith)

followed :
    (k : ℕ) (c c' : Client) (xs ys : List Call)
    → Paces k (c, xs)
    → Paces (k + failed (attempts xs)) (c', ys)
    → Paces k (c', xs ++ ys)
unfolding attempts periods
followed k c c' xs ys (p, e) (p', e') =
    let split = filter_map-append attempt_of xs ys in
    (
      filter_map-append period_of xs ys
          ∙ ap₂ (λ a b. a ++ b) p p'
          ∙ sym (expected_periods-append k (attempts xs) (attempts ys))
          ∙ ap (expected_periods k) (sym split),
      e' ∙ ap backoff (omega (arith, failed-append (attempts xs) (attempts ys), ap failed split)),
    )

Paces-if :
    (k : ℕ) (b : Bool) (m n : Client × List Call)
    → Paces k m
    → Paces k n
    → Paces k (if b then m else n)
Paces-if k true m n f g = f
Paces-if k false m n f g = g

old_destroyed :
    (k : ℕ) (handle : Option ℕ) (c : Client) (calls : List Call)
    → Paces k (c, calls)
    → Paces k (c, destroy_old handle ++ calls)
unfolding destroy_old attempts periods
old_destroyed k none c calls p = p
old_destroyed k (some h) c calls p = p

report_statuses-poll_period :
    (statuses : List Bool) (c : Client) → (report_statuses statuses c).poll_period ≡ c.poll_period
unfolding report_statuses connection_status_callback
report_statuses-poll_period [] c = refl
report_statuses-poll_period (status ∷ statuses) c =
    report_statuses-poll_period statuses (record c { iothub_authenticated = status })

module _ (k : ℕ) (c : Client) (e : c.poll_period ≡ backoff k) where
  connect_if_ready-Paces :
      (network : Option Bool) (p : Provisioning)
      → is_some p.created ≡ p.provisioned
      → Paces k (connect_if_ready network p c)
  unfolding connect_if_ready setup_client attempts periods expected_periods failed
  connect_if_ready-Paces none p d = (refl, unmoved k c e)
  connect_if_ready-Paces (some ready) p d =
      Paces-if k (ready && not c.iothub_authenticated) (setup_client p c) (c, [])
        (Paces-if k (c.iothub_authenticated && is_some c.iothub_client_handle) (c, []) _
          (refl, unmoved k c e)
          (old_destroyed k c.iothub_client_handle (create p c).0 (create p c).1
            (create-Paces k c p.provisioned p.created p.option_set d e)))
        (refl, unmoved k c e)

  event_handler-Paces :
      (network : Option Bool) (p : Provisioning) (statuses : List Bool)
      → is_some p.created ≡ p.provisioned
      → Paces k (event_handler network p statuses c)
  unfolding event_handler attempts periods expected_periods failed
  event_handler-Paces network p statuses d =
      let start = connect_if_ready network p c in
      let paces = connect_if_ready-Paces network p d in
      Paces-if k start.0.iothub_authenticated _ start
        (followed k start.0 (report_statuses statuses start.0) start.1
          (do_work start.0.iothub_client_handle ∷ []) paces
          (
            refl,
            report_statuses-poll_period statuses start.0
                ∙ unmoved (k + failed (attempts start.1)) start.0 paces.1,
          ))
        paces

  message-Paces : (m : Option ℕ) → Paces k (c, send_message m c)
  unfolding send_message attempts periods expected_periods failed
  message-Paces none = (refl, unmoved k c e)
  message-Paces (some m) = (refl, unmoved k c e)

  report-Paces : Paces k (c, twin_report_state c)
  unfolding twin_report_state attempts periods expected_periods failed
  report-Paces = elim (Bool-cases (is_some c.iothub_client_handle)) [
    | inl given ↦ rw given (refl, unmoved k c e)
    | inr null ↦ rw null (refl, unmoved k c e)
  ]

uses-Paces :
    (uses : List Use) (k : ℕ) (c : Client)
    → c.poll_period ≡ backoff k
    → AreDocumented uses
    → Paces k (run_uses uses c)
unfolding run_uses run_use attempts periods expected_periods failed
uses-Paces [] k c e d = (refl, unmoved k c e)
uses-Paces (timer network p statuses ∷ uses) k c e (d, ds) =
    let next = event_handler network p statuses c in
    let paces = event_handler-Paces k c e network p statuses d in
    followed k next.0 (run_uses uses next.0).0 next.1 (run_uses uses next.0).1 paces
      (uses-Paces uses (k + failed (attempts next.1)) next.0 paces.1 ds)
uses-Paces (message m ∷ uses) k c e d =
    let paces = message-Paces k c e m in
    followed k c (run_uses uses c).0 (send_message m c) (run_uses uses c).1 paces
      (uses-Paces uses (k + failed (attempts (send_message m c))) c paces.1 d)
uses-Paces (report ∷ uses) k c e d =
    let paces = report-Paces k c e in
    followed k c (run_uses uses c).0 (twin_report_state c) (run_uses uses c).1 paces
      (uses-Paces uses (k + failed (attempts (twin_report_state c))) c paces.1 d)

-- From start-up, for any sequence of timer events, messages and reports in which the SDK gives a
-- client exactly when it reports success: every attempt to connect sets the timer once, to 5
-- seconds if it succeeds, and to 60, 120, 240, 480 and from then on 600 seconds if it is the first,
-- second, third, fourth or a later failure since start-up, whatever succeeded in between.
pub run_uses-expected_periods :
    (uses : List Use)
    → AreDocumented uses
    → periods (run_uses uses initial_client).1
      ≡ expected_periods 0 (attempts (run_uses uses initial_client).1)
unfolding initial_client backoff
run_uses-expected_periods uses d = (uses-Paces uses 0 initial_client refl d).0
