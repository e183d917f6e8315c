-- ===== src/AzureIot/Client.antt =====
-- The connection of azure_iot.c to the hub, its telemetry and its reports.
use modbus_sphere_library.Base.{
  ℕ, ◌*◌, List, [], ◌∷◌, ◌++◌, Bool, true, false, not, ◌&&◌, Option, none, some, if◌then◌else◌, ltb,
  ◌==◌,
}

abbrev pub azure_iot_default_poll_period : ℕ
azure_iot_default_poll_period = 5

abbrev pub azure_iot_min_reconnect_period : ℕ
azure_iot_min_reconnect_period = 60

abbrev pub azure_iot_max_reconnect_period : ℕ
azure_iot_max_reconnect_period = 10 * 60

abbrev pub azure_iot_keep_alive_period : ℕ
azure_iot_keep_alive_period = 20

-- The static variables `azureIoTPollPeriodSeconds`, `iothubClientHandle` (`none` for NULL) and
-- `iothubAuthenticated`.
pub record Client : Type 0 where
  pub poll_period : ℕ
  pub iothub_client_handle : Option ℕ
  pub iothub_authenticated : Bool

-- After start-up.
unfoldable pub initial_client : Client
initial_client = record {
  poll_period = azure_iot_default_poll_period;
  iothub_client_handle = none;
  iothub_authenticated = false;
}

-- What the SDK answers to one attempt: whether the result is AZURE_SPHERE_PROV_RESULT_OK, what the
-- handle is then, and whether the option is set.
pub record Provisioning : Type 0 where
  pub provisioned : Bool
  pub created : Option ℕ
  pub option_set : Bool

-- What is asked of the SDK and of the timer; `create_client` has the handle that is given,
-- `create_message` the message.
pub data Call : Type 0 where
  destroy_client : Option ℕ → Call
  create_client : Option ℕ → Call
  set_timer : ℕ → Call
  set_keep_alive : Option ℕ → ℕ → Call
  set_message_callback set_device_twin_callback set_connection_status_callback : Option ℕ → Call
  do_work send_reported_state : Option ℕ → Call
  create_message destroy_message : Option ℕ → Call
  send_event : Option ℕ → Option ℕ → Call

-- The period after a failure.
unfoldable pub next_poll_period : ℕ → ℕ
next_poll_period period =
    if period == azure_iot_default_poll_period
    then azure_iot_min_reconnect_period
    else let doubled = period * 2 in
      if ltb azure_iot_max_reconnect_period doubled then azure_iot_max_reconnect_period else doubled

-- The old client, if there is one.
unfoldable pub destroy_old : Option ℕ → List Call
destroy_old none = []
destroy_old (some handle) = destroy_client (some handle) ∷ []

-- The attempt itself.
unfoldable pub create : Provisioning → Client → Client × List Call
unfolding next_poll_period
create p c =
    if p.provisioned
    then (
      record c { iothub_client_handle = p.created; iothub_authenticated = true },
      create_client p.created
          ∷ set_timer azure_iot_default_poll_period
          ∷ set_keep_alive p.created azure_iot_keep_alive_period
          ∷ (if p.option_set
              then set_message_callback p.created
                ∷ set_device_twin_callback p.created
                ∷ set_connection_status_callback p.created
                ∷ []
              else []),
    )
    else let period = next_poll_period c.poll_period in
      (
        record c { poll_period = period; iothub_client_handle = p.created },
        create_client p.created ∷ set_timer period ∷ [],
      )

unfoldable pub is_some : Option ℕ → Bool
is_some none = false
is_some (some handle) = true

unfoldable pub setup_client : Provisioning → Client → Client × List Call
unfolding destroy_old create is_some
setup_client p c =
    if c.iothub_authenticated && is_some c.iothub_client_handle
    then (c, [])
    else let (c', calls) = create p c in (c', destroy_old c.iothub_client_handle ++ calls)

-- `authenticated`: the status is IOTHUB_CLIENT_CONNECTION_AUTHENTICATED.
unfoldable pub connection_status_callback : Bool → Client → Client
connection_status_callback authenticated c = record c { iothub_authenticated = authenticated }

-- The statuses that the SDK reports while it works, in order.
unfoldable pub report_statuses : List Bool → Client → Client
unfolding connection_status_callback
report_statuses [] c = c
report_statuses (status ∷ statuses) c =
    report_statuses statuses (connection_status_callback status c)

-- `network`: `none` if `Networking_IsNetworkingReady` fails.
unfoldable pub connect_if_ready : Option Bool → Provisioning → Client → Client × List Call
unfolding setup_client
connect_if_ready none p c = (c, [])
connect_if_ready (some is_network_ready) p c =
    if is_network_ready && not c.iothub_authenticated then setup_client p c else (c, [])

unfoldable pub event_handler : Option Bool → Provisioning → List Bool → Client → Client × List Call
unfolding connect_if_ready report_statuses
event_handler network p statuses c =
    let (c', calls) = connect_if_ready network p c in
    if c'.iothub_authenticated
    then (report_statuses statuses c', calls ++ (do_work c'.iothub_client_handle ∷ []))
    else (c', calls)

-- The message that `IoTHubMessage_CreateFromString` gives, `none` for 0. Whether the client
-- accepts it is only logged.
unfoldable pub send_message : Option ℕ → Client → List Call
send_message none c = create_message none ∷ []
send_message (some message) c =
    create_message (some message)
    ∷ send_event c.iothub_client_handle (some message)
    ∷ destroy_message (some message)
    ∷ []

unfoldable pub twin_report_state : Client → List Call
unfolding is_some
twin_report_state c =
    if is_some c.iothub_client_handle then send_reported_state c.iothub_client_handle ∷ [] else []

-- One use of the connection by the application.
pub data Use : Type 0 where
  timer : Option Bool → Provisioning → List Bool → Use
  message : Option ℕ → Use
  report : Use

unfoldable pub run_use : Use → Client → Client × List Call
unfolding event_handler send_message twin_report_state
run_use (timer network p statuses) c = event_handler network p statuses c
run_use (message created) c = (c, send_message created c)
run_use report c = (c, twin_report_state c)

unfoldable pub run_uses : List Use → Client → Client × List Call
unfolding run_use
run_uses [] c = (c, [])
run_uses (use_now ∷ uses) c =
    let (c', calls) = run_use use_now c in
    let (c'', calls') = run_uses uses c' in (c'', calls ++ calls')
