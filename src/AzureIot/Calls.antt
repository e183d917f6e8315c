-- ===== src/AzureIot/Calls.antt =====
-- Which objects of the SDK azure_iot.c uses: the connection's handle, and the messages.
use modbus_sphere_library.Base.{
  ℕ, ◌≡◌, ◌⊎◌, List, [], ◌∷◌, ◌++◌, Bool, true, false, not, ◌&&◌, ◌||◌, Option, none, some,
  if◌then◌else◌, ◌==◌, ap,
}
use modbus_sphere_library.AzureIot.Client.{
  Client, Call, destroy_client, create_client, set_timer, set_keep_alive, set_message_callback,
  set_device_twin_callback, set_connection_status_callback, do_work, send_reported_state,
  create_message, destroy_message, send_event, is_some, Use, timer, message, report,
}

-- The client and the message that have been created and not destroyed.
pub record Live : Type 0 where
  pub client : Option ℕ
  pub held_message : Option ℕ

unfoldable pub same_handle : Option ℕ → Option ℕ → Bool
same_handle none b = false
same_handle (some a) none = false
same_handle (some a) (some b) = a == b

-- The call uses the live client.
unfoldable pub if_live : Option ℕ → Live → Option Live
if_live handle l = if same_handle handle l.client then some l else none

-- `none` for a call on an object that is not live, and for a client or a message that is created
-- while another one is live. `IoTHubDeviceClient_LL_SendEventAsync` also takes NULL, and fails.
unfoldable pub after_call : Call → Live → Option Live
unfolding same_handle if_live is_some
after_call (destroy_client h) l =
    if same_handle h l.client then some (record l { client = none }) else none
after_call (create_client none) l = some l
after_call (create_client (some h)) l =
    if is_some l.client then none else some (record l { client = some h })
after_call (set_timer seconds) l = some l
after_call (set_keep_alive h seconds) l = if_live h l
after_call (set_message_callback h) l = if_live h l
after_call (set_device_twin_callback h) l = if_live h l
after_call (set_connection_status_callback h) l = if_live h l
after_call (do_work h) l = if_live h l
after_call (send_reported_state h) l = if_live h l
after_call (create_message none) l = some l
after_call (create_message (some m)) l =
    if is_some l.held_message then none else some (record l { held_message = some m })
after_call (destroy_message m) l =
    if same_handle m l.held_message then some (record l { held_message = none }) else none
after_call (send_event h m) l =
    if (not (is_some h) || same_handle h l.client) && same_handle m l.held_message
    then some l
    else none

abbrev pub then_call : Option Live → (Live → Option Live) → Option Live
then_call none next = none
then_call (some l) next = next l

unfoldable pub after_calls : List Call → Live → Option Live
unfolding after_call
after_calls [] l = some l
after_calls (call ∷ calls) l = then_call (after_call call l) (after_calls calls)

then_call_lem :
    (o : Option Live) (f g : Live → Option Live) (l' : Live) (r : Option Live)
    → ((k : Live) → f k ≡ some l' → g k ≡ r)
    → then_call o f ≡ some l'
    → then_call o g ≡ r
then_call_lem none f g l' r next h = absurd (cc h)
then_call_lem (some k) f g l' r next h = next k h

pub after_calls-append :
    (xs ys : List Call) (l l' : Live)
    → after_calls xs l ≡ some l'
    → after_calls (xs ++ ys) l ≡ after_calls ys l'
unfolding after_calls
after_calls-append [] ys l l' h = ap (λ o. then_call o (after_calls ys)) h
after_calls-append (x ∷ xs) ys l l' h =
    then_call_lem (after_call x l) (after_calls xs) (after_calls (xs ++ ys)) l' (after_calls ys l')
      (λ k. after_calls-append xs ys k l') h

-- No message is live; the live client is the one in the handle.
unfoldable pub live : Option ℕ → Live
live handle = record { client = handle; held_message = none }

-- A client is in the handle as long as the hub is taken to be authenticated.
abbrev pub IsConnected : Client → Type 0
IsConnected c = (c.iothub_authenticated ≡ false) ⊎ (is_some c.iothub_client_handle ≡ true)

-- The SDK gives a client if, and only if, it reports success; the handle is NULL otherwise.
abbrev pub AreDocumented : List Use → Type 0
AreDocumented [] = Unit {0}
AreDocumented (timer network p statuses ∷ uses) =
    (is_some p.created ≡ p.provisioned) × AreDocumented uses
AreDocumented (message created ∷ uses) = AreDocumented uses
AreDocumented (report ∷ uses) = AreDocumented uses
