-- ===== src/Agps/Machine.antt =====
-- The state machine object, what it calls, and what a subscriber does with a notification.
use android_device_samsung_a.Base.{
  ℕ, ◌+◌, ◌%◌, Bool, true, false, ◌&&◌, not, Option, none, some, List, [], ◌∷◌, ltb, if◌then◌else◌,
}
use android_device_samsung_a.LinkedList.Abstract.{find}
use android_device_samsung_a.Agps.Subscriber.{
  RsrcStatus, subscribe, unsubscribe, granted, released, denied, status_max, Kind, bit, atl, wifi,
  ds, Subscriber, Notification, broadcast_active, minus_one, to_group, for_me,
}

-- `AGpsStatusValue`, the two that are requested.
pub data StatusValue : Type 0 where
  request_data_conn release_data_conn : StatusValue

-- `mReleasedState` and the other three `AgpsState` objects.
pub data State : Type 0 where
  released_state pending_state acquired_state releasing_state : State

pub data ConnStatus : Type 0 where
  release_success failure request_success : ConnStatus

-- `servicerType`
pub data ServicerType : Type 0 where
  no_cb_param agps ext : ServicerType

-- A number that the caller gave, or a constant of a header outside the repository by its name:
-- `AGPS_TYPE_INVALID`, `AGPS_APN_BEARER_INVALID`, `LOC_ENG_IF_REQUEST_SENDER_ID_GPSONE_DAEMON`.
pub data Code : Type 0 where
  type_invalid bearer_invalid gpsone_daemon : Code
  value : ℕ → Code

-- `AGpsExtStatus` without its addresses: the SSID and the password are the active subscriber's.
pub record Request : Type 0 where
  pub nif_type : Code
  pub status : StatusValue
  pub ssid : Option (List ℕ)
  pub password : Option (List ℕ)

-- The calls that leave the machine, and one event that is none: the machine reads a `Subscriber`
-- object that it has deleted.
pub data Effect : Type 0 where
  server_data_conn : (sender : Code) → ConnStatus → Effect
  atl_close_status : (id : ℕ) → Effect
  atl_open_status :
      (id : ℕ) (is_succ : Bool) (apn : Option (List ℕ)) (bearer nif_type : Code) → Effect
  request_rsrc : Request → Effect
  ds_callback : StatusValue → Effect
  -- `requestATL(ID, AGPS_TYPE_SUPL)`
  request_atl : (id : ℕ) → Effect
  close_data_call : Effect
  request_supl_es : (id : ℕ) → Effect
  start_timer : Effect
  read_freed : (addr : ℕ) → Effect

-- What the callback of an `ExtServicer` returns, by the constants that the source tests.
pub data Ret : Type 0 where
  err_success err_engine_busy err_unsupported err_minus_one : Ret
  err_other : ℕ → Ret

-- The outside world answers by the calls made so far, the latest first.
pub record Env : Type 0 where
  pub callback_ext : List Effect → Ret
  pub timer_fails : List Effect → Bool

-- An `AgpsStateMachine`, or a `DSStateMachine` if `is_ds`. `next_addr` is the address of the next
-- object that `new` makes, `log` the calls made, the latest first.
pub record Machine : Type 0 where
  pub is_ds : Bool
  pub state : State
  pub nif_type : Code
  pub apn : Option (List ℕ)
  pub apn_len : ℕ
  pub bearer : Code
  pub enforce_single : Bool
  pub servicer : ServicerType
  pub subscribers : List Subscriber
  pub retries : ℕ
  pub next_addr : ℕ
  pub log : List Effect

abbrev pub max_start_data_call_retries : ℕ
max_start_data_call_retries = 4

abbrev pub emit : Effect → Machine → Machine
emit e m = record m { log = e ∷ m.log }

-- `DSStateMachine::informStatus`
abbrev pub inform_status : RsrcStatus → ℕ → Machine → Machine
inform_status unsubscribe id m = emit (atl_close_status id) m
inform_status released id m = emit close_data_call m
inform_status denied id m = emit (request_atl id) (record m { retries = 0 })
inform_status granted id m = emit (atl_open_status id true none bearer_invalid type_invalid) m
inform_status subscribe id m = m
inform_status status_max id m = m

abbrev pub type_for : Subscriber → Machine → Code
type_for s m = if s.backward_compatible then type_invalid else m.nif_type

-- The switch of each `notifyRsrcStatus`: whether the subscriber was notified, and the machine.
abbrev pub bit_notify : RsrcStatus → Machine → Bool × Machine
bit_notify unsubscribe m = (true, emit (server_data_conn gpsone_daemon release_success) m)
bit_notify released m = (true, emit (server_data_conn gpsone_daemon release_success) m)
bit_notify denied m = (true, emit (server_data_conn gpsone_daemon failure) m)
bit_notify granted m = (true, emit (server_data_conn gpsone_daemon request_success) m)
bit_notify subscribe m = (false, m)
bit_notify status_max m = (false, m)

abbrev pub atl_notify : RsrcStatus → Subscriber → Machine → Bool × Machine
atl_notify unsubscribe s m = (true, emit (atl_close_status s.id) m)
atl_notify released s m = (true, emit (atl_close_status s.id) m)
atl_notify denied s m = (true, emit (atl_open_status s.id false m.apn m.bearer (type_for s m)) m)
atl_notify granted s m = (true, emit (atl_open_status s.id true m.apn m.bearer (type_for s m)) m)
atl_notify subscribe s m = (false, m)
atl_notify status_max s m = (false, m)

abbrev pub wifi_notify : RsrcStatus → Subscriber → Machine → Bool × Machine
wifi_notify unsubscribe s m = (true, m)
wifi_notify released s m = (true, emit (server_data_conn (value s.sender_id) release_success) m)
wifi_notify denied s m = (true, emit (server_data_conn (value s.sender_id) failure) m)
wifi_notify granted s m = (true, emit (server_data_conn (value s.sender_id) request_success) m)
wifi_notify subscribe s m = (false, m)
wifi_notify status_max s m = (false, m)

abbrev pub ds_notify : RsrcStatus → Subscriber → Machine → Bool × Machine
ds_notify subscribe s m = (false, m)
ds_notify status_max s m = (false, m)
ds_notify unsubscribe s m = (true, inform_status unsubscribe s.id m)
ds_notify released s m = (true, inform_status released s.id m)
ds_notify denied s m = (true, inform_status denied s.id m)
ds_notify granted s m = (true, inform_status granted s.id m)

abbrev pub kind_notify : Kind → RsrcStatus → Subscriber → Machine → Bool × Machine
kind_notify bit status s m = bit_notify status m
kind_notify atl status s m = atl_notify status s m
kind_notify wifi status s m = wifi_notify status s m
kind_notify ds status s m = ds_notify status s m

-- `notifyRsrcStatus`
unfoldable pub notify_rsrc_status : Notification → Subscriber → Machine → Bool × Machine
notify_rsrc_status n s m = if for_me n s then kind_notify s.kind n.rsrc_status s m else (false, m)

-- The callback `notifySubscriber`.
unfoldable pub notify_subscriber : Notification → Subscriber → Machine → Bool × Machine
notify_subscriber n s m = let r = notify_rsrc_status n s m in (r.0 && n.post_notify_delete, r.1)

-- A search with the callback `hasSubscriber`.
abbrev pub find_for : Notification → Machine → Option Subscriber
find_for n m = find (for_me n) m.subscribers

abbrev pub first_active : Machine → Option Subscriber
first_active m = find_for (to_group broadcast_active) m

abbrev pub is_some : {A : Type 0} → Option A → Bool
is_some none = false
is_some (some a) = true

-- `hasActiveSubscribers`
abbrev pub has_active_subscribers : Machine → Bool
has_active_subscribers m = is_some (first_active m)

-- `hasSubscribers`
abbrev pub nonempty : {A : Type 0} → List A → Bool
nonempty [] = false
nonempty (x ∷ xs) = true

abbrev pub has_subscribers : Machine → Bool
has_subscribers m = nonempty m.subscribers

-- `setWifiInfo`: only a WIFISubscriber has any; the others write empty texts.
abbrev pub wifi_info : Kind → Option (List ℕ) → Option (List ℕ)
wifi_info wifi text = text
wifi_info bit text = none
wifi_info atl text = none
wifi_info ds text = none

abbrev pub request_for : Machine → StatusValue → Option Subscriber → Request
request_for m action none = record {
  nif_type = m.nif_type;
  status = action;
  ssid = none;
  password = none;
}
request_for m action (some s) = record {
  nif_type = m.nif_type;
  status = action;
  ssid = wifi_info s.kind s.ssid;
  password = wifi_info s.kind s.password;
}

abbrev pub releases : StatusValue → Bool
releases request_data_conn = false
releases release_data_conn = true

abbrev pub same_bool : Bool → Bool → Bool
same_bool true b = b
same_bool false b = not b

-- `AgpsStateMachine::sendRsrcRequest`. The result of the servicer is not used, and 0 is returned.
unfoldable pub base_send_rsrc_request : StatusValue → Machine → Ret × Machine
base_send_rsrc_request action m =
    let s = first_active m in
    (
      err_success,
      if same_bool (not (is_some s)) (releases action)
          then emit (request_rsrc (request_for m action s)) m
          else m,
    )

-- What `Servicer::requestRsrc` returns, by the class of the servicer.
abbrev pub servicer_result : Env → ServicerType → List Effect → Ret
servicer_result env no_cb_param log = err_success
servicer_result env agps log = err_success
servicer_result env ext log = env.callback_ext log

abbrev pub conn_handle : Option Subscriber → ℕ
conn_handle none = minus_one
conn_handle (some s) = s.id

-- The case of a busy engine: the retries are counted, in an `unsigned char`.
abbrev pub ds_busy : Env → ℕ → Machine → Ret × Machine
ds_busy env handle m =
    let m1 = record m { retries = (m.retries + 1) % 256 } in
    let m2 = emit start_timer m1 in
    if ltb max_start_data_call_retries m1.retries
    then (err_engine_busy, inform_status denied handle m1)
    else if env.timer_fails m2.log
    then (err_minus_one, m2)
    else (err_engine_busy, m2)

abbrev pub ds_outcome : Env → Ret → ℕ → Machine → Ret × Machine
ds_outcome env err_engine_busy handle m = ds_busy env handle m
ds_outcome env err_unsupported handle m = (err_unsupported, inform_status denied handle m)
ds_outcome env err_success handle m = (err_success, m)
ds_outcome env err_minus_one handle m = (err_minus_one, inform_status denied handle m)
ds_outcome env (err_other n) handle m = (err_other n, m)

-- `DSStateMachine::sendRsrcRequest`
unfoldable pub ds_send_rsrc_request : Env → StatusValue → Machine → Ret × Machine
ds_send_rsrc_request env action m =
    let m1 = emit (ds_callback action) m in
    ds_outcome env (servicer_result env m.servicer m1.log) (conn_handle (first_active m)) m1

-- The virtual call.
unfoldable pub send_rsrc_request : Env → StatusValue → Machine → Ret × Machine
unfolding base_send_rsrc_request ds_send_rsrc_request
send_rsrc_request env action m =
    if m.is_ds then ds_send_rsrc_request env action m else base_send_rsrc_request action m
