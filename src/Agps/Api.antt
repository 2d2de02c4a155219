-- ===== src/Agps/Api.antt =====
-- The operations that the engine calls on a state machine.
use android_device_samsung_a.Base.{
  ℕ, Bool, true, false, ◌&&◌, Option, none, some, List, [], take, if◌then◌else◌,
}
use android_device_samsung_a.Agps.Subscriber.{
  RsrcStatus, subscribe, unsubscribe, granted, released, denied, status_max, Subscriber,
  broadcast_all, broadcast, to_one,
}
use android_device_samsung_a.Agps.Machine.{
  Env, Machine, State, released_state, pending_state, acquired_state, releasing_state, ServicerType,
  request_supl_es, emit, notify_subscriber, find_for, first_active, has_subscribers, Code,
  type_invalid, bearer_invalid,
}
use android_device_samsung_a.Agps.States.{dispatch}

-- The constructors.
abbrev pub new_machine : ServicerType → (nif_type : Code) → (enforce_single : Bool) → Machine
new_machine servicer nif_type enforce_single = record {
  is_ds = false;
  state = released_state;
  nif_type = nif_type;
  apn = none;
  apn_len = 0;
  bearer = bearer_invalid;
  enforce_single = enforce_single;
  servicer = servicer;
  subscribers = [];
  retries = 0;
  next_addr = 1;
  log = [];
}

abbrev pub new_ds_machine : ServicerType → Machine
new_ds_machine servicer = record (new_machine servicer type_invalid false) { is_ds = true }

-- `setAPN`: the first `len` bytes of `apn`, which has as many.
unfoldable pub set_apn : Option (List ℕ) → ℕ → Machine → Machine
set_apn none len m = record m { apn = none; apn_len = 0 }
set_apn (some text) len m = record m { apn = some (take len text); apn_len = len }

-- `setBearer`
abbrev pub set_bearer : Code → Machine → Machine
set_bearer bearer m = record m { bearer = bearer }

abbrev pub same_state : State → State → Bool
same_state released_state released_state = true
same_state pending_state pending_state = true
same_state acquired_state acquired_state = true
same_state releasing_state releasing_state = true
same_state a b = false

module _ (env : Env) where
  -- `AgpsStateMachine::onRsrcEvent`
  unfoldable pub base_on_rsrc_event : RsrcStatus → Machine → Machine
  base_on_rsrc_event granted m = dispatch env granted none m
  base_on_rsrc_event released m = dispatch env released none m
  base_on_rsrc_event denied m = dispatch env denied none m
  base_on_rsrc_event subscribe m = m
  base_on_rsrc_event unsubscribe m = m
  base_on_rsrc_event status_max m = m

  -- `DSStateMachine::onRsrcEvent`: a RELEASED that leaves the state is taken for a DENIED.
  unfoldable pub ds_on_rsrc_event : RsrcStatus → Machine → Machine
  ds_on_rsrc_event granted m = dispatch env granted none m
  ds_on_rsrc_event released m =
      let m1 = dispatch env released none m in
      if same_state m1.state m.state then dispatch env denied none m1 else m1
  ds_on_rsrc_event denied m = dispatch env denied none m
  ds_on_rsrc_event subscribe m = m
  ds_on_rsrc_event unsubscribe m = m
  ds_on_rsrc_event status_max m = m

  unfoldable pub on_rsrc_event : RsrcStatus → Machine → Machine
  unfolding base_on_rsrc_event ds_on_rsrc_event
  on_rsrc_event event m = if m.is_ds then ds_on_rsrc_event event m else base_on_rsrc_event event m

  -- `subscribeRsrc`
  unfoldable pub subscribe_rsrc : Subscriber → Machine → Machine
  subscribe_rsrc s m =
      if m.enforce_single && has_subscribers m
      then (notify_subscriber (broadcast broadcast_all denied true) s m).1
      else dispatch env subscribe (some s) m

  -- `unsubscribeRsrc`
  abbrev pub unsubscribe_found : Option Subscriber → Machine → Bool × Machine
  unsubscribe_found none m = (false, m)
  unsubscribe_found (some s) m = (true, dispatch env unsubscribe (some s) m)

  unfoldable pub unsubscribe_rsrc : Subscriber → Machine → Bool × Machine
  unsubscribe_rsrc s m = unsubscribe_found (find_for (to_one s) m) m

-- `DSStateMachine::retryCallback`
abbrev pub retry_found : Option Subscriber → Machine → Machine
retry_found none m = m
retry_found (some s) m = emit (request_supl_es s.id) m

unfoldable pub retry_callback : Machine → Machine
retry_callback m = retry_found (first_active m) m

-- `dropAllSubscribers`
abbrev pub drop_all_subscribers : Machine → Machine
drop_all_subscribers m = record m { subscribers = [] }
