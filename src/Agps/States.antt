-- ===== src/Agps/States.antt =====
-- `onRsrcEvent` of the four states: the next state, and the machine.
use android_device_samsung_a.Base.{Bool, true, false, not, Option, none, some, if◌then◌else◌}
use android_device_samsung_a.Agps.Subscriber.{
  RsrcStatus, subscribe, unsubscribe, granted, released, denied, status_max, Subscriber,
  broadcast_all, broadcast_active, broadcast_inactive, broadcast, notify_one, waits_for_close,
}
use android_device_samsung_a.Agps.Machine.{
  Env, Machine, State, released_state, pending_state, acquired_state, releasing_state, Ret,
  err_success, request_data_conn, release_data_conn, send_rsrc_request, notify_rsrc_status,
  has_subscribers, has_active_subscribers,
}
use android_device_samsung_a.Agps.Notify.{notify_subscribers, add_subscriber, set_inactive}

abbrev pub is_zero : Ret → Bool
is_zero err_success = true
is_zero r = false

-- `data` of the event; only the events SUBSCRIBE and UNSUBSCRIBE come with one.
module _ (env : Env) where
  -- AgpsReleasedState
  abbrev pub released_subscribe : Subscriber → Machine → State × Machine
  released_subscribe s m =
      let r = send_rsrc_request env request_data_conn (add_subscriber s m) in
      (if is_zero r.0 then pending_state else released_state, r.1)

  unfoldable pub released_on : RsrcStatus → Option Subscriber → Machine → State × Machine
  unfolding notify_rsrc_status
  released_on subscribe (some s) m = released_subscribe s m
  released_on subscribe none m = (released_state, m)
  released_on unsubscribe (some s) m =
      (released_state, (notify_rsrc_status (notify_one s unsubscribe false) s m).1)
  released_on unsubscribe none m = (released_state, m)
  released_on granted s m = (released_state, m)
  released_on released s m = (released_state, m)
  released_on denied s m = (released_state, m)
  released_on status_max s m = (released_state, m)

  -- The subscriber of an UNSUBSCRIBE waits for the close, or is told and deleted.
  abbrev pub leave : Subscriber → Machine → Machine
  leave s m =
      if waits_for_close s.kind
      then set_inactive s m
      else notify_subscribers (notify_one s unsubscribe true) m

  -- What AgpsPendingState and AgpsAcquiredState check after it.
  abbrev pub release_if_unused : State → Machine → State × Machine
  release_if_unused current m =
      if not (has_subscribers m)
      then (released_state, (send_rsrc_request env release_data_conn m).1)
      else if not (has_active_subscribers m)
      then (releasing_state, (send_rsrc_request env release_data_conn m).1)
      else (current, m)

  -- AgpsPendingState
  unfoldable pub pending_on : RsrcStatus → Option Subscriber → Machine → State × Machine
  pending_on subscribe (some s) m = (pending_state, add_subscriber s m)
  pending_on subscribe none m = (pending_state, m)
  pending_on unsubscribe (some s) m = release_if_unused pending_state (leave s m)
  pending_on unsubscribe none m = (pending_state, m)
  pending_on granted s m =
      (acquired_state, notify_subscribers (broadcast broadcast_active granted false) m)
  pending_on released s m = (pending_state, m)
  pending_on denied s m =
      (released_state, notify_subscribers (broadcast broadcast_all denied true) m)
  pending_on status_max s m = (pending_state, m)

  -- AgpsAcquiredState
  unfoldable pub acquired_on : RsrcStatus → Option Subscriber → Machine → State × Machine
  unfolding notify_rsrc_status
  acquired_on subscribe (some s) m =
      (acquired_state, add_subscriber s (notify_rsrc_status (notify_one s granted false) s m).1)
  acquired_on subscribe none m = (acquired_state, m)
  acquired_on unsubscribe (some s) m = release_if_unused acquired_state (leave s m)
  acquired_on unsubscribe none m = (acquired_state, m)
  acquired_on granted s m = (acquired_state, m)
  acquired_on released s m =
      (released_state, notify_subscribers (broadcast broadcast_all released true) m)
  acquired_on denied s m = (acquired_state, m)
  acquired_on status_max s m = (acquired_state, m)

  -- The inactive subscribers are told and deleted; the active ones want a new request.
  abbrev pub released_or_denied : RsrcStatus → Machine → State × Machine
  released_or_denied event m =
      let m1 = notify_subscribers (broadcast broadcast_inactive event true) m in
      if has_active_subscribers m1
      then (pending_state, (send_rsrc_request env request_data_conn m1).1)
      else (released_state, m1)

  -- AgpsReleasingState
  unfoldable pub releasing_on : RsrcStatus → Option Subscriber → Machine → State × Machine
  releasing_on subscribe (some s) m = (releasing_state, add_subscriber s m)
  releasing_on subscribe none m = (releasing_state, m)
  releasing_on unsubscribe (some s) m =
      let m1 = leave s m in
      (if not (has_subscribers m1) then released_state else releasing_state, m1)
  releasing_on unsubscribe none m = (releasing_state, m)
  releasing_on denied s m = released_or_denied denied m
  releasing_on released s m = released_or_denied released m
  releasing_on granted s m = (releasing_state, m)
  releasing_on status_max s m = (releasing_state, m)

  abbrev pub state_on : State → RsrcStatus → Option Subscriber → Machine → State × Machine
  state_on released_state = released_on
  state_on pending_state = pending_on
  state_on acquired_state = acquired_on
  state_on releasing_state = releasing_on

  -- `mStatePtr = mStatePtr->onRsrcEvent(event, data)`
  unfoldable pub dispatch : RsrcStatus → Option Subscriber → Machine → Machine
  dispatch event s m = let r = state_on m.state event s m in record (r.1) { state = r.0 }
