-- ===== src/Agps/Asking.antt =====
-- What each reaction of the state machine asks of its servicer.
use android_device_samsung_a.Base.{
  ◌≡◌, refl, ◌∙◌, ap, true, false, Option, none, some, List, [], ◌∷◌, inl, inr, Bool-cases, not,
  if◌then◌else◌,
}
use android_device_samsung_a.Agps.Subscriber.{
  RsrcStatus, subscribe, unsubscribe, granted, released, denied, status_max, Subscriber,
  broadcast_active, broadcast_inactive, broadcast, notify_one, waits_for_close,
}
use android_device_samsung_a.Agps.Machine.{
  Env, Machine, State, released_state, pending_state, acquired_state, releasing_state, StatusValue,
  request_data_conn, release_data_conn, send_rsrc_request, base_send_rsrc_request,
  notify_rsrc_status, nonempty, Effect, request_rsrc, ds_callback, server_data_conn,
  atl_close_status, atl_open_status, request_atl, close_data_call, request_supl_es, start_timer,
  read_freed, releases, request_for, first_active,
}
use android_device_samsung_a.Agps.Notify.{notify_subscribers, add_subscriber}
use android_device_samsung_a.Agps.States.{
  released_on, pending_on, acquired_on, releasing_on, leave, release_if_unused, released_or_denied,
  state_on,
}
use android_device_samsung_a.Agps.Lists.{active, add_subscriber-first}
use android_device_samsung_a.Agps.Frame.{
  is_request, Stable, notify_rsrc_status-Stable, notify_subscribers-Stable, add_subscriber-Stable,
  set_inactive-Stable,
}
use android_device_samsung_a.Agps.Invariant.{IsBase-Stable, Fits, leave-IsBase, send_base}

-- The latest request to an `AGpsServicer`, by the calls made.
abbrev last_action : List Effect → Option StatusValue
last_action [] = none
last_action (request_rsrc r ∷ log) = some r.status
last_action (server_data_conn a b ∷ log) = last_action log
last_action (atl_close_status a ∷ log) = last_action log
last_action (atl_open_status a b c d e ∷ log) = last_action log
last_action (ds_callback a ∷ log) = last_action log
last_action (request_atl a ∷ log) = last_action log
last_action (close_data_call ∷ log) = last_action log
last_action (request_supl_es a ∷ log) = last_action log
last_action (start_timer ∷ log) = last_action log
last_action (read_freed a ∷ log) = last_action log

abbrev IsLast : StatusValue → Machine → Type 0
IsLast a m = last_action m.log ≡ some a

last_action-emit :
    (e : Effect) (log : List Effect)
    → is_request e ≡ false
    → last_action (e ∷ log) ≡ last_action log
last_action-emit (request_rsrc r) log h = cc
last_action-emit (server_data_conn a b) log h = refl
last_action-emit (atl_close_status a) log h = refl
last_action-emit (atl_open_status a b c d e) log h = refl
last_action-emit (ds_callback a) log h = refl
last_action-emit (request_atl a) log h = refl
last_action-emit close_data_call log h = refl
last_action-emit (request_supl_es a) log h = refl
last_action-emit start_timer log h = refl
last_action-emit (read_freed a) log h = refl

pub IsLast-Stable : (a : StatusValue) → Stable (IsLast a)
IsLast-Stable a = record {
  emitted = λ e m q p. last_action-emit e m.log q ∙ p;
  reset = λ m p. p;
  relisted = λ m xs n p. p;
}

-- What was asked for last, by the state.
abbrev pub Asked : State → Machine → Type 0
Asked released_state m = Unit {0}
Asked pending_state m = last_action m.log ≡ some request_data_conn
Asked acquired_state m = last_action m.log ≡ some request_data_conn
Asked releasing_state m = last_action m.log ≡ some release_data_conn

request_for-status :
    (m : Machine) (a : StatusValue) (s : Option Subscriber) → (request_for m a s).status ≡ a
request_for-status m a none = refl
request_for-status m a (some s) = refl

module _ (env : Env) where
  -- The guard of `sendRsrcRequest` lets the request pass.
  send-IsLast :
      (a : StatusValue) (m : Machine)
      → m.is_ds ≡ false
      → active m.subscribers ≡ not (releases a)
      → IsLast a (send_rsrc_request env a m).1
  unfolding base_send_rsrc_request
  send-IsLast request_data_conn m b h =
      rw (send_base env request_data_conn m b)
        (simp h (ap some (request_for-status m request_data_conn (first_active m))))
  send-IsLast release_data_conn m b h =
      rw (send_base env release_data_conn m b)
        (simp h (ap some (request_for-status m release_data_conn (first_active m))))

  release_if_unused-Asked :
      (current : State) (m : Machine)
      → m.is_ds ≡ false
      → Asked current m
      → let r = release_if_unused env current m in Asked r.0 r.1
  release_if_unused-Asked current m b q = elim (Bool-cases (nonempty m.subscribers)) [
    | inr e ↦ simp e tt
    | inl e ↦ elim (Bool-cases (active m.subscribers)) [
      | inl a ↦ simp (e, a) q
      | inr a ↦ simp (e, a) (send-IsLast release_data_conn m b a)
    ]
  ]

  released_or_denied-Asked :
      (event : RsrcStatus) (m : Machine)
      → m.is_ds ≡ false
      → let r = released_or_denied env event m in Asked r.0 r.1
  released_or_denied-Asked event m b =
      let n = broadcast broadcast_inactive event true in
      let k = notify_subscribers n m in
      let c : k.is_ds ≡ false = notify_subscribers-Stable IsBase-Stable n m b in
      elim (Bool-cases (active k.subscribers)) [
        | inl a ↦ simp a (send-IsLast request_data_conn k c a)
        | inr a ↦ simp a tt
      ]

  unless_used-Asked :
      (k : Machine)
      → IsLast release_data_conn k
      → Asked (if not (nonempty k.subscribers) then released_state else releasing_state) k
  unless_used-Asked k q = elim (Bool-cases (nonempty k.subscribers)) [
    | inl e ↦ rw e q
    | inr e ↦ rw e tt
  ]

  leave-IsLast :
      (a : StatusValue) (s : Subscriber) (m : Machine) → IsLast a m → IsLast a (leave env s m)
  leave-IsLast a s m q = elim (Bool-cases (waits_for_close s.kind)) [
    | inl e ↦ rw e (set_inactive-Stable (IsLast-Stable a) s m q)
    | inr e ↦ rw e (notify_subscribers-Stable (IsLast-Stable a) (notify_one s unsubscribe true) m q)
  ]

  pub state_on-Asked :
      (st : State) (e : RsrcStatus) (s : Option Subscriber) (m : Machine)
      → m.is_ds ≡ false
      → Fits st m.subscribers
      → Asked st m
      → let r = state_on env st e s m in Asked r.0 r.1
  unfolding released_on pending_on acquired_on releasing_on base_send_rsrc_request
  state_on-Asked released_state subscribe none m b f q = tt
  state_on-Asked released_state subscribe (some s) m b f q =
      let k = add_subscriber s m in
      let c : k.is_ds ≡ false = add_subscriber-Stable IsBase-Stable s m b in
      let sent : IsLast request_data_conn (send_rsrc_request env request_data_conn k).1 =
        send-IsLast request_data_conn k c (add_subscriber-first s m f) in
      rw (ap (λ r. r.0) (send_base env request_data_conn k c)) sent
  state_on-Asked released_state unsubscribe none m b f q = tt
  state_on-Asked released_state unsubscribe (some s) m b f q = tt
  state_on-Asked released_state granted s m b f q = tt
  state_on-Asked released_state released s m b f q = tt
  state_on-Asked released_state denied s m b f q = tt
  state_on-Asked released_state status_max s m b f q = tt
  state_on-Asked pending_state subscribe none m b f q = q
  state_on-Asked pending_state subscribe (some s) m b f q =
      add_subscriber-Stable (IsLast-Stable request_data_conn) s m q
  state_on-Asked pending_state unsubscribe none m b f q = q
  state_on-Asked pending_state unsubscribe (some s) m b f q =
      release_if_unused-Asked pending_state (leave env s m) (leave-IsBase env s m b)
        (leave-IsLast request_data_conn s m q)
  state_on-Asked pending_state granted s m b f q =
      notify_subscribers-Stable (IsLast-Stable request_data_conn)
        (broadcast broadcast_active granted false) m q
  state_on-Asked pending_state released s m b f q = q
  state_on-Asked pending_state denied s m b f q = tt
  state_on-Asked pending_state status_max s m b f q = q
  state_on-Asked acquired_state subscribe none m b f q = q
  state_on-Asked acquired_state subscribe (some s) m b f q =
      let n = notify_one s granted false in
      let last = IsLast-Stable request_data_conn in
      add_subscriber-Stable last s (notify_rsrc_status n s m).1
        (notify_rsrc_status-Stable last n s m q)
  state_on-Asked acquired_state unsubscribe none m b f q = q
  state_on-Asked acquired_state unsubscribe (some s) m b f q =
      release_if_unused-Asked acquired_state (leave env s m) (leave-IsBase env s m b)
        (leave-IsLast request_data_conn s m q)
  state_on-Asked acquired_state granted s m b f q = q
  state_on-Asked acquired_state released s m b f q = tt
  state_on-Asked acquired_state denied s m b f q = q
  state_on-Asked acquired_state status_max s m b f q = q
  state_on-Asked releasing_state subscribe none m b f q = q
  state_on-Asked releasing_state subscribe (some s) m b f q =
      add_subscriber-Stable (IsLast-Stable release_data_conn) s m q
  state_on-Asked releasing_state unsubscribe none m b f q = q
  state_on-Asked releasing_state unsubscribe (some s) m b f q =
      unless_used-Asked (leave env s m) (leave-IsLast release_data_conn s m q)
  state_on-Asked releasing_state granted s m b f q = q
  state_on-Asked releasing_state released s m b f q = released_or_denied-Asked released m b
  state_on-Asked releasing_state denied s m b f q = released_or_denied-Asked denied m b
  state_on-Asked releasing_state status_max s m b f q = q
