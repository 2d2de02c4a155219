-- ===== src/Agps/Dispatch.antt =====
-- A property that notifications, requests and moves between the states keep is kept by every call
-- of a state machine; and the calls as a list.
use android_device_samsung_a.Base.{
  ℕ, ◌≡◌, refl, ◌++◌, true, false, ◌&&◌, Option, none, some, List, [], ◌∷◌, inl, inr, Bool-cases,
  All,
}
use android_device_samsung_a.Agps.Subscriber.{
  RsrcStatus, subscribe, unsubscribe, granted, released, denied, status_max, Subscriber,
  broadcast_active, broadcast_inactive, broadcast_all, broadcast, notify_one, to_one,
  waits_for_close, Notification,
}
use android_device_samsung_a.Agps.Machine.{
  Env, Machine, State, released_state, pending_state, acquired_state, releasing_state,
  request_data_conn, release_data_conn, send_rsrc_request, nonempty, notify_rsrc_status,
  notify_subscriber, find_for, StatusValue, first_active, request_supl_es, has_subscribers, emit,
  Code,
}
use android_device_samsung_a.Agps.Notify.{notify_subscribers}
use android_device_samsung_a.Agps.States.{
  released_on, pending_on, acquired_on, releasing_on, dispatch, leave, release_if_unused,
  released_or_denied, state_on,
}
use android_device_samsung_a.Agps.Api.{
  base_on_rsrc_event, ds_on_rsrc_event, on_rsrc_event, subscribe_rsrc, unsubscribe_rsrc,
  unsubscribe_found, retry_callback, retry_found, drop_all_subscribers, set_apn, set_bearer,
  same_state,
}
use android_device_samsung_a.Agps.Lists.{active}
use android_device_samsung_a.Agps.Frame.{
  Stable, notify_rsrc_status-Stable, notify_subscribers-Stable, add_subscriber-Stable,
  set_inactive-Stable,
}

-- A call of the engine, or of the data connection's callbacks.
pub data Call : Type 0 where
  subscribing unsubscribing : Subscriber → Call
  event : RsrcStatus → Call
  apn : Option (List ℕ) → (len : ℕ) → Call
  bearing : Code → Call
  retry dropping : Call

-- The call is none of `dropAllSubscribers`, or `D` holds.
abbrev pub Allowed : Type 0 → Call → Type 0
Allowed D (subscribing s) = Unit {0}
Allowed D (unsubscribing s) = Unit {0}
Allowed D (event e) = Unit {0}
Allowed D (apn text len) = Unit {0}
Allowed D (bearing bearer) = Unit {0}
Allowed D retry = Unit {0}
Allowed D dropping = D

abbrev pub IsNoDrop : Call → Type 0
IsNoDrop = Allowed ⊥

pub any-Allowed : (cs : List Call) → All (Allowed (Unit {0})) cs
any-Allowed [] = tt
any-Allowed (subscribing s ∷ cs) = (tt, any-Allowed cs)
any-Allowed (unsubscribing s ∷ cs) = (tt, any-Allowed cs)
any-Allowed (event e ∷ cs) = (tt, any-Allowed cs)
any-Allowed (apn text len ∷ cs) = (tt, any-Allowed cs)
any-Allowed (bearing bearer ∷ cs) = (tt, any-Allowed cs)
any-Allowed (retry ∷ cs) = (tt, any-Allowed cs)
any-Allowed (dropping ∷ cs) = (tt, any-Allowed cs)

pub All-append : (P : Call → Type 0) (cs ds : List Call) → All P cs → All P ds → All P (cs ++ ds)
All-append P [] ds h k = k
All-append P (c ∷ cs) ds (h, hs) k = (h, All-append P cs ds hs k)

module _ (env : Env) where
  unfoldable pub perform : Call → Machine → Machine
  perform (subscribing s) m = subscribe_rsrc env s m
  perform (unsubscribing s) m = (unsubscribe_rsrc env s m).1
  perform (event e) m = on_rsrc_event env e m
  perform (apn text len) m = set_apn text len m
  perform (bearing bearer) m = set_bearer bearer m
  perform retry m = retry_callback m
  perform dropping m = drop_all_subscribers m

  unfoldable pub perform_all : List Call → Machine → Machine
  perform_all [] m = m
  perform_all (c ∷ cs) m = perform_all cs (perform c m)

  pub perform_all-append :
      (cs ds : List Call) (m : Machine)
      → perform_all (cs ++ ds) m ≡ perform_all ds (perform_all cs m)
  unfolding perform_all
  perform_all-append [] ds m = refl
  perform_all-append (c ∷ cs) ds m = perform_all-append cs ds (perform c m)

-- What every call keeps.
pub record Kept (env : Env) (P : Machine → Type 0) : Type 0 where
  pub stable : Stable P
  pub sent : (a : StatusValue) (m : Machine) → P m → P (send_rsrc_request env a m).1
  pub moved : (st : State) (m : Machine) → P m → P (record m { state = st })
  pub named : (text : Option (List ℕ)) (len : ℕ) (m : Machine) → P m → P (set_apn text len m)

module _ {env : Env} {P : Machine → Type 0} (kept : Kept env P) where
  pub leave-Kept : (s : Subscriber) (m : Machine) → P m → P (leave env s m)
  leave-Kept s m p = elim (Bool-cases (waits_for_close s.kind)) [
    | inl e ↦ rw e (set_inactive-Stable kept.stable s m p)
    | inr e ↦ rw e (notify_subscribers-Stable kept.stable (notify_one s unsubscribe true) m p)
  ]

  pub release_if_unused-Kept :
      (current : State) (m : Machine) → P m → P (release_if_unused env current m).1
  release_if_unused-Kept current m p = elim (Bool-cases (nonempty m.subscribers)) [
    | inr e ↦ simp e (kept.sent release_data_conn m p)
    | inl e ↦ elim (Bool-cases (active m.subscribers)) [
      | inl a ↦ simp (e, a) p
      | inr a ↦ simp (e, a) (kept.sent release_data_conn m p)
    ]
  ]

  released_or_denied-Kept : (e : RsrcStatus) (m : Machine) → P m → P (released_or_denied env e m).1
  released_or_denied-Kept e m p =
      let k = notify_subscribers (broadcast broadcast_inactive e true) m in
      let q : P k =
        notify_subscribers-Stable kept.stable (broadcast broadcast_inactive e true) m p in
      elim (Bool-cases (active k.subscribers)) [
        | inl a ↦ simp a (kept.sent request_data_conn k q)
        | inr a ↦ simp a q
      ]

  pub state_on-Kept :
      (st : State) (e : RsrcStatus) (s : Option Subscriber) (m : Machine)
      → P m
      → P (state_on env st e s m).1
  unfolding released_on pending_on acquired_on releasing_on
  state_on-Kept released_state subscribe none m p = p
  state_on-Kept released_state subscribe (some s) m p =
      kept.sent request_data_conn _ (add_subscriber-Stable kept.stable s m p)
  state_on-Kept released_state unsubscribe none m p = p
  state_on-Kept released_state unsubscribe (some s) m p =
      notify_rsrc_status-Stable kept.stable (notify_one s unsubscribe false) s m p
  state_on-Kept released_state granted s m p = p
  state_on-Kept released_state released s m p = p
  state_on-Kept released_state denied s m p = p
  state_on-Kept released_state status_max s m p = p
  state_on-Kept pending_state subscribe none m p = p
  state_on-Kept pending_state subscribe (some s) m p = add_subscriber-Stable kept.stable s m p
  state_on-Kept pending_state unsubscribe none m p = p
  state_on-Kept pending_state unsubscribe (some s) m p =
      release_if_unused-Kept pending_state (leave env s m) (leave-Kept s m p)
  state_on-Kept pending_state granted s m p =
      notify_subscribers-Stable kept.stable (broadcast broadcast_active granted false) m p
  state_on-Kept pending_state released s m p = p
  state_on-Kept pending_state denied s m p =
      notify_subscribers-Stable kept.stable (broadcast broadcast_all denied true) m p
  state_on-Kept pending_state status_max s m p = p
  state_on-Kept acquired_state subscribe none m p = p
  state_on-Kept acquired_state subscribe (some s) m p =
      let n = notify_one s granted false in
      add_subscriber-Stable kept.stable s (notify_rsrc_status n s m).1
        (notify_rsrc_status-Stable kept.stable n s m p)
  state_on-Kept acquired_state unsubscribe none m p = p
  state_on-Kept acquired_state unsubscribe (some s) m p =
      release_if_unused-Kept acquired_state (leave env s m) (leave-Kept s m p)
  state_on-Kept acquired_state granted s m p = p
  state_on-Kept acquired_state released s m p =
      notify_subscribers-Stable kept.stable (broadcast broadcast_all released true) m p
  state_on-Kept acquired_state denied s m p = p
  state_on-Kept acquired_state status_max s m p = p
  state_on-Kept releasing_state subscribe none m p = p
  state_on-Kept releasing_state subscribe (some s) m p = add_subscriber-Stable kept.stable s m p
  state_on-Kept releasing_state unsubscribe none m p = p
  state_on-Kept releasing_state unsubscribe (some s) m p = leave-Kept s m p
  state_on-Kept releasing_state granted s m p = p
  state_on-Kept releasing_state released s m p = released_or_denied-Kept released m p
  state_on-Kept releasing_state denied s m p = released_or_denied-Kept denied m p
  state_on-Kept releasing_state status_max s m p = p

  pub dispatch-Kept :
      (e : RsrcStatus) (s : Option Subscriber) (m : Machine) → P m → P (dispatch env e s m)
  unfolding dispatch
  dispatch-Kept e s m p = kept.moved _ _ (state_on-Kept m.state e s m p)

-- What holds for every machine that a call of the list can lead to.
module _ (env : Env) {P : Machine → Type 0}
    (noticed : (n : Notification) (s : Subscriber) (m : Machine)
      → P m
      → P (notify_rsrc_status n s m).1)
    (retried : (id : ℕ) (m : Machine) → P m → P (emit (request_supl_es id) m))
    (dispatched : (e : RsrcStatus) (s : Option Subscriber) (m : Machine)
      → P m
      → P (dispatch env e s m))
    (named : (text : Option (List ℕ)) (len : ℕ) (m : Machine) → P m → P (set_apn text len m))
    (carried : (bearer : Code) (m : Machine) → P m → P (set_bearer bearer m)) {D : Type 0}
    (dropped : (m : Machine) → D → P m → P (drop_all_subscribers m)) where
  ds_event : (e : RsrcStatus) (m : Machine) → P m → P (ds_on_rsrc_event env e m)
  unfolding ds_on_rsrc_event
  ds_event granted m p = dispatched granted none m p
  ds_event released m p =
      let k = dispatch env released none m in
      let q : P k = dispatched released none m p in
      elim (Bool-cases (same_state k.state m.state)) [
        | inl e ↦ rw e (dispatched denied none k q)
        | inr e ↦ rw e q
      ]
  ds_event denied m p = dispatched denied none m p
  ds_event subscribe m p = p
  ds_event unsubscribe m p = p
  ds_event status_max m p = p

  base_event : (e : RsrcStatus) (m : Machine) → P m → P (base_on_rsrc_event env e m)
  unfolding base_on_rsrc_event
  base_event granted m p = dispatched granted none m p
  base_event released m p = dispatched released none m p
  base_event denied m p = dispatched denied none m p
  base_event subscribe m p = p
  base_event unsubscribe m p = p
  base_event status_max m p = p

  unsubscribe_found-Kept :
      (r : Option Subscriber) (m : Machine) → P m → P (unsubscribe_found env r m).1
  unsubscribe_found-Kept none m p = p
  unsubscribe_found-Kept (some s) m p = dispatched unsubscribe (some s) m p

  retry_found-Kept : (r : Option Subscriber) (m : Machine) → P m → P (retry_found r m)
  retry_found-Kept none m p = p
  retry_found-Kept (some s) m p = retried s.id m p

  perform-Kept : (c : Call) (m : Machine) → Allowed D c → P m → P (perform env c m)
  unfolding perform on_rsrc_event subscribe_rsrc unsubscribe_rsrc notify_subscriber retry_callback
  perform-Kept (subscribing s) m a p = elim (Bool-cases (m.enforce_single && has_subscribers m)) [
    | inl e ↦ rw e (noticed (broadcast broadcast_all denied true) s m p)
    | inr e ↦ rw e (dispatched subscribe (some s) m p)
  ]
  perform-Kept (unsubscribing s) m a p = unsubscribe_found-Kept (find_for (to_one s) m) m p
  perform-Kept (event e) m a p = elim (Bool-cases m.is_ds) [
    | inl d ↦ simp d (ds_event e m p)
    | inr d ↦ simp d (base_event e m p)
  ]
  perform-Kept (apn text len) m a p = named text len m p
  perform-Kept (bearing bearer) m a p = carried bearer m p
  perform-Kept retry m a p = retry_found-Kept (first_active m) m p
  perform-Kept dropping m a p = dropped m a p

  pub perform_all-Kept :
      (cs : List Call) (m : Machine) → All (Allowed D) cs → P m → P (perform_all env cs m)
  unfolding perform_all
  perform_all-Kept [] m a p = p
  perform_all-Kept (c ∷ cs) m (a, as_) p =
      perform_all-Kept cs (perform env c m) as_ (perform-Kept c m a p)
