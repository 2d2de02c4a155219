-- ===== src/Agps/Resubscribe.antt =====
-- A subscriber that comes back while the NIF is being released.
use android_device_samsung_a.Base.{
  ◌≡◌, refl, sym, ap, ◌∙◌, true, false, Option, none, some, [], ◌∷◌, ==_refl,
}
use android_device_samsung_a.Agps.Subscriber.{
  RsrcStatus, Subscriber, wifi, released, subscribe, broadcast, broadcast_inactive, to_one,
}
use android_device_samsung_a.Agps.Machine.{Env, Machine, releasing_state, released_state, find_for}
use android_device_samsung_a.Agps.Notify.{add_subscriber, notify_subscribers}
use android_device_samsung_a.Agps.States.{dispatch, releasing_on, released_or_denied, state_on}
use android_device_samsung_a.Agps.Api.{subscribe_rsrc, on_rsrc_event, base_on_rsrc_event}
use android_device_samsung_a.Agps.Lists.{active}
use android_device_samsung_a.Agps.Pass.{notify_subscribers-keep}

-- The clone that waits for the close stands for the one who comes back.
add_again :
    (x s : Subscriber) (m : Machine)
    → m.subscribers ≡ s ∷ []
    → s.kind ≡ wifi
    → s.id ≡ x.id
    → add_subscriber x m ≡ m
unfolding add_subscriber
add_again x s m e k same =
    let found : find_for (to_one x) m ≡ some s = simp (e, k, same, ==_refl x.id) in rw found

abbrev dismissed : Machine → Machine
dismissed m = notify_subscribers (broadcast broadcast_inactive released true) m

module _ (env : Env) where
  dispatch-releasing :
      (event : RsrcStatus) (x : Option Subscriber) (m : Machine)
      → m.state ≡ releasing_state
      → dispatch env event x m
        ≡ (let r = state_on env releasing_state event x m in record (r.1) { state = r.0 })
  unfolding dispatch
  dispatch-releasing event x m st =
      ap (λ c. let r = state_on env c event x m in record (r.1) { state = r.0 }) st

  accepted :
      (x : Subscriber) (m : Machine)
      → m.enforce_single ≡ false
      → subscribe_rsrc env x m ≡ dispatch env subscribe (some x) m
  unfolding subscribe_rsrc
  accepted x m single = rw single refl

  base_event :
      (m : Machine) → m.is_ds ≡ false → on_rsrc_event env released m ≡ dispatch env released none m
  unfolding on_rsrc_event base_on_rsrc_event
  base_event m b = simp b

  subscribe_again :
      (x s : Subscriber) (m : Machine)
      → m.state ≡ releasing_state
      → m.enforce_single ≡ false
      → m.subscribers ≡ s ∷ []
      → s.kind ≡ wifi
      → s.id ≡ x.id
      → subscribe_rsrc env x m ≡ m
  unfolding releasing_on
  subscribe_again x s m st single e k same =
      accepted x m single
      ∙ dispatch-releasing subscribe (some x) m st
      ∙ ap {A = Machine} (λ r. record r { state = releasing_state }) (add_again x s m e k same)
      ∙ ap (λ c. record m { state = c }) (sym st)

  last_leaves :
      (s : Subscriber) (m : Machine)
      → m.subscribers ≡ s ∷ []
      → s.kind ≡ wifi
      → s.is_inactive ≡ true
      → (dismissed m).subscribers ≡ []
  last_leaves s m e k i =
      notify_subscribers-keep (broadcast broadcast_inactive released true) refl m ∙ simp (e, k, i)

  -- Where a machine that is no `DSStateMachine` and takes several subscribers is releasing, for one
  -- WIFI subscriber that waits for the close, and this one subscribes again, then the RELEASED that
  -- follows deletes it and ends in the state Released: the new subscription is dropped.
  resubscribe-dropped :
      (x s : Subscriber) (m : Machine)
      → m.is_ds ≡ false
      → m.state ≡ releasing_state
      → m.enforce_single ≡ false
      → m.subscribers ≡ s ∷ []
      → s.kind ≡ wifi
      → s.is_inactive ≡ true
      → s.id ≡ x.id
      → let r = on_rsrc_event env released (subscribe_rsrc env x m) in
        (r.state ≡ released_state) × (r.subscribers ≡ [])
  unfolding releasing_on
  resubscribe-dropped x s m b st single e k i same =
      let gone = last_leaves s m e k i in
      let unused : active (dismissed m).subscribers ≡ false = ap active gone in
      let drops : released_or_denied env released m ≡ (released_state, dismissed m) = simp unused in
      let end : on_rsrc_event env released (subscribe_rsrc env x m)
          ≡ record (dismissed m) { state = released_state } =
        ap (on_rsrc_event env released) (subscribe_again x s m st single e k same)
        ∙ base_event m b
        ∙ dispatch-releasing released none m st
        ∙ ap (λ r. record (r.1) { state = r.0 }) drops in
      (ap (λ r. r.state) end, ap (λ r. r.subscribers) end ∙ gone)
