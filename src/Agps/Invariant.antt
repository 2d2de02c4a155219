-- ===== src/Agps/Invariant.antt =====
-- The state of an `AgpsStateMachine` says what its subscriber list holds.
use android_device_samsung_a.Base.{
  ◌≡◌, refl, sym, ◌∙◌, true, false, not, Option, none, some, List, [], ◌∷◌, arith, inl, inr,
  Bool-cases, if◌then◌else◌,
}
use android_device_samsung_a.Agps.Subscriber.{
  RsrcStatus, subscribe, unsubscribe, granted, released, denied, status_max, Subscriber,
  broadcast_active, broadcast_inactive, broadcast, notify_one,
}
use android_device_samsung_a.Agps.Machine.{
  Env, Machine, State, released_state, pending_state, acquired_state, releasing_state,
  request_data_conn, release_data_conn, send_rsrc_request, base_send_rsrc_request, nonempty,
  notify_rsrc_status, StatusValue,
}
use android_device_samsung_a.Agps.Notify.{notify_subscribers, add_subscriber}
use android_device_samsung_a.Agps.States.{
  released_on, pending_on, acquired_on, releasing_on, dispatch, leave, release_if_unused,
  released_or_denied, state_on,
}
use android_device_samsung_a.Agps.Lists.{
  active, notify_rsrc_status-list, notify_subscribers-list, notify_all-list, notify_inactive-active,
  base_send-list, add_subscriber-nonempty, add_subscriber-active, add_subscriber-first,
}
use android_device_samsung_a.Agps.Told.{told}
use android_device_samsung_a.Agps.Frame.{
  Stable, notify_rsrc_status-Stable, notify_subscribers-Stable, add_subscriber-Stable,
  set_inactive-Stable,
}

-- Nobody is subscribed when released; somebody active while the NIF is wanted or held; somebody
-- while it is given back.
abbrev pub Fits : State → List Subscriber → Type 0
Fits released_state xs = xs ≡ []
Fits pending_state xs = active xs ≡ true
Fits acquired_state xs = active xs ≡ true
Fits releasing_state xs = nonempty xs ≡ true

-- An `AgpsStateMachine` that is no `DSStateMachine`.
abbrev pub IsBase : Machine → Type 0
IsBase m = m.is_ds ≡ false

pub IsBase-Stable : Stable IsBase
IsBase-Stable = record { emitted = λ e m q p. p; reset = λ m p. p; relisted = λ m xs a p. p }

pub in_state-Stable : (st : State) → Stable λ m. m.state ≡ st
in_state-Stable st = record { emitted = λ e m q p. p; reset = λ m p. p; relisted = λ m xs a p. p }

pub record IsValid (m : Machine) : Type 0 where
  pub base : m.is_ds ≡ false
  pub fits : Fits m.state m.subscribers

-- What an event leads to is valid.
abbrev Next : State × Machine → Type 0
Next r = (r.1.is_ds ≡ false) × Fits r.0 r.1.subscribers

empty_of : (xs : List Subscriber) → nonempty xs ≡ false → xs ≡ []
empty_of [] h = refl
empty_of (s ∷ xs) h = cc

module _ (env : Env) where
  pub send_base :
      (a : StatusValue) (m : Machine)
      → m.is_ds ≡ false
      → send_rsrc_request env a m ≡ base_send_rsrc_request a m
  unfolding send_rsrc_request
  send_base a m b = simp b

  base_send-IsBase :
      (a : StatusValue) (m : Machine)
      → m.is_ds ≡ false
      → (base_send_rsrc_request a m).1.is_ds ≡ false
  unfolding base_send_rsrc_request
  base_send-IsBase a m b = ground arith

  send-Next :
      (a : StatusValue) (m : Machine) (st : State)
      → m.is_ds ≡ false
      → Fits st m.subscribers
      → Next (st, (send_rsrc_request env a m).1)
  send-Next a m st b f = rw (send_base a m b) (base_send-IsBase a m b, rw (base_send-list a m) f)

  pub leave-IsBase :
      (s : Subscriber) (m : Machine) → m.is_ds ≡ false → (leave env s m).is_ds ≡ false
  leave-IsBase s m b = ground (
    arith,
    set_inactive-Stable IsBase-Stable s m b,
    notify_subscribers-Stable IsBase-Stable (notify_one s unsubscribe true) m b,
  )

  release_if_unused-Next :
      (current : State) (m : Machine)
      → m.is_ds ≡ false
      → (active m.subscribers ≡ true → Fits current m.subscribers)
      → Next (release_if_unused env current m)
  release_if_unused-Next current m b f = elim (Bool-cases (nonempty m.subscribers)) [
    | inr e ↦ simp e (send-Next release_data_conn m released_state b (empty_of m.subscribers e))
    | inl e ↦ elim (Bool-cases (active m.subscribers)) [
      | inl a ↦ simp (e, a) (b, f a)
      | inr a ↦ simp (e, a) (send-Next release_data_conn m releasing_state b e)
    ]
  ]

  pending-Next :
      (event : RsrcStatus) (s : Option Subscriber) (m : Machine)
      → m.is_ds ≡ false
      → active m.subscribers ≡ true
      → Next (pending_on env event s m)
  unfolding pending_on
  pending-Next subscribe none m b f = (b, f)
  pending-Next subscribe (some s) m b f =
      (add_subscriber-Stable IsBase-Stable s m b, add_subscriber-active s m f)
  pending-Next unsubscribe none m b f = (b, f)
  pending-Next unsubscribe (some s) m b f =
      release_if_unused-Next pending_state (leave env s m) (leave-IsBase s m b) λ a. a
  pending-Next granted s m b f = (
    notify_subscribers-Stable IsBase-Stable _ m b,
    rw (notify_subscribers-list (broadcast broadcast_active granted false) m refl) f,
  )
  pending-Next released s m b f = (b, f)
  pending-Next denied s m b f =
      (notify_subscribers-Stable IsBase-Stable _ m b, notify_all-list denied m refl)
  pending-Next status_max s m b f = (b, f)

  acquired-Next :
      (event : RsrcStatus) (s : Option Subscriber) (m : Machine)
      → m.is_ds ≡ false
      → active m.subscribers ≡ true
      → Next (acquired_on env event s m)
  unfolding acquired_on
  acquired-Next subscribe none m b f = (b, f)
  acquired-Next subscribe (some s) m b f =
      let k = (notify_rsrc_status (notify_one s granted false) s m).1 in
      (
        add_subscriber-Stable IsBase-Stable s k
            (notify_rsrc_status-Stable IsBase-Stable (notify_one s granted false) s m b),
        add_subscriber-active s k (rw (notify_rsrc_status-list (notify_one s granted false) s m) f),
      )
  acquired-Next unsubscribe none m b f = (b, f)
  acquired-Next unsubscribe (some s) m b f =
      release_if_unused-Next acquired_state (leave env s m) (leave-IsBase s m b) λ a. a
  acquired-Next granted s m b f = (b, f)
  acquired-Next released s m b f =
      (notify_subscribers-Stable IsBase-Stable _ m b, notify_all-list released m refl)
  acquired-Next denied s m b f = (b, f)
  acquired-Next status_max s m b f = (b, f)

  released-Next :
      (event : RsrcStatus) (s : Option Subscriber) (m : Machine)
      → m.is_ds ≡ false
      → m.subscribers ≡ []
      → Next (released_on env event s m)
  unfolding released_on base_send_rsrc_request
  released-Next subscribe none m b f = (b, f)
  released-Next subscribe (some s) m b f =
      let k = add_subscriber s m in
      let c : k.is_ds ≡ false = add_subscriber-Stable IsBase-Stable s m b in
      rw (send_base request_data_conn k c) (
        base_send-IsBase request_data_conn k c,
        rw (base_send-list request_data_conn k) (add_subscriber-first s m f),
      )
  released-Next unsubscribe none m b f = (b, f)
  released-Next unsubscribe (some s) m b f = (
    notify_rsrc_status-Stable IsBase-Stable (notify_one s unsubscribe false) s m b,
    rw (notify_rsrc_status-list (notify_one s unsubscribe false) s m) f,
  )
  released-Next granted s m b f = (b, f)
  released-Next released s m b f = (b, f)
  released-Next denied s m b f = (b, f)
  released-Next status_max s m b f = (b, f)

  released_or_denied-Next :
      (event : RsrcStatus) (m : Machine)
      → told event ≡ true
      → m.is_ds ≡ false
      → Next (released_or_denied env event m)
  released_or_denied-Next event m t b =
      let k = notify_subscribers (broadcast broadcast_inactive event true) m in
      let c : k.is_ds ≡ false = notify_subscribers-Stable IsBase-Stable _ m b in
      let kept : active k.subscribers ≡ nonempty k.subscribers = notify_inactive-active event m t in
      elim (Bool-cases (active k.subscribers)) [
        | inl a ↦ simp a (send-Next request_data_conn k pending_state c a)
        | inr a ↦ simp a (c, empty_of k.subscribers (sym kept ∙ a))
      ]

  unless_used-Next :
      (k : Machine)
      → k.is_ds ≡ false
      → Next (if not (nonempty k.subscribers) then released_state else releasing_state, k)
  unless_used-Next k b = elim (Bool-cases (nonempty k.subscribers)) [
    | inl e ↦ rw e (b, e)
    | inr e ↦ rw e (b, empty_of k.subscribers e)
  ]

  releasing-Next :
      (event : RsrcStatus) (s : Option Subscriber) (m : Machine)
      → m.is_ds ≡ false
      → nonempty m.subscribers ≡ true
      → Next (releasing_on env event s m)
  unfolding releasing_on
  releasing-Next subscribe none m b f = (b, f)
  releasing-Next subscribe (some s) m b f =
      (add_subscriber-Stable IsBase-Stable s m b, add_subscriber-nonempty s m)
  releasing-Next unsubscribe none m b f = (b, f)
  releasing-Next unsubscribe (some s) m b f = unless_used-Next (leave env s m) (leave-IsBase s m b)
  releasing-Next granted s m b f = (b, f)
  releasing-Next released s m b f = released_or_denied-Next released m refl b
  releasing-Next denied s m b f = released_or_denied-Next denied m refl b
  releasing-Next status_max s m b f = (b, f)

  state_on-Next :
      (st : State) (event : RsrcStatus) (s : Option Subscriber) (m : Machine)
      → m.is_ds ≡ false
      → Fits st m.subscribers
      → Next (state_on env st event s m)
  state_on-Next released_state = released-Next
  state_on-Next pending_state = pending-Next
  state_on-Next acquired_state = acquired-Next
  state_on-Next releasing_state = releasing-Next

  pub dispatch-IsValid :
      (event : RsrcStatus) (s : Option Subscriber) (m : Machine)
      → IsValid m
      → IsValid (dispatch env event s m)
  unfolding dispatch
  dispatch-IsValid event s m v =
      let next = state_on-Next m.state event s m v.base v.fits in
      record { base = next.0; fits = next.1 }
