-- ===== src/Agps/Frame.antt =====
-- What the operations on subscribers leave alone: a property that survives calls other than
-- requests, a reset of the retries and a change of the list survives all of them.
use android_device_samsung_a.Base.{
  ℕ, zero, suc, Bool, true, false, ◌≡◌, refl, ◌||◌, Option, none, some, List, [], ◌∷◌, arith,
  length, inl, inr, Bool-cases, Option-cases,
}
use android_device_samsung_a.LinkedList.Abstract.{Found, search}
use android_device_samsung_a.Agps.Subscriber.{
  RsrcStatus, subscribe, unsubscribe, granted, released, denied, status_max, Kind, bit, atl, wifi,
  ds, Subscriber, Notification, for_me, to_one,
}
use android_device_samsung_a.Agps.Machine.{
  Machine, Effect, request_rsrc, ds_callback, server_data_conn, atl_close_status, atl_open_status,
  request_atl, close_data_call, request_supl_es, start_timer, read_freed, emit, kind_notify,
  notify_rsrc_status, notify_subscriber, find_for, is_some,
}
use android_device_samsung_a.Agps.Notify.{
  notify_loop, notify_subscribers, read_receiver, points_to, after_search, add_subscriber,
  set_inactive, kind_set_inactive,
}

-- A request for the NIF, to a base or a DS servicer.
abbrev pub is_request : Effect → Bool
is_request (server_data_conn a b) = false
is_request (atl_close_status a) = false
is_request (atl_open_status a b c d e) = false
is_request (request_rsrc r) = true
is_request (ds_callback a) = true
is_request (request_atl a) = false
is_request close_data_call = false
is_request (request_supl_es a) = false
is_request start_timer = false
is_request (read_freed a) = false

pub record Stable (P : Machine → Type 0) : Type 0 where
  pub emitted : (e : Effect) (m : Machine) → is_request e ≡ false → P m → P (emit e m)
  pub reset : (m : Machine) → P m → P (record m { retries = 0 })
  pub relisted :
      (m : Machine) (xs : List Subscriber) (a : ℕ)
      → P m
      → P (record m { subscribers = xs; next_addr = a })

module _ {P : Machine → Type 0} (st : Stable P) where
  kind_notify-Stable :
      (k : Kind) (status : RsrcStatus) (s : Subscriber) (m : Machine)
      → P m
      → P (kind_notify k status s m).1
  kind_notify-Stable bit unsubscribe s m p = st.emitted _ m refl p
  kind_notify-Stable bit granted s m p = st.emitted _ m refl p
  kind_notify-Stable bit released s m p = st.emitted _ m refl p
  kind_notify-Stable bit denied s m p = st.emitted _ m refl p
  kind_notify-Stable bit subscribe s m p = p
  kind_notify-Stable bit status_max s m p = p
  kind_notify-Stable atl unsubscribe s m p = st.emitted _ m refl p
  kind_notify-Stable atl granted s m p = st.emitted _ m refl p
  kind_notify-Stable atl released s m p = st.emitted _ m refl p
  kind_notify-Stable atl denied s m p = st.emitted _ m refl p
  kind_notify-Stable atl subscribe s m p = p
  kind_notify-Stable atl status_max s m p = p
  kind_notify-Stable wifi unsubscribe s m p = p
  kind_notify-Stable wifi granted s m p = st.emitted _ m refl p
  kind_notify-Stable wifi released s m p = st.emitted _ m refl p
  kind_notify-Stable wifi denied s m p = st.emitted _ m refl p
  kind_notify-Stable wifi subscribe s m p = p
  kind_notify-Stable wifi status_max s m p = p
  kind_notify-Stable ds unsubscribe s m p = st.emitted _ m refl p
  kind_notify-Stable ds granted s m p = st.emitted _ m refl p
  kind_notify-Stable ds released s m p = st.emitted _ m refl p
  kind_notify-Stable ds denied s m p = st.emitted _ (record m { retries = 0 }) refl (st.reset m p)
  kind_notify-Stable ds subscribe s m p = p
  kind_notify-Stable ds status_max s m p = p

  pub notify_rsrc_status-Stable :
      (n : Notification) (s : Subscriber) (m : Machine) → P m → P (notify_rsrc_status n s m).1
  unfolding notify_rsrc_status
  notify_rsrc_status-Stable n s m p = elim (Bool-cases (for_me n s)) [
    | inl e ↦ rw e (kind_notify-Stable s.kind n.rsrc_status s m p)
    | inr e ↦ rw e p
  ]

  pub search-Stable :
      (n : Notification) (xs : List Subscriber) (m : Machine)
      → P m
      → P (search (notify_subscriber n) xs m).env
  unfolding notify_subscriber
  search-Stable n [] m p = p
  search-Stable n (s ∷ xs) m p =
      let q = notify_rsrc_status-Stable n s m p in
      elim (Bool-cases (notify_subscriber n s m).0) [
        | inl e ↦ rw e q
        | inr e ↦ rw e (search-Stable n xs (notify_rsrc_status n s m).1 q)
      ]

  read_receiver-Stable :
      (d : Bool) (r : Option Subscriber) (m : Machine) → P m → P (read_receiver d r m)
  read_receiver-Stable d none m p = p
  read_receiver-Stable d (some r) m p = ground (arith, st.emitted (read_freed r.addr) m refl p)

  pub after_search-Stable :
      (again : Subscriber → Machine → Machine) (r : Found Subscriber Machine)
      → P (record (r.env) { subscribers = r.rest })
      → ((s : Subscriber) (k : Machine) → P k → P (again s k))
      → P (after_search again r)
  after_search-Stable again r q step = elim (Option-cases r.hit) [
    | inl h ↦ rw h q
    | inr (s, h) ↦ rw h (step s _ q)
  ]

  pub loop-Stable :
      (fuel : ℕ) (n : Notification) (d : Bool) (m : Machine) → P m → P (notify_loop fuel n d m)
  unfolding notify_loop
  loop-Stable zero n d m p = p
  loop-Stable (suc fuel) n d m p =
      let m1 : Machine = read_receiver d n.rcver m in
      let r = search (notify_subscriber n) m1.subscribers m1 in
      let q : P (record (r.env) { subscribers = r.rest }) =
        st.relisted r.env r.rest r.env.next_addr
          (search-Stable n m1.subscribers m1 (read_receiver-Stable d n.rcver m p)) in
      after_search-Stable (λ s k. notify_loop fuel n (d || points_to n.rcver s.addr) k) r q
        λ s k pk. loop-Stable fuel n (d || points_to n.rcver s.addr) k pk

  pub notify_subscribers-Stable :
      (n : Notification) (m : Machine) → P m → P (notify_subscribers n m)
  unfolding notify_subscribers
  notify_subscribers-Stable n m p = elim (Bool-cases n.post_notify_delete) [
    | inl e ↦ simp e (loop-Stable (suc (length m.subscribers)) n false m p)
    | inr e ↦ simp e (search-Stable n m.subscribers m p)
  ]

  pub add_subscriber-Stable : (s : Subscriber) (m : Machine) → P m → P (add_subscriber s m)
  unfolding add_subscriber
  add_subscriber-Stable s m p = elim (Bool-cases (is_some (find_for (to_one s) m))) [
    | inl e ↦ rw e p
    | inr e ↦ rw e (st.relisted m _ _ p)
  ]

  kind_set_inactive-Stable :
      (k : Kind) (s : Subscriber) (m : Machine) → P m → P (kind_set_inactive k s m)
  kind_set_inactive-Stable bit s m p = p
  kind_set_inactive-Stable atl s m p = p
  kind_set_inactive-Stable wifi s m p = st.relisted m _ m.next_addr p
  kind_set_inactive-Stable ds s m p = st.emitted _ _ refl (st.relisted m _ m.next_addr p)

  pub set_inactive-Stable : (s : Subscriber) (m : Machine) → P m → P (set_inactive s m)
  set_inactive-Stable s m p = kind_set_inactive-Stable s.kind s m p
