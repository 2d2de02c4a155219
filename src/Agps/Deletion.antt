-- ===== src/Agps/Deletion.antt =====
-- An UNSUBSCRIBE and the memory of the subscriber that it deletes.
use android_device_samsung_a.Base.{
  ℕ, suc, ==_refl, ◌≡◌, refl, sym, ap, subst, ◌≢◌, Bool, true, false, ◌||◌, ◌==◌, Option, none,
  some, List, [], ◌∷◌, arith, inl, inr, Bool-cases, length,
}
use android_device_samsung_a.LinkedList.Abstract.{search}
use android_device_samsung_a.Agps.Subscriber.{
  Subscriber, unsubscribe, notify_one, to_one, atl, waits_for_close,
}
use android_device_samsung_a.Agps.Machine.{
  Env, Machine, State, released_state, pending_state, acquired_state, releasing_state, Ret,
  err_success, err_engine_busy, err_unsupported, err_minus_one, err_other, ds_busy, ds_outcome,
  servicer_result, conn_handle, first_active, Effect, read_freed, request_rsrc, ds_callback,
  server_data_conn, atl_close_status, atl_open_status, request_atl, close_data_call,
  request_supl_es, start_timer, emit, notify_subscriber, notify_rsrc_status, find_for, nonempty,
  send_rsrc_request, base_send_rsrc_request, ds_send_rsrc_request, StatusValue,
}
use android_device_samsung_a.Agps.Notify.{notify_loop, notify_subscribers, read_receiver}
use android_device_samsung_a.Agps.States.{
  dispatch, pending_on, acquired_on, releasing_on, leave, state_on,
}
use android_device_samsung_a.Agps.Dispatch.{Kept, release_if_unused-Kept}
use android_device_samsung_a.Agps.Api.{unsubscribe_rsrc, set_apn}
use android_device_samsung_a.Agps.Invariant.{send_base}
use android_device_samsung_a.Agps.Retries.{send_ds}
use android_device_samsung_a.Agps.Frame.{Stable, search-Stable, loop-Stable, after_search-Stable}

-- Whether the object at `addr` was read after its deletion.
abbrev pub reads_freed : ℕ → List Effect → Bool
reads_freed addr [] = false
reads_freed addr (read_freed a ∷ log) = (a == addr) || reads_freed addr log
reads_freed addr (request_rsrc r ∷ log) = reads_freed addr log
reads_freed addr (server_data_conn a b ∷ log) = reads_freed addr log
reads_freed addr (atl_close_status a ∷ log) = reads_freed addr log
reads_freed addr (atl_open_status a b c d e ∷ log) = reads_freed addr log
reads_freed addr (ds_callback a ∷ log) = reads_freed addr log
reads_freed addr (request_atl a ∷ log) = reads_freed addr log
reads_freed addr (close_data_call ∷ log) = reads_freed addr log
reads_freed addr (request_supl_es a ∷ log) = reads_freed addr log
reads_freed addr (start_timer ∷ log) = reads_freed addr log

abbrev Reads : ℕ → Machine → Type 0
Reads addr m = reads_freed addr m.log ≡ true

reads_freed-emit :
    (addr : ℕ) (e : Effect) (log : List Effect)
    → reads_freed addr log ≡ true
    → reads_freed addr (e ∷ log) ≡ true
reads_freed-emit addr (read_freed a) log h = ground arith
reads_freed-emit addr (request_rsrc r) log h = h
reads_freed-emit addr (server_data_conn a b) log h = h
reads_freed-emit addr (atl_close_status a) log h = h
reads_freed-emit addr (atl_open_status a b c d e) log h = h
reads_freed-emit addr (ds_callback a) log h = h
reads_freed-emit addr (request_atl a) log h = h
reads_freed-emit addr close_data_call log h = h
reads_freed-emit addr (request_supl_es a) log h = h
reads_freed-emit addr start_timer log h = h

Reads-Stable : (addr : ℕ) → Stable (Reads addr)
Reads-Stable addr = record {
  emitted = λ e m q p. reads_freed-emit addr e m.log p;
  reset = λ m p. p;
  relisted = λ m xs a p. p;
}

read-Reads :
    (s : Subscriber) (m : Machine)
    → nonempty m.subscribers ≡ true
    → Reads s.addr (read_receiver true (some s) m)
read-Reads s m h = simp (h, ==_refl s.addr)

-- A round behind the deletion of the receiver, with somebody left to ask.
round-Reads :
    (fuel : ℕ) (s : Subscriber) (m : Machine)
    → nonempty m.subscribers ≡ true
    → Reads s.addr (notify_loop (suc fuel) (notify_one s unsubscribe true) true m)
unfolding notify_loop
round-Reads fuel s m h =
    let n = notify_one s unsubscribe true in
    let m1 : Machine = read_receiver true n.rcver m in
    let read : Reads s.addr m1 = read-Reads s m h in
    let q = search-Stable (Reads-Stable s.addr) n m1.subscribers m1 read in
    after_search-Stable (Reads-Stable s.addr) (λ x k. notify_loop fuel n true k)
      (search (notify_subscriber n) m1.subscribers m1) q
      λ x k pk. loop-Stable (Reads-Stable s.addr) fuel n true k pk

told_atl :
    (s : Subscriber) (m : Machine)
    → s.kind ≡ atl
    → notify_subscriber (notify_one s unsubscribe true) s m ≡ (true, emit (atl_close_status s.id) m)
unfolding notify_subscriber notify_rsrc_status
told_atl s m k = simp (k, ==_refl s.id)

-- The first round deletes the receiver.
notify-Reads :
    (s t : Subscriber) (rest : List Subscriber) (m : Machine)
    → s.kind ≡ atl
    → Reads s.addr (
        notify_subscribers
          (notify_one s unsubscribe true)
          (record m { subscribers = s ∷ t ∷ rest }))
unfolding notify_subscribers notify_loop
notify-Reads s t rest m k =
    simp (told_atl s (record m { subscribers = s ∷ t ∷ rest }) k, ==_refl s.addr)
      (round-Reads (suc (length rest)) s
        (record m { subscribers = t ∷ rest; log = atl_close_status s.id ∷ m.log }) refl)

module _ (env : Env) where
  leave-Reads :
      (s t : Subscriber) (rest : List Subscriber) (m : Machine)
      → s.kind ≡ atl
      → m.subscribers ≡ s ∷ t ∷ rest
      → Reads s.addr (leave env s m)
  leave-Reads s t rest m k e =
      let told_now : waits_for_close s.kind ≡ false = ap waits_for_close k in
      rw told_now (
        subst
          (λ xs.
            Reads s.addr
              (notify_subscribers (notify_one s unsubscribe true) (record m { subscribers = xs })))
          (sym e) (notify-Reads s t rest m k))

  busy-Reads : (addr h : ℕ) (m : Machine) → Reads addr m → Reads addr (ds_busy env h m).1
  busy-Reads addr h m p = ground arith

  outcome-Reads :
      (addr : ℕ) (r : Ret) (h : ℕ) (m : Machine)
      → Reads addr m
      → Reads addr (ds_outcome env r h m).1
  outcome-Reads addr err_engine_busy h m p = busy-Reads addr h m p
  outcome-Reads addr err_unsupported h m p = p
  outcome-Reads addr err_success h m p = p
  outcome-Reads addr err_minus_one h m p = p
  outcome-Reads addr (err_other n) h m p = p

  ds_send-Reads :
      (addr : ℕ) (a : StatusValue) (m : Machine)
      → Reads addr m
      → Reads addr (ds_send_rsrc_request env a m).1
  unfolding ds_send_rsrc_request
  ds_send-Reads addr a m p =
      let k = emit (ds_callback a) m in
      outcome-Reads addr (servicer_result env m.servicer k.log) (conn_handle (first_active k)) k p

  base_send-Reads :
      (addr : ℕ) (a : StatusValue) (m : Machine)
      → Reads addr m
      → Reads addr (base_send_rsrc_request a m).1
  unfolding base_send_rsrc_request
  base_send-Reads addr a m p = ground arith

  send-Reads :
      (addr : ℕ) (a : StatusValue) (m : Machine)
      → Reads addr m
      → Reads addr (send_rsrc_request env a m).1
  send-Reads addr a m p = elim (Bool-cases m.is_ds) [
    | inl e ↦ rw (send_ds env a m e) (ds_send-Reads addr a m p)
    | inr e ↦ rw (send_base env a m e) (base_send-Reads addr a m p)
  ]

  named-Reads :
      (addr : ℕ) (text : Option (List ℕ)) (len : ℕ) (m : Machine)
      → Reads addr m
      → Reads addr (set_apn text len m)
  unfolding set_apn
  named-Reads addr none len m p = p
  named-Reads addr (some text) len m p = p

  Reads-Kept : (addr : ℕ) → Kept env (Reads addr)
  Reads-Kept addr = record {
    stable = Reads-Stable addr;
    sent = send-Reads addr;
    moved = λ st m p. p;
    named = named-Reads addr;
  }

  state_on-Reads :
      (st : State) (s : Subscriber) (m : Machine)
      → st ≢ released_state
      → Reads s.addr (leave env s m)
      → Reads s.addr (state_on env st unsubscribe (some s) m).1
  unfolding pending_on acquired_on releasing_on
  state_on-Reads released_state s m w p = absurd (w refl)
  state_on-Reads pending_state s m w p =
      release_if_unused-Kept (Reads-Kept s.addr) pending_state (leave env s m) p
  state_on-Reads acquired_state s m w p =
      release_if_unused-Kept (Reads-Kept s.addr) acquired_state (leave env s m) p
  state_on-Reads releasing_state s m w p = p

  -- Where an ATL subscriber is at the head of the list of a machine that is not released, with
  -- another subscriber behind it, `unsubscribeRsrc` for it reads its object after the deletion.
  pub unsubscribe_rsrc-reads_freed :
      (x s t : Subscriber) (rest : List Subscriber) (m : Machine)
      → m.state ≢ released_state
      → m.subscribers ≡ s ∷ t ∷ rest
      → s.kind ≡ atl
      → s.id ≡ x.id
      → reads_freed s.addr (unsubscribe_rsrc env x m).1.log ≡ true
  unfolding unsubscribe_rsrc dispatch
  unsubscribe_rsrc-reads_freed x s t rest m w e k same =
      let found : find_for (to_one x) m ≡ some s = simp (e, k, same, ==_refl x.id) in
      rw found (state_on-Reads m.state s m w (leave-Reads s t rest m k e))
