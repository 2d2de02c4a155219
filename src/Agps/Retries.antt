-- ===== src/Agps/Retries.antt =====
-- `DSStateMachine`: the retries of a data call, the fallback, and RELEASED taken for DENIED.
use android_device_samsung_a.Base.{
  ℕ, ◌≡◌, refl, sym, ◌∙◌, ap, true, false, Option, none, some, List, ◌∷◌, arith, inl, inr,
  Bool-cases, ◌%◌, ◌≤◌, ◌+◌, ltb, zero, suc,
}
use android_device_samsung_a.Agps.Subscriber.{RsrcStatus, released, denied}
use android_device_samsung_a.Agps.Machine.{
  request_data_conn, Env, Machine, State, released_state, pending_state, acquired_state,
  releasing_state, Effect, ServicerType, Ret, err_engine_busy, err_success, err_unsupported,
  err_minus_one, err_other, StatusValue, send_rsrc_request, base_send_rsrc_request,
  ds_send_rsrc_request, ds_busy, ds_outcome, servicer_result, first_active, conn_handle, emit,
  request_atl, start_timer, ds_callback, ext, max_start_data_call_retries,
}
use android_device_samsung_a.Agps.States.{dispatch, pending_on, state_on}
use android_device_samsung_a.Agps.Api.{
  same_state, set_apn, new_ds_machine, on_rsrc_event, ds_on_rsrc_event,
}
use android_device_samsung_a.Agps.Frame.{Stable, notify_rsrc_status-Stable}
use android_device_samsung_a.Agps.Invariant.{send_base}
use android_device_samsung_a.Agps.Dispatch.{
  Kept, any-Allowed, Call, perform_all, perform_all-Kept, dispatch-Kept,
}

-- The calls of `n` busy answers that are tried again.
abbrev pub tries : ℕ → List Effect → List Effect
tries zero log = log
tries (suc n) log = start_timer ∷ ds_callback request_data_conn ∷ tries n log

abbrev pub IsBounded : Machine → Type 0
IsBounded m = m.retries ≤ max_start_data_call_retries

IsBounded-Stable : Stable IsBounded
IsBounded-Stable = record {
  emitted = λ e m q p. p;
  reset = λ m p. omega arith;
  relisted = λ m xs a p. p;
}

module _ (env : Env) where
  busy-IsBounded : (h : ℕ) (m : Machine) → IsBounded m → IsBounded (ds_busy env h m).1
  busy-IsBounded h m p = ground arith

  outcome-IsBounded :
      (r : Ret) (h : ℕ) (m : Machine) → IsBounded m → IsBounded (ds_outcome env r h m).1
  outcome-IsBounded err_engine_busy h m p = busy-IsBounded h m p
  outcome-IsBounded err_unsupported h m p = omega arith
  outcome-IsBounded err_success h m p = p
  outcome-IsBounded err_minus_one h m p = omega arith
  outcome-IsBounded (err_other n) h m p = p

  ds_send-IsBounded :
      (a : StatusValue) (m : Machine) → IsBounded m → IsBounded (ds_send_rsrc_request env a m).1
  unfolding ds_send_rsrc_request
  ds_send-IsBounded a m p =
      let k = emit (ds_callback a) m in
      outcome-IsBounded (servicer_result env m.servicer k.log) (conn_handle (first_active k)) k p

  base_send-IsBounded :
      (a : StatusValue) (m : Machine) → IsBounded m → IsBounded (base_send_rsrc_request a m).1
  unfolding base_send_rsrc_request
  base_send-IsBounded a m p = ground arith

  pub send_ds :
      (a : StatusValue) (m : Machine)
      → m.is_ds ≡ true
      → send_rsrc_request env a m ≡ ds_send_rsrc_request env a m
  unfolding send_rsrc_request
  send_ds a m d = simp d

  send-IsBounded :
      (a : StatusValue) (m : Machine) → IsBounded m → IsBounded (send_rsrc_request env a m).1
  send-IsBounded a m p = elim (Bool-cases m.is_ds) [
    | inl e ↦ rw (send_ds a m e) (ds_send-IsBounded a m p)
    | inr e ↦ rw (send_base env a m e) (base_send-IsBounded a m p)
  ]

  named-IsBounded :
      (text : Option (List ℕ)) (len : ℕ) (m : Machine)
      → IsBounded m
      → IsBounded (set_apn text len m)
  unfolding set_apn
  named-IsBounded none len m p = p
  named-IsBounded (some text) len m p = p

  IsBounded-Kept : Kept env IsBounded
  IsBounded-Kept = record {
    stable = IsBounded-Stable;
    sent = send-IsBounded;
    moved = λ st m p. p;
    named = named-IsBounded;
  }

  -- Whatever calls a data services machine gets after its construction, and whatever the outside
  -- world answers, the count of retries never passes `MAX_START_DATA_CALL_RETRIES`.
  pub perform_all-IsBounded :
      (servicer : ServicerType) (calls : List Call)
      → IsBounded (perform_all env calls (new_ds_machine servicer))
  perform_all-IsBounded servicer calls =
      perform_all-Kept env (notify_rsrc_status-Stable IsBounded-Stable) (λ id m p. p)
        (dispatch-Kept IsBounded-Kept) named-IsBounded (λ b m p. p) (λ m d p. p) calls _
        (any-Allowed calls) (omega arith)

  -- `n` requests for the data connection, one behind the other.
  unfoldable pub ask : ℕ → Machine → Machine
  ask zero m = m
  ask (suc n) m = (ds_send_rsrc_request env request_data_conn (ask n m)).1

  module _ (busy : (log : List Effect) → env.callback_ext log ≡ err_engine_busy) where
    busy_result :
        (m : Machine) (log : List Effect)
        → m.servicer ≡ ext
        → servicer_result env m.servicer log ≡ err_engine_busy
    busy_result m log e = ap (λ s. servicer_result env s log) e ∙ busy log

    ds_busy-retry :
        (h : ℕ) (m : Machine)
        → m.retries ≤ 3
        → (ds_busy env h m).1 ≡ record m { retries = m.retries + 1; log = start_timer ∷ m.log }
    ds_busy-retry h m p =
        let small : (m.retries + 1) % 256 ≡ m.retries + 1 = omega arith in
        let below : ltb max_start_data_call_retries (m.retries + 1) ≡ false = ground arith in
        elim (Bool-cases (env.timer_fails (start_timer ∷ m.log))) [
          | inl t ↦ simp (small, below, t)
          | inr t ↦ simp (small, below, t)
        ]

    ds_busy-last :
        (h : ℕ) (m : Machine)
        → m.retries ≡ 4
        → (ds_busy env h m).1 ≡ record m { retries = 0; log = request_atl h ∷ m.log }
    ds_busy-last h m p = simp p

    retry :
        (m : Machine)
        → m.servicer ≡ ext
        → m.retries ≤ 3
        → (ds_send_rsrc_request env request_data_conn m).1 ≡ record m {
          retries = m.retries + 1;
          log = start_timer ∷ ds_callback request_data_conn ∷ m.log;
        }
    unfolding ds_send_rsrc_request
    retry m e p =
        rw (busy_result m (ds_callback request_data_conn ∷ m.log) e)
          (ds_busy-retry (conn_handle (first_active m)) (emit (ds_callback request_data_conn) m) p)

    ask-tries :
        (n : ℕ) (m : Machine)
        → n ≤ 4
        → m.servicer ≡ ext
        → m.retries ≡ 0
        → ask n m ≡ record m { retries = n; log = tries n m.log }
    unfolding ask
    ask-tries zero m p e r = ap (λ k. record m { retries = k }) r
    ask-tries (suc n) m p e r =
        let next : n + 1 ≡ suc n = omega arith in
        ap (λ k. (ds_send_rsrc_request env request_data_conn k).1) (ask-tries n m (omega arith) e r)
        ∙ retry (record m { retries = n; log = tries n m.log }) e (omega arith)
        ∙ ap (λ k. record m { retries = k; log = tries (suc n) m.log }) next

    -- While the engine answers that it is busy, requests of a data services machine with an
    -- external servicer and no retries yet start a timer each; the fifth gives up: it requests the
    -- ATL connection instead, for the first active subscriber (-1 without one), and counts from
    -- zero again.
    pub ask-fallback :
        (m : Machine)
        → m.servicer ≡ ext
        → m.retries ≡ 0
        → ask 5 m ≡ record m {
          retries = 0;
          log =
              request_atl (conn_handle (first_active m))
              ∷ ds_callback request_data_conn
              ∷ tries 4 m.log;
        }
    unfolding ask ds_send_rsrc_request
    ask-fallback m e r =
        let k : Machine = record m { retries = 4; log = tries 4 m.log } in
        let asking : Machine = emit (ds_callback request_data_conn) k in
        ap (λ j. (ds_send_rsrc_request env request_data_conn j).1) (ask-tries 4 m (omega arith) e r)
        ∙ rw (busy_result k asking.log e) (ds_busy-last (conn_handle (first_active k)) asking refl)

same_state_refl : (st : State) → same_state st st ≡ true
same_state_refl released_state = refl
same_state_refl pending_state = refl
same_state_refl acquired_state = refl
same_state_refl releasing_state = refl

dispatch-ignored :
    (env : Env) (m : Machine) → m.state ≡ pending_state → dispatch env released none m ≡ m
unfolding dispatch pending_on
dispatch-ignored env m e =
    ap (λ st. let r = state_on env st released none m in record (r.1) { state = r.0 }) e
    ∙ ap (λ st. record m { state = st }) (sym e)

is_ds-event :
    (env : Env) (event : RsrcStatus) (m : Machine)
    → m.is_ds ≡ true
    → on_rsrc_event env event m ≡ ds_on_rsrc_event env event m
unfolding on_rsrc_event
is_ds-event env event m d = simp d

-- In the state Pending, which a RELEASED does not leave, a data services machine takes a RELEASED
-- for a DENIED.
pub ds_released-denied :
    (env : Env) (m : Machine)
    → m.is_ds ≡ true
    → m.state ≡ pending_state
    → on_rsrc_event env released m ≡ on_rsrc_event env denied m
unfolding ds_on_rsrc_event
ds_released-denied env m d e = rw (
  is_ds-event env released m d,
  is_ds-event env denied m d,
  dispatch-ignored env m e,
  same_state_refl m.state,
)
