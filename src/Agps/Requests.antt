-- ===== src/Agps/Requests.antt =====
-- What the state machine asked of its servicer last.
use android_device_samsung_a.Base.{ℕ, ◌≡◌, refl, sym, Bool, Option, none, some, List, All}
use android_device_samsung_a.Agps.Subscriber.{RsrcStatus, Subscriber, Notification}
use android_device_samsung_a.Agps.Machine.{
  Env, Machine, State, released_state, pending_state, acquired_state, releasing_state,
  request_data_conn, release_data_conn, notify_rsrc_status, request_supl_es, Code, ServicerType,
  emit,
}
use android_device_samsung_a.Agps.States.{dispatch, state_on}
use android_device_samsung_a.Agps.Api.{set_apn, set_bearer, new_machine}
use android_device_samsung_a.Agps.Frame.{Stable, notify_rsrc_status-Stable}
use android_device_samsung_a.Agps.Dispatch.{Call, IsNoDrop, perform_all, perform_all-Kept}
use android_device_samsung_a.Agps.Reachable.{noticed-IsValid, named-IsValid}
use android_device_samsung_a.Agps.Invariant.{IsValid, dispatch-IsValid, in_state-Stable}
use android_device_samsung_a.Agps.Asking.{state_on-Asked, IsLast-Stable, Asked}

-- A machine between two calls.
record Settled (m : Machine) : Type 0 where
  valid : IsValid m
  asked : Asked m.state m

Asked-Stable : (st : State) → Stable (Asked st)
Asked-Stable released_state = record {
  emitted = λ e m q p. p;
  reset = λ m p. p;
  relisted = λ m xs n p. p;
}
Asked-Stable pending_state = IsLast-Stable request_data_conn
Asked-Stable acquired_state = IsLast-Stable request_data_conn
Asked-Stable releasing_state = IsLast-Stable release_data_conn

Asked-log : (st : State) (m k : Machine) → m.log ≡ k.log → Asked st m → Asked st k
Asked-log released_state m k h q = tt
Asked-log pending_state m k h q = rw (sym h) q
Asked-log acquired_state m k h q = rw (sym h) q
Asked-log releasing_state m k h q = rw (sym h) q

module _ (env : Env) where
  dispatch-Settled :
      (e : RsrcStatus) (s : Option Subscriber) (m : Machine)
      → Settled m
      → Settled (dispatch env e s m)
  unfolding dispatch
  dispatch-Settled e s m v =
      let r = state_on env m.state e s m in
      record {
        valid = dispatch-IsValid env e s m v.valid;
        asked =
            Asked-log r.0 r.1 (dispatch env e s m) refl
              (state_on-Asked env m.state e s m v.valid.base v.valid.fits v.asked);
      }

  noticed-Settled :
      (n : Notification) (s : Subscriber) (m : Machine)
      → Settled m
      → Settled (notify_rsrc_status n s m).1
  noticed-Settled n s m v = record {
    valid = noticed-IsValid env n s m v.valid;
    asked =
        rw (notify_rsrc_status-Stable (in_state-Stable m.state) n s m refl)
          (notify_rsrc_status-Stable (Asked-Stable m.state) n s m v.asked);
  }

  named-Settled :
      (text : Option (List ℕ)) (len : ℕ) (m : Machine) → Settled m → Settled (set_apn text len m)
  unfolding set_apn
  named-Settled none len m v = record {
    valid = named-IsValid env none len m v.valid;
    asked = Asked-log m.state m (set_apn none len m) refl v.asked;
  }
  named-Settled (some text) len m v = record {
    valid = named-IsValid env (some text) len m v.valid;
    asked = Asked-log m.state m (set_apn (some text) len m) refl v.asked;
  }

  carried-Settled : (bearer : Code) (m : Machine) → Settled m → Settled (set_bearer bearer m)
  carried-Settled bearer m v = record {
    valid = record { base = v.valid.base; fits = v.valid.fits };
    asked = Asked-log m.state m (set_bearer bearer m) refl v.asked;
  }

  retried-Settled : (id : ℕ) (m : Machine) → Settled m → Settled (emit (request_supl_es id) m)
  retried-Settled id m v = record {
    valid = record { base = v.valid.base; fits = v.valid.fits };
    asked = (Asked-Stable m.state).emitted (request_supl_es id) m refl v.asked;
  }

  -- Whatever calls but `dropAllSubscribers` a machine that is no `DSStateMachine` gets after its
  -- construction: the latest request to its servicer is for the data connection when the NIF is
  -- pending or acquired, and for its release when it is releasing. Of a released machine nothing
  -- is said.
  pub perform_all-Asked :
      (servicer : ServicerType) (nif_type : Code) (enforce_single : Bool) (calls : List Call)
      → All IsNoDrop calls
      → let m = perform_all env calls (new_machine servicer nif_type enforce_single) in
        Asked m.state m
  perform_all-Asked servicer nif_type enforce_single calls kept =
      (perform_all-Kept env noticed-Settled retried-Settled dispatch-Settled named-Settled
        carried-Settled (λ m d v. absurd d) calls _ kept
        (record { valid = record { base = refl; fits = refl }; asked = tt })).asked
