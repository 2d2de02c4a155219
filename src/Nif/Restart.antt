-- ===== src/Nif/Restart.antt =====
-- An engine restart drops the subscribers and leaves the machines in their states.
use android_device_samsung_a.Base.{
  ℕ, ◌≡◌, refl, sym, ap, ◌∙◌, subst, Bool, false, some, List, [], take, length,
}
use android_device_samsung_a.Agps.Machine.{Env, Machine, Code, State, pending_state, acquired_state}
use android_device_samsung_a.Agps.Subscriber.{granted}
use android_device_samsung_a.Agps.Notify.{notify_subscribers}
use android_device_samsung_a.Agps.States.{dispatch, pending_on}
use android_device_samsung_a.Agps.Api.{on_rsrc_event, base_on_rsrc_event, set_apn, set_bearer}
use android_device_samsung_a.Nif.{
  Conf, Nifs, supl, get_machine, on_found, agnss_one, atl_open_success, drop_subscribers, drop_in,
  open_success, proc,
}

module _ (env : Env) (conf : Conf) where
  -- The machine that has opened, with nobody subscribed.
  abbrev pub opened : List ℕ → Code → Machine → Machine
  opened text bearer m = record m {
    state = acquired_state;
    subscribers = [];
    apn = some (take (length text) text);
    apn_len = length text;
    bearer = bearer;
  }

  granted_alone :
      (text : List ℕ) (bearer : Code) (st : State) (d : Bool) (m : Machine)
      → pending_state ≡ st
      → false ≡ d
      → on_rsrc_event env granted (
          set_apn
            (some text)
            (length text)
            (set_bearer bearer (record m { subscribers = []; state = st; is_ds = d })))
        ≡ record (opened text bearer m) { is_ds = d }
  unfolding on_rsrc_event base_on_rsrc_event dispatch pending_on notify_subscribers set_apn
  granted_alone text bearer st d m e f =
      subst
        (λ s.
          on_rsrc_event env granted (
            set_apn (some text) (length text)
              (set_bearer bearer (record m { subscribers = []; state = s; is_ds = d })))
          ≡ record (opened text bearer m) { is_ds = d })
        e
        (subst
          (λ b.
            on_rsrc_event env granted (
              set_apn (some text) (length text) (
                set_bearer bearer
                  (record m { subscribers = []; state = pending_state; is_ds = b })))
            ≡ record (opened text bearer m) { is_ds = b })
          f refl)

  -- While the NIF is pending the engine restarts, which drops the subscribers; the connection is then
  -- opened: the machine is in the state Acquired with nobody subscribed, and it has made no call at
  -- all, so no request to release the connection.
  restart-orphans :
      (n : Nifs) (m : Machine) (text : List ℕ) (bearer : Code)
      → n.agnss ≡ some m
      → m.state ≡ pending_state
      → m.is_ds ≡ false
      → (proc env conf (open_success supl text bearer) (drop_subscribers n)).agnss
        ≡ some (opened text bearer m)
  unfolding proc atl_open_success get_machine drop_subscribers
  restart-orphans n m text bearer e pending base =
      ap
        (λ o.
          (on_found agnss_one
            (λ k.
              on_rsrc_event env granted (set_apn (some text) (length text) (set_bearer bearer k)))
            (drop_in o) (drop_subscribers n)).agnss)
        e
      ∙ ap some (granted_alone text bearer m.state m.is_ds m (sym pending) (sym base))
