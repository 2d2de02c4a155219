-- ===== src/Agps/Tests.antt =====
-- The theorems on the state machines at small machines and short lists of calls.
use android_device_samsung_a.Base.{All, ℕ, ◌≡◌, ◌≢◌, refl, true, false, none, List, [], ◌∷◌}
use android_device_samsung_a.Agps.Subscriber.{
  granted, released, denied, Kind, atl, wifi, ds, Subscriber, Notification, broadcast,
  broadcast_all,
}
use android_device_samsung_a.Agps.Machine.{
  Env, Machine, released_state, pending_state, acquired_state, request_atl, ds_callback,
  request_data_conn, err_engine_busy, agps, ext, value,
}
use android_device_samsung_a.Agps.Notify.{notify_subscribers}
use android_device_samsung_a.Agps.Api.{new_machine, new_ds_machine, unsubscribe_rsrc}
use android_device_samsung_a.Agps.Pass.{passed, notify_subscribers-passed}
use android_device_samsung_a.Agps.Dispatch.{
  Call, IsNoDrop, subscribing, unsubscribing, event, retry, perform_all,
}
use android_device_samsung_a.Agps.Invariant.{IsValid}
use android_device_samsung_a.Agps.Reachable.{perform_all-IsValid}
use android_device_samsung_a.Agps.Requests.{perform_all-Asked}
use android_device_samsung_a.Agps.Asking.{Asked}
use android_device_samsung_a.Agps.Retries.{
  IsBounded, tries, ask, perform_all-IsBounded, ask-fallback,
}
use android_device_samsung_a.Agps.Machine.{releasing_state}
use android_device_samsung_a.Agps.Deletion.{reads_freed, unsubscribe_rsrc-reads_freed}

-- The engine is always busy, and the timer starts.
abbrev env : Env
env = record { callback_ext = λ log. err_engine_busy; timer_fails = λ log. false }

abbrev make : Kind → (addr id : ℕ) → Subscriber
make kind addr id = record {
  addr = addr;
  kind = kind;
  id = id;
  ipv6_addr = [];
  backward_compatible = false;
  sender_id = id;
  ssid = none;
  password = none;
  is_inactive = false;
}

-- One subscriber waits for the close while another comes.
abbrev calls : List Call
calls =
    subscribing (make wifi 100 1)
    ∷ event granted
    ∷ unsubscribing (make wifi 100 1)
    ∷ subscribing (make atl 101 2)
    ∷ event released
    ∷ event granted
    ∷ []

calls-IsNoDrop : All IsNoDrop calls
calls-IsNoDrop = (tt, (tt, (tt, (tt, (tt, (tt, tt))))))

perform_all-IsValid_example : IsValid (perform_all env calls (new_machine agps (value 1) false))
perform_all-IsValid_example = perform_all-IsValid env agps (value 1) false calls calls-IsNoDrop

perform_all-Asked_example :
    let m = perform_all env calls (new_machine agps (value 1) false) in Asked m.state m
perform_all-Asked_example = perform_all-Asked env agps (value 1) false calls calls-IsNoDrop

abbrev ds_calls : List Call
ds_calls = subscribing (make ds 100 1) ∷ subscribing (make ds 101 1) ∷ retry ∷ event denied ∷ []

perform_all-IsBounded_example : IsBounded (perform_all env ds_calls (new_ds_machine ext))
perform_all-IsBounded_example = perform_all-IsBounded env ext ds_calls

abbrev ds_machine : Machine
ds_machine = record (new_ds_machine ext) { subscribers = make ds 1 7 ∷ []; state = pending_state }

ask-fallback_example : ask env 5 ds_machine ≡ record ds_machine {
  retries = 0;
  log = request_atl 7 ∷ ds_callback request_data_conn ∷ tries 4 [];
}
ask-fallback_example = ask-fallback env (λ log. refl) ds_machine refl refl

abbrev two : Machine
two = record (new_machine agps (value 1) false) {
  subscribers = make atl 1 7 ∷ make atl 2 8 ∷ [];
  state = acquired_state;
  next_addr = 3;
}

not_released : acquired_state ≢ released_state
not_released e = cc

unsubscribe_rsrc-reads_freed_example :
    reads_freed 1 (unsubscribe_rsrc env (make atl 100 7) two).1.log ≡ true
unsubscribe_rsrc-reads_freed_example =
    unsubscribe_rsrc-reads_freed env (make atl 100 7) (make atl 1 7) (make atl 2 8) [] two
      not_released refl refl refl

abbrev dismissed : Notification
dismissed = broadcast broadcast_all denied true

notify_subscribers-passed_example :
    notify_subscribers dismissed two ≡ passed dismissed refl refl two
notify_subscribers-passed_example = notify_subscribers-passed dismissed refl refl two

-- A WIFI subscriber waits for the close.
abbrev closing : Machine
closing = record (new_machine agps (value 1) false) {
  subscribers = record (make wifi 1 7) { is_inactive = true } ∷ [];
  state = releasing_state;
  next_addr = 2;
}
