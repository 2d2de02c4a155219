-- ===== src/Nif/Tests.antt =====
-- The theorems on the engine's machines at short lists of messages.
use android_device_samsung_a.Base.{true, false, none, some, List, [], ◌∷◌}
use android_device_samsung_a.Agps.Subscriber.{atl}
use android_device_samsung_a.Agps.Machine.{
  Env, Machine, pending_state, err_engine_busy, agps, value,
}
use android_device_samsung_a.Agps.Api.{new_machine}
use android_device_samsung_a.Nif.{
  Conf, Nifs, Msg, supl, other, nif_init, bit_msg, request_atl_msg, request_supl_es_msg,
  release_atl_msg, open_success, closed, open_failed, supl_es_closed, subscriber, proc_all, no_nifs,
}
use android_device_samsung_a.Nif.Sound.{IsSound, IsLimited, proc_all-IsSound}

-- The engine is always busy, and the timer starts.
abbrev busy : Env
busy = record { callback_ext = λ log. err_engine_busy; timer_fails = λ log. false }

abbrev conf : Conf
conf = record {
  agps_capable = true;
  use_emergency_pdn = true;
  supports_agps = true;
  data_client = true;
  supl_code = value 1;
  wwan_code = value 2;
}

abbrev msgs : List Msg
msgs =
    nif_init
    ∷ request_atl_msg 1 supl
    ∷ bit_msg supl 9 none true
    ∷ open_success supl (b'a' ∷ []) (value 3)
    ∷ request_supl_es_msg 2
    ∷ supl_es_closed
    ∷ request_atl_msg 3 (other 4)
    ∷ open_failed (other 4)
    ∷ release_atl_msg 1
    ∷ closed supl
    ∷ []

proc_all-IsSound_example :
    let n = proc_all busy conf msgs no_nifs in
    IsSound busy conf n.agnss × IsSound busy conf n.internet × IsLimited busy conf n.ds_nif
proc_all-IsSound_example = proc_all-IsSound busy conf msgs

-- A request waits for the connection.
abbrev waiting : Machine
waiting = record (new_machine agps (value 1) false) {
  subscribers = record (subscriber atl 7 [] false) { addr = 1 } ∷ [];
  state = pending_state;
  next_addr = 2;
}

abbrev nifs : Nifs
nifs = record no_nifs { agnss = some waiting }
