-- ===== src/Engine/Tests.antt =====
-- The theorems on the engine at short lists of messages.
use android_device_samsung_a.Base.{
  ℕ, zero, ◌≡◌, ◌≢◌, refl, true, false, none, some, List, [], ◌∷◌, All, arith,
}
use android_device_samsung_a.Ni
use android_device_samsung_a.Nif.{no_nifs, Conf}
use android_device_samsung_a.Agps.Machine.{err_engine_busy, value}
use android_device_samsung_a.Engine.Servers.{supl_server, cdma_pde, mpc, Names}
use android_device_samsung_a.Engine.Resending.{Request}
use android_device_samsung_a.Engine.Session.{
  told_nmea, no_status, session_begin, engine_on, no_mute, wait, valid_mode, Criteria, without_mode,
  success, Engine, Setup, fix_started,
}
use android_device_samsung_a.Engine.Reports.{Position, fix_success}
use android_device_samsung_a.Engine.Restart.{
  Msg, start_msg, stop_msg, down_msg, up_msg, mode_msg, position_msg, sv_msg, status_msg, ni_msg,
  nmea_msg, measurement_msg, proc, proc_all,
}
use android_device_samsung_a.Engine.Muting.{Keeps, reports, proc_all-silent}
use android_device_samsung_a.Engine.Navigating.{
  last_told, is_fix_wanted, IsConsistent, proc_all-IsConsistent,
}
use android_device_samsung_a.Engine.Recovery.{commands, engine_up-restarts}

abbrev names : Names
names = record { printed = λ n. n ∷ []; is_none = λ s. false; resolve = λ s. some 9 }

abbrev conf : Conf
conf = record {
  agps_capable = true;
  use_emergency_pdn = true;
  supports_agps = true;
  data_client = true;
  supl_code = value 1;
  wwan_code = value 2;
}

-- Every callback is there, and each start succeeds.
abbrev setup : Setup
setup = record {
  location_cb = true;
  sv_cb = true;
  status_cb = true;
  agps_cb = true;
  nmea_cb = true;
  measurement_cb = true;
  intermediate_fix = true;
  accuracy_thres = 10;
  generate_nmea = true;
  sensor_properties_given = true;
  names = names;
  undefined = λ svid i. false;
  agps = record { callback_ext = λ log. err_engine_busy; timer_fails = λ log. false };
  conf = conf;
  start_fix = λ log. success;
}

abbrev unused : Ni.Session
unused = record {
  resp_time_left = 0;
  resp_recvd = false;
  raw_request = none;
  req_id = 0;
  resp = Ni.unset;
  waiting = 0;
  finishing = [];
}

abbrev ni : Ni.Ni
ni = record {
  inited = true;
  session = unused;
  session_es = unused;
  req_id_counter = 0;
  sent = [];
  freed = [];
  muted = 0;
  notified = [];
}

abbrev criteria : Criteria
criteria = record { mode = valid_mode 1; single = false; rest = 0 }

abbrev idle : Engine
idle = record {
  engine_status = no_status;
  fix_session_status = no_status;
  aiding = 0;
  mute = no_mute;
  navigating = false;
  criteria = criteria;
  sv_used = none;
  ni = ni;
  nifs = no_nifs;
  servers = record { supl_host = some (b'h' ∷ [], 7); c2k_host = none };
  log = [];
}

abbrev position : Position
position = record {
  location = 5;
  status = fix_success;
  by_satellites = true;
  has_accuracy = true;
  above_threshold = false;
  used = none;
  raw_data = true;
}

abbrev request : Ni.Notification
request = record {
  is_emergency = false;
  privacy_override = false;
  timeout = 0;
  thread_created = true;
}

abbrev quiet_msgs : List Msg
quiet_msgs =
    start_msg
    ∷ position_msg position
    ∷ sv_msg []
    ∷ nmea_msg (b'$' ∷ [])
    ∷ measurement_msg 5
    ∷ ni_msg request (some 1)
    ∷ up_msg
    ∷ status_msg engine_on
    ∷ []

quiet_msgs-Keeps : All Keeps quiet_msgs
quiet_msgs-Keeps = (tt, (tt, (tt, (tt, (tt, (refl, (tt, (tt, tt))))))))

proc_all-silent_example :
    reports
      (proc_all setup (status_msg session_begin ∷ quiet_msgs) (record idle { mute = wait })).log
    ≡ told_nmea (b'$' ∷ []) ∷ []
unfolding reports
proc_all-silent_example =
    proc_all-silent setup session_begin quiet_msgs (record idle { mute = wait }) refl refl
      quiet_msgs-Keeps

abbrev msgs : List Msg
msgs =
    mode_msg criteria
    ∷ start_msg
    ∷ status_msg session_begin
    ∷ position_msg position
    ∷ down_msg
    ∷ up_msg
    ∷ ni_msg request none
    ∷ stop_msg
    ∷ start_msg
    ∷ []

never_on : idle.navigating ≡ true → is_fix_wanted idle.log ≡ true
never_on h = cc

proc_all-IsConsistent_example : IsConsistent (proc_all setup msgs idle)
unfolding last_told
proc_all-IsConsistent_example = proc_all-IsConsistent setup msgs idle (refl, never_on)

engine_up-restarts_example :
    commands (proc setup up_msg (record idle { navigating = true })).log
    ≡ fix_started (without_mode criteria) ∷ []
unfolding commands
engine_up-restarts_example = engine_up-restarts setup (record idle { navigating = true }) refl

abbrev on : Engine
on = record idle { engine_status = engine_on }

abbrev two : ℕ
two = 2

two_not_zero : two ≢ zero
two_not_zero e = ground arith

abbrev server_calls : List Request
server_calls =
    (supl_server, b'a' ∷ [], 1)
    ∷ (cdma_pde, b'b' ∷ [], 2)
    ∷ (mpc, b'c' ∷ [], 3)
    ∷ (supl_server, b'd' ∷ [], 4)
    ∷ []

-- Before `loc_eng_init`.
abbrev early_calls : List Request
early_calls = (cdma_pde, b'e' ∷ [], 5) ∷ []
