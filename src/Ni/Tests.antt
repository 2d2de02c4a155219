-- ===== src/Ni/Tests.antt =====
-- The theorems on network-initiated requests at short runs.
use android_device_samsung_a.Base.{true, false, none, some, List, [], ◌∷◌}
use android_device_samsung_a.Ni.{
  accept, Session, Ni, Notification, supl, es, Action, requested, responded, restarted, wakes,
  finishes, new_ni,
}

abbrev plain : Notification
plain = record {
  is_emergency = false;
  privacy_override = false;
  timeout = 0;
  thread_created = true;
}

abbrev urgent : Notification
urgent = record plain { is_emergency = true }

abbrev actions : List Action
actions =
    requested plain (some 7)
    ∷ requested urgent (some 8)
    ∷ requested plain (some 7)
    ∷ responded 2 accept
    ∷ wakes supl false
    ∷ wakes es false
    ∷ finishes es
    ∷ restarted
    ∷ []

abbrev waiting_supl : Session
waiting_supl = record (new_ni.session) {
  raw_request = some 7;
  req_id = 1;
  waiting = 1;
  resp = accept;
  resp_time_left = 25;
}

abbrev waiting_es : Session
waiting_es = record (new_ni.session) { raw_request = some 8; req_id = 2; waiting = 1 }

abbrev alone : Ni
alone = record new_ni { session = waiting_supl; req_id_counter = 1 }

abbrev leaving : Ni
leaving = record new_ni {
  session = record (new_ni.session) { finishing = none ∷ [] };
  req_id_counter = 1;
}
