-- ===== src/Ni.antt =====
-- gps/loc_api/libloc_api_50001/loc_eng_ni.cpp: network-initiated (NI) location requests, a session
-- for SUPL and one for emergency SUPL (ES).
--
-- Each request that is accepted spawns a thread, which waits for the user's response or a timeout.
-- A session counts its threads in the wait; one that has left the wait under the session's lock
-- still has its last lines to run, which hold no lock, and is in `finishing` with its message. A
-- payload is what `passThrough` points to, `none` if NULL. Logging is left out.
pub mod Payloads
pub mod Races
mod Tests
use android_device_samsung_a.Base.{
  ℕ, zero, suc, ◌+◌, Bool, true, false, ◌&&◌, ◌||◌, not, Option, none, some, List, [], ◌∷◌, ◌++◌,
  ◌==◌, if◌then◌else◌,
}

-- `GpsUserResponseType`; `unset` is the 0 of memory that nobody wrote.
pub data Response : Type 0 where
  unset accept deny no_response ignored : Response

-- `LocEngInformNiResponse`: the response, and the payload that it owns.
abbrev pub Message : Type 0
Message = Response × ℕ

-- `loc_eng_ni_session_s_type`
pub record Session : Type 0 where
  pub resp_time_left : ℕ
  pub resp_recvd : Bool
  pub raw_request : Option ℕ
  pub req_id : ℕ
  pub resp : Response
  pub waiting : ℕ
  pub finishing : List (Option Message)

-- `loc_eng_ni_data_s_type`, with `ni_notify_cb` (NULL or not), the messages sent to the adapter, the
-- payloads freed, the sessions muted and the notifications shown, the latest first.
pub record Ni : Type 0 where
  pub inited : Bool
  pub session : Session
  pub session_es : Session
  pub req_id_counter : ℕ
  pub sent : List Message
  pub freed : List ℕ
  pub muted : ℕ
  pub notified : List ℕ

abbrev pub is_some : {A : Type 0} → Option A → Bool
is_some none = false
is_some (some a) = true

-- `free(p)`
abbrev pub free : Option ℕ → Ni → Ni
free none m = m
free (some p) m = record m { freed = p ∷ m.freed }

abbrev pub no_response_time : ℕ
no_response_time = 20

-- What a request says: its kind and flags, its timeout, and whether its thread can be made.
pub record Notification : Type 0 where
  pub is_emergency : Bool
  pub privacy_override : Bool
  pub timeout : ℕ
  pub thread_created : Bool

-- The session of an accepted request, with its new thread.
abbrev pub accepted : Notification → Option ℕ → (req_id : ℕ) → Session → Session
accepted n payload id s = record s {
  raw_request = payload;
  req_id = id;
  resp_time_left = 5 + (if n.timeout == 0 then no_response_time else n.timeout);
  waiting = if n.thread_created then suc s.waiting else s.waiting;
}

abbrev pub announced : Notification → Ni → Ni
announced n m = record m {
  req_id_counter = suc m.req_id_counter;
  muted = if n.privacy_override then suc m.muted else m.muted;
  notified = suc m.req_id_counter ∷ m.notified;
}

-- `loc_eng_ni_request_handler`
unfoldable pub request_handler : Notification → Option ℕ → Ni → Ni
request_handler n payload m =
    let id = suc m.req_id_counter in
    if not m.inited
    then m
    else if n.is_emergency
    then (if is_some m.session_es.raw_request
        then free payload m
        else record (announced n m) { session_es = accepted n payload id m.session_es })
    else if is_some m.session.raw_request || is_some m.session_es.raw_request
    then free payload m
    else record (announced n m) { session = accepted n payload id m.session }

-- A thread of `ni_thread_proc` that leaves its wait: the session, and what it frees.
abbrev pub inform : Response → ℕ → Session → Session × Option ℕ
inform ignored p s = (record s { finishing = s.finishing ++ none ∷ [] }, some p)
inform unset p s = (record s { finishing = s.finishing ++ some (unset, p) ∷ [] }, none)
inform accept p s = (record s { finishing = s.finishing ++ some (accept, p) ∷ [] }, none)
inform deny p s = (record s { finishing = s.finishing ++ some (deny, p) ∷ [] }, none)
inform no_response p s = (record s { finishing = s.finishing ++ some (no_response, p) ∷ [] }, none)

abbrev pub take_request : Option ℕ → Session → Session × Option ℕ
take_request none s = (record s { finishing = s.finishing ++ none ∷ [] }, none)
take_request (some p) s = inform s.resp p s

abbrev pub leave : ℕ → Session → Session × Option ℕ
leave left s =
    let r = take_request s.raw_request (record s { waiting = left; resp_recvd = false }) in
    (record (r.0) { raw_request = none }, r.1)

-- `pthread_cond_timedwait` returns to one of the threads, at its timeout or before.
abbrev pub wake : (timed_out : Bool) → ℕ → Session → Session × Option ℕ
wake timed_out zero s = (s, none)
wake true (suc left) s = leave left (record s { resp = no_response })
wake false (suc left) s = if s.resp_recvd then leave left s else (s, none)

-- Which session.
pub data Which : Type 0 where
  supl es : Which

abbrev pub get : Which → Ni → Session
get supl m = m.session
get es m = m.session_es

abbrev pub set : Which → Session → Ni → Ni
set supl s m = record m { session = s }
set es s m = record m { session_es = s }

unfoldable pub thread_wakes : Which → (timed_out : Bool) → Ni → Ni
thread_wakes w timed_out m =
    let s = get w m in let r = wake timed_out s.waiting s in free r.1 (set w r.0 m)

-- The last lines of a thread: `respTimeLeft = 0; reqID = 0` and `sendMsg`.
abbrev pub send : Option Message → Ni → Ni
send none m = m
send (some msg) m = record m { sent = msg ∷ m.sent }

abbrev pub finish : Which → List (Option Message) → Ni → Ni
finish w [] m = m
finish w (msg ∷ rest) m =
    send msg (set w (record (get w m) { finishing = rest; resp_time_left = 0; req_id = 0 }) m)

unfoldable pub thread_finishes : Which → Ni → Ni
thread_finishes w m = finish w (get w m).finishing m

-- A restart frees the request of a session, and then sets its pointer to NULL and lets its thread go
-- on. No lock is held, so a thread can run between the two.
abbrev pub free_request : Which → Ni → Ni
free_request w m = free (get w m).raw_request m

abbrev pub clear_request : Which → Ni → Ni
clear_request w m = set w (record (get w m) { raw_request = none; resp_recvd = true }) m

abbrev pub reset_session : Which → Option ℕ → Ni → Ni
reset_session w none m = m
reset_session w (some p) m = clear_request w (free (some p) m)

-- `loc_eng_ni_reset_on_engine_restart`, if no thread runs in between.
unfoldable pub reset_on_engine_restart : Ni → Ni
reset_on_engine_restart m =
    if not m.inited
    then m
    else (let m1 = reset_session es m.session_es.raw_request m in
        reset_session supl m1.session.raw_request m1)

abbrev pub cleared : Session → Session
cleared s = record s { resp_time_left = 0; resp_recvd = false; raw_request = none; req_id = 0 }

-- `loc_eng_ni_init` with callbacks that are not NULL.
unfoldable pub init : Ni → Ni
init m =
    if m.inited
    then m
    else record m { inited = true; session = cleared m.session; session_es = cleared m.session_es }

abbrev pub answer : Response → Session → Session
answer r s = record s { resp = r; resp_recvd = true }

abbrev pub is_accept : Response → Bool
is_accept accept = true
is_accept unset = false
is_accept deny = false
is_accept no_response = false
is_accept ignored = false

-- `loc_eng_ni_respond`
unfoldable pub respond : (notif_id : ℕ) → Response → Ni → Ni
respond id r m =
    if not m.inited
    then m
    else if (id == m.session_es.req_id) && is_some m.session_es.raw_request
    then record m {
      session =
          if is_accept r && is_some m.session.raw_request
          then answer ignored m.session
          else m.session;
      session_es = answer r m.session_es;
    }
    else if (id == m.session.req_id) && is_some m.session.raw_request
    then record m { session = answer r m.session }
    else m

-- What the modem, the user, the engine and the threads can do. A restart comes as a whole, or as its
-- parts for each session that has a request.
pub data Action : Type 0 where
  requested : Notification → Option ℕ → Action
  responded : ℕ → Response → Action
  restarted : Action
  frees_request clears_request : Which → Action
  wakes : Which → (timed_out : Bool) → Action
  finishes : Which → Action

unfoldable pub step : Action → Ni → Ni
step (requested n payload) m = request_handler n payload m
step (responded id r) m = respond id r m
step restarted m = reset_on_engine_restart m
step (frees_request w) m = free_request w m
step (clears_request w) m = clear_request w m
step (wakes w timed_out) m = thread_wakes w timed_out m
step (finishes w) m = thread_finishes w m

unfoldable pub run : List Action → Ni → Ni
run [] m = m
run (a ∷ rest) m = run rest (step a m)

abbrev new_session : Session
new_session = record {
  resp_time_left = 0;
  resp_recvd = false;
  raw_request = none;
  req_id = 0;
  resp = unset;
  waiting = 0;
  finishing = [];
}

-- `loc_eng_data` after `loc_eng_ni_init`.
abbrev pub new_ni : Ni
new_ni = record {
  inited = true;
  session = new_session;
  session_es = new_session;
  req_id_counter = 0;
  sent = [];
  freed = [];
  muted = 0;
  notified = [];
}
