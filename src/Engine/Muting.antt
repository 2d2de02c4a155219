-- ===== src/Engine/Muting.antt =====
-- What a muted session reports.
use android_device_samsung_a.Base.{
  chosen-keeps, ℕ, suc, ◌≡◌, refl, sym, ap, ◌∙◌, subst, Bool, true, false, ◌&&◌, ◌||◌, not, Option,
  none, some, List, [], ◌∷◌, ◌==◌, ltb, All, arith, if◌then◌else◌, Bool-cases, inl, inr,
}
use android_device_samsung_a.Ni
use android_device_samsung_a.Engine.Session.{
  Status, no_status, session_begin, session_end, engine_on, engine_off, wait, in_session, ApiErr,
  success, engine_down_err, phone_offline, internal_err, other_err, Effect, told_status,
  told_location, told_svs, told_nmea, told_measurement, nmea_pos, nmea_sv, fix_started, fix_stopped,
  told_session, mode_set, aiding_deleted, raw_freed, configured, power_voted, ordered, Engine,
  Setup, emit, set_in_session, after_start, start_handler, stop_handler, stop_message,
  set_position_mode, update_aiding, is_engine_on, delete_aiding,
}
use android_device_samsung_a.Engine.Reports.{
  inform_gps_status, is_told, report_position, report_sv, pass_nmea, report_measurement,
  report_status, status_message, request_ni, keep_status, is_muted, muting,
}
use android_device_samsung_a.Engine.Restart.{
  Msg, start_msg, stop_msg, down_msg, up_msg, mode_msg, position_msg, sv_msg, status_msg,
  aiding_msg, ni_msg, nif_msg, nmea_msg, measurement_msg, reinit, agps_up, engine_up, proc,
  proc_all,
}
use android_device_samsung_a.Engine.Emitting.{prepared-keeps}

-- The calls of the framework's callbacks, and of the NMEA generator.
abbrev pub is_report : Effect → Bool
is_report (told_status s) = true
is_report (told_location l) = true
is_report (told_svs svs) = true
is_report (nmea_pos b) = true
is_report (nmea_sv svs) = true
is_report (told_nmea t) = true
is_report (told_measurement m) = true
is_report (fix_started c) = false
is_report fix_stopped = false
is_report (told_session b) = false
is_report (mode_set c) = false
is_report (aiding_deleted n) = false
is_report raw_freed = false
is_report (configured s) = false
is_report power_voted = false
is_report (ordered o) = false

unfoldable pub reports : List Effect → List Effect
reports [] = []
reports (x ∷ xs) = if is_report x then x ∷ reports xs else reports xs

-- A message that ends no muted session.
abbrev pub Keeps : Msg → Type 0
Keeps start_msg = Unit {0}
Keeps stop_msg = Unit {0}
Keeps down_msg = ⊥
Keeps up_msg = Unit {0}
Keeps (mode_msg c) = Unit {0}
Keeps (position_msg p) = Unit {0}
Keeps (sv_msg svs) = Unit {0}
Keeps (nmea_msg t) = Unit {0}
Keeps (measurement_msg m) = Unit {0}
Keeps (status_msg no_status) = Unit {0}
Keeps (status_msg session_begin) = Unit {0}
Keeps (status_msg session_end) = ⊥
Keeps (status_msg engine_on) = Unit {0}
Keeps (status_msg engine_off) = ⊥
Keeps (aiding_msg what) = Unit {0}
Keeps (ni_msg n payload) = n.privacy_override ≡ false
Keeps (nif_msg msg) = Unit {0}

-- The sentences of the modem that are passed on, before earlier reports.
abbrev pub passed : Setup → Msg → List Effect → List Effect
passed setup start_msg told = told
passed setup stop_msg told = told
passed setup down_msg told = told
passed setup up_msg told = told
passed setup (mode_msg c) told = told
passed setup (position_msg p) told = told
passed setup (sv_msg svs) told = told
passed setup (nmea_msg t) told = if setup.nmea_cb then told_nmea t ∷ told else told
passed setup (measurement_msg m) told = told
passed setup (status_msg s) told = told
passed setup (aiding_msg what) told = told
passed setup (ni_msg n payload) told = told
passed setup (nif_msg msg) told = told

abbrev pub passed_all : Setup → List Msg → List Effect → List Effect
passed_all setup [] told = told
passed_all setup (msg ∷ rest) told = passed_all setup rest (passed setup msg told)

-- Muted, with these reports so far.
abbrev pub IsSilent : List Effect → Engine → Type 0
IsSilent told e = (e.mute ≡ in_session) × (reports e.log ≡ told)

module _ (told : List Effect) where
  set-IsSilent : (b : Bool) (e : Engine) → IsSilent told e → IsSilent told (set_in_session b e)
  unfolding reports
  set-IsSilent true e h = h
  set-IsSilent false e h = h

  after-IsSilent : (r : ApiErr) (e : Engine) → IsSilent told e → IsSilent told (after_start r e)
  after-IsSilent success e h = set-IsSilent true e h
  after-IsSilent engine_down_err e h = set-IsSilent true e h
  after-IsSilent phone_offline e h = set-IsSilent true e h
  after-IsSilent internal_err e h = set-IsSilent true e h
  after-IsSilent other_err e h = h

  start-IsSilent :
      (setup : Setup) (e : Engine) → IsSilent told e → IsSilent told (start_handler setup e)
  unfolding start_handler reports
  start-IsSilent setup e h =
      let answer = setup.start_fix e.log in
      let begun = emit (fix_started e.criteria) e in
      chosen-keeps (IsSilent told) e.navigating e (after_start answer begun) h
        (after-IsSilent answer begun h)

  stop-IsSilent : (e : Engine) → IsSilent told e → IsSilent told (stop_handler e)
  unfolding stop_handler reports
  stop-IsSilent e h =
      let stopped = emit fix_stopped e in
      chosen-keeps (IsSilent told) e.navigating (set_in_session false stopped) e
        (set-IsSilent false stopped h) h

  aiding-IsSilent : (e : Engine) → IsSilent told e → IsSilent told (update_aiding e)
  unfolding update_aiding reports
  aiding-IsSilent e h =
      chosen-keeps (IsSilent told) (not (is_engine_on e.engine_status) && not (e.aiding == 0))
        (record (emit (aiding_deleted e.aiding) e) { aiding = 0 }) e h h

  muted-IsSilent :
      (e f : Engine) → IsSilent told e → IsSilent told (if is_muted e.mute then e else f)
  muted-IsSilent e f (m, r) =
      subst (λ b. IsSilent told (if b then e else f)) (sym (ap is_muted m)) (m, r)

  up-IsSilent : (setup : Setup) (e : Engine) → IsSilent told e → IsSilent told (engine_up setup e)
  unfolding engine_up reports
  up-IsSilent setup e h =
      let ready = agps_up setup (emit power_voted (reinit setup e)) in
      let k : IsSilent told ready =
        prepared-keeps (IsSilent told) setup e (λ s e1 k. k) (λ e1 k. k) (λ o e1 k. k) (λ n e1 k. k)
          h in
      let again = set_in_session false ready in
      chosen-keeps (IsSilent told) ready.navigating (start_handler setup again) ready
        (start-IsSilent setup again (set-IsSilent false ready k)) k

  guard_off : (b : Bool) → (b && not true) ≡ false
  guard_off true = refl
  guard_off false = refl

  unsaid-IsSilent :
      (b : Bool) (e f : Engine)
      → IsSilent told e
      → IsSilent told (if b && not (is_muted e.mute) then f else e)
  unsaid-IsSilent b e f (m, r) =
      let never : (b && not (is_muted e.mute)) ≡ false =
        ap (λ k. b && not (is_muted k)) m ∙ guard_off b in
      subst (λ c. IsSilent told (if c then f else e)) (sym never) (m, r)

  keep-IsSilent : (s : Status) (e : Engine) → IsSilent told e → IsSilent told (keep_status s e)
  keep-IsSilent no_status e h = h
  keep-IsSilent session_begin e h = h
  keep-IsSilent session_end e h = h
  keep-IsSilent engine_on e h = h
  keep-IsSilent engine_off e h = h

  -- A status after which the session is muted.
  status-IsSilent :
      (setup : Setup) (s : Status) (e : Engine)
      → muting s e.mute ≡ in_session
      → reports e.log ≡ told
      → IsSilent told (status_message setup s e)
  unfolding report_status status_message
  status-IsSilent setup s e m r =
      let e1 = record e { mute = muting s e.mute } in
      aiding-IsSilent (report_status setup s e) (
        keep-IsSilent s _
          (unsaid-IsSilent (is_told s e.navigating) e1 (inform_gps_status setup s e1) (m, r)))

ltb_same : (n : ℕ) → ltb n n ≡ false
ltb_same n = ground arith

free-muted : (p : Option ℕ) (m : Ni.Ni) → (Ni.free p m).muted ≡ m.muted
free-muted none m = refl
free-muted (some p) m = refl

request-muted :
    (n : Ni.Notification) (p : Option ℕ) (m : Ni.Ni)
    → n.privacy_override ≡ false
    → (Ni.request_handler n p m).muted ≡ m.muted
unfolding Ni.request_handler
request-muted n p m h =
    let same : (if n.privacy_override then suc m.muted else m.muted) ≡ m.muted =
      ap (λ b. if b then suc m.muted else m.muted) h in
    let P = λ (k : Ni.Ni). k.muted ≡ m.muted in
    chosen-keeps P (not m.inited) m _ refl (
      chosen-keeps P n.is_emergency _ _
        (chosen-keeps P (Ni.is_some m.session_es.raw_request) (Ni.free p m) _ (free-muted p m) same)
        (chosen-keeps P (Ni.is_some m.session.raw_request || Ni.is_some m.session_es.raw_request)
          (Ni.free p m) _ (free-muted p m) same))

kept_muting : (s : Status) → Keeps (status_msg s) → muting s in_session ≡ in_session
kept_muting no_status h = refl
kept_muting session_begin h = refl
kept_muting session_end h = elim h [ ]
kept_muting engine_on h = refl
kept_muting engine_off h = elim h [ ]

module _ (told : List Effect) (setup : Setup) where
  ni-IsSilent :
      (n : Ni.Notification) (p : Option ℕ) (e : Engine)
      → n.privacy_override ≡ false
      → IsSilent told e
      → IsSilent told (request_ni n p e)
  unfolding request_ni
  ni-IsSilent n p e h (m, r) =
      let grew : ltb e.ni.muted (Ni.request_handler n p e.ni).muted ≡ false =
        ap (λ k. ltb e.ni.muted k) (request-muted n p e.ni h) ∙ ltb_same e.ni.muted in
      (ap (λ b. if b then wait else e.mute) grew ∙ m, r)

  proc-IsSilent :
      (msg : Msg) (e : Engine)
      → Keeps msg
      → IsSilent told e
      → IsSilent (passed setup msg told) (proc setup msg e)
  unfolding proc report_position report_sv stop_message set_position_mode delete_aiding reports
      pass_nmea report_measurement
  proc-IsSilent start_msg e k h = start-IsSilent told setup e h
  proc-IsSilent stop_msg e k h = stop-IsSilent told (record e { sv_used = none }) h
  proc-IsSilent down_msg e k h = elim k [ ]
  proc-IsSilent up_msg e k h = up-IsSilent told setup e h
  proc-IsSilent (mode_msg c) e k h = h
  proc-IsSilent (position_msg p) e k h = muted-IsSilent told e _ h
  proc-IsSilent (sv_msg svs) e k h = muted-IsSilent told e _ h
  proc-IsSilent (nmea_msg t) e k (m, r) = elim (Bool-cases setup.nmea_cb) [
    | inl given ↦ simp given (m, ap (λ xs. told_nmea t ∷ xs) r)
    | inr none_given ↦ simp none_given (m, r)
  ]
  proc-IsSilent (measurement_msg n) e k h =
      unsaid-IsSilent told true e (if setup.measurement_cb then emit (told_measurement n) e else e)
        h
  proc-IsSilent (status_msg s) e k (m, r) =
      status-IsSilent told setup s e (ap (muting s) m ∙ kept_muting s k) r
  proc-IsSilent (aiding_msg what) e k h = aiding-IsSilent told (record e { aiding = what }) h
  proc-IsSilent (ni_msg n p) e k h = ni-IsSilent n p e k h
  proc-IsSilent (nif_msg msg) e k h = h

proc_all-IsSilent :
    (setup : Setup) (msgs : List Msg) (told : List Effect) (e : Engine)
    → All Keeps msgs
    → IsSilent told e
    → IsSilent (passed_all setup msgs told) (proc_all setup msgs e)
unfolding proc_all
proc_all-IsSilent setup [] told e k h = h
proc_all-IsSilent setup (msg ∷ msgs) told e (k, ks) h =
    proc_all-IsSilent setup msgs (passed setup msg told) (proc setup msg e) ks
      (proc-IsSilent told setup msg e k h)

-- When a session is to be muted and begins, or the engine turns on, nothing but the modem's own NMEA
-- sentences, each of them, is reported from this status on, whatever messages are run, the restart of
-- the fix by an engine that comes up included, until the session ends, the engine turns off or goes
-- down, or a request overrides privacy.
pub proc_all-silent :
    (setup : Setup) (s : Status) (msgs : List Msg) (e : Engine)
    → e.mute ≡ wait
    → muting s wait ≡ in_session
    → All Keeps msgs
    → reports (proc_all setup (status_msg s ∷ msgs) e).log ≡ passed_all setup msgs (reports e.log)
unfolding proc_all proc
proc_all-silent setup s msgs e m begins ks =
    (proc_all-IsSilent setup msgs (reports e.log) (status_message setup s e) ks
      (status-IsSilent (reports e.log) setup s e (ap (muting s) m ∙ begins) refl)).1
