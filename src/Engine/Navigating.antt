-- ===== src/Engine/Navigating.antt =====
-- The flag of the session, what the modem was told of it, and the fix that runs.
use android_device_samsung_a.Base.{
  chosen-keeps, ◌≡◌, refl, Bool, true, false, ◌&&◌, not, Option, none, some, List, [], ◌∷◌, ◌==◌,
  if◌then◌else◌,
}
use android_device_samsung_a.Sv.{Sv, Used}
use android_device_samsung_a.Engine.Session.{
  Status, no_status, session_begin, session_end, engine_on, engine_off, ApiErr, success,
  engine_down_err, phone_offline, internal_err, other_err, Effect, told_status, told_location,
  told_svs, told_nmea, told_measurement, nmea_pos, nmea_sv, fix_started, fix_stopped, told_session,
  mode_set, aiding_deleted, raw_freed, configured, power_voted, ordered, Engine, Setup, emit,
  set_in_session, after_start, start_handler, stop_handler, stop_message, set_position_mode,
  update_aiding, is_engine_on, delete_aiding,
}
use android_device_samsung_a.Engine.Reports.{
  Position, deliver, wanted, end_single, report_nmea, free_raw, keep_used, is_intermediate,
  is_failure, marked, pass_nmea, report_measurement, inform_gps_status, is_told, is_muted, muting,
  keep_status, report_position, report_sv, report_status, status_message, request_ni,
}
use android_device_samsung_a.Engine.Restart.{
  Msg, start_msg, stop_msg, down_msg, up_msg, mode_msg, position_msg, sv_msg, status_msg,
  aiding_msg, ni_msg, nif_msg, nmea_msg, measurement_msg, reinit, agps_up, engine_down, engine_up,
  proc, proc_all,
}
use android_device_samsung_a.Engine.Emitting.{prepared-keeps}

-- What the modem was told last of the session.
unfoldable pub last_told : List Effect → Bool
last_told [] = false
last_told (told_session b ∷ xs) = b
last_told (fix_started c ∷ xs) = last_told xs
last_told (fix_stopped ∷ xs) = last_told xs
last_told (mode_set c ∷ xs) = last_told xs
last_told (aiding_deleted n ∷ xs) = last_told xs
last_told (told_status s ∷ xs) = last_told xs
last_told (told_location l ∷ xs) = last_told xs
last_told (told_svs svs ∷ xs) = last_told xs
last_told (told_nmea t ∷ xs) = last_told xs
last_told (told_measurement m ∷ xs) = last_told xs
last_told (nmea_pos b ∷ xs) = last_told xs
last_told (nmea_sv svs ∷ xs) = last_told xs
last_told (raw_freed ∷ xs) = last_told xs
last_told (configured s ∷ xs) = last_told xs
last_told (power_voted ∷ xs) = last_told xs
last_told (ordered o ∷ xs) = last_told xs

-- Whether the last of the starts and stops of a fix is a start.
unfoldable pub is_fix_wanted : List Effect → Bool
is_fix_wanted [] = false
is_fix_wanted (fix_started c ∷ xs) = true
is_fix_wanted (fix_stopped ∷ xs) = false
is_fix_wanted (told_session b ∷ xs) = is_fix_wanted xs
is_fix_wanted (mode_set c ∷ xs) = is_fix_wanted xs
is_fix_wanted (aiding_deleted n ∷ xs) = is_fix_wanted xs
is_fix_wanted (told_status s ∷ xs) = is_fix_wanted xs
is_fix_wanted (told_location l ∷ xs) = is_fix_wanted xs
is_fix_wanted (told_svs svs ∷ xs) = is_fix_wanted xs
is_fix_wanted (told_nmea t ∷ xs) = is_fix_wanted xs
is_fix_wanted (told_measurement m ∷ xs) = is_fix_wanted xs
is_fix_wanted (nmea_pos b ∷ xs) = is_fix_wanted xs
is_fix_wanted (nmea_sv svs ∷ xs) = is_fix_wanted xs
is_fix_wanted (raw_freed ∷ xs) = is_fix_wanted xs
is_fix_wanted (configured s ∷ xs) = is_fix_wanted xs
is_fix_wanted (power_voted ∷ xs) = is_fix_wanted xs
is_fix_wanted (ordered o ∷ xs) = is_fix_wanted xs

abbrev pub IsConsistent : Engine → Type 0
IsConsistent e =
    (last_told e.log ≡ e.navigating) × (e.navigating ≡ true → is_fix_wanted e.log ≡ true)

never : {P : Type 0} → false ≡ true → P
never h = cc

on-IsConsistent : (e : Engine) → is_fix_wanted e.log ≡ true → IsConsistent (set_in_session true e)
unfolding last_told is_fix_wanted
on-IsConsistent e h = (refl, λ k. h)

off-IsConsistent : (e : Engine) → IsConsistent (set_in_session false e)
unfolding last_told
off-IsConsistent e = (refl, λ k. never k)

after-IsConsistent :
    (r : ApiErr) (e : Engine)
    → is_fix_wanted e.log ≡ true
    → last_told e.log ≡ e.navigating
    → IsConsistent (after_start r e)
after-IsConsistent success e h k = on-IsConsistent e h
after-IsConsistent engine_down_err e h k = on-IsConsistent e h
after-IsConsistent phone_offline e h k = on-IsConsistent e h
after-IsConsistent internal_err e h k = on-IsConsistent e h
after-IsConsistent other_err e h k = (k, λ n. h)

start-IsConsistent :
    (setup : Setup) (e : Engine) → IsConsistent e → IsConsistent (start_handler setup e)
unfolding start_handler last_told is_fix_wanted
start-IsConsistent setup e (t, w) =
    let answer = setup.start_fix e.log in
    let begun = emit (fix_started e.criteria) e in
    chosen-keeps IsConsistent e.navigating e (after_start answer begun) (t, w)
      (after-IsConsistent answer begun refl t)

stop-IsConsistent : (e : Engine) → IsConsistent e → IsConsistent (stop_handler e)
unfolding stop_handler
stop-IsConsistent e h =
    let stopped = emit fix_stopped e in
    chosen-keeps IsConsistent e.navigating (set_in_session false stopped) e
      (off-IsConsistent stopped) h

aiding-IsConsistent : (e : Engine) → IsConsistent e → IsConsistent (update_aiding e)
unfolding update_aiding last_told is_fix_wanted
aiding-IsConsistent e h =
    chosen-keeps IsConsistent (not (is_engine_on e.engine_status) && not (e.aiding == 0))
      (record (emit (aiding_deleted e.aiding) e) { aiding = 0 }) e h h

keep_used-IsConsistent :
    (o : Option Used) (e : Engine) → IsConsistent e → IsConsistent (keep_used o e)
keep_used-IsConsistent none e h = h
keep_used-IsConsistent (some u) e h = h

keep_status-IsConsistent :
    (s : Status) (e : Engine) → IsConsistent e → IsConsistent (keep_status s e)
keep_status-IsConsistent no_status e h = h
keep_status-IsConsistent session_begin e h = h
keep_status-IsConsistent session_end e h = h
keep_status-IsConsistent engine_on e h = h
keep_status-IsConsistent engine_off e h = h

module _ (setup : Setup) where
  deliver-IsConsistent :
      (p : Position) (e : Engine) → IsConsistent e → IsConsistent (deliver setup p e).1
  unfolding last_told is_fix_wanted
  deliver-IsConsistent p e h =
      let P = λ (r : Bool × Engine). IsConsistent r.1 in
      let shown : Bool × Engine =
        (true, emit (told_location (some p.location)) (keep_used p.used e)) in
      let kept : Bool × Engine = (false, e) in
      let failed : Bool × Engine = (true, emit (told_location none) e) in
      chosen-keeps P setup.location_cb
        (if is_failure p.status then failed else if wanted setup p then shown else kept) kept
        (chosen-keeps P (is_failure p.status) failed (if wanted setup p then shown else kept) h
          (chosen-keeps P (wanted setup p) shown kept (keep_used-IsConsistent p.used e h) h))
        h

  end-IsConsistent :
      (b : Bool) (p : Position) (e : Engine)
      → IsConsistent e
      → IsConsistent (end_single setup b p e)
  end-IsConsistent b p e h =
      let last = if is_intermediate p.status then emit fix_stopped e else e in
      chosen-keeps IsConsistent (b && e.criteria.single) (set_in_session false last) e
        (off-IsConsistent last) h

  nmea-IsConsistent :
      (b : Bool) (p : Position) (e : Engine)
      → IsConsistent e
      → IsConsistent (report_nmea setup b p e)
  unfolding last_told is_fix_wanted
  nmea-IsConsistent b p e h =
      chosen-keeps IsConsistent (setup.generate_nmea && e.navigating)
        (emit (nmea_pos (b && not (is_failure p.status))) e) e h h

  position-IsConsistent :
      (p : Position) (e : Engine) → IsConsistent e → IsConsistent (report_position setup p e)
  unfolding report_position last_told is_fix_wanted
  position-IsConsistent p e h =
      let d = deliver setup p e in
      let e1 = end_single setup d.0 p d.1 in
      let e2 = report_nmea setup d.0 p e1 in
      let told =
        nmea-IsConsistent d.0 p e1 (end-IsConsistent d.0 p d.1 (deliver-IsConsistent p e h)) in
      chosen-keeps IsConsistent (is_muted e.mute) e (free_raw setup p e2) h
        (chosen-keeps IsConsistent p.raw_data (emit raw_freed e2) e2 told told)

  sv-IsConsistent :
      (svs : List Sv) (e : Engine) → IsConsistent e → IsConsistent (report_sv setup svs e)
  unfolding report_sv last_told is_fix_wanted
  sv-IsConsistent svs e h =
      let out = marked setup e.sv_used svs in
      let e1 = if setup.sv_cb then emit (told_svs out) e else e in
      let k : IsConsistent e1 =
        chosen-keeps IsConsistent setup.sv_cb (emit (told_svs out) e) e h h in
      chosen-keeps IsConsistent (is_muted e.mute) e
        (if setup.generate_nmea then emit (nmea_sv out) e1 else e1) h
        (chosen-keeps IsConsistent setup.generate_nmea (emit (nmea_sv out) e1) e1 k k)

  status-IsConsistent :
      (s : Status) (e : Engine) → IsConsistent e → IsConsistent (report_status setup s e)
  unfolding report_status last_told is_fix_wanted
  status-IsConsistent s e h =
      let e1 = record e { mute = muting s e.mute } in
      let told = inform_gps_status setup s e1 in
      let b = is_told s e.navigating && not (is_muted e1.mute) in
      keep_status-IsConsistent s (if b then told else e1) (
        chosen-keeps IsConsistent b told e1
          (chosen-keeps IsConsistent setup.status_cb (emit (told_status s) e1) e1 h h) h)

  up-IsConsistent : (e : Engine) → IsConsistent e → IsConsistent (engine_up setup e)
  unfolding engine_up last_told is_fix_wanted
  up-IsConsistent e h =
      let ready = agps_up setup (emit power_voted (reinit setup e)) in
      let k : IsConsistent ready =
        prepared-keeps IsConsistent setup e (λ s e1 k. k) (λ e1 k. k) (λ o e1 k. k) (λ n e1 k. k)
          h in
      let again = set_in_session false ready in
      chosen-keeps IsConsistent ready.navigating (start_handler setup again) ready
        (start-IsConsistent setup again (off-IsConsistent ready)) k

  proc-IsConsistent : (msg : Msg) (e : Engine) → IsConsistent e → IsConsistent (proc setup msg e)
  unfolding proc stop_message engine_down set_position_mode status_message delete_aiding request_ni
      pass_nmea report_measurement last_told is_fix_wanted
  proc-IsConsistent start_msg e h = start-IsConsistent setup e h
  proc-IsConsistent stop_msg e h = stop-IsConsistent (record e { sv_used = none }) h
  proc-IsConsistent down_msg e h = status-IsConsistent engine_off _ h
  proc-IsConsistent up_msg e h = up-IsConsistent e h
  proc-IsConsistent (mode_msg c) e h = h
  proc-IsConsistent (position_msg p) e h = position-IsConsistent p e h
  proc-IsConsistent (sv_msg svs) e h = sv-IsConsistent svs e h
  proc-IsConsistent (status_msg s) e h =
      aiding-IsConsistent (report_status setup s e) (status-IsConsistent s e h)
  proc-IsConsistent (aiding_msg what) e h = aiding-IsConsistent (record e { aiding = what }) h
  proc-IsConsistent (nmea_msg t) e h =
      chosen-keeps IsConsistent setup.nmea_cb (emit (told_nmea t) e) e h h
  proc-IsConsistent (measurement_msg m) e h =
      let told = emit (told_measurement m) e in
      chosen-keeps IsConsistent (not (is_muted e.mute)) (if setup.measurement_cb then told else e) e
        (chosen-keeps IsConsistent setup.measurement_cb told e h h) h
  proc-IsConsistent (ni_msg n p) e h = h
  proc-IsConsistent (nif_msg msg) e h = h

  -- Whatever messages are run and whatever the modem answers: if it is so before, then after them the
  -- flag of the session is what the modem was told of it last, and while it is set the last command to
  -- the modem about the fix is a start.
  pub proc_all-IsConsistent :
      (msgs : List Msg) (e : Engine) → IsConsistent e → IsConsistent (proc_all setup msgs e)
  unfolding proc_all
  proc_all-IsConsistent [] e h = h
  proc_all-IsConsistent (msg ∷ msgs) e h =
      proc_all-IsConsistent msgs (proc setup msg e) (proc-IsConsistent msg e h)
