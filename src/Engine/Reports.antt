-- ===== src/Engine/Reports.antt =====
-- What the engine reports of positions, satellites and its status, and the muting of reports during a
-- session.
use android_device_samsung_a.Base.{
  ℕ, Bool, true, false, ◌&&◌, ◌||◌, not, Option, none, some, List, ◌==◌, ltb, if◌then◌else◌,
}
use android_device_samsung_a.Ni
use android_device_samsung_a.Text.{Text}
use android_device_samsung_a.Sv.{Sv, Used, mark_all}
use android_device_samsung_a.Engine.Session.{
  Status, no_status, session_begin, session_end, engine_on, engine_off, Mute, no_mute, wait,
  in_session, told_status, told_location, told_svs, nmea_pos, nmea_sv, told_nmea, told_measurement,
  raw_freed, fix_stopped, Engine, Setup, emit, set_in_session, update_aiding,
}

-- `loc_sess_status`
pub data FixStatus : Type 0 where
  fix_success fix_intermediate fix_failure : FixStatus

-- A position report: the location, its status, whether its technologies are among satellites,
-- sensors and hybrid, its flag for the accuracy, whether the accuracy is above the configured
-- threshold, the satellites used if they are told, and whether it has raw data.
pub record Position : Type 0 where
  pub location : ℕ
  pub status : FixStatus
  pub by_satellites : Bool
  pub has_accuracy : Bool
  pub above_threshold : Bool
  pub used : Option Used
  pub raw_data : Bool

abbrev pub is_muted : Mute → Bool
is_muted in_session = true
is_muted no_mute = false
is_muted wait = false

abbrev pub is_success : FixStatus → Bool
is_success fix_success = true
is_success fix_intermediate = false
is_success fix_failure = false

abbrev pub is_intermediate : FixStatus → Bool
is_intermediate fix_intermediate = true
is_intermediate fix_success = false
is_intermediate fix_failure = false

abbrev pub is_failure : FixStatus → Bool
is_failure fix_failure = true
is_failure fix_success = false
is_failure fix_intermediate = false

-- `setGnssSvUsedListData`
abbrev pub keep_used : Option Used → Engine → Engine
keep_used none e = e
keep_used (some u) e = record e { sv_used = some u }

-- The status as it changes the muting.
abbrev pub muting : Status → Mute → Mute
muting session_begin wait = in_session
muting engine_on wait = in_session
muting session_end in_session = no_mute
muting engine_off in_session = no_mute
muting s m = m

-- Which statuses are for the callback.
abbrev pub is_told : Status → (navigating : Bool) → Bool
is_told no_status navigating = false
is_told session_end navigating = not navigating
is_told session_begin navigating = navigating
is_told engine_on navigating = true
is_told engine_off navigating = true

abbrev pub keep_status : Status → Engine → Engine
keep_status no_status e = e
keep_status session_begin e = record e { fix_session_status = session_begin }
keep_status session_end e = record e { fix_session_status = session_end }
keep_status engine_on e = record e { engine_status = engine_on }
keep_status engine_off e = record e { engine_status = engine_off }

module _ (setup : Setup) where
  -- The condition on a report that is no failure.
  abbrev pub wanted : Position → Bool
  wanted p =
      is_success p.status && p.by_satellites
      || setup.intermediate_fix
        && not (p.has_accuracy && not (setup.accuracy_thres == 0) && p.above_threshold)

  -- Whether the position is reported, and the state after that.
  abbrev pub deliver : Position → Engine → Bool × Engine
  deliver p e =
      if setup.location_cb
      then (if is_failure p.status
          then (true, emit (told_location none) e)
          else if wanted p
          then (true, emit (told_location (some p.location)) (keep_used p.used e))
          else (false, e))
      else (false, e)

  -- The end of a single shot.
  abbrev pub end_single : (reported : Bool) → Position → Engine → Engine
  end_single reported p e =
      if reported && e.criteria.single
      then set_in_session false (if is_intermediate p.status then emit fix_stopped e else e)
      else e

  abbrev pub report_nmea : (reported : Bool) → Position → Engine → Engine
  report_nmea reported p e =
      if setup.generate_nmea && e.navigating
      then emit (nmea_pos (reported && not (is_failure p.status))) e
      else e

  abbrev pub free_raw : Position → Engine → Engine
  free_raw p e = if p.raw_data then emit raw_freed e else e

  -- `LocEngReportPosition::proc`
  unfoldable pub report_position : Position → Engine → Engine
  report_position p e =
      if is_muted e.mute
      then e
      else (let d = deliver p e in free_raw p (report_nmea d.0 p (end_single d.0 p d.1)))

  abbrev pub marked : Option Used → List Sv → List Sv
  marked none svs = svs
  marked (some u) svs = mark_all setup.undefined u svs

  -- `LocEngReportSv::proc`
  unfoldable pub report_sv : List Sv → Engine → Engine
  report_sv svs e =
      if is_muted e.mute
      then e
      else (let out = marked e.sv_used svs in
          let e1 = if setup.sv_cb then emit (told_svs out) e else e in
          if setup.generate_nmea then emit (nmea_sv out) e1 else e1)

  -- `LocEngReportNmea::proc`, which passes on a sentence of the modem.
  unfoldable pub pass_nmea : Text → Engine → Engine
  pass_nmea sentence e = if setup.nmea_cb then emit (told_nmea sentence) e else e

  -- `LocEngReportGnssMeasurement::proc`
  unfoldable pub report_measurement : ℕ → Engine → Engine
  report_measurement data_of e =
      if not (is_muted e.mute)
      then if setup.measurement_cb then emit (told_measurement data_of) e else e
      else e

  -- `loc_inform_gps_status`
  abbrev pub inform_gps_status : Status → Engine → Engine
  inform_gps_status s e = if setup.status_cb then emit (told_status s) e else e

  -- `loc_eng_report_status`
  unfoldable pub report_status : Status → Engine → Engine
  report_status s e =
      let e1 = record e { mute = muting s e.mute } in
      keep_status s
        (if is_told s e.navigating && not (is_muted e1.mute) then inform_gps_status s e1 else e1)

  -- `LocEngReportStatus::proc`
  unfoldable pub status_message : Status → Engine → Engine
  status_message s e = update_aiding (report_status s e)

-- `LocEngRequestNi::proc`, with `loc_eng_mute_one_session`.
unfoldable pub request_ni : Ni.Notification → Option ℕ → Engine → Engine
request_ni n payload e =
    let ni = Ni.request_handler n payload e.ni in
    record e { ni = ni; mute = if ltb e.ni.muted ni.muted then wait else e.mute }
