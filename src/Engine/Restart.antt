-- ===== src/Engine/Restart.antt =====
-- The modem goes down and comes up again, and the messages of the engine's thread as a whole.
use android_device_samsung_a.Base.{
  ℕ, Bool, true, false, not, Option, List, [], ◌∷◌, ◌++◌, map, if◌then◌else◌,
}
use android_device_samsung_a.Ni
use android_device_samsung_a.Text.{Text}
use android_device_samsung_a.Nif
use android_device_samsung_a.Nif.{drop_subscribers}
use android_device_samsung_a.Sv.{Sv}
use android_device_samsung_a.Engine.Servers.{agps_reinit}
use android_device_samsung_a.Engine.Session.{
  Status, engine_off, Criteria, Setting, constellation, supl_version, lpp_profile, sensor_control,
  a_glonass, lppe, nmea_types, sensor_properties, sensor_perf, enable_data, xtra_version, Effect,
  configured, power_voted, ordered, Engine, Setup, emit, set_in_session, start_handler,
  stop_message, set_position_mode, delete_aiding,
}
use android_device_samsung_a.Engine.Reports.{
  Position, report_position, report_sv, pass_nmea, report_measurement, report_status,
  status_message, request_ni,
}

-- Effects one after the other.
unfoldable pub emit_all : List Effect → Engine → Engine
emit_all [] e = e
emit_all (x ∷ xs) e = emit_all xs (emit x e)

module _ (setup : Setup) where
  abbrev pub given : Bool → Setting → List Setting
  given true s = s ∷ []
  given false s = []

  -- The messages of `loc_eng_reinit`, in their order.
  abbrev pub settings : List Setting
  settings =
      constellation ∷ supl_version ∷ lpp_profile ∷ sensor_control ∷ a_glonass ∷ lppe ∷ []
      ++ given (not setup.generate_nmea) nmea_types
      ++ given setup.sensor_properties_given sensor_properties
      ++ sensor_perf ∷ enable_data ∷ xtra_version ∷ []

  -- `loc_eng_reinit`
  unfoldable pub reinit : Engine → Engine
  reinit e = emit_all (map configured settings) e

  -- `loc_eng_handle_engine_down`
  unfoldable pub engine_down : Engine → Engine
  engine_down e = report_status setup engine_off (record e { ni = Ni.reset_on_engine_restart e.ni })

  -- The part of `loc_eng_handle_engine_up` for the AGPS client.
  abbrev pub agps_up : Engine → Engine
  agps_up e =
      if setup.agps_cb
      then emit_all (map ordered (agps_reinit setup.names e.servers))
          (record e { nifs = drop_subscribers e.nifs })
      else e

  -- Its last part.
  abbrev pub restart_fix : Engine → Engine
  restart_fix e = if e.navigating then start_handler setup (set_in_session false e) else e

  -- `loc_eng_handle_engine_up`
  unfoldable pub engine_up : Engine → Engine
  engine_up e = restart_fix (agps_up (emit power_voted (reinit e)))

-- The messages of the engine's thread.
pub data Msg : Type 0 where
  start_msg stop_msg down_msg up_msg : Msg
  mode_msg : Criteria → Msg
  position_msg : Position → Msg
  sv_msg : List Sv → Msg
  nmea_msg : Text → Msg
  measurement_msg : ℕ → Msg
  status_msg : Status → Msg
  aiding_msg : ℕ → Msg
  ni_msg : Ni.Notification → Option ℕ → Msg
  nif_msg : Nif.Msg → Msg

module _ (setup : Setup) where
  unfoldable pub proc : Msg → Engine → Engine
  proc start_msg e = start_handler setup e
  proc stop_msg e = stop_message e
  proc down_msg e = engine_down setup e
  proc up_msg e = engine_up setup e
  proc (mode_msg c) e = set_position_mode c e
  proc (position_msg p) e = report_position setup p e
  proc (sv_msg svs) e = report_sv setup svs e
  proc (nmea_msg sentence) e = pass_nmea setup sentence e
  proc (measurement_msg m) e = report_measurement setup m e
  proc (status_msg s) e = status_message setup s e
  proc (aiding_msg what) e = delete_aiding what e
  proc (ni_msg n payload) e = request_ni n payload e
  proc (nif_msg msg) e = record e { nifs = Nif.proc setup.agps setup.conf msg e.nifs }

  unfoldable pub proc_all : List Msg → Engine → Engine
  proc_all [] e = e
  proc_all (msg ∷ rest) e = proc_all rest (proc msg e)
