-- ===== src/Engine/Session.antt =====
-- The engine's state with its session: `loc_eng_start_handler`, `loc_eng_stop_handler`, the position
-- mode and the aiding data, and in LocEngAdapter.cpp and .h what they call.
--
-- What leaves the engine is in a log, the latest first; what `startFix` answers is a parameter.
-- Callbacks are there or NULL, and configuration values stay as they are.
use android_device_samsung_a.Base.{
  ℕ, Bool, true, false, ◌&&◌, not, Option, none, List, ◌∷◌, ◌==◌, if◌then◌else◌,
}
use android_device_samsung_a.Ni
use android_device_samsung_a.Text.{Text}
use android_device_samsung_a.Nif.{Nifs, Conf}
use android_device_samsung_a.Agps.Machine.{Env}
use android_device_samsung_a.Sv.{Sv, Used}
use android_device_samsung_a.Engine.Servers.{Servers, Names, Order}
use android_device_samsung_a.Api.{Mask}

-- `GpsStatusValue`
pub data Status : Type 0 where
  no_status session_begin session_end engine_on engine_off : Status

-- `loc_mute_session_e_type`
pub data Mute : Type 0 where
  no_mute wait in_session : Mute

-- `mode` of `LocPosMode`, LOC_POSITION_MODE_INVALID or another.
pub data PosMode : Type 0 where
  invalid_mode : PosMode
  valid_mode : ℕ → PosMode

-- `LocPosMode`: its mode, whether the recurrence is GPS_POSITION_RECURRENCE_SINGLE, and the rest.
pub record Criteria : Type 0 where
  pub mode : PosMode
  pub single : Bool
  pub rest : ℕ

-- `loc_api_adapter_err`: what a start of a fix answers.
pub data ApiErr : Type 0 where
  success engine_down_err phone_offline internal_err other_err : ApiErr

-- The messages with which `loc_eng_reinit` configures the modem.
pub data Setting : Type 0 where
  constellation supl_version lpp_profile sensor_control a_glonass lppe nmea_types sensor_properties
        sensor_perf enable_data xtra_version :
      Setting

pub data Effect : Type 0 where
  fix_started : Criteria → Effect
  fix_stopped : Effect
  told_session : Bool → Effect
  mode_set : Criteria → Effect
  aiding_deleted : ℕ → Effect
  told_status : Status → Effect
  told_location : Option ℕ → Effect
  told_svs : List Sv → Effect
  nmea_pos : Bool → Effect
  nmea_sv : List Sv → Effect
  told_nmea : Text → Effect
  told_measurement : ℕ → Effect
  raw_freed : Effect
  configured : Setting → Effect
  power_voted : Effect
  ordered : Order → Effect

pub record Engine : Type 0 where
  pub engine_status : Status
  pub fix_session_status : Status
  pub aiding : ℕ
  pub mute : Mute
  pub navigating : Bool
  pub criteria : Criteria
  pub sv_used : Option Used
  pub ni : Ni.Ni
  pub nifs : Nifs
  pub servers : Servers
  pub log : List Effect

-- Which callbacks are there, the configuration, and the answers of what the engine calls.
pub record Setup : Type 0 where
  pub location_cb : Bool
  pub sv_cb : Bool
  pub status_cb : Bool
  pub agps_cb : Bool
  pub nmea_cb : Bool
  pub measurement_cb : Bool
  pub intermediate_fix : Bool
  pub accuracy_thres : ℕ
  pub generate_nmea : Bool
  pub sensor_properties_given : Bool
  pub names : Names
  pub undefined : ℕ → Mask
  pub agps : Env
  pub conf : Conf
  pub start_fix : List Effect → ApiErr

abbrev pub emit : Effect → Engine → Engine
emit x e = record e { log = x ∷ e.log }

abbrev pub without_mode : Criteria → Criteria
without_mode c = record c { mode = invalid_mode }

-- `LocEngAdapter::setInSession`
abbrev pub set_in_session : Bool → Engine → Engine
set_in_session true e = emit (told_session true) (record e { navigating = true })
set_in_session false e =
    emit (told_session false) (record e { navigating = false; criteria = without_mode e.criteria })

-- `loc_eng_start_handler`
abbrev pub after_start : ApiErr → Engine → Engine
after_start success e = set_in_session true e
after_start engine_down_err e = set_in_session true e
after_start phone_offline e = set_in_session true e
after_start internal_err e = set_in_session true e
after_start other_err e = e

unfoldable pub start_handler : Setup → Engine → Engine
start_handler setup e =
    if e.navigating
    then e
    else after_start (setup.start_fix e.log) (emit (fix_started e.criteria) e)

-- `loc_eng_stop_handler`
unfoldable pub stop_handler : Engine → Engine
stop_handler e = if e.navigating then set_in_session false (emit fix_stopped e) else e

-- `LocEngStopFix::proc`
unfoldable pub stop_message : Engine → Engine
stop_message e = stop_handler (record e { sv_used = none })

-- `LocEngPositionMode::proc`
unfoldable pub set_position_mode : Criteria → Engine → Engine
set_position_mode c e = emit (mode_set c) (record e { criteria = c })

abbrev pub is_engine_on : Status → Bool
is_engine_on engine_on = true
is_engine_on no_status = false
is_engine_on session_begin = false
is_engine_on session_end = false
is_engine_on engine_off = false

-- `update_aiding_data_for_deletion`
unfoldable pub update_aiding : Engine → Engine
update_aiding e =
    if not (is_engine_on e.engine_status) && not (e.aiding == 0)
    then record (emit (aiding_deleted e.aiding) e) { aiding = 0 }
    else e

-- `LocEngDelAidData::proc`
unfoldable pub delete_aiding : ℕ → Engine → Engine
delete_aiding what e = update_aiding (record e { aiding = what })
