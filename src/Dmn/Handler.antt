-- ===== src/Dmn/Handler.antt =====
-- loc_eng_dmn_conn_handler.cpp: the daemon's requests and releases of a data connection become messages
-- of the engine.
use android_device_samsung_a.Base.{
  ℕ, Bool, true, false, not, Option, none, some, List, [], ◌∷◌, if◌then◌else◌,
}
use android_device_samsung_a.Nif.{AgpsType, supl, other}

-- `ctrl_if_req_type_e_type`, and other values that are in the message.
pub data IfType : Type 0 where
  if_supl if_wifi if_any : IfType
  if_other : ℕ → IfType

-- `ctrl_if_req_sender_id_e_type`, and other values.
pub data Sender : Type 0 where
  quipc msapm msapu gpsone_daemon modem : Sender
  sender_other : ℕ → Sender

-- `ctrl_msg_if_request`
pub record IfRequest : Type 0 where
  pub type : IfType
  pub sender_id : Sender
  pub ipv4_addr : ℕ
  pub ipv6_addr : List ℕ
  pub ssid : List ℕ
  pub password : List ℕ

-- `LocEngReqRelWifi` and `LocEngReqRelBIT`, with whether their engine is there.
pub data EngMsg : Type 0 where
  req_rel_wifi :
      (engine : Bool) → AgpsType → Sender → (ssid password : List ℕ) → (is_req : Bool) → EngMsg
  req_rel_bit_msg :
      (engine : Bool) → AgpsType → (ipv4 : ℕ) → (ipv6 : List ℕ) → (is_req : Bool) → EngMsg

pub data Code : Type 0 where
  zero_code one_code minus_one : Code

-- The type for an interface, `agps_wifi` being AGPS_TYPE_WIFI, and AGPS_TYPE_ANY 0.
abbrev pub agps_type : (agps_wifi : AgpsType) → IfType → Option AgpsType
agps_type agps_wifi if_supl = some supl
agps_type agps_wifi if_wifi = some agps_wifi
agps_type agps_wifi if_any = some (other 0)
agps_type agps_wifi (if_other n) = none

module _ (engine is_req : Bool) (r : IfRequest) where
  abbrev pub wifi_to : AgpsType → Code × List EngMsg
  wifi_to t = (zero_code, req_rel_wifi engine t r.sender_id r.ssid r.password is_req ∷ [])

  -- The message for a sender.
  abbrev pub by_sender : AgpsType → Sender → Code × List EngMsg
  by_sender t quipc = wifi_to t
  by_sender t msapm = wifi_to t
  by_sender t msapu = wifi_to t
  by_sender t gpsone_daemon =
      (zero_code, req_rel_bit_msg engine t r.ipv4_addr r.ipv6_addr is_req ∷ [])
  by_sender t modem = (minus_one, [])
  by_sender t (sender_other n) = (minus_one, [])

  abbrev pub by_type : Option AgpsType → Code × List EngMsg
  by_type none = (minus_one, [])
  by_type (some t) = by_sender t r.sender_id

-- `loc_eng_dmn_conn_loc_api_server_if_request_handler`, `engine` being whether `loc_api_handle` is not
-- NULL: the result and the messages sent.
unfoldable pub if_request_handler :
    (agps_wifi : AgpsType) → (engine : Bool) → IfRequest → Code × List EngMsg
if_request_handler agps_wifi engine r =
    if not engine then (one_code, []) else by_type engine true r (agps_type agps_wifi r.type)

-- `loc_eng_dmn_conn_loc_api_server_if_release_handler`
unfoldable pub if_release_handler :
    (agps_wifi : AgpsType) → (engine : Bool) → IfRequest → Code × List EngMsg
if_release_handler agps_wifi engine r = by_type engine false r (agps_type agps_wifi r.type)
