-- ===== src/Dmn/Agreeing.antt =====
-- The two handlers of the daemon's messages agree.
use android_device_samsung_a.Base.{◌≡◌, refl, true, false, Option, none, some, List, map}
use android_device_samsung_a.Nif.{AgpsType}
use android_device_samsung_a.Dmn.Handler.{
  Sender, quipc, msapm, msapu, gpsone_daemon, modem, sender_other, IfRequest, EngMsg, req_rel_wifi,
  req_rel_bit_msg, Code, agps_type, by_sender, by_type, if_request_handler, if_release_handler,
}

-- The same message as a release.
abbrev pub as_release : EngMsg → EngMsg
as_release (req_rel_wifi engine type sender ssid password is_req) =
    req_rel_wifi engine type sender ssid password false
as_release (req_rel_bit_msg engine type ipv4 ipv6 is_req) =
    req_rel_bit_msg engine type ipv4 ipv6 false

abbrev pub released : Code × List EngMsg → Code × List EngMsg
released (code, msgs) = (code, map as_release msgs)

sender-released :
    (r : IfRequest) (t : AgpsType) (s : Sender)
    → by_sender true false r t s ≡ released (by_sender true true r t s)
sender-released r t quipc = refl
sender-released r t msapm = refl
sender-released r t msapu = refl
sender-released r t gpsone_daemon = refl
sender-released r t modem = refl
sender-released r t (sender_other n) = refl

type-released :
    (r : IfRequest) (o : Option AgpsType)
    → by_type true false r o ≡ released (by_type true true r o)
type-released r none = refl
type-released r (some t) = sender-released r t r.sender_id

-- With an engine, the release of every interface request gives the result of its request, and sends
-- the same messages, marked as releases.
if_release_handler-released :
    (agps_wifi : AgpsType) (r : IfRequest)
    → if_release_handler agps_wifi true r ≡ released (if_request_handler agps_wifi true r)
unfolding if_request_handler if_release_handler
if_release_handler-released agps_wifi r = type-released r (agps_type agps_wifi r.type)
