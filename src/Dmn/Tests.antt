-- ===== src/Dmn/Tests.antt =====
-- The theorems on the daemon's connection with a `size_t` of four bytes and a buffer of 300.
use android_device_samsung_a.Base.{
  ◌≤◌, ◌≡◌, refl, true, false, some, List, [], ◌∷◌, ◌++◌, All, arith,
}
use android_device_samsung_a.Nif.{other}
use android_device_samsung_a.Dmn.Pipe.{Bytes, size_of, good_reads, msgrcv, send_all, receive_all}
use android_device_samsung_a.Dmn.Handler.{IfRequest, if_any, gpsone_daemon}
use android_device_samsung_a.Dmn.Server.{
  Abi, Answers, Server, Ctrl, if_release, unblock, at_loop, ended, dispatch, loc_api_server_proc,
  server_unblock, steps,
}
use android_device_samsung_a.Dmn.Framing.{IsFit, frames, send_all-receive_all}
use android_device_samsung_a.Dmn.Overrun.{stored, msgrcv-bounds}
use android_device_samsung_a.Dmn.Unread.{loc_api_server_proc-garbage}
use android_device_samsung_a.Dmn.Ending.{server_unblock-ends}

abbrev bodies : List Bytes
bodies = (1 ∷ 2 ∷ []) ∷ [] ∷ (7 ∷ []) ∷ []

bodies-IsFit : All (IsFit 4 300) bodies
bodies-IsFit =
    ((omega arith, omega arith), ((omega arith, omega arith), ((omega arith, omega arith), tt)))

send_all-receive_all_example : receive_all 4 300 3 (send_all 4 bodies []) ≡ (bodies, [])
send_all-receive_all_example = send_all-receive_all 4 300 bodies bodies-IsFit

abbrev pipe : Bytes
pipe = 6 ∷ 0 ∷ 0 ∷ 0 ∷ 1 ∷ 2 ∷ 3 ∷ []

msgrcv-bounds_example : stored 4 (msgrcv 4 good_reads 300 pipe).0 ≤ 300
msgrcv-bounds_example = msgrcv-bounds 4 300 good_reads pipe (omega arith)

abbrev request : IfRequest
request = record {
  type = if_any;
  sender_id = gpsone_daemon;
  ipv4_addr = 16777343;
  ipv6_addr = [];
  ssid = [];
  password = [];
}

abbrev parse : Bytes → Ctrl
parse bytes = unblock

abbrev abi : Abi
abi = record { width = 4; bufsz = 300; parse = parse; unblock_body = 4 ∷ []; agps_wifi = other 4 }

abbrev server : Server
server = record {
  phase = at_loop;
  thread_exit = false;
  thread_ready = true;
  pipe = frames 4 300 bodies;
  engine = true;
  sent = [];
  removed = false;
}

abbrev answers : Answers
answers = record { memory = true; reads = good_reads; garbage = if_release request }

abbrev failing : Answers
failing = record answers { reads = record { header_fails = false; body_fails = true } }

server_unblock-ends_example :
    (steps abi (failing ∷ answers ∷ answers ∷ []) (server_unblock abi true server)).phase ≡ ended
server_unblock-ends_example =
    server_unblock-ends abi bodies server failing answers answers refl refl bodies-IsFit
      (omega arith, omega arith)

-- A message of three bytes, by its size.
abbrev short_server : Server
short_server = record server { pipe = (3 ∷ 0 ∷ 0 ∷ 0 ∷ []) ++ (1 ∷ 2 ∷ []) }

loc_api_server_proc-garbage_example :
    loc_api_server_proc abi answers short_server
    ≡ some (true, dispatch abi (if_release request) (record short_server { pipe = 1 ∷ 2 ∷ [] }))
unfolding size_of
loc_api_server_proc-garbage_example =
    loc_api_server_proc-garbage abi answers short_server (3 ∷ 0 ∷ 0 ∷ 0 ∷ []) (1 ∷ 2 ∷ [])
      (omega arith) refl refl refl refl refl
