-- ===== src/Dmn/Server.antt =====
-- loc_eng_dmn_conn.cpp and loc_eng_dmn_conn_thread_helper.c: the server and its thread.
use android_device_samsung_a.Base.{
  ℕ, Bool, true, false, Option, none, some, List, [], ◌∷◌, ◌++◌, if◌then◌else◌,
}
use android_device_samsung_a.Nif.{AgpsType}
use android_device_samsung_a.Dmn.Pipe.{
  Bytes, Received, Reads, unread, blocked, broken, message, msgsnd, msgrcv,
}
use android_device_samsung_a.Dmn.Handler.{IfRequest, EngMsg, if_request_handler, if_release_handler}

-- A message by its `ctrl_type`.
pub data Ctrl : Type 0 where
  if_request if_release : IfRequest → Ctrl
  unblock : Ctrl
  unsupported : ℕ → Ctrl

-- What the server depends on: the width of `size_t`, the size of its buffer, how the bytes of a message
-- lie in the structure, the bytes of GPSONE_UNBLOCK's message, and AGPS_TYPE_WIFI.
pub record Abi : Type 0 where
  pub width : ℕ
  pub bufsz : ℕ
  pub parse : Bytes → Ctrl
  pub unblock_body : Bytes
  pub agps_wifi : AgpsType

-- The answers of a step: whether `malloc` succeeds, the two reads, and the message that the memory from
-- `malloc`, which nobody has written, would be.
pub record Answers : Type 0 where
  pub memory : Bool
  pub reads : Reads
  pub garbage : Ctrl

-- Where the thread is.
pub data Phase : Type 0 where
  at_init at_pre at_loop at_post ended : Phase

-- `loc_eng_dmn_conn_thelper`, the pipe of the server, whether `loc_api_handle` is not NULL, the
-- messages sent to the engine, the latest last, and whether the pipes have been removed.
pub record Server : Type 0 where
  pub phase : Phase
  pub thread_exit : Bool
  pub thread_ready : Bool
  pub pipe : Bytes
  pub engine : Bool
  pub sent : List EngMsg
  pub removed : Bool

module _ (abi : Abi) where
  abbrev pub dispatch : Ctrl → Server → Server
  dispatch (if_request r) s = record s {
    sent = s.sent ++ (if_request_handler abi.agps_wifi s.engine r).1;
  }
  dispatch (if_release r) s = record s {
    sent = s.sent ++ (if_release_handler abi.agps_wifi s.engine r).1;
  }
  dispatch unblock s = s
  dispatch (unsupported n) s = s

  -- `loc_api_server_proc`: its result, 0 or -1, or `none` while
  -- it waits for a message. A `size_t` has at least two bytes, so the length is not 0.
  abbrev pub proc_received : (garbage : Ctrl) → Received → Server → Option (Bool × Server)
  proc_received garbage blocked s = none
  proc_received garbage (broken n) s = some (false, s)
  proc_received garbage (message body n) s = some (true, dispatch (abi.parse body) s)
  proc_received garbage unread s = some (true, dispatch garbage s)

  unfoldable pub loc_api_server_proc : Answers → Server → Option (Bool × Server)
  loc_api_server_proc answers s =
      let r = msgrcv abi.width answers.reads abi.bufsz s.pipe in
      if answers.memory
      then proc_received answers.garbage r.0 (record s { pipe = r.1 })
      else some (false, s)

  -- The rest of a round of the loop in `thelper_main`.
  abbrev pub end_round : Server → Option (Bool × Server) → Server
  end_round s0 none = s0
  end_round s0 (some (good, s)) =
      let s1 = if good then s else record s { thread_exit = true } in
      if s1.thread_exit then record s1 { phase = at_post } else s1

  -- A step of `thelper_main`: the next of its procedures with what follows it; the ones before the
  -- loop are the server's, which return 0. In the loop a thread that waits stays where it is.
  abbrev pub step_at : Phase → Answers → Server → Server
  step_at at_init answers s = record s { phase = at_pre; thread_ready = true }
  step_at at_pre answers s = record s { phase = at_loop }
  step_at at_loop answers s = end_round s (loc_api_server_proc answers s)
  step_at at_post answers s = record s { phase = ended; removed = true }
  step_at ended answers s = s

  unfoldable pub thread_step : Answers → Server → Server
  thread_step answers s = step_at s.phase answers s

  -- `loc_eng_dmn_conn_loc_api_server_unblock`, `written` being whether its message is.
  unfoldable pub server_unblock : (written : Bool) → Server → Server
  server_unblock written s = record s {
    thread_exit = true;
    pipe = (msgsnd abi.width written abi.unblock_body s.pipe).1;
  }

  -- Steps of the thread, with the answers in each.
  unfoldable pub steps : List Answers → Server → Server
  steps [] s = s
  steps (answers ∷ rest) s = steps rest (thread_step answers s)
