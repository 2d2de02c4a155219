-- ===== src/Dmn/Ending.antt =====
-- The server's thread ends once it has been unblocked.
use mathlib.Core.List.{append-nil, append_assoc}
use android_device_samsung_a.Base.{
  ◌+◌, ◌≡◌, length, refl, sym, ap, ◌∙◌, subst, Bool, true, false, List, [], ◌∷◌, ◌++◌, All, some,
  chosen_by, ltb, ==_refl, arith, if◌then◌else◌,
}
use android_device_samsung_a.Dmn.Pipe.{
  Bytes, size_bytes, Received, unread, blocked, broken, message, msgsnd, msgrcv,
}
use android_device_samsung_a.Dmn.Framing.{
  length-size_bytes, size_of-size_bytes, waits-header, take-header, drop-header, IsFit, frame,
  frames, msgrcv-frame,
}
use android_device_samsung_a.Dmn.Server.{
  Ctrl, if_request, if_release, unblock, unsupported, Answers, Abi, Phase, at_init, at_pre, at_loop,
  at_post, ended, Server, dispatch, proc_received, loc_api_server_proc, end_round, step_at,
  thread_step, server_unblock, steps,
}

-- The pipes of the server have been opened.
abbrev pub is_up : Phase → Bool
is_up at_init = false
is_up at_pre = true
is_up at_loop = true
is_up at_post = true
is_up ended = true

-- `msgrcv` waits.
abbrev is_blocked : Received → Bool
is_blocked blocked = true
is_blocked (broken n) = false
is_blocked (message body n) = false
is_blocked unread = false

module _ (abi : Abi) where
  exit-dispatch : (c : Ctrl) (s : Server) → (dispatch abi c s).thread_exit ≡ s.thread_exit
  exit-dispatch (if_request r) s = refl
  exit-dispatch (if_release r) s = refl
  exit-dispatch unblock s = refl
  exit-dispatch (unsupported n) s = refl

  dispatched-posts :
      (s0 s : Server) (c : Ctrl)
      → s.thread_exit ≡ true
      → (end_round abi s0 (some (true, dispatch abi c s))).phase ≡ at_post
  dispatched-posts s0 s c e =
      let d = dispatch abi c s in
      ap (λ b. Server.phase (if b then record d { phase = at_post } else d)) (exit-dispatch c s ∙ e)

  -- With the flag set, a round that does not wait is the last.
  received-posts :
      (garbage : Ctrl) (r : Received) (s0 s : Server)
      → is_blocked r ≡ false
      → s.thread_exit ≡ true
      → (end_round abi s0 (proc_received abi garbage r s)).phase ≡ at_post
  received-posts garbage blocked s0 s h e = cc
  received-posts garbage (broken n) s0 s h e = refl
  received-posts garbage (message body n) s0 s h e = dispatched-posts s0 s (abi.parse body) e
  received-posts garbage unread s0 s h e = dispatched-posts s0 s garbage e

  -- A reception does not wait on this pipe.
  abbrev IsReady : Bytes → Type 0
  IsReady pipe =
      (header_fails body_fails : Bool)
      → is_blocked
          (msgrcv abi.width (record { header_fails = header_fails; body_fails = body_fails })
            abi.bufsz pipe).0
        ≡ false

  frame-IsReady :
      (body rest : Bytes)
      → IsFit abi.width abi.bufsz body
      → IsReady (frame abi.width abi.bufsz body ++ rest)
  unfolding msgrcv
  frame-IsReady body rest h true body_fails = refl
  frame-IsReady body rest h false true =
      let n = abi.width + length body in
      let header = size_bytes abi.width n in
      let tail = body ++ rest in
      let size = length-size_bytes abi.width n in
      let full = waits-header abi.width header tail size in
      let taken = take-header abi.width header tail size in
      let left = drop-header abi.width header tail size in
      let too_large : ltb abi.bufsz n ≡ false = ground arith in
      let no_wrap : ltb n abi.width ≡ false = ground arith in
      rw
        (
          append_assoc header body rest,
          full,
          taken,
          left,
          size,
          ==_refl abi.width,
          size_of-size_bytes abi.width n h.0,
          too_large,
          no_wrap,
        )
        refl
  frame-IsReady body rest h false false =
      ap (λ (r : Received × Bytes). is_blocked r.0) (msgrcv-frame abi.width abi.bufsz body rest h)

  frames-IsReady :
      (bodies : List Bytes)
      → All (IsFit abi.width abi.bufsz) bodies
      → IsFit abi.width abi.bufsz abi.unblock_body
      → IsReady (frames abi.width abi.bufsz bodies ++ frame abi.width abi.bufsz abi.unblock_body)
  frames-IsReady [] h u =
      let body = abi.unblock_body in
      subst IsReady (append-nil (frame abi.width abi.bufsz body)) (frame-IsReady body [] u)
  frames-IsReady (body ∷ bodies) (h, hs) u =
      let last = frame abi.width abi.bufsz abi.unblock_body in
      let rest = frames abi.width abi.bufsz bodies in
      subst IsReady (sym (append_assoc (frame abi.width abi.bufsz body) rest last))
        (frame-IsReady body (rest ++ last) h)

  -- The flag is set, and the next reception does not wait.
  abbrev IsLast : Server → Type 0
  IsLast s = (s.thread_exit ≡ true) × IsReady s.pipe

  loop-posts :
      (answers : Answers) (s : Server)
      → IsLast s
      → (end_round abi s (loc_api_server_proc abi answers s)).phase ≡ at_post
  unfolding loc_api_server_proc
  loop-posts answers s (e, ready) =
      let reads = answers.reads in
      let r = msgrcv abi.width reads abi.bufsz s.pipe in
      let got = proc_received abi answers.garbage r.0 (record s { pipe = r.1 }) in
      chosen_by (λ o. (end_round abi s o).phase ≡ at_post) answers.memory got (some (false, s))
        (λ m.
          received-posts answers.garbage r.0 s (record s { pipe = r.1 })
            (ready reads.header_fails reads.body_fails) e)
        (λ m. refl)

  ended-stays : (m : Answers) (s : Server) → s.phase ≡ ended → (thread_step abi m s).phase ≡ ended
  unfolding thread_step
  ended-stays m s e = ap (λ p. Server.phase (step_at abi p m s)) e ∙ e

  post-ends : (m : Answers) (s : Server) → s.phase ≡ at_post → (thread_step abi m s).phase ≡ ended
  unfolding thread_step
  post-ends m s e = ap (λ p. Server.phase (step_at abi p m s)) e

  step-posts :
      (m : Answers) (s : Server)
      → s.phase ≡ at_loop
      → IsLast s
      → (thread_step abi m s).phase ≡ at_post
  unfolding thread_step
  step-posts m s e h = ap (λ p. Server.phase (step_at abi p m s)) e ∙ loop-posts m s h

  pre-loops :
      (m : Answers) (s : Server)
      → s.phase ≡ at_pre
      → thread_step abi m s ≡ record s { phase = at_loop }
  unfolding thread_step
  pre-loops m s e = ap (λ p. step_at abi p m s) e

  up-ends :
      (p : Phase) (s : Server) (m1 m2 m3 : Answers)
      → s.phase ≡ p
      → is_up p ≡ true
      → IsLast s
      → (thread_step abi m3 (thread_step abi m2 (thread_step abi m1 s))).phase ≡ ended
  up-ends at_init s m1 m2 m3 e up h = cc
  up-ends at_pre s m1 m2 m3 e up h =
      let t = record s { phase = at_loop } in
      subst (λ t. (thread_step abi m3 (thread_step abi m2 t)).phase ≡ ended)
        (sym (pre-loops m1 s e)) (post-ends m3 (thread_step abi m2 t) (step-posts m2 t refl h))
  up-ends at_loop s m1 m2 m3 e up h =
      let t = thread_step abi m1 s in
      ended-stays m3 (thread_step abi m2 t) (post-ends m2 t (step-posts m1 s e h))
  up-ends at_post s m1 m2 m3 e up h =
      let t = thread_step abi m1 s in
      ended-stays m3 (thread_step abi m2 t) (ended-stays m2 t (post-ends m1 s e))
  up-ends ended s m1 m2 m3 e up h =
      let t = thread_step abi m1 s in
      ended-stays m3 (thread_step abi m2 t) (ended-stays m2 t (ended-stays m1 s e))

  -- Once the server is unblocked, with its pipes open, only messages that fit in its pipe and an
  -- unblocking message that fits and is written, its thread ends within three of its steps,
  -- whatever `malloc` and the reads answer in them.
  pub server_unblock-ends :
      (bodies : List Bytes) (s : Server) (m1 m2 m3 : Answers)
      → is_up s.phase ≡ true
      → s.pipe ≡ frames abi.width abi.bufsz bodies
      → All (IsFit abi.width abi.bufsz) bodies
      → IsFit abi.width abi.bufsz abi.unblock_body
      → (steps abi (m1 ∷ m2 ∷ m3 ∷ []) (server_unblock abi true s)).phase ≡ ended
  unfolding steps server_unblock msgsnd
  server_unblock-ends bodies s m1 m2 m3 up e h u =
      let last = frame abi.width abi.bufsz abi.unblock_body in
      up-ends s.phase (record s { thread_exit = true; pipe = s.pipe ++ last }) m1 m2 m3 refl up
        (refl, subst (λ pipe. IsReady (pipe ++ last)) (sym e) (frames-IsReady bodies h u))
