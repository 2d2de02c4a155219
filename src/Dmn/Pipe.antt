-- ===== src/Dmn/Pipe.antt =====
-- loc_eng_dmn_conn_glue_msg.c and loc_eng_dmn_conn_glue_pipe.c: messages over a named pipe.
--
-- A pipe is the bytes in it. `read` gives as many bytes as are there, up to the number asked for, and
-- waits only when there are none; a `write` of a message puts it in as a whole. A `size_t` has `width`
-- bytes, the lowest first. A message is the bytes after its field `msgsz`.
use android_device_samsung_a.Base.{
  ℕ, zero, suc, ◌+◌, ◌-◌, ◌*◌, ◌/◌, ◌%◌, Bool, true, false, not, List, [], ◌∷◌, ◌++◌, ◌==◌, ltb,
  length, take, if◌then◌else◌,
}

abbrev pub Bytes : Type 0
Bytes = List ℕ

abbrev pub drop : ℕ → Bytes → Bytes
drop zero xs = xs
drop (suc n) [] = []
drop (suc n) (x ∷ xs) = drop n xs

-- The bytes of a `size_t`, and the number that they are.
unfoldable pub size_bytes : (width n : ℕ) → Bytes
size_bytes zero n = []
size_bytes (suc width) n = (n % 256) ∷ size_bytes width (n / 256)

unfoldable pub size_of : Bytes → ℕ
size_of [] = 0
size_of (b ∷ bs) = b + 256 * size_of bs

-- What `msgrcv` does: it waits, or it fails or succeeds, and then has stored so many bytes, or it
-- succeeds with nothing of the message read but its size.
pub data Received : Type 0 where
  blocked : Received
  broken : (stored : ℕ) → Received
  message : Bytes → (stored : ℕ) → Received
  unread : Received

-- Whether the two reads of `msgrcv` fail, for reasons of the platform.
pub record Reads : Type 0 where
  pub header_fails : Bool
  pub body_fails : Bool

abbrev pub good_reads : Reads
good_reads = record { header_fails = false; body_fails = false }

-- `read` waits.
abbrev pub waits : ℕ → Bytes → Bool
waits n [] = not (n == 0)
waits n (b ∷ bs) = false

module _ (width : ℕ) where
  -- `loc_eng_dmn_conn_glue_msgsnd`, `written` being whether the write succeeds.
  unfoldable pub msgsnd : (written : Bool) → (body : Bytes) → Bytes → Bool × Bytes
  msgsnd true body pipe = (true, pipe ++ (size_bytes width (width + length body) ++ body))
  msgsnd false body pipe = (false, pipe)

  -- `pmsg->msgsz - sizeof(pmsg->msgsz)`, where that does not wrap around.
  abbrev pub body_size : ℕ → ℕ
  body_size msgsz = msgsz - width

  -- The second read of `msgrcv`.
  abbrev pub read_body : (size : ℕ) → Bytes → Received × Bytes
  read_body size pipe =
      if waits size pipe
      then (blocked, pipe)
      else (let body = take size pipe in
          if length body == size
          then (message body (width + length body), drop size pipe)
          else (broken (width + length body), drop size pipe))

  -- A `msgsz` below `width`: the size of the rest wraps around to more than SSIZE_MAX bytes, so `read`
  -- fails, as on Linux, with -1. That is the size, as an `int`, exactly for the size `width - 1`.
  abbrev pub wrapped : (msgsz : ℕ) → Received
  wrapped msgsz = if suc msgsz == width then unread else broken width

  abbrev pub after_header :
      (body_fails : Bool) → (bufsz : ℕ) → (header : Bytes) → Bytes → Received × Bytes
  after_header body_fails bufsz header pipe =
      let msgsz = size_of header in
      if not (length header == width)
      then (broken (length header), pipe)
      else if ltb bufsz msgsz
      then (broken width, pipe)
      else if ltb msgsz width
      then (wrapped msgsz, pipe)
      else if body_fails
      then (broken width, pipe)
      else read_body (body_size msgsz) pipe

  -- `loc_eng_dmn_conn_glue_msgrcv`. `bufsz` is an `int` of the caller, so that a size that passes the
  -- check and does not wrap around is one too.
  unfoldable pub msgrcv : Reads → (bufsz : ℕ) → Bytes → Received × Bytes
  msgrcv reads bufsz pipe =
      if reads.header_fails
      then (broken 0, pipe)
      else if waits width pipe
      then (blocked, pipe)
      else after_header reads.body_fails bufsz (take width pipe) (drop width pipe)

  -- Messages sent one after the other.
  unfoldable pub send_all : List Bytes → Bytes → Bytes
  send_all [] pipe = pipe
  send_all (body ∷ bodies) pipe = send_all bodies (msgsnd true body pipe).1

  abbrev pub collect : Received → (List Bytes × Bytes) → List Bytes × Bytes
  collect blocked rest = ([], rest.1)
  collect (broken n) rest = rest
  collect (message body n) rest = (body ∷ rest.0, rest.1)
  collect unread rest = rest

  -- So many receptions whose reads do not fail, and the messages that they give.
  unfoldable pub receive_all : (bufsz count : ℕ) → Bytes → List Bytes × Bytes
  receive_all bufsz zero pipe = ([], pipe)
  receive_all bufsz (suc count) pipe =
      let r = msgrcv good_reads bufsz pipe in collect r.0 (receive_all bufsz count r.1)
