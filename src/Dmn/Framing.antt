-- ===== src/Dmn/Framing.antt =====
-- Messages over the pipe come out as they went in.
use android_device_samsung_a.Base.{
  ℕ, zero, suc, ◌+◌, ◌*◌, ◌/◌, ◌%◌, ◌^◌, ◌≤◌, ◌<◌, ◌≡◌, refl, sym, ap, ◌∙◌, subst, false, List, [],
  ◌∷◌, ◌++◌, ltb, length, take, All, ==_refl, arith,
}
use mathlib.Core.List.{append-nil, append_assoc}
use android_device_samsung_a.Dmn.Pipe.{
  Bytes, drop, size_bytes, size_of, Received, message, waits, msgsnd, body_size, read_body,
  after_header, good_reads, msgrcv, send_all, collect, receive_all,
}

pub length-size_bytes : (width n : ℕ) → length (size_bytes width n) ≡ width
unfolding size_bytes
length-size_bytes zero n = refl
length-size_bytes (suc width) n = ap suc (length-size_bytes width (n / 256))

pub size_of-size_bytes : (width n : ℕ) → n < 256 ^ width → size_of (size_bytes width n) ≡ n
unfolding size_bytes size_of
size_of-size_bytes zero n h = omega arith
size_of-size_bytes (suc width) n h =
    ap (λ m. n % 256 + 256 * m) (size_of-size_bytes width (n / 256) (omega arith)) ∙ omega arith

pub take-append : (xs ys : Bytes) → take (length xs) (xs ++ ys) ≡ xs
take-append [] ys = refl
take-append (x ∷ xs) ys = ap (λ zs. x ∷ zs) (take-append xs ys)

pub drop-append : (xs ys : Bytes) → drop (length xs) (xs ++ ys) ≡ ys
drop-append [] ys = refl
drop-append (x ∷ xs) ys = drop-append xs ys

-- There are enough bytes, or none are asked for.
pub waits-append : (xs ys : Bytes) → waits (length xs) (xs ++ ys) ≡ false
waits-append [] [] = refl
waits-append [] (y ∷ ys) = refl
waits-append (x ∷ xs) ys = refl

module _ (width : ℕ) (header tail : Bytes) (e : length header ≡ width) where
  pub waits-header : waits width (header ++ tail) ≡ false
  waits-header = subst (λ w. waits w (header ++ tail) ≡ false) e (waits-append header tail)

  pub take-header : take width (header ++ tail) ≡ header
  take-header = subst (λ w. take w (header ++ tail) ≡ header) e (take-append header tail)

  pub drop-header : drop width (header ++ tail) ≡ tail
  drop-header = subst (λ w. drop w (header ++ tail) ≡ tail) e (drop-append header tail)

-- A message that is short enough for the buffer, and whose size a `size_t` holds.
abbrev pub IsFit : (width bufsz : ℕ) → Bytes → Type 0
IsFit width bufsz body = (width + length body < 256 ^ width) × (width + length body ≤ bufsz)

module _ (width bufsz : ℕ) where
  abbrev pub frame : Bytes → Bytes
  frame body = size_bytes width (width + length body) ++ body

  body_size-add : (n : ℕ) → body_size width (width + n) ≡ n
  body_size-add n = omega arith

  read_body-append :
      (body rest : Bytes)
      → read_body width (length body) (body ++ rest) ≡ (message body (width + length body), rest)
  read_body-append body rest =
      rw
        (
          waits-append body rest,
          take-append body rest,
          drop-append body rest,
          ==_refl (length body),
        )
        refl

  after_header-frame :
      (body rest : Bytes)
      → IsFit width bufsz body
      → after_header width false bufsz (size_bytes width (width + length body)) (body ++ rest)
        ≡ (message body (width + length body), rest)
  after_header-frame body rest (small, fit) =
      let n = width + length body in
      let too_large : ltb bufsz n ≡ false = ground arith in
      let no_wrap : ltb n width ≡ false = ground arith in
      rw
        (
          length-size_bytes width n,
          ==_refl width,
          size_of-size_bytes width n small,
          too_large,
          no_wrap,
          body_size-add (length body),
        )
        (read_body-append body rest)

  -- One message in front of the pipe is received, and nothing after it is touched.
  pub msgrcv-frame :
      (body rest : Bytes)
      → IsFit width bufsz body
      → msgrcv width good_reads bufsz (frame body ++ rest)
        ≡ (message body (width + length body), rest)
  unfolding msgrcv
  msgrcv-frame body rest h =
      let n = width + length body in
      let header = size_bytes width n in
      let tail = body ++ rest in
      let size = length-size_bytes width n in
      let full = waits-header width header tail size in
      let taken = take-header width header tail size in
      let left = drop-header width header tail size in
      rw (append_assoc header body rest, full, taken, left) (after_header-frame body rest h)

  abbrev pub frames : List Bytes → Bytes
  frames [] = []
  frames (body ∷ bodies) = frame body ++ frames bodies

  send_all-frames :
      (bodies : List Bytes) (pipe : Bytes) → send_all width bodies pipe ≡ pipe ++ frames bodies
  unfolding send_all msgsnd
  send_all-frames [] pipe = sym (append-nil pipe)
  send_all-frames (body ∷ bodies) pipe =
      send_all-frames bodies (pipe ++ frame body) ∙ append_assoc pipe (frame body) (frames bodies)

  receive_all-frames :
      (bodies : List Bytes)
      → All (IsFit width bufsz) bodies
      → receive_all width bufsz (length bodies) (frames bodies) ≡ (bodies, [])
  unfolding receive_all
  receive_all-frames [] h = refl
  receive_all-frames (body ∷ bodies) (h, hs) =
      let got = msgrcv-frame body (frames bodies) h in
      ap (λ (r : Received × Bytes). collect width r.0 (receive_all width bufsz (length bodies) r.1))
        got
      ∙ ap (λ (r : List Bytes × Bytes). (body ∷ r.0, r.1)) (receive_all-frames bodies hs)

  -- Messages that fit the receiver's buffer, sent one after the other into an empty pipe, are received
  -- in their order by as many receptions, and the pipe is empty again.
  pub send_all-receive_all :
      (bodies : List Bytes)
      → All (IsFit width bufsz) bodies
      → receive_all width bufsz (length bodies) (send_all width bodies []) ≡ (bodies, [])
  send_all-receive_all bodies h =
      ap (receive_all width bufsz (length bodies)) (send_all-frames bodies [])
      ∙ receive_all-frames bodies h
