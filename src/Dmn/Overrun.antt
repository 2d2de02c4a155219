-- ===== src/Dmn/Overrun.antt =====
-- What the receiver's buffer takes.
use android_device_samsung_a.Base.{
  ℕ, zero, suc, ◌+◌, ◌≤◌, not, [], ◌∷◌, ◌==◌, ltb, length, take, chosen_by, arith, if◌then◌else◌,
}
use android_device_samsung_a.Dmn.Pipe.{
  Bytes, drop, size_of, Received, Reads, unread, blocked, broken, message, waits, wrapped,
  body_size, read_body, after_header, msgrcv,
}

-- How many bytes a reception has stored in the buffer.
abbrev pub stored : (width : ℕ) → Received → ℕ
stored width blocked = 0
stored width (broken n) = n
stored width (message body n) = n
stored width unread = width

length-take_le : (n : ℕ) (xs : Bytes) → length (take n xs) ≤ n
length-take_le zero xs = omega arith
length-take_le (suc n) [] = omega arith
length-take_le (suc n) (x ∷ xs) = omega (arith, length-take_le n xs)

module _ (width bufsz : ℕ) where
  IsBounded : Received × Bytes → Type 0
  IsBounded r = stored width r.0 ≤ bufsz

  body-IsBounded :
      (size : ℕ) (pipe : Bytes) → width + size ≤ bufsz → IsBounded (read_body width size pipe)
  unfolding IsBounded
  body-IsBounded size pipe h =
      let body = take size pipe in
      let most = length-take_le size pipe in
      let got : Received × Bytes = (message body (width + length body), drop size pipe) in
      let cut : Received × Bytes = (broken (width + length body), drop size pipe) in
      chosen_by IsBounded (waits size pipe) (blocked, pipe)
        (if length body == size then got else cut) (λ e. omega arith)
        (λ e.
          chosen_by IsBounded (length body == size) got cut (λ k. omega arith) (λ k. omega arith))

  wrapped-IsBounded : (n : ℕ) (rest : Bytes) → width ≤ bufsz → IsBounded (wrapped width n, rest)
  unfolding IsBounded
  wrapped-IsBounded n rest room =
      chosen_by (λ r. stored width r ≤ bufsz) (suc n == width) unread (broken width) (λ e. room)
        (λ e. room)

  -- With a buffer that can hold the field `msgsz`, no more is stored than the buffer holds,
  -- whatever is in the pipe and whether the reads fail or not.
  pub msgrcv-bounds :
      (reads : Reads) (pipe : Bytes)
      → width ≤ bufsz
      → stored width (msgrcv width reads bufsz pipe).0 ≤ bufsz
  unfolding msgrcv IsBounded
  msgrcv-bounds reads pipe room =
      let header = take width pipe in
      let rest = drop width pipe in
      let n = size_of header in
      let most = length-take_le width pipe in
      let failed : Received × Bytes = (broken width, rest) in
      let body : Received × Bytes = read_body width (body_size width n) rest in
      let tried : Received × Bytes = if reads.body_fails then failed else body in
      let fitting : Received × Bytes = if ltb n width then (wrapped width n, rest) else tried in
      let checked : Received × Bytes = if ltb bufsz n then failed else fitting in
      let after : Received × Bytes = after_header width reads.body_fails bufsz header rest in
      let read : Received × Bytes = if waits width pipe then (blocked, pipe) else after in
      chosen_by IsBounded reads.header_fails (broken 0, pipe) read (λ e. omega arith)
        (λ e.
          chosen_by IsBounded (waits width pipe) (blocked, pipe) after (λ k. omega arith)
            (λ k.
              chosen_by IsBounded (not (length header == width)) (broken (length header), rest)
                checked (λ l. omega arith)
                (λ l.
                  chosen_by IsBounded (ltb bufsz n) failed fitting (λ m. room)
                    (λ m.
                      chosen_by IsBounded (ltb n width) (wrapped width n, rest) tried
                        (λ w. wrapped-IsBounded n rest room)
                        (λ w.
                          chosen_by IsBounded reads.body_fails failed body (λ f. room)
                            (λ f. body-IsBounded (body_size width n) rest (ground arith)))))))
