-- ===== src/Ni/Payloads.antt =====
-- Where the payloads of the requests are.
use android_device_samsung_a.Base.{ℕ, ◌+◌, Option, none, some, List, [], ◌∷◌, ◌==◌, if◌then◌else◌}
use android_device_samsung_a.Ni.{
  Message, Session, Ni, Action, requested, responded, restarted, frees_request, clears_request,
  wakes, finishes,
}

-- No part of a restart by itself.
abbrev pub IsWhole : Action → Type 0
IsWhole (requested n payload) = Unit {0}
IsWhole (responded id r) = Unit {0}
IsWhole restarted = Unit {0}
IsWhole (frees_request w) = ⊥
IsWhole (clears_request w) = ⊥
IsWhole (wakes w timed_out) = Unit {0}
IsWhole (finishes w) = Unit {0}

module _ (x : ℕ) where
  -- How often the payload `x` is in a place.
  abbrev pub in_option : Option ℕ → ℕ
  in_option none = 0
  in_option (some p) = if p == x then 1 else 0

  abbrev pub in_list : List ℕ → ℕ
  in_list [] = 0
  in_list (p ∷ ps) = in_option (some p) + in_list ps

  abbrev pub in_message : Option Message → ℕ
  in_message none = 0
  in_message (some m) = in_option (some m.1)

  abbrev pub in_finishing : List (Option Message) → ℕ
  in_finishing [] = 0
  in_finishing (m ∷ ms) = in_message m + in_finishing ms

  abbrev pub in_sent : List Message → ℕ
  in_sent [] = 0
  in_sent (m ∷ ms) = in_option (some m.1) + in_sent ms

  abbrev pub in_session : Session → ℕ
  in_session s = in_option s.raw_request + in_finishing s.finishing

  -- In the sessions and their threads, sent to the adapter, or freed.
  abbrev pub in_all : Ni → ℕ
  in_all m = in_session m.session + in_session m.session_es + in_sent m.sent + in_list m.freed

  abbrev pub given_by : Action → ℕ
  given_by (requested n payload) = in_option payload
  given_by (responded id r) = 0
  given_by restarted = 0
  given_by (frees_request w) = 0
  given_by (clears_request w) = 0
  given_by (wakes w timed_out) = 0
  given_by (finishes w) = 0

  -- How often requests came with it.
  abbrev pub given : List Action → ℕ
  given [] = 0
  given (a ∷ rest) = given_by a + given rest
