-- ===== src/MsgQ/Steps.antt =====
-- The queue under any number of threads: a schedule is a list of steps, and each step is a call,
-- a wake-up of a thread in the wait, or a spurious wake-up.
use android_device_samsung_a.Base.{
  ℕ, zero, suc, ◌⊎◌, inl, inr, Bool, true, false, Option, none, some, List, [], ◌∷◌,
}
use mathlib.Core.List.{reverse}
use android_device_samsung_a.MsgQ.{
  QErr, success, MsgQ, Rcv, waits, returns, msg_q_snd, msg_q_rcv, rcv_wakes, msg_q_flush,
  msg_q_unblock,
}

pub data Action (A : Type 0) : Type 0 where
  send : (allocated : Bool) → A → Action A
  receive : Action A
  wake : Action A
  spurious : Action A
  flush : Action A
  unblock : Action A

-- What a step shows: a message accepted, a message handed to a receiver, messages dropped.
pub data Event (A : Type 0) : Type 0 where
  accepted : A → Event A
  taken : A → Event A
  dropped : List A → Event A
  quiet : Event A

module _ {A : Type 0} where
  abbrev pub or_else : MsgQ A → Option (MsgQ A) → MsgQ A
  or_else q none = q
  or_else q (some q') = q'

  abbrev pub sent_event : A → QErr → Event A
  sent_event m success = accepted m
  sent_event m e = quiet

  abbrev pub taken_event : Option A → Event A
  taken_event none = quiet
  taken_event (some m) = taken m

  abbrev pub rcv_result : Rcv A → Event A × MsgQ A
  rcv_result (waits q) = (quiet, q)
  rcv_result (returns e m q) = (taken_event m, q)

  abbrev pub rcv_step : MsgQ A → QErr ⊎ Rcv A → Event A × MsgQ A
  rcv_step q (inl e) = (quiet, q)
  rcv_step q (inr r) = rcv_result r

  abbrev pub wake_step : MsgQ A → ℕ → Event A × MsgQ A
  wake_step q zero = (quiet, q)
  wake_step q (suc n) = rcv_result (rcv_wakes q n)

  abbrev pub spurious_step : MsgQ A → ℕ → MsgQ A
  spurious_step q zero = q
  spurious_step q (suc n) = record q { sleeping = n; woken = suc q.woken }

  unfoldable pub step : Action A → MsgQ A → Event A × MsgQ A
  unfolding msg_q_snd msg_q_rcv rcv_wakes msg_q_flush msg_q_unblock
  step (send allocated m) q =
      let r = msg_q_snd allocated (some m) (some q) in (sent_event m r.0, or_else q r.1)
  step receive q = rcv_step q (msg_q_rcv true (some q))
  step wake q = wake_step q q.woken
  step spurious q = (quiet, spurious_step q q.sleeping)
  step flush q = (dropped (reverse q.msg_list), or_else q (msg_q_flush (some q)).1)
  step unblock q = (quiet, or_else q (msg_q_unblock (some q)).1)

  unfoldable pub run : List (Action A) → MsgQ A → List (Event A) × MsgQ A
  run [] q = ([], q)
  run (a ∷ rest) q = let r = step a q in let later = run rest r.1 in (r.0 ∷ later.0, later.1)

  -- A new queue, as `msg_q_init` leaves it.
  abbrev pub new : MsgQ A
  new = record { msg_list = []; unblocked = false; sleeping = 0; woken = 0 }
