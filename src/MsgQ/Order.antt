-- ===== src/MsgQ/Order.antt =====
-- First in, first out, and what happens after `msg_q_unblock`.
use mathlib.Core.List.{reverse, append-nil, append_assoc, reverse-append, reverse-cons}
use android_device_samsung_a.Base.{
  ℕ, zero, suc, ◌+◌, ◌≡◌, refl, sym, ap, ◌∙◌, Bool, true, false, none, some, List, [], ◌∷◌, ◌++◌,
  inr,
}
use android_device_samsung_a.LinkedList.Abstract.{split_last, split_last-append}
use android_device_samsung_a.MsgQ.{MsgQ, unavailable_resource, returns, msg_q_snd, msg_q_rcv}
use android_device_samsung_a.MsgQ.Steps.{
  Action, send, receive, wake, spurious, flush, unblock, Event, accepted, taken, dropped, quiet,
  step, run, new,
}

module _ {A : Type 0} where
  -- The messages accepted, and those that left the queue, in the order of the events.
  abbrev pub sent_of : Event A → List A
  sent_of (accepted m) = m ∷ []
  sent_of (taken m) = []
  sent_of (dropped ms) = []
  sent_of quiet = []

  abbrev pub left_of : Event A → List A
  left_of (accepted m) = []
  left_of (taken m) = m ∷ []
  left_of (dropped ms) = ms
  left_of quiet = []

  abbrev pub sent : List (Event A) → List A
  sent [] = []
  sent (e ∷ es) = sent_of e ++ sent es

  abbrev pub left : List (Event A) → List A
  left [] = []
  left (e ∷ es) = left_of e ++ left es

  abbrev queue : List A → Bool → ℕ → ℕ → MsgQ A
  queue l u s w = record { msg_list = l; unblocked = u; sleeping = s; woken = w }

  pub reverse-split_last :
      (a : A) (xs : List A) → (split_last a xs).1 ∷ reverse (split_last a xs).0 ≡ reverse (a ∷ xs)
  reverse-split_last a xs =
      sym (reverse-append (split_last a xs).0 _) ∙ ap reverse (split_last-append a xs)

  fields_order :
      (a : Action A) (l : List A) (u : Bool) (s w : ℕ)
      → let r = step a (queue l u s w) in
        left_of r.0 ++ reverse r.1.msg_list ≡ reverse l ++ sent_of r.0
  unfolding step
  fields_order (send true m) l true s w = sym (append-nil (reverse l))
  fields_order (send true m) l false zero w = reverse-cons m l
  fields_order (send true m) l false (suc s) w = reverse-cons m l
  fields_order (send false m) l true s w = sym (append-nil (reverse l))
  fields_order (send false m) l false zero w = sym (append-nil (reverse l))
  fields_order (send false m) l false (suc s) w = sym (append-nil (reverse l))
  fields_order receive l true s w = sym (append-nil (reverse l))
  fields_order receive [] false s w = refl
  fields_order receive (x ∷ l) false s w = reverse-split_last x l ∙ sym (append-nil _)
  fields_order wake l u s zero = sym (append-nil (reverse l))
  fields_order wake [] true s (suc w) = refl
  fields_order wake [] false s (suc w) = refl
  fields_order wake (x ∷ l) u s (suc w) = reverse-split_last x l ∙ sym (append-nil _)
  fields_order spurious l u zero w = sym (append-nil (reverse l))
  fields_order spurious l u (suc s) w = sym (append-nil (reverse l))
  fields_order flush l u s w = refl
  fields_order unblock l true s w = sym (append-nil (reverse l))
  fields_order unblock l false s w = sym (append-nil (reverse l))

  run-order_from :
      (steps : List (Action A)) (q : MsgQ A)
      → let r = run steps q in left r.0 ++ reverse r.1.msg_list ≡ reverse q.msg_list ++ sent r.0
  unfolding run
  run-order_from [] q = sym (append-nil (reverse q.msg_list))
  run-order_from (a ∷ rest) q =
      let r = step a q in
      let one = fields_order a q.msg_list q.unblocked q.sleeping q.woken in
      let later = run rest r.1 in
      append_assoc (left_of r.0) (left later.0) (reverse later.1.msg_list)
      ∙ ap (◌++◌ (left_of r.0)) (run-order_from rest r.1)
      ∙ sym (append_assoc (left_of r.0) (reverse r.1.msg_list) (sent later.0))
      ∙ ap (λ l. l ++ sent later.0) one
      ∙ append_assoc (reverse q.msg_list) (sent_of r.0) (sent later.0)

  -- Under every schedule from a new queue on, the messages that were received or flushed, followed
  -- by those still in the queue from the oldest on, are exactly the messages accepted, in order.
  pub run-order :
      (steps : List (Action A))
      → let r = run steps new in left r.0 ++ reverse r.1.msg_list ≡ sent r.0
  run-order steps = run-order_from steps new

  -- As many wake-ups as threads have been woken.
  abbrev pub wakes : ℕ → List (Action A)
  wakes zero = []
  wakes (suc n) = wake ∷ wakes n

  wakes_leave :
      (n : ℕ) (l : List A)
      → let q = (run (wakes n) (queue l true 0 n)).1 in (q.sleeping ≡ 0) × (q.woken ≡ 0)
  unfolding run step
  wakes_leave zero l = (refl, refl)
  wakes_leave (suc n) [] = wakes_leave n []
  wakes_leave (suc n) (x ∷ l) = wakes_leave n (split_last x l).0

  -- `msg_q_unblock` on a queue that was not unblocked lets every receiver go: when each thread
  -- that was in the wait has run once, none is left there, asleep or awake, whatever the queue
  -- holds.
  unblock-leave :
      (q : MsgQ A)
      → q.unblocked ≡ false
      → let r = (run (unblock ∷ wakes (q.woken + q.sleeping)) q).1 in
        (r.sleeping ≡ 0) × (r.woken ≡ 0)
  unfolding run step
  unblock-leave q open_still = rw open_still (wakes_leave (q.woken + q.sleeping) q.msg_list)

  -- On an unblocked queue a send is refused and a receive returns at once with no message, and
  -- neither changes the queue.
  pub unblocked-refused :
      (q : MsgQ A) (allocated : Bool) (m : A)
      → q.unblocked ≡ true
      → (msg_q_snd allocated (some m) (some q) ≡ (unavailable_resource, some q))
        × (msg_q_rcv true (some q) ≡ inr (returns unavailable_resource none q))
  unfolding msg_q_snd msg_q_rcv
  unblocked-refused q allocated m h = (rw h, rw h)
