-- ===== src/MsgQ/Wakeup.antt =====
-- No wake-up is lost.
use android_device_samsung_a.Base.{
  ℕ, zero, suc, ◌≤◌, ◌<◌, ◌≡◌, refl, Bool, true, false, List, [], ◌∷◌, ◌⊎◌, inl, inr, arith, length,
}
use android_device_samsung_a.LinkedList.Abstract.{split_last}
use android_device_samsung_a.MsgQ.{MsgQ}
use android_device_samsung_a.MsgQ.Steps.{
  Action, send, receive, wake, spurious, flush, unblock, step, run, new,
}

-- While a thread sleeps, each message has a woken thread to take it, and nobody sleeps in a queue
-- that has been unblocked.
record IsAwake {A : Type 0} (q : MsgQ A) : Type 0 where
  pub covered : 0 < q.sleeping → length q.msg_list ≤ q.woken
  pub blocked : 0 < q.sleeping → q.unblocked ≡ false

positive-cases : (n : ℕ) → (n ≡ 0) ⊎ (0 < n)
positive-cases zero = inl refl
positive-cases (suc n) = inr (omega arith)

module _ {A : Type 0} where
  length-split_last : (a : A) (xs : List A) → length (split_last a xs).0 ≡ length xs
  length-split_last a [] = refl
  length-split_last a (b ∷ xs) = omega (arith, length-split_last b xs)

  abbrev queue : List A → Bool → ℕ → ℕ → MsgQ A
  queue l u s w = record { msg_list = l; unblocked = u; sleeping = s; woken = w }

  -- The step at a queue given by its fields.
  fields-IsAwake :
      (a : Action A) (l : List A) (u : Bool) (s w : ℕ)
      → IsAwake (queue l u s w)
      → IsAwake (step a (queue l u s w)).1
  unfolding step
  fields-IsAwake (send true m) l true s w v = v
  fields-IsAwake (send true m) l false zero w v = ground arith
  fields-IsAwake (send true m) l false (suc s) w v = ground (arith, v.covered (omega arith))
  fields-IsAwake (send false m) l true s w v = v
  fields-IsAwake (send false m) l false zero w v = ground arith
  fields-IsAwake (send false m) l false (suc s) w v = ground (arith, v.covered (omega arith))
  fields-IsAwake receive l true s w v = v
  fields-IsAwake receive [] false s w v = ground arith
  fields-IsAwake receive (x ∷ l) false s w v = ground (arith, length-split_last x l)
  fields-IsAwake wake l u s zero v = v
  fields-IsAwake wake [] true s (suc w) v = ground arith
  fields-IsAwake wake [] false s (suc w) v = ground arith
  fields-IsAwake wake (x ∷ l) u s (suc w) v = ground (arith, length-split_last x l)
  fields-IsAwake spurious l u zero w v = v
  fields-IsAwake spurious l u (suc s) w v = ground arith
  fields-IsAwake flush l u s w v = record { covered = λ h. omega arith; blocked = v.blocked }
  fields-IsAwake unblock l true s w v = v
  fields-IsAwake unblock l false s w v = ground arith

  step-IsAwake : (a : Action A) (q : MsgQ A) → IsAwake q → IsAwake (step a q).1
  step-IsAwake a q v = fields-IsAwake a q.msg_list q.unblocked q.sleeping q.woken v

  run_from-IsAwake : (steps : List (Action A)) (q : MsgQ A) → IsAwake q → IsAwake (run steps q).1
  unfolding run
  run_from-IsAwake [] q v = v
  run_from-IsAwake (a ∷ rest) q v = run_from-IsAwake rest _ (step-IsAwake a q v)

  -- Whatever the threads do from a new queue on: nobody sleeps, or each message in the queue has a
  -- woken receiver of its own, and the queue has not been unblocked.
  pub run-no_lost_wakeup :
      (steps : List (Action A))
      → let q = (run steps new).1 in
        (q.sleeping ≡ 0) ⊎ ((length q.msg_list ≤ q.woken) × (q.unblocked ≡ false))
  run-no_lost_wakeup steps =
      awake (run steps new).1
        (run_from-IsAwake steps new (record { covered = λ h. omega arith; blocked = λ h. refl }))
    where
      awake :
          (q : MsgQ A)
          → IsAwake q
          → (q.sleeping ≡ 0) ⊎ ((length q.msg_list ≤ q.woken) × (q.unblocked ≡ false))
      awake q v = elim (positive-cases q.sleeping) [
        | inl none_sleeps ↦ inl none_sleeps
        | inr some_sleeps ↦ inr (v.covered some_sleeps, v.blocked some_sleeps)
      ]
