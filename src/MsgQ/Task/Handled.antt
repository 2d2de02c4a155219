-- ===== src/MsgQ/Task/Handled.antt =====
-- What becomes of the messages of a MsgTask.
use mathlib.Core.List.{reverse, append-nil, append_assoc, reverse-cons}
use android_device_samsung_a.Base.{
  ℕ, zero, suc, ◌≡◌, refl, sym, subst, ap, ◌∙◌, Bool, true, false, List, [], ◌∷◌, ◌++◌,
  if◌then◌else◌,
}
use android_device_samsung_a.LinkedList.Abstract.{split_last}
use android_device_samsung_a.MsgQ.{MsgQ}
use android_device_samsung_a.MsgQ.Order.{reverse-split_last}
use android_device_samsung_a.MsgQ.Task.{
  Task, Action, sends, iterates, wakes, destroys, clears, step, run, new_task, destroy, wake_task,
}

module _ {A : Type 0} where
  abbrev pub pending : Task A → List A
  pending t = if t.is_deleted then t.dropped else t.queue.msg_list

  abbrev pub flushed : Task A → List A
  flushed t = if t.is_deleted then t.dropped else []

  -- The messages accepted so far, the oldest first, are those processed and those that wait or were
  -- flushed; just the processed and the flushed ones were deleted, each once.
  abbrev pub IsKept : List A → Task A → Type 0
  IsKept acc t =
      (acc ≡ t.processed ++ reverse (pending t))
      × (t.deletions ≡ t.processed ++ flushed t)
      × (t.faults ≡ 0)

  abbrev at :
      List A
      → Bool
      → ℕ
      → ℕ
      → (has_thread is_waiting is_deleted : Bool) → (p dr del : List A) → (f c n : ℕ) → Task A
  at l u s w h wt d p dr del f c n = record {
    queue = record { msg_list = l; unblocked = u; sleeping = s; woken = w };
    has_thread = h;
    is_waiting = wt;
    is_deleted = d;
    processed = p;
    dropped = dr;
    deletions = del;
    faults = f;
    clearing = c;
    late = n;
  }

  sent_on : (acc p l : List A) (m : A) → acc ≡ p ++ reverse l → acc ++ m ∷ [] ≡ p ++ reverse (m ∷ l)
  sent_on acc p l m h =
      ap (λ x. x ++ m ∷ []) h
      ∙ append_assoc p (reverse l) (m ∷ [])
      ∙ ap (λ x. p ++ x) (sym (reverse-cons m l))

  taken_on :
      (acc p l : List A) (x : A)
      → acc ≡ p ++ reverse (x ∷ l)
      → acc ++ [] ≡ (p ++ (split_last x l).1 ∷ []) ++ reverse (split_last x l).0
  taken_on acc p l x h =
      append-nil acc
      ∙ h
      ∙ ap (λ y. p ++ y) (sym (reverse-split_last x l))
      ∙ sym (append_assoc p ((split_last x l).1 ∷ []) (reverse (split_last x l).0))

  same_on : (acc p : List A) → acc ≡ p → acc ++ [] ≡ p
  same_on acc p h = append-nil acc ∙ h

  deleted_on : (del p : List A) (x : A) → del ≡ p ++ [] → del ++ x ∷ [] ≡ (p ++ x ∷ []) ++ []
  deleted_on del p x h = ap (λ y. y ++ x ∷ []) (h ∙ append-nil p) ∙ sym (append-nil (p ++ x ∷ []))

  flushed_on : (del p l : List A) → del ≡ p ++ [] → del ++ l ≡ p ++ l
  flushed_on del p l h = ap (λ y. y ++ l) (h ∙ append-nil p)

  fields-IsKept :
      (a : Action A) (l : List A) (u : Bool) (s w : ℕ) (h wt d : Bool) (p dr del : List A)
      (f c n : ℕ) (acc : List A)
      → IsKept acc (at l u s w h wt d p dr del f c n)
      → let r = step a (at l u s w h wt d p dr del f c n) in IsKept (acc ++ r.0) r.1
  unfolding step
  fields-IsKept (sends al m) l u s w h wt true p dr del f c n acc (k, e, z) =
      (same_on acc _ k, e, z)
  fields-IsKept (sends true m) l true s w h wt false p dr del f c n acc (k, e, z) =
      (same_on acc _ k, e, z)
  fields-IsKept (sends true m) l false zero w h wt false p dr del f c n acc (k, e, z) =
      (sent_on acc p l m k, e, z)
  fields-IsKept (sends true m) l false (suc s) w h wt false p dr del f c n acc (k, e, z) =
      (sent_on acc p l m k, e, z)
  fields-IsKept (sends false m) l true s w h wt false p dr del f c n acc (k, e, z) =
      (same_on acc _ k, e, z)
  fields-IsKept (sends false m) l false zero w h wt false p dr del f c n acc (k, e, z) =
      (same_on acc _ k, e, z)
  fields-IsKept (sends false m) l false (suc s) w h wt false p dr del f c n acc (k, e, z) =
      (same_on acc _ k, e, z)
  fields-IsKept iterates l u s w h wt true p dr del f c n acc (k, e, z) = (same_on acc _ k, e, z)
  fields-IsKept iterates l u s w h true false p dr del f c n acc (k, e, z) = (same_on acc _ k, e, z)
  fields-IsKept iterates l true s w h false false p dr del f c n acc (k, e, z) =
      (same_on acc _ k, flushed_on del p l e, z)
  fields-IsKept iterates [] false s w h false false p dr del f c n acc (k, e, z) =
      (same_on acc _ k, e, z)
  fields-IsKept iterates (x ∷ l) false s w h false false p dr del f c n acc (k, e, z) =
      (taken_on acc p l x k, deleted_on del p _ e, z)
  fields-IsKept wakes l u s w h wt true p dr del f c n acc (k, e, z) = (same_on acc _ k, e, z)
  fields-IsKept wakes l u s w h false false p dr del f c n acc (k, e, z) = (same_on acc _ k, e, z)
  fields-IsKept wakes l u s zero h true false p dr del f c n acc (k, e, z) = (same_on acc _ k, e, z)
  fields-IsKept wakes [] true s (suc w) h true false p dr del f c n acc (k, e, z) =
      (same_on acc _ k, flushed_on del p [] e, z)
  fields-IsKept wakes [] false s (suc w) h true false p dr del f c n acc (k, e, z) =
      (same_on acc _ k, e, z)
  fields-IsKept wakes (x ∷ l) u s (suc w) h true false p dr del f c n acc (k, e, z) =
      (taken_on acc p l x k, deleted_on del p _ e, z)
  fields-IsKept destroys l u s w h wt true p dr del f c n acc (k, e, z) = (same_on acc _ k, e, z)
  fields-IsKept destroys l true s w true wt false p dr del f c n acc (k, e, z) =
      (same_on acc _ k, e, z)
  fields-IsKept destroys l false s w true wt false p dr del f c n acc (k, e, z) =
      (same_on acc _ k, e, z)
  fields-IsKept destroys l true s w false wt false p dr del f c n acc (k, e, z) =
      (same_on acc _ k, flushed_on del p l e, z)
  fields-IsKept destroys l false s w false wt false p dr del f c n acc (k, e, z) =
      (same_on acc _ k, flushed_on del p l e, z)
  fields-IsKept clears l u s w h wt d p dr del f zero n acc (k, e, z) = (same_on acc _ k, e, z)
  fields-IsKept clears l u s w h wt d p dr del f (suc c) n acc (k, e, z) = (same_on acc _ k, e, z)

  run-IsKept_from :
      (actions : List (Action A)) (t : Task A) (acc : List A)
      → IsKept acc t
      → let r = run actions t in IsKept (acc ++ r.0) r.1
  unfolding run
  run-IsKept_from [] t acc (k, e, z) = (same_on acc _ k, e, z)
  run-IsKept_from (a ∷ rest) t acc h =
      let r = step a t in
      let q = t.queue in
      let one =
        fields-IsKept a q.msg_list q.unblocked q.sleeping q.woken t.has_thread t.is_waiting
          t.is_deleted t.processed t.dropped t.deletions t.faults t.clearing t.late acc h in
      subst (λ l. IsKept l (run rest r.1).1) (append_assoc acc r.0 (run rest r.1).0)
        (run-IsKept_from rest r.1 (acc ++ r.0) one)

  -- Whatever the clients and the thread of a MsgTask do, up to its deletion: the messages accepted
  -- are, in their order, those processed and then those that wait or that the destructor flushed;
  -- the processed and the flushed ones are deleted, each once, and no others.
  pub run-handled :
      (actions : List (Action A)) (has_thread : Bool)
      → let r = run actions (new_task has_thread) in IsKept r.0 r.1
  run-handled actions b = run-IsKept_from actions (new_task b) [] (refl, refl, refl)

  -- The queue of a task whose thread waits for a message.
  abbrev asleep : MsgQ A
  asleep = record { msg_list = []; unblocked = false; sleeping = 1; woken = 0 }

  -- `destroy` unblocks the queue of a task whose thread waits; when the thread, which then deletes
  -- the task, runs before `destroy` goes on, the write to `mThread` is to the deleted task.
  destroy-races :
      (t : Task A)
      → t.queue ≡ asleep
      → t.has_thread ≡ true
      → t.is_deleted ≡ false
      → t.is_waiting ≡ true
      → (run (destroys ∷ wakes ∷ clears ∷ []) t).1.late ≡ suc t.late
  unfolding run step destroy wake_task
  destroy-races t q h d w = simp (q, h, d, w) refl
