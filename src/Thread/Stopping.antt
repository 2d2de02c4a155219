-- ===== src/Thread/Stopping.antt =====
-- What `LocThread::stop` leads to.
use android_device_samsung_a.Base.{
  ◌+◌, ◌≡◌, ◌≢◌, refl, sym, subst, ap, ◌∙◌, Bool, true, false, List, [], ◌∷◌, inl, inr,
  if◌then◌else◌, Bool-cases,
}
use android_device_samsung_a.Thread.{
  Phase, absent, started, entered, looping, after_loop, leaving, releasing, ended, Parent, holding,
  joining, gone, Delegate, destroy, at_phase, thread_main, stop, joined, has_ended, Action, stops,
  joins, thread, parent_calls, parent_joins, step, run, new_delegate,
}
use android_device_samsung_a.Thread.Lifetime.{run-IsSafe, step-IsSafe}
use android_device_samsung_a.Thread.Counting.{IsSafe, by_thread, by_parent, due}

-- Some steps of the spawned thread.
unfoldable pub rounds : List Bool → Delegate → Delegate
rounds [] m = m
rounds (result ∷ results) m = rounds results (step (thread result) m)

-- The next phase when `mRunnable` is NULL.
abbrev next : Phase → Phase
next absent = absent
next started = releasing
next entered = looping
next looping = after_loop
next after_loop = leaving
next leaving = releasing
next releasing = ended
next ended = ended

-- A stopped thread at a phase, with its parent.
abbrev IsAt : Phase → Parent → Delegate → Type 0
IsAt ph pa m = (m.phase ≡ ph) × (m.has_runnable ≡ false) × (m.parent ≡ pa)

at_phase-IsAt :
    (ph : Phase) (pa : Parent) (result : Bool) (m : Delegate)
    → IsAt ph pa m
    → IsAt (next ph) pa (at_phase ph result m)
unfolding destroy
at_phase-IsAt absent pa result m h = h
at_phase-IsAt started pa result m (e, f, g) = (ap (λ b. if b then entered else releasing) f, f, g)
at_phase-IsAt entered pa result m (e, f, g) = (refl, f, g)
at_phase-IsAt looping pa result m (e, f, g) =
    (ap (λ b. if b then (if result then looping else after_loop) else after_loop) f, f, g)
at_phase-IsAt after_loop pa result m (e, f, g) = (refl, f, g)
at_phase-IsAt leaving pa result m (e, f, g) = (refl, refl, g)
at_phase-IsAt releasing pa result m (e, f, g) = (refl, f, g)
at_phase-IsAt ended pa result m h = h

thread-IsAt :
    (ph : Phase) (pa : Parent) (result : Bool) (m : Delegate)
    → IsAt ph pa m
    → IsAt (next ph) pa (step (thread result) m)
unfolding step thread_main
thread-IsAt ph pa result m h =
    subst (λ q. IsAt (next ph) pa (at_phase q result m)) (sym h.0) (at_phase-IsAt ph pa result m h)

five : (ph : Phase) → ph ≢ absent → next (next (next (next (next ph)))) ≡ ended
five absent h = elim (h refl) [ ]
five started h = refl
five entered h = refl
five looping h = refl
five after_loop h = refl
five leaving h = refl
five releasing h = refl
five ended h = refl

rounds-IsAt :
    (a b c d e : Bool) (ph : Phase) (pa : Parent) (m : Delegate)
    → ph ≢ absent
    → IsAt ph pa m
    → IsAt ended pa (rounds (a ∷ b ∷ c ∷ d ∷ e ∷ []) m)
unfolding rounds
rounds-IsAt a b c d e ph pa m h k =
    subst (λ q. IsAt q pa (rounds (a ∷ b ∷ c ∷ d ∷ e ∷ []) m)) (five ph h)
      (thread-IsAt _ pa e _ (
        thread-IsAt _ pa d _
          (thread-IsAt _ pa c _ (thread-IsAt _ pa b _ (thread-IsAt ph pa a m k)))))

abbrev after_stop : Bool → Parent
after_stop b = if b then joining else gone

stopped : (m : Delegate) → IsAt m.phase (after_stop m.joinable) (stop m)
unfolding stop destroy
stopped m = elim (Bool-cases m.joinable) [
  | inl e ↦ rw e (refl, refl, refl)
  | inr e ↦ rw e (refl, refl, refl)
]

stop-IsAt :
    (m : Delegate) → m.parent ≡ holding → IsAt m.phase (after_stop m.joinable) (step stops m)
unfolding step stop destroy
stop-IsAt m e =
    subst (λ q. IsAt m.phase (after_stop m.joinable) (parent_calls stop q m)) (sym e) (stopped m)

at_join :
    (m : Delegate)
    → m.phase ≡ ended
    → ((parent_joins joining m).phase ≡ ended) × ((parent_joins joining m).parent ≡ gone)
unfolding joined destroy
at_join m e = let t = ap has_ended e in rw t (e, refl)

rounds-IsSafe : (results : List Bool) (m : Delegate) → IsSafe m → IsSafe (rounds results m)
unfolding rounds
rounds-IsSafe [] m h = h
rounds-IsSafe (r ∷ results) m h = rounds-IsSafe results _ (step-IsSafe (thread r) m h)

ended_once : (m : Delegate) → m.phase ≡ ended → m.parent ≡ gone → IsSafe m → m.deletes ≡ 1
ended_once m e f (r, d, h, q) =
    d ∙ ap (λ p. due p (by_thread m.phase + by_parent p)) f ∙ ap (λ p. due gone (by_thread p + 0)) e

-- The join of a thread that has ended lets the parent go; without a join it has gone.
joins-gone :
    (j : Bool) (m : Delegate)
    → IsAt ended (after_stop j) m
    → ((step joins m).phase ≡ ended) × ((step joins m).parent ≡ gone)
unfolding step joined destroy
joins-gone true m (e, f, g) =
    subst (λ q. ((parent_joins q m).phase ≡ ended) × ((parent_joins q m).parent ≡ gone)) (sym g)
      (at_join m e)
joins-gone false m (e, f, g) =
    subst (λ q. ((parent_joins q m).phase ≡ ended) × ((parent_joins q m).parent ≡ gone)) (sym g)
      (e, g)

-- After any run, once the parent holds the delegate and the thread exists: when the parent calls
-- `stop`, five more steps of the thread end it, whatever `run` returns, the join goes through, and
-- the delegate is deleted.
pub stop-ends :
    (actions : List Action) (a b c d e : Bool)
    → (run actions new_delegate).parent ≡ holding
    → (run actions new_delegate).phase ≢ absent
    → let m =
        step joins (rounds (a ∷ b ∷ c ∷ d ∷ e ∷ []) (step stops (run actions new_delegate))) in
      (m.phase ≡ ended) × (m.parent ≡ gone) × (m.deletes ≡ 1)
stop-ends actions a b c d e held exists =
    let m0 = run actions new_delegate in
    let s0 = step stops m0 in
    let late =
      rounds-IsAt a b c d e m0.phase (after_stop m0.joinable) s0 exists (stop-IsAt m0 held) in
    let m1 = rounds (a ∷ b ∷ c ∷ d ∷ e ∷ []) s0 in
    let (ph, pa) = joins-gone m0.joinable m1 late in
    let safe1 =
      rounds-IsSafe (a ∷ b ∷ c ∷ d ∷ e ∷ []) s0 (step-IsSafe stops m0 (run-IsSafe actions)) in
    (ph, pa, ended_once (step joins m1) ph pa (step-IsSafe joins m1 safe1))

-- The phases from which a stopped thread does not delete its runnable.
abbrev IsLate : Phase → Type 0
IsLate started = Unit {0}
IsLate releasing = Unit {0}
IsLate ended = Unit {0}
IsLate absent = ⊥
IsLate entered = ⊥
IsLate looping = ⊥
IsLate after_loop = ⊥
IsLate leaving = ⊥

late_deletes :
    (ph : Phase) (result : Bool) (m : Delegate)
    → IsLate ph
    → (at_phase ph result m).runnable_deletes ≡ m.runnable_deletes
unfolding destroy
late_deletes releasing result m h = refl
late_deletes ended result m h = refl
late_deletes started result m h = refl
late_deletes absent result m h = elim h [ ]
late_deletes entered result m h = elim h [ ]
late_deletes looping result m h = elim h [ ]
late_deletes after_loop result m h = elim h [ ]
late_deletes leaving result m h = elim h [ ]

IsLate-next : (ph : Phase) → IsLate ph → IsLate (next ph)
IsLate-next releasing h = tt
IsLate-next ended h = tt
IsLate-next started h = tt
IsLate-next absent h = elim h [ ]
IsLate-next entered h = elim h [ ]
IsLate-next looping h = elim h [ ]
IsLate-next after_loop h = elim h [ ]
IsLate-next leaving h = elim h [ ]

rounds-deletes :
    (results : List Bool) (ph : Phase) (pa : Parent) (m : Delegate)
    → IsLate ph
    → IsAt ph pa m
    → (rounds results m).runnable_deletes ≡ m.runnable_deletes
unfolding rounds step thread_main
rounds-deletes [] ph pa m l h = refl
rounds-deletes (r ∷ results) ph pa m l h =
    rounds-deletes results (next ph) pa (step (thread r) m) (IsLate-next ph l)
      (thread-IsAt ph pa r m h)
    ∙ subst (λ q. (at_phase q r m).runnable_deletes ≡ m.runnable_deletes) (sym h.0)
        (late_deletes ph r m l)

stop-deletes :
    (m : Delegate) → m.parent ≡ holding → (step stops m).runnable_deletes ≡ m.runnable_deletes
unfolding step stop destroy
stop-deletes m e =
    subst (λ q. (parent_calls stop q m).runnable_deletes ≡ m.runnable_deletes) (sym e)
      (elim (Bool-cases m.joinable) [ inl j ↦ rw j refl | inr j ↦ rw j refl ])

-- When the parent calls `stop` before the thread has taken its first step, the runnable is never
-- deleted, however many steps the thread takes.
stop-leaks :
    (results : List Bool) (m : Delegate)
    → m.phase ≡ started
    → m.parent ≡ holding
    → (rounds results (step stops m)).runnable_deletes ≡ m.runnable_deletes
stop-leaks results m e held =
    let k = stop-IsAt m held in
    rounds-deletes results started (after_stop m.joinable) (step stops m) tt
      (subst (λ q. IsAt q (after_stop m.joinable) (step stops m)) e k)
    ∙ stop-deletes m held
