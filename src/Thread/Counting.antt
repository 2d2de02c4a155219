-- ===== src/Thread/Counting.antt =====
-- The references to the delegate, and the thread's part in counting them.
use android_device_samsung_a.Base.{
  ℕ, suc, ◌+◌, ◌≡◌, refl, subst, Bool, true, false, ◌==◌, ltb, arith, if◌then◌else◌,
}
use android_device_samsung_a.Thread.{
  Phase, absent, started, entered, looping, after_loop, leaving, releasing, ended, Parent,
  before_start, creating, holding, joining, gone, Delegate, destroy, at_phase,
}

-- Who may still use the delegate.
abbrev pub by_thread : Phase → ℕ
by_thread absent = 0
by_thread started = 1
by_thread entered = 1
by_thread looping = 1
by_thread after_loop = 1
by_thread leaving = 1
by_thread releasing = 1
by_thread ended = 0

abbrev pub by_parent : Parent → ℕ
by_parent before_start = 0
by_parent creating = 1
by_parent holding = 1
by_parent joining = 1
by_parent gone = 0

-- How often the delegate is to be deleted, by the references that are left.
abbrev pub due : Parent → ℕ → ℕ
due before_start n = 0
due creating n = if n == 0 then 1 else 0
due holding n = if n == 0 then 1 else 0
due joining n = if n == 0 then 1 else 0
due gone n = if n == 0 then 1 else 0

-- Nothing runs before `start`.
abbrev pub IsQuiet : Parent → Phase → Type 0
IsQuiet before_start ph = by_thread ph ≡ 0
IsQuiet creating ph = Unit {0}
IsQuiet holding ph = Unit {0}
IsQuiet joining ph = Unit {0}
IsQuiet gone ph = Unit {0}

abbrev users : Delegate → ℕ
users m = by_thread m.phase + by_parent m.parent

abbrev pub Counts : Phase → Parent → (refs deletes faults : ℕ) → Type 0
Counts ph pa refs deletes faults =
    (refs ≡ by_thread ph + by_parent pa)
    × (deletes ≡ due pa (by_thread ph + by_parent pa))
    × (faults ≡ 0)
    × IsQuiet pa ph

-- One reference for each thread that may use the delegate, one deletion once there is none, and no
-- access after it.
abbrev pub IsSafe : Delegate → Type 0
IsSafe m = Counts m.phase m.parent m.ref_count m.deletes m.faults

abbrev pub touched : ℕ → ℕ → ℕ
touched deletes faults = if ltb 0 deletes then suc faults else faults

-- An access by the thread.
by_thread_touch :
    (ph next : Phase) (pa : Parent) (refs deletes faults : ℕ)
    → by_thread ph ≡ 1
    → by_thread next ≡ 1
    → Counts ph pa refs deletes faults
    → Counts next pa refs deletes (touched deletes faults)
by_thread_touch ph next before_start refs deletes faults e f (r, d, h, q) = ground arith
by_thread_touch ph next creating refs deletes faults e f (r, d, h, q) = ground arith
by_thread_touch ph next holding refs deletes faults e f (r, d, h, q) = ground arith
by_thread_touch ph next joining refs deletes faults e f (r, d, h, q) = ground arith
by_thread_touch ph next gone refs deletes faults e f (r, d, h, q) = ground arith

by_thread_chosen :
    (b : Bool) (ph next other : Phase) (pa : Parent) (refs deletes faults : ℕ)
    → by_thread ph ≡ 1
    → by_thread next ≡ 1
    → by_thread other ≡ 1
    → Counts ph pa refs deletes faults
    → Counts (if b then next else other) pa refs deletes (touched deletes faults)
by_thread_chosen true ph next other pa refs deletes faults e f g h =
    by_thread_touch ph next pa refs deletes faults e f h
by_thread_chosen false ph next other pa refs deletes faults e f g h =
    by_thread_touch ph other pa refs deletes faults e g h

thread_destroys :
    (pa : Parent) (m : Delegate)
    → Counts releasing pa m.ref_count m.deletes m.faults
    → Counts ended pa (destroy m).ref_count (destroy m).deletes (destroy m).faults
unfolding destroy
thread_destroys before_start m (r, d, h, q) = ground arith
thread_destroys creating m (r, d, h, q) = ground arith
thread_destroys holding m (r, d, h, q) = ground arith
thread_destroys joining m (r, d, h, q) = ground arith
thread_destroys gone m (r, d, h, q) = ground arith

at :
    {ph : Phase} (m : Delegate)
    → m.phase ≡ ph
    → IsSafe m
    → Counts ph m.parent m.ref_count m.deletes m.faults
at {ph} m e h = subst (λ q. Counts q m.parent m.ref_count m.deletes m.faults) e h

pub from :
    {pa : Parent} (m : Delegate)
    → m.parent ≡ pa
    → IsSafe m
    → Counts m.phase pa m.ref_count m.deletes m.faults
from {pa} m e h = subst (λ q. Counts m.phase q m.ref_count m.deletes m.faults) e h

by_loop :
    (running result : Bool) (m : Delegate)
    → Counts looping m.parent m.ref_count m.deletes m.faults
    → Counts
        (if running then (if result then looping else after_loop) else after_loop)
        m.parent
        m.ref_count
        m.deletes
        (touched m.deletes m.faults)
by_loop true true m h =
    by_thread_touch looping looping m.parent m.ref_count m.deletes m.faults refl refl h
by_loop true false m h =
    by_thread_touch looping after_loop m.parent m.ref_count m.deletes m.faults refl refl h
by_loop false result m h =
    by_thread_touch looping after_loop m.parent m.ref_count m.deletes m.faults refl refl h

pub at_phase-IsSafe :
    (ph : Phase) (result : Bool) (m : Delegate)
    → m.phase ≡ ph
    → IsSafe m
    → IsSafe (at_phase ph result m)
unfolding destroy
at_phase-IsSafe absent result m e h = h
at_phase-IsSafe started result m e h =
    by_thread_chosen m.has_runnable started entered releasing m.parent m.ref_count m.deletes
      m.faults refl refl refl (at m e h)
at_phase-IsSafe entered result m e h =
    by_thread_touch entered looping m.parent m.ref_count m.deletes m.faults refl refl (at m e h)
at_phase-IsSafe looping result m e h = by_loop m.has_runnable result m (at m e h)
at_phase-IsSafe after_loop result m e h =
    by_thread_touch after_loop leaving m.parent m.ref_count m.deletes m.faults refl refl (at m e h)
at_phase-IsSafe leaving result m e h =
    by_thread_touch leaving releasing m.parent m.ref_count m.deletes m.faults refl refl (at m e h)
at_phase-IsSafe releasing result m e h = thread_destroys m.parent m (at m e h)
at_phase-IsSafe ended result m e h = h
