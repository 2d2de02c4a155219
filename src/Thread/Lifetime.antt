-- ===== src/Thread/Lifetime.antt =====
-- The delegate lives as long as one of the two threads may use it.
use android_device_samsung_a.Base.{
  ℕ, ◌+◌, ◌≡◌, refl, sym, subst, ap, ◌∙◌, Bool, true, false, List, [], ◌∷◌, arith, if◌then◌else◌,
}
use android_device_samsung_a.Thread.{
  Phase, Parent, before_start, creating, holding, joining, gone, Delegate, touch, destroy,
  thread_main, construct, create, stop, bye, joined, has_ended, Action, starts, checks, stops,
  leaves, joins, thread, parent_starts, parent_checks, parent_calls, parent_joins, step, run,
  new_delegate,
}
use android_device_samsung_a.Thread.Counting.{
  by_thread, by_parent, due, IsQuiet, Counts, IsSafe, touched, from, at_phase-IsSafe,
}

-- What the parent does while it may use the delegate.
due_none : (pa : Parent) (n : ℕ) → due pa (n + 1) ≡ 0
due_none before_start n = refl
due_none creating n = ground arith
due_none holding n = ground arith
due_none joining n = ground arith
due_none gone n = ground arith

quiet : (pa : Parent) (ph : Phase) → by_parent pa ≡ 1 → IsQuiet pa ph
quiet before_start ph e = ground arith
quiet creating ph e = tt
quiet holding ph e = tt
quiet joining ph e = tt
quiet gone ph e = tt

used : (pa : Parent) (n : ℕ) → by_parent pa ≡ 1 → due pa (n + by_parent pa) ≡ 0
used pa n e = ap (λ k. due pa (n + k)) e ∙ due_none pa n

construct-IsSafe :
    (created j : Bool) (m : Delegate)
    → m.parent ≡ before_start
    → IsSafe m
    → IsSafe (construct created j m)
unfolding construct
construct-IsSafe true j m e h = let (r, d, f, q) = from m e h in (refl, d, f, tt)
construct-IsSafe false j m e h =
    let (r, d, f, q) = from m e h in
    (ap (λ n. n + 1) (sym q), d ∙ sym (due_none creating (by_thread m.phase)), f, tt)

-- The parent lets go of the delegate.
parent_destroys :
    (pa : Parent) (m : Delegate)
    → by_parent pa ≡ 1
    → Counts m.phase pa m.ref_count m.deletes m.faults
    → IsSafe (record (destroy m) { parent = gone })
unfolding destroy
parent_destroys pa m e (r, d, f, q) =
    let u = d ∙ used pa (by_thread m.phase) e in (ground arith, ground arith, ground arith, tt)

touch-counts :
    (pa next : Parent) (ph : Phase) (refs deletes faults : ℕ)
    → by_parent pa ≡ 1
    → by_parent next ≡ 1
    → Counts ph pa refs deletes faults
    → Counts ph next refs deletes (touched deletes faults)
touch-counts pa next ph refs deletes faults e f (r, d, h, q) =
    let u = d ∙ used pa (by_thread ph) e in
    (omega arith, u ∙ sym (used next (by_thread ph) f), ground arith, quiet next ph f)

chosen-IsSafe : (b : Bool) (x y : Delegate) → IsSafe x → IsSafe y → IsSafe (if b then x else y)
chosen-IsSafe true x y h k = h
chosen-IsSafe false x y h k = k

create-IsSafe : (m : Delegate) → m.parent ≡ creating → IsSafe m → IsSafe (create m)
unfolding create
create-IsSafe m e h =
    let c =
      touch-counts creating holding m.phase m.ref_count m.deletes m.faults refl refl (from m e h) in
    chosen-IsSafe m.has_runnable _ _ c (parent_destroys holding (touch m) refl c)

stop-IsSafe : (m : Delegate) → m.parent ≡ holding → IsSafe m → IsSafe (stop m)
unfolding stop
stop-IsSafe m e h =
    let c =
      touch-counts holding joining m.phase m.ref_count m.deletes m.faults refl refl (from m e h) in
    chosen-IsSafe m.joinable _ _ c
      (parent_destroys joining (record (touch m) { has_runnable = false }) refl c)

bye-IsSafe : (m : Delegate) → m.parent ≡ holding → IsSafe m → IsSafe (bye m)
unfolding bye
bye-IsSafe m e h =
    let c =
      touch-counts holding holding m.phase m.ref_count m.deletes m.faults refl refl (from m e h) in
    let t =
      subst (λ q. Counts m.phase q m.ref_count m.deletes (touched m.deletes m.faults)) (sym e) c in
    chosen-IsSafe m.joinable _ _ (stop-IsSafe (touch m) e t)
      (parent_destroys holding (touch m) refl c)

joined-IsSafe : (m : Delegate) → m.parent ≡ joining → IsSafe m → IsSafe (joined m)
unfolding joined
joined-IsSafe m e h = parent_destroys joining m refl (from m e h)

parent_starts-IsSafe :
    (pa : Parent) (created j : Bool) (m : Delegate)
    → m.parent ≡ pa
    → IsSafe m
    → IsSafe (parent_starts pa created j m)
parent_starts-IsSafe before_start created j m e h = construct-IsSafe created j m e h
parent_starts-IsSafe creating created j m e h = h
parent_starts-IsSafe holding created j m e h = h
parent_starts-IsSafe joining created j m e h = h
parent_starts-IsSafe gone created j m e h = h

parent_checks-IsSafe :
    (pa : Parent) (m : Delegate) → m.parent ≡ pa → IsSafe m → IsSafe (parent_checks pa m)
parent_checks-IsSafe creating m e h = create-IsSafe m e h
parent_checks-IsSafe before_start m e h = h
parent_checks-IsSafe holding m e h = h
parent_checks-IsSafe joining m e h = h
parent_checks-IsSafe gone m e h = h

parent_calls-IsSafe :
    (call : Delegate → Delegate)
    (f : (m : Delegate) → m.parent ≡ holding → IsSafe m → IsSafe (call m)) (pa : Parent)
    (m : Delegate)
    → m.parent ≡ pa
    → IsSafe m
    → IsSafe (parent_calls call pa m)
parent_calls-IsSafe call f holding m e h = f m e h
parent_calls-IsSafe call f before_start m e h = h
parent_calls-IsSafe call f creating m e h = h
parent_calls-IsSafe call f joining m e h = h
parent_calls-IsSafe call f gone m e h = h

parent_joins-IsSafe :
    (pa : Parent) (m : Delegate) → m.parent ≡ pa → IsSafe m → IsSafe (parent_joins pa m)
parent_joins-IsSafe joining m e h = chosen-IsSafe (has_ended m.phase) _ m (joined-IsSafe m e h) h
parent_joins-IsSafe before_start m e h = h
parent_joins-IsSafe creating m e h = h
parent_joins-IsSafe holding m e h = h
parent_joins-IsSafe gone m e h = h

pub step-IsSafe : (a : Action) (m : Delegate) → IsSafe m → IsSafe (step a m)
unfolding step thread_main
step-IsSafe (starts created j) m h = parent_starts-IsSafe m.parent created j m refl h
step-IsSafe checks m h = parent_checks-IsSafe m.parent m refl h
step-IsSafe stops m h = parent_calls-IsSafe stop stop-IsSafe m.parent m refl h
step-IsSafe leaves m h = parent_calls-IsSafe bye bye-IsSafe m.parent m refl h
step-IsSafe joins m h = parent_joins-IsSafe m.parent m refl h
step-IsSafe (thread result) m h = at_phase-IsSafe m.phase result m refl h

run_from-IsSafe : (actions : List Action) (m : Delegate) → IsSafe m → IsSafe (run actions m)
unfolding run
run_from-IsSafe [] m h = h
run_from-IsSafe (a ∷ rest) m h = run_from-IsSafe rest (step a m) (step-IsSafe a m h)

-- Whatever the parent and the spawned thread do and in whatever order, from before `start` on: the
-- delegate has one reference for each of the two that may still use it, it is deleted exactly once
-- when neither may, and neither accesses it after that.
pub run-IsSafe : (actions : List Action) → IsSafe (run actions new_delegate)
run-IsSafe actions = run_from-IsSafe actions new_delegate (refl, refl, refl, refl)
