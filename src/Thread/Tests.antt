-- ===== src/Thread/Tests.antt =====
-- The theorems on threads at small runs.
use android_device_samsung_a.Base.{◌≡◌, ◌≢◌, refl, sym, ◌∙◌, true, false, List, [], ◌∷◌}
use android_device_samsung_a.Thread.{
  absent, started, looping, ended, holding, gone, Delegate, Action, starts, checks, stops, joins,
  thread, step, run, construct, create, thread_main, new_delegate, postrun, prerun, ran,
}
use android_device_samsung_a.Thread.Lifetime.{run-IsSafe}
use android_device_samsung_a.Thread.Counting.{IsSafe}
use android_device_samsung_a.Thread.Stopping.{rounds, stop-ends}

-- A joinable thread that is in its loop.
abbrev looped : List Action
looped = starts true true ∷ thread true ∷ checks ∷ thread true ∷ thread true ∷ []

run-IsSafe_example : IsSafe (run looped new_delegate)
run-IsSafe_example = run-IsSafe looped

looped-holding : (run looped new_delegate).parent ≡ holding
unfolding run step construct create thread_main
looped-holding = refl

looped-looping : (run looped new_delegate).phase ≡ looping
unfolding run step construct create thread_main
looped-looping = refl

looped-exists : (run looped new_delegate).phase ≢ absent
looped-exists e = let d = sym looped-looping ∙ e in cc

stop-ends_example :
    let m =
      step joins
        (rounds (true ∷ true ∷ true ∷ true ∷ true ∷ []) (step stops (run looped new_delegate))) in
    (m.phase ≡ ended) × (m.parent ≡ gone) × (m.deletes ≡ 1)
stop-ends_example = stop-ends looped true true true true true looped-holding looped-exists

-- A detached thread that has not taken a step.
abbrev fresh : Delegate
fresh = run (starts true false ∷ checks ∷ []) new_delegate

fresh-started : fresh.phase ≡ started
unfolding run step construct create
fresh-started = refl

fresh-holding : fresh.parent ≡ holding
unfolding run step construct create
fresh-holding = refl

-- A thread whose `run` returns false runs `postrun` and deletes its runnable.
abbrev finished : List Action
finished =
    starts true false
    ∷ checks
    ∷ thread true
    ∷ thread true
    ∷ thread false
    ∷ thread true
    ∷ thread true
    ∷ []

finished-events : (run finished new_delegate).events ≡ postrun ∷ ran false ∷ prerun ∷ []
unfolding run step construct create thread_main
finished-events = refl
