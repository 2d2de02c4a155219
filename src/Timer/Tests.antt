-- ===== src/Timer/Tests.antt =====
-- The theorems on timers at two clients.
use mathlib.Core.List.{Perm}
use android_device_samsung_a.Base.{ℕ, ◌≡◌, ◌⊎◌, refl, true, false, some, List, [], ◌∷◌, ◌++◌, All}
use android_device_samsung_a.LocHeap.{leaf, node, single, peek}
use android_device_samsung_a.LocHeap.Order.{IsHeap, contents}
use android_device_samsung_a.LocHeap.Top.{peek_node}
use android_device_samsung_a.Timer.{
  Timespec, Delegate, sooner, out_ranks, Service, Action, start_by, stop_by, kernel, message, run,
  new_service, expire_proc,
}
use android_device_samsung_a.Timer.Watch.{IsCovered, run-watched}
use android_device_samsung_a.Timer.Armed.{is_pending}
use android_device_samsung_a.Timer.Expiry.{expire_proc-exact}

abbrev at : ℕ → Timespec
at sec = record { tv_sec = sec; tv_nsec = 900000000 }

-- Two clients start timers; the kernel's expiry comes when the first is about to stop.
abbrev actions : List Action
actions =
    start_by 1 (at 5) 200
    ∷ start_by 2 (at 5) 90000
    ∷ message (at 5)
    ∷ message (at 5)
    ∷ stop_by 1
    ∷ kernel (at 9)
    ∷ message (at 9)
    ∷ message (at 9)
    ∷ []

run-watched_example :
    let m = run actions new_service in
    (is_pending m.queue ≡ true) ⊎ (contents m.tree ≡ []) ⊎ IsCovered m
run-watched_example = run-watched actions

abbrev early : Delegate
early = record { addr = 1; future_time = at 6 }

abbrev late : Delegate
late = record { addr = 2; future_time = at 95 }

abbrev ticking : Service
ticking = record new_service {
  tree = node 2 early (single late) leaf;
  armed = some (at 6);
  polled = true;
}

ticking-IsHeap : IsHeap out_ranks ticking.tree
unfolding out_ranks
ticking-IsHeap = (refl, refl, refl, (refl, refl, refl, tt, tt), tt)

ticking-peek : peek out_ranks ticking.tree ≡ some early
ticking-peek = peek_node out_ranks 2 early (single late) leaf

expire_proc-exact_example :
    let k = expire_proc (at 9) ticking in
    (due : List Delegate) × Perm (early ∷ due ++ contents k.tree) (early ∷ late ∷ [])
    × All (λ x. sooner (at 9) x.future_time ≡ false) due
    × All (λ x. sooner (at 9) x.future_time ≡ true) (contents k.tree)
expire_proc-exact_example = expire_proc-exact (at 9) ticking early ticking-IsHeap ticking-peek
