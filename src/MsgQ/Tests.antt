-- ===== src/MsgQ/Tests.antt =====
-- The theorems on the message queue at short schedules.
use android_device_samsung_a.Base.{ℕ, ◌≡◌, ◌≤◌, ◌⊎◌, true, false, List, [], ◌∷◌, ◌++◌, length}
use mathlib.Core.List.{reverse}
use android_device_samsung_a.MsgQ.Init.{Luck}
use android_device_samsung_a.MsgQ.Steps.{Action, send, receive, wake, flush, run, new}
use android_device_samsung_a.MsgQ.Order.{sent, left, run-order}
use android_device_samsung_a.MsgQ.Task
use android_device_samsung_a.MsgQ.Task.{new_task, clear_thread, wake_task, destroy}
use android_device_samsung_a.MsgQ.Task.Handled.{IsKept, run-handled}
use android_device_samsung_a.MsgQ.Wakeup.{run-no_lost_wakeup}

-- Two receivers wait, three messages come, one receiver is late.
abbrev schedule : List (Action ℕ)
schedule =
    receive ∷ receive ∷ send true 5 ∷ send true 6 ∷ wake ∷ send true 7 ∷ receive ∷ wake ∷ flush ∷ []

run-order_example : let r = run schedule new in left r.0 ++ reverse r.1.msg_list ≡ sent r.0
run-order_example = run-order schedule

run-no_lost_wakeup_example :
    let q = (run schedule new).1 in
    (q.sleeping ≡ 0) ⊎ ((length q.msg_list ≤ q.woken) × (q.unblocked ≡ false))
run-no_lost_wakeup_example = run-no_lost_wakeup schedule

-- The condition variable cannot be made.
abbrev no_cond : Luck
no_cond = record { memory = true; list = true; mutex = true; cond = false }

-- A task takes two of three messages, and is then destroyed.
abbrev handling : List (Task.Action ℕ)
handling =
    Task.iterates
    ∷ Task.sends true 5
    ∷ Task.wakes
    ∷ Task.sends true 6
    ∷ Task.iterates
    ∷ Task.sends true 7
    ∷ Task.destroys
    ∷ Task.iterates
    ∷ []

run-handled_example : let r = Task.run handling (new_task true) in IsKept r.0 r.1
run-handled_example = run-handled handling true
