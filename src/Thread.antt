-- ===== src/Thread.antt =====
-- gps/utils/LocThread.cpp: a LocThread, its LocThreadDelegate, and the thread that it spawns.
--
-- The delegate is one object that the parent and the thread share and that counts its references.
-- The spawned thread's steps are between its looks at the delegate; the parent's are its calls, with
-- `stop` cut at the join. An access after the deletion is counted in `faults`. What the runnable's `run` returns is given by the schedule, and
-- whether the platform can create the thread is an argument. One `start` is modelled: a LocThread
-- that is started again has a new delegate.
pub mod Counting
pub mod Lifetime
pub mod Stopping
mod Tests
use android_device_samsung_a.Base.{
  ℕ, zero, suc, ◌+◌, ◌-◌, Bool, true, false, List, [], ◌∷◌, ◌==◌, ltb, if◌then◌else◌,
}

-- Where the spawned thread is in `threadMain`.
pub data Phase : Type 0 where
  absent started entered looping after_loop leaving releasing ended : Phase

-- Where the parent is: before `start`, between the thread's creation and the check in `create`, with
-- the delegate in `mThread`, in `pthread_join`, without the delegate.
pub data Parent : Type 0 where
  before_start creating holding joining gone : Parent

-- The calls of the runnable.
pub data Event : Type 0 where
  prerun postrun : Event
  ran : (result : Bool) → Event

-- The delegate's fields with the two threads: `has_runnable` says that `mRunnable` is not NULL.
-- `deletes` and `runnable_deletes` count deletions, `success` is what `start` returned, `events` has
-- the latest first.
pub record Delegate : Type 0 where
  pub has_runnable : Bool
  pub joinable : Bool
  pub ref_count : ℕ
  pub phase : Phase
  pub parent : Parent
  pub deletes : ℕ
  pub runnable_deletes : ℕ
  pub faults : ℕ
  pub success : Bool
  pub events : List Event

-- An access to the delegate.
abbrev pub touch : Delegate → Delegate
touch m = record m { faults = if ltb 0 m.deletes then suc m.faults else m.faults }

-- `LocThreadDelegate::destroy`
unfoldable pub destroy : Delegate → Delegate
destroy m = record (touch m) {
  ref_count = if ltb 0 m.ref_count then m.ref_count - 1 else m.ref_count;
  deletes =
      if ltb 0 m.ref_count
      then (if m.ref_count == 1 then suc m.deletes else m.deletes)
      else m.deletes;
}

-- The thread's next step. Only a step in the loop reads `result`.
abbrev pub at_phase : Phase → (result : Bool) → Delegate → Delegate
at_phase absent result m = m
at_phase started result m = record (touch m) {
  phase = if m.has_runnable then entered else releasing;
}
at_phase entered result m = record (touch m) {
  phase = looping;
  events = if m.has_runnable then prerun ∷ m.events else m.events;
}
at_phase looping result m = record (touch m) {
  phase = if m.has_runnable then (if result then looping else after_loop) else after_loop;
  events = if m.has_runnable then ran result ∷ m.events else m.events;
}
at_phase after_loop result m = record (touch m) {
  phase = leaving;
  events = if m.has_runnable then postrun ∷ m.events else m.events;
}
at_phase leaving result m = record (touch m) {
  phase = releasing;
  has_runnable = false;
  runnable_deletes = suc m.runnable_deletes;
}
at_phase releasing result m = record (destroy m) { phase = ended }
at_phase ended result m = m

-- `LocThreadDelegate::threadMain`
unfoldable pub thread_main : (result : Bool) → Delegate → Delegate
thread_main result m = at_phase m.phase result m

-- The constructor of LocThreadDelegate with a runnable, when `created` says whether the thread was.
unfoldable pub construct : (created joinable : Bool) → Delegate → Delegate
construct true j m = record m {
  has_runnable = true;
  joinable = j;
  ref_count = 2;
  phase = started;
  parent = creating;
}
construct false j m = record m {
  has_runnable = false;
  joinable = false;
  ref_count = 1;
  parent = creating;
}

-- The rest of `LocThreadDelegate::create`, and of `LocThread::start`.
unfoldable pub create : Delegate → Delegate
create m =
    if m.has_runnable
    then record (touch m) { parent = holding; success = true }
    else record (destroy (touch m)) { parent = gone }

-- `LocThreadDelegate::stop` up to the join.
unfoldable pub stop : Delegate → Delegate
stop m =
    let t = record (touch m) { has_runnable = false } in
    if m.joinable
    then record t { joinable = false; parent = joining }
    else record (destroy t) { parent = gone }

-- `LocThread::~LocThread`, by `bye`.
unfoldable pub bye : Delegate → Delegate
bye m = if m.joinable then stop (touch m) else record (destroy (touch m)) { parent = gone }

-- The end of `stop`, once the thread is joined.
unfoldable pub joined : Delegate → Delegate
joined m = record (destroy m) { parent = gone }

abbrev pub has_ended : Phase → Bool
has_ended ended = true
has_ended absent = false
has_ended started = false
has_ended entered = false
has_ended looping = false
has_ended after_loop = false
has_ended leaving = false
has_ended releasing = false

-- What the two threads can do. A call that the parent's place does not allow is no step.
pub data Action : Type 0 where
  starts : (created joinable : Bool) → Action
  checks stops leaves joins : Action
  thread : (result : Bool) → Action

abbrev pub parent_starts : Parent → Bool → Bool → Delegate → Delegate
parent_starts before_start created j m = construct created j m
parent_starts creating created j m = m
parent_starts holding created j m = m
parent_starts joining created j m = m
parent_starts gone created j m = m

abbrev pub parent_checks : Parent → Delegate → Delegate
parent_checks creating m = create m
parent_checks before_start m = m
parent_checks holding m = m
parent_checks joining m = m
parent_checks gone m = m

abbrev pub parent_calls : (Delegate → Delegate) → Parent → Delegate → Delegate
parent_calls call holding m = call m
parent_calls call before_start m = m
parent_calls call creating m = m
parent_calls call joining m = m
parent_calls call gone m = m

abbrev pub parent_joins : Parent → Delegate → Delegate
parent_joins joining m = if has_ended m.phase then joined m else m
parent_joins before_start m = m
parent_joins creating m = m
parent_joins holding m = m
parent_joins gone m = m

unfoldable pub step : Action → Delegate → Delegate
step (starts created j) m = parent_starts m.parent created j m
step checks m = parent_checks m.parent m
step stops m = parent_calls stop m.parent m
step leaves m = parent_calls bye m.parent m
step joins m = parent_joins m.parent m
step (thread result) m = thread_main result m

unfoldable pub run : List Action → Delegate → Delegate
run [] m = m
run (a ∷ rest) m = run rest (step a m)

abbrev pub new_delegate : Delegate
new_delegate = record {
  has_runnable = false;
  joinable = false;
  ref_count = 0;
  phase = absent;
  parent = before_start;
  deletes = 0;
  runnable_deletes = 0;
  faults = 0;
  success = false;
  events = [];
}
