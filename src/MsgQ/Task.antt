-- ===== src/MsgQ/Task.antt =====
-- gps/utils/MsgTask.cpp: the thread that takes messages from a queue and runs them.
--
-- An iteration of `MsgTask::run` is a step up to its wait in `msg_q_rcv`, and its way on from there
-- another. `MsgTask::destroy` is two steps: `msg_q_unblock`, and the write to `mThread`. What
-- runs after the deletion of the task is left out but for that write. Spurious wake-ups are left out.
pub mod Handled
use android_device_samsung_a.Base.{
  ℕ, zero, suc, ◌+◌, ◌≡◌, refl, sym, ap, ◌∙◌, ◌⊎◌, inl, inr, Bool, true, false, ◌&&◌, ◌||◌, not,
  Option, none, some, List, [], ◌∷◌, ◌++◌, if◌then◌else◌,
}
use android_device_samsung_a.LinkedList.Abstract.{split_last}
use android_device_samsung_a.MsgQ.{
  QErr, success, failure_general, invalid_parameter, invalid_handle, unavailable_resource,
  insufficient_buffer, MsgQ, Rcv, waits, returns, msg_q_snd, msg_q_rcv, rcv_loop, rcv_wakes,
  msg_q_flush, msg_q_unblock,
}
use android_device_samsung_a.MsgQ.Steps.{or_else, new}

-- A MsgTask. `processed` are the messages whose `proc` ran, `deletions` all that were deleted,
-- `dropped` those that the destructor flushed, from the head of the list on. `faults` counts the uses
-- of a message that is NULL, `clearing` the calls of `destroy` that are before their write to
-- `mThread`, and `late` such writes to a task that has been deleted.
pub record Task (A : Type 0) : Type 0 where
  pub queue : MsgQ A
  pub has_thread : Bool
  pub is_waiting : Bool
  pub is_deleted : Bool
  pub processed : List A
  pub dropped : List A
  pub deletions : List A
  pub faults : ℕ
  pub clearing : ℕ
  pub late : ℕ

abbrev is_success : QErr → Bool
is_success success = true
is_success failure_general = false
is_success invalid_parameter = false
is_success invalid_handle = false
is_success unavailable_resource = false
is_success insufficient_buffer = false

module _ {A : Type 0} where
  -- `MsgTask::~MsgTask`
  abbrev pub delete_task : Task A → Task A
  delete_task t = record t {
    queue = or_else t.queue (msg_q_flush (some t.queue)).1;
    is_deleted = true;
    dropped = t.queue.msg_list;
    deletions = t.deletions ++ t.queue.msg_list;
  }

  -- `proc` and `delete` of a message.
  abbrev pub process : Option A → Task A → Task A
  process none t = record t { faults = suc t.faults }
  process (some m) t = record t {
    processed = t.processed ++ m ∷ [];
    deletions = t.deletions ++ m ∷ [];
  }

  -- The rest of `MsgTask::run` after `msg_q_rcv`; the thread deletes the task when `run` is false.
  abbrev pub received : Rcv A → Task A → Task A
  received (waits q) t = record t { queue = q; is_waiting = true }
  received (returns e m q) t =
      let t1 = record t { queue = q; is_waiting = false } in
      if is_success e then process m t1 else delete_task t1

  abbrev pub received_or : QErr ⊎ Rcv A → Task A → Task A
  received_or (inl e) t = delete_task t
  received_or (inr r) t = received r t

  -- `MsgTask::run` from its start on.
  pub run_task : Task A → Task A
  unfolding msg_q_rcv msg_q_flush
  run_task t = received_or (msg_q_rcv true (some t.queue)) t

  -- Its way on from the wait, when a wake-up is there.
  abbrev pub woken_by : ℕ → Task A → Task A
  woken_by zero t = t
  woken_by (suc n) t = received (rcv_wakes t.queue n) t

  pub wake_task : Task A → Task A
  unfolding rcv_wakes msg_q_flush
  wake_task t = woken_by t.queue.woken t

  -- `MsgTask::sendMsg`
  pub send_msg : (allocated : Bool) → A → Task A → Task A
  unfolding msg_q_snd
  send_msg allocated m t = record t {
    queue = or_else t.queue (msg_q_snd allocated (some m) (some t.queue)).1;
  }

  -- `MsgTask::destroy` up to `msg_q_unblock`, and without a thread to its end.
  pub destroy : Task A → Task A
  unfolding msg_q_unblock msg_q_flush
  destroy t =
      let t1 = record t { queue = or_else t.queue (msg_q_unblock (some t.queue)).1 } in
      if t.has_thread then record t1 { clearing = suc t.clearing } else delete_task t1

  -- The write `mThread = NULL`; the deletion of the LocThread touches the task no more.
  abbrev pub clear_thread : ℕ → Task A → Task A
  clear_thread zero t = t
  clear_thread (suc n) t = record t {
    has_thread = false;
    clearing = n;
    late = if t.is_deleted then suc t.late else t.late;
  }

pub data Action (A : Type 0) : Type 0 where
  sends : (allocated : Bool) → A → Action A
  iterates wakes destroys clears : Action A

module _ {A : Type 0} where
  -- What clients and the thread can do while the task is there, with the message accepted.
  pub step : Action A → Task A → List A × Task A
  unfolding send_msg run_task wake_task destroy msg_q_snd
  step (sends allocated m) t = if t.is_deleted then ([], t) else (
    (if is_success (msg_q_snd allocated (some m) (some t.queue)).0 then m ∷ [] else []),
    send_msg allocated m t,
  )
  step iterates t = ([], if t.is_deleted || t.is_waiting then t else run_task t)
  step wakes t = ([], if not t.is_deleted && t.is_waiting then wake_task t else t)
  step destroys t = ([], if t.is_deleted then t else destroy t)
  step clears t = ([], clear_thread t.clearing t)

  pub run : List (Action A) → Task A → List A × Task A
  run [] t = ([], t)
  run (a ∷ rest) t = let r = step a t in let later = run rest r.1 in (r.0 ++ later.0, later.1)

  abbrev pub new_task : (has_thread : Bool) → Task A
  new_task b = record {
    queue = new;
    has_thread = b;
    is_waiting = false;
    is_deleted = false;
    processed = [];
    dropped = [];
    deletions = [];
    faults = 0;
    clearing = 0;
    late = 0;
  }
