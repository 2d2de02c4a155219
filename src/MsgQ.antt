-- ===== src/MsgQ.antt =====
-- gps/utils/msg_q.c: the blocking queue between the GPS threads.
--
-- Each function holds `list_mutex` from its first look at the queue to its return, and
-- `pthread_cond_wait` alone gives it up on the way. So a call is one step, but `msg_q_rcv`: it may
-- stop in the wait, and each wake-up is a step of its own that tests the loop's condition again.
-- Of the threads in the wait the state counts those that sleep and those that have been woken.
pub mod Init
pub mod Steps
pub mod Order
pub mod Wakeup
pub mod Task
mod Tests
use android_device_samsung_a.Base.{
  ℕ, zero, suc, ◌+◌, ◌⊎◌, inl, inr, Bool, true, false, ◌&&◌, not, Option, none, some, List, [], ◌∷◌,
  if◌then◌else◌,
}
use android_device_samsung_a.LinkedList.{Err}
use android_device_samsung_a.LinkedList.Abstract.{is_empty, add, remove}

-- `msq_q_err_type`
pub data QErr : Type 0 where
  success failure_general invalid_parameter invalid_handle unavailable_resource : QErr
  insufficient_buffer : QErr

unfoldable pub convert_linked_list_err_type : Err → QErr
convert_linked_list_err_type Err.success = success
convert_linked_list_err_type Err.invalid_parameter = invalid_parameter
convert_linked_list_err_type Err.invalid_handle = invalid_handle
convert_linked_list_err_type Err.unavailable_resource = unavailable_resource
convert_linked_list_err_type Err.insufficient_buffer = insufficient_buffer
convert_linked_list_err_type Err.failure_general = failure_general

-- A message is what a pointer that is not NULL points to.
pub record MsgQ (A : Type 0) : Type 0 where
  pub msg_list : List A
  pub unblocked : Bool
  pub sleeping : ℕ
  pub woken : ℕ

-- What a step of `msg_q_rcv` comes to: the thread stays in the wait, or returns.
pub data Rcv (A : Type 0) : Type 0 where
  waits : MsgQ A → Rcv A
  returns : QErr → Option A → MsgQ A → Rcv A

module _ {A : Type 0} where
  -- `pthread_cond_signal` wakes a sleeper if there is one. (That it may wake more is a spurious
  -- wake-up, which `Steps` has as a step.)
  abbrev wake_one : MsgQ A → ℕ → MsgQ A
  wake_one q zero = q
  wake_one q (suc n) = record q { sleeping = n; woken = suc q.woken }

  abbrev pub signal : MsgQ A → MsgQ A
  signal q = wake_one q q.sleeping

  -- `pthread_cond_broadcast`
  abbrev pub broadcast : MsgQ A → MsgQ A
  broadcast q = record q { sleeping = 0; woken = q.woken + q.sleeping }

  -- A handle is `none` if NULL, and so is a pointer to a message.
  pub msg_q_snd : (allocated : Bool) → Option A → Option (MsgQ A) → QErr × Option (MsgQ A)
  unfolding convert_linked_list_err_type
  msg_q_snd allocated msg none = (invalid_handle, none)
  msg_q_snd allocated none (some q) = (invalid_parameter, some q)
  msg_q_snd allocated (some msg) (some q) =
      if q.unblocked then (unavailable_resource, some q) else (
        convert_linked_list_err_type (add allocated msg q.msg_list).0,
        some (signal (record q { msg_list = (add allocated msg q.msg_list).1 })),
      )

  -- `while (empty && !unblocked)`, with what follows the loop.
  pub rcv_loop : MsgQ A → Rcv A
  unfolding convert_linked_list_err_type
  rcv_loop q =
      if (is_empty q.msg_list) && not q.unblocked
      then waits (record q { sleeping = suc q.sleeping })
      else let r = remove q.msg_list in
        returns (convert_linked_list_err_type r.0) r.1 (record q { msg_list = r.2 })

  -- `has_out` says that the pointer for the result is not NULL.
  pub msg_q_rcv : (has_out : Bool) → Option (MsgQ A) → QErr ⊎ Rcv A
  unfolding rcv_loop
  msg_q_rcv has_out none = inl invalid_handle
  msg_q_rcv false (some q) = inl invalid_parameter
  msg_q_rcv true (some q) =
      inr (if q.unblocked then returns unavailable_resource none q else rcv_loop q)

  -- A woken thread has the mutex again and tests the condition.
  pub rcv_wakes : MsgQ A → ℕ → Rcv A
  unfolding rcv_loop
  rcv_wakes q n = rcv_loop (record q { woken = n })

  pub msg_q_flush : Option (MsgQ A) → QErr × Option (MsgQ A)
  unfolding convert_linked_list_err_type
  msg_q_flush none = (invalid_handle, none)
  msg_q_flush (some q) =
      (convert_linked_list_err_type Err.success, some (record q { msg_list = [] }))

  pub msg_q_unblock : Option (MsgQ A) → QErr × Option (MsgQ A)
  msg_q_unblock none = (invalid_handle, none)
  msg_q_unblock (some q) =
      if q.unblocked
      then (unavailable_resource, some q)
      else (success, some (broadcast (record q { unblocked = true })))
