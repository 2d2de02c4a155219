-- ===== src/MsgQ/Init.antt =====
-- `msg_q_init`, `msg_q_init2` and `msg_q_destroy`: what they acquire and release. `calloc`,
-- `pthread_mutex_init` and `pthread_cond_init` are given by whether they succeed.
use android_device_samsung_a.Base.{
  ◌≡◌, ◌≢◌, ◌⊎◌, Bool, true, false, not, List, [], ◌∷◌, arith, if◌then◌else◌,
}
use android_device_samsung_a.MsgQ.{
  QErr, success, failure_general, invalid_parameter, invalid_handle,
}

pub data Effect : Type 0 where
  calloc_queue list_init mutex_init cond_init : Effect
  free_queue list_destroy mutex_destroy cond_destroy : Effect

-- Whether `calloc`, `linked_list_init`, `pthread_mutex_init` and `pthread_cond_init` succeed.
pub record Luck : Type 0 where
  pub memory : Bool
  pub list : Bool
  pub mutex : Bool
  pub cond : Bool

-- The code, what was done, and whether `*msg_q_data` was set.
pub msg_q_init : (msg_q_data : Bool) → Luck → QErr × List Effect × Bool
msg_q_init msg_q_data luck =
    if not msg_q_data
    then (invalid_parameter, [], false)
    else if not luck.memory
    then (failure_general, [], false)
    else if not luck.list
    then (failure_general, calloc_queue ∷ free_queue ∷ [], false)
    else if not luck.mutex
    then (failure_general, calloc_queue ∷ list_init ∷ list_destroy ∷ free_queue ∷ [], false)
    else if not luck.cond
    then (
      failure_general,
      calloc_queue ∷ list_init ∷ mutex_init ∷ list_destroy ∷ mutex_destroy ∷ free_queue ∷ [],
      false,
    )
    else (success, calloc_queue ∷ list_init ∷ mutex_init ∷ cond_init ∷ [], true)

abbrev is_success : QErr → Bool
is_success success = true
is_success e = false

-- The queue, or NULL (`false`).
pub msg_q_init2 : Luck → Bool × List Effect
unfolding msg_q_init
msg_q_init2 luck = let r = msg_q_init true luck in (is_success r.0, r.1)

pub msg_q_destroy : (msg_q_data : Bool) → QErr × List Effect
msg_q_destroy msg_q_data =
    if not msg_q_data
    then (invalid_handle, [])
    else (success, list_destroy ∷ mutex_destroy ∷ cond_destroy ∷ free_queue ∷ [])

-- What is held.
pub record Held : Type 0 where
  pub queue : Bool
  pub list : Bool
  pub mutex : Bool
  pub cond : Bool

abbrev pub after : Effect → Held → Held
after calloc_queue h = record h { queue = true }
after list_init h = record h { list = true }
after mutex_init h = record h { mutex = true }
after cond_init h = record h { cond = true }
after free_queue h = record h { queue = false }
after list_destroy h = record h { list = false }
after mutex_destroy h = record h { mutex = false }
after cond_destroy h = record h { cond = false }

abbrev pub after_all : List Effect → Held → Held
after_all [] h = h
after_all (e ∷ es) h = after_all es (after e h)

abbrev pub all_held : Bool → Held
all_held b = record { queue = b; list = b; mutex = b; cond = b }

-- A successful `msg_q_init` holds all four resources and sets the handle; one that fails, at
-- whichever step, holds none and leaves the handle.
msg_q_init-held :
    (p : Bool) (luck : Luck)
    → let r = msg_q_init p luck in
      ((r.0 ≡ success) × (after_all r.1 (all_held false) ≡ all_held true) × (r.2 ≡ true))
      ⊎ ((r.0 ≢ success) × (after_all r.1 (all_held false) ≡ all_held false) × (r.2 ≡ false))
unfolding msg_q_init
msg_q_init-held p luck = ground arith

-- `msg_q_destroy` releases all that `msg_q_init2` acquired, and a NULL from `msg_q_init2` means that
-- nothing is held.
msg_q_init2-destroy :
    (luck : Luck)
    → let r = msg_q_init2 luck in
      after_all (if r.0 then (msg_q_destroy true).1 else []) (after_all r.1 (all_held false))
      ≡ all_held false
unfolding msg_q_init2 msg_q_destroy
msg_q_init2-destroy luck = ground arith
