-- ===== src/Timer.antt =====
-- gps/utils/LocTimer.cpp: timers on a rank heap, with one kernel timer for the soonest.
--
-- One container is modelled (that for timers and that for alarms share nothing but the threads). The
-- messages of `LocTimerContainer` wait in `queue`, the oldest first, and one thread runs them in
-- turn; the polling thread calls `expire`; clients call `start` and `stop` from their own threads.
-- A call of any of these is one step. Times are those of CLOCK_BOOTTIME: they are not negative, so
-- their differences do not overflow, and no deadline is 0, the value that disarms the kernel timer.
pub mod Ranking
pub mod Armed
pub mod Watch
pub mod Expiry
mod Tests
use android_device_samsung_a.Base.{
  ℕ, zero, suc, ◌+◌, ◌*◌, ◌/◌, ◌%◌, Bool, true, false, ◌&&◌, ◌||◌, not, Option, none, some, List,
  [], ◌∷◌, ◌++◌, ltb, leb, ◌==◌, if◌then◌else◌,
}
use android_device_samsung_a.LocHeap.{Tree, leaf, size_of, push, pop, peek, remove}

-- `struct timespec`
pub record Timespec : Type 0 where
  pub tv_sec : ℕ
  pub tv_nsec : ℕ

-- A pointer to a `LocTimerDelegate`, with the time that the object keeps for its life.
pub record Delegate : Type 0 where
  pub addr : ℕ
  pub future_time : Timespec

abbrev pub sooner : Timespec → Timespec → Bool
sooner a b = ltb a.tv_sec b.tv_sec || ((a.tv_sec == b.tv_sec) && ltb a.tv_nsec b.tv_nsec)

-- `ranks(...) > 0`: the larger time ranks lower.
unfoldable pub out_ranks : Delegate → Delegate → Bool
out_ranks a b = sooner a.future_time b.future_time

-- The same pointer, and so the same time.
unfoldable pub same : Delegate → Delegate → Bool
same a b =
    (a.addr == b.addr)
    && (a.future_time.tv_sec == b.future_time.tv_sec)
    && (a.future_time.tv_nsec == b.future_time.tv_nsec)

abbrev pub same_pointer : Option Delegate → Option Delegate → Bool
same_pointer none none = true
same_pointer none (some b) = false
same_pointer (some a) none = false
same_pointer (some a) (some b) = same a b

-- `MsgTimerPush`, `MsgTimerRemove` and `MsgTimerExpire`.
pub data Msg : Type 0 where
  push_msg remove_msg : Delegate → Msg
  expire_msg : Msg

-- The container, its messages, and the objects: `mTimer` of each LocTimer, `mClient` of the delegate
-- at each address. `fired` are the clients called back and `deleted` the delegates deleted, the
-- latest first.
pub record Service : Type 0 where
  pub tree : Tree Delegate
  pub armed : Option Timespec
  pub polled : Bool
  pub queue : List Msg
  pub timer_of : ℕ → Option Delegate
  pub client_of : ℕ → Option ℕ
  pub next_addr : ℕ
  pub fired : List ℕ
  pub deleted : List ℕ

abbrev pub send_msg : Msg → Service → Service
send_msg msg m = record m { queue = m.queue ++ msg ∷ [] }

abbrev pub soonest_timer : Service → Option Delegate
soonest_timer m = peek out_ranks m.tree

-- What the soonest timer is now, against the prior one.
abbrev pub reset_kernel : (cur prior : Option Delegate) → Service → Service
reset_kernel none prior m = record m { polled = false; armed = none }
reset_kernel (some t) none m = record m { polled = true; armed = some t.future_time }
reset_kernel (some t) (some p) m =
    if out_ranks t p then record m { polled = true; armed = some t.future_time } else m

-- `updateSoonestTime`
unfoldable pub update_soonest_time : Option Delegate → Service → Service
update_soonest_time prior m =
    let cur = soonest_timer m in if same_pointer cur prior then m else reset_kernel cur prior m

-- `MsgTimerPush::proc`
unfoldable pub push_proc : Delegate → Service → Service
push_proc d m = update_soonest_time (soonest_timer m) (record m { tree = push out_ranks d m.tree })

-- `MsgTimerRemove::proc`
unfoldable pub remove_proc : Delegate → Service → Service
remove_proc d m =
    let r = remove out_ranks same d m.tree in
    let m1 = record m { tree = r.1; deleted = d.addr ∷ m.deleted } in
    if same_pointer (soonest_timer m) r.0 then update_soonest_time none m1 else m1

abbrev pub assign : {A : Type 0} → (ℕ → A) → ℕ → A → ℕ → A
assign f a x b = if a == b then x else f b

-- `LocTimer::stop`, with `destroyLocked` of a delegate that runs.
abbrev pub stop_timer : ℕ → Option Delegate → Service → Bool × Service
stop_timer client none m = (false, m)
stop_timer client (some d) m = (
  true,
  send_msg (remove_msg d) (record m {
    timer_of = assign m.timer_of client none;
    client_of = assign m.client_of d.addr none;
  }),
)

unfoldable pub stop : ℕ → Service → Bool × Service
stop client m = stop_timer client (m.timer_of client) m

-- `LocTimerDelegate::expire`; the client's callback is a call that leaves the model.
abbrev pub expire_client : Option ℕ → Service → Service
expire_client none m = m
expire_client (some client) m =
    let r = stop client m in if r.0 then record (r.1) { fired = client ∷ r.1.fired } else r.1

unfoldable pub delegate_expire : Delegate → Service → Service
delegate_expire d m = expire_client (m.client_of d.addr) m

-- `popIfOutRanks` with a delegate of the time `now`: the top, unless its time is later.
abbrev pub pop_due : Timespec → Option Delegate → Tree Delegate → Option Delegate × Tree Delegate
pop_due now none t = (none, t)
pop_due now (some d) t = if sooner now d.future_time then (none, t) else pop out_ranks t

-- The loop of `MsgTimerExpire::proc` with a delegate in hand, or NULL.
unfoldable pub expire_loop : ℕ → Timespec → Option Delegate → Service → Service
expire_loop zero now hit m = m
expire_loop (suc k) now none m = m
expire_loop (suc k) now (some d) m =
    let m1 = delegate_expire d m in
    let r = pop_due now (soonest_timer m1) m1.tree in
    expire_loop k now r.0 (record m1 { tree = r.1 })

-- `MsgTimerExpire::proc`
unfoldable pub expire_proc : Timespec → Service → Service
expire_proc now m =
    let r = pop out_ranks m.tree in
    update_soonest_time none (expire_loop (suc (size_of m.tree)) now r.0 (record m { tree = r.1 }))

-- `LocTimerContainer::expire`
unfoldable pub expire : Service → Service
expire m = send_msg expire_msg (record m { armed = none; polled = false })

-- The time that `start` computes.
unfoldable pub deadline : Timespec → (time_out_in_ms : ℕ) → Timespec
deadline now ms =
    let sec = now.tv_sec + ms / 1000 in
    let nsec = now.tv_nsec + ms % 1000 * 1000000 in
    if leb 1000000000 nsec
    then record { tv_sec = sec + nsec / 1000000000; tv_nsec = nsec % 1000000000 }
    else record { tv_sec = sec; tv_nsec = nsec }

abbrev pub new_timer : ℕ → Delegate → Service → Service
new_timer client d m = send_msg (push_msg d) (record m {
  timer_of = assign m.timer_of client (some d);
  client_of = assign m.client_of d.addr (some client);
  next_addr = suc m.next_addr;
})

-- `LocTimer::start`
abbrev pub start_timer : ℕ → Timespec → Option Delegate → Service → Bool × Service
start_timer client time (some d) m = (false, m)
start_timer client time none m =
    (true, new_timer client (record { addr = m.next_addr; future_time = time }) m)

unfoldable pub start : ℕ → Timespec → (time_out_in_ms : ℕ) → Service → Bool × Service
start client now ms m = start_timer client (deadline now ms) (m.timer_of client) m

-- What the threads can do: the clients, the kernel timer's expiry, the message thread.
pub data Action : Type 0 where
  start_by : (client : ℕ) → (now : Timespec) → (time_out_in_ms : ℕ) → Action
  stop_by : (client : ℕ) → Action
  kernel : (now : Timespec) → Action
  message : (now : Timespec) → Action

abbrev pub proc : Timespec → Msg → Service → Service
proc now (push_msg d) m = push_proc d m
proc now (remove_msg d) m = remove_proc d m
proc now expire_msg m = expire_proc now m

abbrev pub next_message : Timespec → List Msg → Service → Service
next_message now [] m = m
next_message now (msg ∷ queue) m = proc now msg (record m { queue = queue })

-- The polling thread comes back when the armed time is reached.
abbrev pub is_reached : Timespec → Option Timespec → Bool
is_reached now none = false
is_reached now (some t) = not (sooner now t)

unfoldable pub step : Action → Service → Service
step (start_by client now ms) m = (start client now ms m).1
step (stop_by client) m = (stop client m).1
step (kernel now) m = if m.polled && is_reached now m.armed then expire m else m
step (message now) m = next_message now m.queue m

unfoldable pub run : List Action → Service → Service
run [] m = m
run (a ∷ rest) m = run rest (step a m)

abbrev pub new_service : Service
new_service = record {
  tree = leaf;
  armed = none;
  polled = false;
  queue = [];
  timer_of = λ c. none;
  client_of = λ a. none;
  next_addr = 1;
  fired = [];
  deleted = [];
}
