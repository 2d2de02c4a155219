-- ===== src/Timer/Watch.antt =====
-- The kernel timer watches over the soonest timer.
use android_device_samsung_a.Base.{
  ℕ, zero, suc, ◌≡◌, refl, ap, ◌∙◌, subst, true, false, ◌&&◌, Option, none, some, List, [], ◌∷◌,
  arith, inl, inr, ◌⊎◌, Bool-cases, Option-cases, All, All-imp,
}
use android_device_samsung_a.LocHeap.{Tree, pop, size_of}
use android_device_samsung_a.LocHeap.Order.{IsHeap, contents, peek-Under}
use android_device_samsung_a.LocHeap.Top.{peek_leaf, peek-none, pop-IsHeap}
use android_device_samsung_a.Timer.{
  Timespec, Delegate, sooner, out_ranks, Msg, push_msg, remove_msg, expire_msg, Service,
  soonest_timer, stop, stop_timer, expire_client, delegate_expire, pop_due, expire_loop,
  expire_proc, expire, start, start_timer, deadline, Action, start_by, stop_by, kernel, message,
  next_message, is_reached, step, run, new_service,
}
use android_device_samsung_a.Timer.Ranking.{out_ranks-IsRanking}
use android_device_samsung_a.Timer.Armed.{
  is_expire, is_pending, TopIsArmed, IsSound, is_pending-append, update_none-IsSound,
  push_proc-IsSound, remove_proc-IsSound,
}

-- The kernel timer is polled, and set for no later time than that of any delegate in the heap.
abbrev pub IsCovered : Service → Type 0
IsCovered m =
    (m.polled ≡ true)
    × ((t : Timespec) × (m.armed ≡ some t)
        × All (λ d. sooner d.future_time t ≡ false) (contents m.tree))

-- What an expired delegate does leaves the container alone, and takes no message from the queue.
record Aside (m k : Service) : Type 0 where
  tree : k.tree ≡ m.tree
  armed : k.armed ≡ m.armed
  polled : k.polled ≡ m.polled
  pending : is_pending k.queue ≡ is_pending m.queue

stop_timer-Aside :
    (client : ℕ) (o : Option Delegate) (m : Service) → Aside m (stop_timer client o m).1
stop_timer-Aside client none m = record { tree = refl; armed = refl; polled = refl; pending = refl }
stop_timer-Aside client (some d) m = record {
  tree = refl;
  armed = refl;
  polled = refl;
  pending = is_pending-append m.queue (remove_msg d) ∙ ground arith;
}

start_timer-Aside :
    (client : ℕ) (time : Timespec) (o : Option Delegate) (m : Service)
    → Aside m (start_timer client time o m).1
start_timer-Aside client time (some d) m = record {
  tree = refl;
  armed = refl;
  polled = refl;
  pending = refl;
}
start_timer-Aside client time none m = record {
  tree = refl;
  armed = refl;
  polled = refl;
  pending = is_pending-append m.queue _ ∙ ground arith;
}

Aside-IsSound : (m k : Service) → Aside m k → IsSound m → IsSound k
Aside-IsSound m k a v = record {
  heap = rw a.tree v.heap;
  watched = elim v.watched [
    | inl pending ↦ inl (a.pending ∙ pending)
    | inr armed ↦ inr (rw (a.tree, a.armed, a.polled) armed)
  ];
}

expire_client-tree : (o : Option ℕ) (m : Service) → (expire_client o m).tree ≡ m.tree
unfolding stop
expire_client-tree none m = refl
expire_client-tree (some client) m = elim (Option-cases (m.timer_of client)) [
  | inl e ↦ rw e
  | inr (d, e) ↦ rw e
]

pub delegate_expire-tree : (d : Delegate) (m : Service) → (delegate_expire d m).tree ≡ m.tree
unfolding delegate_expire
delegate_expire-tree d m = expire_client-tree (m.client_of d.addr) m

pub pop_due-IsHeap :
    (now : Timespec) (hit : Option Delegate) (t : Tree Delegate)
    → IsHeap out_ranks t
    → IsHeap out_ranks (pop_due now hit t).1
pop_due-IsHeap now none t h = h
pop_due-IsHeap now (some d) t h = elim (Bool-cases (sooner now d.future_time)) [
  | inl e ↦ rw e h
  | inr e ↦ rw e (pop-IsHeap out_ranks out_ranks-IsRanking t h)
]

pub expire_loop-IsHeap :
    (k : ℕ) (now : Timespec) (hit : Option Delegate) (m : Service)
    → IsHeap out_ranks m.tree
    → IsHeap out_ranks (expire_loop k now hit m).tree
unfolding expire_loop
expire_loop-IsHeap zero now hit m h = h
expire_loop-IsHeap (suc k) now none m h = h
expire_loop-IsHeap (suc k) now (some d) m h =
    let m1 = delegate_expire d m in
    let r = pop_due now (soonest_timer m1) m1.tree in
    expire_loop-IsHeap k now r.0 (record m1 { tree = r.1 })
      (pop_due-IsHeap now (soonest_timer m1) m1.tree (rw (delegate_expire-tree d m) h))

expire_proc-IsSound :
    (now : Timespec) (m : Service) → IsHeap out_ranks m.tree → IsSound (expire_proc now m)
unfolding expire_proc
expire_proc-IsSound now m h =
    let r = pop out_ranks m.tree in
    update_none-IsSound (expire_loop (suc (size_of m.tree)) now r.0 (record m { tree = r.1 })) (
      expire_loop-IsHeap (suc (size_of m.tree)) now r.0 (record m { tree = r.1 })
        (pop-IsHeap out_ranks out_ranks-IsRanking m.tree h))

-- A message other than `MsgTimerExpire` leaves the queue.
taken :
    (msg : Msg) (queue : List Msg) (m : Service)
    → m.queue ≡ msg ∷ queue
    → is_expire msg ≡ false
    → IsSound m
    → IsSound (record m { queue = queue })
taken msg queue m e quiet v = record {
  heap = v.heap;
  watched = elim v.watched [ inl pending ↦ inl (ground (arith, ap is_pending e)) | inr a ↦ inr a ];
}

next_message-IsSound :
    (now : Timespec) (queue : List Msg) (m : Service)
    → m.queue ≡ queue
    → IsSound m
    → IsSound (next_message now queue m)
next_message-IsSound now [] m e v = v
next_message-IsSound now (push_msg d ∷ queue) m e v =
    push_proc-IsSound d (record m { queue = queue }) (taken (push_msg d) queue m e refl v)
next_message-IsSound now (remove_msg d ∷ queue) m e v =
    remove_proc-IsSound d (record m { queue = queue }) (taken (remove_msg d) queue m e refl v)
next_message-IsSound now (expire_msg ∷ queue) m e v =
    expire_proc-IsSound now (record m { queue = queue }) v.heap

expire-IsSound : (m : Service) → IsSound m → IsSound (expire m)
unfolding expire
expire-IsSound m v = record {
  heap = v.heap;
  watched = inl (is_pending-append m.queue expire_msg ∙ ground arith);
}

step-IsSound : (a : Action) (m : Service) → IsSound m → IsSound (step a m)
unfolding step start stop
step-IsSound (start_by client now ms) m v =
    Aside-IsSound m _ (start_timer-Aside client (deadline now ms) (m.timer_of client) m) v
step-IsSound (stop_by client) m v =
    Aside-IsSound m _ (stop_timer-Aside client (m.timer_of client) m) v
step-IsSound (kernel now) m v = elim (Bool-cases (m.polled && is_reached now m.armed)) [
  | inl e ↦ rw e (expire-IsSound m v)
  | inr e ↦ rw e v
]
step-IsSound (message now) m v = next_message-IsSound now m.queue m refl v

run-IsSound : (actions : List Action) (m : Service) → IsSound m → IsSound (run actions m)
unfolding run
run-IsSound [] m v = v
run-IsSound (a ∷ rest) m v = run-IsSound rest (step a m) (step-IsSound a m v)

not_sooner :
    (x d : Delegate) (t : Timespec)
    → out_ranks x d ≡ false
    → sooner d.future_time t ≡ false
    → sooner x.future_time t ≡ false
unfolding out_ranks
not_sooner x d t h k = ground arith

-- `d` is the soonest, so the time that the kernel has is late for none.
armed_for_all :
    (m : Service)
    → IsHeap out_ranks m.tree
    → TopIsArmed (soonest_timer m) m.polled m.armed
    → (contents m.tree ≡ []) ⊎ IsCovered m
armed_for_all m h a = elim (Option-cases (soonest_timer m)) [
  | inl e ↦ inl (peek-none out_ranks m.tree e)
  | inr (d, e) ↦
      let (polled, rest) = subst (λ c. TopIsArmed c m.polled m.armed) e a in
      let (t, armed, late) = rest in
      let under = peek-Under out_ranks out_ranks-IsRanking m.tree d h e in
      inr (polled, (t, armed, All-imp (λ x u. not_sooner x d t u late) (contents m.tree) under))
]

-- Whatever the clients, the kernel and the message thread do from the start on: a MsgTimerExpire
-- waits in the queue, or no timer is in the heap, or the kernel timer is polled and set for a time
-- that is not later than that of any timer in the heap.
pub run-watched :
    (actions : List Action)
    → let m = run actions new_service in
      (is_pending m.queue ≡ true) ⊎ (contents m.tree ≡ []) ⊎ IsCovered m
run-watched actions =
    let v =
      run-IsSound actions new_service
        (record { heap = tt; watched = inr (rw (peek_leaf out_ranks) tt) }) in
    elim v.watched [
      | inl pending ↦ inl pending
      | inr a ↦ inr (armed_for_all (run actions new_service) v.heap a)
    ]
