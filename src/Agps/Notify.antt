-- ===== src/Agps/Notify.antt =====
-- The subscriber list: `notifySubscribers`, `addSubscriber`, `setInactive`.
use android_device_samsung_a.Base.{
  ℕ, zero, suc, Bool, true, false, ◌&&◌, ◌||◌, Option, none, some, ◌∷◌, ◌==◌, map, length,
  if◌then◌else◌,
}
use android_device_samsung_a.LinkedList.Abstract.{Found, search}
use android_device_samsung_a.Agps.Subscriber.{
  Kind, bit, atl, wifi, ds, Subscriber, Notification, unsubscribe, to_one, clone,
}
use android_device_samsung_a.Agps.Machine.{
  Machine, read_freed, emit, inform_status, notify_subscriber, find_for, nonempty, is_some,
}

-- Whether the notification points to the object at `addr`.
abbrev pub points_to : Option Subscriber → ℕ → Bool
points_to none addr = false
points_to (some r) addr = r.addr == addr

-- The first callback of a search reads the receiver, which may be an object deleted before.
abbrev pub read_receiver : (deleted : Bool) → Option Subscriber → Machine → Machine
read_receiver deleted none m = m
read_receiver deleted (some r) m =
    if deleted && nonempty m.subscribers then emit (read_freed r.addr) m else m

-- What a round does with what its search found: `again` is the next round.
abbrev pub after_search : (Subscriber → Machine → Machine) → Found Subscriber Machine → Machine
after_search again r = elim r.hit [
  | none ↦ record (r.env) { subscribers = r.rest }
  | some s ↦ again s (record (r.env) { subscribers = r.rest })
]

-- `while (NULL != s)`: each round searches from the head, and deletes what it finds. That memory
-- still reads as it did before `delete` is assumed; that it is read is in the log.
unfoldable pub notify_loop : ℕ → Notification → (deleted : Bool) → Machine → Machine
notify_loop zero n deleted m = m
notify_loop (suc fuel) n deleted m =
    let m1 = read_receiver deleted n.rcver m in
    after_search (λ s m2. notify_loop fuel n (deleted || points_to n.rcver s.addr) m2)
      (search (notify_subscriber n) m1.subscribers m1)

-- `notifySubscribers`
unfoldable pub notify_subscribers : Notification → Machine → Machine
unfolding notify_loop
notify_subscribers n m =
    if n.post_notify_delete
    then notify_loop (suc (length m.subscribers)) n false m
    else (search (notify_subscriber n) m.subscribers m).env

-- `addSubscriber`
unfoldable pub add_subscriber : Subscriber → Machine → Machine
add_subscriber s m =
    if is_some (find_for (to_one s) m)
    then m
    else record m { subscribers = clone m.next_addr s ∷ m.subscribers; next_addr = suc m.next_addr }

-- `mIsInactive = true` in the object at `addr`.
abbrev pub deactivate : ℕ → Subscriber → Subscriber
deactivate addr s = if s.addr == addr then record s { is_inactive = true } else s

abbrev pub set_flag : ℕ → Machine → Machine
set_flag addr m = record m { subscribers = map (deactivate addr) m.subscribers }

-- `setInactive`, by the class of the object.
abbrev pub kind_set_inactive : Kind → Subscriber → Machine → Machine
kind_set_inactive bit s m = m
kind_set_inactive atl s m = m
kind_set_inactive wifi s m = set_flag s.addr m
kind_set_inactive ds s m = inform_status unsubscribe s.id (set_flag s.addr m)

abbrev pub set_inactive : Subscriber → Machine → Machine
set_inactive s m = kind_set_inactive s.kind s m
