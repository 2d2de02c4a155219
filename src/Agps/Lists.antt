-- ===== src/Agps/Lists.antt =====
-- What the operations on subscribers make of the list.
use android_device_samsung_a.Base.{
  ℕ, ◌≡◌, refl, ap, ◌∙◌, Bool, true, false, List, [], ◌∷◌, arith, inl, inr, Bool-cases,
  if◌then◌else◌,
}
use android_device_samsung_a.LinkedList.Abstract.{find}
use android_device_samsung_a.Agps.Subscriber.{
  RsrcStatus, Subscriber, Notification, for_me, to_one, to_group, inactive, clone, broadcast,
  broadcast_all, broadcast_active, broadcast_inactive,
}
use android_device_samsung_a.Agps.Machine.{
  Machine, is_some, nonempty, find_for, notify_rsrc_status, base_send_rsrc_request, StatusValue,
}
use android_device_samsung_a.Agps.Notify.{notify_subscribers, add_subscriber}
use android_device_samsung_a.Agps.Pass.{
  tell_all, notify_subscribers-tell_all, notify_subscribers-keep, keep,
}
use android_device_samsung_a.Agps.Told.{notify_rsrc_status-subscribers, told, and_false}

-- Some subscriber is active.
abbrev pub active : List Subscriber → Bool
active xs = is_some (find (for_me (to_group broadcast_active)) xs)

pub active-cons :
    (s : Subscriber) (xs : List Subscriber)
    → active (s ∷ xs) ≡ (if inactive s then active xs else true)
active-cons s xs = ground arith

pub active-nonempty : (xs : List Subscriber) → active xs ≡ true → nonempty xs ≡ true
active-nonempty [] h = cc
active-nonempty (s ∷ xs) h = refl

pub notify_rsrc_status-list :
    (n : Notification) (s : Subscriber) (m : Machine)
    → (notify_rsrc_status n s m).1.subscribers ≡ m.subscribers
notify_rsrc_status-list n s m =
    ap (λ k. k.subscribers) (notify_rsrc_status-subscribers n s m m.subscribers)

tell_all-list :
    (n : Notification) (xs : List Subscriber) (m : Machine)
    → (tell_all n xs m).subscribers ≡ m.subscribers
tell_all-list n [] m = refl
tell_all-list n (s ∷ xs) m =
    tell_all-list n xs (notify_rsrc_status n s m).1 ∙ notify_rsrc_status-list n s m

-- Without deletion the list stays.
pub notify_subscribers-list :
    (n : Notification) (m : Machine)
    → n.post_notify_delete ≡ false
    → (notify_subscribers n m).subscribers ≡ m.subscribers
notify_subscribers-list n m h =
    ap (λ k. k.subscribers) (notify_subscribers-tell_all n m h) ∙ tell_all-list n m.subscribers m

-- A broadcast to all that deletes empties the list.
keep-all :
    (status : RsrcStatus) (xs : List Subscriber)
    → told status ≡ true
    → keep (broadcast broadcast_all status true) xs ≡ []
keep-all status [] h = refl
keep-all status (s ∷ xs) h = simp h (keep-all status xs h)

pub notify_all-list :
    (status : RsrcStatus) (m : Machine)
    → told status ≡ true
    → (notify_subscribers (broadcast broadcast_all status true) m).subscribers ≡ []
notify_all-list status m h =
    notify_subscribers-keep (broadcast broadcast_all status true) refl m
    ∙ keep-all status m.subscribers h

-- Who is left after a broadcast to the inactive is active.
keep-active :
    (status : RsrcStatus) (xs : List Subscriber)
    → told status ≡ true
    → let ys = keep (broadcast broadcast_inactive status true) xs in active ys ≡ nonempty ys
keep-active status [] h = refl
keep-active status (s ∷ xs) h = elim (Bool-cases (inactive s)) [
  | inl e ↦ simp (e, h) (keep-active status xs h)
  | inr e ↦ simp (e, h)
]

pub notify_inactive-active :
    (status : RsrcStatus) (m : Machine)
    → told status ≡ true
    → let ys = (notify_subscribers (broadcast broadcast_inactive status true) m).subscribers in
      active ys ≡ nonempty ys
notify_inactive-active status m h =
    rw (notify_subscribers-keep (broadcast broadcast_inactive status true) refl m)
      (keep-active status m.subscribers h)

pub base_send-list :
    (a : StatusValue) (m : Machine) → (base_send_rsrc_request a m).1.subscribers ≡ m.subscribers
unfolding base_send_rsrc_request
base_send-list a m = ground arith

find-nonempty :
    (t : Subscriber → Bool) (xs : List Subscriber) → is_some (find t xs) ≡ true → nonempty xs ≡ true
find-nonempty t [] h = cc
find-nonempty t (s ∷ xs) h = refl

clone-active : (a : ℕ) (s : Subscriber) (xs : List Subscriber) → active (clone a s ∷ xs) ≡ true
clone-active a s xs = active-cons (clone a s) xs ∙ simp and_false

-- After `addSubscriber` somebody is subscribed, and no active subscriber is lost.
pub add_subscriber-nonempty :
    (s : Subscriber) (m : Machine) → nonempty (add_subscriber s m).subscribers ≡ true
unfolding add_subscriber
add_subscriber-nonempty s m = elim (Bool-cases (is_some (find_for (to_one s) m))) [
  | inl e ↦ rw e (find-nonempty (for_me (to_one s)) m.subscribers e)
  | inr e ↦ rw e
]

pub add_subscriber-active :
    (s : Subscriber) (m : Machine)
    → active m.subscribers ≡ true
    → active (add_subscriber s m).subscribers ≡ true
unfolding add_subscriber
add_subscriber-active s m h = elim (Bool-cases (is_some (find_for (to_one s) m))) [
  | inl e ↦ rw e h
  | inr e ↦ rw e (clone-active m.next_addr s m.subscribers)
]

-- Into an empty list an active subscriber comes.
pub add_subscriber-first :
    (s : Subscriber) (m : Machine)
    → m.subscribers ≡ []
    → active (add_subscriber s m).subscribers ≡ true
unfolding add_subscriber
add_subscriber-first s m h = simp h (clone-active m.next_addr s [])
