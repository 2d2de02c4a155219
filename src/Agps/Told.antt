-- ===== src/Agps/Told.antt =====
-- Who accepts a notification, what it is told, and that the list plays no part in that.
use android_device_samsung_a.Base.{
  ◌≡◌, refl, Bool, true, false, ◌&&◌, List, arith, inl, inr, Bool-cases,
}
use android_device_samsung_a.Agps.Subscriber.{
  RsrcStatus, subscribe, unsubscribe, granted, released, denied, status_max, Kind, bit, atl, wifi,
  ds, Subscriber, Notification, for_me,
}
use android_device_samsung_a.Agps.Machine.{Machine, kind_notify, notify_rsrc_status}

pub and_false : (b : Bool) → (b && false) ≡ false
and_false true = refl
and_false false = refl

-- The events that each `notifyRsrcStatus` passes on.
abbrev pub told : RsrcStatus → Bool
told subscribe = false
told unsubscribe = true
told granted = true
told released = true
told denied = true
told status_max = false

abbrev pub accepts : Notification → Subscriber → Bool
accepts n s = for_me n s && told n.rsrc_status

kind_notify-told :
    (k : Kind) (status : RsrcStatus) (s : Subscriber) (m : Machine)
    → (kind_notify k status s m).0 ≡ told status
kind_notify-told bit unsubscribe s m = refl
kind_notify-told bit granted s m = refl
kind_notify-told bit released s m = refl
kind_notify-told bit denied s m = refl
kind_notify-told bit subscribe s m = refl
kind_notify-told bit status_max s m = refl
kind_notify-told atl unsubscribe s m = refl
kind_notify-told atl granted s m = refl
kind_notify-told atl released s m = refl
kind_notify-told atl denied s m = refl
kind_notify-told atl subscribe s m = refl
kind_notify-told atl status_max s m = refl
kind_notify-told wifi unsubscribe s m = refl
kind_notify-told wifi granted s m = refl
kind_notify-told wifi released s m = refl
kind_notify-told wifi denied s m = refl
kind_notify-told wifi subscribe s m = refl
kind_notify-told wifi status_max s m = refl
kind_notify-told ds unsubscribe s m = refl
kind_notify-told ds granted s m = refl
kind_notify-told ds released s m = refl
kind_notify-told ds denied s m = refl
kind_notify-told ds subscribe s m = refl
kind_notify-told ds status_max s m = refl

pub notify_rsrc_status-accepts :
    (n : Notification) (s : Subscriber) (m : Machine) → (notify_rsrc_status n s m).0 ≡ accepts n s
unfolding notify_rsrc_status
notify_rsrc_status-accepts n s m = elim (Bool-cases (for_me n s)) [
  | inl e ↦ rw e (kind_notify-told s.kind n.rsrc_status s m)
  | inr e ↦ rw e
]

kind_notify-silent :
    (k : Kind) (status : RsrcStatus) (s : Subscriber) (m : Machine)
    → told status ≡ false
    → (kind_notify k status s m).1 ≡ m
kind_notify-silent bit subscribe s m e = refl
kind_notify-silent atl subscribe s m e = refl
kind_notify-silent wifi subscribe s m e = refl
kind_notify-silent ds subscribe s m e = refl
kind_notify-silent bit status_max s m e = refl
kind_notify-silent atl status_max s m e = refl
kind_notify-silent wifi status_max s m e = refl
kind_notify-silent ds status_max s m e = refl
kind_notify-silent k unsubscribe s m e = cc
kind_notify-silent k granted s m e = cc
kind_notify-silent k released s m e = cc
kind_notify-silent k denied s m e = cc

-- Who does not accept a notification does nothing.
pub notify_rsrc_status-silent :
    (n : Notification) (s : Subscriber) (m : Machine)
    → accepts n s ≡ false
    → (notify_rsrc_status n s m).1 ≡ m
unfolding notify_rsrc_status
notify_rsrc_status-silent n s m h = elim (Bool-cases (for_me n s)) [
  | inl e ↦ rw e (kind_notify-silent s.kind n.rsrc_status s m (ground arith))
  | inr e ↦ rw e
]

-- The list does not matter for what is told.
kind_notify-subscribers :
    (k : Kind) (status : RsrcStatus) (s : Subscriber) (m : Machine) (xs : List Subscriber)
    → (kind_notify k status s (record m { subscribers = xs })).1
      ≡ record ((kind_notify k status s m).1) { subscribers = xs }
kind_notify-subscribers bit unsubscribe s m xs = refl
kind_notify-subscribers bit granted s m xs = refl
kind_notify-subscribers bit released s m xs = refl
kind_notify-subscribers bit denied s m xs = refl
kind_notify-subscribers bit subscribe s m xs = refl
kind_notify-subscribers bit status_max s m xs = refl
kind_notify-subscribers atl unsubscribe s m xs = refl
kind_notify-subscribers atl granted s m xs = refl
kind_notify-subscribers atl released s m xs = refl
kind_notify-subscribers atl denied s m xs = refl
kind_notify-subscribers atl subscribe s m xs = refl
kind_notify-subscribers atl status_max s m xs = refl
kind_notify-subscribers wifi unsubscribe s m xs = refl
kind_notify-subscribers wifi granted s m xs = refl
kind_notify-subscribers wifi released s m xs = refl
kind_notify-subscribers wifi denied s m xs = refl
kind_notify-subscribers wifi subscribe s m xs = refl
kind_notify-subscribers wifi status_max s m xs = refl
kind_notify-subscribers ds unsubscribe s m xs = refl
kind_notify-subscribers ds granted s m xs = refl
kind_notify-subscribers ds released s m xs = refl
kind_notify-subscribers ds denied s m xs = refl
kind_notify-subscribers ds subscribe s m xs = refl
kind_notify-subscribers ds status_max s m xs = refl

pub notify_rsrc_status-subscribers :
    (n : Notification) (s : Subscriber) (m : Machine) (xs : List Subscriber)
    → (notify_rsrc_status n s (record m { subscribers = xs })).1
      ≡ record ((notify_rsrc_status n s m).1) { subscribers = xs }
unfolding notify_rsrc_status
notify_rsrc_status-subscribers n s m xs = elim (Bool-cases (for_me n s)) [
  | inl e ↦ rw e (kind_notify-subscribers s.kind n.rsrc_status s m xs)
  | inr e ↦ rw e
]
