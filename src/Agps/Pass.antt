-- ===== src/Agps/Pass.antt =====
-- `notifySubscribers` as one pass over the list.
use android_device_samsung_a.Base.{
  ℕ, zero, suc, ◌<◌, ◌≡◌, refl, sym, ap, ap₂, ◌∙◌, subst, Bool, true, false, ◌||◌, Option, none,
  some, List, [], ◌∷◌, arith, length, inl, inr, Bool-cases, if◌then◌else◌,
}
use android_device_samsung_a.LinkedList.Abstract.{Found, search}
use android_device_samsung_a.Agps.Subscriber.{Subscriber, Notification}
use android_device_samsung_a.Agps.Machine.{Machine, notify_rsrc_status, notify_subscriber}
use android_device_samsung_a.Agps.Notify.{
  notify_loop, notify_subscribers, read_receiver, points_to, after_search,
}
use android_device_samsung_a.Agps.Told.{
  and_false, accepts, notify_rsrc_status-accepts, notify_rsrc_status-silent,
  notify_rsrc_status-subscribers,
}

-- Each subscriber in turn, from the head on.
abbrev pub tell_all : Notification → List Subscriber → Machine → Machine
tell_all n [] m = m
tell_all n (s ∷ xs) m = tell_all n xs (notify_rsrc_status n s m).1

tell_all-subscribers :
    (n : Notification) (ys : List Subscriber) (m : Machine) (xs : List Subscriber)
    → tell_all n ys (record m { subscribers = xs }) ≡ record (tell_all n ys m) { subscribers = xs }
tell_all-subscribers n [] m xs = refl
tell_all-subscribers n (s ∷ ys) m xs =
    rw (notify_rsrc_status-subscribers n s m xs)
      (tell_all-subscribers n ys (notify_rsrc_status n s m).1 xs)

pass_all :
    (n : Notification) (xs : List Subscriber) (k : Machine)
    → n.post_notify_delete ≡ false
    → (search (notify_subscriber n) xs k).env ≡ tell_all n xs k
unfolding notify_subscriber
pass_all n [] k h = refl
pass_all n (s ∷ xs) k h = simp (h, and_false) (pass_all n xs (notify_rsrc_status n s k).1 h)

-- A notification that deletes nobody reaches each subscriber once, in the order of the list.
pub notify_subscribers-tell_all :
    (n : Notification) (m : Machine)
    → n.post_notify_delete ≡ false
    → notify_subscribers n m ≡ tell_all n m.subscribers m
unfolding notify_subscribers
notify_subscribers-tell_all n m keep = simp keep (pass_all n m.subscribers m keep)

-- Who stays after a notification that deletes those whom it reaches.
abbrev pub keep : Notification → List Subscriber → List Subscriber
keep n [] = []
keep n (s ∷ xs) = if accepts n s then keep n xs else s ∷ keep n xs

-- A search that deletes: nobody accepts, or the first who does is found and told.
pub data Searched (n : Notification) (xs : List Subscriber) (m : Machine)
    (r : Found Subscriber Machine) : Type 0 where
  nobody :
      r.hit ≡ none
      → r.rest ≡ xs
      → r.env ≡ m
      → keep n xs ≡ xs
      → tell_all n xs m ≡ m
      → Searched n xs m r
  one :
      (s : Subscriber)
      → r.hit ≡ some s
      → r.env ≡ (notify_rsrc_status n s m).1
      → length xs ≡ suc (length r.rest)
      → keep n xs ≡ keep n r.rest
      → tell_all n xs m ≡ tell_all n r.rest r.env
      → accepts n s ≡ true
      → Searched n xs m r

Searched-cons :
    (n : Notification) (s : Subscriber) (xs : List Subscriber) (m : Machine)
    (r : Found Subscriber Machine)
    → accepts n s ≡ false
    → Searched n xs m r
    → Searched n (s ∷ xs) m (record { hit = r.hit; rest = s ∷ r.rest; env = r.env })
Searched-cons n s xs m r out (nobody h rest env kept quiet) =
    nobody h (ap (◌∷◌ s) rest) env (simp (out, kept))
      (simp (notify_rsrc_status-silent n s m out) quiet)
Searched-cons n s xs m r out (one t h env len kept run yes_t) =
    one t h env (ap suc len) (simp (out, kept))
      (simp (notify_rsrc_status-silent n s m out)
        (run ∙ sym (ap (tell_all n r.rest) (notify_rsrc_status-silent n s r.env out))))
      yes_t

search-Searched :
    (n : Notification) (xs : List Subscriber) (m : Machine)
    → n.post_notify_delete ≡ true
    → Searched n xs m (search (notify_subscriber n) xs m)
unfolding notify_subscriber
search-Searched n [] m h = nobody refl refl refl refl refl
search-Searched n (s ∷ xs) m h = elim (Bool-cases (accepts n s)) [
  | inl e ↦ rw (notify_rsrc_status-accepts n s m, e, h) (one s refl refl refl (simp e) refl e)
  | inr e ↦
      rw (notify_rsrc_status-accepts n s m, e, notify_rsrc_status-silent n s m e)
        (Searched-cons n s xs m (search (notify_subscriber n) xs m) e (search-Searched n xs m h))
]

read_receiver-subscribers :
    (d : Bool) (r : Option Subscriber) (m : Machine)
    → (read_receiver d r m).subscribers ≡ m.subscribers
read_receiver-subscribers d none m = refl
read_receiver-subscribers d (some r) m = ground arith

module _ (again : Subscriber → Machine → Machine) (r : Found Subscriber Machine) where
  after_none : r.hit ≡ none → after_search again r ≡ record (r.env) { subscribers = r.rest }
  after_none h = rw h

  after_some :
      (s : Subscriber)
      → r.hit ≡ some s
      → after_search again r ≡ again s (record (r.env) { subscribers = r.rest })
  after_some s h = rw h

-- The rounds behind the first.
abbrev next_round : ℕ → Notification → Bool → Subscriber → Machine → Machine
next_round fuel n d s m = notify_loop fuel n (d || points_to n.rcver s.addr) m

abbrev with_list : Machine → List Subscriber → Machine
with_list k xs = record k { subscribers = xs }

module _ (n : Notification) (deletes : n.post_notify_delete ≡ true) where
  -- The loop, with fuel for each subscriber, ends with those whom the notification does not reach.
  loop-keep :
      (fuel : ℕ) (d : Bool) (m : Machine)
      → length m.subscribers < fuel
      → (notify_loop fuel n d m).subscribers ≡ keep n m.subscribers
  unfolding notify_loop
  loop-keep zero d m enough = absurd (omega arith)
  loop-keep (suc fuel) d m enough =
      let m1 : Machine = read_receiver d n.rcver m in
      let same : m1.subscribers ≡ m.subscribers = read_receiver-subscribers d n.rcver m in
      let r = search (notify_subscriber n) m1.subscribers m1 in
      let again = next_round fuel n d in
      elim (search-Searched n m1.subscribers m1 deletes) [
        | nobody h rest env kept quiet ↦
            ap (λ k. k.subscribers) (after_none again r h) ∙ rest ∙ sym kept ∙ ap (keep n) same
        | one s h env len kept run e ↦
            ap (λ k. k.subscribers) (after_some again r s h)
            ∙ loop-keep fuel (d || points_to n.rcver s.addr) (with_list r.env r.rest)
                (omega (arith, len, ap length same))
            ∙ sym kept
            ∙ ap (keep n) same
      ]

  pub notify_subscribers-keep :
      (m : Machine) → (notify_subscribers n m).subscribers ≡ keep n m.subscribers
  unfolding notify_subscribers
  notify_subscribers-keep m =
      simp deletes (loop-keep (suc (length m.subscribers)) false m (omega arith))

  module _ (to_all : n.rcver ≡ none) where
    abbrev pub passed : Machine → Machine
    passed m = record (tell_all n m.subscribers m) { subscribers = keep n m.subscribers }

    receiver_none : (d : Bool) (m : Machine) → read_receiver d n.rcver m ≡ m
    receiver_none d m = subst (λ r. read_receiver d r m ≡ m) (sym to_all) refl

    loop-tell_all :
        (fuel : ℕ) (d : Bool) (m : Machine)
        → length m.subscribers < fuel
        → notify_loop fuel n d m ≡ passed m
    unfolding notify_loop
    loop-tell_all zero d m enough = absurd (omega arith)
    loop-tell_all (suc fuel) d m enough =
        let r = search (notify_subscriber n) m.subscribers m in
        let again = next_round fuel n d in
        subst (λ k. after_search again (search (notify_subscriber n) k.subscribers k) ≡ passed m)
          (sym (receiver_none d m))
          (elim (search-Searched n m.subscribers m deletes) [
            | nobody h rest env kept quiet ↦
                after_none again r h ∙ ap₂ with_list (env ∙ sym quiet) (rest ∙ sym kept)
            | one s h env len kept run e ↦
                after_some again r s h
                ∙ loop-tell_all fuel (d || points_to n.rcver s.addr) (with_list r.env r.rest)
                    (omega (arith, len))
                ∙ ap (λ k. with_list k (keep n r.rest)) (tell_all-subscribers n r.rest r.env r.rest)
                ∙ ap₂ with_list (sym run) (sym kept)
          ])

    -- A broadcast that deletes is one pass, for all its rounds: each subscriber whom it reaches is
    -- told once, in the order of the list, and just these leave the list.
    pub notify_subscribers-passed : (m : Machine) → notify_subscribers n m ≡ passed m
    unfolding notify_subscribers
    notify_subscribers-passed m =
        simp deletes (loop-tell_all (suc (length m.subscribers)) false m (omega arith))
