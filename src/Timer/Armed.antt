-- ===== src/Timer/Armed.antt =====
-- What the messages of the container do to the watch of the kernel timer over the soonest timer.
use android_device_samsung_a.Base.{
  ◌≡◌, refl, sym, ap, ◌∙◌, subst, Bool, true, false, ◌||◌, Option, none, some, List, [], ◌∷◌, ◌++◌,
  arith, inl, inr, ◌⊎◌, Bool-cases, if◌then◌else◌,
}
use android_device_samsung_a.LocHeap.{push, peek, remove}
use android_device_samsung_a.LocHeap.Order.{IsHeap}
use android_device_samsung_a.LocHeap.Push.{push-IsHeap}
use android_device_samsung_a.LocHeap.Remove.{remove-exact}
use android_device_samsung_a.LocHeap.Top.{peek-push, peek-remove, top_with}
use android_device_samsung_a.Timer.{
  Timespec, Delegate, sooner, out_ranks, same, same_pointer, Msg, push_msg, remove_msg, expire_msg,
  Service, soonest_timer, reset_kernel, update_soonest_time, push_proc, remove_proc,
}
use android_device_samsung_a.Timer.Ranking.{
  out_ranks-IsRanking, same-IsSame, same_refl, sooner_irrefl,
}

abbrev pub is_expire : Msg → Bool
is_expire (push_msg d) = false
is_expire (remove_msg d) = false
is_expire expire_msg = true

abbrev pub is_pending : List Msg → Bool
is_pending [] = false
is_pending (msg ∷ queue) = is_expire msg || is_pending queue

-- The kernel timer is set for no later time than that of `d`.
abbrev IsArmed : Delegate → Bool → Option Timespec → Type 0
IsArmed d polled armed =
    (polled ≡ true) × ((t : Timespec) × (armed ≡ some t) × (sooner d.future_time t ≡ false))

abbrev pub TopIsArmed : Option Delegate → Bool → Option Timespec → Type 0
TopIsArmed none polled armed = Unit {0}
TopIsArmed (some d) polled armed = IsArmed d polled armed

abbrev Watched : Service → Type 0
Watched m = (is_pending m.queue ≡ true) ⊎ TopIsArmed (soonest_timer m) m.polled m.armed

pub record IsSound (m : Service) : Type 0 where
  pub heap : IsHeap out_ranks m.tree
  pub watched : Watched m

pub is_pending-append :
    (q : List Msg) (msg : Msg) → is_pending (q ++ msg ∷ []) ≡ (is_pending q || is_expire msg)
is_pending-append [] msg = ground arith
is_pending-append (x ∷ q) msg = ground (arith, is_pending-append q msg)

reset-TopIsArmed :
    (cur : Option Delegate) (m : Service)
    → let r = (if same_pointer cur none then m else reset_kernel cur none m) in
      TopIsArmed cur r.polled r.armed
reset-TopIsArmed none m = tt
reset-TopIsArmed (some t) m = (refl, (t.future_time, refl, sooner_irrefl t.future_time))

-- The kernel is told of the soonest timer.
update_none-TopIsArmed :
    (m : Service)
    → let r = update_soonest_time none m in TopIsArmed (soonest_timer m) r.polled r.armed
unfolding update_soonest_time
update_none-TopIsArmed m = reset-TopIsArmed (soonest_timer m) m

reset-tree : (cur prior : Option Delegate) (m : Service) → (reset_kernel cur prior m).tree ≡ m.tree
reset-tree none prior m = refl
reset-tree (some t) none m = refl
reset-tree (some t) (some p) m = ground arith

reset-queue :
    (cur prior : Option Delegate) (m : Service) → (reset_kernel cur prior m).queue ≡ m.queue
reset-queue none prior m = refl
reset-queue (some t) none m = refl
reset-queue (some t) (some p) m = ground arith

pub update-tree :
    (prior : Option Delegate) (m : Service) → (update_soonest_time prior m).tree ≡ m.tree
unfolding update_soonest_time
update-tree prior m = elim (Bool-cases (same_pointer (soonest_timer m) prior)) [
  | inl e ↦ rw e
  | inr e ↦ rw (e, reset-tree (soonest_timer m) prior m)
]

update-queue :
    (prior : Option Delegate) (m : Service) → (update_soonest_time prior m).queue ≡ m.queue
unfolding update_soonest_time
update-queue prior m = elim (Bool-cases (same_pointer (soonest_timer m) prior)) [
  | inl e ↦ rw e
  | inr e ↦ rw (e, reset-queue (soonest_timer m) prior m)
]

pub update_none-IsSound :
    (m : Service) → IsHeap out_ranks m.tree → IsSound (update_soonest_time none m)
update_none-IsSound m h = record {
  heap = rw (update-tree none m) h;
  watched = inr (rw (update-tree none m) (update_none-TopIsArmed m));
}

outranks_not_same : (d c : Delegate) → out_ranks d c ≡ true → same d c ≡ false
unfolding out_ranks same
outranks_not_same d c h = ground arith

-- A new top that comes from a push.
pushed-TopIsArmed :
    (d : Delegate) (prior : Option Delegate) (m : Service)
    → TopIsArmed prior m.polled m.armed
    → let cur = some (top_with out_ranks d prior) in
      let r = (if same_pointer cur prior then m else reset_kernel cur prior m) in
      TopIsArmed cur r.polled r.armed
pushed-TopIsArmed d none m a = (refl, (d.future_time, refl, sooner_irrefl d.future_time))
pushed-TopIsArmed d (some c) m a = elim (Bool-cases (out_ranks d c)) [
  | inl e ↦
      simp (e, outranks_not_same d c e) (refl, (d.future_time, refl, sooner_irrefl d.future_time))
  | inr e ↦ simp (e, same_refl c) a
]

update-TopIsArmed :
    (d : Delegate) (prior : Option Delegate) (m : Service)
    → soonest_timer m ≡ some (top_with out_ranks d prior)
    → TopIsArmed prior m.polled m.armed
    → let r = update_soonest_time prior m in
      TopIsArmed (some (top_with out_ranks d prior)) r.polled r.armed
unfolding update_soonest_time
update-TopIsArmed d prior m e a =
    subst
      (λ cur.
        let r = (if same_pointer cur prior then m else reset_kernel cur prior m) in
        TopIsArmed (some (top_with out_ranks d prior)) r.polled r.armed)
      (sym e) (pushed-TopIsArmed d prior m a)

pub push_proc-IsSound : (d : Delegate) (m : Service) → IsSound m → IsSound (push_proc d m)
unfolding push_proc
push_proc-IsSound d m v =
    let prior = soonest_timer m in
    let k : Service = record m { tree = push out_ranks d m.tree } in
    record {
      heap = rw (update-tree prior k) (push-IsHeap out_ranks out_ranks-IsRanking d m.tree v.heap);
      watched = elim v.watched [
        | inl pending ↦ inl (rw (update-queue prior k) pending)
        | inr a ↦ inr (
            subst (λ c. let u = update_soonest_time prior k in TopIsArmed c u.polled u.armed)
              (sym (ap (peek out_ranks) (update-tree prior k) ∙ peek-push out_ranks d m.tree))
              (update-TopIsArmed d prior k (peek-push out_ranks d m.tree) a))
      ];
    }

same_pointer_refl : (o : Option Delegate) → same_pointer o o ≡ true
same_pointer_refl none = refl
same_pointer_refl (some d) = same_refl d

-- Where the top stays, so does the watch.
keep_watch :
    (d : Delegate) (m : Service)
    → IsSound m
    → let r = remove out_ranks same d m.tree in
      same_pointer (soonest_timer m) r.0 ≡ false
      → Watched (record m { tree = r.1; deleted = d.addr ∷ m.deleted })
keep_watch d m v e = elim (peek-remove out_ranks same d m.tree) [
  | inl top ↦ absurd (
      true_false (
        sym (same_pointer_refl (soonest_timer m))
        ∙ ap (same_pointer (soonest_timer m)) (sym top)
        ∙ e))
  | inr stays ↦ elim v.watched [ inl pending ↦ inl pending | inr a ↦ inr (rw stays a) ]
]
  where
    true_false : true ≡ false → ⊥
    true_false h = cc

pub remove_proc-IsSound : (d : Delegate) (m : Service) → IsSound m → IsSound (remove_proc d m)
unfolding remove_proc
remove_proc-IsSound d m v =
    let r = remove out_ranks same d m.tree in
    let k : Service = record m { tree = r.1; deleted = d.addr ∷ m.deleted } in
    let h : IsHeap out_ranks r.1 =
      (remove-exact out_ranks same out_ranks-IsRanking same-IsSame d m.tree v.heap).2 in
    elim (Bool-cases (same_pointer (soonest_timer m) r.0)) [
      | inl e ↦ rw e (update_none-IsSound k h)
      | inr e ↦ rw e (record { heap = h; watched = keep_watch d m v e })
    ]
