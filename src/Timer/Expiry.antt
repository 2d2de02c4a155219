-- ===== src/Timer/Expiry.antt =====
-- What one `MsgTimerExpire` takes out of the heap, and the time that `start` computes.
use mathlib.Core.List.{Perm}
use mathlib.Core.List.Perm
use android_device_samsung_a.Base.{
  ℕ, zero, suc, ◌+◌, ◌*◌, ◌<◌, ◌≤◌, ◌≡◌, refl, sym, ap, ◌∙◌, subst, true, false, Option, none, some,
  List, [], ◌∷◌, ◌++◌, arith, inl, inr, Bool-cases, All, All-imp,
}
use android_device_samsung_a.LocHeap.{Tree, leaf, single, pop, peek, remove, size_of}
use android_device_samsung_a.LocHeap.Order.{IsHeap, contents, peek-Under}
use android_device_samsung_a.LocHeap.Remove.{with_found}
use android_device_samsung_a.LocHeap.Top.{
  pop-peek, pop-perm, pop-IsHeap, size_of-pop, peek-size_of, peek-none, peek_leaf, remove-single,
}
use android_device_samsung_a.Timer.{
  Timespec, Delegate, sooner, out_ranks, same, Service, soonest_timer, delegate_expire, pop_due,
  expire_loop, expire_proc, remove_proc, same_pointer, deadline, update_soonest_time,
}
use android_device_samsung_a.Timer.Ranking.{same_refl, out_ranks-IsRanking}
use android_device_samsung_a.Timer.Watch.{delegate_expire-tree, pop_due-IsHeap}
use android_device_samsung_a.Timer.Armed.{update-tree}

-- The delegates that the loop has in hand, and the tree that is left.
abbrev popped : ℕ → Timespec → Option Delegate → Tree Delegate → List Delegate × Tree Delegate
popped zero now hit t = ([], t)
popped (suc k) now none t = ([], t)
popped (suc k) now (some d) t =
    let r = pop_due now (peek out_ranks t) t in let q = popped k now r.0 r.1 in (d ∷ q.0, q.1)

expire_loop-popped :
    (k : ℕ) (now : Timespec) (hit : Option Delegate) (m : Service)
    → (expire_loop k now hit m).tree ≡ (popped k now hit m.tree).1
unfolding expire_loop
expire_loop-popped zero now hit m = refl
expire_loop-popped (suc k) now none m = refl
expire_loop-popped (suc k) now (some d) m =
    let m1 = delegate_expire d m in
    let r = pop_due now (soonest_timer m1) m1.tree in
    expire_loop-popped k now r.0 (record m1 { tree = r.1 })
    ∙ ap (λ t. let s = pop_due now (peek out_ranks t) t in (popped k now s.0 s.1).1)
        (delegate_expire-tree d m)

abbrev held : Option Delegate → List Delegate → List Delegate
held = with_found out_ranks same

pop_due-perm :
    (now : Timespec) (hit : Option Delegate) (t : Tree Delegate)
    → let r = pop_due now hit t in Perm (held r.0 (contents r.1)) (contents t)
pop_due-perm now none t = Perm.refl _
pop_due-perm now (some d) t = elim (Bool-cases (sooner now d.future_time)) [
  | inl e ↦ rw e (Perm.refl _)
  | inr e ↦ rw e (pop-perm out_ranks same t)
]

-- A delegate whose time has come, or NULL.
abbrev IsDue : Timespec → Option Delegate → Type 0
IsDue now none = Unit {0}
IsDue now (some d) = sooner now d.future_time ≡ false

abbrev pub AllLater : Timespec → Tree Delegate → Type 0
AllLater now t = All (λ d. sooner now d.future_time ≡ true) (contents t)

-- Nothing in hand means that nothing is due.
abbrev IsSettled : Timespec → Option Delegate → Tree Delegate → Type 0
IsSettled now none t = AllLater now t
IsSettled now (some d) t = Unit {0}

abbrev in_hand : Option Delegate → ℕ
in_hand none = 0
in_hand (some d) = 1

in_hand-le : (o : Option Delegate) → in_hand o ≤ 1
in_hand-le none = omega arith
in_hand-le (some d) = omega arith

later_lem :
    (now : Timespec) (x d : Delegate)
    → out_ranks x d ≡ false
    → sooner now d.future_time ≡ true
    → sooner now x.future_time ≡ true
unfolding out_ranks
later_lem now x d u later = ground arith

later_all :
    (now : Timespec) (d : Delegate) (t : Tree Delegate)
    → IsHeap out_ranks t
    → peek out_ranks t ≡ some d
    → sooner now d.future_time ≡ true
    → AllLater now t
later_all now d t h e later =
    All-imp (λ x u. later_than x u) (contents t) (peek-Under out_ranks out_ranks-IsRanking t d h e)
  where
    later_than : (x : Delegate) → out_ranks x d ≡ false → sooner now x.future_time ≡ true
    later_than x u = later_lem now x d u later

pop_due-IsSettled :
    (now : Timespec) (hit : Option Delegate) (t : Tree Delegate)
    → peek out_ranks t ≡ hit
    → IsHeap out_ranks t
    → let r = pop_due now hit t in IsSettled now r.0 r.1
pop_due-IsSettled now none t e h = rw (peek-none out_ranks t e) tt
pop_due-IsSettled now (some d) t e h = elim (Bool-cases (sooner now d.future_time)) [
  | inl later ↦ rw later (later_all now d t h e later)
  | inr due ↦
      rw due (subst (λ o. IsSettled now o (pop out_ranks t).1) (sym (pop-peek out_ranks t ∙ e)) tt)
]

pop_due-IsDue :
    (now : Timespec) (hit : Option Delegate) (t : Tree Delegate)
    → peek out_ranks t ≡ hit
    → IsDue now (pop_due now hit t).0
pop_due-IsDue now none t e = tt
pop_due-IsDue now (some d) t e = elim (Bool-cases (sooner now d.future_time)) [
  | inl later ↦ rw later tt
  | inr due ↦ rw due (subst (IsDue now) (sym (pop-peek out_ranks t ∙ e)) due)
]

pop_due-size_of :
    (now : Timespec) (hit : Option Delegate) (t : Tree Delegate)
    → peek out_ranks t ≡ hit
    → IsHeap out_ranks t
    → let r = pop_due now hit t in size_of r.1 + in_hand r.0 ≤ size_of t
pop_due-size_of now none t e h = omega arith
pop_due-size_of now (some d) t e h = elim (Bool-cases (sooner now d.future_time)) [
  | inl later ↦ rw later (omega arith)
  | inr due ↦ rw due (
      omega (
        arith,
        size_of-pop out_ranks t h,
        peek-size_of out_ranks t d h e,
        in_hand-le (pop out_ranks t).0,
      ))
]

record Outcome (now : Timespec) (hit : Option Delegate) (t : Tree Delegate)
    (q : List Delegate × Tree Delegate) : Type 0 where
  perm : Perm (held hit (contents t)) (q.0 ++ contents q.1)
  due : IsDue now hit → All (λ d. sooner now d.future_time ≡ false) q.0
  later : AllLater now q.1

popped-Outcome :
    (k : ℕ) (now : Timespec) (hit : Option Delegate) (t : Tree Delegate)
    → size_of t + in_hand hit ≤ k
    → IsHeap out_ranks t
    → IsSettled now hit t
    → Outcome now hit t (popped k now hit t)
popped-Outcome zero now none t fuel h s = record { perm = Perm.refl _; due = λ d. tt; later = s }
popped-Outcome zero now (some d) t fuel h s = absurd (omega arith)
popped-Outcome (suc k) now none t fuel h s = record { perm = Perm.refl _; due = λ d. tt; later = s }
popped-Outcome (suc k) now (some d) t fuel h s =
    let r = pop_due now (peek out_ranks t) t in
    let rest =
      popped-Outcome k now r.0 r.1 (omega (arith, pop_due-size_of now (peek out_ranks t) t refl h))
        (pop_due-IsHeap now (peek out_ranks t) t h)
        (pop_due-IsSettled now (peek out_ranks t) t refl h) in
    record {
      perm = Perm.cons d (Perm.trans (Perm.symm (pop_due-perm now (peek out_ranks t) t)) rest.perm);
      due = λ now_due. (now_due, rest.due (pop_due-IsDue now (peek out_ranks t) t refl));
      later = rest.later;
    }

-- What the loop does after its first delegate.
after_first :
    (now : Timespec) (m : Service) (d : Delegate)
    → peek out_ranks m.tree ≡ some d
    → let t = (pop out_ranks m.tree).1 in
      let r = pop_due now (peek out_ranks t) t in
      (expire_proc now m).tree ≡ (popped (size_of m.tree) now r.0 r.1).1
unfolding expire_proc
after_first now m d e =
    let r = pop out_ranks m.tree in
    let k : Service = record m { tree = r.1 } in
    let n = size_of m.tree in
    update-tree none (expire_loop (suc n) now r.0 k)
    ∙ expire_loop-popped (suc n) now r.0 k
    ∙ ap (λ o. (popped (suc n) now o r.1).1) (pop-peek out_ranks m.tree ∙ e)

-- A MsgTimerExpire on a heap takes out the soonest delegate whatever its time, and then exactly
-- those whose time has come by `now`: of those that are left each has a later time.
pub expire_proc-exact :
    (now : Timespec) (m : Service) (d : Delegate)
    → IsHeap out_ranks m.tree
    → peek out_ranks m.tree ≡ some d
    → let k = expire_proc now m in
      (due : List Delegate) × Perm (d ∷ due ++ contents k.tree) (contents m.tree)
      × All (λ x. sooner now x.future_time ≡ false) due
      × All (λ x. sooner now x.future_time ≡ true) (contents k.tree)
expire_proc-exact now m d h e =
    let t = (pop out_ranks m.tree).1 in
    let ht : IsHeap out_ranks t = pop-IsHeap out_ranks out_ranks-IsRanking m.tree h in
    let r = pop_due now (peek out_ranks t) t in
    let rest =
      popped-Outcome (size_of m.tree) now r.0 r.1
        (omega
          (arith, pop_due-size_of now (peek out_ranks t) t refl ht, size_of-pop out_ranks m.tree h))
        (pop_due-IsHeap now (peek out_ranks t) t ht)
        (pop_due-IsSettled now (peek out_ranks t) t refl ht) in
    let whole : Perm (d ∷ contents t) (contents m.tree) =
      subst (λ o. Perm (held o (contents t)) (contents m.tree)) (pop-peek out_ranks m.tree ∙ e)
        (pop-perm out_ranks same m.tree) in
    let q = popped (size_of m.tree) now r.0 r.1 in
    (
      q.0,
      rw (after_first now m d e) (
          Perm.trans
            (Perm.cons d (Perm.trans (Perm.symm rest.perm) (pop_due-perm now (peek out_ranks t) t)))
            whole),
      rest.due (pop_due-IsDue now (peek out_ranks t) t refl),
      rw (after_first now m d e) rest.later,
    )

-- Where the last timer of the heap is removed the kernel timer stays set, and is still polled.
pub remove_proc-last :
    (d : Delegate) (m : Service)
    → m.tree ≡ single d
    → let k = remove_proc d m in
      (contents k.tree ≡ []) × (k.armed ≡ m.armed) × (k.polled ≡ m.polled)
unfolding remove_proc update_soonest_time
remove_proc-last d m e =
    let gone : remove out_ranks same d m.tree ≡ (some d, leaf) =
      ap (remove out_ranks same d) e ∙ remove-single out_ranks same d (same_refl d) in
    elim (Bool-cases (same_pointer (soonest_timer m) (some d))) [
      | inl b ↦ simp (gone, peek_leaf out_ranks, b) (refl, refl, refl)
      | inr b ↦ simp (gone, peek_leaf out_ranks, b) (refl, refl, refl)
    ]

-- From a clock value with fewer than 10^9 nanoseconds `start` computes one with fewer than 10^9
-- nanoseconds again, later by exactly the given milliseconds.
deadline-exact :
    (now : Timespec) (ms : ℕ)
    → now.tv_nsec < 1000000000
    → let t = deadline now ms in
      (t.tv_nsec < 1000000000)
      × (t.tv_sec * 1000000000 + t.tv_nsec ≡ now.tv_sec * 1000000000 + now.tv_nsec + ms * 1000000)
unfolding deadline
deadline-exact now ms h = ground arith
