-- ===== src/LocHeap/Top.antt =====
-- The top of the heap under its operations, and `pop` on any heap.
use mathlib.Core.List.{Perm}
use mathlib.Core.List.Perm
use android_device_samsung_a.Base.{
  [], ℕ, ◌-◌, ◌≤◌, ◌≡◌, refl, ap, Bool, true, Option, none, some, arith, inl, inr, ◌⊎◌,
}
use android_device_samsung_a.LocHeap.{
  Tree, single, size_of, leaf, node, push, pop, pop_top, peek, remove, remove_node, winner,
}
use android_device_samsung_a.LocHeap.Order.{IsRanking, IsHeap, contents}
use android_device_samsung_a.LocHeap.Pop.{
  size_of-pop_top, pop_top-data, pop_top-IsHeap, pop_top-perm,
}
use android_device_samsung_a.LocHeap.Remove.{remove_cases, with_found}

module _ {D : Type 0} (out_ranks : D → D → Bool) where
  abbrev pub top_with : D → Option D → D
  top_with x none = x
  top_with x (some c) = winner out_ranks x c

  pub peek-push :
      (x : D) (t : Tree D)
      → peek out_ranks (push out_ranks x t) ≡ some (top_with x (peek out_ranks t))
  unfolding peek push
  peek-push x leaf = refl
  peek-push x (node n d leaf r) = refl
  peek-push x (node n d (node nl dl ll lr) leaf) = refl
  peek-push x (node n d (node nl dl ll lr) (node nr dr rl rr)) = ground arith

  pub peek_leaf : peek out_ranks leaf ≡ none
  unfolding peek
  peek_leaf = refl

  pub peek_node : (n : ℕ) (d : D) (l r : Tree D) → peek out_ranks (node n d l r) ≡ some d
  unfolding peek
  peek_node n d l r = refl

  pub peek-none : (t : Tree D) → peek out_ranks t ≡ none → contents t ≡ []
  unfolding peek
  peek-none leaf e = refl
  peek-none (node n d l r) e = cc

  -- A removal takes out the top, or leaves it on top.
  pub peek-remove :
      (same : D → D → Bool) (x : D) (t : Tree D)
      → let r = remove out_ranks same x t in
        (r.0 ≡ peek out_ranks t) ⊎ (peek out_ranks r.1 ≡ peek out_ranks t)
  unfolding peek remove remove_node
  peek-remove same x leaf = inl refl
  peek-remove same x (node n d l r) =
      remove_cases out_ranks same (λ q. (q.0 ≡ some d) ⊎ (peek out_ranks q.1 ≡ some d)) x n d l r
        (λ e. inl (ap some (pop_top-data out_ranks d (node n d l r)))) (λ e up. inr refl)
        (λ y e. inr refl) (λ y e. inr refl) (inr refl)

  pub pop-peek : (t : Tree D) → (pop out_ranks t).0 ≡ peek out_ranks t
  unfolding pop peek
  pop-peek leaf = refl
  pop-peek (node n d l r) = ap some (pop_top-data out_ranks d (node n d l r))

  pub pop-perm :
      (same : D → D → Bool) (t : Tree D)
      → let r = pop out_ranks t in Perm (with_found out_ranks same r.0 (contents r.1)) (contents t)
  unfolding pop
  pop-perm same leaf = Perm.refl _
  pop-perm same (node n d l r) =
      rw (pop_top-data out_ranks d (node n d l r)) (pop_top-perm out_ranks d (node n d l r))

  pub pop-IsHeap :
      IsRanking out_ranks → (t : Tree D) → IsHeap out_ranks t → IsHeap out_ranks (pop out_ranks t).1
  unfolding pop
  pop-IsHeap rank leaf v = tt
  pop-IsHeap rank (node n d l r) v = pop_top-IsHeap out_ranks rank d (node n d l r) v

  pub size_of-pop : (t : Tree D) → IsHeap out_ranks t → size_of (pop out_ranks t).1 ≡ size_of t - 1
  unfolding pop
  size_of-pop leaf v = refl
  size_of-pop (node n d l r) v = size_of-pop_top out_ranks d (node n d l r) v

  pub peek-size_of :
      (t : Tree D) (d : D) → IsHeap out_ranks t → peek out_ranks t ≡ some d → 1 ≤ size_of t
  unfolding peek
  peek-size_of leaf d v e = cc
  peek-size_of (node n c l r) d v e = omega arith

  pub remove-single :
      (same : D → D → Bool) (d : D)
      → same d d ≡ true
      → remove out_ranks same d (single d) ≡ (some d, leaf)
  unfolding remove remove_node pop_top
  remove-single same d h = simp h
