-- ===== src/LocHeap/Remove.antt =====
-- `remove` finds data by its address, although it leaves out what the ranking rules out.
use mathlib.Core.List.{Perm, perm_middle}
use mathlib.Core.List.Perm
use native.Mathlib.Nat.{add_comm}
use android_device_samsung_a.Base.{
  ℕ, suc, ◌+◌, ◌-◌, ◌≡◌, refl, ap, Bool, true, false, ◌||◌, List, ◌∷◌, arith, inl, inr, Bool-cases,
  Option, some, none, subst, Option-cases, ◌∙◌, sym, if◌then◌else◌,
}
use android_device_samsung_a.LocHeap.{
  Tree, leaf, node, size_of, above, pop_top, remove_node, remove, is_some,
}
use android_device_samsung_a.LocHeap.Order.{IsRanking, IsHeap, contents, self}
use android_device_samsung_a.LocHeap.Pop.{
  pop_top-data, size_of-pop_top, above-pop_top, pop_top-IsHeap, pop_top-perm,
}

-- Addresses: `same` decides equality.
pub record IsSame {D : Type 0} (same : D → D → Bool) : Type 0 where
  pub sound : (a b : D) → same a b ≡ true → a ≡ b
  pub complete : (a : D) → same a a ≡ true

module _ {D : Type 0} (out_ranks same : D → D → Bool) where
  -- Whether the tree has the data, by a search with no cut.
  abbrev pub holds : D → Tree D → Bool
  holds x leaf = false
  holds x (node n d l r) = same x d || holds x l || holds x r

  -- The branches of `remove_node`, with what the tests say in each.
  pub remove_cases :
      (P : Option D × Tree D → Type 0) (x : D) (n : ℕ) (d : D) (l r : Tree D)
      → (same x d ≡ true
          → P (some (pop_top out_ranks d (node n d l r)).0, (pop_top out_ranks d (node n d l r)).1))
      → (same x d ≡ false → out_ranks x d ≡ true → P (none, node n d l r))
      → ((y : D)
          → (remove_node out_ranks same x l).0 ≡ some y
          → P (some y, node (n - 1) d (remove_node out_ranks same x l).1 r))
      → ((y : D)
          → (remove_node out_ranks same x r).0 ≡ some y
          → P (some y, node (n - 1) d l (remove_node out_ranks same x r).1))
      → P (none, node n d l r)
      → P (remove_node out_ranks same x (node n d l r))
  unfolding remove_node
  remove_cases P x n d l r top cut left right missing = elim (Bool-cases (same x d)) [
    | inl e ↦ rw e (top e)
    | inr e ↦ elim (Bool-cases (out_ranks x d)) [
      | inl up ↦ rw (e, up) (cut e up)
      | inr down ↦ elim (Option-cases (remove_node out_ranks same x l).0) [
        | inr (y, h) ↦ rw (e, down, h) (left y h)
        | inl no_left ↦ elim (Option-cases (remove_node out_ranks same x r).0) [
          | inr (y, h) ↦ rw (e, down, no_left, h) (right y h)
          | inl no_right ↦ rw (e, down, no_left, no_right) missing
        ]
      ]
    ]
  ]

  abbrev pub with_found : Option D → List D → List D
  with_found none xs = xs
  with_found (some x) xs = x ∷ xs

  found_in :
      {o : Option D} {xs ys : List D} (y : D)
      → o ≡ some y
      → Perm (with_found o xs) ys
      → Perm (y ∷ xs) ys
  found_in {xs} {ys} y e p = subst (λ o. Perm (with_found o xs) ys) e p

  less :
      (a b : ℕ) {o : Option D} {n s : ℕ} {y : D}
      → o ≡ some y
      → a + (if is_some o then 1 else 0) ≡ s
      → n ≡ suc (s + b)
      → n - 1 ≡ suc (a + b)
  less a b {n} {s} e h k =
      let h' : a + 1 ≡ s = subst (λ o. a + (if is_some o then 1 else 0) ≡ s) e h in omega arith

  module _ (rank : IsRanking out_ranks) (addr : IsSame same) where
    -- In a tree with nothing above `x` at its top there is no `x` outranking it.
    not-holds :
        (x b : D) (t : Tree D)
        → IsHeap out_ranks t
        → above out_ranks t b ≡ false
        → out_ranks x b ≡ true
        → holds x t ≡ false
    not-holds x b leaf v h k = refl
    not-holds x b (node n d l r) v h k = elim (Bool-cases (out_ranks x d)) [
      | inl up ↦ ground (
        arith,
        not-holds x d l v.3 v.0 up,
        not-holds x d r v.4 v.1 up,
        addr.sound x d,
        self out_ranks rank x,
      )
      | inr down ↦ absurd (ground (arith, rank.trans x d b down h))
    ]

    -- `remove` reports data exactly if the tree has it, and it is the data asked for.
    remove_node-holds :
        (x : D) (t : Tree D)
        → IsHeap out_ranks t
        → (remove_node out_ranks same x t).0 ≡ (if holds x t then some x else none)
    unfolding remove_node
    remove_node-holds x leaf v = refl
    remove_node-holds x (node n d l r) v =
        let il = remove_node-holds x l v.3 in
        let ir = remove_node-holds x r v.4 in
        elim (Bool-cases (same x d)) [
          | inl e ↦
              rw e (ap some (pop_top-data out_ranks d (node n d l r) ∙ sym (addr.sound x d e)))
          | inr e ↦ elim (Bool-cases (out_ranks x d)) [
            | inl up ↦ rw (e, up, not-holds x d l v.3 v.0 up, not-holds x d r v.4 v.1 up)
            | inr down ↦ rw (e, down) (ground (arith, il, ir))
          ]
        ]

    found_size :
        (x : D) (t : Tree D)
        → IsHeap out_ranks t
        → size_of (remove_node out_ranks same x t).1
            + (if is_some (remove_node out_ranks same x t).0 then 1 else 0)
          ≡ size_of t
    unfolding remove_node
    found_size x leaf v = refl
    found_size x (node n d l r) v =
        remove_cases (λ q. size_of q.1 + (if is_some q.0 then 1 else 0) ≡ n) x n d l r
          (λ e. omega (arith, size_of-pop_top out_ranks d (node n d l r) v)) (λ e up. omega arith)
          (λ y e. omega arith) (λ y e. omega arith) (omega arith)

    above-remove_node :
        (x b : D) (t : Tree D)
        → IsHeap out_ranks t
        → above out_ranks t b ≡ false
        → above out_ranks (remove_node out_ranks same x t).1 b ≡ false
    unfolding remove_node
    above-remove_node x b leaf v h = refl
    above-remove_node x b (node n d l r) v h =
        remove_cases (λ q. above out_ranks q.1 b ≡ false) x n d l r
          (λ e. above-pop_top out_ranks rank d b (node n d l r) v h) (λ e up. h) (λ y e. h)
          (λ y e. h) h

    -- Removing from a heap leaves a heap.
    remove_node-IsHeap :
        (x : D) (t : Tree D)
        → IsHeap out_ranks t
        → IsHeap out_ranks (remove_node out_ranks same x t).1
    unfolding remove_node
    remove_node-IsHeap x leaf v = tt
    remove_node-IsHeap x (node n d l r) v =
        let sl = found_size x l v.3 in
        let sr = found_size x r v.4 in
        remove_cases (λ q. IsHeap out_ranks q.1) x n d l r
          (λ e. pop_top-IsHeap out_ranks rank d (node n d l r) v) (λ e up. v)
          (λ y e. (
            above-remove_node x d l v.3 v.0,
            v.1,
            less _ (size_of r) e sl v.2,
            remove_node-IsHeap x l v.3,
            v.4,
          ))
          (λ y e. (
            v.0,
            above-remove_node x d r v.4 v.1,
            omega
                (arith, less _ (size_of l) e sr (v.2 ∙ ap suc (add_comm (size_of l) (size_of r)))),
            v.3,
            remove_node-IsHeap x r v.4,
          ))
          v

    -- The contents are those of before without the data that was found.
    remove_node-perm :
        (x : D) (t : Tree D)
        → let r = remove_node out_ranks same x t in
          Perm (with_found r.0 (contents r.1)) (contents t)
    unfolding remove_node
    remove_node-perm x leaf = Perm.refl _
    remove_node-perm x (node n d l r) =
        remove_cases (λ q. Perm (with_found q.0 (contents q.1)) (contents (node n d l r))) x n d l r
          (λ e.
            rw (pop_top-data out_ranks d (node n d l r)) (pop_top-perm out_ranks d (node n d l r)))
          (λ e up. Perm.refl _)
          (λ y e. Perm.trans (Perm.swap d y _) (
            Perm.cons d
              (Perm.append (found_in y e (remove_node-perm x l)) (Perm.refl (contents r)))))
          (λ y e. Perm.trans (Perm.swap d y _) (
            Perm.cons d (
              Perm.trans (Perm.symm (perm_middle (contents l) _))
                (Perm.append (Perm.refl (contents l)) (found_in y e (remove_node-perm x r))))))
          (Perm.refl _)

    -- For a ranking, `remove` on a heap reports the data exactly if it is there by address, takes
    -- that data out, and leaves a heap of all the other data. Other data that ranks the same is
    -- neither reported nor taken out.
    pub remove-exact :
        (x : D) (t : Tree D)
        → IsHeap out_ranks t
        → let r = remove out_ranks same x t in
          (r.0 ≡ (if holds x t then some x else none))
          × Perm (with_found r.0 (contents r.1)) (contents t)
          × IsHeap out_ranks r.1
    unfolding remove
    remove-exact x t v = (remove_node-holds x t v, remove_node-perm x t, remove_node-IsHeap x t v)
