-- ===== src/LocHeap/Pop.antt =====
-- `pop` takes the top, and keeps the heap.
use mathlib.Core.List.{Perm, perm_middle}
use mathlib.Core.List.Perm
use android_device_samsung_a.Base.{
  ℕ, ◌-◌, ◌≡◌, refl, ap, Bool, false, List, [], ◌∷◌, arith, inl, inr, Bool-cases, some,
}
use android_device_samsung_a.LocHeap.{Tree, leaf, node, size_of, above, pop_top, pop}
use android_device_samsung_a.LocHeap.Order.{
  IsRanking, IsHeap, contents, self, Under, Under-contents,
}

module _ {D : Type 0} (out_ranks : D → D → Bool) where
  -- The data that is swapped down is what comes out.
  pub pop_top-data : (x : D) (t : Tree D) → (pop_top out_ranks x t).0 ≡ x
  unfolding pop_top
  pop_top-data x leaf = refl
  pop_top-data x (node n d leaf leaf) = refl
  pop_top-data x (node n d leaf (node nr dr rl rr)) = pop_top-data x (node nr dr rl rr)
  pop_top-data x (node n d (node nl dl ll lr) leaf) = pop_top-data x (node nl dl ll lr)
  pop_top-data x (node n d (node nl dl ll lr) (node nr dr rl rr)) =
      ground (arith, pop_top-data x (node nl dl ll lr), pop_top-data x (node nr dr rl rr))

  pub size_of-pop_top :
      (x : D) (t : Tree D) → IsHeap out_ranks t → size_of (pop_top out_ranks x t).1 ≡ size_of t - 1
  unfolding pop_top
  size_of-pop_top x leaf v = refl
  size_of-pop_top x (node n d leaf leaf) v = omega arith
  size_of-pop_top x (node n d leaf (node nr dr rl rr)) v = refl
  size_of-pop_top x (node n d (node nl dl ll lr) leaf) v = refl
  size_of-pop_top x (node n d (node nl dl ll lr) (node nr dr rl rr)) v = ground arith

  module _ (rank : IsRanking out_ranks) where
    -- What ranked above nothing below it still does.
    pub above-pop_top :
        (x b : D) (t : Tree D)
        → IsHeap out_ranks t
        → above out_ranks t b ≡ false
        → above out_ranks (pop_top out_ranks x t).1 b ≡ false
    unfolding pop_top
    above-pop_top x b leaf v h = refl
    above-pop_top x b (node n d leaf leaf) v h = refl
    above-pop_top x b (node n d leaf (node nr dr rl rr)) v h = rank.trans dr d b v.1 h
    above-pop_top x b (node n d (node nl dl ll lr) leaf) v h = rank.trans dl d b v.0 h
    above-pop_top x b (node n d (node nl dl ll lr) (node nr dr rl rr)) v h =
        ground (arith, rank.trans dr d b v.1 h, rank.trans dl d b v.0 h)

    pub pop_top-IsHeap :
        (x : D) (t : Tree D) → IsHeap out_ranks t → IsHeap out_ranks (pop_top out_ranks x t).1
    unfolding pop_top
    pop_top-IsHeap x leaf v = tt
    pop_top-IsHeap x (node n d leaf leaf) v = tt
    pop_top-IsHeap x (node n d leaf (node nr dr rl rr)) v =
        let r : Tree D = node nr dr rl rr in
        (
          refl,
          above-pop_top x dr r v.4 (self out_ranks rank dr),
          omega (arith, size_of-pop_top x r v.4),
          tt,
          pop_top-IsHeap x (node nr dr rl rr) v.4,
        )
    pop_top-IsHeap x (node n d (node nl dl ll lr) leaf) v =
        let l : Tree D = node nl dl ll lr in
        (
          above-pop_top x dl l v.3 (self out_ranks rank dl),
          refl,
          omega (arith, size_of-pop_top x l v.3),
          pop_top-IsHeap x (node nl dl ll lr) v.3,
          tt,
        )
    pop_top-IsHeap x (node n d (node nl dl ll lr) (node nr dr rl rr)) v =
        let l : Tree D = node nl dl ll lr in
        let r : Tree D = node nr dr rl rr in
        elim (Bool-cases (out_ranks dl dr)) [
          | inl e ↦ rw e (
            above-pop_top x dl l v.3 (self out_ranks rank dl),
            rank.asym dl dr e,
            omega (arith, size_of-pop_top x l v.3),
            pop_top-IsHeap x (node nl dl ll lr) v.3,
            v.4,
          )
          | inr e ↦ rw e (
            e,
            above-pop_top x dr r v.4 (self out_ranks rank dr),
            omega (arith, size_of-pop_top x r v.4),
            v.3,
            pop_top-IsHeap x (node nr dr rl rr) v.4,
          )
        ]

  abbrev pub with_top : Tree D → List D → List D
  with_top leaf xs = xs
  with_top (node n d l r) xs = d ∷ xs

  -- The contents of a tree are its top and what `pop` leaves.
  pub pop_top-perm :
      (x : D) (t : Tree D) → Perm (with_top t (contents (pop_top out_ranks x t).1)) (contents t)
  unfolding pop_top
  pop_top-perm x leaf = Perm.refl _
  pop_top-perm x (node n d leaf leaf) = Perm.refl _
  pop_top-perm x (node n d leaf (node nr dr rl rr)) =
      Perm.cons d (pop_top-perm x (node nr dr rl rr))
  pop_top-perm x (node n d (node nl dl ll lr) leaf) =
      Perm.cons d (Perm.append (pop_top-perm x (node nl dl ll lr)) (Perm.refl []))
  pop_top-perm x (node n d (node nl dl ll lr) (node nr dr rl rr)) =
      let l = contents (node nl dl ll lr) in
      let r = contents (node nr dr rl rr) in
      elim (Bool-cases (out_ranks dl dr)) [
        | inl e ↦ rw e (Perm.cons d (Perm.append (pop_top-perm x (node nl dl ll lr)) (Perm.refl r)))
        | inr e ↦ rw e (
            Perm.cons d (
              Perm.trans (Perm.symm (perm_middle l _))
                (Perm.append (Perm.refl l) (pop_top-perm x (node nr dr rl rr)))))
      ]

-- For a ranking, `pop` on a heap that is not empty returns its top data, which nothing in it ranks
-- above, and leaves a heap of the other data.
pub pop-highest :
    {D : Type 0} (out_ranks : D → D → Bool)
    → IsRanking out_ranks
    → (n : ℕ) (d : D) (l r : Tree D) → IsHeap out_ranks (node n d l r)
    → let t = node n d l r in
      let p = pop out_ranks t in
      (p.0 ≡ some d)
      × Under out_ranks d (contents t)
      × Perm (contents t) (d ∷ contents p.1)
      × IsHeap out_ranks p.1
unfolding pop
pop-highest out_ranks rank n d l r v =
    let t = node n d l r in
    (
      ap some (pop_top-data out_ranks d t),
      Under-contents out_ranks rank d t (self out_ranks rank d) v,
      Perm.symm (pop_top-perm out_ranks d t),
      pop_top-IsHeap out_ranks rank d t v,
    )
