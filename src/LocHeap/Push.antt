-- ===== src/LocHeap/Push.antt =====
-- `push` keeps the heap, and adds the data.
use mathlib.Core.List.{Perm, perm_middle}
use mathlib.Core.List.Perm
use android_device_samsung_a.Base.{
  suc, ◌≡◌, refl, Bool, false, List, [], ◌∷◌, ◌++◌, arith, inl, inr, Bool-cases, leb,
}
use android_device_samsung_a.LocHeap.{Tree, leaf, node, size_of, above, push, winner, loser}
use android_device_samsung_a.LocHeap.Order.{IsRanking, IsHeap, contents}

module _ {D : Type 0} (out_ranks : D → D → Bool) where
  size_of-push : (x : D) (t : Tree D) → size_of (push out_ranks x t) ≡ suc (size_of t)
  unfolding push
  size_of-push x leaf = refl
  size_of-push x (node n d leaf r) = refl
  size_of-push x (node n d (node nl dl ll lr) leaf) = refl
  size_of-push x (node n d (node nl dl ll lr) (node nr dr rl rr)) = ground arith

  winner-perm :
      (x d : D) (xs : List D) → Perm (winner out_ranks x d ∷ loser out_ranks x d ∷ xs) (x ∷ d ∷ xs)
  winner-perm x d xs = elim (Bool-cases (out_ranks x d)) [
    | inl e ↦ rw e (Perm.refl _)
    | inr e ↦ rw e (Perm.swap x d xs)
  ]

  module _ (rank : IsRanking out_ranks) where
    above-push :
        (x d : D) (t : Tree D)
        → out_ranks x d ≡ false
        → above out_ranks t d ≡ false
        → above out_ranks (push out_ranks x t) d ≡ false
    unfolding push
    above-push x d leaf h k = h
    above-push x d (node n c leaf r) h k = ground arith
    above-push x d (node n c (node nl dl ll lr) leaf) h k = ground arith
    above-push x d (node n c (node nl dl ll lr) (node nr dr rl rr)) h k = ground arith

    loser-winner : (x d : D) → out_ranks (loser out_ranks x d) (winner out_ranks x d) ≡ false
    loser-winner x d = ground (arith, rank.asym x d)

    above-winner :
        (x d : D) (t : Tree D)
        → above out_ranks t d ≡ false
        → above out_ranks t (winner out_ranks x d) ≡ false
    above-winner x d leaf h = refl
    above-winner x d (node n c l r) h = ground (arith, rank.asym x d, rank.trans c d x)

    -- For a ranking, `push` on a heap gives a heap.
    pub push-IsHeap :
        (x : D) (t : Tree D) → IsHeap out_ranks t → IsHeap out_ranks (push out_ranks x t)
    unfolding push
    push-IsHeap x leaf v = (refl, refl, refl, tt, tt)
    push-IsHeap x (node n d leaf r) v =
        (loser-winner x d, above-winner x d r v.1, omega arith, (refl, refl, refl, tt, tt), v.4)
    push-IsHeap x (node n d (node nl dl ll lr) leaf) v = (
      above-winner x d (node nl dl ll lr) v.0,
      loser-winner x d,
      omega arith,
      v.3,
      (refl, refl, refl, tt, tt),
    )
    push-IsHeap x (node n d (node nl dl ll lr) (node nr dr rl rr)) v =
        let w = winner out_ranks x d in
        let y = loser out_ranks x d in
        let l : Tree D = node nl dl ll lr in
        let r : Tree D = node nr dr rl rr in
        elim (Bool-cases (leb nl nr)) [
          | inl light ↦ rw light (
            above-push y w l (loser-winner x d) (above-winner x d l v.0),
            above-winner x d r v.1,
            omega (arith, size_of-push y l),
            push-IsHeap y (node nl dl ll lr) v.3,
            v.4,
          )
          | inr heavy ↦ rw heavy (
            above-winner x d l v.0,
            above-push y w r (loser-winner x d) (above-winner x d r v.1),
            omega (arith, size_of-push y r),
            v.3,
            push-IsHeap y (node nr dr rl rr) v.4,
          )
        ]

  -- The contents after `push` are the old ones and the new data.
  pub push-perm : (x : D) (t : Tree D) → Perm (contents (push out_ranks x t)) (x ∷ contents t)
  unfolding push
  push-perm x leaf = Perm.refl _
  push-perm x (node n d leaf r) = winner-perm x d (contents r)
  push-perm x (node n d (node nl dl ll lr) leaf) =
      let l = contents (node nl dl ll lr) in
      Perm.trans (Perm.cons _ (perm_middle l [])) (winner-perm x d (l ++ []))
  push-perm x (node n d (node nl dl ll lr) (node nr dr rl rr)) =
      let w = winner out_ranks x d in
      let y = loser out_ranks x d in
      let l = contents (node nl dl ll lr) in
      let r = contents (node nr dr rl rr) in
      elim (Bool-cases (leb nl nr)) [
        | inl light ↦ rw light (
            Perm.trans (Perm.cons w (Perm.append (push-perm y (node nl dl ll lr)) (Perm.refl r)))
              (winner-perm x d (l ++ r)))
        | inr heavy ↦ rw heavy (
            Perm.trans
              (Perm.cons w (
                Perm.trans (Perm.append (Perm.refl l) (push-perm y (node nr dr rl rr)))
                  (perm_middle l r)))
              (winner-perm x d (l ++ r)))
      ]
