-- ===== src/LocHeap/Order.antt =====
-- The heap property with the sizes, what it means for the contents, and `checkNodes`.
use android_device_samsung_a.Base.{
  suc, ◌+◌, ◌≡◌, ◌↔◌, refl, Bool, true, false, List, [], ◌∷◌, ◌++◌, arith, All, some, subst, inl,
  inr, Bool-cases,
}
use android_device_samsung_a.LocHeap.{Tree, leaf, node, size_of, above, check_nodes, peek}

-- What `outRanks` must be for the tree to be a heap: ranking above is asymmetric, and not ranking
-- above is transitive.
pub record IsRanking {D : Type 0} (out_ranks : D → D → Bool) : Type 0 where
  pub asym : (a b : D) → out_ranks a b ≡ true → out_ranks b a ≡ false
  pub trans : (a b c : D) → out_ranks a b ≡ false → out_ranks b c ≡ false → out_ranks a c ≡ false

module _ {D : Type 0} where
  abbrev pub contents : Tree D → List D
  contents leaf = []
  contents (node n d l r) = d ∷ contents l ++ contents r

module _ {D : Type 0} (out_ranks : D → D → Bool) where
  -- No node ranks above its parent, and `mSize` counts the nodes of each subtree.
  abbrev pub IsHeap : Tree D → Type 0
  IsHeap leaf = Unit {0}
  IsHeap (node n d l r) =
      (above out_ranks l d ≡ false)
      × (above out_ranks r d ≡ false)
      × (n ≡ suc (size_of l + size_of r))
      × IsHeap l
      × IsHeap r

  -- `checkNodes` accepts exactly the trees where no node ranks above its parent and `mSize` is the
  -- number of nodes of each subtree, itself included.
  check_nodes-IsHeap : (t : Tree D) → (check_nodes out_ranks t ≡ true) ↔ IsHeap t
  unfolding check_nodes
  check_nodes-IsHeap leaf = (λ _. tt, λ _. refl)
  check_nodes-IsHeap (node n d l r) =
      let (l_to, l_from) = check_nodes-IsHeap l in
      let (r_to, r_from) = check_nodes-IsHeap r in
      (
        λ h. (ground arith, ground arith, ground arith, l_to (ground arith), r_to (ground arith)),
        λ v. ground (arith, l_from v.3, r_from v.4),
      )

  -- Nothing in the subtree ranks above `d`.
  abbrev pub Under : D → List D → Type 0
  Under d = All (λ x. out_ranks x d ≡ false)

  pub Under-append : (d : D) (xs ys : List D) → Under d xs → Under d ys → Under d (xs ++ ys)
  Under-append d [] ys hx hy = hy
  Under-append d (x ∷ xs) ys hx hy = (hx.0, Under-append d xs ys hx.1 hy)

  module _ (rank : IsRanking out_ranks) where
    pub Under-trans : (c d : D) (xs : List D) → out_ranks c d ≡ false → Under c xs → Under d xs
    Under-trans c d [] h u = tt
    Under-trans c d (x ∷ xs) h u = (rank.trans x c d u.0 h, Under-trans c d xs h u.1)

    pub self : (d : D) → out_ranks d d ≡ false
    self d = elim (Bool-cases (out_ranks d d)) [ inl e ↦ rank.asym d d e | inr e ↦ e ]

    pub Under-contents :
        (d : D) (t : Tree D) → above out_ranks t d ≡ false → IsHeap t → Under d (contents t)
    Under-contents d leaf h v = tt
    Under-contents d (node n c l r) h v = (
      h,
      Under-append d (contents l) (contents r)
          (Under-trans c d (contents l) h (Under-contents c l v.0 v.3))
          (Under-trans c d (contents r) h (Under-contents c r v.1 v.4)),
    )

    -- For a ranking, `peek` on a heap returns data that nothing in the heap ranks above.
    pub peek-Under :
        (t : Tree D) (d : D) → IsHeap t → peek out_ranks t ≡ some d → Under d (contents t)
    unfolding peek
    peek-Under leaf d v e = cc
    peek-Under (node n c l r) d v e =
        let e' : c ≡ d = cc in
        subst (λ x. Under x (contents (node n c l r))) e'
          (Under-contents c (node n c l r) (self c) v)
