-- ===== src/LinkedList/Refines.antt =====
-- `linked_list_add` and `linked_list_remove` against the sequence that the clients see.
use android_device_samsung_a.Base.{
  ◌≡◌, ◌≢◌, refl, sym, subst, Bool, true, false, not, Option, none, some, List, [], ◌∷◌, ◌==◌,
  arith, inl, inr, Bool-cases,
}
use android_device_samsung_a.LinkedList.Monad.{Ptr, null, Mem, World, ok}
use android_device_samsung_a.LinkedList.Seg.{Cell, IsList, has}
use android_device_samsung_a.LinkedList.Unlink.{eq_null}
use android_device_samsung_a.LinkedList.Abstract.{
  is_empty, add, remove, split_last, split_last-append,
}
use android_device_samsung_a.LinkedList.Ends.{linked_list_add_lem, linked_list_remove_lem}
use android_device_samsung_a.LinkedList.{
  linked_list_empty, failure_general, linked_list_add, linked_list_remove,
}

-- The output variable after a removal.
abbrev pub out_of : Ptr → Option Cell → Ptr
out_of old none = old
out_of old (some c) = c.datum

-- The element that left is not allocated.
abbrev pub IsFreed : Mem → Option Cell → Type 0
IsFreed m none = Unit {0}
IsFreed m (some c) = m c.addr ≡ none

module _ {S : Type 0} (w : World S) where
  -- `linked_list_remove` with a handle and an output pointer that are not NULL returns the code
  -- that the sequence view gives, on the empty list too. The list is then that of the view, the
  -- caller has the data of the element that left, that element is freed, and the environment is as
  -- before.
  linked_list_remove-remove :
      (list_data data_obj : Ptr) (xs : List Cell)
      → list_data ≢ null
      → data_obj ≢ null
      → IsList w xs
      → (w' : World S) × (linked_list_remove list_data data_obj w ≡ ok (remove xs).0 w')
        × IsList w' (remove xs).2
        × (w'.out ≡ out_of w.out (remove xs).1)
        × (w'.env ≡ w.env)
        × IsFreed w'.mem (remove xs).1
  unfolding linked_list_remove
  linked_list_remove-remove list_data data_obj [] h d l =
      (w, simp (eq_null list_data h, eq_null data_obj d, l.at_tail), l, refl, refl, tt)
  linked_list_remove-remove list_data data_obj (c ∷ xs) h d l =
      let front = (split_last c xs).0 in
      let back = (split_last c xs).1 in
      let (w', e, list, out, env, gone) =
        linked_list_remove_lem w list_data data_obj front back h d
          (subst (IsList w) (sym (split_last-append c xs)) l) in
      (w', e, list, out, env, gone)

  no_memory :
      (list_data : Ptr) (c : Cell)
      → list_data ≢ null
      → c.datum ≢ null
      → (c.addr == null) ≡ true
      → linked_list_add list_data c.datum c.dealloc c.addr w ≡ ok failure_general w
  unfolding linked_list_add
  no_memory list_data c h d failed = simp (eq_null list_data h, eq_null c.datum d, failed)

  -- `linked_list_add` with a handle and data that are not NULL, where `malloc` gives NULL or memory
  -- that the list does not use, returns the code and leaves the list that the sequence view gives.
  linked_list_add-add :
      (list_data : Ptr) (c : Cell) (xs : List Cell)
      → list_data ≢ null
      → c.datum ≢ null
      → has c.addr xs ≡ false
      → IsList w xs
      → let r = add (not (c.addr == null)) c xs in
        (w' : World S) × (linked_list_add list_data c.datum c.dealloc c.addr w ≡ ok r.0 w')
        × IsList w' r.1
        × (w'.env ≡ w.env)
  linked_list_add-add list_data c xs h d new l = elim (Bool-cases (c.addr == null)) [
    | inl failed ↦ subst Added (sym failed) (w, no_memory list_data c h d failed, l, refl)
    | inr given ↦
        let (w', e, list, rest) =
          linked_list_add_lem w list_data c xs h d (ne_null c.addr given) new l in
        subst Added (sym given) (w', e, list, rest.env)
  ]
    where
      Added : Bool → Type 0
      Added b =
          let r = add (not b) c xs in
          (w' : World S) × (linked_list_add list_data c.datum c.dealloc c.addr w ≡ ok r.0 w')
          × IsList w' r.1
          × (w'.env ≡ w.env)

      ne_null : (a : Ptr) → (a == null) ≡ false → a ≢ null
      ne_null a f e = absurd (grind arith)

  -- `linked_list_empty` with a handle that is not NULL says whether the sequence is empty, and
  -- changes nothing.
  pub linked_list_empty-is_empty :
      (list_data : Ptr) (xs : List Cell)
      → list_data ≢ null
      → IsList w xs
      → linked_list_empty list_data w ≡ ok (inr (is_empty xs)) w
  unfolding linked_list_empty
  linked_list_empty-is_empty list_data [] h l = simp (eq_null list_data h, l.at_head)
  linked_list_empty-is_empty list_data (c ∷ xs) h l =
      simp (eq_null list_data h, l.at_head, eq_null c.addr l.chain.0)
