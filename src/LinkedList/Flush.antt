-- ===== src/LinkedList/Flush.antt =====
-- `linked_list_flush`.
use android_device_samsung_a.Base.{
  ℕ, zero, suc, ◌<◌, ◌≡◌, ◌≢◌, refl, true, false, none, List, [], ◌∷◌, arith, ◌∙◌, ◌==◌, inl, inr,
  Bool-cases, length,
}
use android_device_samsung_a.LinkedList.Monad.{Ptr, null, Mem, World, update, ok}
use android_device_samsung_a.LinkedList.Seg.{Cell, has, first, Seg, IsList, frame-update}
use android_device_samsung_a.LinkedList.Unlink.{eq_null}
use android_device_samsung_a.LinkedList.{success, call_dealloc, flush_loop, linked_list_flush}
use android_device_samsung_a.LinkedList.Search.{dealloc_cell}

module _ {S : Type 0} (dealloc : Ptr → Ptr → S → S) where
  -- The data of each element is deallocated, from the head on.
  abbrev pub dealloc_all : List Cell → S → S
  dealloc_all [] s = s
  dealloc_all (c ∷ xs) s = dealloc_all xs (dealloc_cell dealloc c s)

  flush_loop_lem :
      (k : ℕ) (p : Ptr) (xs : List Cell) (w : World S)
      → Seg w.mem p xs null
      → w.head ≡ first xs null
      → length xs < k
      → (w' : World S) × (flush_loop dealloc k w ≡ ok tt w')
        × (w'.head ≡ null)
        × (w'.env ≡ dealloc_all xs w.env)
        × ((a : Ptr) → has a xs ≡ true → w'.mem a ≡ none)
        × ((a : Ptr) → has a xs ≡ false → w'.mem a ≡ w.mem a)
  unfolding flush_loop call_dealloc
  flush_loop_lem zero p xs w s h fuel = absurd (omega arith)
  flush_loop_lem (suc k) p [] w s h fuel = (w, simp h, h, refl, λ a i. cc, λ a o. refl)
  flush_loop_lem (suc k) p (c ∷ xs) w s h fuel =
      let env = dealloc_cell dealloc c w.env in
      let w1 : World S = record w {
        mem = update w.mem c.addr none;
        head = first xs null;
        env = env;
      } in
      let (w', e, head, env_eq, gone, same) =
        flush_loop_lem k c.addr xs w1 (frame-update w.mem null c.addr xs c.addr none s.3 s.1) refl
          (omega arith) in
      (
        w',
        elim (Bool-cases (c.dealloc == null)) [
          | inl none_given ↦ simp (h, eq_null c.addr s.0, s.2, none_given) (simp none_given at e)
          | inr given ↦ simp (h, eq_null c.addr s.0, s.2, given) (simp given at e)
        ],
        head,
        env_eq,
        λ a i. elim (Bool-cases (has a xs)) [ inl t ↦ gone a t | inr f ↦ same a f ∙ ground arith ],
        λ a o. same a (ground arith) ∙ ground arith,
      )

  -- No element of the list is allocated.
  abbrev pub AreFreed : Mem → List Cell → Type 0
  AreFreed m [] = Unit {0}
  AreFreed m (c ∷ xs) = (m c.addr ≡ none) × AreFreed m xs

  are_freed :
      (m : Mem) (xs : List Cell) → ((a : Ptr) → has a xs ≡ true → m a ≡ none) → AreFreed m xs
  are_freed m [] gone = tt
  are_freed m (c ∷ xs) gone =
      (gone c.addr (ground arith), are_freed m xs λ a i. gone a (ground arith))

  -- `linked_list_flush` with a handle that is not NULL and more fuel than elements returns
  -- success, empties the list, frees each element, and deallocates each data object that has a
  -- function for it, from the head on.
  pub linked_list_flush-all :
      (fuel : ℕ) (list_data : Ptr) (xs : List Cell) (w : World S)
      → list_data ≢ null
      → IsList w xs
      → length xs < fuel
      → (w' : World S) × (linked_list_flush dealloc fuel list_data w ≡ ok success w')
        × IsList w' []
        × (w'.env ≡ dealloc_all xs w.env)
        × AreFreed w'.mem xs
  unfolding linked_list_flush
  linked_list_flush-all fuel list_data xs w h l enough =
      let (w', e, head, env_eq, gone, same) =
        flush_loop_lem fuel null xs w l.chain l.at_head enough in
      (
        record w' { tail = null },
        simp (eq_null list_data h, e),
        record { chain = tt; at_head = head; at_tail = refl },
        env_eq,
        are_freed w'.mem xs gone,
      )
