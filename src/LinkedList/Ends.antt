-- ===== src/LinkedList/Ends.antt =====
-- `linked_list_add` works at the head, `linked_list_remove` at the tail: a queue.
use android_device_samsung_a.Base.{
  ◌≡◌, ◌≢◌, refl, ◌∙◌, false, none, some, List, [], ◌∷◌, ◌++◌, arith, ◌==◌,
}
use android_device_samsung_a.LinkedList.Monad.{Ptr, null, Mem, World, cell, update, ok}
use android_device_samsung_a.LinkedList.Seg.{
  Cell, has, first, last, IsList, frame-update, has-ne, Split, split, last-append,
}
use android_device_samsung_a.LinkedList.Unlink.{
  Relinked, relink, has-last, not-left, SameRest, eq_null, eq_self,
}
use android_device_samsung_a.LinkedList.{success, linked_list_add, linked_list_remove}

module _ {S : Type 0} (w : World S) where
  -- `linked_list_add` with a handle, data and memory for a new element that are not NULL returns
  -- success, puts the element before those of the list, and changes neither the environment nor
  -- the handle nor the output variable.
  pub linked_list_add_lem :
      (list_data : Ptr) (c : Cell) (xs : List Cell)
      → list_data ≢ null
      → c.datum ≢ null
      → c.addr ≢ null
      → has c.addr xs ≡ false
      → IsList w xs
      → (w' : World S) × (linked_list_add list_data c.datum c.dealloc c.addr w ≡ ok success w')
        × IsList w' (c ∷ xs)
        × SameRest w w'
  unfolding linked_list_add
  linked_list_add_lem list_data c [] h d a new l = (
    record w {
      mem = update m1 c.addr (some (cell null null c.datum c.dealloc));
      head = c.addr;
      tail = c.addr;
    },
    simp (eq_null list_data h, eq_null c.datum d, eq_null c.addr a, l.at_head, eq_self c.addr),
    record { chain = (a, refl, rw eq_self, tt); at_head = refl; at_tail = refl },
    record { handle = refl; out = refl; env = refl },
  )
    where
      m1 : Mem
      m1 = update w.mem c.addr (some (cell null null c.datum c.dealloc))
  linked_list_add_lem list_data c (x ∷ xs) h d a new l = (
    record w {
      mem = update m2 x.addr (some (cell (first xs null) c.addr x.datum x.dealloc));
      head = c.addr;
    },
    simp (
      eq_null list_data h,
      eq_null c.datum d,
      eq_null c.addr a,
      l.at_head,
      eq_self c.addr,
      eq_null x.addr l.chain.0,
      x_ne,
      l.chain.2,
    ),
    record {
      chain = (
        a,
        new,
        simp (x_ne', eq_self c.addr),
        (
          l.chain.0,
          l.chain.1,
          simp (eq_self x.addr),
          frame-update m2 null x.addr xs x.addr _
              (frame-update m1 null x.addr xs c.addr _
                (frame-update w.mem null x.addr xs c.addr _ l.chain.3 out) out)
              l.chain.1,
        ),
      );
      at_head = refl;
      at_tail = l.at_tail;
    },
    record { handle = refl; out = refl; env = refl },
  )
    where
      m1 : Mem
      m1 = update w.mem c.addr (some (cell null null c.datum c.dealloc))

      m2 : Mem
      m2 = update m1 c.addr (some (cell x.addr null c.datum c.dealloc))

      x_ne : (c.addr == x.addr) ≡ false
      x_ne = ground arith

      x_ne' : (x.addr == c.addr) ≡ false
      x_ne' = ground arith

      out : has c.addr xs ≡ false
      out = ground arith

  -- `linked_list_remove` with a handle and an output pointer that are not NULL, on a list that is
  -- not empty, returns success, takes the last element out, hands its data to the caller, frees
  -- the element, and leaves the environment.
  pub linked_list_remove_lem :
      (list_data data_obj : Ptr) (xs : List Cell) (c : Cell)
      → list_data ≢ null
      → data_obj ≢ null
      → IsList w (xs ++ c ∷ [])
      → (w' : World S) × (linked_list_remove list_data data_obj w ≡ ok success w')
        × IsList w' xs
        × (w'.out ≡ c.datum)
        × (w'.env ≡ w.env)
        × (w'.mem c.addr ≡ none)
  unfolding linked_list_remove
  linked_list_remove_lem list_data data_obj [] c h d l = (
    record w { mem = update w.mem c.addr none; head = null; tail = null; out = c.datum },
    simp (eq_null list_data h, eq_null data_obj d, l.at_tail, eq_null c.addr l.chain.0, l.chain.2),
    record { chain = tt; at_head = refl; at_tail = refl },
    refl,
    refl,
    simp (eq_self c.addr),
  )
  linked_list_remove_lem list_data data_obj (x ∷ xs) c h d l = (
    record w { mem = update m1 c.addr none; tail = p; out = c.datum },
    simp (
      eq_null list_data h,
      eq_null data_obj d,
      tail_lem,
      eq_null c.addr sp.back.0,
      sp.back.2,
      eq_null p rl.ne_null,
      rl.there,
      p_ne,
    ),
    record {
      chain = frame-update m1 null null (x ∷ xs) c.addr none rl.moved out;
      at_head = l.at_head;
      at_tail = refl;
    },
    refl,
    refl,
    simp (eq_self c.addr),
  )
    where
      p : Ptr
      p = last null (x ∷ xs)

      sp : Split w.mem null null (x ∷ xs) (c ∷ [])
      sp = split null (x ∷ xs) (c ∷ []) l.chain

      rl : Relinked w.mem null null x xs
      rl = relink w.mem null null c.addr x xs sp.front

      m1 : Mem
      m1 = update w.mem p (some (record rl.elem { next = null }))

      tail_lem : w.tail ≡ c.addr
      tail_lem = l.at_tail ∙ last-append null (x ∷ xs) (c ∷ [])

      out : has c.addr (x ∷ xs) ≡ false
      out = not-left (x ∷ xs) (c ∷ []) c.addr sp.apart (ground arith)

      p_ne : (p == c.addr) ≡ false
      p_ne = has-ne c.addr p (x ∷ xs) out (has-last null x xs)
