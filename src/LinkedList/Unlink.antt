-- ===== src/LinkedList/Unlink.antt =====
-- `detach`: an element leaves the middle, the ends or the whole of a list.
use android_device_samsung_a.Base.{
  ◌≡◌, ◌≢◌, refl, sym, true, false, some, List, [], ◌∷◌, ◌++◌, arith, ◌==◌, ◌∙◌,
}
use android_device_samsung_a.LinkedList.Monad.{Ptr, null, Mem, World, Element, cell, update, ok}
use android_device_samsung_a.LinkedList.Seg.{
  Cell, has, first, last, Seg, IsList, append, Apart, Split, split, has-append, last-append, has-ne,
  frame-update,
}
use android_device_samsung_a.LinkedList.{unlink_prev, unlink_next, detach}

pub has-last : (p : Ptr) (c : Cell) (xs : List Cell) → has (last p (c ∷ xs)) (c ∷ xs) ≡ true
has-last p c [] = ground arith
has-last p c (d ∷ xs) = ground (arith, has-last c.addr d xs)

-- The last element's `next` is moved.
pub record Relinked (m : Mem) (p q : Ptr) (c : Cell) (xs : List Cell) : Type 0 where
  pub elem : Element
  pub there : m (last p (c ∷ xs)) ≡ some elem
  pub ne_null : last p (c ∷ xs) ≢ null
  pub moved : Seg (update m (last p (c ∷ xs)) (some (record elem { next = q }))) p (c ∷ xs) q

pub relink :
    (m : Mem) (p q r : Ptr) (c : Cell) (xs : List Cell) → Seg m p (c ∷ xs) r → Relinked m p q c xs
relink m p q r c [] s = record {
  elem = cell r p c.datum c.dealloc;
  there = s.2;
  ne_null = s.0;
  moved = (s.0, s.1, ground arith, tt);
}
relink m p q r c (d ∷ xs) s =
    let rest : Relinked m c.addr q d xs = relink m c.addr q r d xs s.3 in
    record {
      elem = rest.elem;
      there = rest.there;
      ne_null = rest.ne_null;
      moved = (s.0, s.1, rw (has-ne c.addr _ (d ∷ xs) s.1 (has-last c.addr d xs)) s.2, rest.moved);
    }

pub eq_null : (a : Ptr) → a ≢ null → (a == null) ≡ false
eq_null a h = ground arith

-- An element that stands right of a gap is not left of it.
pub not-left : (xs ys : List Cell) (a : Ptr) → Apart xs ys → has a ys ≡ true → has a xs ≡ false
not-left xs ys a apart i = ground (arith, apart a)

pub eq_self : (a : Ptr) → (a == a) ≡ true
eq_self a = ground arith

-- Writes to the chain leave the rest of the world as it is.
pub record SameRest {S : Type 0} (w w' : World S) : Type 0 where
  pub handle : w'.handle ≡ w.handle
  pub out : w'.out ≡ w.out
  pub env : w'.env ≡ w.env

module _ {S : Type 0} (w : World S) (c : Cell) (zs : List Cell) where
  -- After `unlink_prev` the elements left of `c` lead past it.
  pub record Skipped (xs : List Cell) (w' : World S) : Type 0 where
    pub front : Seg w'.mem null xs (first zs null)
    pub back : Seg w'.mem (last null xs) (c ∷ zs) null
    pub apart : Apart xs (c ∷ zs)
    pub at_head : w'.head ≡ first (xs ++ zs) null
    pub at_tail : w'.tail ≡ last null (xs ++ c ∷ zs)
    pub rest : SameRest w w'

  unlink_prev_lem :
      (xs : List Cell)
      → IsList w (xs ++ c ∷ zs)
      → (w' : World S) × (unlink_prev c.addr w ≡ ok tt w') × Skipped xs w'
  unfolding unlink_prev
  unlink_prev_lem [] l = (
    record w { head = first zs null },
    rw (eq_null c.addr l.chain.0, l.chain.2),
    record {
      front = tt;
      back = l.chain;
      apart = λ a i. cc;
      at_head = refl;
      at_tail = l.at_tail;
      rest = record { handle = refl; out = refl; env = refl };
    },
  )
  unlink_prev_lem (d ∷ xs) l = (
    record w { mem = m' },
    rw (
      eq_null c.addr sp.back.0,
      sp.back.2,
      eq_null p rl.ne_null,
      rl.there,
      eq_null p rl.ne_null,
      rl.there,
      eq_null p rl.ne_null,
    ),
    record {
      front = rl.moved;
      back = frame-update w.mem null p (c ∷ zs) p _ sp.back (sp.apart p (has-last null d xs));
      apart = sp.apart;
      at_head = l.at_head;
      at_tail = l.at_tail;
      rest = record { handle = refl; out = refl; env = refl };
    },
  )
    where
      p : Ptr
      p = last null (d ∷ xs)

      sp : Split w.mem null null (d ∷ xs) (c ∷ zs)
      sp = split null (d ∷ xs) (c ∷ zs) l.chain

      rl : Relinked w.mem null (first zs null) d xs
      rl = relink w.mem null (first zs null) c.addr d xs sp.front

      m' : Mem
      m' = update w.mem p (some (record rl.elem { next = first zs null }))

  -- After `unlink_next` what is left is chained, and `c` stands apart with its old data.
  pub record Detached (xs : List Cell) (w' : World S) : Type 0 where
    pub list : IsList w' (xs ++ zs)
    pub self :
        (e : Element) × (w'.mem c.addr ≡ some e)
        × (e.data_ptr ≡ c.datum)
        × (e.dealloc_func ≡ c.dealloc)
    pub ne_null : c.addr ≢ null
    pub outside : has c.addr (xs ++ zs) ≡ false
    pub rest : SameRest w w'

module _ {S : Type 0} (w w1 : World S) (c : Cell) where
  unlink_next_lem :
      (zs xs : List Cell)
      → Skipped w c zs xs w1
      → (w' : World S) × (unlink_next c.addr w1 ≡ ok tt w') × Detached w c zs xs w'
  unfolding unlink_next
  unlink_next_lem [] xs s = (
    record w1 { tail = last null xs },
    rw (eq_null c.addr s.back.0, s.back.2),
    record {
      list = record {
        chain = append w1.mem null null xs [] s.front tt (λ a i. refl);
        at_head = s.at_head;
        at_tail = rw (last-append null xs []);
      };
      self = (_, s.back.2, refl, refl);
      ne_null = s.back.0;
      outside = rw (has-append c.addr xs []) (ground (arith, out));
      rest = record { handle = s.rest.handle; out = s.rest.out; env = s.rest.env };
    },
  )
    where
      out : has c.addr xs ≡ false
      out = not-left xs (c ∷ []) c.addr s.apart (ground arith)
  unlink_next_lem (z ∷ zs) xs s = (
    record w1 { mem = m' },
    rw (
      eq_null c.addr s.back.0,
      s.back.2,
      eq_null z.addr s.back.3.0,
      s.back.3.2,
      eq_null z.addr s.back.3.0,
      s.back.3.2,
      eq_null z.addr s.back.3.0,
    ),
    record {
      list = record {
        chain =
            append m' null null xs (z ∷ zs)
              (frame-update w1.mem z.addr null xs z.addr _ s.front z_out)
              (
                s.back.3.0,
                s.back.3.1,
                ground arith,
                frame-update w1.mem null z.addr zs z.addr _ s.back.3.3 s.back.3.1,
              )
              (λ a i. ground (arith, s.apart a i));
        at_head = s.at_head;
        at_tail = s.at_tail ∙ last-append null xs (c ∷ z ∷ zs) ∙ sym (last-append null xs (z ∷ zs));
      };
      self = (cell z.addr (last null xs) c.datum c.dealloc, rw z_ne_c s.back.2, refl, refl);
      ne_null = s.back.0;
      outside = rw (has-append c.addr xs (z ∷ zs)) (ground (arith, c_out, s.back.1));
      rest = record { handle = s.rest.handle; out = s.rest.out; env = s.rest.env };
    },
  )
    where
      m' : Mem
      m' = update w1.mem z.addr (some (cell (first zs null) (last null xs) z.datum z.dealloc))

      z_out : has z.addr xs ≡ false
      z_out = not-left xs (c ∷ z ∷ zs) z.addr s.apart (ground arith)

      c_out : has c.addr xs ≡ false
      c_out = not-left xs (c ∷ z ∷ zs) c.addr s.apart (ground arith)

      z_ne_c : (z.addr == c.addr) ≡ false
      z_ne_c = has-ne c.addr z.addr (z ∷ zs) s.back.1 (ground arith)

module _ {S : Type 0} (w : World S) (c : Cell) (xs zs : List Cell) where
  -- `detach` takes the element at `c` out of the list, and clears its pointers.
  pub detach_lem :
      IsList w (xs ++ c ∷ zs)
      → (w' : World S) × (detach c.addr w ≡ ok tt w')
        × IsList w' (xs ++ zs)
        × (w'.mem c.addr ≡ some (cell null null c.datum c.dealloc))
        × SameRest w w'
        × (has c.addr (xs ++ zs) ≡ false)
        × (c.addr ≢ null)
  unfolding detach
  detach_lem l =
      let (w1, e1, s1) = unlink_prev_lem w c zs xs l in
      let (w2, e2, s2) = unlink_next_lem w w1 c zs xs s1 in
      let (e, at, e_data, e_dealloc) = s2.self in
      let a : Ptr = c.addr in
      let done : Element = record e { next = null; prev = null } in
      (
        record w2 { mem = update w2.mem a (some done) },
        simp (e1, e2, eq_null a s2.ne_null, at),
        record {
          chain = frame-update w2.mem null null (xs ++ zs) a (some done) s2.list.chain s2.outside;
          at_head = s2.list.at_head;
          at_tail = s2.list.at_tail;
        },
        simp (eq_self a, e_data, e_dealloc),
        record { handle = s2.rest.handle; out = s2.rest.out; env = s2.rest.env },
        s2.outside,
        s2.ne_null,
      )
