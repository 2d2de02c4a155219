-- ===== src/LinkedList/Seg.antt =====
-- Segments of a doubly linked chain: what the heap holds for a sequence of elements.
use android_device_samsung_a.Base.{
  ◌≡◌, ◌≢◌, refl, Bool, true, false, ◌||◌, Option, some, List, [], ◌∷◌, ◌++◌, arith, ◌==◌,
}
use android_device_samsung_a.LinkedList.Monad.{Ptr, null, Mem, World, Element, cell, update}

-- One element: its address, its data and its deallocation function.
pub record Cell : Type 0 where
  pub addr : Ptr
  pub datum : Ptr
  pub dealloc : Ptr

abbrev pub has : Ptr → List Cell → Bool
has a [] = false
has a (c ∷ xs) = (a == c.addr) || has a xs

-- The address of the first element, or `q` behind an empty segment.
abbrev pub first : List Cell → Ptr → Ptr
first [] q = q
first (c ∷ xs) q = c.addr

-- The address of the last element, or `p` before an empty segment.
abbrev pub last : Ptr → List Cell → Ptr
last p [] = p
last p (c ∷ xs) = last c.addr xs

-- From the element `p` (or NULL) the distinct elements `xs` lead to `q`, linked both ways.
abbrev pub Seg : Mem → Ptr → List Cell → Ptr → Type 0
Seg m p [] q = Unit {0}
Seg m p (c ∷ xs) q =
    (c.addr ≢ null)
    × (has c.addr xs ≡ false)
    × (m c.addr ≡ some (cell (first xs q) p c.datum c.dealloc))
    × Seg m c.addr xs q

-- The list that a world holds.
pub record IsList {S : Type 0} (w : World S) (xs : List Cell) : Type 0 where
  pub chain : Seg w.mem null xs null
  pub at_head : w.head ≡ first xs null
  pub at_tail : w.tail ≡ last null xs

pub has-append : (a : Ptr) (xs ys : List Cell) → has a (xs ++ ys) ≡ (has a xs || has a ys)
has-append a [] ys = refl
has-append a (x ∷ xs) ys = ground (arith, has-append a xs ys)

pub last-append : (p : Ptr) (xs ys : List Cell) → last p (xs ++ ys) ≡ last (last p xs) ys
last-append p [] ys = refl
last-append p (x ∷ xs) ys = last-append x.addr xs ys

pub first-append : (xs ys : List Cell) (q : Ptr) → first (xs ++ ys) q ≡ first xs (first ys q)
first-append [] ys q = refl
first-append (x ∷ xs) ys q = refl

-- A segment survives any change that spares its elements.
pub frame :
    (m g : Mem) (q p : Ptr) (xs : List Cell)
    → Seg m p xs q
    → ((a : Ptr) → has a xs ≡ true → g a ≡ m a)
    → Seg g p xs q
frame m g q p [] s same = tt
frame m g q p (c ∷ xs) s same =
    (s.0, s.1, ground (arith, same c.addr), frame m g q c.addr xs s.3 λ a i. same a (ground arith))

abbrev pub Apart : List Cell → List Cell → Type 0
Apart xs ys = (a : Ptr) → has a xs ≡ true → has a ys ≡ false

pub append :
    (m : Mem) (q p : Ptr) (xs ys : List Cell)
    → Seg m p xs (first ys q)
    → Seg m (last p xs) ys q
    → Apart xs ys
    → Seg m p (xs ++ ys) q
append m q p [] ys s t apart = t
append m q p (c ∷ xs) ys s t apart = (
  s.0,
  ground (arith, has-append c.addr xs ys, apart c.addr),
  ground (arith, first-append xs ys q),
  append m q c.addr xs ys s.3 t λ a i. apart a (ground arith),
)

-- A segment taken apart.
pub record Split (m : Mem) (p q : Ptr) (xs ys : List Cell) : Type 0 where
  pub front : Seg m p xs (first ys q)
  pub back : Seg m (last p xs) ys q
  pub apart : Apart xs ys

pub split :
    {m : Mem} {q : Ptr} (p : Ptr) (xs ys : List Cell) → Seg m p (xs ++ ys) q → Split m p q xs ys
split p [] ys s = record { front = tt; back = s; apart = λ a i. cc }
split {m} {q} p (c ∷ xs) ys s =
    let r : Split m c.addr q xs ys = split c.addr xs ys s.3 in
    record {
      front = (
        s.0,
        ground (arith, has-append c.addr xs ys, s.1),
        ground (arith, first-append xs ys q, s.2),
        r.front,
      );
      back = r.back;
      apart = λ a i. ground (arith, r.apart a, has-append c.addr xs ys, s.1);
    }

pub has-ne : (a b : Ptr) (xs : List Cell) → has a xs ≡ false → has b xs ≡ true → (b == a) ≡ false
has-ne a b [] out i = cc
has-ne a b (x ∷ xs) out i = ground (arith, has-ne a b xs)

-- A write outside a segment.
pub frame-update :
    (m : Mem) (q p : Ptr) (xs : List Cell) (a : Ptr) (c : Option Element)
    → Seg m p xs q
    → has a xs ≡ false
    → Seg (update m a c) p xs q
frame-update m q p xs a c s out =
    frame m (update m a c) q p xs s λ b i. rw (≠-sym b a (has-ne a b xs out i))
  where
    ≠-sym : (b a : Ptr) → (b == a) ≡ false → (a == b) ≡ false
    ≠-sym b a h = ground arith
