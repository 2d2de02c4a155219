-- ===== src/LinkedList/Monad.antt =====
-- The heap of list elements, and a state monad with faults over it.
use android_device_samsung_a.Base.{ℕ, Bool, true, false, Option, none, some, ◌==◌, if◌then◌else◌}

abbrev pub Ptr : Type 0
Ptr = ℕ

abbrev pub null : Ptr
null = 0

-- `struct list_element`
pub record Element : Type 0 where
  pub next : Ptr
  pub prev : Ptr
  pub data_ptr : Ptr
  pub dealloc_func : Ptr

abbrev pub cell : Ptr → Ptr → Ptr → Ptr → Element
cell n p d f = record { next = n; prev = p; data_ptr = d; dealloc_func = f }

abbrev pub Mem : Type 0
Mem = Ptr → Option Element

abbrev pub update : Mem → Ptr → Option Element → Mem
update m p c q = if p == q then c else m q

pub record World (S : Type 0) : Type 0 where
  pub mem : Mem
  pub handle : Ptr
  pub head : Ptr
  pub tail : Ptr
  pub out : Ptr
  pub env : S

pub data Run (S : Type 0) (A : Type 0) : Type 0 where
  ok : A → World S → Run S A
  fault : Run S A
  out_of_fuel : Run S A

abbrev pub M : Type 0 → Type 0 → Type 0
M S A = World S → Run S A

module _ {S : Type 0} where
  abbrev pub pure : {A : Type 0} → A → M S A
  pure a w = ok a w

  abbrev pub and_then : {A B : Type 0} → Run S A → (A → M S B) → Run S B
  and_then (ok a w) f = f a w
  and_then fault f = fault
  and_then out_of_fuel f = out_of_fuel

  infixl 5 ◌>>=◌ ◌>>◌
  abbrev pub ◌>>=◌ : {A B : Type 0} → M S A → (A → M S B) → M S B
  ◌>>=◌ m f w = and_then (m w) f

  abbrev pub ◌>>◌ : {B : Type 0} → M S (Unit {0}) → M S B → M S B
  ◌>>◌ m k w = and_then (m w) (λ _. k)

  abbrev pub modify : (World S → World S) → M S (Unit {0})
  modify f w = ok tt (f w)

  abbrev pub reads : {A : Type 0} → (World S → A) → M S A
  reads f w = ok (f w) w

  abbrev pub found : Option Element → World S → Run S Element
  found none w = fault
  found (some e) w = ok e w

  abbrev pub load : Ptr → M S Element
  load p w = if p == null then fault else found (w.mem p) w

  abbrev pub store : Ptr → Element → M S (Unit {0})
  store p e = load p >>= λ _. modify (λ w. record w { mem = update w.mem p (some e) })

  abbrev pub free : Ptr → M S (Unit {0})
  free p = load p >>= λ _. modify (λ w. record w { mem = update w.mem p none })

  abbrev pub when : Bool → M S (Unit {0}) → M S (Unit {0})
  when true m = m
  when false m = pure tt
