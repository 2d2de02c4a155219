-- ===== src/LinkedList/Abstract.antt =====
-- What clients rely on: a linked list is a sequence, the newest element first.
use android_device_samsung_a.Base.{
  ◌≡◌, refl, Bool, true, false, Option, none, some, List, [], ◌∷◌, ◌++◌, if◌then◌else◌,
}
use android_device_samsung_a.LinkedList.{Err, success, failure_general, unavailable_resource}

module _ {ℓ} {A : Type ℓ} where
  -- `linked_list_add`; `allocated` says whether `malloc` gave memory.
  abbrev pub add : (allocated : Bool) → A → List A → Err × List A
  add true a xs = (success, a ∷ xs)
  add false a xs = (failure_general, xs)

  -- The last element, and what stands before it.
  abbrev pub split_last : A → List A → List A × A
  split_last a [] = ([], a)
  split_last a (b ∷ xs) = (a ∷ (split_last b xs).0, (split_last b xs).1)

  -- `linked_list_remove`
  abbrev pub remove : List A → Err × Option A × List A
  remove [] = (unavailable_resource, none, [])
  remove (a ∷ xs) = (success, some (split_last a xs).1, (split_last a xs).0)

  -- `linked_list_empty`
  abbrev pub is_empty : List A → Bool
  is_empty [] = true
  is_empty (a ∷ xs) = false

  pub split_last-append :
      (a : A) (xs : List A) → (split_last a xs).0 ++ (split_last a xs).1 ∷ [] ≡ a ∷ xs
  split_last-append a [] = refl
  split_last-append a (b ∷ xs) = λ i. a ∷ split_last-append b xs i

-- What a search finds, what is left without it, and the environment after the calls of `equal`.
pub record Found {ℓ} (A : Type ℓ) (S : Type 0) : Type ℓ where
  pub hit : Option A
  pub rest : List A
  pub env : S

module _ {ℓ} {A : Type ℓ} {S : Type 0} (equal : A → S → Bool × S) where
  -- `linked_list_search`: the first element that `equal` accepts.
  abbrev pub search : List A → S → Found A S
  search [] s = record { hit = none; rest = []; env = s }
  search (a ∷ xs) s =
      let s' = (equal a s).1 in
      let later = search xs s' in
      if (equal a s).0
      then record { hit = some a; rest = xs; env = s' }
      else record { hit = later.hit; rest = a ∷ later.rest; env = later.env }

-- `linked_list_search` with a test that changes nothing.
abbrev pub find {ℓ} : {A : Type ℓ} → (A → Bool) → List A → Option A
find test [] = none
find test (a ∷ xs) = if test a then some a else find test xs
