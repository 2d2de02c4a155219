-- ===== src/Api/Registry.antt =====
-- The adapters that are registered after `addAdapter` and `removeAdapter`.
use android_device_samsung_a.Base.{
  ℕ, suc, ◌+◌, ◌≤◌, ◌≡◌, refl, sym, ap, ◌∙◌, true, false, ◌||◌, Option, none, some, List, [], ◌∷◌,
  ◌++◌, ◌==◌, ==_iff, leb, ltb, arith, inl, inr, length, if◌then◌else◌, Bool-cases,
}
use android_device_samsung_a.Api.{Slots, Mask, max_adapters, to_all, add_adapter}

-- No adapter comes after a NULL.
abbrev pub IsPacked : Slots → Type 0
IsPacked [] = Unit {0}
IsPacked (none ∷ slots) = (to_all slots ≡ []) × IsPacked slots
IsPacked (some a ∷ slots) = IsPacked slots

abbrev pub times : ℕ → List ℕ → ℕ
times x [] = 0
times x (a ∷ list) = (if a == x then 1 else 0) + times x list

abbrev pub times_in : ℕ → Option ℕ → ℕ
times_in x none = 0
times_in x (some a) = if a == x then 1 else 0

-- The end of the list, unless the adapter is there or all places are taken.
unfoldable pub added : (places adapter : ℕ) → List ℕ → List ℕ
added n a list = if ltb 0 (times a list) || leb n (length list) then list else list ++ a ∷ []

-- What holds for the array at all times.
abbrev pub IsGood : Slots → Type 0
IsGood slots =
    IsPacked slots × (length slots ≡ max_adapters) × ((x : ℕ) → times x (to_all slots) ≤ 1)

pub to_all-le : (slots : Slots) → length (to_all slots) ≤ length slots
unfolding to_all
to_all-le [] = omega arith
to_all-le (none ∷ slots) = omega arith
to_all-le (some a ∷ slots) = let ih = to_all-le slots in omega arith

added_first : (n a : ℕ) → added (suc n) a [] ≡ a ∷ []
unfolding added
added_first n a = ground arith

added_nowhere : (a : ℕ) → [] ≡ added 0 a []
unfolding added
added_nowhere a = refl

added_here : (n b a : ℕ) (list : List ℕ) → (b == a) ≡ true → added n a (b ∷ list) ≡ b ∷ list
unfolding added
added_here n b a list e = ground arith

added_later :
    (n b a : ℕ) (list : List ℕ) → (b == a) ≡ false → added (suc n) a (b ∷ list) ≡ b ∷ added n a list
unfolding added
added_later n b a list e = ground arith

module _ (masks : ℕ → Mask) where
  pub add_adapter-added :
      (a : ℕ) (slots : Slots)
      → IsPacked slots
      → to_all (add_adapter masks a slots).0 ≡ added (length slots) a (to_all slots)
  unfolding add_adapter to_all
  add_adapter-added a [] h = added_nowhere a
  add_adapter-added a (none ∷ slots) (e, h) = ap (λ l. a ∷ l) e ∙ sym (added_first (length slots) a)
  add_adapter-added a (some b ∷ slots) h =
      let ih = add_adapter-added a slots h in
      elim (Bool-cases (b == a)) [
        | inl e ↦ rw e (sym (added_here (suc (length slots)) b a (to_all slots) e))
        | inr e ↦ rw e (ap (λ l. b ∷ l) ih ∙ sym (added_later (length slots) b a (to_all slots) e))
      ]

  pub add_adapter-IsPacked :
      (a : ℕ) (slots : Slots) → IsPacked slots → IsPacked (add_adapter masks a slots).0
  unfolding add_adapter
  add_adapter-IsPacked a [] h = h
  add_adapter-IsPacked a (none ∷ slots) (e, h) = h
  add_adapter-IsPacked a (some b ∷ slots) h =
      let ih = add_adapter-IsPacked a slots h in
      elim (Bool-cases (b == a)) [ inl e ↦ rw e h | inr e ↦ rw e ih ]

  pub length-add_adapter :
      (a : ℕ) (slots : Slots) → length (add_adapter masks a slots).0 ≡ length slots
  unfolding add_adapter
  length-add_adapter a [] = refl
  length-add_adapter a (none ∷ slots) = refl
  length-add_adapter a (some b ∷ slots) =
      let ih = length-add_adapter a slots in
      elim (Bool-cases (b == a)) [ inl e ↦ rw e refl | inr e ↦ rw e (ap suc ih) ]

times-append : (x : ℕ) (xs ys : List ℕ) → times x (xs ++ ys) ≡ times x xs + times x ys
times-append x [] ys = omega arith
times-append x (a ∷ xs) ys = let ih = times-append x xs ys in omega arith

times_not :
    (n a : ℕ) (list : List ℕ)
    → (ltb 0 (times a list) || leb n (length list)) ≡ false
    → times a list ≡ 0
times_not n a list e = ground arith

at_end :
    (n a x : ℕ) (list : List ℕ)
    → times x list ≤ 1
    → (ltb 0 (times a list) || leb n (length list)) ≡ false
    → times x list + times x (a ∷ []) ≤ 1
at_end n a x list h e =
    let z = times_not n a list e in
    elim (Bool-cases (a == x)) [
      | inl same ↦
          rw same (let z2 = ap (λ y. times y list) (sym ((==_iff a x).0 same)) ∙ z in omega arith)
      | inr other ↦ rw other (omega arith)
    ]

pub times-added :
    (n a x : ℕ) (list : List ℕ) → ((y : ℕ) → times y list ≤ 1) → times x (added n a list) ≤ 1
unfolding added
times-added n a x list once =
    let h = once x in
    let l = times-append x list (a ∷ []) in
    elim (Bool-cases (ltb 0 (times a list) || leb n (length list))) [
      | inl e ↦ rw e h
      | inr e ↦ rw e (rw l (at_end n a x list h e))
    ]
