-- ===== src/Api/Removal.antt =====
-- `removeAdapter` moves the last adapter into the place of the one removed.
use android_device_samsung_a.Base.{
  ℕ, suc, ◌+◌, ◌≤◌, ◌≡◌, refl, ap, ◌∙◌, Bool, true, false, Option, none, some, [], ◌∷◌, ◌==◌,
  ==_iff, ltb, arith, inl, inr, length, if◌then◌else◌, Bool-cases,
}
use android_device_samsung_a.Api.{
  Slots, Mask, to_all, take_last, take_this, remove_slot, remove_adapter,
}
use android_device_samsung_a.Api.Registry.{IsPacked, times, times_in}

-- No adapter in hand means that none is left.
abbrev IsSettled : Option ℕ × Slots → Type 0
IsSettled (none, slots) = to_all slots ≡ []
IsSettled (some a, slots) = Unit {0}

take_this-IsSettled : (b : ℕ) (r : Option ℕ × Slots) → IsSettled (take_this b r)
take_this-IsSettled b (none, slots) = tt
take_this-IsSettled b (some c, slots) = tt

take_last-IsSettled : (slots : Slots) → IsSettled (take_last slots)
unfolding take_last to_all
take_last-IsSettled [] = refl
take_last-IsSettled (none ∷ slots) = refl
take_last-IsSettled (some b ∷ slots) = take_this-IsSettled b (take_last slots)

in_hand : ℕ → Option ℕ × Slots → ℕ
in_hand x r = times_in x r.0 + times x (to_all r.1)

take_this-times :
    (x b : ℕ) (r : Option ℕ × Slots)
    → IsSettled r
    → times_in x (take_this b r).0 + times x (to_all (take_this b r).1)
      ≡ times_in x (some b) + (times_in x r.0 + times x (to_all r.1))
unfolding to_all
take_this-times x b (none, slots) h = let e = ap (times x) h in omega arith
take_this-times x b (some c, slots) h = omega arith

take_last-times :
    (x : ℕ) (slots : Slots)
    → times_in x (take_last slots).0 + times x (to_all (take_last slots).1) ≡ times x (to_all slots)
unfolding take_last to_all
take_last-times x [] = refl
take_last-times x (none ∷ slots) = refl
take_last-times x (some b ∷ slots) =
    take_this-times x b (take_last slots) (take_last-IsSettled slots)
    ∙ ap (λ n. times_in x (some b) + n) (take_last-times x slots)

take_this-good :
    (b : ℕ) (r : Option ℕ × Slots)
    → IsSettled r
    → IsPacked r.1
    → IsPacked (take_this b r).1 × (length (take_this b r).1 ≡ suc (length r.1))
take_this-good b (none, slots) e h = ((e, h), refl)
take_this-good b (some c, slots) e h = (h, refl)

take_last-good :
    (slots : Slots)
    → IsPacked slots
    → IsPacked (take_last slots).1 × (length (take_last slots).1 ≡ length slots)
unfolding take_last
take_last-good [] h = (h, refl)
take_last-good (none ∷ slots) h = (h, refl)
take_last-good (some b ∷ slots) h =
    let (ih, l) = take_last-good slots h in
    let (g, l2) = take_this-good b (take_last slots) (take_last-IsSettled slots) ih in
    (g, l2 ∙ ap suc l)

moved-IsPacked : (r : Option ℕ × Slots) → IsSettled r → IsPacked r.1 → IsPacked (r.0 ∷ r.1)
moved-IsPacked (none, slots) e h = (e, h)
moved-IsPacked (some a, slots) e h = h

moved-times :
    (x : ℕ) (r : Option ℕ × Slots)
    → IsSettled r
    → times x (to_all (r.0 ∷ r.1)) ≡ times_in x r.0 + times x (to_all r.1)
unfolding to_all
moved-times x (none, slots) e = let h = ap (times x) e in omega arith
moved-times x (some a, slots) e = refl

pub remove_slot-good :
    (a : ℕ) (slots : Slots)
    → IsPacked slots
    → IsPacked (remove_slot a slots).0 × (length (remove_slot a slots).0 ≡ length slots)
unfolding remove_slot
remove_slot-good a [] h = (h, refl)
remove_slot-good a (none ∷ slots) h = (h, refl)
remove_slot-good a (some b ∷ slots) h =
    let (ih, l) = remove_slot-good a slots h in
    let (g, lt) = take_last-good slots h in
    elim (Bool-cases (b == a)) [
      | inl e ↦ rw e (moved-IsPacked (take_last slots) (take_last-IsSettled slots) g, ap suc lt)
      | inr e ↦ rw e (ih, ap suc l)
    ]

-- What is left, when `b` says whether the adapter was found.
abbrev gone : ℕ → ℕ → Bool → ℕ
gone a x b = if b then (if a == x then 1 else 0) else 0

remove_slot-times :
    (a x : ℕ) (slots : Slots)
    → times x (to_all (remove_slot a slots).0) + gone a x (remove_slot a slots).1
      ≡ times x (to_all slots)
unfolding remove_slot to_all
remove_slot-times a x [] = refl
remove_slot-times a x (none ∷ slots) = refl
remove_slot-times a x (some b ∷ slots) =
    let ih = remove_slot-times a x slots in
    let m = moved-times x (take_last slots) (take_last-IsSettled slots) in
    let t = take_last-times x slots in
    elim (Bool-cases (b == a)) [
      | inl e ↦ rw e (let same = (==_iff b a).0 e in rw same (let z = t in omega arith))
      | inr e ↦ rw e (omega arith)
    ]

remove_slot-found :
    (a : ℕ) (slots : Slots) → (remove_slot a slots).1 ≡ ltb 0 (times a (to_all slots))
unfolding remove_slot to_all
remove_slot-found a [] = refl
remove_slot-found a (none ∷ slots) = refl
remove_slot-found a (some b ∷ slots) =
    let ih = remove_slot-found a slots in
    elim (Bool-cases (b == a)) [ inl e ↦ rw e (ground arith) | inr e ↦ rw e (rw ih (ground arith)) ]

left_same :
    (a x rest : ℕ) (found : Bool) {all here : ℕ}
    → rest + gone a x found ≡ all
    → found ≡ ltb 0 here
    → found ≡ true
    → here ≡ all
    → here ≤ 1
    → (a == x) ≡ true
    → rest ≡ 0
left_same a x rest found t f is_found same once e = ground arith

left_missing :
    (found : Bool) {all here : ℕ} → found ≡ ltb 0 here → found ≡ false → here ≡ all → all ≡ 0
left_missing found f missing same = ground arith

left_other :
    (a x rest : ℕ) (found : Bool) {all : ℕ}
    → rest + gone a x found ≡ all
    → (a == x) ≡ false
    → rest ≡ all
left_other a x rest found t e = ground arith

module _ (masks : ℕ → Mask) (excluded : Mask) where
  pub remove_adapter-slots :
      (a : ℕ) (slots : Slots)
      → (remove_adapter masks excluded a slots).0
        ≡ (if (remove_slot a slots).1 then (remove_slot a slots).0 else slots)
  unfolding remove_adapter
  remove_adapter-slots a slots = elim (Bool-cases (remove_slot a slots).1) [
    | inl e ↦ rw e refl
    | inr e ↦ rw e refl
  ]

  -- What a removal leaves of the times that `x` is in the array.
  pub times_left :
      (a x : ℕ) (slots : Slots)
      → ((y : ℕ) → times y (to_all slots) ≤ 1)
      → times x (to_all (remove_adapter masks excluded a slots).0)
        ≡ (if a == x then 0 else times x (to_all slots))
  times_left a x slots once =
      let s = remove_adapter-slots a slots in
      let t = remove_slot-times a x slots in
      let f = remove_slot-found a slots in
      let o = once a in
      ap (λ l. times x (to_all l)) s ∙ elim (Bool-cases (a == x)) [
        | inl e ↦
            (let same = ap (λ y. times y (to_all slots)) ((==_iff a x).0 e) in
              elim (Bool-cases (remove_slot a slots).1) [
                | inl found ↦
                    rw e (rw found (left_same a x _ (remove_slot a slots).1 t f found same o e))
                | inr missing ↦
                    rw e (rw missing (left_missing (remove_slot a slots).1 f missing same))
              ])
        | inr e ↦ elim (Bool-cases (remove_slot a slots).1) [
          | inl found ↦ rw e (rw found (left_other a x _ (remove_slot a slots).1 t e))
          | inr missing ↦ rw e (rw missing refl)
        ]
      ]
