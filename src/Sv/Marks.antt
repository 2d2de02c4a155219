-- ===== src/Sv/Marks.antt =====
-- Which satellites are marked.
use android_device_samsung_a.Base.{
  ℕ, zero, suc, ◌-◌, ◌≤◌, ◌<◌, ◌≡◌, ◌≢◌, refl, ap, ap₂, ◌∙◌, Bool, true, false, ◌&&◌, ◌||◌, List,
  [], ◌∷◌, map, ◌==◌, leb, arith, inl, inr, if◌then◌else◌, Bool-cases, All, ==_iff,
}
use android_device_samsung_a.Api.{Mask}
use android_device_samsung_a.Sv.{
  Constellation, gps, glonass, beidou, galileo, unknown, Sv, Used, mask_of, any_bit, shifted, mark,
  mark_all,
}

-- An id that the shift of an `int` is defined for, but for the last.
abbrev pub IsPlain : Sv → Type 0
IsPlain sv = (1 ≤ sv.svid) × (sv.svid ≤ 31)

and_false : (b : Bool) → (b && false || false) ≡ false
and_false true = refl
and_false false = refl

and_true : (b : Bool) → (b && true || false) ≡ b
and_true true = refl
and_true false = refl

and_none : (b c : Bool) → (b && false || c) ≡ c
and_none true c = refl
and_none false c = refl

or_true : (b : Bool) → (b || true) ≡ true
or_true true = refl
or_true false = refl

ne_of : (n k : ℕ) → (n == k) ≡ false → n ≢ k
ne_of n k e = ground arith

any_bit-none : (n k : ℕ) (m : Mask) → n ≤ k → any_bit n (λ i. m i && (i == k)) ≡ false
unfolding any_bit
any_bit-none zero k m h = refl
any_bit-none (suc n) k m h =
    let ih = any_bit-none n k m (omega arith) in
    let ne : (n == k) ≡ false = ground arith in rw (ne, ih) (and_false (m n))

any_bit-one : (n k : ℕ) (m : Mask) → k < n → any_bit n (λ i. m i && (i == k)) ≡ m k
unfolding any_bit
any_bit-one zero k m h = ground arith
any_bit-one (suc n) k m h = elim (Bool-cases (n == k)) [
  | inl e ↦
      (let same = (==_iff n k).0 e in
        let none_below = any_bit-none n k m (omega arith) in
        rw (e, none_below) (and_true (m n) ∙ ap m same))
  | inr e ↦
      (let ih = any_bit-one n k m (omega (arith, ne_of n k e)) in rw (e, ih) (and_none (m n) (m k)))
]

any_bit-found : (n k : ℕ) (m : Mask) → k < n → m k ≡ true → any_bit n m ≡ true
unfolding any_bit
any_bit-found zero k m h e = ground arith
any_bit-found (suc n) k m h e = elim (Bool-cases (n == k)) [
  | inl same ↦ (let t = ap m ((==_iff n k).0 same) ∙ e in rw t refl)
  | inr other ↦
      (let ih = any_bit-found n k m (omega (arith, ne_of n k other)) e in rw ih (or_true (m n)))
]

module _ (undefined : ℕ → Mask) where
  shifted-plain : (svid : ℕ) → 1 ≤ svid → svid ≤ 31 → shifted undefined svid ≡ (λ i. i == svid - 1)
  shifted-plain svid h k =
      let e : (leb 1 svid && leb svid 31) ≡ true = ground arith in
      ap (λ b i. if b then i == svid - 1 else if svid == 32 then leb 31 i else undefined svid i) e

  -- Whether the last position used a satellite.
  abbrev pub was_used : Used → Constellation → (svid : ℕ) → Bool
  was_used u gps svid = u.gps_mask (svid - 1)
  was_used u glonass svid = u.glo_mask (svid - 1)
  was_used u beidou svid = u.bds_mask (svid - 1)
  was_used u galileo svid = u.gal_mask (svid - 1)
  was_used u unknown svid = false

  abbrev pub used_bit : Used → Sv → Sv
  used_bit u sv = record sv { used_in_fix = was_used u sv.constellation sv.svid }

  mask_of-was_used :
      (u : Used) (c : Constellation) (svid : ℕ) → mask_of u c (svid - 1) ≡ was_used u c svid
  mask_of-was_used u gps svid = refl
  mask_of-was_used u glonass svid = refl
  mask_of-was_used u beidou svid = refl
  mask_of-was_used u galileo svid = refl
  mask_of-was_used u unknown svid = refl

  mark-plain : (u : Used) (sv : Sv) → IsPlain sv → mark undefined u sv ≡ used_bit u sv
  mark-plain u sv (h, k) =
      ap (λ f. record sv { used_in_fix = any_bit 64 (λ i. mask_of u sv.constellation i && f i) })
        (shifted-plain sv.svid h k)
      ∙ ap (λ b. record sv { used_in_fix = b })
          (any_bit-one 64 (sv.svid - 1) (mask_of u sv.constellation) (omega arith)
            ∙ mask_of-was_used u sv.constellation sv.svid)

  -- Of satellites with ids from 1 to 31 each is marked exactly if the mask of its constellation,
  -- the one for GPS, GLONASS, BeiDou or Galileo, has the bit of its id, and none of another
  -- constellation is; the list is otherwise as it was, and so is the rest of each entry.
  pub mark_all-plain :
      (u : Used) (svs : List Sv) → All IsPlain svs → mark_all undefined u svs ≡ map (used_bit u) svs
  unfolding mark_all
  mark_all-plain u [] h = refl
  mark_all-plain u (sv ∷ svs) (h, hs) =
      ap₂ (λ x xs. x ∷ xs) (mark-plain u sv h) (mark_all-plain u svs hs)

  -- The satellite with the id 32 is marked if the mask of its constellation has any bit from 31 on,
  -- also one of another satellite.
  mark-sign_extended :
      (u : Used) (sv : Sv) (j : ℕ)
      → sv.svid ≡ 32
      → 31 ≤ j
      → j < 64
      → mask_of u sv.constellation j ≡ true
      → (mark undefined u sv).used_in_fix ≡ true
  mark-sign_extended u sv j e h k b =
      let l : leb 31 j ≡ true = ground arith in
      let t : shifted undefined sv.svid j ≡ true = ap (λ n. shifted undefined n j) e ∙ l in
      any_bit-found 64 j _ k (rw (b, t) refl)
