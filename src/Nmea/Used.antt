-- ===== src/Nmea/Used.antt =====
-- The list of the satellites used, which the position report takes from the masks that the satellite
-- report left, for `$GPGSA` and `$GNGSA`.
use android_device_samsung_a.Base.{
  ℕ, zero, suc, ◌+◌, ◌-◌, ◌≤◌, ◌<◌, ◌≡◌, refl, sym, ap, ◌∙◌, Bool, true, false, ◌&&◌, ◌||◌, Option,
  List, [], ◌∷◌, leb, ◌==◌, All, arith, Bool-cases, inl, inr, if◌then◌else◌, ==_iff,
}
use android_device_samsung_a.Text.{Text}
use android_device_samsung_a.Api.{Mask}
use android_device_samsung_a.Sv.{any_bit}
use android_device_samsung_a.Nmea.{
  Sat, Counts, count, no_counts, is_gps, is_glonass, with_used, NmeaState, sentences_of, gpgsv,
  glgsv, send_both, generate_sv,
}

-- The loop over the bits, of which `left` are left: the number of each bit set, `i` for the first.
-- The mask has 32 bits, so the list never has more.
unfoldable pub used_from : (left i : ℕ) → Mask → List ℕ
used_from zero i m = []
used_from (suc left) i m =
    let rest = used_from left (i + 1) (λ j. m (suc j)) in
    if any_bit (suc left) m then (if m 0 then i ∷ rest else rest) else []

-- `svUsedList` with the offset 0, and `gloUsedList` with the offset 64.
abbrev pub used_list : (offset : ℕ) → Mask → List ℕ
used_list offset m = used_from 32 (1 + offset) m

abbrev pub member : ℕ → List ℕ → Bool
member x [] = false
member x (y ∷ ys) = (x == y) || member x ys

or_false : (b c : Bool) → (b || c) ≡ false → (b ≡ false) × (c ≡ false)
or_false false c h = (refl, h)
or_false true c h = cc

none_set : (n k : ℕ) (m : Mask) → any_bit n m ≡ false → k < n → m k ≡ false
unfolding any_bit
none_set zero k m h l = ground arith
none_set (suc n) k m h l =
    let both = or_false (m n) (any_bit n m) h in
    elim (Bool-cases (k == n)) [
      | inl e ↦ ap m ((==_iff k n).0 e) ∙ both.0
      | inr e ↦ none_set n k m both.1 (ground arith)
    ]

smaller : (left i x : ℕ) (m : Mask) → x < i → member x (used_from left i m) ≡ false
unfolding used_from
smaller zero i x m h = refl
smaller (suc left) i x m h =
    let ih = smaller left (i + 1) x (λ j. m (suc j)) (omega arith) in
    let ne : (x == i) ≡ false = ground arith in
    elim (Bool-cases (any_bit (suc left) m)) [
      | inr none_left ↦ rw none_left refl
      | inl go ↦ elim (Bool-cases (m 0)) [ inl b ↦ rw (go, b, ne) ih | inr b ↦ rw (go, b) ih ]
    ]

used_from-member : (left i k : ℕ) (m : Mask) → k < left → member (i + k) (used_from left i m) ≡ m k
unfolding used_from
used_from-member zero i k m h = ground arith
used_from-member (suc left) i zero m h =
    let later = smaller left (i + 1) (i + 0) (λ j. m (suc j)) (omega arith) in
    let same : (i + 0 == i) ≡ true = ground arith in
    elim (Bool-cases (any_bit (suc left) m)) [
      | inr e ↦ (let off = none_set (suc left) 0 m e (omega arith) in rw e (sym off))
      | inl go ↦ elim (Bool-cases (m 0)) [
        | inl b ↦ rw (go, b, same) refl
        | inr b ↦ rw (go, b) later
      ]
    ]
used_from-member (suc left) i (suc k) m h =
    let ih = used_from-member left (i + 1) k (λ j. m (suc j)) (omega arith) in
    let moved : i + suc k ≡ i + 1 + k = omega arith in
    let here = ap (λ x. member x (used_from left (i + 1) (λ j. m (suc j)))) moved ∙ ih in
    let ne : (i + suc k == i) ≡ false = ground arith in
    elim (Bool-cases (any_bit (suc left) m)) [
      | inr e ↦ (let off = none_set (suc left) (suc k) m e (omega arith) in rw e (sym off))
      | inl go ↦ elim (Bool-cases (m 0)) [ inl b ↦ rw (go, b, ne) here | inr b ↦ rw (go, b) here ]
    ]

-- An id with a bit in the mask.
abbrev pub HasBit : Sat → Type 0
HasBit sv = (1 ≤ sv.svid) × (sv.svid ≤ 32)

-- Whether a GPS satellite with this id is marked as used.
abbrev pub is_used : ℕ → List Sat → Bool
is_used x [] = false
is_used x (sv ∷ svs) = (is_gps sv && sv.used_in_fix && (sv.svid == x)) || is_used x svs

same_bit : (svid k : ℕ) → 1 ≤ svid → (k == svid - 1) ≡ (svid == suc k)
same_bit svid k h = ground arith

used_or : (u x y : Bool) → (if u then x || y else x) ≡ (x || (u && y))
used_or true x y = refl
used_or false true y = refl
used_or false false y = refl

or_nothing : (b : Bool) → b ≡ (b || false)
or_nothing true = refl
or_nothing false = refl

or_three : (a b c : Bool) → (a || b || c) ≡ (a || (b || c))
or_three true b c = refl
or_three false b c = refl

module _ (undefined : ℕ → Mask) (printed : (width n : ℕ) → Text) where
  with_used-bit :
      (sv : Sat) (m : Mask) (k : ℕ)
      → HasBit sv
      → with_used undefined printed sv m k ≡ (m k || (sv.used_in_fix && (sv.svid == suc k)))
  with_used-bit sv m k (a, b) =
      let in_range : (leb 1 sv.svid && leb sv.svid 32) ≡ true = ground arith in
      ap
        (λ f.
          if sv.used_in_fix
          then m k || (if f then k == sv.svid - 1 else undefined sv.svid k)
          else m k)
        in_range
      ∙ ap (λ f. if sv.used_in_fix then m k || f else m k) (same_bit sv.svid k a)
      ∙ used_or sv.used_in_fix (m k) (sv.svid == suc k)

  count-used :
      (svs : List Sat) (c : Counts) (k : ℕ)
      → All HasBit svs
      → (count undefined printed svs c).gps_used_mask k ≡ (c.gps_used_mask k || is_used (suc k) svs)
  unfolding count
  count-used [] c k h = or_nothing (c.gps_used_mask k)
  count-used (sv ∷ svs) c k (h, hs) = elim (Bool-cases (is_gps sv)) [
    | inl g ↦
        (let mask = with_used undefined printed sv c.gps_used_mask in
          let ih =
            count-used svs (record c { gps_used_mask = mask; gps_count = suc c.gps_count }) k hs in
          rw g (
            ih
            ∙ ap (λ b. b || is_used (suc k) svs) (with_used-bit sv c.gps_used_mask k h)
            ∙ or_three (c.gps_used_mask k) (sv.used_in_fix && (sv.svid == suc k))
                (is_used (suc k) svs)))
    | inr g ↦ elim (Bool-cases (is_glonass sv)) [
      | inl l ↦
          (let ih =
              count-used svs
                (record c {
                  glo_used_mask = with_used undefined printed sv c.glo_used_mask;
                  gln_count = suc c.gln_count;
                })
                k hs in
            rw (g, l) ih)
      | inr l ↦ (let ih = count-used svs c k hs in rw (g, l) ih)
    ]
  ]

  sent-gps_used :
      (dop : Option ℕ) (g l : List Text × Bool) (st : NmeaState)
      → (send_both dop g l st).gps_used ≡ st.gps_used
  sent-gps_used dop (g, true) (l, true) st = refl
  sent-gps_used dop (g, true) (l, false) st = refl
  sent-gps_used dop (g, false) (l, b) st = refl

  -- After a report of satellites, all with ids from 1 to 32, the list that the position report takes
  -- for `$GPGSA` has an id from 1 to 32 exactly if it is that of a GPS satellite marked as used.
  pub used_list-is_used :
      (dop : Option ℕ) (svs : List Sat) (st : NmeaState) (k : ℕ)
      → All HasBit svs
      → k < 32
      → member (1 + k) (used_list 0 (generate_sv undefined printed dop svs st).gps_used)
        ≡ is_used (suc k) svs
  unfolding generate_sv
  used_list-is_used dop svs st k h l =
      let c = count undefined printed svs no_counts in
      used_from-member 32 1 k (generate_sv undefined printed dop svs st).gps_used l
      ∙ ap (λ m. m k)
          (sent-gps_used dop (sentences_of undefined printed is_gps gpgsv c.gps_count svs)
            (sentences_of undefined printed is_glonass glgsv c.gln_count svs)
            (record st { gps_used = c.gps_used_mask; glo_used = c.glo_used_mask }))
      ∙ count-used svs no_counts k h
