-- ===== src/Nmea/Filling.antt =====
-- What one sentence takes of the satellites, and that it has room for it.
use mathlib.Core.List.{append-nil, append_assoc}
use android_device_samsung_a.Base.{
  ℕ, zero, suc, ◌+◌, ◌*◌, ◌≤◌, ◌<◌, ◌≡◌, refl, sym, ap, ◌∙◌, Bool, true, Option, none, some, List,
  [], ◌∷◌, ◌++◌, length, length-append, take, ltb, All, arith, Bool-cases, inl, inr, if◌then◌else◌,
}
use android_device_samsung_a.Text.{Text}
use android_device_samsung_a.Api.{Mask}
use android_device_samsung_a.Nmea.{Sat, put, put_strength, put_sat, values, fill, sentence_max}

-- The satellites that a sentence is about.
unfoldable pub kept : (Sat → Bool) → List Sat → List Sat
kept wanted [] = []
kept wanted (sv ∷ svs) = let rest = kept wanted svs in if wanted sv then sv ∷ rest else rest

abbrev pub drop : {A : Type 0} → ℕ → List A → List A
drop zero xs = xs
drop (suc n) [] = []
drop (suc n) (x ∷ xs) = drop n xs

-- The printed values have at most three digits.
abbrev pub IsShort : ((width n : ℕ) → Text) → Sat → Type 0
IsShort printed sv =
    (length (printed 2 sv.svid) ≤ 3)
    × (length (printed 2 sv.elevation) ≤ 3)
    × (length (printed 3 sv.azimuth) ≤ 3)
    × ((v : ℕ) → sv.c_n0 ≡ some v → length (printed 2 v) ≤ 3)

module _ (undefined : ℕ → Mask) (printed : (width n : ℕ) → Text) where
  -- The text of an entry.
  abbrev strength : Option ℕ → Text
  strength none = []
  strength (some v) = printed 2 v

  abbrev pub entry : Sat → Text
  entry sv = values undefined printed sv ++ strength sv.c_n0

  unfoldable pub entries : List Sat → Text
  entries [] = []
  entries (sv ∷ svs) = entry sv ++ entries svs

  unfoldable pub put_all : List Sat → Option Text → Option Text
  put_all [] s = s
  put_all (sv ∷ svs) s = put_all svs (put_sat undefined printed sv s)

  pub fill_lem :
      (wanted : Sat → Bool) (room : ℕ) (s : Option Text) (svs : List Sat)
      → ((fill undefined printed wanted room s svs).0 ≡ put_all (take room (kept wanted svs)) s)
        × (kept wanted (fill undefined printed wanted room s svs).1 ≡ drop room (kept wanted svs))
  unfolding fill kept put_all
  fill_lem wanted zero s svs = (refl, refl)
  fill_lem wanted (suc room) s [] = (refl, refl)
  fill_lem wanted (suc room) s (sv ∷ svs) = elim (Bool-cases (wanted sv)) [
    | inl e ↦ (let ih = fill_lem wanted room (put_sat undefined printed sv s) svs in rw e ih)
    | inr e ↦ (let ih = fill_lem wanted (suc room) s svs in rw e ih)
  ]

  values-length : (sv : Sat) → IsShort printed sv → length (values undefined printed sv) ≤ 13
  values-length sv (a, b, c, d) =
      let e1 = length-append (printed 3 sv.azimuth) (b',' ∷ []) in
      let e2 =
        length-append (printed 2 sv.elevation) (b',' ∷ (printed 3 sv.azimuth ++ (b',' ∷ []))) in
      let e3 =
        length-append (printed 2 sv.svid)
          (b',' ∷ (printed 2 sv.elevation ++ (b',' ∷ (printed 3 sv.azimuth ++ (b',' ∷ []))))) in
      omega arith

  strength_put :
      (o : Option ℕ) (s : Text)
      → ((v : ℕ) → o ≡ some v → length (printed 2 v) ≤ 3)
      → length s + 3 < sentence_max
      → put_strength undefined printed o (some s) ≡ some (s ++ strength o)
  strength_put none s h k = ap some (sym (append-nil s))
  strength_put (some v) s h k =
      (let f = h v refl in
        let fits : ltb (length s + length (printed 2 v)) sentence_max ≡ true = ground arith in
        rw fits refl)

  strength-length :
      (o : Option ℕ) → ((v : ℕ) → o ≡ some v → length (printed 2 v) ≤ 3) → length (strength o) ≤ 3
  strength-length none h = omega arith
  strength-length (some v) h = h v refl

  pub put_fits :
      (text s : Text) → length s + length text < sentence_max → put text (some s) ≡ some (s ++ text)
  put_fits text s h =
      let fits : ltb (length s + length text) sentence_max ≡ true = ground arith in rw fits refl

  put_sat_lem :
      (sv : Sat) (s : Text)
      → IsShort printed sv
      → length s + 16 < sentence_max
      → put_sat undefined printed sv (some s) ≡ some (s ++ entry sv)
  put_sat_lem sv s short h =
      let long = values-length sv short in
      let grown = length-append s (values undefined printed sv) in
      ap (put_strength undefined printed sv.c_n0)
        (put_fits (values undefined printed sv) s (omega arith))
      ∙ strength_put sv.c_n0 (s ++ values undefined printed sv) short.3 (omega arith)
      ∙ ap some (append_assoc s (values undefined printed sv) (strength sv.c_n0))

  entry-length : (sv : Sat) → IsShort printed sv → length (entry sv) ≤ 16
  entry-length sv short =
      let long = values-length sv short in
      let more = strength-length sv.c_n0 short.3 in
      let both = length-append (values undefined printed sv) (strength sv.c_n0) in omega arith

  -- Satellites for which there is room are all in the sentence.
  pub put_all_lem :
      (svs : List Sat) (s : Text)
      → All (IsShort printed) svs
      → length s + 16 * length svs < sentence_max
      → put_all svs (some s) ≡ some (s ++ entries svs)
  unfolding put_all entries
  put_all_lem [] s all h = ap some (sym (append-nil s))
  put_all_lem (sv ∷ svs) s (short, all) h =
      let long = entry-length sv short in
      let grown = length-append s (entry sv) in
      ap (put_all svs) (put_sat_lem sv s short (omega arith))
      ∙ put_all_lem svs (s ++ entry sv) all (omega arith)
      ∙ ap some (append_assoc s (entry sv) (entries svs))
