-- ===== src/Text/Trim.antt =====
-- `loc_util_trim_space` against a definition of trimming.
use android_device_samsung_a.Base.{
  ℕ, zero, suc, ◌≤◌, ◌≡◌, refl, ap, ◌∙◌, Bool, true, false, ◌&&◌, none, some, [], ◌∷◌, ◌++◌, arith,
  take, length, length-append, inl, inr, Bool-cases, if◌then◌else◌,
}
use mathlib.Core.List.{append_assoc}
use android_device_samsung_a.Text.{Text, is_space, trim_loop, terminated, trim_space}

abbrev pub all_space : Text → Bool
all_space [] = true
all_space (c ∷ s) = is_space c && all_space s

-- Without the spaces at the front, and without those at the end.
abbrev pub trim_front : Text → Text
trim_front [] = []
trim_front (c ∷ s) = if is_space c then trim_front s else c ∷ s

abbrev pub trim_end : Text → Text
trim_end [] = []
trim_end (c ∷ s) = if is_space c && all_space s then [] else c ∷ trim_end s

trim_end-all_space : (s : Text) → all_space s ≡ true → trim_end s ≡ []
trim_end-all_space [] h = refl
trim_end-all_space (c ∷ s) h = ground arith

take-length : (s : Text) → take (length s) s ≡ s
take-length [] = refl
take-length (c ∷ s) = ap (◌∷◌ c) (take-length s)

take-append : (k : ℕ) (s t : Text) → k ≤ length s → take k (s ++ t) ≡ take k s
take-append zero s t h = refl
take-append (suc k) [] t h = absurd (omega arith)
take-append (suc k) (c ∷ s) t h = ap (◌∷◌ c) (take-append k s t (omega arith))

-- Behind the first other character.
trim_loop-seen :
    (s orig written : Text) (k : ℕ)
    → k ≤ length written
    → terminated orig (trim_loop true written (some k) s)
      ≡ (if all_space s then take k written else written ++ trim_end s)
unfolding trim_loop
trim_loop-seen [] orig written k h = refl
trim_loop-seen (c ∷ s) orig written k h =
    let shifted = written ++ c ∷ [] in
    elim (Bool-cases (is_space c)) [
      | inl space ↦
          let ih =
            trim_loop-seen s orig shifted k (omega (arith, length-append written (c ∷ []))) in
          elim (Bool-cases (all_space s)) [
            | inl e ↦ simp (space, e) (simp e at ih ∙ take-append k written (c ∷ []) h)
            | inr e ↦ simp (space, e) (simp e at ih ∙ append_assoc written (c ∷ []) (trim_end s))
          ]
      | inr other ↦
          let ih = trim_loop-seen s orig shifted (length shifted) (omega arith) in
          elim (Bool-cases (all_space s)) [
            | inl e ↦ simp (other, trim_end-all_space s e) (simp e at ih ∙ take-length shifted)
            | inr e ↦ simp other (simp e at ih ∙ append_assoc written (c ∷ []) (trim_end s))
          ]
    ]

trim_loop-before :
    (s orig : Text)
    → terminated orig (trim_loop false [] none s)
      ≡ (if all_space s then orig else trim_end (trim_front s))
unfolding trim_loop
trim_loop-before [] orig = refl
trim_loop-before (c ∷ s) orig = elim (Bool-cases (is_space c)) [
  | inl space ↦ rw space (trim_loop-before s orig)
  | inr other ↦
      let seen = trim_loop-seen s orig (c ∷ []) 1 (omega arith) in
      elim (Bool-cases (all_space s)) [
        | inl e ↦ simp (other, trim_end-all_space s e) (simp e at seen)
        | inr e ↦ simp other (simp e at seen)
      ]
]

-- `loc_util_trim_space` takes the spaces off both ends of a text, but leaves a text of spaces only
-- as it is.
trim_space-ends : (s : Text) → trim_space s ≡ (if all_space s then s else trim_end (trim_front s))
unfolding trim_space
trim_space-ends s = trim_loop-before s s
