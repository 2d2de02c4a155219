-- ===== src/Text/Split.antt =====
-- `loc_util_split_string` against a definition of splitting.
use android_device_samsung_a.Base.{
  ℕ, zero, suc, ◌≡◌, sym, ap, ◌∙◌, List, [], ◌∷◌, ◌++◌, take, inl, inr, Bool-cases, ◌==◌,
  if◌then◌else◌,
}
use mathlib.Core.List.{append_assoc, append-nil}
use android_device_samsung_a.Text.{Text, split_loop, split_string, but_one}

-- The first substring, and the others.
abbrev pub split_first : (delimiter : ℕ) → Text → Text × List Text
split_first d [] = ([], [])
split_first d (c ∷ s) =
    let r = split_first d s in if c == d then ([], r.0 ∷ r.1) else (c ∷ r.0, r.1)

-- All substrings between delimiters.
abbrev pub split : (delimiter : ℕ) → Text → List Text
split d s = (split_first d s).0 ∷ (split_first d s).1

split_loop-split :
    (d more : ℕ) (current s : Text)
    → split_loop d more current s ≡ (current ++ (split_first d s).0) ∷ take more (split_first d s).1
unfolding split_loop
split_loop-split d zero current [] = ap (λ a. a ∷ []) (sym (append-nil current))
split_loop-split d (suc more) current [] = ap (λ a. a ∷ []) (sym (append-nil current))
split_loop-split d zero current (c ∷ s) = elim (Bool-cases (c == d)) [
  | inl e ↦ simp e (ap (λ a. a ∷ []) (sym (append-nil current)))
  | inr e ↦ simp e (
      split_loop-split d zero (current ++ c ∷ []) s
      ∙ ap (λ a. a ∷ []) (append_assoc current (c ∷ []) (split_first d s).0))
]
split_loop-split d (suc more) current (c ∷ s) = elim (Bool-cases (c == d)) [
  | inl e ↦ simp e (
      ap (◌∷◌ current) (split_loop-split d more [] s)
      ∙ ap (λ a. a ∷ (split_first d s).0 ∷ take more (split_first d s).1)
          (sym (append-nil current)))
  | inr e ↦ simp e (
      split_loop-split d (suc more) (current ++ c ∷ []) s
      ∙ ap (λ a. a ∷ take (suc more) (split_first d s).1)
          (append_assoc current (c ∷ []) (split_first d s).0))
]

-- `loc_util_split_string` gives the substrings between the delimiters, but no more than
-- `max_num_substrings` of them, and one if that is 0.
pub split_string-split :
    (s : Text) (max d : ℕ) → split_string s max d ≡ take (suc (but_one max)) (split d s)
unfolding split_string
split_string-split s max d = split_loop-split d (but_one max) [] s
