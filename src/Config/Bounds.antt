-- ===== src/Config/Bounds.antt =====
-- What the table holds after a file is read: values of the parameters' types, and text that its
-- buffer can hold.
use android_device_samsung_a.Base.{
  ℕ, zero, suc, ◌≤◌, ◌≡◌, ◌&&◌, Option, none, some, List, [], ◌∷◌, inl, inr, arith, ◌==◌, ==_iff,
  length, take, All, Bool-cases,
}
use android_device_samsung_a.Text.{Text, equal_text, strtok}
use android_device_samsung_a.Config.{
  Setting, text, number, float, Param, Value, Numbers, max_param_string, stored_text,
  set_config_entry, set_entries, fill_value, fill_name, fill_conf_item, less_wrapping, read_loop,
  clear_set, read_conf_r, read_conf,
}

length-take : {A : Type 0} (n : ℕ) (xs : List A) → length (take n xs) ≤ n
length-take zero xs = omega arith
length-take (suc n) [] = omega arith
length-take (suc n) (x ∷ xs) = let ih = length-take n xs in omega arith

module _ {N F : Type 0} where
  -- A value fits the type letter: text of at most `LOC_MAX_PARAM_STRING` bytes for `s`, an int for
  -- `n`, a double for `f`.
  abbrev pub Fits : ℕ → Setting N F → Type 0
  Fits c (text s) = (c ≡ b's') × (length s ≤ max_param_string)
  Fits c (number n) = c ≡ b'n'
  Fits c (float f) = c ≡ b'f'

  abbrev pub IsSound : Param N F → Type 0
  IsSound p = Fits p.param_type p.value

  stored_text-Fits :
      (p : Param N F) (s : Text)
      → p.param_type ≡ b's'
      → Fits p.param_type (stored_text {N = N} {F = F} s)
  stored_text-Fits p s is_text = elim (Bool-cases (equal_text s (b'N' ∷ b'U' ∷ b'L' ∷ b'L' ∷ []))) [
    | inl e ↦ rw e (is_text, omega arith)
    | inr e ↦ rw e (is_text, length-take max_param_string s)
  ]

  set_config_entry-IsSound :
      (p : Param N F) (v : Value N F) → IsSound p → IsSound (set_config_entry p v).1
  unfolding set_config_entry
  set_config_entry-IsSound p v h =
      elim (Bool-cases (equal_text p.param_name v.param_name && p.has_ptr)) [
        | inr e ↦ rw e h
        | inl e ↦ rw e (elim (Bool-cases (p.param_type == b's')) [
          | inl es ↦ rw es (stored_text-Fits p v.param_str_value ((==_iff _ _).0 es))
          | inr es ↦ rw es (elim (Bool-cases (p.param_type == b'n')) [
            | inl en ↦ rw en ((==_iff _ _).0 en)
            | inr en ↦ rw en (elim (Bool-cases (p.param_type == b'f')) [
              | inl ef ↦ rw ef ((==_iff _ _).0 ef)
              | inr ef ↦ rw ef h
            ])
          ])
        ])
      ]

  set_entries-IsSound :
      (ps : List (Param N F)) (v : Value N F) → All IsSound ps → All IsSound (set_entries ps v).1
  unfolding set_entries
  set_entries-IsSound [] v h = h
  set_entries-IsSound (p ∷ ps) v (h, hs) =
      (set_config_entry-IsSound p v h, set_entries-IsSound ps v hs)

  module _ (lib : Numbers N F) where
    fill_value-IsSound :
        (name : Text) (r : Option (Text × Text)) (ps : List (Param N F))
        → All IsSound ps
        → All IsSound (fill_value lib name r ps).1
    fill_value-IsSound name none ps h = h
    fill_value-IsSound name (some (value, rest)) ps h = set_entries-IsSound ps _ h

    fill_name-IsSound :
        (r : Option (Text × Text)) (ps : List (Param N F))
        → All IsSound ps
        → All IsSound (fill_name lib r ps).1
    fill_name-IsSound none ps h = h
    fill_name-IsSound (some (name, rest)) ps h = fill_value-IsSound name (strtok b'=' rest) ps h

    pub fill_conf_item-IsSound :
        (line : Text) (ps : List (Param N F))
        → All IsSound ps
        → All IsSound (fill_conf_item lib line ps).1
    unfolding fill_conf_item
    fill_conf_item-IsSound line ps h = fill_name-IsSound (strtok b'=' line) ps h

    clear_set-IsSound : (ps : List (Param N F)) → All IsSound ps → All IsSound (clear_set ps)
    clear_set-IsSound [] h = h
    clear_set-IsSound (p ∷ ps) (h, hs) = (h, clear_set-IsSound ps hs)

    read_loop-IsSound :
        (n : ℕ) (lines : List Text) (ps : List (Param N F))
        → All IsSound ps
        → All IsSound (read_loop lib n lines ps)
    unfolding read_loop
    read_loop-IsSound n [] ps h = h
    read_loop-IsSound n (line ∷ lines) ps h =
        let r = fill_conf_item lib line ps in
        let ih =
          read_loop-IsSound (less_wrapping n r.0) lines r.1 (fill_conf_item-IsSound line ps h) in
        elim (Bool-cases (n == 0)) [ inl e ↦ rw e h | inr e ↦ rw e ih ]

    read_conf_r-IsSound :
        (file : Option (List Text)) (ps : List (Param N F))
        → All IsSound ps
        → All IsSound (read_conf_r lib file ps).1
    unfolding read_conf_r
    read_conf_r-IsSound none ps h = h
    read_conf_r-IsSound (some lines) ps h = read_loop-IsSound _ lines _ (clear_set-IsSound ps h)

    -- Whatever the file holds, after it is read each entry of both tables has a value of the kind
    -- that its type letter says, and no text is longer than `LOC_MAX_PARAM_STRING`, when this was
    -- so before.
    pub read_conf-IsSound :
        (file : Option (List Text)) (table own : List (Param N F))
        → All IsSound table
        → All IsSound own
        → All IsSound (read_conf lib file table own).0
          × All IsSound (read_conf lib file table own).1
    unfolding read_conf
    read_conf-IsSound none table own h k = (h, k)
    read_conf-IsSound (some lines) [] own h k = (h, read_conf_r-IsSound (some lines) own k)
    read_conf-IsSound (some lines) (p ∷ ps) own h k =
        (read_conf_r-IsSound (some lines) (p ∷ ps) h, read_conf_r-IsSound (some lines) own k)
