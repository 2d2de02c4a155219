-- ===== src/Text.antt =====
-- gps/utils/loc_misc_utils.cpp, and the C library's `strtok_r`, `strcmp` and `isspace`: texts as the
-- bytes before their NUL.
pub mod Trim
pub mod Split
mod Tests
use android_device_samsung_a.Base.{
  ℕ, zero, suc, Bool, true, false, ◌&&◌, ◌||◌, not, Option, none, some, List, [], ◌∷◌, ◌++◌, ◌==◌,
  leb, ltb, take, length, if◌then◌else◌,
}

abbrev pub Text : Type 0
Text = List ℕ

-- `isspace`
unfoldable pub is_space : ℕ → Bool
is_space c = c == 32 || (leb 9 c && leb c 13)

-- The loop of `loc_util_trim_space`: `written` is what stands before `write_ptr`, `last` how much of
-- it stands before `last_nonspace`, if that is set.
unfoldable pub trim_loop :
    (seen : Bool) → (written : Text) → (last : Option ℕ) → Text → Text × Option ℕ
trim_loop seen written last [] = (written, last)
trim_loop seen written last (c ∷ s) =
    let shifted = written ++ c ∷ [] in
    let before = trim_loop false written last s in
    let space = trim_loop true shifted last s in
    let other = trim_loop true shifted (some (length shifted)) s in
    if not (is_space c) then other else if seen then space else before

abbrev pub terminated : Text → Text × Option ℕ → Text
terminated s (written, none) = s
terminated s (written, some last) = take last written

-- `loc_util_trim_space`
unfoldable pub trim_space : Text → Text
trim_space s = terminated s (trim_loop false [] none s)

-- The loop of `loc_util_split_string` with the substring that it is in, and how many may follow.
unfoldable pub split_loop : (delimiter : ℕ) → (more : ℕ) → (current : Text) → Text → List Text
split_loop d more current [] = current ∷ []
split_loop d zero current (c ∷ s) =
    let rest = split_loop d zero (current ++ c ∷ []) s in if c == d then current ∷ [] else rest
split_loop d (suc more) current (c ∷ s) =
    let inside = split_loop d (suc more) (current ++ c ∷ []) s in
    let next = split_loop d more [] s in if c == d then current ∷ next else inside

-- What may follow the first substring.
abbrev pub but_one : ℕ → ℕ
but_one zero = zero
but_one (suc n) = n

-- `loc_util_split_string` with pointers that are not NULL: the substrings, as many as it returns.
unfoldable pub split_string : Text → (max_num_substrings : ℕ) → (delimiter : ℕ) → List Text
split_string s max d = split_loop d (but_one max) [] s

-- `strcmp(a, b) == 0`
unfoldable pub equal_text : Text → Text → Bool
equal_text [] [] = true
equal_text [] (y ∷ b) = false
equal_text (x ∷ a) [] = false
equal_text (x ∷ a) (y ∷ b) = (x == y) && equal_text a b

-- `strtok_r` with one delimiter: the token, and what `saveptr` points to.
unfoldable pub token : ℕ → Text → Text × Text
token d [] = ([], [])
token d (c ∷ s) = let r = token d s in if c == d then ([], s) else (c ∷ r.0, r.1)

unfoldable pub skip : ℕ → Text → Text
skip d [] = []
skip d (c ∷ s) = let rest = skip d s in if c == d then rest else c ∷ s

abbrev pub some_token : Text × Text → Option (Text × Text)
some_token ([], rest) = none
some_token (c ∷ s, rest) = some (c ∷ s, rest)

unfoldable pub strtok : ℕ → Text → Option (Text × Text)
strtok d s = some_token (token d (skip d s))
