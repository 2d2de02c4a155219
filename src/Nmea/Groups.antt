-- ===== src/Nmea/Groups.antt =====
-- The sentences of one constellation: each satellite in one of them, in groups of four.
use android_device_samsung_a.Base.{
  ℕ, zero, suc, ◌+◌, ◌-◌, ◌≤◌, ◌<◌, ◌≡◌, refl, sym, ap, ◌∙◌, subst, Bool, true, some, List, [], ◌∷◌,
  ◌++◌, length, length-append, take, All, arith, Bool-cases, inl, inr,
}
use android_device_samsung_a.Text.{Text}
use android_device_samsung_a.Api.{Mask}
use android_device_samsung_a.Nmea.{
  Sat, put, fill, finish, sentence_max, sentence_count, sentence_loop, header, put_checksum,
}
use android_device_samsung_a.Nmea.Filling.{
  kept, drop, IsShort, entries, put_all, fill_lem, put_fits, put_all_lem,
}

-- A name of a sentence: seven characters, of which the first is not looked at.
abbrev pub Named : Text → Type 0
Named name = length name ≡ 7

abbrev pub all_of : List (List Sat) → List Sat
all_of [] = []
all_of (g ∷ gs) = g ++ all_of gs

-- Four in each group, but one to four in the last.
abbrev pub AreFours : List (List Sat) → Type 0
AreFours [] = Unit {0}
AreFours (g ∷ []) = (1 ≤ length g) × (length g ≤ 4)
AreFours (g ∷ h ∷ gs) = (length g ≡ 4) × AreFours (h ∷ gs)

take-drop : (n : ℕ) (xs : List Sat) → take n xs ++ drop n xs ≡ xs
take-drop zero xs = refl
take-drop (suc n) [] = refl
take-drop (suc n) (x ∷ xs) = ap (λ t. x ∷ t) (take-drop n xs)

length-drop : (n : ℕ) (xs : List Sat) → length (drop n xs) ≡ length xs - n
length-drop zero xs = omega arith
length-drop (suc n) [] = omega arith
length-drop (suc n) (x ∷ xs) = let ih = length-drop n xs in omega arith

length_taken : (n : ℕ) (xs : List Sat) → (length (take n xs) ≤ n) × (length (take n xs) ≤ length xs)
length_taken zero xs = (omega arith, omega arith)
length_taken (suc n) [] = (omega arith, omega arith)
length_taken (suc n) (x ∷ xs) = let ih = length_taken n xs in (omega arith, omega arith)

length_taken_all : (n : ℕ) (xs : List Sat) → n ≤ length xs → length (take n xs) ≡ n
length_taken_all zero xs h = refl
length_taken_all (suc n) [] h = ground arith
length_taken_all (suc n) (x ∷ xs) h = ap suc (length_taken_all n xs (omega arith))

more_left : (left n : ℕ) → suc left ≡ sentence_count (n - 4) → 4 ≤ n
more_left left n e = ground arith

taken-AreFours :
    (xs : List Sat) (gs : List (List Sat)) (left : ℕ)
    → 1 ≤ length xs
    → left ≡ sentence_count (length xs - 4)
    → length gs ≡ left
    → AreFours gs
    → AreFours (take 4 xs ∷ gs)
taken-AreFours [] gs left h e many good = ground arith
taken-AreFours (x ∷ xs) [] left h e many good = (omega arith, (length_taken 4 (x ∷ xs)).0)
taken-AreFours (x ∷ xs) (g ∷ gs) left h e many good =
    (length_taken_all 4 (x ∷ xs) (more_left (length gs) (length (x ∷ xs)) (many ∙ e)), good)

count_less : (left n : ℕ) → suc left ≡ sentence_count n → (1 ≤ n) × (left ≡ sentence_count (n - 4))
count_less left n e = ground arith

module _ (P : Sat → Type 0) where
  All-drop : (n : ℕ) (xs : List Sat) → All P xs → All P (drop n xs)
  All-drop zero xs h = h
  All-drop (suc n) [] h = h
  All-drop (suc n) (x ∷ xs) (h, hs) = All-drop n xs hs

  All-take : (n : ℕ) (xs : List Sat) → All P xs → All P (take n xs)
  All-take zero xs h = tt
  All-take (suc n) [] h = tt
  All-take (suc n) (x ∷ xs) (h, hs) = (h, All-take n xs hs)

  pub All-kept : (wanted : Sat → Bool) (xs : List Sat) → All P xs → All P (kept wanted xs)
  unfolding kept
  All-kept wanted [] h = tt
  All-kept wanted (x ∷ xs) (h, hs) =
      let ih = All-kept wanted xs hs in
      elim (Bool-cases (wanted x)) [ inl e ↦ rw e (h, ih) | inr e ↦ rw e ih ]

module _ (undefined : ℕ → Mask) (printed : (width n : ℕ) → Text) where
  -- The text of a sentence before its checksum.
  abbrev pub plain_sentence : (name : Text) (sentences in_view number : ℕ) → List Sat → Text
  plain_sentence name sentences in_view number g =
      header undefined printed name sentences number in_view ++ entries undefined printed g

  abbrev pub checked : Text → Text
  checked [] = []
  checked (c ∷ s) = (put_checksum c s sentence_max).0

  -- The sentences on these groups, numbered from `number` on.
  unfoldable pub numbered :
      (name : Text) (sentences in_view number : ℕ) → List (List Sat) → List Text
  numbered name sentences in_view number [] = []
  numbered name sentences in_view number (g ∷ gs) =
      checked (plain_sentence name sentences in_view number g)
      ∷ numbered name sentences in_view (number + 1) gs

  abbrev pub IsGrouped :
      (name : Text) (sentences in_view number left : ℕ) → List Sat → List Text × Bool → Type 0
  IsGrouped name sentences in_view number left svs out =
      (groups : List (List Sat)) × (out ≡ (numbered name sentences in_view number groups, true))
      × (all_of groups ≡ svs)
      × AreFours groups
      × (length groups ≡ left)

  header-length :
      (name : Text) (sentences number in_view : ℕ)
      → ((w n : ℕ) → n < 1000 → w ≤ 2 → length (printed w n) ≤ 3)
      → Named name
      → sentences < 1000
      → number < 1000
      → in_view < 1000
      → (length (header undefined printed name sentences number in_view) ≤ 18)
  header-length name sentences number in_view digits named a b c =
      let d1 = digits 1 sentences a (omega arith) in
      let d2 = digits 1 number b (omega arith) in
      let d3 = digits 2 in_view c (omega arith) in
      let e1 = length-append (printed 1 number) (b',' ∷ printed 2 in_view) in
      let e2 =
        length-append (printed 1 sentences)
          (b',' ∷ (printed 1 number ++ (b',' ∷ printed 2 in_view))) in
      let e3 =
        length-append name
          (printed 1 sentences ++ (b',' ∷ (printed 1 number ++ (b',' ∷ printed 2 in_view)))) in
      omega arith

  -- One sentence takes the first four, all of them.
  one_sentence :
      (wanted : Sat → Bool) (name : Text) (sentences number in_view : ℕ) (svs : List Sat)
      → length (header undefined printed name sentences number in_view) ≤ 18
      → All (IsShort printed) (kept wanted svs)
      → (fill undefined printed wanted 4
          (put (header undefined printed name sentences number in_view) (some []))
          svs).0
        ≡ some (plain_sentence name sentences in_view number (take 4 (kept wanted svs)))
  one_sentence wanted name sentences number in_view svs h short =
      let head = header undefined printed name sentences number in_view in
      let four = take 4 (kept wanted svs) in
      let few = (length_taken 4 (kept wanted svs)).0 in
      (fill_lem undefined printed wanted 4 (put head (some [])) svs).0
      ∙ ap (put_all undefined printed four) (put_fits undefined printed head [] (omega arith))
      ∙ put_all_lem undefined printed four head
          (All-take (IsShort printed) 4 (kept wanted svs) short) (omega arith)

  pub finish_lem :
      (t : Text) (rest : List Text × Bool)
      → 1 ≤ length t
      → finish (some t) rest ≡ (checked t ∷ rest.0, rest.1)
  finish_lem [] rest h = ground arith
  finish_lem (c ∷ t) rest h = refl

  pub none_left : (xs : List Sat) → length xs ≡ 0 → xs ≡ []
  none_left [] h = refl
  none_left (x ∷ xs) h = ground arith

  plain-length :
      (name : Text) (sentences in_view number : ℕ) (g : List Sat)
      → Named name
      → 1 ≤ length (plain_sentence name sentences in_view number g)
  plain-length name sentences in_view number g named =
      let e1 =
        length-append name
          (printed 1 sentences ++ (b',' ∷ (printed 1 number ++ (b',' ∷ printed 2 in_view)))) in
      let e2 =
        length-append (header undefined printed name sentences number in_view)
          (entries undefined printed g) in
      omega arith

  pub loop-IsGrouped :
      (wanted : Sat → Bool) (name : Text) (sentences in_view left number : ℕ) (svs : List Sat)
      → ((w n : ℕ) → n < 1000 → w ≤ 2 → length (printed w n) ≤ 3)
      → Named name
      → sentences < 1000
      → number + left ≤ 1000
      → in_view < 1000
      → All (IsShort printed) (kept wanted svs)
      → left ≡ sentence_count (length (kept wanted svs))
      → IsGrouped name sentences in_view number left
          (kept wanted svs)
          (sentence_loop undefined printed wanted name sentences in_view left number svs)
  unfolding sentence_loop numbered
  loop-IsGrouped wanted name sentences in_view zero number svs digits named a b c short e =
      let empty = none_left (kept wanted svs) (ground arith) in ([], refl, sym empty, tt, refl)
  loop-IsGrouped wanted name sentences in_view (suc left) number svs digits named a b c short e =
      let head = header undefined printed name sentences number in_view in
      let r = fill undefined printed wanted 4 (put head (some [])) svs in
      let four = take 4 (kept wanted svs) in
      let rest =
        sentence_loop undefined printed wanted name sentences in_view left (number + 1) r.1 in
      let long = header-length name sentences number in_view digits named a (omega arith) c in
      let passed = (fill_lem undefined printed wanted 4 (put head (some [])) svs).1 in
      let fewer = length-drop 4 (kept wanted svs) in
      let still : All (IsShort printed) (kept wanted r.1) =
        subst (All (IsShort printed)) (sym passed)
          (All-drop (IsShort printed) 4 (kept wanted svs) short) in
      let left_over = count_less left (length (kept wanted svs)) e in
      let counted : left ≡ sentence_count (length (kept wanted r.1)) =
        left_over.1 ∙ ap sentence_count (sym fewer ∙ ap length (sym passed)) in
      let (groups, out, all, good, many) =
        loop-IsGrouped wanted name sentences in_view left (number + 1) r.1 digits named a
          (omega arith) c still counted in
      (
        four ∷ groups,
        ap (λ s. finish s rest) (one_sentence wanted name sentences number in_view svs long short)
            ∙ finish_lem (plain_sentence name sentences in_view number four) rest
                (plain-length name sentences in_view number four named)
            ∙ ap (λ o. (checked (plain_sentence name sentences in_view number four) ∷ o.0, o.1))
                out,
        ap (λ xs. four ++ xs) (all ∙ passed) ∙ take-drop 4 (kept wanted svs),
        taken-AreFours (kept wanted svs) groups left left_over.0 left_over.1 many good,
        ap suc many,
      )
