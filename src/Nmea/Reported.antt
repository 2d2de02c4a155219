-- ===== src/Nmea/Reported.antt =====
-- What a report of the satellites sends as a whole.
use android_device_samsung_a.Base.{
  chosen_by, ℕ, suc, ◌+◌, ◌≤◌, ◌<◌, ◌≡◌, refl, sym, ap, subst, Bool, true, false, Option, some,
  List, [], ◌∷◌, ◌++◌, length, length-append, ◌==◌, All, arith, Bool-cases, inl, inr, ◌⊎◌,
}
use android_device_samsung_a.Text.{Text}
use android_device_samsung_a.Api.{Mask}
use android_device_samsung_a.Sv.{Constellation, gps, glonass, beidou, galileo, unknown}
use android_device_samsung_a.Nmea.{
  Sat, Counts, count, no_counts, is_gps, is_glonass, names_gps, names_glonass, with_used,
  sentence_count, sentence_loop, sentences_of, finish, NmeaState, dop_of, gpgsv, glgsv, send_both,
  generate_sv,
}
use android_device_samsung_a.Nmea.Filling.{kept, IsShort}
use android_device_samsung_a.Nmea.Groups.{
  Named, AreFours, all_of, numbered, checked, finish_lem, loop-IsGrouped, All-kept, none_left,
}

either : (c : Constellation) → names_gps c ≡ true → names_glonass c ≡ false
either gps h = refl
either glonass h = cc
either beidou h = refl
either galileo h = refl
either unknown h = refl

is_gps-glonass : (sv : Sat) → is_gps sv ≡ true → is_glonass sv ≡ false
unfolding is_gps is_glonass
is_gps-glonass sv h = either sv.constellation h

kept-length : (wanted : Sat → Bool) (svs : List Sat) → length (kept wanted svs) ≤ length svs
unfolding kept
kept-length wanted [] = omega arith
kept-length wanted (sv ∷ svs) =
    let ih = kept-length wanted svs in
    elim (Bool-cases (wanted sv)) [ inl e ↦ rw e (omega arith) | inr e ↦ rw e (omega arith) ]

send_both_lem :
    (dop : Option ℕ) (g l : List Text) (b c : Bool) (st : NmeaState)
    → b ≡ true
    → c ≡ true
    → send_both dop (g, b) (l, c) st ≡ record st { sent = st.sent ++ g ++ l; dop = dop_of dop }
send_both_lem dop g l true true st e f = refl
send_both_lem dop g l true false st e f = cc
send_both_lem dop g l false c st e f = cc

few_sentences : (n : ℕ) → n < 1000 → (sentence_count n < 1000) × (1 + sentence_count n ≤ 1000)
few_sentences n h = (ground arith, ground arith)

module _ (undefined : ℕ → Mask) (printed : (width n : ℕ) → Text) where
  -- The first loop counts the satellites of each constellation.
  count-kept :
      (svs : List Sat) (k : Counts)
      → ((count undefined printed svs k).gps_count ≡ k.gps_count + length (kept is_gps svs))
        × ((count undefined printed svs k).gln_count ≡ k.gln_count + length (kept is_glonass svs))
  unfolding count kept
  count-kept [] k = (omega arith, omega arith)
  count-kept (sv ∷ svs) k = elim (Bool-cases (is_gps sv)) [
    | inl g ↦
        (let other = is_gps-glonass sv g in
          let ih = count-kept svs (record k {
            gps_used_mask = with_used undefined printed sv k.gps_used_mask;
            gps_count = suc k.gps_count;
          }) in
          rw (g, other) (omega arith, omega arith))
    | inr g ↦ elim (Bool-cases (is_glonass sv)) [
      | inl l ↦
          (let ih = count-kept svs (record k {
            glo_used_mask = with_used undefined printed sv k.glo_used_mask;
            gln_count = suc k.gln_count;
          }) in
            rw (g, l) (omega arith, omega arith))
      | inr l ↦ (let ih = count-kept svs k in rw (g, l) (omega arith, omega arith))
    ]
  ]

  -- The sentence for no satellite in view, before its checksum.
  abbrev pub blank : Text → Text
  blank name = name ++ b'1' ∷ b',' ∷ b'1' ∷ b',' ∷ b'0' ∷ b',' ∷ []

  -- The sentences of one constellation: a blank one for no satellite; otherwise the satellites in
  -- their order, four to a sentence and the rest in the last one.
  abbrev pub IsReported : (wanted : Sat → Bool) (name : Text) → List Sat → List Text → Type 0
  IsReported wanted name svs texts =
      ((kept wanted svs ≡ []) × (texts ≡ checked undefined printed (blank name) ∷ []))
      ⊎ ((groups : List (List Sat)) × (texts
            ≡ numbered undefined printed name (sentence_count (length (kept wanted svs)))
                (length (kept wanted svs)) 1 groups)
          × (all_of groups ≡ kept wanted svs)
          × AreFours groups
          × (length groups ≡ sentence_count (length (kept wanted svs))))

  blank-length : (name : Text) → Named name → 1 ≤ length (blank name)
  blank-length name named =
      let e = length-append name (b'1' ∷ b',' ∷ b'1' ∷ b',' ∷ b'0' ∷ b',' ∷ []) in omega arith

  module _ (wanted : Sat → Bool) (name : Text) (svs : List Sat) where
    -- A run to its end that reports these satellites.
    abbrev pub IsWhole : List Text × Bool → Type 0
    IsWhole r = IsReported wanted name svs r.0 × (r.1 ≡ true)

    blank-IsWhole :
        Named name → length (kept wanted svs) ≡ 0 → IsWhole (finish (some (blank name)) ([], true))
    blank-IsWhole named e =
        subst IsWhole
          (sym (finish_lem undefined printed (blank name) ([], true) (blank-length name named)))
          (inl (none_left undefined printed (kept wanted svs) e, refl), refl)

    loop-IsWhole :
        ((w n : ℕ) → n < 1000 → w ≤ 2 → length (printed w n) ≤ 3)
        → Named name
        → length svs < 1000
        → All (IsShort printed) svs
        → let n = length (kept wanted svs) in
          IsWhole (
            sentence_loop undefined printed wanted name
              (sentence_count n)
              n
              (sentence_count n)
              1
              svs)
    loop-IsWhole digits named few short =
        let n = length (kept wanted svs) in
        let fewer = kept-length wanted svs in
        let small = few_sentences n (omega arith) in
        let (groups, out, all, good, many) =
          loop-IsGrouped undefined printed wanted name (sentence_count n) n (sentence_count n) 1 svs
            digits named small.0 small.1 (omega arith) (All-kept (IsShort printed) wanted svs short)
            refl in
        subst IsWhole (sym out) (inr (groups, refl, all, good, many), refl)

    counted-IsWhole :
        (n : ℕ)
        → ((w n : ℕ) → n < 1000 → w ≤ 2 → length (printed w n) ≤ 3)
        → Named name
        → length svs < 1000
        → All (IsShort printed) svs
        → length (kept wanted svs) ≡ n
        → IsWhole (sentences_of undefined printed wanted name n svs)
    unfolding sentences_of
    counted-IsWhole n digits named few short e =
        subst (λ k. IsWhole (sentences_of undefined printed wanted name k svs)) e
          (chosen_by IsWhole (length (kept wanted svs) == 0) _ _
            (λ z. blank-IsWhole named (ground arith)) (λ z. loop-IsWhole digits named few short))

  -- A report of fewer than 1000 satellites whose printed values have at most three digits sends
  -- the GPS sentences and then those for GLONASS: for each of the two, a blank sentence if it has
  -- no satellite, and otherwise its satellites each once, in their order, four to a sentence and
  -- the others in the last one, numbered from 1 with the count of sentences and of satellites in
  -- each, none cut short; the dilution of precision is kept for the position report.
  pub generate_sv-IsReported :
      (dop : Option ℕ) (svs : List Sat) (st : NmeaState)
      → ((w n : ℕ) → n < 1000 → w ≤ 2 → length (printed w n) ≤ 3)
      → length svs < 1000
      → All (IsShort printed) svs
      → (g l : List Text) × ((generate_sv undefined printed dop svs st).sent ≡ st.sent ++ g ++ l)
        × IsReported is_gps gpgsv svs g
        × IsReported is_glonass glgsv svs l
        × ((generate_sv undefined printed dop svs st).dop ≡ dop_of dop)
  unfolding generate_sv
  generate_sv-IsReported dop svs st digits few short =
      let k = count undefined printed svs no_counts in
      let counted = count-kept svs no_counts in
      let g = sentences_of undefined printed is_gps gpgsv k.gps_count svs in
      let l = sentences_of undefined printed is_glonass glgsv k.gln_count svs in
      let gps_whole =
        counted-IsWhole is_gps gpgsv svs k.gps_count digits refl few short (omega arith) in
      let gln_whole =
        counted-IsWhole is_glonass glgsv svs k.gln_count digits refl few short (omega arith) in
      let both =
        send_both_lem dop g.0 l.0 g.1 l.1
          (record st { gps_used = k.gps_used_mask; glo_used = k.glo_used_mask }) gps_whole.1
          gln_whole.1 in
      (g.0, l.0, ap (λ s. s.sent) both, gps_whole.0, gln_whole.0, ap (λ s. s.dop) both)
