-- ===== src/Nmea.antt =====
-- gps/loc_api/libloc_api_50001/loc_eng_nmea.cpp: the sentences on the satellites in view, in
-- `loc_eng_nmea_generate_sv`, and the checksum of a sentence.
--
-- A sentence is the bytes before its NUL. The values of a satellite are as the code rounds them. A
-- mask of 32 bits is the set of its bits; `1 << (svid - 1)` outside 1 to 32 is the parameter
-- `undefined`. The dilution of precision is one value for its three.
pub mod Checksum
pub mod Filling
pub mod Groups
pub mod Reported
pub mod Used
mod Tests
use Prim.Native.Nat.{bit_xor}
use android_device_samsung_a.Base.{
  ℕ, zero, suc, ◌+◌, ◌-◌, ◌*◌, ◌/◌, ◌%◌, Bool, true, false, ◌&&◌, ◌||◌, Option, none, some, List,
  [], ◌∷◌, ◌++◌, ◌==◌, ltb, leb, length, take, if◌then◌else◌,
}
use android_device_samsung_a.Text.{Text}
use android_device_samsung_a.Sv.{Constellation, gps, glonass, beidou, galileo, unknown}
use android_device_samsung_a.Api.{Mask}

abbrev pub sentence_max : ℕ
sentence_max = 200

-- The XOR of the bytes, as an `uint8_t`.
unfoldable pub checksum_from : ℕ → Text → ℕ
checksum_from sum [] = sum
checksum_from sum (c ∷ s) = checksum_from (bit_xor sum c % 256) s

-- A digit of `%02X`.
abbrev pub hex : ℕ → ℕ
hex d = if ltb d 10 then b'0' + d else b'A' + (d - 10)

abbrev pub checksum_text : ℕ → Text
checksum_text sum = b'*' ∷ hex (sum / 16) ∷ hex (sum % 16) ∷ 13 ∷ 10 ∷ []

-- `loc_eng_nmea_put_checksum` on the sentence `start ∷ body`: the sentence and the length returned.
unfoldable pub put_checksum : (start : ℕ) → (body : Text) → (max_size : ℕ) → Text × ℕ
put_checksum start body max_size = (
  start ∷ body ++ take (max_size - length body - 1 - 1) (checksum_text (checksum_from 0 body)),
  length body + 5 + 1,
)

-- An entry of `gnss_sv_list`; `c_n0` is `none` if not above 0.
pub record Sat : Type 0 where
  pub svid : ℕ
  pub constellation : Constellation
  pub used_in_fix : Bool
  pub elevation : ℕ
  pub azimuth : ℕ
  pub c_n0 : Option ℕ

abbrev pub names_gps : Constellation → Bool
names_gps gps = true
names_gps glonass = false
names_gps beidou = false
names_gps galileo = false
names_gps unknown = false

abbrev pub names_glonass : Constellation → Bool
names_glonass glonass = true
names_glonass gps = false
names_glonass beidou = false
names_glonass galileo = false
names_glonass unknown = false

unfoldable pub is_gps : Sat → Bool
is_gps sv = names_gps sv.constellation

unfoldable pub is_glonass : Sat → Bool
is_glonass sv = names_glonass sv.constellation

-- What the first loop counts and collects.
pub record Counts : Type 0 where
  pub gps_used_mask : Mask
  pub glo_used_mask : Mask
  pub gps_count : ℕ
  pub gln_count : ℕ

-- `snprintf` to the end of the sentence, which must leave room for its NUL.
abbrev pub put : Text → Option Text → Option Text
put text none = none
put text (some s) = if ltb (length s + length text) sentence_max then some (s ++ text) else none

-- How many sentences there are.
abbrev pub sentence_count : ℕ → ℕ
sentence_count n = n / 4 + (if n % 4 == 0 then 0 else 1)

abbrev pub finish : Option Text → List Text × Bool → List Text × Bool
finish none rest = ([], false)
finish (some []) rest = ([], false)
finish (some (c ∷ s)) rest = ((put_checksum c s sentence_max).0 ∷ rest.0, rest.1)

-- `undefined` is a shift that C leaves undefined; `printed` is `%0*d`.
module _ (undefined : ℕ → Mask) (printed : (width n : ℕ) → Text) where
  abbrev pub with_used : Sat → Mask → Mask
  with_used sv m i =
      if sv.used_in_fix
      then m i
        || (if leb 1 sv.svid && leb sv.svid 32 then i == sv.svid - 1 else undefined sv.svid i)
      else m i

  -- The first loop.
  unfoldable pub count : List Sat → Counts → Counts
  count [] k = k
  count (sv ∷ svs) k =
      if is_gps sv
      then count svs
          (record k { gps_used_mask = with_used sv k.gps_used_mask; gps_count = suc k.gps_count })
      else if is_glonass sv
      then count svs
          (record k { glo_used_mask = with_used sv k.glo_used_mask; gln_count = suc k.gln_count })
      else count svs k

  abbrev pub values : Sat → Text
  values sv =
      b','
      ∷ (printed 2 sv.svid
          ++ (b',' ∷ (printed 2 sv.elevation ++ (b',' ∷ (printed 3 sv.azimuth ++ (b',' ∷ []))))))

  abbrev pub put_strength : Option ℕ → Option Text → Option Text
  put_strength none s = s
  put_strength (some v) s = put (printed 2 v) s

  abbrev pub put_sat : Sat → Option Text → Option Text
  put_sat sv s = put_strength sv.c_n0 (put (values sv) s)

  -- The inner loop, with room for `room` satellites: the sentence, and the satellites that it left.
  unfoldable pub fill :
      (wanted : Sat → Bool) (room : ℕ) → Option Text → List Sat → Option Text × List Sat
  fill wanted zero s svs = (s, svs)
  fill wanted (suc room) s [] = (s, [])
  fill wanted (suc room) s (sv ∷ svs) =
      let taken = fill wanted room (put_sat sv s) svs in
      let passed = fill wanted (suc room) s svs in if wanted sv then taken else passed

  abbrev pub header : (name : Text) → (sentences number in_view : ℕ) → Text
  header name sentences number in_view =
      name ++ (printed 1 sentences ++ (b',' ∷ (printed 1 number ++ (b',' ∷ printed 2 in_view))))

  -- The loop over the sentences, `left` still to come: those sent, and whether it ran to its end.
  unfoldable pub sentence_loop :
      (wanted : Sat → Bool) (name : Text) (sentences in_view left number : ℕ)
      → List Sat
      → List Text × Bool
  sentence_loop wanted name sentences in_view zero number svs = ([], true)
  sentence_loop wanted name sentences in_view (suc left) number svs =
      let r = fill wanted 4 (put (header name sentences number in_view) (some [])) svs in
      finish r.0 (sentence_loop wanted name sentences in_view left (number + 1) r.1)

  -- The sentences of one constellation, `in_view` being how many satellites of it were counted.
  unfoldable pub sentences_of :
      (wanted : Sat → Bool) (name : Text) (in_view : ℕ) → List Sat → List Text × Bool
  sentences_of wanted name in_view svs =
      if in_view == 0
      then finish (some (name ++ b'1' ∷ b',' ∷ b'1' ∷ b',' ∷ b'0' ∷ b',' ∷ [])) ([], true)
      else sentence_loop wanted name (sentence_count in_view) in_view (sentence_count in_view) 1 svs

pub record NmeaState : Type 0 where
  pub gps_used : Mask
  pub glo_used : Mask
  pub dop : ℕ
  pub sent : List Text

abbrev pub dop_of : Option ℕ → ℕ
dop_of none = 0
dop_of (some d) = d

abbrev pub gpgsv : Text
gpgsv = b'$' ∷ b'G' ∷ b'P' ∷ b'G' ∷ b'S' ∷ b'V' ∷ b',' ∷ []

abbrev pub glgsv : Text
glgsv = b'$' ∷ b'G' ∷ b'L' ∷ b'G' ∷ b'S' ∷ b'V' ∷ b',' ∷ []

abbrev pub no_counts : Counts
no_counts = record {
  gps_used_mask = λ i. false;
  glo_used_mask = λ i. false;
  gps_count = 0;
  gln_count = 0;
}

-- The sentences of both constellations, the second unless the first fails, and then the dilution of
-- precision.
abbrev pub send_both : Option ℕ → (g l : List Text × Bool) → NmeaState → NmeaState
send_both dop g l st =
    let st1 = record st { sent = st.sent ++ g.0 } in
    if g.1
    then (let st2 = record st1 { sent = st1.sent ++ l.0 } in
        if l.1 then record st2 { dop = dop_of dop } else st2)
    else st1

-- `loc_eng_nmea_generate_sv`, with what has been sent, the first first.
unfoldable pub generate_sv :
    (undefined : ℕ → Mask) (printed : (width n : ℕ) → Text)
    → Option ℕ
    → List Sat
    → NmeaState
    → NmeaState
generate_sv undefined printed dop svs st =
    let k = count undefined printed svs no_counts in
    send_both dop (sentences_of undefined printed is_gps gpgsv k.gps_count svs)
      (sentences_of undefined printed is_glonass glgsv k.gln_count svs)
      (record st { gps_used = k.gps_used_mask; glo_used = k.glo_used_mask })
