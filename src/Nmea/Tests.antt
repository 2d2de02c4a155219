-- ===== src/Nmea/Tests.antt =====
-- The theorems on NMEA at a short sentence and a few satellites.
use android_device_samsung_a.Base.{
  ℕ, ◌+◌, ◌/◌, ◌%◌, ◌≤◌, ◌<◌, ◌≡◌, refl, true, false, Option, none, some, List, [], ◌∷◌, ◌++◌,
  length, All, arith,
}
use android_device_samsung_a.Text.{Text}
use android_device_samsung_a.Api.{Mask}
use android_device_samsung_a.Sv.{Constellation, gps, glonass, galileo}
use android_device_samsung_a.Nmea.{
  Sat, NmeaState, put_checksum, is_gps, is_glonass, gpgsv, glgsv, generate_sv, dop_of,
}
use android_device_samsung_a.Nmea.Checksum.{receive, put_checksum-received}
use android_device_samsung_a.Nmea.Filling.{IsShort}
use android_device_samsung_a.Nmea.Used.{HasBit, member, used_list, is_used, used_list-is_used}
use android_device_samsung_a.Nmea.Reported.{IsReported, generate_sv-IsReported}

abbrev body : Text
body = b'G' ∷ b'P' ∷ b',' ∷ b'1' ∷ []

put_checksum-received_example :
    (receive (put_checksum b'$' body 200).0 ≡ some body)
    × (length (put_checksum b'$' body 200).0 ≡ (put_checksum b'$' body 200).1)
put_checksum-received_example =
    put_checksum-received b'$' body 200 (refl, (refl, (refl, (refl, tt)))) (omega arith)

abbrev undefined : ℕ → Mask
undefined svid i = true

-- Two digits.
abbrev printed : (width n : ℕ) → Text
printed width n = (n / 10 % 10 + b'0') ∷ (n % 10 + b'0') ∷ []

abbrev sat : Constellation → ℕ → Option ℕ → Sat
sat c svid c_n0 = record {
  svid = svid;
  constellation = c;
  used_in_fix = true;
  elevation = 45;
  azimuth = 90;
  c_n0 = c_n0;
}

abbrev svs : List Sat
svs =
    sat gps 1 (some 30)
    ∷ sat glonass 2 none
    ∷ sat gps 3 none
    ∷ sat galileo 4 none
    ∷ sat gps 5 (some 7)
    ∷ sat gps 6 none
    ∷ sat gps 7 none
    ∷ []

sat-IsShort : (c : Constellation) (svid : ℕ) (o : Option ℕ) → IsShort printed (sat c svid o)
sat-IsShort c svid o = (omega arith, omega arith, omega arith, λ v e. omega arith)

svs-IsShort : All (IsShort printed) svs
svs-IsShort = (
  sat-IsShort gps 1 (some 30),
  (
    sat-IsShort glonass 2 none,
    (
      sat-IsShort gps 3 none,
      (
        sat-IsShort galileo 4 none,
        (sat-IsShort gps 5 (some 7), (sat-IsShort gps 6 none, (sat-IsShort gps 7 none, tt))),
      ),
    ),
  ),
)

two_digits : (w n : ℕ) → n < 1000 → w ≤ 2 → length (printed w n) ≤ 3
two_digits w n h k = omega arith

abbrev idle : NmeaState
idle = record { gps_used = λ i. false; glo_used = λ i. false; dop = 0; sent = [] }

generate_sv-IsReported_example :
    (g l : List Text) × ((generate_sv undefined printed (some 8) svs idle).sent
      ≡ idle.sent ++ g ++ l)
    × IsReported undefined printed is_gps gpgsv svs g
    × IsReported undefined printed is_glonass glgsv svs l
    × ((generate_sv undefined printed (some 8) svs idle).dop ≡ dop_of (some 8))
generate_sv-IsReported_example =
    generate_sv-IsReported undefined printed (some 8) svs idle two_digits (omega arith) svs-IsShort

svs-HasBit : All HasBit svs
svs-HasBit =
    let bit : (n : ℕ) → 1 ≤ n → n ≤ 32 → (1 ≤ n) × (n ≤ 32) = λ n a b. (a, b) in
    (
      bit 1 (omega arith) (omega arith),
      (
        bit 2 (omega arith) (omega arith),
        (
          bit 3 (omega arith) (omega arith),
          (
            bit 4 (omega arith) (omega arith),
            (
              bit 5 (omega arith) (omega arith),
              (bit 6 (omega arith) (omega arith), (bit 7 (omega arith) (omega arith), tt)),
            ),
          ),
        ),
      ),
    )

used_list-is_used_example :
    member (1 + 2) (used_list 0 (generate_sv undefined printed none svs idle).gps_used)
    ≡ is_used 3 svs
used_list-is_used_example =
    used_list-is_used undefined printed none svs idle 2 svs-HasBit (omega arith)
