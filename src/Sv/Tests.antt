-- ===== src/Sv/Tests.antt =====
-- The theorems on the marks at a few satellites.
use android_device_samsung_a.Base.{ℕ, ◌≡◌, false, List, [], ◌∷◌, ◌==◌, ◌||◌, map, All, arith}
use android_device_samsung_a.Api.{Mask}
use android_device_samsung_a.Sv.{Sv, Used, Constellation, gps, glonass, mark_all}
use android_device_samsung_a.Sv.Marks.{used_bit, IsPlain, mark_all-plain}

abbrev undefined : ℕ → Mask
undefined svid = λ i. false

-- The last position used the GPS satellites 3 and 40.
abbrev used : Used
used = record {
  gps_mask = λ i. (i == 2) || (i == 39);
  glo_mask = λ i. false;
  bds_mask = λ i. false;
  gal_mask = λ i. false;
}

abbrev sat : Constellation → ℕ → Sv
sat c svid = record { svid = svid; constellation = c; used_in_fix = false; rest = 0 }

abbrev svs : List Sv
svs = sat gps 3 ∷ sat glonass 3 ∷ sat gps 4 ∷ []

svs-IsPlain : All IsPlain svs
svs-IsPlain =
    ((omega arith, omega arith), ((omega arith, omega arith), ((omega arith, omega arith), tt)))

mark_all-plain_example : mark_all undefined used svs ≡ map (used_bit undefined used) svs
mark_all-plain_example = mark_all-plain undefined used svs svs-IsPlain
