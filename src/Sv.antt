-- ===== src/Sv.antt =====
-- gps/loc_api/libloc_api_50001/loc_eng.cpp: `LocEngReportSv::proc` marks the satellites that the last
-- position used.
--
-- A mask of 64 bits is the set of its bits. `1 << (gnssSvId - 1)` is a shift of an `int`: of the id
-- 32 it is the smallest one, which the conversion to 64 bits extends by its sign, and of other ids
-- outside 1 to 31 it is undefined, so the parameter `undefined` says what it is.
pub mod Marks
mod Tests
use android_device_samsung_a.Base.{
  ℕ, zero, suc, ◌-◌, Bool, true, false, ◌&&◌, ◌||◌, List, [], ◌∷◌, map, ◌==◌, leb, if◌then◌else◌,
}
use android_device_samsung_a.Api.{Mask}

pub data Constellation : Type 0 where
  gps glonass beidou galileo unknown : Constellation

-- An entry of `gnss_sv_list`: its flag GNSS_SV_FLAGS_USED_IN_FIX, and `rest` for the fields that the
-- function only copies.
pub record Sv : Type 0 where
  pub svid : ℕ
  pub constellation : Constellation
  pub used_in_fix : Bool
  pub rest : ℕ

-- `GnssSvUsedInPosition`
pub record Used : Type 0 where
  pub gps_mask : Mask
  pub glo_mask : Mask
  pub bds_mask : Mask
  pub gal_mask : Mask

abbrev pub mask_of : Used → Constellation → Mask
mask_of u gps = u.gps_mask
mask_of u glonass = u.glo_mask
mask_of u beidou = u.bds_mask
mask_of u galileo = u.gal_mask
mask_of u unknown = λ i. false

-- Whether one of the bits below `n` is set.
unfoldable pub any_bit : ℕ → Mask → Bool
any_bit zero m = false
any_bit (suc n) m = m n || any_bit n m

module _ (undefined : ℕ → Mask) where
  -- `1 << (gnssSvId - 1)` as 64 bits.
  abbrev pub shifted : ℕ → Mask
  shifted svid i =
      if leb 1 svid && leb svid 31
      then i == svid - 1
      else if svid == 32
      then leb 31 i
      else undefined svid i

  abbrev pub mark : Used → Sv → Sv
  mark u sv = record sv {
    used_in_fix = any_bit 64 (λ i. mask_of u sv.constellation i && shifted sv.svid i);
  }

  -- The loop over the satellites.
  unfoldable pub mark_all : Used → List Sv → List Sv
  mark_all u [] = []
  mark_all u (sv ∷ svs) = mark u sv ∷ mark_all u svs
