-- ===== src/Target/Tests.antt =====
-- The theorem on the target for a device whose platform is MTP and that has no modem's file.
use android_device_samsung_a.Base.{
  ℕ, ◌≡◌, ◌↔◌, Bool, true, false, Option, none, some, [], ◌∷◌, ◌++◌,
}
use android_device_samsung_a.Text.{Text}
use android_device_samsung_a.Target.{
  DeviceFile, hw_platform, hw_platform_dep, id, id_dep, mdm, Platform, is_qca1530, starts_with, mtp,
  line_of, loc_get_target,
}
use android_device_samsung_a.Target.Words.{word, IsBoard, loc_get_target-undetermined}

abbrev not_reported : ℕ → Option Text
not_reported i = some (b'n' ∷ b'o' ∷ [])

abbrev files : DeviceFile → Option Text
files hw_platform = some (mtp ++ 10 ∷ [])
files hw_platform_dep = none
files id = some (b'2' ∷ b'0' ∷ b'6' ∷ 10 ∷ [])
files id_dep = none
files mdm = none

abbrev all_exist : DeviceFile → Bool
all_exist path = true

abbrev device : Platform
device = record {
  qca1530 = not_reported;
  baseband = b'm' ∷ b's' ∷ b'm' ∷ [];
  exists = all_exist;
  file = files;
}

loc_get_target-undetermined_example : (loc_get_target device none ≡ none) ↔ (
    (is_qca1530 device ≡ false)
    × (starts_with (b'a' ∷ b'u' ∷ b't' ∷ b'o' ∷ []) device.baseband ≡ false)
    × (starts_with (b'a' ∷ b'p' ∷ b'q' ∷ []) device.baseband ≡ false)
    × IsBoard (word (line_of device hw_platform hw_platform_dep))
    × (device.file mdm ≡ none))
loc_get_target-undetermined_example = loc_get_target-undetermined device
