-- ===== src/Amp/Hal.antt =====
-- amplifier/amplifier.c: the counts of the users of each mode, and the switching of the chip.
use android_device_samsung_a.Base.{
  ℕ, suc, ◌-◌, Bool, true, false, ◌&&◌, not, Option, none, some, List, [], ◌∷◌, ◌==◌, if◌then◌else◌,
}
use android_device_samsung_a.Amp.Tfa.{Rc, ok, negative, positive, Audio, Tfa, tfa_power}

-- The sound devices that the code tells apart.
pub data SndDevice : Type 0 where
  speaker speaker_and_headphones voice_speaker : SndDevice
  other_device : ℕ → SndDevice

-- `tfa_mode_t`
pub data Mode : Type 0 where
  music_normal voice : Mode

-- `classify_snd_device`, `none` for Audio_Mode_None.
abbrev pub classify_snd_device : SndDevice → Option Mode
classify_snd_device speaker = some music_normal
classify_snd_device speaker_and_headphones = some music_normal
classify_snd_device voice_speaker = some voice
classify_snd_device (other_device n) = none

-- `amp_device_t`
pub record Amp : Type 0 where
  pub tfa : Tfa
  pub current_mode : ℕ
  pub music_count : ℕ
  pub voice_count : ℕ
  pub enabled : Bool

abbrev pub refcount : Mode → Amp → ℕ
refcount music_normal d = d.music_count
refcount voice d = d.voice_count

abbrev pub set_refcount : Mode → ℕ → Amp → Amp
set_refcount music_normal n d = record d { music_count = n }
set_refcount voice n d = record d { voice_count = n }

-- The count after a call; it stays at 0.
abbrev pub counted : (enable : Bool) → ℕ → ℕ
counted true n = suc n
counted false n = n - 1

-- The state after `tfa_power`.
abbrev pub powered : (on : Bool) → Amp → Option (Tfa × Rc) → Option (Amp × Rc)
powered on d none = none
powered on d (some (t, ok)) = some (record d { tfa = t; enabled = on }, ok)
powered on d (some (t, negative)) = some (record d { tfa = t }, negative)
powered on d (some (t, positive)) = some (record d { tfa = t }, positive)

-- `amp_enable_output_devices` for a mode, with the answers for its call of `tfa_power`.
abbrev pub enable_mode : Audio → Rc → Mode → (enable : Bool) → Amp → Option (Amp × Rc)
enable_mode a rc mode enable d0 =
    let d = set_refcount mode (counted enable (refcount mode d0)) d0 in
    if enable && not d.enabled && (refcount mode d == 1)
    then powered true d (tfa_power a rc true d.tfa)
    else if not enable && d.enabled && (refcount mode d == 0)
    then powered false d (tfa_power a rc false d.tfa)
    else some (d, ok)

abbrev pub enable_classified : Audio → Rc → Option Mode → (enable : Bool) → Amp → Option (Amp × Rc)
enable_classified a rc none enable d = some (d, ok)
enable_classified a rc (some mode) enable d = enable_mode a rc mode enable d

-- `amp_enable_output_devices`
unfoldable pub amp_enable_output_devices :
    Audio → Rc → SndDevice → (enable : Bool) → Amp → Option (Amp × Rc)
amp_enable_output_devices a rc dev enable d =
    enable_classified a rc (classify_snd_device dev) enable d

-- `amp_set_mode`
abbrev pub amp_set_mode : ℕ → Amp → Amp
amp_set_mode mode d = record d { current_mode = mode }

-- A call with its answers.
pub record Call : Type 0 where
  pub audio : Audio
  pub rc : Rc
  pub dev : SndDevice
  pub enable : Bool

abbrev pub next : (Amp → Option Amp) → Option (Amp × Rc) → Option Amp
next rest none = none
next rest (some (d, rc)) = rest d

-- Calls one after the other, `none` if one does not return.
unfoldable pub run : List Call → Amp → Option Amp
run [] d = some d
run (c ∷ cs) d = next (run cs) (amp_enable_output_devices c.audio c.rc c.dev c.enable d)
