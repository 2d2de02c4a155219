-- ===== src/Amp/Counting.antt =====
-- The counts and the chip: in step for the users of one mode, and what goes wrong for two.
use android_device_samsung_a.Base.{
  ℕ, suc, ◌-◌, ◌≤◌, ◌≡◌, refl, ap, ◌∙◌, true, false, ◌&&◌, not, Option, some, List, [], ◌∷◌, ◌==◌,
  ltb, arith, if◌then◌else◌,
}
use android_device_samsung_a.Amp.Tfa.{Rc, ok, Audio, Tfa, tfa_power}
use android_device_samsung_a.Amp.Hal.{
  speaker, voice_speaker, Mode, classify_snd_device, Amp, refcount, counted, powered,
  amp_enable_output_devices, Call,
}
use android_device_samsung_a.Amp.Clock.{IsQuiet, tfa_power-IsQuiet_off}
use android_device_samsung_a.Amp.Switching.{chip_on, IsWorking, given, off-returns, power-chip}

-- Enabled exactly while the mode has users, the chip likewise, and the clock off.
abbrev pub IsInStep : Mode → Amp → Type 0
IsInStep mode d =
    (d.enabled ≡ ltb 0 (refcount mode d)) × (chip_on d.tfa.log ≡ d.enabled) × IsQuiet d.tfa

abbrev IsStepped : Mode → ℕ → Option (Amp × Rc) → Type 0
IsStepped mode n o = (e : Amp) × (o ≡ some (e, ok)) × IsInStep mode e × (refcount mode e ≡ n)

-- A call for this mode whose answers are good ones.
abbrev pub IsGood : Mode → Call → Type 0
IsGood mode c = IsWorking c.audio × (c.rc ≡ ok) × (classify_snd_device c.dev ≡ some mode)

-- The users after the calls.
abbrev pub users : List Call → ℕ → ℕ
users [] n = n
users (c ∷ cs) n = users cs (counted c.enable n)

-- While music plays and at most one call uses the amplifier too, the end of the call switches the chip
-- off and disables the amplifier, if the vendor's library succeeds, though the music keeps its users.
pub voice-silences :
    (a : Audio) (d : Amp)
    → IsQuiet d.tfa
    → d.enabled ≡ true
    → d.voice_count ≤ 1
    → 1 ≤ d.music_count
    → (e : Amp) × (amp_enable_output_devices a ok voice_speaker false d ≡ some (e, ok))
      × (e.enabled ≡ false)
      × (chip_on e.tfa.log ≡ false)
      × (e.music_count ≡ d.music_count)
unfolding amp_enable_output_devices
voice-silences a d q on one plays =
    let d1 = record d { voice_count = d.voice_count - 1 } in
    let off = tfa_power a ok false d.tfa in
    let now : (d.enabled && (d.voice_count - 1 == 0)) ≡ true = ground arith in
    let (t, o, quiet, c) =
      given false off (off-returns a d.tfa) (tfa_power-IsQuiet_off a ok d.tfa q)
        (power-chip a false d.tfa) in
    (
      record d1 { tfa = t; enabled = false },
      ap (λ b. if b then powered false d1 off else some (d1, ok)) now ∙ ap (powered false d1) o,
      refl,
      c,
      refl,
    )

-- When switching on has failed, so that the amplifier is not enabled though music has users, the next
-- user of it does not make the code try again: the call succeeds and only counts.
failure-stays :
    (a : Audio) (rc : Rc) (d : Amp)
    → d.enabled ≡ false
    → 1 ≤ d.music_count
    → amp_enable_output_devices a rc speaker true d
      ≡ some (record d { music_count = suc d.music_count }, ok)
unfolding amp_enable_output_devices
failure-stays a rc d off used =
    let d1 = record d { music_count = suc d.music_count } in
    let not_first : (not d.enabled && (suc d.music_count == 1)) ≡ false = ground arith in
    ap (λ b. if b then powered true d1 (tfa_power a rc true d.tfa) else some (d1, ok)) not_first
