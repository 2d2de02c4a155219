-- ===== src/Amp/Tests.antt =====
-- The theorems on the amplifier with a sound library that works.
use android_device_samsung_a.Base.{
  ◌≡◌, refl, Bool, true, false, ◌&&◌, ◌||◌, not, none, some, [], arith,
}
use android_device_samsung_a.Amp.Tfa.{ok, positive, ready, Audio, tfa_power}
use android_device_samsung_a.Amp.Hal.{speaker, voice_speaker, Amp, amp_enable_output_devices, Call}
use android_device_samsung_a.Amp.Results.{expected}
use android_device_samsung_a.Amp.Opening.{Luck, Module, amp_module_open, new_tfa, new_amp}
use android_device_samsung_a.Amp.Clock.{i2s_on, is_held, IsQuiet, OnSome, tfa_power-IsQuiet}
use android_device_samsung_a.Amp.Returning.{returns, tfa_power-returns}
use android_device_samsung_a.Amp.Switching.{chip_on}
use android_device_samsung_a.Amp.Counting.{voice-silences}
use android_device_samsung_a.Amp.Holding.{IsOutcome, amp_module_open-IsOutcome}

abbrev working : Audio
working = record {
  created = true;
  i2s = true;
  i2s_off = true;
  pcm = ready;
  buffer = true;
  at_once = false;
}

-- The mixer has no control for the interface.
abbrev no_control : Audio
no_control = record working { i2s = false }

quiet : IsQuiet new_tfa
unfolding i2s_on is_held
quiet = (refl, (refl, refl, refl))

tfa_power-IsQuiet_example : OnSome (λ r. IsQuiet r.0) (tfa_power working positive true new_tfa)
tfa_power-IsQuiet_example = tfa_power-IsQuiet working positive true new_tfa refl quiet

tfa_power-returns_example :
    returns (tfa_power no_control ok true new_tfa) ≡ ((true && false) || not true)
tfa_power-returns_example = tfa_power-returns no_control ok true new_tfa refl refl

abbrev call : Bool → Call
call b = record { audio = working; rc = ok; dev = speaker; enable = b }

abbrev amp : Amp
amp = new_amp new_tfa

-- Music plays, and a call uses the amplifier too.
abbrev both : Amp
both = record amp { music_count = 1; voice_count = 1; enabled = true }

voice-silences_example :
    (e : Amp) × (amp_enable_output_devices working ok voice_speaker false both ≡ some (e, ok))
    × (e.enabled ≡ false)
    × (chip_on e.tfa.log ≡ false)
    × (e.music_count ≡ 1)
voice-silences_example = voice-silences working both quiet refl (omega arith) (omega arith)

-- The vendor's library does not let itself be loaded.
abbrev luck : Luck
luck = record {
  tfa_mem = true;
  handle_mem = true;
  access = true;
  dlopen = false;
  open_sym = true;
  enable_sym = true;
  open_rc = ok;
  first_off = ok;
  first_on = ok;
  second_off = ok;
  amp_mem = true;
  garbage = false;
  audio = working;
}

abbrev closed : Module
closed = record { amp_dev = false; dev = none; held = []; leaked = [] }

amp_module_open-IsOutcome_example :
    ((amp_module_open true luck closed).0 ≡ expected luck)
    × IsOutcome luck closed (amp_module_open true luck closed)
amp_module_open-IsOutcome_example = amp_module_open-IsOutcome luck closed refl refl
