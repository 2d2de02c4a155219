-- ===== src/Amp/Opening.antt =====
-- Opening and closing of the amplifier: `tfa_device_open` and `tfa_device_close` of tfa.c, and
-- `amp_module_open` and `amp_dev_close` of amplifier.c, with the resources that they hold.
use android_device_samsung_a.Base.{
  Bool, true, false, not, Option, none, some, List, [], ◌∷◌, ◌++◌, if◌then◌else◌,
}
use android_device_samsung_a.Amp.Tfa.{Rc, ok, negative, positive, Audio, Tfa, no_thread, tfa_power}
use android_device_samsung_a.Amp.Hal.{Amp}

pub data Resource : Type 0 where
  tfa_memory handle_memory library amp_memory : Resource

-- What the platform and the vendor's library answer: memory for the two structures, access to the
-- library, its loading, its two symbols, its `tfa_device_open` and the three runs of `tfa_enable`,
-- the memory for `amp_device_t`, and what `clock_enabled` is in memory that nobody has written.
pub record Luck : Type 0 where
  pub tfa_mem : Bool
  pub handle_mem : Bool
  pub access : Bool
  pub dlopen : Bool
  pub open_sym : Bool
  pub enable_sym : Bool
  pub open_rc : Rc
  pub first_off : Rc
  pub first_on : Rc
  pub second_off : Rc
  pub amp_mem : Bool
  pub garbage : Bool
  pub audio : Audio

-- `undefined` is the join of a thread that there is not, `hung` a wait without an end.
pub data Opened : Type 0 where
  undefined : List Resource → Opened
  hung : List Resource → Opened
  failed : List Resource → Opened
  opened : Tfa → List Resource → Opened

abbrev pub all_three : List Resource
all_three = library ∷ handle_memory ∷ tfa_memory ∷ []

abbrev pub require : Bool → List Resource → Opened → Opened
require true held rest = rest
require false held rest = failed held

-- A result below 0 ends the opening.
abbrev pub unless_negative : Rc → Opened → Opened
unless_negative ok rest = rest
unless_negative positive rest = rest
unless_negative negative rest = failed all_three

abbrev pub after_power : (Tfa → Opened) → Option (Tfa × Rc) → Opened
after_power rest none = hung all_three
after_power rest (some (t, rc)) = unless_negative rc (rest t)

abbrev pub new_tfa : Tfa
new_tfa = record { writing = false; clock_enabled = false; thread = no_thread; log = [] }

-- The three runs of `tfa_power` in `tfa_device_open`.
abbrev pub power_cycle : Luck → Opened
power_cycle l =
    if l.garbage
    then undefined all_three
    else after_power
        (λ t.
          after_power
            (λ t1.
              after_power (λ t2. opened t2 all_three) (tfa_power l.audio l.second_off false t1))
            (tfa_power l.audio l.first_on true
              (record t { writing = false; clock_enabled = false })))
        (tfa_power l.audio l.first_off false new_tfa)

-- `tfa_device_open`, with `load_tfa_lib`
unfoldable pub tfa_device_open : Luck → Opened
tfa_device_open l = require l.tfa_mem [] (
    require l.handle_mem (tfa_memory ∷ []) (
      require l.access (handle_memory ∷ tfa_memory ∷ []) (
        require l.dlopen (handle_memory ∷ tfa_memory ∷ []) (
          require l.open_sym all_three
            (require l.enable_sym all_three (unless_negative l.open_rc (power_cycle l)))))))

pub data Result : Type 0 where
  opened_ok enodev ebusy enoent enomem no_return : Result

-- The pointer `amp_dev` (NULL or not), the device that is open, what it holds, and what is still held
-- though no pointer to it is left.
pub record Module : Type 0 where
  pub amp_dev : Bool
  pub dev : Option Amp
  pub held : List Resource
  pub leaked : List Resource

abbrev pub new_amp : Tfa → Amp
new_amp t = record { tfa = t; current_mode = 0; music_count = 0; voice_count = 0; enabled = false }

abbrev pub leak : List Resource → Module → Module
leak held m = record m { leaked = held ++ m.leaked }

-- The rest of `amp_module_open`, with or without memory for `amp_device_t`.
abbrev pub opened_module : (amp_mem : Bool) → Opened → Module → Result × Module
opened_module amp_mem (undefined held) m = (no_return, leak held m)
opened_module amp_mem (hung held) m = (no_return, leak held m)
opened_module amp_mem (failed held) m = (enoent, leak held m)
opened_module true (opened t held) m =
    (opened_ok, record m { amp_dev = true; dev = some (new_amp t); held = amp_memory ∷ held })
opened_module false (opened t held) m = (enomem, leak held m)

-- `amp_module_open`, `named` being whether the name is the interface's.
unfoldable pub amp_module_open : (named : Bool) → Luck → Module → Result × Module
amp_module_open named l m =
    if not named
    then (enodev, m)
    else if m.amp_dev
    then (ebusy, m)
    else opened_module l.amp_mem (tfa_device_open l) m

-- `amp_dev_close` with `tfa_device_close`, where its `tfa_power` returns: everything is released, and
-- `amp_dev` stays as it is.
abbrev pub close_dev : Option Amp → Module → Module
close_dev none m = m
close_dev (some d) m = record m { dev = none; held = [] }

unfoldable pub amp_dev_close : Module → Module
amp_dev_close m = close_dev m.dev m
