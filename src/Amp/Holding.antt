-- ===== src/Amp/Holding.antt =====
-- What is held after opening and closing.
use android_device_samsung_a.Base.{
  chosen-keeps, ◌≡◌, refl, sym, ap, ◌∙◌, subst, Bool, true, false, ◌&&◌, Option, none, some, List,
  [], ◌∷◌, ◌++◌, ◌⊎◌, inl, inr, if◌then◌else◌,
}
use android_device_samsung_a.Amp.Tfa.{Rc, ok, negative, positive, Tfa, tfa_power}
use android_device_samsung_a.Amp.Hal.{Amp}
use android_device_samsung_a.Amp.Clock.{IsQuiet, OnSome, tfa_power-IsQuiet, i2s_on, is_held}
use android_device_samsung_a.Amp.Results.{expected, amp_module-result}
use android_device_samsung_a.Amp.Opening.{
  Resource, tfa_memory, handle_memory, library, amp_memory, Luck, Opened, undefined, hung, failed,
  opened, all_three, require, unless_negative, after_power, new_tfa, power_cycle, tfa_device_open,
  Result, opened_ok, ebusy, enoent, enomem, no_return, Module, new_amp, opened_module,
  amp_module_open, close_dev, amp_dev_close,
}

abbrev pub held_if : Bool → Resource → List Resource
held_if true r = r ∷ []
held_if false r = []

-- What is acquired, the latest first: each resource if it and all before it could be had.
abbrev pub acquired_by : (tfa_mem handle_mem access dlopen : Bool) → List Resource
acquired_by tfa_mem handle_mem access dlopen =
    held_if (tfa_mem && handle_mem && access && dlopen) library
    ++ held_if (tfa_mem && handle_mem) handle_memory
    ++ held_if tfa_mem tfa_memory

abbrev pub acquired : Luck → List Resource
acquired l = acquired_by l.tfa_mem l.handle_mem l.access l.dlopen

-- `tfa_device_open` holds these, which are all three when it succeeds.
abbrev pub IsHolding : List Resource → Opened → Type 0
IsHolding want (opened t held) = (held ≡ want) × (want ≡ all_three) × IsQuiet t
IsHolding want (failed held) = held ≡ want
IsHolding want (hung held) = held ≡ want
IsHolding want (undefined held) = held ≡ want

unless-IsHolding :
    (rc : Rc) (o : Opened) → IsHolding all_three o → IsHolding all_three (unless_negative rc o)
unless-IsHolding ok o h = h
unless-IsHolding positive o h = h
unless-IsHolding negative o h = refl

after-IsHolding :
    (rest : Tfa → Opened) (o : Option (Tfa × Rc))
    → OnSome (λ r. IsQuiet r.0) o
    → ((t : Tfa) → IsQuiet t → IsHolding all_three (rest t))
    → IsHolding all_three (after_power rest o)
after-IsHolding rest none q h = refl
after-IsHolding rest (some (t, rc)) q h = unless-IsHolding rc (rest t) (h t q)

new-IsQuiet : IsQuiet new_tfa
unfolding i2s_on is_held
new-IsQuiet = (refl, (refl, refl, refl))

cycle-IsHolding : (l : Luck) → l.audio.i2s_off ≡ true → IsHolding all_three (power_cycle l)
cycle-IsHolding l o = chosen-keeps (IsHolding all_three) l.garbage (undefined all_three) _ refl (
    after-IsHolding _ (tfa_power l.audio l.first_off false new_tfa)
      (tfa_power-IsQuiet l.audio l.first_off false new_tfa o new-IsQuiet)
      (λ t q.
        after-IsHolding _ _
          (tfa_power-IsQuiet l.audio l.first_on true
            (record t { writing = false; clock_enabled = false }) o (refl, q.1))
          (λ t1 q1.
            after-IsHolding _ _ (tfa_power-IsQuiet l.audio l.second_off false t1 o q1)
              (λ t2 q2. (refl, refl, q2)))))

-- The resources one after the other, whose failures leave what was acquired before them.
required-IsHolding :
    (a b c d e f : Bool) (o : Opened)
    → IsHolding all_three o
    → IsHolding (acquired_by a b c d) (
        require a [] (
          require b (tfa_memory ∷ []) (
            require c (handle_memory ∷ tfa_memory ∷ []) (
              require d
                (handle_memory ∷ tfa_memory ∷ [])
                (require e all_three (require f all_three o))))))
required-IsHolding false b c d e f o h = refl
required-IsHolding true false c d e f o h = refl
required-IsHolding true true false d e f o h = refl
required-IsHolding true true true false e f o h = refl
required-IsHolding true true true true false f o h = refl
required-IsHolding true true true true true false o h = refl
required-IsHolding true true true true true true o h = h

open-IsHolding : (l : Luck) → l.audio.i2s_off ≡ true → IsHolding (acquired l) (tfa_device_open l)
unfolding tfa_device_open
open-IsHolding l o =
    required-IsHolding l.tfa_mem l.handle_mem l.access l.dlopen l.open_sym l.enable_sym _
      (unless-IsHolding l.open_rc (power_cycle l) (cycle-IsHolding l o))

-- A module that has been opened: everything is held, and the clock and the amplifier are off.
abbrev pub IsOpen : Module → Module → Type 0
IsOpen m n =
    (n.amp_dev ≡ true)
    × (n.held ≡ amp_memory ∷ all_three)
    × (n.leaked ≡ m.leaked)
    × ((d : Amp) × (n.dev ≡ some d) × (d.enabled ≡ false) × IsQuiet d.tfa)

-- The module is as before, and these resources are held with no pointer to them left.
abbrev pub IsLost : List Resource → Module → Module → Type 0
IsLost lost m n =
    (n.amp_dev ≡ m.amp_dev) × (n.dev ≡ m.dev) × (n.held ≡ m.held) × (n.leaked ≡ lost ++ m.leaked)

abbrev pub IsOutcome : Luck → Module → Result × Module → Type 0
IsOutcome l m r =
    ((r.0 ≡ opened_ok) × IsOpen m r.1)
    ⊎ (((r.0 ≡ enoent) ⊎ (r.0 ≡ enomem)) × IsLost (acquired l) m r.1)
    ⊎ ((r.0 ≡ no_return) × IsLost (acquired l) m r.1)

opened-IsOutcome :
    (l : Luck) (amp_mem : Bool) (o : Opened) (m : Module)
    → IsHolding (acquired l) o
    → IsOutcome l m (opened_module amp_mem o m)
opened-IsOutcome l amp_mem (undefined held) m h =
    inr (inr (refl, (refl, refl, refl, ap (λ xs. xs ++ m.leaked) h)))
opened-IsOutcome l amp_mem (hung held) m h =
    inr (inr (refl, (refl, refl, refl, ap (λ xs. xs ++ m.leaked) h)))
opened-IsOutcome l amp_mem (failed held) m h =
    inr (inl (inl refl, (refl, refl, refl, ap (λ xs. xs ++ m.leaked) h)))
opened-IsOutcome l true (opened t held) m (e, k, q) =
    inl (refl, (refl, ap (λ xs. amp_memory ∷ xs) (e ∙ k), refl, (new_amp t, refl, refl, q)))
opened-IsOutcome l false (opened t held) m (e, k, q) =
    inr (inl (inr refl, (refl, refl, refl, ap (λ xs. xs ++ m.leaked) e)))

-- Opening the amplifier while none is open, under its name, where the interface can be disabled, has
-- one of three outcomes, and which one it is follows from what the platform answers. It succeeds, with
-- all four resources held, the amplifier disabled and the clock off, if everything that it asks for is
-- there, no result of the vendor's library is negative, the fields for the clock happen to read as off,
-- the thread is created and the interface enabled. Or it fails, leaves the module as it was, and
-- exactly what it had acquired before the failure stays held with no pointer to it. Or it does not
-- return, or joins a thread that may not exist, with exactly that held.
pub amp_module_open-IsOutcome :
    (l : Luck) (m : Module)
    → l.audio.i2s_off ≡ true
    → m.amp_dev ≡ false
    → ((amp_module_open true l m).0 ≡ expected l) × IsOutcome l m (amp_module_open true l m)
unfolding amp_module_open
amp_module_open-IsOutcome l m o e =
    let rest = opened_module l.amp_mem (tfa_device_open l) m in
    subst (λ r. (r.0 ≡ expected l) × IsOutcome l m r)
      (sym (ap (λ b. if◌then◌else◌ {A = Result × Module} b (ebusy, m) rest) e))
      (
        amp_module-result l m,
        opened-IsOutcome l l.amp_mem (tfa_device_open l) m (open-IsHolding l o),
      )

close-amp_dev : (o : Option Amp) (m : Module) → (close_dev o m).amp_dev ≡ m.amp_dev
close-amp_dev none m = refl
close-amp_dev (some d) m = refl

-- Once an amplifier has been opened it cannot be opened again after its close, whatever the platform
-- answers: the code says that it is busy, and nothing changes.
amp_dev_close-ebusy :
    (l : Luck) (m : Module)
    → m.amp_dev ≡ true
    → amp_module_open true l (amp_dev_close m) ≡ (ebusy, amp_dev_close m)
unfolding amp_module_open amp_dev_close
amp_dev_close-ebusy l m e =
    let n = close_dev m.dev m in
    ap
      (λ b.
        if◌then◌else◌ {A = Result × Module} b (ebusy, n)
          (opened_module l.amp_mem (tfa_device_open l) n))
      (close-amp_dev m.dev m ∙ e)
