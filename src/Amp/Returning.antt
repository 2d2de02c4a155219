-- ===== src/Amp/Returning.antt =====
-- When the switching of the chip returns.
use android_device_samsung_a.Base.{
  ◌≡◌, refl, sym, ap, ◌∙◌, Bool, true, false, ◌&&◌, ◌||◌, not, Option, none, some, inl, inr,
  Bool-cases, if◌then◌else◌,
}
use android_device_samsung_a.Amp.Tfa.{
  Rc, Pcm, ready, not_ready, no_pcm, Audio, i2s_set, started, Tfa, emit, open_pcm, write_dummy_data,
  tfa_clock_on, switch_chip, tfa_power,
}

abbrev pub returns : {A : Type 0} → Option A → Bool
returns none = false
returns (some x) = true

open_pcm-writing : (off b : Bool) (p : Pcm) (t : Tfa) → (open_pcm off b p t).writing ≡ true
open_pcm-writing off true ready t = refl
open_pcm-writing off false ready t = refl
open_pcm-writing off b (not_ready true) t = refl
open_pcm-writing off b (not_ready false) t = refl
open_pcm-writing off b no_pcm t = refl

pub switch-returns :
    (a : Audio) (rc : Rc) (on : Bool) (o : Option Tfa) → returns (switch_chip a rc on o) ≡ returns o
switch-returns a rc on none = refl
switch-returns a rc on (some t) = refl

or_nothing : (b : Bool) → b ≡ (b || false)
or_nothing true = refl
or_nothing false = refl

or_true : (b : Bool) → (b || true) ≡ true
or_true true = refl
or_true false = refl

no_signal : (c i : Bool) → (c && (i || false)) ≡ ((c && i) || false)
no_signal true i = refl
no_signal false i = refl

one_of :
    (w r : Bool) (x y z : Option Tfa) (i : Bool)
    → returns x ≡ true
    → returns y ≡ true
    → (w ≡ false → r ≡ i)
    → returns (if w then x else if r then y else none) ≡ (i || w)
one_of true r x y z true h k e = h
one_of true r x y z false h k e = h
one_of false true x y z i h k e = k ∙ e refl ∙ or_nothing i
one_of false false x y z i h k e = e refl ∙ or_nothing i

dummy-writing : (a : Audio) (t : Tfa) → t.writing ≡ false → (write_dummy_data a t).writing ≡ a.i2s
unfolding write_dummy_data
dummy-writing a t w = elim (Bool-cases a.i2s) [
  | inl e ↦ rw e (open_pcm-writing a.i2s_off a.buffer a.pcm (emit (i2s_set true) t))
  | inr e ↦ rw e w
]

when_created :
    (c r : Bool) (o : Option Tfa) → returns o ≡ r → returns (if c then o else none) ≡ (c && r)
when_created true r o h = h
when_created false r o h = refl

pub clock_on-returns :
    (a : Audio) (t : Tfa)
    → t.clock_enabled ≡ false
    → returns (tfa_clock_on a t) ≡ (a.created && (a.i2s || t.writing))
unfolding tfa_clock_on
clock_on-returns a t c =
    let early = if a.at_once then write_dummy_data a t else record t { thread = started } in
    let run = write_dummy_data a t in
    let x : Option Tfa = some (record early { clock_enabled = true }) in
    let y : Option Tfa = some (record run { clock_enabled = true }) in
    let both : Option Tfa = if t.writing then x else if run.writing then y else none in
    ap (λ b. returns (if b then some t else if a.created then both else none)) c
    ∙ when_created a.created (a.i2s || t.writing) both
        (one_of t.writing run.writing x y none a.i2s refl refl (dummy-writing a t))

-- With the clock off and no earlier signal left over, `tfa_power` returns when it switches off, and
-- when it switches on exactly if the thread is created and the interface enabled; otherwise there is
-- no signal, and the wait for it never ends.
pub tfa_power-returns :
    (a : Audio) (rc : Rc) (on : Bool) (t : Tfa)
    → t.clock_enabled ≡ false
    → t.writing ≡ false
    → returns (tfa_power a rc on t) ≡ ((a.created && a.i2s) || not on)
unfolding tfa_power
tfa_power-returns a rc true t c w =
    switch-returns a rc true (tfa_clock_on a t)
    ∙ clock_on-returns a t c
    ∙ ap (λ b. a.created && (a.i2s || b)) w
    ∙ no_signal a.created a.i2s
tfa_power-returns a rc false t c w = sym (or_true (a.created && a.i2s))
