-- ===== src/Amp/Switching.antt =====
-- The chip after it has been switched: as it was asked to be, where the switching returns.
use android_device_samsung_a.Base.{
  ◌≡◌, refl, ap, ◌∙◌, Bool, true, false, ◌&&◌, ◌||◌, Option, none, some, List, [], ◌∷◌,
  chosen-keeps, if◌then◌else◌,
}
use android_device_samsung_a.Amp.Tfa.{
  Rc, ok, Pcm, ready, not_ready, no_pcm, Audio, Effect, i2s_set, pcm_opened, pcm_closed, allocated,
  freed, chip, Thread, no_thread, started, looping, Tfa, emit, open_pcm, write_dummy_data,
  finish_loop, run_rest, tfa_clock_on, tfa_clock_off, switch_chip, tfa_power, disable_interface,
}
use android_device_samsung_a.Amp.Clock.{IsQuiet, OnSome, tfa_power-IsQuiet}
use android_device_samsung_a.Amp.Returning.{returns, clock_on-returns, switch-returns}

-- Whether the chip was switched on last.
unfoldable pub chip_on : List Effect → Bool
chip_on [] = false
chip_on (chip b ∷ log) = b
chip_on (i2s_set b ∷ log) = chip_on log
chip_on (pcm_opened ∷ log) = chip_on log
chip_on (pcm_closed ∷ log) = chip_on log
chip_on (allocated ∷ log) = chip_on log
chip_on (freed ∷ log) = chip_on log

interface-chip : (off : Bool) (t : Tfa) → chip_on (disable_interface off t).log ≡ chip_on t.log
unfolding chip_on
interface-chip true t = refl
interface-chip false t = refl

open_pcm-chip :
    (off b : Bool) (p : Pcm) (t : Tfa) → chip_on (open_pcm off b p t).log ≡ chip_on t.log
unfolding chip_on
open_pcm-chip off true ready t = refl
open_pcm-chip off false ready t = interface-chip off (emit pcm_closed (emit pcm_opened t))
open_pcm-chip off b (not_ready true) t = interface-chip off (emit pcm_opened t)
open_pcm-chip off b (not_ready false) t = interface-chip off (emit pcm_closed (emit pcm_opened t))
open_pcm-chip off b no_pcm t = interface-chip off t

dummy-chip : (a : Audio) (t : Tfa) → chip_on (write_dummy_data a t).log ≡ chip_on t.log
unfolding write_dummy_data chip_on
dummy-chip a t =
    chosen-keeps (λ (k : Tfa). chip_on k.log ≡ chip_on t.log) a.i2s
      (open_pcm a.i2s_off a.buffer a.pcm (emit (i2s_set true) t)) (record t { thread = no_thread })
      (open_pcm-chip a.i2s_off a.buffer a.pcm (emit (i2s_set true) t)) refl

ended-chip :
    (off : Bool) (th : Thread) (t : Tfa) → chip_on (finish_loop off th t).log ≡ chip_on t.log
unfolding chip_on
ended-chip off no_thread t = refl
ended-chip off started t = refl
ended-chip off looping t = interface-chip off (emit pcm_closed (emit freed t))

rest-chip : (a : Audio) (th : Thread) (t : Tfa) → chip_on (run_rest a th t).log ≡ chip_on t.log
unfolding chip_on
rest-chip a no_thread t = refl
rest-chip a looping t = ended-chip a.i2s_off looping t
rest-chip a started t =
    let t1 = write_dummy_data a t in ended-chip a.i2s_off t1.thread t1 ∙ dummy-chip a t

off-chip : (a : Audio) (t : Tfa) → chip_on (tfa_clock_off a t).log ≡ chip_on t.log
unfolding tfa_clock_off
off-chip a t =
    chosen-keeps (λ (k : Tfa). chip_on k.log ≡ chip_on t.log) t.clock_enabled
      (record (run_rest a t.thread t) { clock_enabled = false }) t (rest-chip a t.thread t) refl

switched-chip :
    (a : Audio) (rc : Rc) (on : Bool) (o : Option Tfa)
    → OnSome (λ r. (chip_on r.0.log ≡ on) × (r.1 ≡ rc)) (switch_chip a rc on o)
unfolding chip_on
switched-chip a rc on none = tt
switched-chip a rc on (some t) = (off-chip a (emit (chip on) t), refl)

-- A result that is there.
abbrev pub IsGiven : (on : Bool) → Option (Tfa × Rc) → Type 0
IsGiven on o = (t : Tfa) × (o ≡ some (t, ok)) × IsQuiet t × (chip_on t.log ≡ on)

pub given :
    (on : Bool) (o : Option (Tfa × Rc))
    → returns o ≡ true
    → OnSome (λ r. IsQuiet r.0) o
    → OnSome (λ r. (chip_on r.0.log ≡ on) × (r.1 ≡ ok)) o
    → IsGiven on o
given on none h q c = cc
given on (some (t, rc)) h q (c, e) = (t, ap (λ r. some (t, r)) e, q, c)

-- The thread is created, and the interface enabled and disabled.
abbrev pub IsWorking : Audio → Type 0
IsWorking a = (a.created ≡ true) × (a.i2s ≡ true) × (a.i2s_off ≡ true)

both_true : (a b c : Bool) → a ≡ true → b ≡ true → (a && (b || c)) ≡ true
both_true true true c h k = refl
both_true true false c h k = cc
both_true false b c h k = h

power-returns :
    (a : Audio) (on : Bool) (t : Tfa)
    → IsWorking a
    → t.clock_enabled ≡ false
    → returns (tfa_power a ok on t) ≡ true
unfolding tfa_power
power-returns a true t h c =
    switch-returns a ok true (tfa_clock_on a t)
    ∙ clock_on-returns a t c
    ∙ both_true a.created a.i2s t.writing h.0 h.1
power-returns a false t h c = refl

pub off-returns : (a : Audio) (t : Tfa) → returns (tfa_power a ok false t) ≡ true
unfolding tfa_power
off-returns a t = refl

pub power-chip :
    (a : Audio) (on : Bool) (t : Tfa)
    → OnSome (λ r. (chip_on r.0.log ≡ on) × (r.1 ≡ ok)) (tfa_power a ok on t)
unfolding tfa_power
power-chip a on t = switched-chip a ok on (if on then tfa_clock_on a t else some t)

pub power-IsGiven :
    (a : Audio) (on : Bool) (t : Tfa) → IsWorking a → IsQuiet t → IsGiven on (tfa_power a ok on t)
power-IsGiven a on t h q =
    given on (tfa_power a ok on t) (power-returns a on t h q.0) (tfa_power-IsQuiet a ok on t h.2 q)
      (power-chip a on t)
