-- ===== src/Amp/Clock.antt =====
-- The clock, the interface and the buffer after the chip has been switched.
use android_device_samsung_a.Base.{
  chosen-keeps, ◌≡◌, refl, sym, ap, subst, Bool, true, false, Option, none, some, List, [], ◌∷◌,
  ◌⊎◌, inl, inr, Bool-cases, if◌then◌else◌,
}
use android_device_samsung_a.Amp.Tfa.{
  Rc, Pcm, ready, not_ready, no_pcm, Audio, end_loop, Effect, i2s_set, pcm_opened, pcm_closed,
  allocated, freed, chip, Thread, no_thread, started, looping, Tfa, emit, open_pcm,
  write_dummy_data, finish_loop, run_rest, tfa_clock_on, tfa_clock_off, switch_chip, tfa_power,
}

-- Whether the interface is on, and whether the buffer is held.
unfoldable pub i2s_on : List Effect → Bool
i2s_on [] = false
i2s_on (i2s_set b ∷ log) = b
i2s_on (pcm_opened ∷ log) = i2s_on log
i2s_on (pcm_closed ∷ log) = i2s_on log
i2s_on (allocated ∷ log) = i2s_on log
i2s_on (freed ∷ log) = i2s_on log
i2s_on (chip b ∷ log) = i2s_on log

unfoldable pub is_held : List Effect → Bool
is_held [] = false
is_held (allocated ∷ log) = true
is_held (freed ∷ log) = false
is_held (i2s_set b ∷ log) = is_held log
is_held (pcm_opened ∷ log) = is_held log
is_held (pcm_closed ∷ log) = is_held log
is_held (chip b ∷ log) = is_held log

-- No thread runs, the interface is off and the buffer is not held.
abbrev pub IsOff : Tfa → Type 0
IsOff t = (t.thread ≡ no_thread) × (i2s_on t.log ≡ false) × (is_held t.log ≡ false)

abbrev pub IsQuiet : Tfa → Type 0
IsQuiet t = (t.clock_enabled ≡ false) × IsOff t

abbrev IsRun : Tfa → Type 0
IsRun t = IsOff t ⊎ (t.thread ≡ looping)

open_pcm-IsRun :
    (off b : Bool) (p : Pcm) (t : Tfa)
    → off ≡ true
    → is_held t.log ≡ false
    → IsRun (open_pcm off b p t)
unfolding i2s_on is_held
open_pcm-IsRun false b p t o h = cc
open_pcm-IsRun true true ready t o h = inr refl
open_pcm-IsRun true false ready t o h = inl (refl, refl, h)
open_pcm-IsRun true b (not_ready true) t o h = inl (refl, refl, h)
open_pcm-IsRun true b (not_ready false) t o h = inl (refl, refl, h)
open_pcm-IsRun true b no_pcm t o h = inl (refl, refl, h)

end_loop-IsOff : (off : Bool) (t : Tfa) → off ≡ true → IsOff (end_loop off t)
unfolding i2s_on is_held
end_loop-IsOff true t o = (refl, refl, refl)
end_loop-IsOff false t o = cc

dummy-IsRun :
    (a : Audio) (t : Tfa)
    → a.i2s_off ≡ true
    → i2s_on t.log ≡ false
    → is_held t.log ≡ false
    → IsRun (write_dummy_data a t)
unfolding write_dummy_data i2s_on is_held
dummy-IsRun a t o h k = elim (Bool-cases a.i2s) [
  | inl e ↦ rw e (open_pcm-IsRun a.i2s_off a.buffer a.pcm (emit (i2s_set true) t) o k)
  | inr e ↦ rw e (inl (refl, h, k))
]

-- A thread that has signaled runs to its end, the chip having been switched meanwhile.
ended-IsOff :
    (a : Audio) (on : Bool) (t : Tfa)
    → a.i2s_off ≡ true
    → IsRun t
    → IsOff (run_rest a t.thread (emit (chip on) t))
unfolding i2s_on is_held
ended-IsOff a on t o (inl (e, h, k)) =
    subst (λ th. IsOff (run_rest a th (emit (chip on) t))) (sym e) (e, h, k)
ended-IsOff a on t o (inr e) =
    subst (λ th. IsOff (run_rest a th (emit (chip on) t))) (sym e)
      (end_loop-IsOff a.i2s_off (emit (chip on) t) o)

-- So does one that had not run at all.
started-IsOff :
    (a : Audio) (t : Tfa)
    → a.i2s_off ≡ true
    → i2s_on t.log ≡ false
    → is_held t.log ≡ false
    → IsOff (run_rest a started t)
unfolding i2s_on is_held
started-IsOff a t o h k =
    let t1 = write_dummy_data a t in
    let P = λ (th : Thread). IsOff (finish_loop a.i2s_off th t1) in
    elim (dummy-IsRun a t o h k) [
      | inl off ↦ subst P (sym off.0) off
      | inr e ↦ subst P (sym e) (end_loop-IsOff a.i2s_off t1 o)
    ]

abbrev pub OnSome : {A : Type 0} → (A → Type 0) → Option A → Type 0
OnSome P none = Unit {0}
OnSome P (some x) = P x

-- With the clock on: what the rest of `tfa_power` leaves.
abbrev IsReady : Audio → (on : Bool) → Tfa → Type 0
IsReady a on t = (t.clock_enabled ≡ true) × IsOff (run_rest a t.thread (emit (chip on) t))

early-IsReady :
    (a : Audio) (on : Bool) (t : Tfa)
    → a.i2s_off ≡ true
    → IsQuiet t
    → IsReady a on
        (record (if a.at_once then write_dummy_data a t else record t { thread = started }) {
          clock_enabled = true;
        })
unfolding i2s_on is_held
early-IsReady a on t o (c, (e, h, k)) =
    chosen-keeps (λ (x : Tfa). IsReady a on (record x { clock_enabled = true })) a.at_once
      (write_dummy_data a t) (record t { thread = started })
      (
        refl,
        ended-IsOff a on (record (write_dummy_data a t) { clock_enabled = true }) o
            (dummy-IsRun a t o h k),
      )
      (
        refl,
        started-IsOff a (emit (chip on) (record t { thread = started; clock_enabled = true })) o h
            k,
      )

clock_on-IsReady :
    (a : Audio) (on : Bool) (t : Tfa)
    → a.i2s_off ≡ true
    → IsQuiet t
    → OnSome (IsReady a on) (tfa_clock_on a t)
unfolding tfa_clock_on i2s_on is_held
clock_on-IsReady a on t o (c, (e, h, k)) =
    let P = OnSome (IsReady a on) in
    let run = write_dummy_data a t in
    let early = if a.at_once then write_dummy_data a t else record t { thread = started } in
    let late : Option Tfa =
      if run.writing then some (record run { clock_enabled = true }) else none in
    let both : Option Tfa =
      if t.writing then some (record early { clock_enabled = true }) else late in
    subst P (sym (ap (λ b. if b then some t else if a.created then both else none) c)) (
      chosen-keeps P a.created both none
        (chosen-keeps P t.writing (some (record early { clock_enabled = true })) late
          (early-IsReady a on t o (c, (e, h, k)))
          (chosen-keeps P run.writing (some (record run { clock_enabled = true })) none
            (refl, ended-IsOff a on (record run { clock_enabled = true }) o (dummy-IsRun a t o h k))
            tt))
        tt)

off-IsQuiet :
    (a : Audio) (on : Bool) (t : Tfa)
    → IsReady a on t
    → IsQuiet (tfa_clock_off a (emit (chip on) t))
unfolding tfa_clock_off
off-IsQuiet a on t (c, off) =
    let k = emit (chip on) t in
    subst IsQuiet
      (sym (ap (λ b. if b then record (run_rest a t.thread k) { clock_enabled = false } else k) c))
      (refl, off)

still-IsQuiet :
    (a : Audio) (on : Bool) (t : Tfa) → IsQuiet t → IsQuiet (tfa_clock_off a (emit (chip on) t))
unfolding tfa_clock_off i2s_on is_held
still-IsQuiet a on t (c, h) =
    let k = emit (chip on) t in
    subst IsQuiet
      (sym (ap (λ b. if b then record (run_rest a t.thread k) { clock_enabled = false } else k) c))
      (c, h)

switched-IsQuiet :
    (a : Audio) (rc : Rc) (on : Bool) (o : Option Tfa)
    → OnSome (IsReady a on) o
    → OnSome (λ r. IsQuiet r.0) (switch_chip a rc on o)
switched-IsQuiet a rc on none h = tt
switched-IsQuiet a rc on (some t) h = off-IsQuiet a on t h

-- If `tfa_power` returns, and the interface can be disabled, the clock is off as it was before, no
-- thread runs, the interface is off and the buffer is freed, whatever else the sound library and the
-- vendor's library answer.
pub tfa_power-IsQuiet :
    (a : Audio) (rc : Rc) (on : Bool) (t : Tfa)
    → a.i2s_off ≡ true
    → IsQuiet t
    → OnSome (λ r. IsQuiet r.0) (tfa_power a rc on t)
unfolding tfa_power
tfa_power-IsQuiet a rc true t o h =
    switched-IsQuiet a rc true (tfa_clock_on a t) (clock_on-IsReady a true t o h)
tfa_power-IsQuiet a rc false t o h = still-IsQuiet a false t h

-- Switching off leaves the interface alone.
pub tfa_power-IsQuiet_off :
    (a : Audio) (rc : Rc) (t : Tfa) → IsQuiet t → OnSome (λ r. IsQuiet r.0) (tfa_power a rc false t)
unfolding tfa_power
tfa_power-IsQuiet_off a rc t h = still-IsQuiet a false t h
