-- ===== src/Amp/Tfa.antt =====
-- amplifier/tfa.c: `tfa_power`, with the thread that keeps the clock running while the chip is
-- switched.
--
-- The thread is not started, started and not yet run, in its loop, or ended. What the sound library and
-- the vendor's library answer are parameters. `none` is a wait that nobody ends, or comes before the
-- join of a thread that was never created.
use android_device_samsung_a.Base.{Bool, true, false, Option, none, some, List, ◌∷◌, if◌then◌else◌}

-- An `int` result.
pub data Rc : Type 0 where
  ok negative positive : Rc

-- What `pcm_open` gives: a stream that is ready, one that is not (with errno EBUSY or not), or NULL.
pub data Pcm : Type 0 where
  ready : Pcm
  not_ready : (busy : Bool) → Pcm
  no_pcm : Pcm

-- The answers for one run of the thread: whether it is created, whether the interface can be enabled
-- and disabled again, which fails without the mixer or its control, the stream, whether
-- there is memory for the buffer, and whether a thread that is not waited for runs at once.
pub record Audio : Type 0 where
  pub created : Bool
  pub i2s : Bool
  pub i2s_off : Bool
  pub pcm : Pcm
  pub buffer : Bool
  pub at_once : Bool

pub data Effect : Type 0 where
  i2s_set : Bool → Effect
  pcm_opened pcm_closed allocated freed : Effect
  chip : Bool → Effect

pub data Thread : Type 0 where
  no_thread : Thread
  started looping : Thread

-- `tfa_device_t`: the fields for the clock, and what has happened, the latest first.
pub record Tfa : Type 0 where
  pub writing : Bool
  pub clock_enabled : Bool
  pub thread : Thread
  pub log : List Effect

abbrev pub emit : Effect → Tfa → Tfa
emit x t = record t { log = x ∷ t.log }

-- `i2s_interface_en(false)`, whose result is ignored.
abbrev pub disable_interface : (i2s_off : Bool) → Tfa → Tfa
disable_interface true t = emit (i2s_set false) t
disable_interface false t = t

-- The end of `write_dummy_data` from its label `err_disable_i2s` on, not signaled yet.
abbrev pub disable_i2s : (i2s_off : Bool) → Tfa → Tfa
disable_i2s off t = record (disable_interface off t) { writing = true; thread = no_thread }

abbrev pub close_pcm : (i2s_off : Bool) → Tfa → Tfa
close_pcm off t = disable_i2s off (emit pcm_closed t)

-- `write_dummy_data` from `pcm_open` up to its signal.
abbrev pub open_pcm : (i2s_off buffer : Bool) → Pcm → Tfa → Tfa
open_pcm off true ready t = record (emit allocated (emit pcm_opened t)) {
  writing = true;
  thread = looping;
}
open_pcm off false ready t = close_pcm off (emit pcm_opened t)
open_pcm off b (not_ready true) t = disable_i2s off (emit pcm_opened t)
open_pcm off b (not_ready false) t = close_pcm off (emit pcm_opened t)
open_pcm off b no_pcm t = disable_i2s off t

-- `write_dummy_data` up to its signal, or to its end without one.
unfoldable pub write_dummy_data : Audio → Tfa → Tfa
write_dummy_data a t =
    if a.i2s
    then open_pcm a.i2s_off a.buffer a.pcm (emit (i2s_set true) t)
    else record t { thread = no_thread }

-- The rest of it, once `initializing` is false.
abbrev pub end_loop : (i2s_off : Bool) → Tfa → Tfa
end_loop off t = record (disable_interface off (emit pcm_closed (emit freed t))) {
  writing = false;
  thread = no_thread;
}

-- A thread that may be in its loop runs to its end.
abbrev pub finish_loop : (i2s_off : Bool) → Thread → Tfa → Tfa
finish_loop off no_thread t = t
finish_loop off started t = t
finish_loop off looping t = end_loop off t

-- A thread runs to its end.
abbrev pub run_rest : Audio → Thread → Tfa → Tfa
run_rest a no_thread t = t
run_rest a looping t = finish_loop a.i2s_off looping t
run_rest a started t = let t1 = write_dummy_data a t in finish_loop a.i2s_off t1.thread t1

-- `tfa_clock_on`: `writing` that is still set from an earlier run is not waited for. Without a
-- thread it waits forever, or, where it does not wait, its caller's `tfa_clock_off` joins a thread
-- that was never created: `none` stands for both.
unfoldable pub tfa_clock_on : Audio → Tfa → Option Tfa
tfa_clock_on a t =
    let early = if a.at_once then write_dummy_data a t else record t { thread = started } in
    let run = write_dummy_data a t in
    if t.clock_enabled
    then some t
    else if a.created
    then (if t.writing
        then some (record early { clock_enabled = true })
        else if run.writing
        then some (record run { clock_enabled = true })
        else none)
    else none

-- `tfa_clock_off`
unfoldable pub tfa_clock_off : Audio → Tfa → Tfa
tfa_clock_off a t =
    if t.clock_enabled then record (run_rest a t.thread t) { clock_enabled = false } else t

-- `tfa_power` after the clock, `rc` being what the vendor's library returns.
abbrev pub switch_chip : Audio → Rc → (on : Bool) → Option Tfa → Option (Tfa × Rc)
switch_chip a rc on none = none
switch_chip a rc on (some t) = some (tfa_clock_off a (emit (chip on) t), rc)

-- `tfa_power`
unfoldable pub tfa_power : Audio → Rc → (on : Bool) → Tfa → Option (Tfa × Rc)
tfa_power a rc on t = switch_chip a rc on (if on then tfa_clock_on a t else some t)
