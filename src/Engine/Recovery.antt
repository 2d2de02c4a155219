-- ===== src/Engine/Recovery.antt =====
-- The fix that an engine restart starts again, and the aiding data whose deletion waits.
use android_device_samsung_a.Base.{
  chosen-keeps, ℕ, ◌≡◌, ◌≢◌, refl, ap, ◌∙◌, Bool, true, false, ◌&&◌, not, List, [], ◌∷◌, ◌==◌,
  arith, if◌then◌else◌,
}
use android_device_samsung_a.Engine.Session.{
  engine_on, engine_off, ApiErr, success, engine_down_err, phone_offline, internal_err, other_err,
  Effect, told_status, told_location, told_svs, told_nmea, told_measurement, nmea_pos, nmea_sv,
  fix_started, fix_stopped, told_session, mode_set, aiding_deleted, raw_freed, configured,
  power_voted, ordered, without_mode, Engine, Setup, emit, set_in_session, after_start,
  start_handler, update_aiding, is_engine_on, delete_aiding,
}
use android_device_samsung_a.Engine.Reports.{
  inform_gps_status, is_told, is_muted, muting, keep_status, report_status, status_message,
}
use android_device_samsung_a.Engine.Restart.{
  up_msg, status_msg, aiding_msg, reinit, agps_up, engine_up, proc, proc_all,
}
use android_device_samsung_a.Engine.Emitting.{prepared-keeps}

-- The commands to the modem about the fix.
abbrev pub is_command : Effect → Bool
is_command (fix_started c) = true
is_command fix_stopped = true
is_command (told_session b) = false
is_command (mode_set c) = false
is_command (aiding_deleted n) = false
is_command (told_status s) = false
is_command (told_location l) = false
is_command (told_svs svs) = false
is_command (told_nmea t) = false
is_command (told_measurement m) = false
is_command (nmea_pos b) = false
is_command (nmea_sv svs) = false
is_command raw_freed = false
is_command (configured s) = false
is_command power_voted = false
is_command (ordered o) = false

unfoldable pub commands : List Effect → List Effect
commands [] = []
commands (x ∷ xs) = if is_command x then x ∷ commands xs else commands xs

after_start-commands : (r : ApiErr) (e : Engine) → commands (after_start r e).log ≡ commands e.log
unfolding commands
after_start-commands success e = refl
after_start-commands engine_down_err e = refl
after_start-commands phone_offline e = refl
after_start-commands internal_err e = refl
after_start-commands other_err e = refl

start_again :
    (setup : Setup) (e : Engine)
    → commands (start_handler setup (set_in_session false e)).log
      ≡ fix_started (without_mode e.criteria) ∷ commands e.log
unfolding start_handler commands
start_again setup e =
    let again = set_in_session false e in
    after_start-commands (setup.start_fix again.log) (emit (fix_started again.criteria) again)

-- As it was when the engine came up.
abbrev IsLike : Engine → Engine → Type 0
IsLike e k =
    (k.navigating ≡ e.navigating) × (k.criteria ≡ e.criteria) × (commands k.log ≡ commands e.log)

-- When the engine comes up during a session, whatever the modem answers, the fix is started again,
-- by one command and no other, with the criteria of the session but for their mode, which is
-- LOC_POSITION_MODE_INVALID.
pub engine_up-restarts :
    (setup : Setup) (e : Engine)
    → e.navigating ≡ true
    → commands (proc setup up_msg e).log ≡ fix_started (without_mode e.criteria) ∷ commands e.log
unfolding proc engine_up commands
engine_up-restarts setup e on =
    let ready = agps_up setup (emit power_voted (reinit setup e)) in
    let (n, c, l) : IsLike e ready =
      prepared-keeps (IsLike e) setup e (λ s e1 k. k) (λ e1 k. k) (λ o e1 k. k) (λ n e1 k. k)
        (refl, refl, refl) in
    let again = start_handler setup (set_in_session false ready) in
    ap (λ b. commands (if b then again else ready).log) (n ∙ on)
    ∙ start_again setup ready
    ∙ ap (λ k. fix_started (without_mode k) ∷ commands ready.log) c
    ∙ ap (λ xs. fix_started (without_mode e.criteria) ∷ xs) l

-- The deletions that the modem was told of.
unfoldable pub deletions : List Effect → List ℕ
deletions [] = []
deletions (aiding_deleted n ∷ xs) = n ∷ deletions xs
deletions (fix_started c ∷ xs) = deletions xs
deletions (fix_stopped ∷ xs) = deletions xs
deletions (told_session b ∷ xs) = deletions xs
deletions (mode_set c ∷ xs) = deletions xs
deletions (told_status s ∷ xs) = deletions xs
deletions (told_location l ∷ xs) = deletions xs
deletions (told_svs svs ∷ xs) = deletions xs
deletions (told_nmea t ∷ xs) = deletions xs
deletions (told_measurement m ∷ xs) = deletions xs
deletions (nmea_pos b ∷ xs) = deletions xs
deletions (nmea_sv svs ∷ xs) = deletions xs
deletions (raw_freed ∷ xs) = deletions xs
deletions (configured s ∷ xs) = deletions xs
deletions (power_voted ∷ xs) = deletions xs
deletions (ordered o ∷ xs) = deletions xs

-- The request waits while the engine is on.
waits :
    (what : ℕ) (e : Engine)
    → e.engine_status ≡ engine_on
    → delete_aiding what e ≡ record e { aiding = what }
unfolding delete_aiding update_aiding
waits what e on =
    ap
      (λ s.
        if not (is_engine_on s) && not (what == 0)
        then record (emit (aiding_deleted what) e) { aiding = 0 }
        else record e { aiding = what })
      on

abbrev IsUntold : Engine → Engine → Type 0
IsUntold e k = (k.aiding ≡ e.aiding) × (deletions k.log ≡ deletions e.log)

off_ending :
    (e k : Engine)
    → e.aiding ≢ 0
    → IsUntold e k
    → deletions (update_aiding (keep_status engine_off k)).log ≡ e.aiding ∷ deletions e.log
unfolding update_aiding deletions
off_ending e k some_aiding (same, told) =
    let there : (k.aiding == 0) ≡ false = ground arith in
    let off = keep_status engine_off k in
    ap
      (λ b.
        deletions
          (if not b then record (emit (aiding_deleted k.aiding) off) { aiding = 0 } else off).log)
      there
    ∙ ap (λ n. n ∷ deletions k.log) same
    ∙ ap (λ xs. e.aiding ∷ xs) told

told_off :
    (setup : Setup) (e : Engine)
    → e.aiding ≢ 0
    → deletions (status_message setup engine_off e).log ≡ e.aiding ∷ deletions e.log
unfolding status_message report_status deletions
told_off setup e some_aiding =
    let e1 = record e { mute = muting engine_off e.mute } in
    let told = inform_gps_status setup engine_off e1 in
    let b = is_told engine_off e.navigating && not (is_muted e1.mute) in
    off_ending e (if b then told else e1) some_aiding (
      chosen-keeps (IsUntold e) b told e1
        (chosen-keeps (IsUntold e) setup.status_cb (emit (told_status engine_off) e1) e1
          (refl, refl) (refl, refl))
        (refl, refl))

-- Of two requests to delete aiding data that come while the engine is on, the second one for any data,
-- the modem is told of the second one only when the engine turns off.
aiding-replaced :
    (setup : Setup) (a b : ℕ) (e : Engine)
    → e.engine_status ≡ engine_on
    → b ≢ 0
    → deletions (proc_all setup (aiding_msg a ∷ aiding_msg b ∷ status_msg engine_off ∷ []) e).log
      ≡ b ∷ deletions e.log
unfolding proc_all proc
aiding-replaced setup a b e on h =
    ap (λ k. deletions (status_message setup engine_off (delete_aiding b k)).log) (waits a e on)
    ∙ ap (λ k. deletions (status_message setup engine_off k).log)
        (waits b (record e { aiding = a }) on)
    ∙ told_off setup (record e { aiding = b }) h
