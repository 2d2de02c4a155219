-- ===== src/Amp/Results.antt =====
-- Which result `amp_module_open` has.
use android_device_samsung_a.Base.{
  ◌≡◌, refl, ap, ◌∙◌, Bool, true, false, ◌&&◌, ◌||◌, Option, none, some, [], ◌∷◌, if◌then◌else◌,
}
use android_device_samsung_a.Amp.Tfa.{
  Rc, ok, negative, positive, Audio, Tfa, switch_chip, tfa_clock_on, tfa_power,
}
use android_device_samsung_a.Amp.Returning.{returns, clock_on-returns}
use android_device_samsung_a.Amp.Opening.{
  tfa_memory, handle_memory, Luck, Opened, undefined, hung, failed, opened, all_three, require,
  unless_negative, after_power, new_tfa, power_cycle, tfa_device_open, Result, opened_ok, enoent,
  enomem, no_return, Module, opened_module,
}

abbrev pub is_negative : Rc → Bool
is_negative ok = false
is_negative positive = false
is_negative negative = true

-- After the three runs of `tfa_power`.
abbrev pub last_result : Luck → Result
last_result l =
    if is_negative l.first_on
    then enoent
    else if is_negative l.second_off
    then enoent
    else if l.amp_mem
    then opened_ok
    else enomem

-- After the vendor's `tfa_open`.
abbrev pub cycle_result : Luck → Result
cycle_result l =
    if l.garbage
    then no_return
    else if is_negative l.first_off
    then enoent
    else if l.audio.created && l.audio.i2s
    then last_result l
    else no_return

-- What `amp_module_open` returns, as the platform answers.
abbrev pub expected : Luck → Result
expected l =
    if l.tfa_mem && l.handle_mem && l.access && l.dlopen && l.open_sym && l.enable_sym
    then (if is_negative l.open_rc then enoent else cycle_result l)
    else enoent

module _ (amp_mem : Bool) where
  result_of : Opened → Result
  result_of (undefined held) = no_return
  result_of (hung held) = no_return
  result_of (failed held) = enoent
  result_of (opened t held) = if amp_mem then opened_ok else enomem

  unless-result :
      (rc : Rc) (o : Opened) (r : Result)
      → result_of o ≡ r
      → result_of (unless_negative rc o) ≡ (if is_negative rc then enoent else r)
  unfolding result_of
  unless-result ok o r h = h
  unless-result positive o r h = h
  unless-result negative o r h = refl

  required-result :
      (a b c d e f : Bool) (o : Opened) (r : Result)
      → result_of o ≡ r
      → result_of (
          require a [] (
            require b (tfa_memory ∷ []) (
              require c (handle_memory ∷ tfa_memory ∷ []) (
                require d
                  (handle_memory ∷ tfa_memory ∷ [])
                  (require e all_three (require f all_three o))))))
        ≡ (if a && b && c && d && e && f then r else enoent)
  unfolding result_of
  required-result false b c d e f o r h = refl
  required-result true false c d e f o r h = refl
  required-result true true false d e f o r h = refl
  required-result true true true false e f o r h = refl
  required-result true true true true false f o r h = refl
  required-result true true true true true false o r h = refl
  required-result true true true true true true o r h = h

  garbage-result :
      (g : Bool) (o : Opened) (r : Result)
      → result_of o ≡ r
      → result_of (if g then undefined all_three else o) ≡ (if g then no_return else r)
  unfolding result_of
  garbage-result true o r h = refl
  garbage-result false o r h = h

  switch-result :
      (a : Audio) (rc : Rc) (on : Bool) (rest : Tfa → Opened) (r : Result) (o : Option Tfa)
      → ((t : Tfa) → result_of (rest t) ≡ r)
      → result_of (after_power rest (switch_chip a rc on o))
        ≡ (if returns o then if is_negative rc then enoent else r else no_return)
  unfolding result_of
  switch-result a rc on rest r none h = refl
  switch-result a rc on rest r (some t) h = unless-result rc (rest _) r (h _)

  module-result : (o : Opened) (m : Module) → (opened_module amp_mem o m).0 ≡ result_of o
  unfolding result_of
  module-result (undefined held) m = refl
  module-result (hung held) m = refl
  module-result (failed held) m = refl
  module-result (opened t held) m = opened_amp amp_mem
    where
      opened_amp :
          (b : Bool) → (opened_module b (opened t held) m).0 ≡ (if b then opened_ok else enomem)
      opened_amp true = refl
      opened_amp false = refl

no_leftover : (c i : Bool) → (c && (i || false)) ≡ (c && i)
no_leftover c true = refl
no_leftover c false = refl

cycle-result : (l : Luck) → result_of l.amp_mem (power_cycle l) ≡ cycle_result l
unfolding tfa_power result_of
cycle-result l =
    let am = l.amp_mem in
    let a = l.audio in
    garbage-result am l.garbage _ _ (
      switch-result am a l.first_off false _ _ (some new_tfa) (λ t.
        let t1 = record t { writing = false; clock_enabled = false } in
        switch-result am a l.first_on true _ _ (tfa_clock_on a t1) (λ t2.
          switch-result am a l.second_off false (λ t3. opened t3 all_three) _ (some t2)
            (λ t3. refl))
        ∙ ap (λ b. if b then last_result l else no_return)
            (clock_on-returns a t1 refl ∙ no_leftover a.created a.i2s)))

pub amp_module-result :
    (l : Luck) (m : Module) → (opened_module l.amp_mem (tfa_device_open l) m).0 ≡ expected l
unfolding tfa_device_open
amp_module-result l m =
    module-result l.amp_mem (tfa_device_open l) m
    ∙ required-result l.amp_mem l.tfa_mem l.handle_mem l.access l.dlopen l.open_sym l.enable_sym _ _
        (unless-result l.amp_mem l.open_rc (power_cycle l) _ (cycle-result l))
