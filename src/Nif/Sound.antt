-- ===== src/Nif/Sound.antt =====
-- The state, the subscribers and the requests of the three machines.
use android_device_samsung_a.Base.{
  sym, subst, ℕ, false, Option, none, some, List, [], ◌∷◌, inl, inr, Bool-cases,
}
use android_device_samsung_a.Agps.Subscriber.{granted, released, denied, bit, atl, ds}
use android_device_samsung_a.Agps.Machine.{Env, Machine, Code, agps, ext}
use android_device_samsung_a.Agps.Api.{new_machine, new_ds_machine}
use android_device_samsung_a.Agps.Invariant.{IsValid}
use android_device_samsung_a.Agps.Reachable.{perform_all-IsValid}
use android_device_samsung_a.Agps.Requests.{perform_all-Asked}
use android_device_samsung_a.Agps.Asking.{Asked}
use android_device_samsung_a.Agps.Retries.{IsBounded, perform_all-IsBounded}
use android_device_samsung_a.Nif.{
  Conf, Nifs, agnss_one, internet_one, ds_one, get, is_null, subscriber, get_machine, req_rel_bit,
  supl_es_event, request_supl_es, request_atl, release_atl, atl_open_success, atl_event, Msg,
  nif_init, bit_msg, supl_es_opened, supl_es_closed, request_supl_es_msg, request_atl_msg,
  release_atl_msg, open_success, closed, open_failed, proc, proc_all, no_nifs, bit_address,
}
use android_device_samsung_a.Nif.Routing.{
  IsReached, AllReached, at, bit-IsCalls, event-IsCalls, open-IsCalls, on_machine-AllReached,
  create-AllReached, get_machine-AllReached, request_on-AllReached, release_on-AllReached,
  ds_event-AllReached,
}

module _ (env : Env) (conf : Conf) where
  request_supl_es-AllReached :
      (id : ℕ) (n : Nifs)
      → AllReached env conf n
      → AllReached env conf (request_supl_es env conf id n)
  unfolding request_supl_es
  request_supl_es-AllReached id n h =
      let on_agnss =
        request_on-AllReached env conf agnss_one (subscriber atl id [] false) n.agnss n h.0 h in
      let on_ds =
        request_on-AllReached env conf ds_one (subscriber ds id [] false) n.ds_nif n h.2 h in
      elim (Bool-cases conf.use_emergency_pdn) [
        | inr e ↦ rw e on_agnss
        | inl e ↦
            rw e
              (elim (Bool-cases (is_null n.ds_nif)) [ inl z ↦ rw z on_agnss | inr z ↦ rw z on_ds ])
      ]

  release_atl-AllReached :
      (id : ℕ) (n : Nifs) → AllReached env conf n → AllReached env conf (release_atl env conf id n)
  unfolding release_atl
  release_atl-AllReached id n h =
      release_on-AllReached env conf agnss_one _ n.agnss _ n
        (λ n1 h1.
          release_on-AllReached env conf internet_one _ n1.internet _ n1
            (λ n2 h2. release_on-AllReached env conf ds_one _ n2.ds_nif _ n2 (λ n3 h3. h3) h2.2 h2)
            h1.1 h1)
        h.0 h

  proc-AllReached :
      (msg : Msg) (n : Nifs) → AllReached env conf n → AllReached env conf (proc env conf msg n)
  unfolding proc req_rel_bit supl_es_event request_atl atl_open_success atl_event
  proc-AllReached nif_init n h = create-AllReached env conf n h
  proc-AllReached (bit_msg type ipv4 ipv6 is_req) n h =
      on_machine-AllReached env conf _ _ _
        (bit-IsCalls env conf is_req (subscriber bit ipv4 (bit_address ipv6) false))
        (get_machine-AllReached env conf type n h)
  proc-AllReached supl_es_opened n h = ds_event-AllReached env conf granted n.ds_nif n h.2 h
  proc-AllReached supl_es_closed n h = ds_event-AllReached env conf released n.ds_nif n h.2 h
  proc-AllReached (request_supl_es_msg id) n h = request_supl_es-AllReached id n h
  proc-AllReached (request_atl_msg id type) n h =
      let r = get_machine env conf type n in
      let k = get_machine-AllReached env conf type n h in
      request_on-AllReached env conf r.0 _ (get r.0 r.1) r.1 (at env conf r.0 r.1 k) k
  proc-AllReached (release_atl_msg id) n h = release_atl-AllReached id n h
  proc-AllReached (open_success type text bearer) n h =
      on_machine-AllReached env conf _ _ _ (open-IsCalls env conf _ _ bearer)
        (get_machine-AllReached env conf type n h)
  proc-AllReached (closed type) n h =
      on_machine-AllReached env conf _ _ _ (event-IsCalls env conf released)
        (get_machine-AllReached env conf type n h)
  proc-AllReached (open_failed type) n h =
      on_machine-AllReached env conf _ _ _ (event-IsCalls env conf denied)
        (get_machine-AllReached env conf type n h)

  proc_all-AllReached :
      (msgs : List Msg) (n : Nifs)
      → AllReached env conf n
      → AllReached env conf (proc_all env conf msgs n)
  unfolding proc_all
  proc_all-AllReached [] n h = h
  proc_all-AllReached (msg ∷ rest) n h =
      proc_all-AllReached rest (proc env conf msg n) (proc-AllReached msg n h)

  -- A base machine's state agrees with its subscribers and with its latest request.
  abbrev pub IsSound : Option Machine → Type 0
  IsSound none = Unit {0}
  IsSound (some m) = IsValid m × Asked m.state m

  abbrev pub IsLimited : Option Machine → Type 0
  IsLimited none = Unit {0}
  IsLimited (some m) = IsBounded m

  reached-IsSound :
      (code : Code) (o : Option Machine)
      → IsReached env conf (new_machine agps code false) o
      → IsSound o
  reached-IsSound code none r = tt
  reached-IsSound code (some m) (cs, e, k) = (
    subst IsValid (sym e) (perform_all-IsValid env agps code false cs k),
    subst (λ k. Asked k.state k) (sym e) (perform_all-Asked env agps code false cs k),
  )

  reached-IsLimited : (o : Option Machine) → IsReached env conf (new_ds_machine ext) o → IsLimited o
  reached-IsLimited none r = tt
  reached-IsLimited (some m) (cs, e, k) = subst IsBounded (sym e) (perform_all-IsBounded env ext cs)

  -- Whatever messages the engine's thread has run, but for those of an engine restart, and whatever
  -- the outside world answers: each of the two ATL machines that exists is in a state that agrees
  -- with its subscribers and with its latest request, and the data services machine's retries are
  -- within their bound.
  pub proc_all-IsSound :
      (msgs : List Msg)
      → let n = proc_all env conf msgs no_nifs in
        IsSound n.agnss × IsSound n.internet × IsLimited n.ds_nif
  proc_all-IsSound msgs =
      let (a, i, d) = proc_all-AllReached msgs no_nifs (tt, tt, tt) in
      (
        reached-IsSound conf.supl_code _ a,
        reached-IsSound conf.wwan_code _ i,
        reached-IsLimited _ d,
      )
