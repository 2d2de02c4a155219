-- ===== src/Nif/Routing.antt =====
-- Each machine gets, through the engine's messages, calls of its own and nothing else.
use android_device_samsung_a.Base.{
  All, ◌≡◌, refl, sym, ap, ◌∙◌, ℕ, Bool, true, false, ◌&&◌, Option, none, some, List, [], ◌∷◌, ◌++◌,
  if◌then◌else◌,
}
use android_device_samsung_a.Agps.Subscriber.{RsrcStatus, granted, Subscriber}
use android_device_samsung_a.Agps.Machine.{Env, Machine, Code, agps, ext}
use android_device_samsung_a.Agps.Api.{
  new_machine, new_ds_machine, set_apn, set_bearer, on_rsrc_event, subscribe_rsrc, unsubscribe_rsrc,
}
use android_device_samsung_a.Agps.Dispatch.{
  Call, IsNoDrop, All-append, subscribing, unsubscribing, event, apn, bearing, perform, perform_all,
  perform_all-append,
}
use android_device_samsung_a.Nif.{
  AgpsType, invalid, supl, supl_es, other, Conf, Nifs, Which, agnss_one, internet_one, ds_one, get,
  set, is_null, or_new, on_found, on_machine, create_nifs, get_machine, ds_event, request_on,
  release_on,
}

module _ (env : Env) (conf : Conf) where
  -- The machine as it is created.
  abbrev pub fresh : Which → Machine
  fresh agnss_one = new_machine agps conf.supl_code false
  fresh internet_one = new_machine agps conf.wwan_code false
  fresh ds_one = new_ds_machine ext

  abbrev pub IsReached : Machine → Option Machine → Type 0
  IsReached start none = Unit {0}
  IsReached start (some m) =
      (calls : List Call) × (m ≡ perform_all env calls start) × All IsNoDrop calls

  -- Each machine is NULL or comes from its creation by calls of its operations.
  abbrev pub AllReached : Nifs → Type 0
  AllReached n =
      IsReached (fresh agnss_one) n.agnss
      × IsReached (fresh internet_one) n.internet
      × IsReached (fresh ds_one) n.ds_nif

  pub at : (w : Which) (n : Nifs) → AllReached n → IsReached (fresh w) (get w n)
  at agnss_one n (a, i, d) = a
  at internet_one n (a, i, d) = i
  at ds_one n (a, i, d) = d

  set-AllReached :
      (w : Which) (m : Machine) (n : Nifs)
      → IsReached (fresh w) (some m)
      → AllReached n
      → AllReached (set w m n)
  set-AllReached agnss_one m n r (a, i, d) = (r, i, d)
  set-AllReached internet_one m n r (a, i, d) = (a, r, d)
  set-AllReached ds_one m n r (a, i, d) = (a, i, r)

  -- A function on machines that is some calls.
  abbrev IsCalls : (Machine → Machine) → Type 0
  IsCalls f =
      (m : Machine) → (calls : List Call) × (f m ≡ perform_all env calls m) × All IsNoDrop calls

  called :
      (start m : Machine) (f : Machine → Machine)
      → IsCalls f
      → IsReached start (some m)
      → IsReached start (some (f m))
  called start m f h (cs, e, k) =
      let (more, g, l) = h m in
      (
        cs ++ more,
        g ∙ ap (perform_all env more) e ∙ sym (perform_all-append env cs more start),
        All-append IsNoDrop cs more k l,
      )

  subscribe-IsCalls : (s : Subscriber) → IsCalls (subscribe_rsrc env s)
  unfolding perform_all perform
  subscribe-IsCalls s m = (subscribing s ∷ [], refl, (tt, tt))

  unsubscribe-IsCalls : (s : Subscriber) → IsCalls (λ m. (unsubscribe_rsrc env s m).1)
  unfolding perform_all perform
  unsubscribe-IsCalls s m = (unsubscribing s ∷ [], refl, (tt, tt))

  pub event-IsCalls : (e : RsrcStatus) → IsCalls (on_rsrc_event env e)
  unfolding perform_all perform
  event-IsCalls e m = (event e ∷ [], refl, (tt, tt))

  pub bit-IsCalls :
      (b : Bool) (s : Subscriber)
      → IsCalls (λ m. if b then subscribe_rsrc env s m else (unsubscribe_rsrc env s m).1)
  bit-IsCalls true s = subscribe-IsCalls s
  bit-IsCalls false s = unsubscribe-IsCalls s

  pub open-IsCalls :
      (text : List ℕ) (len : ℕ) (bearer : Code)
      → IsCalls (λ m. on_rsrc_event env granted (set_apn (some text) len (set_bearer bearer m)))
  unfolding perform_all perform
  open-IsCalls text len bearer m =
      (bearing bearer ∷ apn (some text) len ∷ event granted ∷ [], refl, (tt, (tt, (tt, tt))))

  found-AllReached :
      (w : Which) (f : Machine → Machine) (o : Option Machine) (n : Nifs)
      → IsCalls f
      → IsReached (fresh w) o
      → AllReached n
      → AllReached (on_found w f o n)
  found-AllReached w f none n h r all = all
  found-AllReached w f (some m) n h r all = set-AllReached w (f m) n (called (fresh w) m f h r) all

  pub on_machine-AllReached :
      (w : Which) (f : Machine → Machine) (n : Nifs)
      → IsCalls f
      → AllReached n
      → AllReached (on_machine w f n)
  on_machine-AllReached w f n h all = found-AllReached w f (get w n) n h (at w n all) all

  or_new-IsReached :
      (start : Machine) (o : Option Machine) → IsReached start o → IsReached start (or_new start o)
  unfolding perform_all
  or_new-IsReached start none r = ([], refl, tt)
  or_new-IsReached start (some m) r = r

  chosen-IsReached :
      (b : Bool) (start : Machine) (o : Option Machine)
      → IsReached start o
      → IsReached start (if b then or_new start o else o)
  chosen-IsReached true start o r = or_new-IsReached start o r
  chosen-IsReached false start o r = r

  chosen-AllReached :
      (b : Bool) (x y : Nifs) → AllReached x → AllReached y → AllReached (if b then x else y)
  chosen-AllReached true x y h k = h
  chosen-AllReached false x y h k = k

  pub create-AllReached : (n : Nifs) → AllReached n → AllReached (create_nifs env conf n)
  unfolding create_nifs
  create-AllReached n (a, i, d) =
      chosen-AllReached conf.supports_agps _ n
        (
          chosen-IsReached conf.agps_capable (fresh agnss_one) n.agnss a,
          or_new-IsReached (fresh internet_one) n.internet i,
          chosen-IsReached (conf.agps_capable && conf.use_emergency_pdn && conf.data_client)
              (fresh ds_one) n.ds_nif d,
        )
        (a, i, d)

  chosen_machine :
      (b : Bool) (x n : Nifs)
      → AllReached x
      → AllReached n
      → AllReached (if◌then◌else◌ {A = Which × Nifs} b (ds_one, x) (agnss_one, n)).1
  chosen_machine true x n h k = h
  chosen_machine false x n h k = k

  pub get_machine-AllReached :
      (t : AgpsType) (n : Nifs) → AllReached n → AllReached (get_machine env conf t n).1
  unfolding get_machine
  get_machine-AllReached invalid n h = h
  get_machine-AllReached supl n h = h
  get_machine-AllReached supl_es n h =
      chosen_machine conf.use_emergency_pdn _ n
        (chosen-AllReached (is_null n.ds_nif) _ n (create-AllReached n h) h) h
  get_machine-AllReached (other t) n h = h

  pub request_on-AllReached :
      (w : Which) (s : Subscriber) (o : Option Machine) (n : Nifs)
      → IsReached (fresh w) o
      → AllReached n
      → AllReached (request_on env conf w s o n)
  request_on-AllReached w s none n r h = h
  request_on-AllReached w s (some m) n r h =
      set-AllReached w _ n (called (fresh w) m (subscribe_rsrc env s) (subscribe-IsCalls s) r) h

  pub release_on-AllReached :
      (w : Which) (s : Subscriber) (o : Option Machine) (rest : Nifs → Nifs) (n : Nifs)
      → ((k : Nifs) → AllReached k → AllReached (rest k))
      → IsReached (fresh w) o
      → AllReached n
      → AllReached (release_on env conf w s o rest n)
  release_on-AllReached w s none rest n f r h = f n h
  release_on-AllReached w s (some m) rest n f r h =
      let c = called (fresh w) m (λ k. (unsubscribe_rsrc env s k).1) (unsubscribe-IsCalls s) r in
      let all = set-AllReached w (unsubscribe_rsrc env s m).1 n c h in
      chosen-AllReached (unsubscribe_rsrc env s m).0 _ _ all (f _ all)

  pub ds_event-AllReached :
      (e : RsrcStatus) (o : Option Machine) (n : Nifs)
      → IsReached (fresh ds_one) o
      → AllReached n
      → AllReached (ds_event env conf e o n)
  ds_event-AllReached e none n r h = h
  ds_event-AllReached e (some m) n r h =
      set-AllReached ds_one _ n (called (fresh ds_one) m (on_rsrc_event env e) (event-IsCalls e) r)
        h
