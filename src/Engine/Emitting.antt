-- ===== src/Engine/Emitting.antt =====
-- What holds of the engine through the effects that `loc_eng_handle_engine_up` has one after the other.
use android_device_samsung_a.Base.{chosen-keeps, List, [], ◌∷◌, map}
use android_device_samsung_a.Engine.Servers.{Order}
use android_device_samsung_a.Engine.Session.{
  Setting, Effect, configured, power_voted, ordered, Engine, Setup, emit,
}
use android_device_samsung_a.Engine.Restart.{emit_all, settings, reinit, agps_up}
use android_device_samsung_a.Engine.Servers.{agps_reinit}
use android_device_samsung_a.Nif.{Nifs, drop_subscribers}

module _ {ℓ} (P : Engine → Type ℓ) where
  pub emit_all-keeps :
      {A : Type 0} (f : A → Effect) (xs : List A) (e : Engine)
      → ((x : A) (e1 : Engine) → P e1 → P (emit (f x) e1))
      → P e
      → P (emit_all (map f xs) e)
  unfolding emit_all
  emit_all-keeps f [] e step h = h
  emit_all-keeps f (x ∷ xs) e step h = emit_all-keeps f xs (emit (f x) e) step (step x e h)

  -- All but the last part of `loc_eng_handle_engine_up`.
  pub prepared-keeps :
      (setup : Setup) (e : Engine)
      → ((s : Setting) (e1 : Engine) → P e1 → P (emit (configured s) e1))
      → ((e1 : Engine) → P e1 → P (emit power_voted e1))
      → ((o : Order) (e1 : Engine) → P e1 → P (emit (ordered o) e1))
      → ((n : Nifs) (e1 : Engine) → P e1 → P (record e1 { nifs = n }))
      → P e
      → P (agps_up setup (emit power_voted (reinit setup e)))
  unfolding reinit
  prepared-keeps setup e on_setting on_vote on_order on_nifs h =
      let e1 = reinit setup e in
      let e2 = emit power_voted e1 in
      let e3 = record e2 { nifs = drop_subscribers e2.nifs } in
      let orders = agps_reinit setup.names e2.servers in
      let voted : P e2 = on_vote e1 (emit_all-keeps configured (settings setup) e on_setting h) in
      chosen-keeps P setup.agps_cb (emit_all (map ordered orders) e3) e2
        (emit_all-keeps ordered orders e3 on_order (on_nifs (drop_subscribers e2.nifs) e2 voted))
        voted
