-- ===== src/Config/Update.antt =====
-- `loc_update_conf` and the number of records that it starts with.
use android_device_samsung_a.Base.{ℕ, suc, ◌≡◌, refl, ap, some, List, [], ◌∷◌}
use android_device_samsung_a.Text.{Text}
use android_device_samsung_a.Config.{Param, Numbers, update_loop, update_conf}

module _ {N F : Type 0} (lib : Numbers N F) where
  stopped :
      (lines : List Text) (ret : ℕ) (ps : List (Param N F))
      → update_loop lib 0 lines ret ps ≡ (ret, ps)
  unfolding update_loop
  stopped [] ret ps = refl
  stopped (line ∷ lines) ret ps = refl

  -- A table of one entry is never filled: `loc_update_conf` reads no line and returns 0, whatever
  -- the text is.
  pub update_conf-single :
      (conf : Text) (count : ℕ) (p : Param N F)
      → update_conf lib conf (suc count) (p ∷ []) ≡ (some 0, (p ∷ []))
  unfolding update_conf
  update_conf-single conf count p = ap (λ r. (some r.0, r.1)) (stopped _ 0 (p ∷ []))
