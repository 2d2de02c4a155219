-- ===== src/Agps/Reachable.antt =====
-- The state and the subscribers of an `AgpsStateMachine`.
use android_device_samsung_a.Base.{ℕ, refl, Bool, Option, none, some, List, All}
use android_device_samsung_a.Agps.Subscriber.{Notification, Subscriber}
use android_device_samsung_a.Agps.Machine.{ServicerType, Code, Env, Machine, notify_rsrc_status}
use android_device_samsung_a.Agps.Api.{set_apn, new_machine}
use android_device_samsung_a.Agps.Dispatch.{Call, IsNoDrop, perform_all, perform_all-Kept}
use android_device_samsung_a.Agps.Lists.{notify_rsrc_status-list}
use android_device_samsung_a.Agps.Frame.{notify_rsrc_status-Stable}
use android_device_samsung_a.Agps.Invariant.{
  IsValid, IsBase-Stable, in_state-Stable, dispatch-IsValid,
}

module _ (env : Env) where
  pub noticed-IsValid :
      (n : Notification) (s : Subscriber) (m : Machine)
      → IsValid m
      → IsValid (notify_rsrc_status n s m).1
  noticed-IsValid n s m v = record {
    base = notify_rsrc_status-Stable IsBase-Stable n s m v.base;
    fits =
        rw
          (
            notify_rsrc_status-Stable (in_state-Stable m.state) n s m refl,
            notify_rsrc_status-list n s m,
          )
          v.fits;
  }

  pub named-IsValid :
      (text : Option (List ℕ)) (len : ℕ) (m : Machine) → IsValid m → IsValid (set_apn text len m)
  unfolding set_apn
  named-IsValid none len m v = record { base = v.base; fits = v.fits }
  named-IsValid (some text) len m v = record { base = v.base; fits = v.fits }

  -- Whatever calls but `dropAllSubscribers` a machine that is no `DSStateMachine` gets after its
  -- construction: nobody is subscribed when it is released, somebody active is when the NIF is
  -- pending or acquired, and somebody when it is releasing.
  pub perform_all-IsValid :
      (servicer : ServicerType) (nif_type : Code) (enforce_single : Bool) (calls : List Call)
      → All IsNoDrop calls
      → IsValid (perform_all env calls (new_machine servicer nif_type enforce_single))
  perform_all-IsValid servicer nif_type enforce_single calls kept =
      perform_all-Kept env noticed-IsValid (λ id m v. record { base = v.base; fits = v.fits })
        (dispatch-IsValid env) named-IsValid (λ b m v. record { base = v.base; fits = v.fits })
        (λ m d v. absurd d) calls _ kept (record { base = refl; fits = refl })
