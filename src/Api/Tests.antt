-- ===== src/Api/Tests.antt =====
-- The theorems on adapters and texts at small inputs.
use android_device_samsung_a.Base.{ℕ, ◌≡◌, List, [], ◌∷◌, ◌==◌, if◌then◌else◌}
use android_device_samsung_a.Api.{
  Mask, max_adapters, Call, add, remove, update, to_all, add_adapter, remove_adapter,
}
use android_device_samsung_a.Api.Registry.{times, added}
use android_device_samsung_a.Api.Reachable.{reached, reached-next}

-- Each adapter listens to the event of its number, and event 2 is excluded.
abbrev own_events : ℕ → Mask
own_events a i = a == i

abbrev second_event : Mask
second_event i = i == 2

abbrev calls : List Call
calls = add 1 ∷ add 2 ∷ add 3 ∷ add 2 ∷ update ∷ remove 1 ∷ []

reached-next_example :
    let slots = reached own_events second_event calls in
    (to_all (add_adapter own_events 4 slots).0 ≡ added max_adapters 4 (to_all slots))
    × ((x : ℕ)
        → times x (to_all (remove_adapter own_events second_event 4 slots).0)
          ≡ (if 4 == x then 0 else times x (to_all slots)))
reached-next_example = reached-next own_events second_event calls 4
