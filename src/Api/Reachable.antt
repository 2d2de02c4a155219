-- ===== src/Api/Reachable.antt =====
-- What holds for the array after any calls.
use android_device_samsung_a.Base.{
  ℕ, ◌≤◌, ◌≡◌, refl, sym, subst, ap, ◌∙◌, Bool, true, false, List, [], ◌∷◌, ◌==◌, arith, length,
  if◌then◌else◌,
}
use android_device_samsung_a.Api.{
  Slots, Mask, Effect, max_adapters, to_all, add_adapter, remove_slot, remove_adapter, Call, add,
  remove, update, perform, perform_all, empty_slots, new_slots,
}
use android_device_samsung_a.Api.Registry.{
  IsPacked, IsGood, times, added, add_adapter-added, add_adapter-IsPacked, length-add_adapter,
  times-added,
}
use android_device_samsung_a.Api.Removal.{remove_slot-good, remove_adapter-slots, times_left}

module _ (masks : ℕ → Mask) (excluded : Mask) where
  abbrev pub reached : List Call → Slots
  reached cs = (perform_all masks excluded cs new_slots).0

  add-IsGood : (a : ℕ) (slots : Slots) → IsGood slots → IsGood (add_adapter masks a slots).0
  add-IsGood a slots (packed, places, once) = (
    add_adapter-IsPacked masks a slots packed,
    length-add_adapter masks a slots ∙ places,
    λ x.
        subst (λ l. times x l ≤ 1) (sym (add_adapter-added masks a slots packed))
          (times-added (length slots) a x (to_all slots) once),
  )

  chosen-good :
      (found : Bool) (r slots : Slots)
      → IsPacked r × (length r ≡ length slots)
      → IsPacked slots
      → IsPacked (if found then r else slots) × (length (if found then r else slots) ≡ length slots)
  chosen-good true r slots h k = h
  chosen-good false r slots h k = (k, refl)

  at_most_one : (e : Bool) (n : ℕ) → n ≤ 1 → (if e then 0 else n) ≤ 1
  at_most_one true n h = omega arith
  at_most_one false n h = h

  remove-IsGood :
      (a : ℕ) (slots : Slots) → IsGood slots → IsGood (remove_adapter masks excluded a slots).0
  remove-IsGood a slots (packed, places, once) =
      let s = remove_adapter-slots masks excluded a slots in
      let (p, l) =
        chosen-good (remove_slot a slots).1 _ slots (remove_slot-good a slots packed) packed in
      (
        subst IsPacked (sym s) p,
        ap length s ∙ l ∙ places,
        λ x.
            subst (λ n. n ≤ 1) (sym (times_left masks excluded a x slots once))
              (at_most_one (a == x) _ (once x)),
      )

  perform-IsGood :
      (c : Call) (slots : Slots) → IsGood slots → IsGood (perform masks excluded c slots).0
  unfolding perform
  perform-IsGood (add a) slots h = add-IsGood a slots h
  perform-IsGood (remove a) slots h = remove-IsGood a slots h
  perform-IsGood update slots h = h

  perform_all-IsGood :
      (cs : List Call) (slots : Slots) (effects : List Effect)
      → IsGood slots
      → IsGood (perform_all masks excluded cs (slots, effects)).0
  unfolding perform_all
  perform_all-IsGood [] slots effects h = h
  perform_all-IsGood (c ∷ cs) slots effects h = perform_all-IsGood cs _ _ (perform-IsGood c slots h)

  new-IsGood : IsGood new_slots.0
  unfolding to_all
  new-IsGood = (
    (refl, (refl, (refl, (refl, (refl, (refl, (refl, (refl, (refl, (refl, tt)))))))))),
    refl,
    λ x. omega arith,
  )

  -- After any calls of `addAdapter`, `removeAdapter` and `updateEvtMask` the array has its
  -- `MAX_ADAPTERS` places, no adapter comes after a NULL, and no adapter is there twice.
  reached-IsGood : (cs : List Call) → IsGood (reached cs)
  reached-IsGood cs = perform_all-IsGood cs (empty_slots max_adapters) [] new-IsGood

  -- After any calls, a loop over all adapters reaches what it reached before and the new adapter at
  -- the end once `addAdapter` has run, unless the adapter was there or all `MAX_ADAPTERS` places were
  -- taken, in which case nothing changes; and once `removeAdapter` has run it reaches each other
  -- adapter as often as before, and the removed one no more.
  pub reached-next :
      (cs : List Call) (a : ℕ)
      → (to_all (add_adapter masks a (reached cs)).0 ≡ added max_adapters a (to_all (reached cs)))
        × ((x : ℕ)
            → times x (to_all (remove_adapter masks excluded a (reached cs)).0)
              ≡ (if a == x then 0 else times x (to_all (reached cs))))
  reached-next cs a =
      let (packed, places, once) = reached-IsGood cs in
      (
        add_adapter-added masks a (reached cs) packed
            ∙ ap (λ n. added n a (to_all (reached cs))) places,
        λ x. times_left masks excluded a x (reached cs) once,
      )
