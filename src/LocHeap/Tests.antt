-- ===== src/LocHeap/Tests.antt =====
-- The theorems on the heap at numbers, where the larger ranks above the smaller.
use android_device_samsung_a.Base.{
  ℕ, ◌≡◌, refl, Bool, ◌==◌, ltb, none, some, ◌∷◌, arith, if◌then◌else◌,
}
use mathlib.Core.List.{Perm}
use android_device_samsung_a.LocHeap.{Tree, leaf, node, single, pop, remove}
use android_device_samsung_a.LocHeap.Order.{IsRanking, IsHeap, Under, contents}
use android_device_samsung_a.LocHeap.Pop.{pop-highest}
use android_device_samsung_a.LocHeap.Remove.{IsSame, holds, with_found, remove-exact}

abbrev larger : ℕ → ℕ → Bool
larger a b = ltb b a

abbrev equal : ℕ → ℕ → Bool
equal a b = a == b

larger-IsRanking : IsRanking larger
larger-IsRanking = record { asym = λ a b h. ground arith; trans = λ a b c h k. ground arith }

equal-IsSame : IsSame equal
equal-IsSame = record { sound = λ a b h. ground arith; complete = λ a. ground arith }

abbrev heap : Tree ℕ
heap = node 4 9 (node 2 7 (single 3) leaf) (single 5)

heap-IsHeap : IsHeap larger heap
heap-IsHeap = (
  refl,
  refl,
  refl,
  (refl, refl, refl, (refl, refl, refl, tt, tt), tt),
  (refl, refl, refl, tt, tt),
)

remove-exact_example :
    let r = remove larger equal 7 heap in
    (r.0 ≡ (if holds larger equal 7 heap then some 7 else none))
    × Perm (with_found larger equal r.0 (contents r.1)) (contents heap)
    × IsHeap larger r.1
remove-exact_example = remove-exact larger equal larger-IsRanking equal-IsSame 7 heap heap-IsHeap

pop-highest_example :
    let p = pop larger heap in
    (p.0 ≡ some 9)
    × Under larger 9 (contents heap)
    × Perm (contents heap) (9 ∷ contents p.1)
    × IsHeap larger p.1
pop-highest_example =
    pop-highest larger larger-IsRanking 4 9 (node 2 7 (single 3) leaf) (single 5) heap-IsHeap
