-- ===== src/LinkedList/Tests.antt =====
-- The theorems on the linked list at lists of one and two elements.
use android_device_samsung_a.Base.{
  ℕ, suc, ◌≡◌, ◌≢◌, refl, Bool, true, ◌==◌, none, some, [], ◌∷◌, arith,
}
use android_device_samsung_a.LinkedList.Monad.{Ptr, null, Mem, World, cell, update, ok}
use android_device_samsung_a.LinkedList.Seg.{Cell, IsList}
use android_device_samsung_a.LinkedList.{success, linked_list_search}
use android_device_samsung_a.LinkedList.Search.{linked_list_search-scan, Searched}

abbrev newer : Cell
newer = record { addr = 9; datum = 71; dealloc = 0 }

abbrev older : Cell
older = record { addr = 8; datum = 70; dealloc = 5 }

abbrev one_mem : Mem
one_mem = update (λ a. none) 8 (some (cell 0 0 70 5))

abbrev two_mem : Mem
two_mem = update (update (λ a. none) 8 (some (cell 0 9 70 5))) 9 (some (cell 8 0 71 0))

-- The environment counts the calls of callbacks.
abbrev one : World ℕ
one = record { mem = one_mem; handle = 1; head = 8; tail = 8; out = 3; env = 0 }

abbrev two : World ℕ
two = record { mem = two_mem; handle = 1; head = 9; tail = 8; out = 3; env = 0 }

suc_ne : (n : ℕ) → suc n ≢ 0
suc_ne n e = absurd (omega arith)

one-IsList : IsList one (older ∷ [])
one-IsList = record { chain = (suc_ne 7, refl, refl, tt); at_head = refl; at_tail = refl }

two-IsList : IsList two (newer ∷ older ∷ [])
two-IsList = record {
  chain = (suc_ne 8, refl, refl, (suc_ne 7, refl, refl, tt));
  at_head = refl;
  at_tail = refl;
}

abbrev count : Ptr → Ptr → ℕ → ℕ
count f d n = suc n

abbrev is_70 : Ptr → ℕ → Bool × ℕ
is_70 d n = (d == 70, suc n)

linked_list_search-scan_example :
    (w' : World ℕ) × (linked_list_search count is_70 4 true 3 1 two ≡ ok success w')
    × Searched count is_70 4 true [] (newer ∷ older ∷ []) null 0 w'
linked_list_search-scan_example =
    linked_list_search-scan count is_70 4 true 3 1 newer (older ∷ []) two (suc_ne 0) two-IsList
      (omega arith)
