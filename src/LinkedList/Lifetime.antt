-- ===== src/LinkedList/Lifetime.antt =====
-- `linked_list_destroy`.
use android_device_samsung_a.Base.{ℕ, ◌<◌, ◌≡◌, ◌≢◌, refl, List, [], length}
use android_device_samsung_a.LinkedList.Monad.{Ptr, null, World, ok}
use android_device_samsung_a.LinkedList.Seg.{Cell, IsList}
use android_device_samsung_a.LinkedList.Unlink.{eq_null}
use android_device_samsung_a.LinkedList.Flush.{linked_list_flush-all, dealloc_all, AreFreed}
use android_device_samsung_a.LinkedList.{success, linked_list_destroy}

-- `linked_list_destroy` with the address of a handle that is not NULL and more fuel than elements
-- returns success, empties the list, frees each element, deallocates each data object that has a
-- function for it, from the head on, and sets the handle to NULL.
linked_list_destroy-all :
    {S : Type 0} (dealloc : Ptr → Ptr → S → S) (fuel : ℕ) (list_data : Ptr) (xs : List Cell)
    (w : World S)
    → list_data ≢ null
    → w.handle ≢ null
    → IsList w xs
    → length xs < fuel
    → (w' : World S) × (linked_list_destroy dealloc fuel list_data w ≡ ok success w')
      × IsList w' []
      × (w'.env ≡ dealloc_all dealloc xs w.env)
      × AreFreed dealloc w'.mem xs
      × (w'.handle ≡ null)
unfolding linked_list_destroy
linked_list_destroy-all dealloc fuel list_data xs w h handle l enough =
    let (w', e, empty, env_eq, gone) =
      linked_list_flush-all dealloc fuel w.handle xs w handle l enough in
    (
      record w' { handle = null },
      simp (eq_null list_data h, e),
      record { chain = empty.chain; at_head = empty.at_head; at_tail = empty.at_tail },
      env_eq,
      gone,
      refl,
    )
