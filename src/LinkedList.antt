-- ===== src/LinkedList.antt =====
-- gps/utils/linked_list.c: a doubly linked list on an explicit heap.
--
-- `World` holds the heap of list elements, the one `list_state` that a handle which is not NULL
-- points to, the owner's handle, the variable behind an output parameter (`data_p`, `data_obj`)
-- and the environment that the callbacks read and change. NULL is 0. `malloc` and `calloc` are
-- their results: `fresh`. A load or a store through a pointer to no element is a fault.
-- The loops of `linked_list_flush` and `linked_list_search` take fuel.
pub mod Monad
pub mod Seg
pub mod Unlink
pub mod Ends
pub mod Search
pub mod Flush
pub mod Lifetime
pub mod Refines
pub mod Abstract
mod Tests
use android_device_samsung_a.Base.{
  ℕ, zero, suc, Bool, true, false, some, ◌⊎◌, inl, inr, ◌&&◌, not, ◌==◌, if◌then◌else◌,
}
use Monad.{
  Ptr, null, Element, World, Run, out_of_fuel, M, pure, ◌>>=◌, ◌>>◌, load, store, free, modify,
  reads, when, ok,
}

pub data Err : Type 0 where
  success failure_general invalid_parameter invalid_handle unavailable_resource : Err
  insufficient_buffer : Err

module _ {S : Type 0} where
  -- `fresh` is what `calloc` returns.
  pub linked_list_init : (list_data fresh : Ptr) → M S Err
  linked_list_init list_data fresh =
      if list_data == null
      then pure invalid_parameter
      else if fresh == null
      then pure failure_general
      else do modify λ w. record w { handle = fresh; head = null; tail = null }; pure success

  -- `fresh` is what `malloc` returns.
  pub linked_list_add : (list_data data_obj dealloc fresh : Ptr) → M S Err
  linked_list_add list_data data_obj dealloc fresh =
      if list_data == null
      then pure invalid_handle
      else if data_obj == null
      then pure invalid_parameter
      else if fresh == null
      then pure failure_general
      else do
        modify (λ w. record w {
          mem = Monad.update w.mem fresh (some (Monad.cell null null data_obj dealloc));
        })
        tmp ← reads (λ w. w.head)
        modify λ w. record w { head = fresh }
        e ← load fresh
        store fresh (record e { next = tmp })
        if not (tmp == null)
            then (do e ← load tmp; store tmp (record e { prev = fresh }))
            else modify (λ w. record w { tail = fresh })
        pure success

  pub linked_list_remove : (list_data data_obj : Ptr) → M S Err
  linked_list_remove list_data data_obj =
      if list_data == null
      then pure invalid_handle
      else if data_obj == null
      then pure invalid_parameter
      else do
        tmp ← reads (λ w. w.tail)
        if tmp == null then pure unavailable_resource else do
          e ← load tmp
          modify λ w. record w { tail = e.prev }
          if not (e.prev == null)
              then (do p ← load e.prev; store e.prev (record p { next = null }))
              else modify (λ w. record w { head = e.prev })
          e ← load tmp
          modify λ w. record w { out = e.data_ptr }
          free tmp
          pure success

  -- 1 or 0; an error number for a NULL handle is the left case.
  pub linked_list_empty : (list_data : Ptr) → M S (Err ⊎ Bool)
  linked_list_empty list_data =
      if list_data == null
      then pure (inl invalid_handle)
      else do h ← reads (λ w. w.head); pure (inr (h == null))

  abbrev set_out : Ptr → M S (Unit {0})
  set_out p = modify λ w. record w { out = p }

  -- The pointer to `tmp` from the left: the head or the element before.
  pub unlink_prev : Ptr → M S (Unit {0})
  unlink_prev tmp = do
    t ← load tmp
    if t.prev == null
        then modify (λ w. record w { head = t.next })
        else (do p ← load t.prev; store t.prev (record p { next = t.next }))

  -- The pointer to `tmp` from the right: the tail or the element behind.
  pub unlink_next : Ptr → M S (Unit {0})
  unlink_next tmp = do
    t ← load tmp
    if t.next == null
        then modify (λ w. record w { tail = t.prev })
        else (do n ← load t.next; store t.next (record n { prev = t.prev }))

  -- The element at `tmp` leaves the chain, and its own pointers are cleared.
  pub detach : Ptr → M S (Unit {0})
  detach tmp = do
    unlink_prev tmp
    unlink_next tmp
    t ← load tmp
    store tmp (record t { next = null; prev = null })

-- `dealloc f d` is the effect of the call of the function at `f` on the data at `d`.
module _ {S : Type 0} (dealloc : Ptr → Ptr → S → S) where
  pub call_dealloc : Element → M S (Unit {0})
  call_dealloc e =
      when (not (e.dealloc_func == null))
        (modify λ w. record w { env = dealloc e.dealloc_func e.data_ptr w.env })

  pub flush_loop : ℕ → M S (Unit {0})
  flush_loop zero = λ _. out_of_fuel
  flush_loop (suc k) = do
    h ← reads (λ w. w.head)
    if h == null then pure tt else do
      e ← load h
      call_dealloc e
      free h
      modify λ w. record w { head = e.next }
      flush_loop k

  pub linked_list_flush : (fuel : ℕ) (list_data : Ptr) → M S Err
  unfolding flush_loop call_dealloc
  linked_list_flush fuel list_data =
      if list_data == null
      then pure invalid_handle
      else do flush_loop fuel; modify λ w. record w { tail = null }; pure success

  -- `list_data` is the address of the owner's handle.
  pub linked_list_destroy : (fuel : ℕ) (list_data : Ptr) → M S Err
  unfolding linked_list_flush
  linked_list_destroy fuel list_data = if list_data == null then pure invalid_handle else do
    h ← reads (λ w. w.handle)
    _ ← linked_list_flush fuel h
    modify λ w. record w { handle = null }
    pure success

  -- `rm_if_found`: unlink, deallocate unless the data is copied out, free.
  pub remove_found : (data_p tmp : Ptr) → M S (Unit {0})
  unfolding detach call_dealloc
  remove_found data_p tmp = do
    detach tmp
    t ← load tmp
    if data_p == null then call_dealloc t else pure tt
    free tmp

  -- What the body does on a match.
  pub take_found : (data_p tmp : Ptr) → Bool → M S (Unit {0})
  take_found data_p tmp rm_if_found = do
    t ← load tmp
    when (not (data_p == null)) (set_out t.data_ptr)
    when rm_if_found (remove_found data_p tmp)

  module _ (equal : Ptr → S → Bool × S) (data_p : Ptr) (rm_if_found : Bool) where
    abbrev pub call_equal : Ptr → M S Bool
    call_equal d w = ok (equal d w.env).0 (record w { env = (equal d w.env).1 })

    pub search_loop : ℕ → (tmp : Ptr) → M S (Unit {0})
    search_loop zero tmp = λ _. out_of_fuel
    search_loop (suc k) tmp = if tmp == null then pure tt else do
      t ← load tmp
      hit ← call_equal t.data_ptr
      if hit then take_found data_p tmp rm_if_found else search_loop k t.next

    -- `equal` is not NULL.
    pub linked_list_search : (fuel : ℕ) (list_data : Ptr) → M S Err
    unfolding search_loop take_found remove_found
    linked_list_search fuel list_data = if list_data == null then pure invalid_handle else do
      t ← reads (λ w. w.tail)
      if t == null then pure unavailable_resource else do
        when (not (data_p == null)) (set_out null)
        h ← reads (λ w. w.head)
        search_loop fuel h
        pure success
