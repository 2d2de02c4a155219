-- ===== src/Ni/Races.antt =====
-- What the threads of a session make of each other's fields.
use android_device_samsung_a.Base.{
  ℕ, suc, ◌≡◌, refl, true, false, none, some, [], ◌∷◌, ◌++◌, ◌==◌, arith, inl, inr, Bool-cases,
  ==_refl,
}
use android_device_samsung_a.Ni.{
  Response, accept, no_response, free_request, Ni, Notification, request_handler, supl,
  thread_wakes, thread_finishes, reset_on_engine_restart, respond,
}

-- The user accepts an emergency request while a SUPL request waits: the SUPL session's thread, when
-- it is woken, frees its payload and has no message to send.
accept-ignores :
    (m : Ni) (id p q left : ℕ)
    → m.inited ≡ true
    → m.session_es.req_id ≡ id
    → m.session_es.raw_request ≡ some p
    → m.session.raw_request ≡ some q
    → m.session.waiting ≡ suc left
    → let k = thread_wakes supl false (respond id accept m) in
      (k.session.raw_request ≡ none)
      × (k.freed ≡ q ∷ m.freed)
      × (k.session.finishing ≡ m.session.finishing ++ none ∷ [])
      × (k.session_es.resp ≡ accept)
unfolding respond thread_wakes
accept-ignores m id p q left i e raw_es raw w =
    simp (i, e, ==_refl id, raw_es, raw, w) (refl, refl, refl, refl)

-- A thread whose wait times out after a restart has freed its request, and before the restart has
-- cleared the pointer, goes on to send the freed request.
free_request-sent :
    (m : Ni) (p left : ℕ)
    → m.session.raw_request ≡ some p
    → m.session.waiting ≡ suc left
    → let k = thread_wakes supl true (free_request supl m) in
      (k.freed ≡ p ∷ m.freed)
      × (k.session.finishing ≡ m.session.finishing ++ some (no_response, p) ∷ [])
unfolding thread_wakes
free_request-sent m p left raw w = simp (raw, w) (refl, refl)

-- The engine restarts while a SUPL request waits for the user, and a new SUPL request comes before
-- its thread has run: that thread, when it is woken, takes the new request's payload and answers
-- it with the response that the session had before.
restart-stale :
    (m : Ni) (n : Notification) (p q left : ℕ)
    → m.inited ≡ true
    → n.is_emergency ≡ false
    → m.session_es.raw_request ≡ none
    → m.session.raw_request ≡ some p
    → m.session.waiting ≡ suc left
    → m.session.resp ≡ accept
    → let k = thread_wakes supl false (request_handler n (some q) (reset_on_engine_restart m)) in
      (k.session.raw_request ≡ none)
      × (k.session.finishing ≡ m.session.finishing ++ some (accept, q) ∷ [])
unfolding request_handler reset_on_engine_restart thread_wakes
restart-stale m n p q left i e none_es raw w old = elim (Bool-cases n.thread_created) [
  | inl made ↦ simp (i, e, none_es, raw, w, old, made) (refl, refl)
  | inr not_made ↦ simp (i, e, none_es, raw, w, old, not_made) (refl, refl)
]

-- A thread that has left the wait runs its last lines after a new SUPL request was accepted: it
-- clears the new request's id, and the user's response to that request is dropped.
respond-dropped :
    (m : Ni) (n : Notification) (q : ℕ) (r : Response)
    → m.inited ≡ true
    → n.is_emergency ≡ false
    → m.session_es.raw_request ≡ none
    → m.session.raw_request ≡ none
    → m.session.finishing ≡ none ∷ []
    → let k = thread_finishes supl (request_handler n (some q) m) in
      (k.session.raw_request ≡ some q) × (respond (suc m.req_id_counter) r k ≡ k)
unfolding request_handler thread_finishes respond
respond-dropped m n q r i e none_es raw f =
    let other : (suc m.req_id_counter == 0) ≡ false = ground arith in
    elim (Bool-cases (suc m.req_id_counter == m.session_es.req_id)) [
      | inl a ↦ simp (i, e, none_es, raw, f, other, a) (refl, refl)
      | inr a ↦ simp (i, e, none_es, raw, f, other, a) (refl, refl)
    ]
