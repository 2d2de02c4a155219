-- ===== src/LinkedList/Search.antt =====
-- `linked_list_search` against the search of the sequence view.
use android_device_samsung_a.Base.{
  ℕ, zero, suc, ◌<◌, ◌≡◌, ◌≢◌, refl, ap, Bool, true, false, ◌&&◌, Option, none, some, List, [], ◌∷◌,
  ◌++◌, arith, ◌∙◌, ◌==◌, if◌then◌else◌, inl, inr, Bool-cases, length,
}
use mathlib.Core.List.{append_assoc}
use android_device_samsung_a.LinkedList.Abstract.{Found, search}
use android_device_samsung_a.LinkedList.Monad.{Ptr, null, World, Run, update, ok, pure, and_then}
use android_device_samsung_a.LinkedList.Seg.{Cell, has, first, IsList, frame-update, split}
use android_device_samsung_a.LinkedList.Unlink.{relink, eq_null, eq_self, detach_lem}
use android_device_samsung_a.LinkedList.{
  Err, success, call_dealloc, take_found, remove_found, search_loop, linked_list_search,
}

-- The search that the clients see, over elements.
abbrev pub scan : {S : Type 0} → (Ptr → S → Bool × S) → List Cell → S → Found Cell S
scan equal = search (λ c. equal c.datum)

-- `*data_p` after a search: a pointer that is NULL is not written through.
abbrev pub out_after : (data_p old : Ptr) → Option Cell → Ptr
out_after data_p old none = old
out_after data_p old (some c) = if data_p == null then old else c.datum

module _ {S : Type 0} (dealloc : Ptr → Ptr → S → S) where
  abbrev pub dealloc_cell : Cell → S → S
  dealloc_cell c s = if c.dealloc == null then s else dealloc c.dealloc c.datum s

  -- An element removed without being copied out has its data deallocated.
  abbrev pub env_after : (data_p : Ptr) (rm : Bool) → Option Cell → S → S
  env_after data_p rm none s = s
  env_after data_p rm (some c) s = if rm && (data_p == null) then dealloc_cell c s else s

  -- The list is `xs`, the rest as given.
  pub record After (w : World S) (xs : List Cell) (out : Ptr) (env : S) : Type 0 where
    pub list : IsList w xs
    pub out_eq : w.out ≡ out
    pub env_eq : w.env ≡ env

  -- An element that is removed is not allocated any more.
  abbrev pub IsGone : (rm : Bool) → Option Cell → World S → Type 0
  IsGone true (some c) w = w.mem c.addr ≡ none
  IsGone true none w = Unit {0}
  IsGone false o w = Unit {0}

  -- The element's memory is freed and the environment is `env`.
  abbrev freed : World S → Ptr → S → World S
  freed w a env = record w { mem = update w.mem a none; env = env }

  freed_lem :
      (w : World S) (a out : Ptr) (env : S) (xs : List Cell)
      → IsList w xs
      → has a xs ≡ false
      → w.out ≡ out
      → After (freed w a env) xs out env
  freed_lem w a out env xs l apart e = record {
    list = record {
      chain = frame-update w.mem null null xs a none l.chain apart;
      at_head = l.at_head;
      at_tail = l.at_tail;
    };
    out_eq = e;
    env_eq = refl;
  }

  remove_found_lem :
      (data_p : Ptr) (pre : List Cell) (c : Cell) (zs : List Cell) (w : World S)
      → IsList w (pre ++ c ∷ zs)
      → (w' : World S) × (remove_found dealloc data_p c.addr w ≡ ok tt w')
        × After w' (pre ++ zs) w.out (env_after data_p true (some c) w.env)
        × IsGone true (some c) w'
  unfolding remove_found call_dealloc
  remove_found_lem data_p pre c zs w l =
      let (w1, e, list, at, same, apart, ne) = detach_lem w c pre zs l in
      let a : Ptr = c.addr in
      let kept : ◌≡◌ {A = Run S (Unit {0})} (ok tt (freed w1 a w1.env)) (ok tt (freed w1 a w.env)) =
        ap (λ s. ok tt (freed w1 a s)) same.env in
      let result = env_after data_p true (some c) w.env in
      (
        freed w1 a result,
        elim (Bool-cases (data_p == null)) [
          | inr copied ↦ simp (e, eq_null a ne, at, copied) kept
          | inl dropped ↦ elim (Bool-cases (c.dealloc == null)) [
            | inl none_given ↦ simp (e, eq_null a ne, at, dropped, none_given) kept
            | inr given ↦ simp (e, eq_null a ne, at, dropped, given, same.env)
          ]
        ],
        freed_lem w1 a w.out result (pre ++ zs) list apart same.out,
        simp (eq_self a),
      )

  take_found_lem :
      (data_p : Ptr) (pre : List Cell) (c : Cell) (zs : List Cell) (rm : Bool) (w : World S)
      → IsList w (pre ++ c ∷ zs)
      → (w' : World S) × (take_found dealloc data_p c.addr rm w ≡ ok tt w')
        × After w'
            (if rm then pre ++ zs else pre ++ c ∷ zs)
            (out_after data_p w.out (some c))
            (env_after data_p rm (some c) w.env)
        × IsGone rm (some c) w'
  unfolding take_found
  take_found_lem data_p pre c zs true w l =
      let w1 : World S = record w { out = out_after data_p w.out (some c) } in
      let l1 : IsList w1 (pre ++ c ∷ zs) = record {
        chain = l.chain;
        at_head = l.at_head;
        at_tail = l.at_tail;
      } in
      let at = split null pre (c ∷ zs) l.chain in
      let (w', e, after, gone) = remove_found_lem data_p pre c zs w1 l1 in
      let step : take_found dealloc data_p c.addr true w ≡ remove_found dealloc data_p c.addr w1 =
        elim (Bool-cases (data_p == null)) [
          | inl none_given ↦ simp (eq_null c.addr at.back.0, at.back.2, none_given)
          | inr given ↦ simp (eq_null c.addr at.back.0, at.back.2, given)
        ] in
      (w', step ∙ e, after, gone)
  take_found_lem data_p pre c zs false w l =
      let at = split null pre (c ∷ zs) l.chain in
      (
        record w { out = out_after data_p w.out (some c) },
        elim (Bool-cases (data_p == null)) [
          | inl none_given ↦ simp (eq_null c.addr at.back.0, at.back.2, none_given)
          | inr given ↦ simp (eq_null c.addr at.back.0, at.back.2, given)
        ],
        record {
          list = record { chain = l.chain; at_head = l.at_head; at_tail = l.at_tail };
          out_eq = refl;
          env_eq = refl;
        },
        tt,
      )

  -- The search from the element behind `pre`, which the scan has passed.
  module _ (equal : Ptr → S → Bool × S) (data_p : Ptr) (rm : Bool) where
    -- What a search of `ys` behind `pre` leaves.
    abbrev pub Searched : (pre ys : List Cell) (old : Ptr) (s : S) (w' : World S) → Type 0
    Searched pre ys old s w' =
        let r = scan equal ys s in
        After w' (if rm then pre ++ r.rest else pre ++ ys) (out_after data_p old r.hit)
          (env_after data_p rm r.hit r.env)
        × IsGone rm r.hit w'

    search_loop-scan :
        (k : ℕ) (pre ys : List Cell) (w : World S)
        → IsList w (pre ++ ys)
        → length ys < k
        → (w' : World S) × (search_loop dealloc equal data_p rm k (first ys null) w ≡ ok tt w')
          × Searched pre ys w.out w.env w'
    unfolding search_loop
    search_loop-scan zero pre ys w l fuel = absurd (omega arith)
    search_loop-scan (suc k) pre [] w l fuel =
        (w, refl, (record { list = both rm; out_eq = refl; env_eq = refl }, nothing rm))
      where
        nothing : (b : Bool) → IsGone b none w
        nothing true = tt
        nothing false = tt

        both : (b : Bool) → IsList w (if b then pre ++ [] else pre ++ [])
        both true = l
        both false = l
    search_loop-scan (suc k) pre (c ∷ ys) w l fuel =
        let at = split null pre (c ∷ ys) l.chain in
        let s1 = (equal c.datum w.env).1 in
        let w1 : World S = record w { env = s1 } in
        let l1 : IsList w1 (pre ++ c ∷ ys) = record {
          chain = l.chain;
          at_head = l.at_head;
          at_tail = l.at_tail;
        } in
        elim (Bool-cases (equal c.datum w.env).0) [
          | inl match ↦
              let (w', e, after, gone) = take_found_lem data_p pre c ys rm w1 l1 in
              (w', simp (eq_null c.addr at.back.0, at.back.2, match) e, simp match (after, gone))
          | inr miss ↦
              let (w', e, after) =
                search_loop-scan k (pre ++ c ∷ []) ys w1 (rw append_assoc l1) (omega arith) in
              (
                w',
                simp (eq_null c.addr at.back.0, at.back.2, miss) e,
                simp miss (simp append_assoc at after),
              )
        ]

    abbrev finish : Run S (Unit {0}) → Run S Err
    finish r = and_then r (λ _. pure success)

    -- `linked_list_search` with a handle that is not NULL, on a list that is not empty and with
    -- more fuel than elements, returns success. It finds what the search of the sequence view
    -- finds, the first element that `equal` accepts, and `*data_p` and the environment are as that
    -- search says. Where asked for the element is taken out of the list and its memory freed, and
    -- its data deallocated unless it is copied out.
    pub linked_list_search-scan :
        (fuel : ℕ) (list_data : Ptr) (c : Cell) (xs : List Cell) (w : World S)
        → list_data ≢ null
        → IsList w (c ∷ xs)
        → length (c ∷ xs) < fuel
        → (w' : World S) × (linked_list_search dealloc equal data_p rm fuel list_data w
            ≡ ok success w')
          × Searched [] (c ∷ xs) (if data_p == null then w.out else null) w.env w'
    unfolding linked_list_search
    linked_list_search-scan fuel list_data c xs w h l enough =
        let w1 : World S = record w { out = if data_p == null then w.out else null } in
        let l1 : IsList w1 (c ∷ xs) = record {
          chain = l.chain;
          at_head = l.at_head;
          at_tail = l.at_tail;
        } in
        let (w', e, after) = search_loop-scan fuel [] (c ∷ xs) w1 l1 enough in
        let full : (w.tail == null) ≡ false =
          rw l.at_tail (eq_null _ (relink w.mem null null null c xs l.chain).ne_null) in
        let run : finish (search_loop dealloc equal data_p rm fuel w.head w1) ≡ ok success w' =
          ap (λ p. finish (search_loop dealloc equal data_p rm fuel p w1)) l.at_head
          ∙ ap finish e in
        (
          w',
          elim (Bool-cases (data_p == null)) [
            | inl none_given ↦ simp (eq_null list_data h, full, none_given) (simp none_given at run)
            | inr given ↦ simp (eq_null list_data h, full, given) (simp given at run)
          ],
          after,
        )
