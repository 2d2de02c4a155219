-- ===== src/Api.antt =====
-- gps/core/LocApiBase.cpp: the array of adapters, the loops over it, and the texts of bytes.
--
-- A pointer of `mLocAdapters` is an `Option ℕ`, `none` for NULL, and the array a list of
-- `MAX_ADAPTERS` of them. An event mask is the set of its bits. What an adapter answers is a
-- parameter. Messages to the task `mMsgTask` are kept in the order in which they are sent.
pub mod Registry
pub mod Removal
pub mod Reachable
pub mod Bytes
mod Tests
use android_device_samsung_a.Base.{
  ℕ, zero, suc, ◌+◌, ◌-◌, ◌*◌, ◌%◌, ◌/◌, Bool, true, false, ◌&&◌, ◌||◌, not, Option, none, some,
  List, [], ◌∷◌, ◌++◌, ◌==◌, leb, ltb, if◌then◌else◌,
}

abbrev pub max_adapters : ℕ
max_adapters = 10

abbrev pub Mask : Type 0
Mask = ℕ → Bool

abbrev pub Slots : Type 0
Slots = List (Option ℕ)

-- `LocOpenMsg` with its mask, and the call of `close`.
pub data Effect : Type 0 where
  reopen : Mask → Effect
  close : Effect

-- `TO_ALL_ADAPTERS`: whom the loop calls.
unfoldable pub to_all : Slots → List ℕ
to_all [] = []
to_all (none ∷ slots) = []
to_all (some a ∷ slots) = a ∷ to_all slots

-- `TO_1ST_HANDLING_ADAPTER`: whom the loop calls, when `handles` says what the calls return.
unfoldable pub to_first_handling : (handles : ℕ → Bool) → Slots → List ℕ
to_first_handling handles [] = []
to_first_handling handles (none ∷ slots) = []
to_first_handling handles (some a ∷ slots) =
    let rest = to_first_handling handles slots in if handles a then a ∷ [] else a ∷ rest

-- `LocApiBase::isInSession`
unfoldable pub is_in_session : (in_session : ℕ → Bool) → Slots → Bool
is_in_session in_session [] = false
is_in_session in_session (none ∷ slots) = false
is_in_session in_session (some a ∷ slots) =
    let rest = is_in_session in_session slots in if in_session a then true else rest

-- The loop of `LocApiBase::getEvtMask`.
abbrev pub union_masks : (masks : ℕ → Mask) → Mask → List ℕ → Mask
union_masks masks mask [] = mask
union_masks masks mask (a ∷ as_called) = union_masks masks (λ i. mask i || masks a i) as_called

unfoldable pub get_evt_mask : (masks : ℕ → Mask) → (excluded : Mask) → Slots → Mask
get_evt_mask masks excluded slots i =
    union_masks masks (λ j. false) (to_all slots) i && not (excluded i)

abbrev pub kept : Option ℕ → Slots × List Effect → Slots × List Effect
kept slot r = (slot ∷ r.0, r.1)

-- `LocApiBase::addAdapter` from some index on.
unfoldable pub add_adapter : (masks : ℕ → Mask) → (adapter : ℕ) → Slots → Slots × List Effect
add_adapter masks a [] = ([], [])
add_adapter masks a (none ∷ slots) = (some a ∷ slots, reopen (masks a) ∷ [])
add_adapter masks a (some b ∷ slots) =
    let rest = add_adapter masks a slots in
    if b == a then (some b ∷ slots, []) else kept (some b) rest

abbrev pub take_this : ℕ → Option ℕ × Slots → Option ℕ × Slots
take_this b (none, slots) = (some b, none ∷ slots)
take_this b (some c, slots) = (some c, some b ∷ slots)

-- The loop `while (++i < MAX_ADAPTERS && mLocAdapters[i] != NULL)` from the slot after the one that
-- became NULL: the last adapter of the run, and the slots with NULL in its place.
unfoldable pub take_last : Slots → Option ℕ × Slots
take_last [] = (none, [])
take_last (none ∷ slots) = (none, none ∷ slots)
take_last (some b ∷ slots) = take_this b (take_last slots)

-- The slots after a removal, and whether it took place.
unfoldable pub remove_slot : (adapter : ℕ) → Slots → Slots × Bool
remove_slot a [] = ([], false)
remove_slot a (none ∷ slots) = (none ∷ slots, false)
remove_slot a (some b ∷ slots) =
    let rest = remove_slot a slots in
    let last = take_last slots in
    if b == a then (last.0 ∷ last.1, true) else (some b ∷ rest.0, rest.1)

-- The index of the slot that becomes NULL is 0 exactly if the first one does.
abbrev pub is_empty_now : Slots → Bool
is_empty_now [] = true
is_empty_now (none ∷ slots) = true
is_empty_now (some b ∷ slots) = false

-- `LocApiBase::removeAdapter`
unfoldable pub remove_adapter :
    (masks : ℕ → Mask) → (excluded : Mask) → (adapter : ℕ) → Slots → Slots × List Effect
remove_adapter masks excluded a slots =
    let r = remove_slot a slots in
    if r.1
    then (r.0, (if is_empty_now r.0 then close else reopen (get_evt_mask masks excluded r.0)) ∷ [])
    else (slots, [])

-- `LocApiBase::updateEvtMask`
abbrev pub update_evt_mask : (masks : ℕ → Mask) → (excluded : Mask) → Slots → Slots × List Effect
update_evt_mask masks excluded slots = (slots, reopen (get_evt_mask masks excluded slots) ∷ [])

pub data Call : Type 0 where
  add : ℕ → Call
  remove : ℕ → Call
  update : Call

abbrev pub empty_slots : ℕ → Slots
empty_slots zero = []
empty_slots (suc n) = none ∷ empty_slots n

module _ (masks : ℕ → Mask) (excluded : Mask) where
  unfoldable pub perform : Call → Slots → Slots × List Effect
  perform (add a) slots = add_adapter masks a slots
  perform (remove a) slots = remove_adapter masks excluded a slots
  perform update slots = update_evt_mask masks excluded slots

  unfoldable pub perform_all : List Call → Slots × List Effect → Slots × List Effect
  perform_all [] (slots, effects) = (slots, effects)
  perform_all (c ∷ cs) (slots, effects) =
      let r = perform c slots in perform_all cs (r.0, effects ++ r.1)

-- The constructor of `LocApiBase`.
abbrev pub new_slots : Slots × List Effect
new_slots = (empty_slots max_adapters, [])

-- `%X` of a number below 16.
abbrev pub hex_digit : ℕ → ℕ
hex_digit n = if ltb n 10 then n + b'0' else n - 10 + b'A'

-- `hexcode` from the index `i` on, with `char` unsigned: the text written and the index returned.
unfoldable pub hexcode_from : (i string_size : ℕ) → List ℕ → List ℕ × ℕ
hexcode_from i size [] = ([], i)
hexcode_from i size (ch ∷ bytes) =
    let rest = hexcode_from (suc i) size bytes in
    if leb (i * 2 + 3) size
    then (hex_digit (ch / 16 % 16) ∷ hex_digit (ch % 16) ∷ rest.0, rest.1)
    else ([], i)

unfoldable pub hexcode : (string_size : ℕ) → List ℕ → List ℕ × ℕ
hexcode size bytes = hexcode_from 0 size bytes

-- One `if` of the loop of `decodeAddress`.
abbrev pub put_digit : (string_size digit : ℕ) → List ℕ × ℕ → List ℕ × ℕ
put_digit size digit (address, index) =
    if leb digit 9 && ltb (index + 1) size
    then (address ++ (digit + b'0') ∷ [], index + 1)
    else (address, index)

unfoldable pub decode_loop : (string_size : ℕ) → List ℕ → List ℕ × ℕ → List ℕ × ℕ
decode_loop size [] r = r
decode_loop size (ch ∷ bytes) r =
    decode_loop size bytes (put_digit size (ch / 16) (put_digit size (ch % 16) r))

-- `decodeAddress` with pointers that are not NULL and a `string_size` above 0; `none` reads
-- `data[0]` of no data.
unfoldable pub decode_address : (string_size : ℕ) → List ℕ → Option (List ℕ × ℕ)
decode_address size [] = none
decode_address size (prefix ∷ bytes) =
    if prefix == 145 then some (decode_loop size bytes ([], 0)) else some ([], 0)
