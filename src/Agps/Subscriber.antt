-- ===== src/Agps/Subscriber.antt =====
-- The subscribers and the notifications that they look at.
use android_device_samsung_a.Base.{
  ℕ, zero, suc, Bool, true, false, ◌&&◌, ◌||◌, not, Option, none, some, List, [], ◌∷◌, ◌==◌,
}

-- `AgpsRsrcStatus`
pub data RsrcStatus : Type 0 where
  subscribe unsubscribe granted released denied status_max : RsrcStatus

-- The classes derived from `Subscriber`.
pub data Kind : Type 0 where
  bit atl wifi ds : Kind

-- An object of one of these classes. `addr` is its address. Numbers of 32 bits, signed or not, are
-- their bit patterns. A field that the class of `kind` lacks is not read, except where the source
-- reads it through a cast (`BITSubscriber::equals`).
pub record Subscriber : Type 0 where
  pub addr : ℕ
  pub kind : Kind
  pub id : ℕ
  pub ipv6_addr : List ℕ
  pub backward_compatible : Bool
  pub sender_id : ℕ
  pub ssid : Option (List ℕ)
  pub password : Option (List ℕ)
  pub is_inactive : Bool

abbrev pub broadcast_all : ℕ
broadcast_all = 0x8000_0000

abbrev pub broadcast_active : ℕ
broadcast_active = 0x8000_0001

abbrev pub broadcast_inactive : ℕ
broadcast_inactive = 0x8000_0002

abbrev pub minus_one : ℕ
minus_one = 0xffff_ffff

abbrev pub inaddr_none : ℕ
inaddr_none = 0xffff_ffff

pub record Notification : Type 0 where
  pub rcver : Option Subscriber
  pub group_id : ℕ
  pub rsrc_status : RsrcStatus
  pub post_notify_delete : Bool

-- The four constructors.
abbrev pub broadcast : ℕ → RsrcStatus → Bool → Notification
broadcast group status delete_afterwards = record {
  rcver = none;
  group_id = group;
  rsrc_status = status;
  post_notify_delete = delete_afterwards;
}

abbrev pub notify_one : Subscriber → RsrcStatus → Bool → Notification
notify_one s status delete_afterwards = record {
  rcver = some s;
  group_id = minus_one;
  rsrc_status = status;
  post_notify_delete = delete_afterwards;
}

abbrev pub to_group : ℕ → Notification
to_group group = broadcast group status_max false

abbrev pub to_one : Subscriber → Notification
to_one s = notify_one s status_max false

-- `waitForCloseComplete`, and who has `mIsInactive`.
abbrev pub waits_for_close : Kind → Bool
waits_for_close bit = false
waits_for_close atl = false
waits_for_close wifi = true
waits_for_close ds = true

-- `isInactive`
abbrev pub inactive : Subscriber → Bool
inactive s = waits_for_close s.kind && s.is_inactive

-- `clone`: a new object at `addr`. The classes with `mIsInactive` start with it false.
abbrev pub clone : ℕ → Subscriber → Subscriber
clone addr s = record s { addr = addr; is_inactive = false }

-- `0 == strncmp(a, b, n)` on buffers of `n` bytes: a NUL in both ends the comparison.
pub strncmp_eq : ℕ → List ℕ → List ℕ → Bool
strncmp_eq zero a b = true
strncmp_eq (suc n) [] [] = true
strncmp_eq (suc n) [] (y ∷ b) = y == 0
strncmp_eq (suc n) (x ∷ a) [] = x == 0
strncmp_eq (suc n) (x ∷ a) (y ∷ b) = (x == y) && (x == 0 || strncmp_eq n a b)

-- `equals`, by the class of the object that it is called on.
abbrev pub kind_equals : Kind → Subscriber → Subscriber → Bool
kind_equals bit s r =
    (s.id == r.id) && (not (inaddr_none == s.id) || strncmp_eq 16 s.ipv6_addr r.ipv6_addr)
kind_equals atl s r = s.id == r.id
kind_equals wifi s r = s.id == r.id
kind_equals ds s r = s.id == r.id

abbrev pub equals : Subscriber → Subscriber → Bool
equals s r = kind_equals s.kind s r

abbrev pub in_group : ℕ → Subscriber → Bool
in_group group s =
    (broadcast_all == group)
    || ((broadcast_active == group) && not (inactive s))
    || ((broadcast_inactive == group) && inactive s)

-- `Subscriber::forMe`
abbrev pub for_receiver : Option Subscriber → ℕ → Subscriber → Bool
for_receiver (some r) group s = equals s r
for_receiver none group s = in_group group s

abbrev pub for_me : Notification → Subscriber → Bool
for_me n s = for_receiver n.rcver n.group_id s
