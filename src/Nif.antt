-- ===== src/Nif.antt =====
-- gps/loc_api/libloc_api_50001/loc_eng.cpp: the engine's three AGPS state machines, and the messages
-- that reach them.
--
-- `agnss_nif`, `internet_nif` and `ds_nif` are machines of `Agps`, `none` for NULL. A machine that is
-- called through a NULL pointer is counted in `faults`, and the rest of that message is left out.
pub mod Routing
pub mod Sound
pub mod Restart
mod Tests
use android_device_samsung_a.Base.{
  ℕ, suc, Bool, true, false, ◌&&◌, Option, none, some, List, [], ◌∷◌, take, length, if◌then◌else◌,
}
use android_device_samsung_a.Agps.Subscriber.{
  RsrcStatus, granted, released, denied, Kind, bit, atl, ds, Subscriber,
}
use android_device_samsung_a.Agps.Machine.{Env, Machine, Code, agps, ext}
use android_device_samsung_a.Agps.Api.{
  new_machine, new_ds_machine, set_apn, set_bearer, on_rsrc_event, subscribe_rsrc, unsubscribe_rsrc,
  drop_all_subscribers,
}

-- `AGpsExtType`, of which the engine tells three from the others.
pub data AgpsType : Type 0 where
  invalid supl supl_es : AgpsType
  other : ℕ → AgpsType

-- What the machines' creation depends on: the capabilities MSA or MSB, the parameter
-- `USE_EMERGENCY_PDN_FOR_EMERGENCY_SUPL`, `mSupportsAgpsRequests`, whether `initDataServiceClient`
-- returns 0, and the types AGPS_TYPE_SUPL and AGPS_TYPE_WWAN_ANY.
pub record Conf : Type 0 where
  pub agps_capable : Bool
  pub use_emergency_pdn : Bool
  pub supports_agps : Bool
  pub data_client : Bool
  pub supl_code : Code
  pub wwan_code : Code

-- The adapter's own answers: `atlOpenStatus` with no success, and `atlCloseStatus`.
pub data Answer : Type 0 where
  open_refused : (id : ℕ) → Answer
  close_done : (id : ℕ) → Answer

pub record Nifs : Type 0 where
  pub agnss : Option Machine
  pub internet : Option Machine
  pub ds_nif : Option Machine
  pub answers : List Answer
  pub faults : ℕ

-- Which machine.
pub data Which : Type 0 where
  agnss_one internet_one ds_one : Which

abbrev pub get : Which → Nifs → Option Machine
get agnss_one n = n.agnss
get internet_one n = n.internet
get ds_one n = n.ds_nif

abbrev pub set : Which → Machine → Nifs → Nifs
set agnss_one m n = record n { agnss = some m }
set internet_one m n = record n { internet = some m }
set ds_one m n = record n { ds_nif = some m }

abbrev pub is_null : Option Machine → Bool
is_null none = true
is_null (some m) = false

abbrev pub or_new : Machine → Option Machine → Option Machine
or_new fresh none = some fresh
or_new fresh (some m) = some m

-- A message's call through the pointer.
abbrev pub on_found : Which → (Machine → Machine) → Option Machine → Nifs → Nifs
on_found w call none n = record n { faults = suc n.faults }
on_found w call (some m) n = set w (call m) n

abbrev pub on_machine : Which → (Machine → Machine) → Nifs → Nifs
on_machine w call n = on_found w call (get w n) n

-- The subscribers that a message has on its stack.
abbrev pub subscriber : Kind → (id : ℕ) → (ipv6 : List ℕ) → (compatible : Bool) → Subscriber
subscriber kind id ipv6 compatible = record {
  addr = 0;
  kind = kind;
  id = id;
  ipv6_addr = ipv6;
  backward_compatible = compatible;
  sender_id = 0;
  ssid = none;
  password = none;
  is_inactive = false;
}

abbrev pub bit_address : Option (List ℕ) → List ℕ
bit_address none = 0 ∷ []
bit_address (some ipv6) = ipv6

abbrev pub is_invalid : AgpsType → Bool
is_invalid invalid = true
is_invalid supl = false
is_invalid supl_es = false
is_invalid (other n) = false

module _ (env : Env) (conf : Conf) where
  -- `createAgnssNifs`
  unfoldable pub create_nifs : Nifs → Nifs
  create_nifs n =
      if conf.supports_agps
      then record n {
        internet = or_new (new_machine agps conf.wwan_code false) n.internet;
        agnss =
            if conf.agps_capable
            then or_new (new_machine agps conf.supl_code false) n.agnss
            else n.agnss;
        ds_nif =
            if conf.agps_capable && conf.use_emergency_pdn && conf.data_client
            then or_new (new_ds_machine ext) n.ds_nif
            else n.ds_nif;
      }
      else n

  -- `getAgpsStateMachine`: which machine, after the creation that it may call.
  unfoldable pub get_machine : AgpsType → Nifs → Which × Nifs
  get_machine invalid n = (agnss_one, n)
  get_machine supl n = (agnss_one, n)
  get_machine supl_es n =
      if conf.use_emergency_pdn
      then (ds_one, if is_null n.ds_nif then create_nifs n else n)
      else (agnss_one, n)
  get_machine (other t) n = (internet_one, n)

  -- `LocEngReqRelBIT::proc`
  unfoldable pub req_rel_bit :
      AgpsType → (ipv4 : ℕ) → Option (List ℕ) → (is_req : Bool) → Nifs → Nifs
  req_rel_bit type ipv4 ipv6 is_req n =
      let r = get_machine type n in
      let s = subscriber bit ipv4 (bit_address ipv6) false in
      on_machine r.0 (λ m. if is_req then subscribe_rsrc env s m else (unsubscribe_rsrc env s m).1)
        r.1

  -- `LocEngSuplEsOpened::proc` and `LocEngSuplEsClosed::proc`
  abbrev pub ds_event : RsrcStatus → Option Machine → Nifs → Nifs
  ds_event e none n = n
  ds_event e (some m) n = set ds_one (on_rsrc_event env e m) n

  unfoldable pub supl_es_event : RsrcStatus → Nifs → Nifs
  supl_es_event e n = ds_event e n.ds_nif n

  -- `LocEngRequestSuplEs::proc`
  abbrev pub request_on : Which → Subscriber → Option Machine → Nifs → Nifs
  request_on w s none n = record n { answers = open_refused s.id ∷ n.answers }
  request_on w s (some m) n = set w (subscribe_rsrc env s m) n

  unfoldable pub request_supl_es : (id : ℕ) → Nifs → Nifs
  request_supl_es id n =
      if conf.use_emergency_pdn
      then (if is_null n.ds_nif
          then request_on agnss_one (subscriber atl id [] false) n.agnss n
          else request_on ds_one (subscriber ds id [] false) n.ds_nif n)
      else request_on agnss_one (subscriber atl id [] false) n.agnss n

  -- `LocEngRequestATL::proc`
  unfoldable pub request_atl : (id : ℕ) → AgpsType → Nifs → Nifs
  request_atl id type n =
      let r = get_machine type n in
      request_on r.0 (subscriber atl id [] (is_invalid type)) (get r.0 r.1) r.1

  -- A machine of `LocEngReleaseATL::proc`: what was unsubscribed, or the rest of the function.
  abbrev pub release_on : Which → Subscriber → Option Machine → (Nifs → Nifs) → Nifs → Nifs
  release_on w s none rest n = rest n
  release_on w s (some m) rest n =
      let r = unsubscribe_rsrc env s m in if r.0 then set w (r.1) n else rest (set w (r.1) n)

  -- `LocEngReleaseATL::proc`
  unfoldable pub release_atl : (id : ℕ) → Nifs → Nifs
  release_atl id n =
      release_on agnss_one (subscriber atl id [] false) n.agnss
        (λ n1.
          release_on internet_one (subscriber atl id [] false) n1.internet
            (λ n2.
              release_on ds_one (subscriber ds id [] false) n2.ds_nif
                (λ n3. record n3 { answers = close_done id ∷ n3.answers }) n2)
            n1)
        n

  -- `LocEngAtlOpenSuccess::proc`
  unfoldable pub atl_open_success : AgpsType → (apn : List ℕ) → (bearer : Code) → Nifs → Nifs
  atl_open_success type apn bearer n =
      let r = get_machine type n in
      on_machine r.0
        (λ m. on_rsrc_event env granted (set_apn (some apn) (length apn) (set_bearer bearer m))) r.1

  -- `LocEngAtlClosed::proc` and `LocEngAtlOpenFailed::proc`
  unfoldable pub atl_event : RsrcStatus → AgpsType → Nifs → Nifs
  atl_event e type n = let r = get_machine type n in on_machine r.0 (on_rsrc_event env e) r.1

abbrev pub drop_in : Option Machine → Option Machine
drop_in none = none
drop_in (some m) = some (drop_all_subscribers m)

-- What `loc_eng_handle_engine_up` does to the machines.
unfoldable pub drop_subscribers : Nifs → Nifs
drop_subscribers n = record n { agnss = drop_in n.agnss; internet = drop_in n.internet }

-- The messages, but for those of an engine restart.
pub data Msg : Type 0 where
  nif_init : Msg
  bit_msg : AgpsType → (ipv4 : ℕ) → Option (List ℕ) → (is_req : Bool) → Msg
  supl_es_opened supl_es_closed : Msg
  request_supl_es_msg : (id : ℕ) → Msg
  request_atl_msg : (id : ℕ) → AgpsType → Msg
  release_atl_msg : (id : ℕ) → Msg
  open_success : AgpsType → (apn : List ℕ) → (bearer : Code) → Msg
  closed open_failed : AgpsType → Msg

module _ (env : Env) (conf : Conf) where
  unfoldable pub proc : Msg → Nifs → Nifs
  proc nif_init n = create_nifs env conf n
  proc (bit_msg type ipv4 ipv6 is_req) n = req_rel_bit env conf type ipv4 ipv6 is_req n
  proc supl_es_opened n = supl_es_event env conf granted n
  proc supl_es_closed n = supl_es_event env conf released n
  proc (request_supl_es_msg id) n = request_supl_es env conf id n
  proc (request_atl_msg id type) n = request_atl env conf id type n
  proc (release_atl_msg id) n = release_atl env conf id n
  proc (open_success type apn bearer) n = atl_open_success env conf type apn bearer n
  proc (closed type) n = atl_event env conf released type n
  proc (open_failed type) n = atl_event env conf denied type n

  unfoldable pub proc_all : List Msg → Nifs → Nifs
  proc_all [] n = n
  proc_all (msg ∷ rest) n = proc_all rest (proc msg n)

abbrev pub no_nifs : Nifs
no_nifs = record { agnss = none; internet = none; ds_nif = none; answers = []; faults = 0 }
