-- ===== src/Engine/Servers.antt =====
-- The servers' addresses: `loc_eng_set_server`, and the copies from which they are sent again. Host
-- names are not NULL.
use android_device_samsung_a.Base.{
  ℕ, Bool, true, false, Option, none, some, List, [], ◌∷◌, ◌++◌, length, take, ltb, if◌then◌else◌,
}
use android_device_samsung_a.Text.{Text}

-- `LocServerType`
pub data ServerType : Type 0 where
  supl_server cdma_pde custom_pde mpc other_server : ServerType

-- `LocEngSetServerUrl` and `LocEngSetServerIpv4`
pub data Order : Type 0 where
  set_url : Text → Order
  set_ipv4 : (ip port : ℕ) → ServerType → Order

-- From the C library: `%u`, `strncasecmp` with "NONE", and `resolve_in_addr`.
pub record Names : Type 0 where
  pub printed : ℕ → Text
  pub is_none : Text → Bool
  pub resolve : Text → Option ℕ

abbrev pub max_url_len : ℕ
max_url_len = 256

-- `supl_host_buf` and `c2k_host_buf` with their ports, `none` for one not set.
pub record Servers : Type 0 where
  pub supl_host : Option (Text × ℕ)
  pub c2k_host : Option (Text × ℕ)

-- The `memset` of `loc_eng_init`, which comes before the adapter is created.
unfoldable pub init_servers : Servers → Servers
init_servers s = record { supl_host = none; c2k_host = none }

abbrev pub host_text : ℕ
host_text = 100

module _ (names : Names) where
  abbrev pub url_order : Text → List Order
  url_order url = if ltb (length url) max_url_len then set_url url ∷ [] else []

  abbrev pub ipv4_order : ServerType → (port : ℕ) → Option ℕ → Bool × List Order
  ipv4_order type port none = (false, [])
  ipv4_order type port (some ip) = (true, set_ipv4 ip port type ∷ [])

  -- `loc_eng_set_server`: whether it returns 0, and the messages that it sends.
  unfoldable pub set_server : ServerType → Text → (port : ℕ) → Bool × List Order
  set_server supl_server host port =
      (true, url_order (if names.is_none host then [] else host ++ b':' ∷ names.printed port))
  set_server cdma_pde host port = ipv4_order cdma_pde port (names.resolve host)
  set_server custom_pde host port = ipv4_order custom_pde port (names.resolve host)
  set_server mpc host port = ipv4_order mpc port (names.resolve host)
  set_server other_server host port = (true, [])

  abbrev pub keep : ServerType → Text → (port : ℕ) → Servers → Servers
  keep supl_server host port s = record s { supl_host = some (take host_text host, port) }
  keep cdma_pde host port s = record s { c2k_host = some (take host_text host, port) }
  keep custom_pde host port s = s
  keep mpc host port s = s
  keep other_server host port s = s

  -- `loc_eng_set_server_proxy`, `opened` being whether the adapter is there.
  unfoldable pub set_server_proxy :
      (opened : Bool) → ServerType → Text → (port : ℕ) → Servers → Servers × (Bool × List Order)
  set_server_proxy opened type host port s =
      (keep type host port s, if opened then set_server type host port else (true, []))

  abbrev pub resend : ServerType → Option (Text × ℕ) → List Order
  resend type none = []
  resend type (some (host, port)) = (set_server type host port).1

  -- `loc_eng_agps_reinit`: the messages that it sends.
  unfoldable pub agps_reinit : Servers → List Order
  agps_reinit s = resend supl_server s.supl_host ++ resend cdma_pde s.c2k_host
