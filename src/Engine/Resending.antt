-- ===== src/Engine/Resending.antt =====
-- What `loc_eng_agps_reinit` tells the servers again.
use android_device_samsung_a.Base.{
  ℕ, ◌≤◌, ◌≡◌, refl, ap, ◌∙◌, Bool, Option, some, List, [], ◌∷◌, length, take_all, All,
}
use android_device_samsung_a.Text.{Text}
use android_device_samsung_a.Engine.Servers.{
  ServerType, supl_server, cdma_pde, custom_pde, mpc, other_server, Names, Servers,
  set_server_proxy, host_text,
}

-- A call of `loc_eng_set_server_proxy`: the type, the host and the port.
abbrev pub Request : Type 0
Request = ServerType × Text × ℕ

-- The host fits its buffer.
abbrev pub Fits : Request → Type 0
Fits (type, host, port) = length host ≤ host_text

-- The latest request of the SUPL server, and of the CDMA one.
unfoldable pub latest_supl : List Request → Option (Text × ℕ) → Option (Text × ℕ)
latest_supl [] o = o
latest_supl ((supl_server, host, port) ∷ rest) o = latest_supl rest (some (host, port))
latest_supl ((cdma_pde, host, port) ∷ rest) o = latest_supl rest o
latest_supl ((custom_pde, host, port) ∷ rest) o = latest_supl rest o
latest_supl ((mpc, host, port) ∷ rest) o = latest_supl rest o
latest_supl ((other_server, host, port) ∷ rest) o = latest_supl rest o

unfoldable pub latest_c2k : List Request → Option (Text × ℕ) → Option (Text × ℕ)
latest_c2k [] o = o
latest_c2k ((cdma_pde, host, port) ∷ rest) o = latest_c2k rest (some (host, port))
latest_c2k ((supl_server, host, port) ∷ rest) o = latest_c2k rest o
latest_c2k ((custom_pde, host, port) ∷ rest) o = latest_c2k rest o
latest_c2k ((mpc, host, port) ∷ rest) o = latest_c2k rest o
latest_c2k ((other_server, host, port) ∷ rest) o = latest_c2k rest o

module _ (names : Names) where
  unfoldable pub proxy_all : (opened : Bool) → List Request → Servers → Servers
  proxy_all opened [] s = s
  proxy_all opened ((type, host, port) ∷ rest) s =
      proxy_all opened rest (set_server_proxy names opened type host port s).0

  kept :
      (opened : Bool) (rs : List Request) (s : Servers)
      → All Fits rs
      → proxy_all opened rs s
        ≡ record { supl_host = latest_supl rs s.supl_host; c2k_host = latest_c2k rs s.c2k_host }
  unfolding proxy_all latest_supl latest_c2k set_server_proxy
  kept opened [] s h = refl
  kept opened ((supl_server, host, port) ∷ rest) s (h, hs) =
      kept opened rest _ hs
      ∙ ap
          (λ t. record {
            supl_host = latest_supl rest (some (t, port));
            c2k_host = latest_c2k rest s.c2k_host;
          })
          (take_all host_text host h)
  kept opened ((cdma_pde, host, port) ∷ rest) s (h, hs) =
      kept opened rest _ hs
      ∙ ap
          (λ t. record {
            supl_host = latest_supl rest s.supl_host;
            c2k_host = latest_c2k rest (some (t, port));
          })
          (take_all host_text host h)
  kept opened ((custom_pde, host, port) ∷ rest) s (h, hs) = kept opened rest s hs
  kept opened ((mpc, host, port) ∷ rest) s (h, hs) = kept opened rest s hs
  kept opened ((other_server, host, port) ∷ rest) s (h, hs) = kept opened rest s hs
