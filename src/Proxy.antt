-- ===== src/Proxy.antt =====
-- backend/src/config/proxy.ts: whose address a request is counted under.
use gall_pr.Common.{
  ℕ, ◌≡◌, refl, String, Bool, true, false, ◌||◌, Option, none, some, List, [], ◌∷◌, ltb, str_eq,
  if◌then◌else◌, or_else, trimmed,
}

pub data TrustProxySetting : Type 0 where
  off on : TrustProxySetting
  hops : ℕ → TrustProxySetting
  named : String → TrustProxySetting

-- A header, as Node hands it over.
pub data Header : Type 0 where
  missing : Header
  single : String → Header
  repeated : List String → Header

-- `trustProxySetting`, on the variable and on `Number` of a text where it is a whole number.
abbrev positive_hops : String → Option ℕ → TrustProxySetting
positive_hops raw none = named raw
positive_hops raw (some n) = if ltb 0 n then hops n else named raw

abbrev spelled : (String → Option ℕ) → String → TrustProxySetting
spelled number raw =
    if str_eq raw "false" || str_eq raw "0"
    then off
    else if str_eq raw "true"
    then on
    else positive_hops raw (number raw)

unfoldable pub trust_proxy_setting : (String → Option ℕ) → Option String → TrustProxySetting
trust_proxy_setting number raw = elim (trimmed raw) [ none ↦ off | some s ↦ spelled number s ]

abbrev pub is_behind_proxy : TrustProxySetting → Bool
is_behind_proxy off = false
is_behind_proxy on = true
is_behind_proxy (hops n) = true
is_behind_proxy (named s) = true

-- The Cloudflare header's first value.
abbrev pub first_value : Header → Option String
first_value missing = none
first_value (single s) = some s
first_value (repeated []) = none
first_value (repeated (s ∷ ss)) = some s

abbrev forwarded : TrustProxySetting → Header → Option String
forwarded setting header = if is_behind_proxy setting then trimmed (first_value header) else none

-- `clientAddressOf`
unfoldable pub client_address_of :
    TrustProxySetting → Header → Option String → Option String → String
client_address_of setting header ip remote =
    or_else (forwarded setting header) (or_else ip (or_else remote "unknown"))

-- Without a declared proxy, what a client writes into the header changes nothing.
client_address_of_off :
    (header other : Header) (ip remote : Option String)
    → client_address_of off header ip remote ≡ client_address_of off other ip remote
unfolding client_address_of
client_address_of_off header other ip remote = refl
