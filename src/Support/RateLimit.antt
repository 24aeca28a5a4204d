-- ===== src/Support/RateLimit.antt =====
-- backend/src/support/support-rate-limit.service.ts: how many messages a socket and an address may
-- send. A `Map` is a function from its keys; the clock is an argument.
pub mod Bound
use gall_pr.Common.{
  ℕ, suc, ◌+◌, ◌≤◌, String, Bool, true, false, not, ◌&&◌, Option, none, some, leb, if◌then◌else◌,
  str_eq,
}

pub record Window : Type 0 where
  pub count : ℕ
  pub reset_at : ℕ

pub record Rule : Type 0 where
  pub window_ms : ℕ
  pub limit : ℕ

abbrev pub per_socket : Rule
per_socket = record { window_ms = 60000; limit = 20 }

abbrev pub per_address : Rule
per_address = record { window_ms = 60000; limit = 60 }

abbrev pub Store : Type 0
Store = String → Option Window

abbrev pub set : Store → String → Option Window → Store
set store key window k = if str_eq k key then window else store k

-- What `consume` answers, and the window that it leaves under the key.
unfoldable pub spend : Rule → ℕ → Option Window → Bool × Option Window
spend rule now none = (true, some (record { count = 1; reset_at = now + rule.window_ms }))
spend rule now (some w) =
    if leb w.reset_at now
    then (true, some (record { count = 1; reset_at = now + rule.window_ms }))
    else (leb (w.count + 1) rule.limit, some (record w { count = w.count + 1 }))

unfoldable pub consume : Rule → ℕ → String → Store → Bool × Store
unfolding spend
consume rule now key store =
    ((spend rule now (store key)).0, set store key (spend rule now (store key)).1)

-- The window, unless it has ended.
unfoldable pub current : ℕ → Option Window → Option Window
current now none = none
current now (some w) = if leb w.reset_at now then none else some w

pub record Limits : Type 0 where
  pub sockets : Store
  pub addresses : Store

-- `allowMessage`. Both windows are consumed, whatever the first one says.
unfoldable pub allow_message : ℕ → String → String → Limits → Bool × Limits
unfolding consume
allow_message now socket address s =
    let (socket_ok, sockets) = consume per_socket now socket s.sockets in
    let (address_ok, addresses) = consume per_address now address s.addresses in
    (socket_ok && address_ok, record { sockets = sockets; addresses = addresses })

unfoldable pub release_socket : String → Limits → Limits
release_socket socket s = record s { sockets = set s.sockets socket none }

unfoldable pub sweep : ℕ → Limits → Limits
unfolding current
sweep now s = record {
  sockets = λ k. current now (s.sockets k);
  addresses = λ k. current now (s.addresses k);
}
