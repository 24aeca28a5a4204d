-- ===== src/ExchangeRate.antt =====
-- backend/src/exchange-rate/exchange-rate.service.ts: the rate of the dollar, as the National Bank
-- last answered it.
pub mod Bound
use gall_pr.Common.{
  ℕ, ◌-◌, Bool, true, false, not, ◌&&◌, ◌||◌, Option, none, some, List, [], ◌∷◌, ltb, if◌then◌else◌,
  Decimal, Result, ok, err,
}

abbrev pub cache_ttl_ms : ℕ
cache_ttl_ms = 3600000

abbrev pub retry_backoff_ms : ℕ
retry_backoff_ms = 300000

-- A number of the bank's answer.
pub record Number : Type 0 where
  pub negative : Bool
  pub size : Decimal

abbrev pub is_positive : Number → Bool
is_positive n = not n.negative && ltb 0 n.size.digits

-- The fields of the service.
pub record Rates : Type 0 where
  pub last_known_rate : Number
  pub fetched_at : ℕ
  pub last_attempt_at : ℕ

abbrev pub initial : Rates
initial = record {
  last_known_rate = record { negative = false; size = record { digits = 415; scale = 1 } };
  fetched_at = 0;
  last_attempt_at = 0;
}

-- `isFresh || attemptedRecently`
unfoldable pub keeps : ℕ → Rates → Bool
keeps now s =
    ltb (now - s.fetched_at) cache_ttl_ms || ltb (now - s.last_attempt_at) retry_backoff_ms

-- What the answer of the bank, which came at `later`, makes of the fields.
unfoldable pub refreshed : ℕ → Result (Option Number) → Rates → Rates
refreshed later (err e) s = s
refreshed later (ok none) s = s
refreshed later (ok (some rate)) s =
    if is_positive rate then record s { last_known_rate = rate; fetched_at = later } else s

-- `getUsdToUahRate`: whether the bank is asked, and the fields; the answer is their rate.
unfoldable pub get_usd_to_uah_rate : ℕ → ℕ → Result (Option Number) → Rates → Bool × Rates
unfolding keeps refreshed
get_usd_to_uah_rate now later reply s =
    if keeps now s
    then (false, s)
    else (true, refreshed later reply (record s { last_attempt_at = now }))
