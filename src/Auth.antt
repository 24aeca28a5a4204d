-- ===== src/Auth.antt =====
-- backend/src/auth/auth.service.ts: accounts, sessions and passwords. The libraries that sign,
-- hash and compare are the parameter `Crypto`; what `randomBytes` returns is an argument, and so
-- is the clock in milliseconds. A request that fails may have changed the tables, so each
-- operation returns the tables beside its result.
pub mod Entities
pub mod Sessions
pub mod Passwords
use gall_pr.Common.{ℕ, String, Bool, Option, Failure, unauthorized, bad_request, forbidden}
use gall_pr.Auth.Entities.{User, UserRole}

pub record Crypto : Type 0 where
  -- `createHash('sha256')…digest('hex')`
  pub sha256 : String → String
  -- `jwtService.verify` with the refresh secret at a time: `payload.sub`, or none when it throws
  pub verify_refresh : ℕ → String → Option ℕ
  -- `jwtService.sign` of the access token, and of the refresh token with its `jwtid`
  pub sign_access : ℕ → User → String
  pub sign_refresh : ℕ → String → User → String
  -- `bcrypt.hash` with its salt, and `bcrypt.compare`
  pub hash : String → String → String
  pub compare : String → String → Bool
  -- `toLowerCase`
  pub lower_case : String → String

pub record TokenPair : Type 0 where
  pub access_token : String
  pub refresh_token : String

abbrev pub refresh_ttl_ms : ℕ
refresh_ttl_ms = 2592000000

abbrev pub password_reset_ttl_ms : ℕ
password_reset_ttl_ms = 3600000

abbrev pub invalid_refresh : Failure
invalid_refresh = unauthorized "Invalid refresh token"

-- `signTokens`
abbrev pub sign_tokens : Crypto → ℕ → String → User → TokenPair
sign_tokens c now jwtid user = record {
  access_token = c.sign_access now user;
  refresh_token = c.sign_refresh now jwtid user;
}
