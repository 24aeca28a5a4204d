-- ===== src/Identity.antt =====
-- backend/src/common/identity.util.ts: who a request comes from, and which rows are theirs.
pub mod Tokens
use gall_pr.Common.{
  ℕ, String, Bool, true, false, not, ◌&&◌, ◌||◌, Option, none, some, List, [], ◌∷◌, ◌++◌, leb, ◌==◌,
  str_eq, if◌then◌else◌, is_some, codes, non_empty, trim, bad_request, Result, ok, err,
}

pub data Identity : Type 0 where
  user : ℕ → Identity
  guest : String → Identity

-- `'userId' in identity`
abbrev pub is_guest : Identity → Bool
is_guest (user n) = false
is_guest (guest t) = true

abbrev pub user_id : Identity → Option ℕ
user_id (user n) = some n
user_id (guest t) = none

abbrev pub guest_token : Identity → Option String
guest_token (user n) = none
guest_token (guest t) = some t

-- `identityWhere(identity)` on a row's two owner columns.
unfoldable pub identity_where : Identity → Option ℕ → Option String → Bool
identity_where (user n) (some m) token = m == n
identity_where (user n) none token = false
identity_where (guest t) owner (some u) = str_eq u t
identity_where (guest t) owner none = false

-- `[0-9a-f]`, `-`, `4`, `[89ab]` under the flag `i`, on a character's code.
abbrev pub is_hex : ℕ → Bool
is_hex c = (leb 0x30 c && leb c 0x39) || (leb 0x41 c && leb c 0x46) || (leb 0x61 c && leb c 0x66)

abbrev pub is_code : ℕ → ℕ → Bool
is_code k c = c == k

abbrev pub is_variant : ℕ → Bool
is_variant c = c == 0x38 || c == 0x39 || c == 0x41 || c == 0x42 || c == 0x61 || c == 0x62

-- `GUEST_TOKEN_PATTERN`: what each character has to be.
abbrev pub guest_token_pattern : List (ℕ → Bool)
guest_token_pattern =
    is_hex
    ∷ is_hex
    ∷ is_hex
    ∷ is_hex
    ∷ is_hex
    ∷ is_hex
    ∷ is_hex
    ∷ is_hex
    ∷ is_code 0x2d
    ∷ is_hex
    ∷ is_hex
    ∷ is_hex
    ∷ is_hex
    ∷ is_code 0x2d
    ∷ is_code 0x34
    ∷ is_hex
    ∷ is_hex
    ∷ is_hex
    ∷ is_code 0x2d
    ∷ is_variant
    ∷ is_hex
    ∷ is_hex
    ∷ is_hex
    ∷ is_code 0x2d
    ∷ is_hex
    ∷ is_hex
    ∷ is_hex
    ∷ is_hex
    ∷ is_hex
    ∷ is_hex
    ∷ is_hex
    ∷ is_hex
    ∷ is_hex
    ∷ is_hex
    ∷ is_hex
    ∷ is_hex
    ∷ []

-- The whole string, and nothing more.
unfoldable pub matches : List (ℕ → Bool) → List ℕ → Bool
matches [] [] = true
matches [] (c ∷ cs) = false
matches (p ∷ ps) [] = false
matches (p ∷ ps) (c ∷ cs) = p c && matches ps cs

unfoldable pub is_valid_guest_token : Option String → Bool
unfolding matches codes
is_valid_guest_token none = false
is_valid_guest_token (some s) = matches guest_token_pattern (codes s)

-- `resolveIdentity`, on the signed-in account and the header.
unfoldable pub resolve_identity : Option ℕ → Option String → Result Identity
resolve_identity (some account) header = ok (user account)
resolve_identity none none = err (bad_request "Guest token required")
resolve_identity none (some token) =
    if not (is_some (non_empty (trim token)))
    then err (bad_request "Guest token required")
    else if not (is_valid_guest_token (some token))
    then err (bad_request "Malformed guest token")
    else ok (guest token)
