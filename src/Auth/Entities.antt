-- ===== src/Auth/Entities.antt =====
-- Accounts, signed-in devices and reset links, and the tables that hold them.
use gall_pr.Common.{ℕ, String, Bool, false, ◌&&◌, Option, none, some, ◌==◌, str_eq}
use gall_pr.Common.Rows.{at_key}
use gall_pr.Common.Repository.{Repository}

pub data UserRole : Type 0 where
  ordinary admin : UserRole

-- backend/src/users/entities/user.entity.ts
pub record User : Type 0 where
  pub id : ℕ
  pub email : String
  pub password_hash : Option String
  pub google_id : Option String
  pub first_name : Option String
  pub last_name : Option String
  pub phone : String
  pub role : UserRole
  pub is_active : Bool
  pub telegram_chat_id : Option String

-- backend/src/auth/entities/refresh-session.entity.ts
pub record RefreshSession : Type 0 where
  pub id : ℕ
  pub user_id : ℕ
  pub token_hash : String
  pub expires_at : ℕ
  pub user_agent : Option String

-- backend/src/auth/entities/password-reset.entity.ts
pub record PasswordReset : Type 0 where
  pub id : ℕ
  pub user_id : ℕ
  pub token_hash : String
  pub expires_at : ℕ
  pub used_at : Option ℕ

abbrev pub user_key : User → ℕ
user_key u = u.id

abbrev pub session_key : RefreshSession → ℕ
session_key s = s.id

abbrev pub reset_key : PasswordReset → ℕ
reset_key r = r.id

pub record AuthDatabase : Type 1 where
  pub users : Repository user_key
  pub sessions : Repository session_key
  pub resets : Repository reset_key

pub record AuthTables (db : AuthDatabase) : Type 0 where
  pub users : db.users.Table
  pub sessions : db.sessions.Table
  pub resets : db.resets.Table

-- The conditions of the queries.
abbrev pub has_email : String → User → Bool
has_email e u = str_eq u.email e

abbrev pub has_google_id : String → User → Bool
has_google_id sub u = is_it u.google_id
  where
    is_it : Option String → Bool
    is_it none = false
    is_it (some s) = str_eq s sub

abbrev pub of_user : ℕ → RefreshSession → Bool
of_user user s = s.user_id == user

abbrev pub holds : String → RefreshSession → Bool
holds hash s = str_eq s.token_hash hash

-- `{ id: sessionId, userId }`
abbrev pub own_session : ℕ → ℕ → RefreshSession → Bool
own_session user id s = at_key session_key id s && of_user user s

-- `{ id: session.id, tokenHash }`
abbrev pub this_session : ℕ → String → RefreshSession → Bool
this_session id hash s = at_key session_key id s && holds hash s

abbrev pub is_reset_of : ℕ → PasswordReset → Bool
is_reset_of user r = r.user_id == user

abbrev pub is_reset_for : String → PasswordReset → Bool
is_reset_for hash r = str_eq r.token_hash hash
