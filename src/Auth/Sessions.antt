-- ===== src/Auth/Sessions.antt =====
-- Sessions of backend/src/auth/auth.service.ts: issuing, rotating and ending them.
pub mod Laws
use gall_pr.Common.{
  ℕ, ◌+◌, String, Bool, true, false, not, ◌&&◌, Option, none, some, List, [], ◌∷◌, Failure,
  bad_request, forbidden, crashed, Result, ok, err, leb, ltb, ◌==◌, if◌then◌else◌, non_empty,
  or_else, str_eq, trim, take,
}
use gall_pr.Common.Rows.{at_key}
use gall_pr.Auth.{Crypto, TokenPair, refresh_ttl_ms, invalid_refresh, sign_tokens}
use gall_pr.Auth.Entities.{
  User, RefreshSession, AuthDatabase, AuthTables, user_key, session_key, has_email, of_user, holds,
  own_session, this_session,
}

-- `!value`
abbrev pub given : Option String → Option String
given none = none
given (some s) = non_empty s

-- The row that `issueSession` creates. (`cut` is `slice(0, 255)`.)
unfoldable pub new_session :
    Crypto → (String → String) → ℕ → User → TokenPair → Option String → ℕ → RefreshSession
new_session c cut now user tokens agent id = record {
  id = id;
  user_id = user.id;
  token_hash = c.sha256 tokens.refresh_token;
  expires_at = now + refresh_ttl_ms;
  user_agent = elim agent [ none ↦ none | some a ↦ some (cut a) ];
}

-- `{ userId, expiresAt: LessThan(now) }`
abbrev pub expired_of : ℕ → ℕ → RefreshSession → Bool
expired_of user now s = of_user user s && ltb s.expires_at now

-- What the rotation writes into the row.
abbrev pub rotated : Crypto → ℕ → TokenPair → RefreshSession → RefreshSession
rotated c now tokens s = record s {
  token_hash = c.sha256 tokens.refresh_token;
  expires_at = now + refresh_ttl_ms;
}

module _ (db : AuthDatabase) (c : Crypto) where
  -- `issueSession`, with the sweep of expired sessions that it starts.
  unfoldable pub issue_session :
      (String → String)
      → ℕ
      → String
      → User
      → Option String
      → AuthTables db
      → Result TokenPair × AuthTables db
  issue_session cut now jwtid user agent s =
      let tokens = sign_tokens c now jwtid user in
      elim (db.sessions.insert (new_session c cut now user tokens agent) s.sessions) [
        | none ↦ (err (crashed "the session could not be inserted"), s)
        | some (row, sessions) ↦ (
          ok tokens,
          record s { sessions = db.sessions.delete (expired_of user.id now) sessions },
        )
      ]

  abbrev pub end_where : (RefreshSession → Bool) → AuthTables db → AuthTables db
  end_where w s = record s { sessions = db.sessions.delete w s.sessions }

  -- The rotation of a session that is held, by the account that it belongs to.
  unfoldable pub rotate :
      ℕ
      → String
      → String
      → RefreshSession
      → Option User
      → AuthTables db
      → Result (TokenPair × User) × AuthTables db
  rotate now jwtid hash session none s =
      (err invalid_refresh, end_where (at_key session_key session.id) s)
  rotate now jwtid hash session (some user) s =
      if not user.is_active
      then (err invalid_refresh, end_where (of_user user.id) s)
      else let tokens = sign_tokens c now jwtid user in
        (
          ok (tokens, user),
          record s {
            sessions =
                db.sessions.update (this_session session.id hash) (rotated c now tokens) s.sessions;
          },
        )

  -- `refresh`, once the token is verified as issued to `sub`.
  unfoldable pub refresh_verified :
      ℕ → String → ℕ → String → AuthTables db → Result (TokenPair × User) × AuthTables db
  unfolding rotate
  refresh_verified now jwtid sub hash s = elim (db.sessions.find_one (holds hash) s.sessions) [
    | none ↦ (err invalid_refresh, end_where (of_user sub) s)
    | some session ↦
        if leb session.expires_at now
        then (err invalid_refresh, end_where (at_key session_key session.id) s)
        else rotate now jwtid hash session
            (db.users.find_one (at_key user_key session.user_id) s.users) s
  ]

  unfoldable pub refresh :
      ℕ → String → Option String → AuthTables db → Result (TokenPair × User) × AuthTables db
  unfolding refresh_verified
  refresh now jwtid token s = elim (given token) [
    | none ↦ (err invalid_refresh, s)
    | some t ↦ elim (c.verify_refresh now t) [
      | none ↦ (err invalid_refresh, s)
      | some sub ↦ refresh_verified now jwtid sub (c.sha256 t) s
    ]
  ]

  unfoldable pub logout_by_refresh_token : Option String → AuthTables db → AuthTables db
  logout_by_refresh_token token s = elim (given token) [
    | none ↦ s
    | some t ↦ end_where (holds (c.sha256 t)) s
  ]

  -- The number of sessions that were ended, and the tables.
  unfoldable pub logout_everywhere : ℕ → AuthTables db → ℕ × AuthTables db
  logout_everywhere user s =
      (db.sessions.count_where (of_user user) s.sessions, end_where (of_user user) s)

  unfoldable pub end_session : ℕ → ℕ → AuthTables db → Result (Unit {0}) × AuthTables db
  end_session user id s =
      if db.sessions.count_where (own_session user id) s.sessions == 0
      then (err (bad_request "Сесію не знайдено"), end_where (own_session user id) s)
      else (ok tt, end_where (own_session user id) s)

-- The account that signs in may use the shop.
unfoldable pub assert_active : User → Result (Unit {0})
assert_active user =
    if user.is_active
    then ok tt
    else err (forbidden "Доступ до акаунта призупинено. Звʼяжіться з підтримкою.")
