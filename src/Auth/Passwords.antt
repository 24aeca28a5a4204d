-- ===== src/Auth/Passwords.antt =====
-- Passwords of backend/src/auth/auth.service.ts: signing in with one, changing it, and the link
-- that sets a new one.
pub mod Laws
pub mod Links
use gall_pr.Common.{
  ℕ, ◌+◌, String, Bool, true, false, not, ◌&&◌, ◌||◌, Option, none, some, List, [], ◌∷◌, Failure,
  bad_request, crashed, Result, ok, err, leb, ltb, ◌==◌, if◌then◌else◌, non_empty, or_else, str_eq,
  trim, is_some,
}
use gall_pr.Common.Rows.{at_key}
use gall_pr.Auth.{Crypto, TokenPair, password_reset_ttl_ms}
use gall_pr.Auth.Entities.{
  User, RefreshSession, PasswordReset, AuthDatabase, AuthTables, user_key, session_key, reset_key,
  has_email, of_user, is_reset_of, is_reset_for,
}
use gall_pr.Auth.Sessions.{given, issue_session, assert_active, end_where}

abbrev pub wrong_password : Failure
wrong_password = bad_request "Невірний email або пароль"

abbrev pub stale_link : Failure
stale_link = bad_request "Посилання недійсне або застаріло. Спробуйте надіслати запит ще раз."

-- The guards of `login`, on the account that the address belongs to.
unfoldable pub check_password : Crypto → String → Option User → Result User
unfolding assert_active
check_password c password none = err wrong_password
check_password c password (some user) = elim (given user.password_hash) [
  | none ↦ err (
      bad_request
        "Цей акаунт створено через Google. Увійдіть кнопкою Google або встановіть пароль через «Забули пароль?».")
  | some hash ↦
      if not (c.compare password hash)
      then err wrong_password
      else elim (assert_active user) [ err e ↦ err e | ok u ↦ ok user ]
]

-- The row of a new reset link.
abbrev pub new_reset : Crypto → ℕ → String → ℕ → ℕ → PasswordReset
new_reset c now token user id = record {
  id = id;
  user_id = user;
  token_hash = c.sha256 token;
  expires_at = now + password_reset_ttl_ms;
  used_at = none;
}

-- `!reset || reset.usedAt || reset.expiresAt <= now`
unfoldable pub check_reset : ℕ → Option PasswordReset → Result PasswordReset
check_reset now none = err stale_link
check_reset now (some reset) =
    if is_some reset.used_at || leb reset.expires_at now then err stale_link else ok reset

-- The guards of `changePassword`.
unfoldable pub check_change : Crypto → String → String → Option User → Result User
check_change c current fresh none = err (bad_request "Користувача не знайдено")
check_change c current fresh (some user) = elim (given user.password_hash) [
  | none ↦ ok user
  | some hash ↦
      if not (c.compare current hash)
      then err (bad_request "Поточний пароль невірний")
      else if str_eq current fresh
      then err (bad_request "Новий пароль має відрізнятися від поточного")
      else ok user
]

-- `keepHash && session.tokenHash === keepHash`
unfoldable pub is_kept : Crypto → Option String → RefreshSession → Bool
is_kept c keep session = elim (given keep) [
  | none ↦ false
  | some t ↦ str_eq session.token_hash (c.sha256 t)
]

module _ (db : AuthDatabase) (c : Crypto) where
  -- `login`; `cut` is `slice(0, 255)`.
  unfoldable pub login :
      (String → String)
      → ℕ
      → String
      → String
      → String
      → Option String
      → AuthTables db
      → Result (TokenPair × User) × AuthTables db
  login cut now jwtid email password agent s =
      elim (check_password c password
        (db.users.find_one (has_email (c.lower_case (trim email))) s.users)) [
          | err e ↦ (err e, s)
          | ok user ↦
              let (issued, s') = issue_session db c cut now jwtid user agent s in
              elim issued [ err e ↦ (err e, s') | ok tokens ↦ (ok (tokens, user), s') ]
        ]

  -- The letter's recipient, if there is a letter, and the tables.
  unfoldable pub request_password_reset :
      ℕ → String → String → AuthTables db → Result (Option User) × AuthTables db
  request_password_reset now token email s =
      elim (db.users.find_one (has_email (c.lower_case (trim email))) s.users) [
        | none ↦ (ok none, s)
        | some user ↦
            if not user.is_active
            then (ok none, s)
            else let resets = db.resets.delete (is_reset_of user.id) s.resets in
              elim (db.resets.insert (new_reset c now token user.id) resets) [
                | none ↦
                    (err (crashed "the reset could not be inserted"), record s { resets = resets })
                | some (row, resets') ↦ (ok (some user), record s { resets = resets' })
              ]
      ]

  abbrev pub set_password : ℕ → String → AuthTables db → AuthTables db
  set_password user hash s = record s {
    users =
        db.users.update (at_key user_key user) (λ u. record u { password_hash = some hash })
          s.users;
  }

  abbrev pub mark_used : ℕ → ℕ → AuthTables db → AuthTables db
  mark_used now reset s = record s {
    resets =
        db.resets.update (at_key reset_key reset) (λ r. record r { used_at = some now }) s.resets;
  }

  unfoldable pub reset_password :
      ℕ → String → String → String → AuthTables db → Result User × AuthTables db
  reset_password now salt token fresh s =
      elim (check_reset now (db.resets.find_one (is_reset_for (c.sha256 token)) s.resets)) [
        | err e ↦ (err e, s)
        | ok reset ↦ elim (db.users.find_one (at_key user_key reset.user_id) s.users) [
          | none ↦ (err (bad_request "Посилання недійсне або застаріло."), s)
          | some user ↦ (
            ok user,
            end_where db c (of_user user.id)
                (mark_used now reset.id (set_password user.id (c.hash salt fresh) s)),
          )
        ]
      ]

  -- The loop over the account's sessions.
  unfoldable pub end_others :
      Option String → List RefreshSession → db.sessions.Table → db.sessions.Table
  end_others keep [] t = t
  end_others keep (session ∷ sessions) t =
      end_others keep sessions
        (if is_kept c keep session then t else db.sessions.delete (at_key session_key session.id) t)

  unfoldable pub change_password :
      ℕ → String → String → String → Option String → AuthTables db → Result User × AuthTables db
  unfolding end_others
  change_password id salt current fresh keep s =
      elim (check_change c current fresh (db.users.find_one (at_key user_key id) s.users)) [
        | err e ↦ (err e, s)
        | ok user ↦
            let s' = set_password user.id (c.hash salt fresh) s in
            (
              ok user,
              record s' {
                sessions =
                    end_others keep (db.sessions.find (of_user user.id) s'.sessions) s'.sessions;
              },
            )
      ]
