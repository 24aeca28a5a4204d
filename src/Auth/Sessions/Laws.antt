-- ===== src/Auth/Sessions/Laws.antt =====
-- What presenting a refresh token does to the sessions.
use gall_pr.Common.{
  ℕ, ◌+◌, ◌==◌, ◌&&◌, ◌<◌, ◌≡◌, refl, sym, ap, subst, ◌∙◌, inl, inr, ◌⊎◌, String, Bool, true, false,
  not, Option, none, some, List, [], ◌∷◌, Result, ok, err, leb, non_empty, arith, if◌then◌else◌,
  Bool-cases, Option-cases, ok-injective, some_eq, str_eq,
}
use gall_pr.Common.Rows.{at_key, first, keep, discard, change, count, keep-discard}
use gall_pr.Auth.{Crypto, TokenPair, invalid_refresh, sign_tokens}
use gall_pr.Auth.Entities.{
  User, RefreshSession, AuthDatabase, AuthTables, user_key, session_key, of_user, holds,
  this_session,
}
use gall_pr.Auth.Sessions.{rotated, end_where, rotate, refresh_verified, refresh}

present_lem : (s : String) → (non_empty s ≡ none) ⊎ (non_empty s ≡ some s)
unfolding non_empty
present_lem String.[] = inl refl
present_lem (String.◌∷◌ x s) = inr refl

module _ {A : Type 0} where
  pub unless_true : (b : Bool) (x y : A) → b ≡ true → (if not b then x else y) ≡ y
  unless_true b x y h = rw h refl

  pub unless_false : (b : Bool) (x y : A) → b ≡ false → (if not b then x else y) ≡ x
  unless_false b x y h = rw h refl

module _ (db : AuthDatabase) (c : Crypto) where
  abbrev rows_of : AuthTables db → List RefreshSession
  rows_of s = db.sessions.rows s.sessions

  refresh-refresh_verified :
      (now sub : ℕ) (jwtid token : String) (s : AuthTables db)
      → non_empty token ≡ some token
      → c.verify_refresh now token ≡ some sub
      → refresh db c now jwtid (some token) s
        ≡ refresh_verified db c now jwtid sub (c.sha256 token) s
  unfolding refresh
  refresh-refresh_verified now sub jwtid token s present verified =
      rw (refresh, present, verified) refl

  refresh_verified_unknown :
      (now sub : ℕ) (jwtid hash : String) (s : AuthTables db)
      → first (holds hash) (rows_of s) ≡ none
      → refresh_verified db c now jwtid sub hash s
        ≡ (err invalid_refresh, end_where db c (of_user sub) s)
  unfolding refresh_verified
  refresh_verified_unknown now sub jwtid hash s unknown =
      rw (refresh_verified, db.sessions.find_one_lem (holds hash) s.sessions, unknown) refl

  -- A refresh token that verifies and that no session holds is refused, and ends every session of
  -- the account that it was issued to and no other session.
  pub refresh_reused :
      (now sub : ℕ) (jwtid token : String) (s : AuthTables db)
      → non_empty token ≡ some token
      → c.verify_refresh now token ≡ some sub
      → first (holds (c.sha256 token)) (rows_of s) ≡ none
      → ((refresh db c now jwtid (some token) s).0 ≡ err invalid_refresh)
        × (rows_of (refresh db c now jwtid (some token) s).1 ≡ discard (of_user sub) (rows_of s))
        × (keep (of_user sub) (rows_of (refresh db c now jwtid (some token) s).1) ≡ [])
  refresh_reused now sub jwtid token s present verified unknown =
      let e =
        refresh-refresh_verified now sub jwtid token s present verified
        ∙ refresh_verified_unknown now sub jwtid (c.sha256 token) s unknown in
      let gone : rows_of (refresh db c now jwtid (some token) s).1
          ≡ discard (of_user sub) (rows_of s) =
        ap (λ (x : Result (TokenPair × User) × AuthTables db). rows_of x.1) e
        ∙ db.sessions.rows-delete (of_user sub) s.sessions in
      (
        ap (λ (x : Result (TokenPair × User) × AuthTables db). x.0) e,
        gone,
        rw gone (keep-discard (of_user sub) (rows_of s)),
      )

  -- The row of the session that held the hash holds the one of the new token, for thirty days from
  -- now; every other row is as it was.
  abbrev pub IsRotated :
      ℕ → ℕ → String → TokenPair → List RefreshSession → List RefreshSession → Type 0
  IsRotated now id hash tokens before after =
      after
      ≡ change (λ r. r.id == id && str_eq r.token_hash hash)
          (λ r. record {
            id = r.id;
            user_id = r.user_id;
            token_hash = c.sha256 tokens.refresh_token;
            expires_at = now + 2592000000;
            user_agent = r.user_agent;
          })
          before

  -- What a refresh that succeeds has found and done.
  pub record Refreshed (now : ℕ) (jwtid hash : String) (s : AuthTables db) (tokens : TokenPair)
      (user : User) (s' : AuthTables db) : Type 0 where
    pub session : RefreshSession
    pub held : first (holds hash) (rows_of s) ≡ some session
    pub live : now < session.expires_at
    pub owner : db.users.find_one (at_key user_key session.user_id) s.users ≡ some user
    pub active : user.is_active ≡ true
    pub changed : IsRotated now session.id hash tokens (rows_of s) (rows_of s')
    pub access : tokens.access_token ≡ c.sign_access now user
    pub renewed : tokens.refresh_token ≡ c.sign_refresh now jwtid user
    pub same_users : s'.users ≡ s.users
    pub same_resets : s'.resets ≡ s.resets

  abbrev Answer : Type 0
  Answer = Result (TokenPair × User) × AuthTables db

  rotate_lem :
      (now : ℕ) (jwtid hash : String) (session : RefreshSession) (owner : Option User)
      (s s' : AuthTables db) (tokens : TokenPair) (user : User)
      → rotate db c now jwtid hash session owner s ≡ (ok (tokens, user), s')
      → (owner ≡ some user)
        × (user.is_active ≡ true)
        × IsRotated now session.id hash tokens (rows_of s) (rows_of s')
        × (tokens ≡ sign_tokens c now jwtid user)
        × (s'.users ≡ s.users)
        × (s'.resets ≡ s.resets)
  unfolding rotate
  rotate_lem now jwtid hash session none s s' tokens user h =
      absurd (cc (ap (λ (x : Answer). x.0) h))
  rotate_lem now jwtid hash session (some found) s s' tokens user h =
      elim (Bool-cases found.is_active) [
        | inl active ↦
            let h' : ◌≡◌ {A = Answer}
                (
                  ok (sign_tokens c now jwtid found, found),
                  record s {
                    sessions =
                        db.sessions.update (this_session session.id hash)
                          (rotated c now (sign_tokens c now jwtid found)) s.sessions;
                  },
                )
                (ok (tokens, user), s') =
              sym (unless_true found.is_active _ _ active) ∙ h in
            let pair = ok-injective (ap (λ (x : Answer). x.0) h') in
            let same : found ≡ user = ap (λ (x : TokenPair × User). x.1) pair in
            let signed : sign_tokens c now jwtid found ≡ tokens =
              ap (λ (x : TokenPair × User). x.0) pair in
            (
              ap some same,
              subst (λ (u : User). u.is_active ≡ true) same active,
              rw (← signed) (
                  sym (ap (λ (x : Answer). rows_of x.1) h')
                  ∙ db.sessions.rows-update _ _ s.sessions),
              sym signed ∙ ap (sign_tokens c now jwtid) same,
              sym (ap (λ (x : Answer). x.1.users) h'),
              sym (ap (λ (x : Answer). x.1.resets) h'),
            )
        | inr stopped ↦
            let h' : ◌≡◌ {A = Answer} (err invalid_refresh, end_where db c (of_user found.id) s)
                (ok (tokens, user), s') =
              sym (unless_false found.is_active _ _ stopped) ∙ h in
            absurd (cc (ap (λ (x : Answer). x.0) h'))
      ]

  refresh_verified_lem :
      (now sub : ℕ) (jwtid hash : String) (s s' : AuthTables db) (tokens : TokenPair) (user : User)
      → refresh_verified db c now jwtid sub hash s ≡ (ok (tokens, user), s')
      → Refreshed now jwtid hash s tokens user s'
  unfolding refresh_verified
  refresh_verified_lem now sub jwtid hash s s' tokens user h =
      elim (Option-cases (db.sessions.find_one (holds hash) s.sessions)) [
        | inl missing ↦
            let h' : ◌≡◌ {A = Answer} (err invalid_refresh, end_where db c (of_user sub) s)
                (ok (tokens, user), s') =
              rw (missing, refresh_verified) at h in
            absurd (cc (ap (λ (x : Answer). x.0) h'))
        | inr (session, e) ↦ elim (Bool-cases (leb session.expires_at now)) [
          | inl over ↦
              let h' : ◌≡◌ {A = Answer}
                  (err invalid_refresh, end_where db c (at_key session_key session.id) s)
                  (ok (tokens, user), s') =
                rw (e, over, refresh_verified) at h in
              absurd (cc (ap (λ (x : Answer). x.0) h'))
          | inr live ↦
              let h' : rotate db c now jwtid hash session
                    (db.users.find_one (at_key user_key session.user_id) s.users) s
                  ≡ (ok (tokens, user), s') =
                rw (e, live, refresh_verified) at h in
              let (owner, active, changed, signed, users, resets) =
                rotate_lem now jwtid hash session _ s s' tokens user h' in
              record {
                session = session;
                held = sym (db.sessions.find_one_lem (holds hash) s.sessions) ∙ e;
                live = ground (arith, live);
                owner = owner;
                active = active;
                changed = changed;
                access = ap (λ (p : TokenPair). p.access_token) signed;
                renewed = ap (λ (p : TokenPair). p.refresh_token) signed;
                same_users = users;
                same_resets = resets;
              }
        ]
      ]

  -- A refresh that succeeds found the token in a session that has not expired, of an account that
  -- is active, and signed the pair that it returns for this account; the row of this session then
  -- holds the hash of the new refresh token for thirty days from now, and every other session, the
  -- accounts and the reset links are as they were.
  pub refresh-Refreshed :
      (now : ℕ) (jwtid token : String) (s s' : AuthTables db) (tokens : TokenPair) (user : User)
      → refresh db c now jwtid (some token) s ≡ (ok (tokens, user), s')
      → Refreshed now jwtid (c.sha256 token) s tokens user s'
  unfolding refresh
  refresh-Refreshed now jwtid token s s' tokens user h = elim (present_lem token) [
    | inl empty ↦
        let h' : ◌≡◌ {A = Answer} (err invalid_refresh, s) (ok (tokens, user), s') =
          rw (refresh, empty) at h in
        absurd (cc (ap (λ (x : Answer). x.0) h'))
    | inr present ↦ elim (Option-cases (c.verify_refresh now token)) [
      | inl forged ↦
          let h' : ◌≡◌ {A = Answer} (err invalid_refresh, s) (ok (tokens, user), s') =
            rw (refresh, present, forged) at h in
          absurd (cc (ap (λ (x : Answer). x.0) h'))
      | inr (sub, verified) ↦
          refresh_verified_lem now sub jwtid (c.sha256 token) s s' tokens user
            (sym (refresh-refresh_verified now sub jwtid token s present verified) ∙ h)
    ]
  ]

  none_held :
      (hash : String) (id : ℕ) (g : RefreshSession → RefreshSession) (rows : List RefreshSession)
      → count (holds hash) rows ≡ 0
      → first (holds hash) (change (this_session id hash) g rows) ≡ none
  unfolding count first change
  none_held hash id g [] h = refl
  none_held hash id g (x ∷ xs) h = ground (arith, none_held hash id g xs)

  -- With the table's unique index on the hash, the hash that was rotated away is in no session.
  rotated_away :
      (hash : String) (tokens : TokenPair) (now : ℕ) (session : RefreshSession)
      (rows : List RefreshSession)
      → count (holds hash) rows ≡ 1
      → first (holds hash) rows ≡ some session
      → str_eq (c.sha256 tokens.refresh_token) hash ≡ false
      → first (holds hash) (change (this_session session.id hash) (rotated c now tokens) rows)
        ≡ none
  unfolding count first change
  rotated_away hash tokens now session [] once held other = refl
  rotated_away hash tokens now session (x ∷ xs) once held other = elim (Bool-cases (holds hash x)) [
    | inl mine ↦
        let same : x ≡ session = some_eq (rw (mine, first) at held) in
        let id = ap (λ (r : RefreshSession). r.id) same in
        let rest =
          none_held hash session.id (rotated c now tokens) xs (ground (arith, mine, once)) in
        ground (arith, mine, id, rest, other)
    | inr not_mine ↦
        let rest =
          rotated_away hash tokens now session xs (ground (arith, not_mine, once))
            (rw (not_mine, first) at held) other in
        ground (arith, not_mine, rest)
  ]

  -- After a refresh that succeeds, presenting the old token again while it still verifies is
  -- refused and leaves the account that it names without a session, provided the hash stood in one
  -- row and the hash of the new token is another.
  pub replay_refused :
      (now later sub : ℕ) (jwtid jwtid' token : String) (s s' : AuthTables db) (tokens : TokenPair)
      (user : User)
      → non_empty token ≡ some token
      → c.verify_refresh later token ≡ some sub
      → count (holds (c.sha256 token)) (rows_of s) ≡ 1
      → str_eq (c.sha256 tokens.refresh_token) (c.sha256 token) ≡ false
      → refresh db c now jwtid (some token) s ≡ (ok (tokens, user), s')
      → ((refresh db c later jwtid' (some token) s').0 ≡ err invalid_refresh)
        × (keep (of_user sub) (rows_of (refresh db c later jwtid' (some token) s').1) ≡ [])
  replay_refused now later sub jwtid jwtid' token s s' tokens user present verified once other h =
      let r = refresh-Refreshed now jwtid token s s' tokens user h in
      let unknown =
        ap (first (holds (c.sha256 token))) r.changed
        ∙ rotated_away (c.sha256 token) tokens now r.session (rows_of s) once r.held other in
      let (refused, _, ended) = refresh_reused later sub jwtid' token s' present verified unknown in
      (refused, ended)
