-- ===== src/Auth/Passwords/Links.antt =====
-- What a link that sets a new password does, and how many there are.
use gall_pr.Common.{
  ℕ, ◌≡◌, refl, sym, ap, subst, ◌∙◌, inl, inr, String, Bool, true, false, not, Option, none, some,
  List, [], ◌∷◌, ◌++◌, Result, ok, err, bad_request, crashed, if◌then◌else◌, arith, Bool-cases,
  Option-cases, Result-cases, ok-injective, some_eq, trim,
}
use gall_pr.Common.Rows.{count, at_key, first, keep, discard, change, keep-discard}
use gall_pr.Auth.{Crypto}
use gall_pr.Auth.Entities.{
  User, PasswordReset, AuthDatabase, AuthTables, user_key, reset_key, of_user, is_reset_for,
  is_reset_of, has_email,
}
use gall_pr.Auth.Sessions.{end_where}
use gall_pr.Auth.Sessions.Laws.{unless_true, unless_false}
use gall_pr.Auth.Passwords.{
  stale_link, new_reset, request_password_reset, check_reset, set_password, mark_used,
  reset_password,
}

check_reset_lem :
    (now : ℕ) (o : Option PasswordReset) (r : PasswordReset) → check_reset now o ≡ ok r → o ≡ some r
unfolding check_reset
check_reset_lem now none r h = cc
check_reset_lem now (some x) r h = ground arith

module _ (db : AuthDatabase) (c : Crypto) where
  abbrev Answer : Type 0
  Answer = Result User × AuthTables db

  first-change-first :
      (w : PasswordReset → Bool) (g : PasswordReset → PasswordReset) (r : PasswordReset)
      (xs : List PasswordReset)
      → ((x : PasswordReset) → w (g x) ≡ w x)
      → first w xs ≡ some r
      → first w (change (at_key reset_key r.id) g xs) ≡ some (g r)
  unfolding first change
  first-change-first w g r [] same h = absurd (cc h)
  first-change-first w g r (x ∷ xs) same h = elim (Bool-cases (w x)) [
    | inl hit ↦
        let e : x ≡ r = some_eq (rw (hit, first) at h) in
        let id = ap (λ (y : PasswordReset). y.id) e in
        let hit' : w (g x) ≡ true = same x ∙ hit in
        let here : at_key reset_key r.id x ≡ true = ground (arith, id) in
        rw (here, hit') (ap (λ y. some (g y)) e)
    | inr miss ↦
        let rest = first-change-first w g r xs same (rw (miss, first) at h) in
        let miss' : w (g x) ≡ false = same x ∙ miss in
        elim (Bool-cases (at_key reset_key r.id x)) [
          | inl there ↦ rw (there, miss') rest
          | inr there ↦ rw (there, miss) rest
        ]
  ]

  -- The tables after a link has set a password.
  abbrev spent : ℕ → String → PasswordReset → User → AuthTables db → AuthTables db
  spent now hash reset user s =
      end_where db c (of_user user.id)
        (mark_used db c now reset.id (set_password db c user.id hash s))

  reset_password_lem :
      (now : ℕ) (salt token fresh : String) (s s' : AuthTables db) (user : User)
      → reset_password db c now salt token fresh s ≡ (ok user, s')
      → (reset : PasswordReset) × (first (is_reset_for (c.sha256 token)) (db.resets.rows s.resets)
          ≡ some reset)
        × (spent now (c.hash salt fresh) reset user s ≡ s')
  unfolding reset_password
  reset_password_lem now salt token fresh s s' user h =
      elim (Result-cases
        (check_reset now (db.resets.find_one (is_reset_for (c.sha256 token)) s.resets))) [
          | inl (f, e) ↦
              let h' : ◌≡◌ {A = Answer} (err f, s) (ok user, s') = rw (e, reset_password) at h in
              absurd (cc (ap (λ (x : Answer). x.0) h'))
          | inr (reset, e) ↦
              elim (Option-cases (db.users.find_one (at_key user_key reset.user_id) s.users)) [
                | inl missing ↦
                    let h' : ◌≡◌ {A = Answer}
                        (err (bad_request "Посилання недійсне або застаріло."), s) (ok user, s') =
                      rw (e, missing, reset_password) at h in
                    absurd (cc (ap (λ (x : Answer). x.0) h'))
                | inr (found, u) ↦
                    let h' : ◌≡◌ {A = Answer}
                        (ok found, spent now (c.hash salt fresh) reset found s) (ok user, s') =
                      rw (e, u, reset_password) at h in
                    let same : found ≡ user = ok-injective (ap (λ (x : Answer). x.0) h') in
                    (
                      reset,
                      sym (db.resets.find_one_lem _ s.resets) ∙ check_reset_lem now _ reset e,
                      ap (λ x. spent now (c.hash salt fresh) reset x s) (sym same)
                          ∙ ap (λ (x : Answer). x.1) h',
                    )
              ]
        ]

  -- A reset link works once: after it has set a password no session of the account is left, and a
  -- second use is refused and changes nothing.
  pub reset_password_once :
      (now later : ℕ) (salt salt' token fresh fresh' : String) (s s' : AuthTables db) (user : User)
      → reset_password db c now salt token fresh s ≡ (ok user, s')
      → (keep (of_user user.id) (db.sessions.rows s'.sessions) ≡ [])
        × (reset_password db c later salt' token fresh' s' ≡ (err stale_link, s'))
  unfolding reset_password check_reset
  reset_password_once now later salt salt' token fresh fresh' s s' user h =
      let (reset, found, done) = reset_password_lem now salt token fresh s s' user h in
      let hash = c.hash salt fresh in
      let ended = db.sessions.rows-delete (of_user user.id) s.sessions in
      let used =
        db.resets.find_one_lem (is_reset_for (c.sha256 token)) (spent now hash reset user s).resets
        ∙ ap (first (is_reset_for (c.sha256 token))) (db.resets.rows-update _ _ s.resets)
        ∙ first-change-first (is_reset_for (c.sha256 token)) (λ r. record r { used_at = some now })
            reset (db.resets.rows s.resets) (λ x. refl) found in
      subst
        (λ t.
          (keep (of_user user.id) (db.sessions.rows t.sessions) ≡ [])
          × (reset_password db c later salt' token fresh' t ≡ (err stale_link, t)))
        done
        (
          rw ended (keep-discard (of_user user.id) (db.sessions.rows s.sessions)),
          rw (reset_password, used, check_reset) refl,
        )

  one_left :
      (w : PasswordReset → Bool) (r : PasswordReset) (xs : List PasswordReset)
      → w r ≡ true
      → count w (discard w xs ++ r ∷ []) ≡ 1
  unfolding count discard
  one_left w r [] h = rw h refl
  one_left w r (x ∷ xs) h = elim (Bool-cases (w x)) [
    | inl gone ↦ rw (gone, discard) (one_left w r xs h)
    | inr stays ↦ rw (stays, discard, count) (rw (stays, count) (one_left w r xs h))
  ]

  insert-one_left :
      (now user : ℕ) (token : String) (t t' : db.resets.Table) (r : PasswordReset)
      → db.resets.insert (new_reset c now token user) (db.resets.delete (is_reset_of user) t)
        ≡ some (r, t')
      → count (is_reset_of user) (db.resets.rows t') ≡ 1
  insert-one_left now user token t t' r h =
      let (rows, shape, fresh) = db.resets.rows-insert _ _ t' r h in
      let mine = ap (λ (x : PasswordReset). x.user_id) shape in
      rw (rows, db.resets.rows-delete (is_reset_of user) t)
        (one_left (is_reset_of user) r (db.resets.rows t) (ground (arith, mine)))

  abbrev Sent : Type 0
  Sent = Result (Option User) × AuthTables db

  abbrev send_link : ℕ → String → User → AuthTables db → Sent
  send_link now token user s =
      let resets = db.resets.delete (is_reset_of user.id) s.resets in
      elim (db.resets.insert (new_reset c now token user.id) resets) [
        | none ↦ (err (crashed "the reset could not be inserted"), record s { resets = resets })
        | some (row, resets') ↦ (ok (some user), record s { resets = resets' })
      ]

  send_link_lem :
      (now : ℕ) (token : String) (found user : User) (s s' : AuthTables db)
      → send_link now token found s ≡ (ok (some user), s')
      → (found ≡ user) × (count (is_reset_of found.id) (db.resets.rows s'.resets) ≡ 1)
  send_link_lem now token found user s s' h =
      elim (Option-cases (
        db.resets.insert (new_reset c now token found.id)
          (db.resets.delete (is_reset_of found.id) s.resets))) [
            | inl lost ↦
                let h' : ◌≡◌ {A = Sent}
                    (
                      err (crashed "the reset could not be inserted"),
                      record s { resets = db.resets.delete (is_reset_of found.id) s.resets },
                    )
                    (ok (some user), s') =
                  rw (lost, send_link) at h in
                absurd (cc (ap (λ (x : Sent). x.0) h'))
            | inr ((r, t'), e) ↦
                let h' : ◌≡◌ {A = Sent} (ok (some found), record s { resets = t' })
                    (ok (some user), s') =
                  rw (e, send_link) at h in
                (
                  some_eq (ok-injective (ap (λ (x : Sent). x.0) h')),
                  subst (λ (x : Sent). count (is_reset_of found.id) (db.resets.rows x.1.resets) ≡ 1)
                      h' (insert-one_left now found.id token s.resets t' r e),
                )
          ]

  -- When a reset link is sent, its account is active and has one link: the links of before are
  -- gone.
  pub request_password_reset-one_link :
      (now : ℕ) (token email : String) (s s' : AuthTables db) (user : User)
      → request_password_reset db c now token email s ≡ (ok (some user), s')
      → (user.is_active ≡ true) × (count (is_reset_of user.id) (db.resets.rows s'.resets) ≡ 1)
  unfolding request_password_reset
  request_password_reset-one_link now token email s s' user h =
      elim (Option-cases (db.users.find_one (has_email (c.lower_case (trim email))) s.users)) [
        | inl missing ↦
            let h' : ◌≡◌ {A = Sent} (ok none, s) (ok (some user), s') =
              rw (missing, request_password_reset) at h in
            absurd (cc (ok-injective (ap (λ (x : Sent). x.0) h')))
        | inr (found, e) ↦
            let h' : (if not found.is_active then (ok none, s) else send_link now token found s)
                ≡ (ok (some user), s') =
              rw (e, request_password_reset) at h in
            elim (Bool-cases found.is_active) [
              | inl active ↦
                  let (same, one) =
                    send_link_lem now token found user s s'
                      (sym (unless_true found.is_active _ _ active) ∙ h') in
                  subst
                    (λ (x : User).
                      (x.is_active ≡ true)
                      × (count (is_reset_of x.id) (db.resets.rows s'.resets) ≡ 1))
                    same (active, one)
              | inr stopped ↦
                  let h2 : ◌≡◌ {A = Sent} (ok none, s) (ok (some user), s') =
                    sym (unless_false found.is_active _ _ stopped) ∙ h' in
                  absurd (cc (ok-injective (ap (λ (x : Sent). x.0) h2)))
            ]
      ]
