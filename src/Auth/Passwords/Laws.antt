-- ===== src/Auth/Passwords/Laws.antt =====
-- What a change of password does to the sessions.
use gall_pr.Common.{
  ℕ, ◌≡◌, refl, sym, ap, subst, inl, inr, String, Bool, true, false, not, ◌&&◌, ◌||◌, Option, List,
  [], ◌∷◌, Result, ok, err, arith, Bool-cases, Result-cases, ok-injective, ◌==◌, All, ◌≢◌, ◌⊎◌,
  none, some, Option-cases, str_eq, eq_iff, non_empty,
}
use gall_pr.Common.Rows.{at_key, keep, discard}
use gall_pr.Auth.{Crypto}
use gall_pr.Auth.Sessions.{given}
use gall_pr.Auth.Entities.{
  User, RefreshSession, AuthDatabase, AuthTables, user_key, session_key, of_user,
}
use gall_pr.Auth.Passwords.{check_change, is_kept, set_password, end_others, change_password}

module _ (c : Crypto) (kept_token : Option String) (user : ℕ) where
  -- A session that is not kept and that the loop will still come to.
  abbrev is_ahead : List RefreshSession → RefreshSession → Bool
  is_ahead [] r = false
  is_ahead (x ∷ xs) r = (not (is_kept c kept_token x) && (r.id == x.id)) || is_ahead xs r

  -- Another account's session, the kept one, or one that the loop will still end.
  abbrev IsDue : List RefreshSession → RefreshSession → Type 0
  IsDue xs r = not (of_user user r) || is_kept c kept_token r || is_ahead xs r ≡ true

  IsDue-cons :
      (x : RefreshSession) (xs rows : List RefreshSession)
      → All (IsDue xs) rows
      → All (IsDue (x ∷ xs)) rows
  IsDue-cons x xs [] h = tt
  IsDue-cons x xs (r ∷ rs) (p, h) = (ground (arith, p), IsDue-cons x xs rs h)

  all_ahead : (rows : List RefreshSession) → All (IsDue (keep (of_user user) rows)) rows
  unfolding keep
  all_ahead [] = tt
  all_ahead (x ∷ xs) = elim (Bool-cases (of_user user x)) [
    | inl mine ↦
        let e : keep (of_user user) (x ∷ xs) ≡ x ∷ keep (of_user user) xs = rw (mine, keep) refl in
        subst (λ ys. All (IsDue ys) (x ∷ xs)) (sym e)
          (ground arith, IsDue-cons x _ xs (all_ahead xs))
    | inr other ↦
        let e : keep (of_user user) (x ∷ xs) ≡ keep (of_user user) xs = rw (other, keep) refl in
        subst (λ ys. All (IsDue ys) (x ∷ xs)) (sym e) (ground (arith, other), all_ahead xs)
  ]

  skip_lem :
      (x : RefreshSession) (xs rows : List RefreshSession)
      → is_kept c kept_token x ≡ true
      → All (IsDue (x ∷ xs)) rows
      → All (IsDue xs) rows
  skip_lem x xs [] kept h = tt
  skip_lem x xs (r ∷ rs) kept (p, h) = (ground (arith, p, kept), skip_lem x xs rs kept h)

  end_lem :
      (x : RefreshSession) (xs rows : List RefreshSession)
      → All (IsDue (x ∷ xs)) rows
      → All (IsDue xs) (discard (at_key session_key x.id) rows)
  unfolding discard
  end_lem x xs [] h = tt
  end_lem x xs (r ∷ rs) (p, h) = elim (Bool-cases (at_key session_key x.id r)) [
    | inl gone ↦ rw (gone, discard) (end_lem x xs rs h)
    | inr stays ↦ rw (stays, discard) (ground (arith, p, stays), end_lem x xs rs h)
  ]

-- The session is another account's, or a token was sent that is not empty and whose hash it holds.
abbrev pub IsOnlyKept : Crypto → Option String → ℕ → RefreshSession → Type 0
IsOnlyKept c kept_token user r =
    (r.user_id ≢ user)
    ⊎ ((token : String) × (kept_token ≡ some token)
        × (token ≢ "")
        × (r.token_hash ≡ c.sha256 token))

given-some : (o : Option String) (t : String) → given o ≡ some t → (o ≡ some t) × (t ≢ "")
unfolding non_empty
given-some none t h = absurd (cc h)
given-some (some String.[]) t h = absurd (cc h)
given-some (some (String.◌∷◌ x s)) t h = (h, λ e. absurd (cc (h, e)))

is_kept-token :
    (c : Crypto) (kept_token : Option String) (r : RefreshSession)
    → is_kept c kept_token r ≡ true
    → (token : String) × (kept_token ≡ some token) × (token ≢ "") × (r.token_hash ≡ c.sha256 token)
unfolding is_kept
is_kept-token c kept_token r h = elim (Option-cases (given kept_token)) [
  | inl missing ↦ let h' : false ≡ true = rw (is_kept, missing) at h in absurd (cc h')
  | inr (t, e) ↦
      let h' : str_eq r.token_hash (c.sha256 t) ≡ true = rw (is_kept, e) at h in
      let (sent, filled) = given-some kept_token t e in (t, sent, filled, (eq_iff _ _).0 h')
]

only_kept :
    (c : Crypto) (kept_token : Option String) (user : ℕ) (r : RefreshSession)
    → not (of_user user r) || is_kept c kept_token r ≡ true
    → IsOnlyKept c kept_token user r
only_kept c kept_token user r h = elim (Bool-cases (of_user user r)) [
  | inl mine ↦ inr (is_kept-token c kept_token r (ground (arith, h, mine)))
  | inr other ↦ inl (λ e. ground (arith, other, e))
]

finished :
    (c : Crypto) (kept_token : Option String) (user : ℕ) (rows : List RefreshSession)
    → All (IsDue c kept_token user []) rows
    → All (IsOnlyKept c kept_token user) rows
finished c kept_token user [] h = tt
finished c kept_token user (r ∷ rs) (p, h) =
    (only_kept c kept_token user r (ground (arith, p)), finished c kept_token user rs h)

module _ (db : AuthDatabase) (c : Crypto) where
  abbrev Answer : Type 0
  Answer = Result User × AuthTables db

  end_others_lem :
      (kept_token : Option String) (user : ℕ) (xs : List RefreshSession) (t : db.sessions.Table)
      → All (IsDue c kept_token user xs) (db.sessions.rows t)
      → All (IsOnlyKept c kept_token user) (db.sessions.rows (end_others db c kept_token xs t))
  unfolding end_others
  end_others_lem kept_token user [] t h = finished c kept_token user (db.sessions.rows t) h
  end_others_lem kept_token user (x ∷ xs) t h = elim (Bool-cases (is_kept c kept_token x)) [
    | inl kept ↦
        rw (kept, end_others)
          (end_others_lem kept_token user xs t
            (skip_lem c kept_token user x xs (db.sessions.rows t) kept h))
    | inr ended ↦
        rw (ended, end_others)
          (end_others_lem kept_token user xs _ (
            subst (All (IsDue c kept_token user xs)) (sym (db.sessions.rows-delete _ t))
              (end_lem c kept_token user x xs (db.sessions.rows t) h)))
  ]

  -- A change of password that succeeds leaves the account no session but those that hold the hash
  -- of the token, not empty, that the request came with; when it came with none, it leaves no
  -- session.
  pub change_password-IsOnlyKept :
      (id : ℕ) (salt current fresh : String) (kept_token : Option String) (s s' : AuthTables db)
      (user : User)
      → change_password db c id salt current fresh kept_token s ≡ (ok user, s')
      → All (IsOnlyKept c kept_token user.id) (db.sessions.rows s'.sessions)
  unfolding change_password
  change_password-IsOnlyKept id salt current fresh kept_token s s' user h =
      elim (Result-cases
        (check_change c current fresh (db.users.find_one (at_key user_key id) s.users))) [
          | inl (f, e) ↦
              let h' : ◌≡◌ {A = Answer} (err f, s) (ok user, s') = rw (e, change_password) at h in
              absurd (cc (ap (λ (x : Answer). x.0) h'))
          | inr (found, e) ↦
              let h' : ◌≡◌ {A = Answer} (changed found) (ok user, s') =
                rw (e, change_password) at h in
              let same : found ≡ user = ok-injective (ap (λ (x : Answer). x.0) h') in
              let start =
                subst (λ xs. All (IsDue c kept_token found.id xs) (db.sessions.rows s.sessions))
                  (sym (db.sessions.find_lem (of_user found.id) s.sessions))
                  (all_ahead c kept_token found.id (db.sessions.rows s.sessions)) in
              subst
                (λ (x : User). All (IsOnlyKept c kept_token x.id) (db.sessions.rows s'.sessions))
                same
                (subst
                  (λ (x : Answer).
                    All (IsOnlyKept c kept_token found.id) (db.sessions.rows x.1.sessions))
                  h' (end_others_lem kept_token found.id _ s.sessions start))
        ]
    where
      changed : User → Answer
      changed found =
          let t = set_password db c found.id (c.hash salt fresh) s in
          (
            ok found,
            record t {
              sessions =
                  end_others db c kept_token (db.sessions.find (of_user found.id) t.sessions)
                    t.sessions;
            },
          )
