-- ===== src/Settings/Link.antt =====
-- The code that links the administrator's Telegram.
use gall_pr.Common.{
  ℕ, ◌≡◌, refl, sym, ap, subst, ◌∙◌, ◌⊎◌, inl, inr, String, Bool, true, false, Option, none, some,
  List, [], ◌∷◌, leb, ◌==◌, ◌<◌, ◌≢◌, non_empty, eq_iff, arith, Bool-cases, Option-cases, some_eq,
  Result, ok, >>=-eq-ok, or_throw, or_throw-eq-ok, ok-injective,
}
use gall_pr.Common.Repository.{Repository}
use gall_pr.Common.Rows.{at_key, keep, put}
use gall_pr.Settings.{
  AppSettings, settings_key, default_row, older_of, lowest_row, is_valid_code, linked_to, find_row,
  create_default_row, holds_code, expires_after, created_or_raced, get,
  redeem_admin_telegram_link_code,
}

keep-all : (xs : List AppSettings) → keep (λ s. true) xs ≡ xs
unfolding keep
keep-all [] = refl
keep-all (x ∷ xs) = ap (λ ys. x ∷ ys) (keep-all xs)

older_of-cases :
    (x : AppSettings) (o : Option AppSettings)
    → ((older_of x o ≡ x) × ((t : AppSettings) → o ≡ some t → leb x.id t.id ≡ true))
      ⊎ ((t : AppSettings) × (o ≡ some t) × (leb x.id t.id ≡ false) × (older_of x o ≡ t))
older_of-cases x none = inl (refl, λ t e. absurd (cc e))
older_of-cases x (some t) = elim (Bool-cases (leb x.id t.id)) [
  | inl lower ↦ inl (rw lower refl, λ u e. subst (λ v. leb x.id v.id ≡ true) (some_eq e) lower)
  | inr higher ↦ inr (t, refl, higher, rw higher refl)
]

older_of-first :
    (x : AppSettings) (o : Option AppSettings)
    → ((t : AppSettings) → o ≡ some t → leb x.id t.id ≡ true)
    → older_of x o ≡ x
older_of-first x none least = refl
older_of-first x (some t) least = rw (least t refl) refl

-- Saving the row with the lowest id.
lowest_row-put :
    (xs : List AppSettings) (r old : AppSettings)
    → old.id ≡ r.id
    → lowest_row xs ≡ some old
    → lowest_row (put settings_key r xs) ≡ some r
unfolding lowest_row put
lowest_row-put [] r old e h = absurd (cc h)
lowest_row-put (x ∷ xs) r old e h =
    let mine : older_of x (lowest_row xs) ≡ old = some_eq h in
    elim (older_of-cases x (lowest_row xs)) [
      | inl (first, least) ↦
          let id : x.id ≡ r.id = ap (λ (s : AppSettings). s.id) (sym first ∙ mine) ∙ e in
          let hit : (x.id == r.id) ≡ true = ground (arith, id) in
          rw (put, hit)
            (ap some (
              older_of-first r (lowest_row xs)
                (λ t there. subst (λ k. leb k t.id ≡ true) id (least t there))))
      | inr (t, there, higher, last) ↦
          let same : t ≡ old = sym last ∙ mine in
          let id : t.id ≡ r.id = ap (λ (s : AppSettings). s.id) same ∙ e in
          let miss : (x.id == r.id) ≡ false = ground (arith, id, higher) in
          let rest = lowest_row-put xs r old e (there ∙ ap some same) in
          let over : leb x.id r.id ≡ false = ground (arith, id, higher) in
          rw (put, miss) (rw rest (rw over refl))
    ]

-- The row waits for this code, which is not empty, until a time that has not come.
abbrev pub Awaits : ℕ → String → AppSettings → Type 0
Awaits now code s =
    (s.admin_telegram_link_code ≡ some code)
    × (code ≢ "")
    × ((until : ℕ) × (s.admin_telegram_link_code_expires_at ≡ some until) × (now < until))

-- The row names the chat and waits for no code.
abbrev pub Names : String → AppSettings → Type 0
Names chat r =
    (r.admin_telegram_chat_id ≡ chat)
    × (r.admin_telegram_link_code ≡ none)
    × (r.admin_telegram_link_code_expires_at ≡ none)

holds_code-eq :
    (o : Option String) (code : String) → holds_code o code ≡ true → (o ≡ some code) × (code ≢ "")
unfolding non_empty
holds_code-eq none code h = absurd (cc h)
holds_code-eq (some String.[]) code h = absurd (cc h)
holds_code-eq (some (String.◌∷◌ x e)) code h =
    let same : String.◌∷◌ x e ≡ code = (eq_iff _ _).0 h in
    (ap some same, λ empty. absurd (cc (same, empty)))

expires_after-eq :
    (o : Option ℕ) (now : ℕ)
    → expires_after o now ≡ true
    → (until : ℕ) × (o ≡ some until) × (now < until)
expires_after-eq none now h = absurd (cc h)
expires_after-eq (some until) now h = (until, refl, ground (arith, h))

is_valid_code-Awaits :
    (now : ℕ) (code : String) (s : AppSettings)
    → is_valid_code now code s ≡ true
    → Awaits now code s
unfolding is_valid_code
is_valid_code-Awaits now code s h = elim (Bool-cases (holds_code s.admin_telegram_link_code code)) [
  | inl same ↦
      let (e, filled) = holds_code-eq s.admin_telegram_link_code code same in
      (
        e,
        filled,
        expires_after-eq s.admin_telegram_link_code_expires_at now (ground (arith, h, same)),
      )
  | inr other ↦ absurd (cc (h, other))
]

module _ (repo : Repository settings_key) where
  find_row-eq : (t : repo.Table) → find_row repo t ≡ lowest_row (repo.rows t)
  unfolding find_row
  find_row-eq t = ap lowest_row (repo.find_lem (λ s. true) t ∙ keep-all (repo.rows t))

  -- The row that is saved is the row that is read.
  find_row-save :
      (t : repo.Table) (s r : AppSettings)
      → s.id ≡ r.id
      → find_row repo t ≡ some s
      → find_row repo (repo.save r t) ≡ some r
  find_row-save t s r id found =
      find_row-eq (repo.save r t)
      ∙ ap lowest_row (repo.rows-save r t)
      ∙ lowest_row-put (repo.rows t) r s id (sym (find_row-eq t) ∙ found)

  default-invalid : (now : ℕ) (code : String) → is_valid_code now code default_row ≡ false
  unfolding is_valid_code
  default-invalid now code = refl

  create_default_row-default :
      (t v : repo.Table) (row : AppSettings)
      → create_default_row repo (λ x. x) t ≡ some (row, v)
      → row ≡ default_row
  unfolding create_default_row
  create_default_row-default t v row h =
      elim (Option-cases (repo.find_one (at_key settings_key 1) t)) [
        | inl free ↦ elim (Bool-cases (repo.count_where (at_key settings_key 1) t == 0)) [
          | inl still ↦
              let h' : ◌≡◌ {A = Option (AppSettings × repo.Table)}
                  (some (default_row, repo.save default_row t)) (some (row, v)) =
                rw (create_default_row, free, still) at h in
              sym (ap (λ (x : AppSettings × repo.Table). x.0) (some_eq h'))
          | inr taken ↦
              let h' : ◌≡◌ {A = Option (AppSettings × repo.Table)} none (some (row, v)) =
                rw (create_default_row, free, taken) at h in
              absurd (cc h')
        ]
        | inr (old, there) ↦
            let h' : ◌≡◌ {A = Option (AppSettings × repo.Table)}
                (some (
                  default_row,
                  repo.save (record default_row { author_name_en = old.author_name_en }) t,
                ))
                (some (row, v)) =
              rw (create_default_row, there) at h in
            sym (ap (λ (x : AppSettings × repo.Table). x.0) (some_eq h'))
      ]

  created-default :
      (t u : repo.Table) (s : AppSettings) (o : Option (AppSettings × repo.Table))
      → create_default_row repo (λ x. x) t ≡ o
      → find_row repo t ≡ none
      → created_or_raced repo t o ≡ ok (s, u)
      → s ≡ default_row
  unfolding created_or_raced
  created-default t u s none e empty h =
      let (raced, found, last) = >>=-eq-ok (or_throw (find_row repo t) _) _ h in
      absurd (cc (sym empty ∙ or_throw-eq-ok _ _ found))
  created-default t u s (some (row, v)) e empty h =
      ap (λ (x : AppSettings × repo.Table). x.0) (sym (ok-injective h))
      ∙ create_default_row-default t v row e

  -- What a code that is taken is checked against is the row of the table.
  redeem-found :
      (now : ℕ) (code chat : String) (t t' : repo.Table)
      → redeem_admin_telegram_link_code repo now code chat t ≡ ok (true, t')
      → (s : AppSettings) × (find_row repo t ≡ some s)
        × (is_valid_code now code s ≡ true)
        × (repo.save (linked_to chat s) t ≡ t')
  unfolding redeem_admin_telegram_link_code get
  redeem-found now code chat t t' h =
      let ((s, u), got, last) = >>=-eq-ok (get repo (λ x. x) (λ x. x) t) _ h in
      elim (Bool-cases (is_valid_code now code s)) [
        | inr invalid ↦
            let h' : ◌≡◌ {A = Result (Bool × repo.Table)} (ok (false, u)) (ok (true, t')) =
              rw invalid at last in
            absurd (cc (ap (λ (x : Bool × repo.Table). x.0) (ok-injective h')))
        | inl valid ↦
            let h' : ◌≡◌ {A = Result (Bool × repo.Table)}
                (ok (true, repo.save (linked_to chat s) u)) (ok (true, t')) =
              rw valid at last in
            let saved : repo.save (linked_to chat s) u ≡ t' =
              ap (λ (x : Bool × repo.Table). x.1) (ok-injective h') in
            elim (Option-cases (find_row repo t)) [
              | inr (row, found) ↦
                  let g : ◌≡◌ {A = Result (AppSettings × repo.Table)} (ok (row, t)) (ok (s, u)) =
                    rw (get, found) at got in
                  let one : row ≡ s = ap (λ (x : AppSettings × repo.Table). x.0) (ok-injective g) in
                  let two : t ≡ u = ap (λ (x : AppSettings × repo.Table). x.1) (ok-injective g) in
                  (s, found ∙ ap some one, valid, ap (repo.save (linked_to chat s)) two ∙ saved)
              | inl empty ↦
                  let g : created_or_raced repo t (create_default_row repo (λ x. x) t) ≡ ok (s, u) =
                    rw (get, empty) at got in
                  let fresh = created-default t u s _ refl empty g in
                  absurd
                    (cc (sym valid ∙ ap (is_valid_code now code) fresh ∙ default-invalid now code))
            ]
      ]

  redeem-refused :
      (now : ℕ) (code chat : String) (t : repo.Table) (r : AppSettings)
      → find_row repo t ≡ some r
      → is_valid_code now code r ≡ false
      → redeem_admin_telegram_link_code repo now code chat t ≡ ok (false, t)
  unfolding redeem_admin_telegram_link_code get
  redeem-refused now code chat t r found invalid =
      rw (redeem_admin_telegram_link_code, get, found) (rw invalid refl)

  linked_to-invalid :
      (now : ℕ) (code chat : String) (s : AppSettings)
      → is_valid_code now code (linked_to chat s) ≡ false
  unfolding is_valid_code
  linked_to-invalid now code chat s = refl

  -- A code that links the administrator's Telegram and is taken is the code, not empty, that the
  -- row of settings waited for until a time that has not come; the row then names the chat and
  -- waits for no code, and no code is taken after it, by any chat at any time, until another one is
  -- made.
  pub redeem_once :
      (now : ℕ) (code chat : String) (t t' : repo.Table)
      → redeem_admin_telegram_link_code repo now code chat t ≡ ok (true, t')
      → ((s : AppSettings) × (find_row repo t ≡ some s) × Awaits now code s)
        × ((r : AppSettings) × (find_row repo t' ≡ some r) × Names chat r)
        × ((now' : ℕ) (code' chat' : String)
            → redeem_admin_telegram_link_code repo now' code' chat' t' ≡ ok (false, t'))
  redeem_once now code chat t t' h =
      let (s, found, valid, saved) = redeem-found now code chat t t' h in
      let there : find_row repo t' ≡ some (linked_to chat s) =
        subst (λ x. find_row repo x ≡ some (linked_to chat s)) saved
          (find_row-save t s (linked_to chat s) refl found) in
      (
        (s, found, is_valid_code-Awaits now code s valid),
        (linked_to chat s, there, (refl, refl, refl)),
        λ now' code' chat'.
            redeem-refused now' code' chat' t' (linked_to chat s) there
              (linked_to-invalid now' code' chat s),
      )
