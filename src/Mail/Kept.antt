-- ===== src/Mail/Kept.antt =====
-- What becomes of a letter in the outbox while other letters are sent and the outbox is drained.
use gall_pr.Common.{
  ℕ, ◌≡◌, refl, ap, subst, ◌∙◌, inl, inr, String, Bool, true, false, Option, none, some, List, [],
  ◌∷◌, ◌++◌, ◌==◌, ◌+◌, ◌-◌, not, ◌&&◌, get_elem?, if◌then◌else◌, Bool-cases, Option-cases, some_eq,
}
use gall_pr.Common.Rows.{at_key, by_key, change, first}
use gall_pr.Common.Repository.{Repository}
use gall_pr.Mail.{
  MailOutbox, MailStatus, MailKind, SendOptions, ComposedLetter, outbox_key, is_status, override,
  already_sent, outbox_row, queue, send,
}
use gall_pr.Mail.Dispatcher.{
  backoff_ms, is_stuck, claimable, claimed, rescheduled, outcome, release_stuck, attempt,
  attempt_all, run_drain,
}

by_key-change :
    (w : MailOutbox → Bool) (f : MailOutbox → MailOutbox) (id : ℕ) (xs : List MailOutbox)
    {m : MailOutbox}
    → ((x : MailOutbox) → (f x).id ≡ x.id)
    → by_key outbox_key id xs ≡ some m
    → by_key outbox_key id (change w f xs) ≡ some (if w m then f m else m)
unfolding by_key first change
by_key-change w f id [] same h = absurd (cc h)
by_key-change w f id (x ∷ xs) {m} same h = elim (Bool-cases (x.id == id)) [
  | inl here ↦
      let h' : some x ≡ some m = rw here at h in
      subst (λ y. by_key outbox_key id (change w f (x ∷ xs)) ≡ some (if w y then f y else y))
        (some_eq h')
        (elim (Bool-cases (w x)) [
          | inl hit ↦ rw (hit, same x, here) refl
          | inr miss ↦ rw (miss, here) refl
        ])
  | inr there ↦
      let h' : by_key outbox_key id xs ≡ some m = rw there at h in
      elim (Bool-cases (w x)) [
        | inl hit ↦ rw (hit, same x, there) (by_key-change w f id xs {m = m} same h')
        | inr miss ↦ rw (miss, there) (by_key-change w f id xs {m = m} same h')
      ]
]

by_key-append :
    (id : ℕ) (xs ys : List MailOutbox) {m : MailOutbox}
    → by_key outbox_key id xs ≡ some m
    → by_key outbox_key id (xs ++ ys) ≡ some m
unfolding by_key first
by_key-append id [] ys h = absurd (cc h)
by_key-append id (x ∷ xs) ys {m} h = elim (Bool-cases (x.id == id)) [
  | inl here ↦ let h' : some x ≡ some m = rw here at h in rw here h'
  | inr there ↦
      let h' : by_key outbox_key id xs ≡ some m = rw there at h in
      rw there (by_key-append id xs ys {m = m} h')
]

-- A letter of this kind about this order that is to be delivered, or was.
abbrev pub IsMeant : MailKind → ℕ → MailOutbox → Type 0
IsMeant kind order m =
    (m.kind ≡ kind) × (m.order_id ≡ some order) × (is_status m.status MailStatus.skipped ≡ false)

rescheduled-id :
    (now : ℕ) (message : String) (letter m : MailOutbox)
    → (rescheduled now message letter m).id ≡ m.id
unfolding rescheduled
rescheduled-id now message letter m =
    elim (Option-cases (get_elem? backoff_ms (letter.attempts + 1 - 1))) [
      | inl over ↦ rw (rescheduled, over) refl
      | inr (delay, left) ↦ rw (rescheduled, left) refl
    ]

outcome-id :
    (smtp : MailOutbox → Option String) (now : ℕ) (letter m : MailOutbox)
    → (outcome smtp now letter m).id ≡ m.id
unfolding outcome
outcome-id smtp now letter m = elim (Option-cases (smtp letter)) [
  | inl done ↦ rw (outcome, done) refl
  | inr (message, bounced) ↦ rw (outcome, bounced) (rescheduled-id now message letter m)
]

rescheduled-IsMeant :
    (kind : MailKind) (order now : ℕ) (message : String) (letter m : MailOutbox)
    → IsMeant kind order m
    → IsMeant kind order (rescheduled now message letter m)
unfolding rescheduled
rescheduled-IsMeant kind order now message letter m (k, o, s) =
    elim (Option-cases (get_elem? backoff_ms (letter.attempts + 1 - 1))) [
      | inl over ↦ rw (rescheduled, over) (k, o, refl)
      | inr (delay, left) ↦ rw (rescheduled, left) (k, o, refl)
    ]

outcome-IsMeant :
    (kind : MailKind) (order : ℕ) (smtp : MailOutbox → Option String) (now : ℕ)
    (letter m : MailOutbox)
    → IsMeant kind order m
    → IsMeant kind order (outcome smtp now letter m)
unfolding outcome
outcome-IsMeant kind order smtp now letter m (k, o, s) = elim (Option-cases (smtp letter)) [
  | inl done ↦ rw (outcome, done) (k, o, refl)
  | inr (message, bounced) ↦
      rw (outcome, bounced) (rescheduled-IsMeant kind order now message letter m (k, o, s))
]

whichever :
    {A B : Type 0} (P : B → Type 0) (preview known : Bool) (x y : Option A) (t : B)
    (z : Option A × B)
    → P t
    → P z.1
    → P (if preview then (x, t) else if known then (y, t) else z).1
whichever P true known x y t z p q = p
whichever P false true x y t z p q = p
whichever P false false x y t z p q = q

module _ (outbox : Repository outbox_key) where
  -- The outbox later on: letters are sent and drains run, in any order.
  pub data Goes (s : outbox.Table) : outbox.Table → Type 0 where
    begin : Goes s s
    posted :
        (html_to_text : String → String) (configured : Bool) (now : ℕ) (options : SendOptions)
        (letter : ComposedLetter) (order : Option ℕ) (t : outbox.Table)
        → Goes s t
        → Goes s (send outbox html_to_text configured now options letter order t).1
    drained :
        (smtp : MailOutbox → Option String) (now : ℕ) (t : outbox.Table)
        → Goes s t
        → Goes s (run_drain outbox smtp now t)

  module _ (kind : MailKind) (order id : ℕ) where
    -- The row under the id is such a letter.
    abbrev pub Kept : outbox.Table → Type 0
    Kept t =
        (m : MailOutbox) × (by_key outbox_key id (outbox.rows t) ≡ some m) × IsMeant kind order m

    update-Kept :
        (w : MailOutbox → Bool) (f : MailOutbox → MailOutbox) (t : outbox.Table)
        → ((x : MailOutbox) → (f x).id ≡ x.id)
        → ((x : MailOutbox) → IsMeant kind order x → IsMeant kind order (f x))
        → Kept t
        → Kept (outbox.update w f t)
    update-Kept w f t same keeps (m, there, meant) = (
      if w m then f m else m,
      ap (by_key outbox_key id) (outbox.rows-update w f t)
          ∙ by_key-change w f id (outbox.rows t) {m = m} same there,
      elim (Bool-cases (w m)) [ inl hit ↦ rw hit (keeps m meant) | inr miss ↦ rw miss meant ],
    )

    attempt-Kept :
        (smtp : MailOutbox → Option String) (now : ℕ) (letter : MailOutbox) (t : outbox.Table)
        → Kept t
        → Kept (attempt outbox smtp now letter t)
    unfolding attempt
    attempt-Kept smtp now letter t h =
        elim (Bool-cases (outbox.count_where (claimable letter.id) t == 0)) [
          | inl lost ↦ rw (attempt, lost) h
          | inr won ↦
              let claim =
                update-Kept (claimable letter.id) (claimed now) t (λ x. refl)
                  (λ x p. (p.0, p.1, refl)) h in
              rw (attempt, won)
                (update-Kept (at_key outbox_key letter.id) (outcome smtp now letter) _
                  (λ x. outcome-id smtp now letter x)
                  (λ x p. outcome-IsMeant kind order smtp now letter x p) claim)
        ]

    attempt_all-Kept :
        (smtp : MailOutbox → Option String) (now : ℕ) (letters : List MailOutbox) (t : outbox.Table)
        → Kept t
        → Kept (attempt_all outbox smtp now letters t)
    unfolding attempt_all
    attempt_all-Kept smtp now [] t h = h
    attempt_all-Kept smtp now (letter ∷ letters) t h =
        attempt_all-Kept smtp now letters (attempt outbox smtp now letter t)
          (attempt-Kept smtp now letter t h)

    run_drain-Kept :
        (smtp : MailOutbox → Option String) (now : ℕ) (t : outbox.Table)
        → Kept t
        → Kept (run_drain outbox smtp now t)
    unfolding run_drain release_stuck
    run_drain-Kept smtp now t h =
        attempt_all-Kept smtp now _ _
          (update-Kept (is_stuck now) _ t (λ x. refl) (λ x p. (p.0, p.1, refl)) h)

    queue-Kept :
        (configured : Bool) (now : ℕ) (letter : ComposedLetter) (about : Option ℕ)
        (t : outbox.Table)
        → Kept t
        → Kept (queue outbox configured now letter about t).1
    unfolding queue
    queue-Kept configured now letter about t (m, there, meant) =
        elim (Option-cases (outbox.insert (outbox_row outbox configured now letter about) t)) [
          | inl lost ↦ rw (queue, lost) (m, there, meant)
          | inr ((row, u), e) ↦
              let (rows, shape, fresh) = outbox.rows-insert _ t u row e in
              rw (queue, e)
                (
                  m,
                  ap (by_key outbox_key id) rows
                      ∙ by_key-append id (outbox.rows t) (row ∷ []) {m = m} there,
                  meant,
                )
        ]

    send-Kept :
        (html_to_text : String → String) (configured : Bool) (now : ℕ) (options : SendOptions)
        (letter : ComposedLetter) (about : Option ℕ) (t : outbox.Table)
        → Kept t
        → Kept (send outbox html_to_text configured now options letter about t).1
    unfolding send
    send-Kept html_to_text configured now options letter about t h =
        whichever Kept options.preview
          (not options.force
            && already_sent outbox (override html_to_text options letter).kind about t)
          (some (override html_to_text options letter)) none t
          (queue outbox configured now (override html_to_text options letter) about t) h
          (queue-Kept configured now (override html_to_text options letter) about t h)

    pub Goes-Kept : {s t : outbox.Table} → Kept s → Goes s t → Kept t
    Goes-Kept h begin = h
    Goes-Kept h (posted html_to_text configured now options letter about t before) =
        send-Kept html_to_text configured now options letter about t (Goes-Kept h before)
    Goes-Kept h (drained smtp now t before) = run_drain-Kept smtp now t (Goes-Kept h before)
