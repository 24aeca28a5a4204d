-- ===== src/Mail/Laws.antt =====
-- What sending a letter writes, and when it writes nothing.
use gall_pr.Common.{
  ℕ, ◌≡◌, refl, sym, ap, subst, ◌∙◌, inl, inr, String, Bool, true, false, not, ◌&&◌, Option, none,
  some, List, [], ◌∷◌, ◌++◌, ◌==◌, ◌||◌, ◌⊎◌, is_some, some_eq, Bool-cases, arith, if◌then◌else◌,
  Option-cases,
}
use gall_pr.Common.Rows.{first, by_key}
use gall_pr.Common.Repository.{Repository}
use gall_pr.Mail.{
  MailOutbox, MailStatus, MailKind, SendOptions, ComposedLetter, outbox_key, is_kind, is_status,
  is_live_letter, override, already_sent, outbox_row, queue, send,
}
use gall_pr.Mail.Kept.{IsMeant, Kept, Goes, Goes-Kept}

by_key-snoc :
    (x : MailOutbox) (xs : List MailOutbox)
    → by_key outbox_key x.id xs ≡ none
    → by_key outbox_key x.id (xs ++ x ∷ []) ≡ some x
unfolding by_key first
by_key-snoc x [] h = ground arith
by_key-snoc x (y ∷ ys) h = ground (arith, by_key-snoc x ys)

-- A row under a key that meets a condition: some row meets it.
first-by_key :
    (w : MailOutbox → Bool) (id : ℕ) (xs : List MailOutbox) {m : MailOutbox}
    → by_key outbox_key id xs ≡ some m
    → w m ≡ true
    → is_some (first w xs) ≡ true
unfolding by_key first
first-by_key w id [] h p = absurd (cc h)
first-by_key w id (x ∷ xs) {m} h p = elim (Bool-cases (w x)) [
  | inl hit ↦ rw hit refl
  | inr miss ↦ elim (Bool-cases (x.id == id)) [
    | inl here ↦
        let h' : some x ≡ some m = rw here at h in
        let same = some_eq h' in absurd (cc (miss, p, same))
    | inr there ↦
        let h' : by_key outbox_key id xs ≡ some m = rw there at h in
        rw miss (first-by_key w id xs {m = m} h' p)
  ]
]

-- A letter that is to be delivered was given up, or waits, is on its way or was delivered.
given_up :
    (s : MailStatus)
    → is_status s MailStatus.skipped ≡ false
    → (s ≡ MailStatus.failed)
      ⊎ (is_status s MailStatus.pending
            || is_status s MailStatus.sending
            || is_status s MailStatus.sent
          ≡ true)
given_up MailStatus.pending h = inr refl
given_up MailStatus.sending h = inr refl
given_up MailStatus.sent h = inr refl
given_up MailStatus.failed h = inl refl
given_up MailStatus.skipped h = absurd (cc h)

is_kind_refl : (k : MailKind) → is_kind k k ≡ true
is_kind_refl k = ground arith

override-kind :
    (h : String → String) (o : SendOptions) (l : ComposedLetter) → (override h o l).kind ≡ l.kind
unfolding override
override-kind h o l = ground arith

skipped :
    {A : Type 0} (preview force known : Bool) (x y z : A)
    → preview ≡ false
    → force ≡ false
    → known ≡ true
    → (if preview then x else if not force && known then y else z) ≡ y
skipped preview force known x y z p f k = rw (p, f, k) refl

not_skipped :
    {A B : Type 0} (preview known : Bool) (x : Option A × B) (t : B) (z : Option A × B) {a : A}
    {t' : B}
    → preview ≡ false
    → (if preview then x else if known then (none, t) else z) ≡ (some a, t')
    → z ≡ (some a, t')
not_skipped true known x t z p h = absurd (cc p)
not_skipped false true x t z p h = absurd (cc (ap (λ (y : Option _ × _). y.0) h))
not_skipped false false x t z p h = h

module _ (outbox : Repository outbox_key) where
  -- The id was free, and then has a row about the order that waits.
  abbrev pub IsQueued : ℕ → ℕ → outbox.Table → outbox.Table → Type 0
  IsQueued order id t t' =
      (by_key outbox_key id (outbox.rows t) ≡ none)
      × (row : MailOutbox) × (by_key outbox_key id (outbox.rows t') ≡ some row)
      × (row.order_id ≡ some order)
      × (row.status ≡ MailStatus.pending)

  -- The row that was queued.
  queue-Kept :
      (now order : ℕ) (letter sent : ComposedLetter) (t t' : outbox.Table)
      → queue outbox true now letter (some order) t ≡ (some sent, t')
      → (id : ℕ) × IsQueued order id t t' × Kept outbox letter.kind order id t'
  unfolding queue outbox_row
  queue-Kept now order letter sent t t' h =
      elim (Option-cases (outbox.insert (outbox_row outbox true now letter (some order)) t)) [
        | inl lost ↦
            let h' : ◌≡◌ {A = Option ComposedLetter × outbox.Table} (none, t) (some sent, t') =
              rw (lost, queue) at h in
            absurd (cc (ap (λ (x : Option ComposedLetter × outbox.Table). x.0) h'))
        | inr ((row, u), e) ↦
            let (rows, shape, fresh) = outbox.rows-insert _ t u row e in
            let h' : ◌≡◌ {A = Option ComposedLetter × outbox.Table} (some letter, u)
                (some sent, t') =
              rw (e, queue) at h in
            let same : u ≡ t' = ap (λ (x : Option ComposedLetter × outbox.Table). x.1) h' in
            (
              row.id,
              subst (IsQueued order row.id t) same (
                fresh,
                row,
                ap (by_key outbox_key row.id) rows ∙ by_key-snoc row (outbox.rows t) fresh,
                ap (λ (m : MailOutbox). m.order_id) shape,
                ap (λ (m : MailOutbox). m.status) shape,
              ),
              subst (Kept outbox letter.kind order row.id) same (
                row,
                ap (by_key outbox_key row.id) rows ∙ by_key-snoc row (outbox.rows t) fresh,
                (
                  ap (λ (m : MailOutbox). m.kind) shape,
                  ap (λ (m : MailOutbox). m.order_id) shape,
                  ap (λ (m : MailOutbox). is_status m.status MailStatus.skipped) shape,
                ),
              ),
            )
      ]

  -- A letter that was not given up is found.
  Kept-already_sent :
      (kind : MailKind) (order id : ℕ) (t : outbox.Table) (m : MailOutbox)
      → by_key outbox_key id (outbox.rows t) ≡ some m
      → IsMeant kind order m
      → (m.status ≡ MailStatus.failed) ⊎ (already_sent outbox kind (some order) t ≡ true)
  unfolding already_sent
  Kept-already_sent kind order id t m there (k, o, s) = elim (given_up m.status s) [
    | inl failed ↦ inl failed
    | inr waits ↦
        let live : is_live_letter kind order m ≡ true =
          rw (k, o, is_kind_refl kind) (ground (arith, waits)) in
        inr (
          ap is_some (outbox.find_one_lem (is_live_letter kind order) t)
          ∙ first-by_key (is_live_letter kind order) id (outbox.rows t) {m = m} there live)
  ]

  module _ (html_to_text : String → String) where
    send-queue :
        (now order : ℕ) (options : SendOptions) (letter sent : ComposedLetter) (t t' : outbox.Table)
        → options.preview ≡ false
        → send outbox html_to_text true now options letter (some order) t ≡ (some sent, t')
        → queue outbox true now (override html_to_text options letter) (some order) t
          ≡ (some sent, t')
    unfolding send
    send-queue now order options letter sent t t' real h =
        not_skipped options.preview (not options.force && already_sent outbox _ (some order) t) _ _
          _ real h

    -- Once a letter about an order, not a preview, has been queued while SMTP is configured, under
    -- an id that was free, its row waits, and is still there, of this kind and about this order,
    -- after any history of other letters and of drains, with whatever SMTP answers, and unless this
    -- letter has failed for good, sending a letter of the same kind about that order sends nothing
    -- and leaves the outbox as it was, whatever it says, when it is neither forced nor a preview.
    pub send_again :
        (now later order : ℕ) (configured : Bool) (options options' : SendOptions)
        (letter letter' queued : ComposedLetter) (t t' u : outbox.Table)
        → options.preview ≡ false
        → send outbox html_to_text true now options letter (some order) t ≡ (some queued, t')
        → Goes outbox t' u
        → letter'.kind ≡ letter.kind
        → options'.preview ≡ false
        → options'.force ≡ false
        → (id : ℕ) × IsQueued order id t t'
          × (m : MailOutbox) × (by_key outbox_key id (outbox.rows u) ≡ some m)
          × (m.kind ≡ letter.kind)
          × (m.order_id ≡ some order)
          × ((m.status ≡ MailStatus.failed)
              ⊎ (send outbox html_to_text configured later options' letter' (some order) u
                  ≡ (none, u)))
    unfolding send
    send_again now later order configured options options' letter letter' queued t t' u real h
          history alike real' automatic =
        let first_letter = override html_to_text options letter in
        let (id, fresh, kept) =
          queue-Kept now order first_letter queued t t'
            (send-queue now order options letter queued t t' real h) in
        let (m, there, meant) = Goes-Kept outbox first_letter.kind order id kept history in
        let same =
          override-kind html_to_text options' letter'
          ∙ alike
          ∙ sym (override-kind html_to_text options letter) in
        (
          id,
          fresh,
          m,
          there,
          meant.0 ∙ override-kind html_to_text options letter,
          meant.1,
          elim (Kept-already_sent first_letter.kind order id u m there meant) [
            | inl failed ↦ inl failed
            | inr known ↦
                let known' =
                  subst (λ k. already_sent outbox k (some order) u ≡ true) (sym same) known in
                inr (skipped options'.preview options'.force _ _ _ _ real' automatic known')
          ],
        )
