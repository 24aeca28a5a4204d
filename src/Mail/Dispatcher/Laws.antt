-- ===== src/Mail/Dispatcher/Laws.antt =====
-- How often a letter is tried: what every drain keeps of the rows of the outbox.
use gall_pr.Common.{
  ℕ, ◌+◌, ◌-◌, ◌⊎◌, ◌≤◌, ◌≡◌, refl, sym, subst, inl, inr, String, Bool, true, Option, none, some,
  List, [], ◌∷◌, ◌==◌, leb, arith, All, take, get_elem?, Bool-cases, Option-cases, suc, zero,
}
use gall_pr.Common.Rows.{keep, at_key}
use gall_pr.Common.Rows.Laws.{All-change, All-change_selected}
use gall_pr.Common.Repository.{Repository}
use gall_pr.Mail.{MailOutbox, MailStatus, outbox_key, is_status}
use gall_pr.Mail.Dispatcher.{
  backoff_ms, batch_size, is_due, is_stuck, claimable, claimed, rescheduled, outcome, release_stuck,
  attempt, attempt_all, run_drain,
}

-- The number of attempts that a status stands for: at most five while the letter waits, six when it
-- is given up, none when it was never to be sent.
abbrev pub fits : MailStatus → ℕ → Bool
fits MailStatus.pending n = leb n 5
fits MailStatus.sending n = leb n 5
fits MailStatus.sent n = leb n 6
fits MailStatus.failed n = n == 6
fits MailStatus.skipped n = n == 0

abbrev pub IsWithin : MailOutbox → Type 0
IsWithin m = fits m.status m.attempts ≡ true

waiting_lem :
    (m : MailOutbox) → is_status m.status MailStatus.pending ≡ true → IsWithin m → m.attempts ≤ 5
waiting_lem m due h = elim_status m.status m.attempts due h
  where
    elim_status :
        (s : MailStatus) (n : ℕ) → is_status s MailStatus.pending ≡ true → fits s n ≡ true → n ≤ 5
    elim_status MailStatus.pending n d h = ground (arith, h)
    elim_status MailStatus.sending n d h = absurd (cc d)
    elim_status MailStatus.sent n d h = absurd (cc d)
    elim_status MailStatus.failed n d h = absurd (cc d)
    elim_status MailStatus.skipped n d h = absurd (cc d)

claimed_lem :
    (m : MailOutbox)
    → is_status m.status MailStatus.pending ≡ true
    → IsWithin m
    → fits MailStatus.sending m.attempts ≡ true
claimed_lem m due h = ground (arith, waiting_lem m due h)

released_lem :
    (m : MailOutbox)
    → is_status m.status MailStatus.sending ≡ true
    → IsWithin m
    → fits MailStatus.pending m.attempts ≡ true
released_lem m stuck h = go m.status m.attempts stuck h
  where
    go :
        (s : MailStatus) (n : ℕ)
        → is_status s MailStatus.sending ≡ true
        → fits s n ≡ true
        → fits MailStatus.pending n ≡ true
    go MailStatus.sending n d h = h
    go MailStatus.pending n d h = absurd (cc d)
    go MailStatus.sent n d h = absurd (cc d)
    go MailStatus.failed n d h = absurd (cc d)
    go MailStatus.skipped n d h = absurd (cc d)

-- The delay after attempt `n + 1`: there is none after the sixth.
delay_lem :
    (n : ℕ)
    → n ≤ 5
    → ((get_elem? backoff_ms (n + 1 - 1) ≡ none) × (n ≡ 5))
      ⊎ ((d : ℕ) × (get_elem? backoff_ms (n + 1 - 1) ≡ some d) × (n ≤ 4))
delay_lem zero h = inr (_, refl, omega arith)
delay_lem (suc zero) h = inr (_, refl, omega arith)
delay_lem (suc (suc zero)) h = inr (_, refl, omega arith)
delay_lem (suc (suc (suc zero))) h = inr (_, refl, omega arith)
delay_lem (suc (suc (suc (suc zero)))) h = inr (_, refl, omega arith)
delay_lem (suc (suc (suc (suc (suc zero))))) h = inl (refl, refl)
delay_lem (suc (suc (suc (suc (suc (suc n)))))) h = absurd (omega arith)

rescheduled-IsWithin :
    (now : ℕ) (message : String) (letter m : MailOutbox)
    → letter.attempts ≤ 5
    → IsWithin (rescheduled now message letter m)
unfolding rescheduled
rescheduled-IsWithin now message letter m h = elim (delay_lem letter.attempts h) [
  | inl (e, n) ↦ rw (e, rescheduled) (ground (arith, n))
  | inr (d, e, n) ↦ rw (e, rescheduled) (ground (arith, n))
]

outcome-IsWithin :
    (smtp : MailOutbox → Option String) (now : ℕ) (letter m : MailOutbox)
    → letter.attempts ≤ 5
    → IsWithin (outcome smtp now letter m)
unfolding outcome
outcome-IsWithin smtp now letter m h = elim (Option-cases (smtp letter)) [
  | inl done ↦ rw (done, outcome) (ground arith)
  | inr (message, e) ↦ rw (e, outcome) (rescheduled-IsWithin now message letter m h)
]

All-take : (P : MailOutbox → Type 0) (n : ℕ) (xs : List MailOutbox) → All P xs → All P (take n xs)
All-take P zero xs h = tt
All-take P (suc n) [] h = tt
All-take P (suc n) (x ∷ xs) (p, h) = (p, All-take P n xs h)

due_lem :
    (now : ℕ) (xs : List MailOutbox)
    → All IsWithin xs
    → All (λ m. m.attempts ≤ 5) (keep (is_due now) xs)
unfolding keep
due_lem now [] h = tt
due_lem now (x ∷ xs) (p, h) = elim (Bool-cases (is_due now x)) [
  | inl due ↦ rw due (waiting_lem x (ground (arith, due)) p, due_lem now xs h)
  | inr not_due ↦ rw not_due (due_lem now xs h)
]

module _ (outbox : Repository outbox_key) (smtp : MailOutbox → Option String) where
  release_stuck-IsWithin :
      (now : ℕ) (t : outbox.Table)
      → All IsWithin (outbox.rows t)
      → All IsWithin (outbox.rows (release_stuck outbox smtp now t))
  unfolding release_stuck
  release_stuck-IsWithin now t h = rw (outbox.rows-update _ _ _) (
      All-change_selected (is_stuck now) IsWithin _ (outbox.rows t)
        (λ m stuck p. released_lem m (ground (arith, stuck)) p) h)

  attempt-IsWithin :
      (now : ℕ) (letter : MailOutbox) (t : outbox.Table)
      → letter.attempts ≤ 5
      → All IsWithin (outbox.rows t)
      → All IsWithin (outbox.rows (attempt outbox smtp now letter t))
  unfolding attempt
  attempt-IsWithin now letter t few h =
      elim (Bool-cases (outbox.count_where (claimable letter.id) t == 0)) [
        | inl lost ↦ rw lost h
        | inr won ↦
            rw (won, outbox.rows-update _ _ _, outbox.rows-update _ _ _)
              (All-change (at_key outbox_key letter.id) IsWithin (outcome smtp now letter) _
                (λ m p. outcome-IsWithin smtp now letter m few)
                (All-change_selected (claimable letter.id) IsWithin (claimed now) (outbox.rows t)
                  (λ m mine p. claimed_lem m (ground (arith, mine)) p) h))
      ]

  attempt_all-IsWithin :
      (now : ℕ) (letters : List MailOutbox) (t : outbox.Table)
      → All (λ m. m.attempts ≤ 5) letters
      → All IsWithin (outbox.rows t)
      → All IsWithin (outbox.rows (attempt_all outbox smtp now letters t))
  unfolding attempt_all
  attempt_all-IsWithin now [] t few h = h
  attempt_all-IsWithin now (letter ∷ letters) t (p, few) h =
      attempt_all-IsWithin now letters _ few (attempt-IsWithin now letter t p h)

  -- A drain keeps every letter within six attempts: one that waits has had at most five, and one
  -- that is given up has had exactly six, whatever SMTP answers.
  pub run_drain-IsWithin :
      (now : ℕ) (t : outbox.Table)
      → All IsWithin (outbox.rows t)
      → All IsWithin (outbox.rows (run_drain outbox smtp now t))
  unfolding run_drain
  run_drain-IsWithin now t h =
      let released = release_stuck-IsWithin now t h in
      let t' = release_stuck outbox smtp now t in
      attempt_all-IsWithin now _ t'
        (All-take (λ m. m.attempts ≤ 5) batch_size _
          (subst (All (λ m. m.attempts ≤ 5)) (sym (outbox.find_lem (is_due now) t'))
            (due_lem now (outbox.rows t') released)))
        released
