-- ===== src/Mail/Dispatcher.antt =====
-- backend/src/mail/mail.dispatcher.ts: the drain of the outbox. SMTP is the parameter `smtp`: the
-- error that sending a letter ends with, or none. One drain reads one clock.
pub mod Laws
use gall_pr.Common.{
  ℕ, suc, ◌+◌, ◌-◌, String, Bool, true, false, ◌&&◌, Option, none, some, List, [], ◌∷◌, ◌==◌, leb,
  if◌then◌else◌, get_elem?, take,
}
use gall_pr.Common.Rows.{at_key}
use gall_pr.Common.Repository.{Repository}
use gall_pr.Mail.{MailOutbox, MailStatus, outbox_key, is_status}

-- `BACKOFF_MS`
abbrev pub backoff_ms : List ℕ
backoff_ms = 60000 ∷ 300000 ∷ 900000 ∷ 3600000 ∷ 21600000 ∷ []

abbrev pub batch_size : ℕ
batch_size = 20

abbrev pub stuck_after_ms : ℕ
stuck_after_ms = 300000

-- A claim whose age has reached the limit: `nextAttemptAt <= now - STUCK_AFTER_MS`.
abbrev pub is_stuck : ℕ → MailOutbox → Bool
is_stuck now m =
    is_status m.status MailStatus.sending && leb (m.next_attempt_at + stuck_after_ms) now

abbrev pub is_due : ℕ → MailOutbox → Bool
is_due now m = is_status m.status MailStatus.pending && leb m.next_attempt_at now

-- `{ id: letter.id, status: PENDING }`
abbrev pub claimable : ℕ → MailOutbox → Bool
claimable id m = at_key outbox_key id m && is_status m.status MailStatus.pending

abbrev pub claimed : ℕ → MailOutbox → MailOutbox
claimed now m = record m { status = MailStatus.sending; next_attempt_at = now }

abbrev pub delivered : ℕ → MailOutbox → MailOutbox → MailOutbox
delivered now letter m = record m {
  status = MailStatus.sent;
  attempts = letter.attempts + 1;
  sent_at = some now;
  last_error = none;
}

-- What `reschedule` writes: another attempt after the delay, or the end when no delay is left.
unfoldable pub rescheduled : ℕ → String → MailOutbox → MailOutbox → MailOutbox
rescheduled now message letter m = elim (get_elem? backoff_ms (letter.attempts + 1 - 1)) [
  | none ↦ record m {
    status = MailStatus.failed;
    attempts = letter.attempts + 1;
    last_error = some message;
  }
  | some delay ↦ record m {
    status = MailStatus.pending;
    attempts = letter.attempts + 1;
    last_error = some message;
    next_attempt_at = now + delay;
  }
]

-- What one attempt writes into the row once it is claimed.
unfoldable pub outcome : (MailOutbox → Option String) → ℕ → MailOutbox → MailOutbox → MailOutbox
unfolding rescheduled
outcome smtp now letter m = elim (smtp letter) [
  | none ↦ delivered now letter m
  | some message ↦ rescheduled now message letter m
]

module _ (outbox : Repository outbox_key) (smtp : MailOutbox → Option String) where
  unfoldable pub release_stuck : ℕ → outbox.Table → outbox.Table
  release_stuck now t =
      outbox.update (is_stuck now) (λ m. record m { status = MailStatus.pending }) t

  unfoldable pub attempt : ℕ → MailOutbox → outbox.Table → outbox.Table
  attempt now letter t =
      if outbox.count_where (claimable letter.id) t == 0
      then t
      else outbox.update (at_key outbox_key letter.id) (outcome smtp now letter)
          (outbox.update (claimable letter.id) (claimed now) t)

  unfoldable pub attempt_all : ℕ → List MailOutbox → outbox.Table → outbox.Table
  attempt_all now [] t = t
  attempt_all now (letter ∷ letters) t = attempt_all now letters (attempt now letter t)

  -- `runDrain`; the rows come in the order of their ids.
  unfoldable pub run_drain : ℕ → outbox.Table → outbox.Table
  run_drain now t =
      let t' = release_stuck now t in
      attempt_all now (take batch_size (outbox.find (is_due now) t')) t'
