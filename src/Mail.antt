-- ===== src/Mail.antt =====
-- The outbox of letters: backend/src/mail/entities/mail-outbox.entity.ts and the `send` of
-- backend/src/mail/mail.service.ts, which every letter goes through.
pub mod Laws
pub mod Kept
pub mod Dispatcher
use gall_pr.Common.{
  ℕ, String, Bool, true, false, not, ◌&&◌, ◌||◌, Option, none, some, List, ◌==◌, if◌then◌else◌,
  trimmed, is_filled, or_else, is_some,
}
use gall_pr.Common.Repository.{Repository}

pub data MailStatus : Type 0 where
  pending sending sent failed skipped : MailStatus

pub data MailKind : Type 0 where
  order_placed payment_proof_received payment_confirmed payment_failed order_shipped : MailKind
  order_completed order_cancelled commission_placed order_apology password_reset : MailKind

pub record MailOutbox : Type 0 where
  pub id : ℕ
  pub kind : MailKind
  pub to_email : String
  pub subject : String
  pub text_body : String
  pub html_body : String
  pub order_id : Option ℕ
  pub status : MailStatus
  pub attempts : ℕ
  pub last_error : Option String
  pub next_attempt_at : ℕ
  pub sent_at : Option ℕ

abbrev pub outbox_key : MailOutbox → ℕ
outbox_key m = m.id

abbrev status_code : MailStatus → ℕ
status_code MailStatus.pending = 0
status_code MailStatus.sending = 1
status_code MailStatus.sent = 2
status_code MailStatus.failed = 3
status_code MailStatus.skipped = 4

abbrev pub is_status : MailStatus → MailStatus → Bool
is_status a b = status_code a == status_code b

abbrev kind_code : MailKind → ℕ
kind_code MailKind.order_placed = 0
kind_code MailKind.payment_proof_received = 1
kind_code MailKind.payment_confirmed = 2
kind_code MailKind.payment_failed = 3
kind_code MailKind.order_shipped = 4
kind_code MailKind.order_completed = 5
kind_code MailKind.order_cancelled = 6
kind_code MailKind.commission_placed = 7
kind_code MailKind.order_apology = 8
kind_code MailKind.password_reset = 9

abbrev pub is_kind : MailKind → MailKind → Bool
is_kind a b = kind_code a == kind_code b

pub record SendOptions : Type 0 where
  pub force : Bool
  pub preview : Bool
  pub override_subject : Option String
  pub override_html : Option String

pub record ComposedLetter : Type 0 where
  pub kind : MailKind
  pub to : String
  pub subject : String
  pub text : String
  pub html : String

-- `options.override` on the rendered letter; `html_to_text` is the module's function of that name.
unfoldable pub override : (String → String) → SendOptions → ComposedLetter → ComposedLetter
override html_to_text options letter =
    let subject = or_else (trimmed options.override_subject) letter.subject in
    if is_filled options.override_html
    then record letter {
      subject = subject;
      html = or_else options.override_html "";
      text = html_to_text (or_else options.override_html "");
    }
    else record letter { subject = subject }

abbrev pub is_for : Option ℕ → ℕ → Bool
is_for none n = false
is_for (some m) n = m == n

-- The condition of `alreadySent`.
abbrev pub is_live_letter : MailKind → ℕ → MailOutbox → Bool
is_live_letter kind order m =
    is_kind m.kind kind
    && is_for m.order_id order
    && (is_status m.status MailStatus.pending
        || is_status m.status MailStatus.sending
        || is_status m.status MailStatus.sent)

module _ (outbox : Repository outbox_key) where
  unfoldable pub already_sent : MailKind → Option ℕ → outbox.Table → Bool
  already_sent kind none t = false
  already_sent kind (some order) t = is_some (outbox.find_one (is_live_letter kind order) t)

  -- The row that `send` records.
  unfoldable pub outbox_row : Bool → ℕ → ComposedLetter → Option ℕ → ℕ → MailOutbox
  outbox_row configured now letter order id = record {
    id = id;
    kind = letter.kind;
    to_email = letter.to;
    subject = letter.subject;
    text_body = letter.text;
    html_body = letter.html;
    order_id = order;
    status = if configured then MailStatus.pending else MailStatus.skipped;
    attempts = 0;
    last_error = none;
    next_attempt_at = now;
    sent_at = none;
  }

  -- A row that cannot be written is logged, and answered by null.
  unfoldable pub queue :
      Bool → ℕ → ComposedLetter → Option ℕ → outbox.Table → Option ComposedLetter × outbox.Table
  queue configured now letter order t =
      elim (outbox.insert (outbox_row configured now letter order) t) [
        | none ↦ (none, t)
        | some (row, t') ↦ (some letter, t')
      ]

  -- `send`. The dispatcher, which is only nudged here, works on the table by itself.
  unfoldable pub send :
      (String → String)
      → Bool
      → ℕ
      → SendOptions
      → ComposedLetter
      → Option ℕ
      → outbox.Table
      → Option ComposedLetter × outbox.Table
  send html_to_text configured now options rendered order t =
      let letter = override html_to_text options rendered in
      if options.preview
      then (some letter, t)
      else if not options.force && already_sent letter.kind order t
      then (none, t)
      else queue configured now letter order t
