-- ===== src/Examples/Letters.antt =====
-- Letters in an outbox that is a list.
use gall_pr.Common.{
  ℕ, ◌⊎◌, String, ◌≡◌, refl, true, false, Option, none, some, [], ◌∷◌, All, is_filled, trimmed,
  trim, non_empty,
}
use gall_pr.Common.Rows.{by_key, first}
use gall_pr.Common.Repository.{Repository}
use gall_pr.Mail.{
  MailOutbox, MailStatus, MailKind, SendOptions, ComposedLetter, outbox_key, send, queue, override,
  already_sent, outbox_row,
}
use gall_pr.Mail.Kept.{begin, drained}
use gall_pr.Mail.Laws.{IsQueued, send_again}
use gall_pr.Mail.Dispatcher.{run_drain}
use gall_pr.Mail.Dispatcher.Laws.{IsWithin, run_drain-IsWithin}
use gall_pr.Examples.Tables.{list_repository}

abbrev outbox : Repository outbox_key
outbox = list_repository outbox_key

abbrev options : SendOptions
options = record { force = false; preview = false; override_subject = none; override_html = none }

abbrev letter : ComposedLetter
letter = record {
  kind = MailKind.order_shipped;
  to = "olena@example.com";
  subject = "Замовлення в дорозі";
  text = "ТТН 20450";
  html = "<p>ТТН 20450</p>";
}

abbrev as_text : String → String
as_text html = html

abbrev filed : Option ComposedLetter × outbox.Table
filed = send outbox as_text true 1000 options letter (some 7) []

filed_lem : send outbox as_text true 1000 options letter (some 7) [] ≡ (some letter, filed.1)
unfolding send queue override already_sent outbox_row first by_key is_filled trimmed trim non_empty
filed_lem = refl

-- SMTP takes every letter, and the outbox is drained.
abbrev willing : MailOutbox → Option String
willing m = none

abbrev after_drain : outbox.Table
after_drain = run_drain outbox willing 1500 filed.1

send_again_example :
    (id : ℕ) × IsQueued outbox 7 id [] filed.1
    × (m : MailOutbox) × (by_key outbox_key id (outbox.rows after_drain) ≡ some m)
    × (m.kind ≡ MailKind.order_shipped)
    × (m.order_id ≡ some 7)
    × ((m.status ≡ MailStatus.failed)
        ⊎ (send outbox as_text false 2000 options letter (some 7) after_drain
            ≡ (none, after_drain)))
send_again_example =
    send_again outbox as_text 1000 2000 7 false options options letter letter letter [] filed.1
      after_drain refl filed_lem (drained willing 1500 filed.1 begin) refl refl refl

-- A letter that has failed five times and is due.
abbrev waiting : MailOutbox
waiting = record {
  id = 3;
  kind = MailKind.order_placed;
  to_email = "olena@example.com";
  subject = "Дякуємо";
  text_body = "";
  html_body = "";
  order_id = some 7;
  status = MailStatus.pending;
  attempts = 5;
  last_error = some "timeout";
  next_attempt_at = 1000;
  sent_at = none;
}

abbrev broken : MailOutbox → Option String
broken m = some "timeout"

run_drain-IsWithin_example : All IsWithin (run_drain outbox broken 2000 (waiting ∷ []))
run_drain-IsWithin_example = run_drain-IsWithin outbox broken 2000 (waiting ∷ []) (refl, tt)
