-- ===== src/Examples/Office.antt =====
-- The settings of the shop and the rate of the dollar.
use gall_pr.Common.{
  ℕ, ◌≡◌, ◌≤◌, ◌*◌, ◌-◌, refl, String, true, false, none, some, List, [], ◌∷◌, ok, err, crashed,
  non_empty, arith,
}
use gall_pr.Common.Rows.{keep, put}
use gall_pr.Settings.{
  AppSettings, settings_key, default_row, lowest_row, is_valid_code, linked_to, find_row, get,
  redeem_admin_telegram_link_code,
}
use gall_pr.Settings.Link.{Awaits, Names, redeem_once}
use gall_pr.ExchangeRate.{initial}
use gall_pr.ExchangeRate.Bound.{Call, IsAboveZero, serve, serve-le}
use gall_pr.Examples.Tables.{list_repository}

abbrev waiting : AppSettings
waiting = record default_row {
  admin_telegram_link_code = some "c0ffee";
  admin_telegram_link_code_expires_at = some 9000;
}

redeemed_lem :
    redeem_admin_telegram_link_code (list_repository settings_key) 1000 "c0ffee" "42" (waiting ∷ [])
    ≡ ok (true, linked_to "42" waiting ∷ [])
unfolding redeem_admin_telegram_link_code get find_row lowest_row is_valid_code non_empty keep put
redeemed_lem = refl

redeem_once_example :
    ((s : AppSettings) × (find_row (list_repository settings_key) (waiting ∷ []) ≡ some s)
      × Awaits 1000 "c0ffee" s)
    × ((r : AppSettings) × (find_row (list_repository settings_key) (linked_to "42" waiting ∷ [])
          ≡ some r)
        × Names "42" r)
    × ((now' : ℕ) (code' chat' : String)
        → redeem_admin_telegram_link_code
            (list_repository settings_key)
            now'
            code'
            chat'
            (linked_to "42" waiting ∷ [])
          ≡ ok (false, linked_to "42" waiting ∷ []))
redeem_once_example =
    redeem_once (list_repository settings_key) 1000 "c0ffee" "42" (waiting ∷ [])
      (linked_to "42" waiting ∷ []) redeemed_lem

-- The bank answers, is asked again within the hour, and then fails.
abbrev calls : List Call
calls =
    record {
      now = 10000000;
      later = 10000100;
      reply = ok (some (record { negative = false; size = record { digits = 420; scale = 1 } }));
    }
    ∷ record { now = 10000200; later = 10000300; reply = ok none }
    ∷ record { now = 14000000; later = 14000100; reply = err (crashed "timeout") }
    ∷ []

serve-le_example :
    ((serve calls initial).0 * 300000 ≤ 15000000 - 0)
    × IsAboveZero ((serve calls initial).1).last_known_rate
serve-le_example =
    serve-le 15000000 calls initial (omega arith, (omega arith, (omega arith, tt)))
      (refl, omega arith)
