-- ===== src/Examples/Accounts.antt =====
-- One account with two devices. The tokens are spelled by their kind and their id, and a hash is
-- its text, so that runs can be computed.
use gall_pr.Common.{
  trim, ℕ, String, ◌≡◌, refl, true, none, some, [], ◌∷◌, ok, err, All, str_eq, non_empty,
}
use gall_pr.Common.Rows.{by_key, first, keep, discard, change, count}
use gall_pr.Auth.{Crypto, TokenPair, invalid_refresh}
use gall_pr.Auth.Entities.{
  PasswordReset, is_reset_of, User, UserRole, RefreshSession, AuthDatabase, AuthTables, user_key,
  session_key, reset_key, of_user, holds,
}
use gall_pr.Auth.Sessions.{refresh, refresh_verified, rotate}
use gall_pr.Auth.Sessions.Laws.{Refreshed, refresh_reused, refresh-Refreshed, replay_refused}
use gall_pr.Auth.Passwords.{
  request_password_reset, check_reset, check_change, is_kept, reset_password, end_others,
  change_password, stale_link,
}
use gall_pr.Auth.Passwords.Laws.{IsOnlyKept, change_password-IsOnlyKept}
use gall_pr.Auth.Passwords.Links.{request_password_reset-one_link, reset_password_once}
use gall_pr.Examples.Tables.{list_repository}

abbrev database : AuthDatabase
database = record {
  users = list_repository user_key;
  sessions = list_repository session_key;
  resets = list_repository reset_key;
}

abbrev plain : Crypto
plain = record {
  sha256 = λ t. t;
  verify_refresh = λ now t. some 5;
  sign_access = λ now u. "access";
  sign_refresh = λ now jwtid u. jwtid;
  hash = λ salt p. p;
  compare = λ p h. str_eq p h;
  lower_case = λ e. e;
}

abbrev owner : User
owner = record {
  id = 5;
  email = "olena@example.com";
  password_hash = some "lilies";
  google_id = none;
  first_name = some "Олена";
  last_name = none;
  phone = "+380501112233";
  role = UserRole.ordinary;
  is_active = true;
  telegram_chat_id = none;
}

abbrev device : ℕ → String → RefreshSession
device id hash = record {
  id = id;
  user_id = 5;
  token_hash = hash;
  expires_at = 9000;
  user_agent = none;
}

abbrev signed_in : AuthTables database
signed_in = record {
  users = owner ∷ [];
  sessions = device 1 "phone" ∷ device 2 "desk" ∷ [];
  resets =
      record { id = 1; user_id = 5; token_hash = "link"; expires_at = 9000; used_at = none } ∷ [];
}

stale_present : non_empty "stale" ≡ some "stale"
unfolding non_empty
stale_present = refl

stale_unknown : first (holds "stale") (device 1 "phone" ∷ device 2 "desk" ∷ []) ≡ none
unfolding first
stale_unknown = refl

refresh_reused_example :
    ((refresh database plain 1000 "next" (some "stale") signed_in).0 ≡ err invalid_refresh)
    × ((refresh database plain 1000 "next" (some "stale") signed_in).1.sessions
        ≡ discard (of_user 5) (device 1 "phone" ∷ device 2 "desk" ∷ []))
    × (keep (of_user 5) (refresh database plain 1000 "next" (some "stale") signed_in).1.sessions
        ≡ [])
refresh_reused_example =
    refresh_reused database plain 1000 5 "next" "stale" signed_in stale_present refl stale_unknown

abbrev pair : TokenPair
pair = record { access_token = "access"; refresh_token = "next" }

abbrev rotated_tables : AuthTables database
rotated_tables = record signed_in {
  sessions = record (device 1 "next") { expires_at = 2592001000 } ∷ device 2 "desk" ∷ [];
}

refreshed_lem :
    refresh database plain 1000 "next" (some "phone") signed_in ≡ (ok (pair, owner), rotated_tables)
unfolding refresh refresh_verified rotate non_empty first change
refreshed_lem = refl

refresh-Refreshed_example :
    Refreshed database plain 1000 "next" "phone" signed_in pair owner rotated_tables
refresh-Refreshed_example =
    refresh-Refreshed database plain 1000 "next" "phone" signed_in rotated_tables pair owner
      refreshed_lem

phone_present : non_empty "phone" ≡ some "phone"
unfolding non_empty
phone_present = refl

phone_once : count (holds "phone") (device 1 "phone" ∷ device 2 "desk" ∷ []) ≡ 1
unfolding count
phone_once = refl

replay_refused_example :
    ((refresh database plain 2000 "later" (some "phone") rotated_tables).0 ≡ err invalid_refresh)
    × (keep
          (of_user 5)
          (refresh database plain 2000 "later" (some "phone") rotated_tables).1.sessions
        ≡ [])
replay_refused_example =
    replay_refused database plain 1000 2000 5 "next" "later" "phone" signed_in rotated_tables pair
      owner phone_present refl phone_once refl refreshed_lem

abbrev changed_tables : AuthTables database
changed_tables = record signed_in {
  users = record owner { password_hash = some "harbour" } ∷ [];
  sessions = device 1 "phone" ∷ [];
}

changed_lem :
    change_password database plain 5 "salt" "lilies" "harbour" (some "phone") signed_in
    ≡ (ok owner, changed_tables)
unfolding change_password check_change end_others is_kept non_empty first keep change discard
changed_lem = refl

change_password-IsOnlyKept_example : All (IsOnlyKept plain (some "phone") 5) (device 1 "phone" ∷ [])
change_password-IsOnlyKept_example =
    change_password-IsOnlyKept database plain 5 "salt" "lilies" "harbour" (some "phone") signed_in
      changed_tables owner changed_lem

abbrev reset_tables : AuthTables database
reset_tables = record {
  users = record owner { password_hash = some "harbour" } ∷ [];
  sessions = [];
  resets =
      record { id = 1; user_id = 5; token_hash = "link"; expires_at = 9000; used_at = some 1000 }
      ∷ [];
}

reset_lem :
    reset_password database plain 1000 "salt" "link" "harbour" signed_in ≡ (ok owner, reset_tables)
unfolding reset_password check_reset first change discard
reset_lem = refl

reset_password_once_example :
    (keep (of_user 5) [] ≡ [])
    × (reset_password database plain 2000 "salt" "link" "other" reset_tables
        ≡ (err stale_link, reset_tables))
reset_password_once_example =
    reset_password_once database plain 1000 2000 "salt" "salt" "link" "harbour" "other" signed_in
      reset_tables owner reset_lem

-- Asking again replaces the link of before.
abbrev linked : PasswordReset
linked = record { id = 1; user_id = 5; token_hash = "fresh"; expires_at = 3601000; used_at = none }

abbrev linked_tables : AuthTables database
linked_tables = record signed_in { resets = linked ∷ [] }

linked_lem :
    request_password_reset database plain 1000 "fresh" " olena@example.com " signed_in
    ≡ (ok (some owner), linked_tables)
unfolding request_password_reset trim first discard by_key
linked_lem = refl

request_password_reset-one_link_example : (true ≡ true) × (count (is_reset_of 5) (linked ∷ []) ≡ 1)
request_password_reset-one_link_example =
    request_password_reset-one_link database plain 1000 "fresh" " olena@example.com " signed_in
      linked_tables owner linked_lem
