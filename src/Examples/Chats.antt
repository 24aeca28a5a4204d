-- ===== src/Examples/Chats.antt =====
-- A conversation with the studio.
use gall_pr.Common.{
  inl, inr, is_some, ◌||◌, if◌then◌else◌, Bool-cases, ℕ, ◌≤◌, ◌*◌, ◌≡◌, refl, String, Bool, false,
  Option, none, some, List, [], ◌∷◌, ok, arith, trim, non_empty, codes,
}
use gall_pr.Common.Rows.{first, by_key, change, count, put}
use gall_pr.Identity.{user, guest, identity_where, is_valid_guest_token, matches, resolve_identity}
use gall_pr.Identity.Tokens.{Origin, resolve_identity-Origin}
use gall_pr.Auth.Entities.{ordinary, admin}
use gall_pr.Support.RateLimit.{Limits}
use gall_pr.Support.RateLimit.Bound.{message, closed, swept, allowed_to, allowed_to-le}
use gall_pr.Support.Chats.{
  SupportChat, chat_key, message_key, ChatsDatabase, ChatsTables, is_chat_of, new_chat, find_chat,
  created_or_raced, get_or_create_chat, claim_guest_chat, get_chat_by_id, add_message,
  mark_read_by_admin, latest_message_per_chat,
}
use gall_pr.Support.Chats.Latest.{Newest, latest_message_per_chat-Newest}
use gall_pr.Support.Chats.Identities.{IsIndexed, OnePerIdentity, get_or_create_chat_again}
use gall_pr.Support.Chats.Inbox.{
  Inbox, Action, said, read_by_admin, act_all, said_in, Holds, perform, perform_all,
  perform_all-Holds,
}
use gall_pr.Support.Chats.Reach.{start, got, claimed, Reach-OnePerIdentity}
use gall_pr.Common.Repository.{Repository}
use gall_pr.Examples.Tables.{list_repository, insert_row, insert_row_lem}
use gall_pr.Examples.Shop.{or_value}

abbrev pub token : String
token = "8f14e45f-ceea-467f-a834-1c6a3f3a9f2e"

token_lem : resolve_identity none (some token) ≡ ok (guest token)
unfolding resolve_identity is_valid_guest_token matches codes trim non_empty
token_lem = refl

-- The header of a browser.
resolve_identity-Origin_example : Origin none (some token) (guest token)
resolve_identity-Origin_example = resolve_identity-Origin none (some token) (guest token) token_lem

abbrev pub fresh : Limits
fresh = record { sockets = λ k. none; addresses = λ k. none }

-- A message, a new socket and the timer.
allowed_to-le_example :
    allowed_to "10.0.0.1"
      (message 1000 "a" "10.0.0.1" ∷ closed "a" ∷ swept 2000 ∷ message 3000 "b" "10.0.0.1" ∷ [])
      fresh
    ≤ 2 * 60
allowed_to-le_example =
    allowed_to-le 1000 "10.0.0.1"
      (message 1000 "a" "10.0.0.1" ∷ closed "a" ∷ swept 2000 ∷ message 3000 "b" "10.0.0.1" ∷ [])
      fresh ((omega arith, omega arith), (tt, (omega arith, ((omega arith, omega arith), tt))))

-- The unique indexes: an owner that has a chat.
abbrev account_taken : Option ℕ → List SupportChat → Bool
account_taken none t = false
account_taken (some n) t = is_some (first (is_chat_of (user n)) t)

abbrev token_taken : Option String → List SupportChat → Bool
token_taken none t = false
token_taken (some g) t = is_some (first (is_chat_of (guest g)) t)

abbrev taken : SupportChat → List SupportChat → Bool
taken c t = account_taken c.user_id t || token_taken c.guest_token t

abbrev insert_chat : (ℕ → SupportChat) → List SupportChat → Option (SupportChat × List SupportChat)
insert_chat mk t = if taken (mk 0) t then none else insert_row chat_key mk t

pub insert_chat-taken :
    (mk : ℕ → SupportChat) (t t' : List SupportChat) (c : SupportChat)
    → insert_chat mk t ≡ some (c, t')
    → (taken (mk 0) t ≡ false) × (insert_row chat_key mk t ≡ some (c, t'))
insert_chat-taken mk t t' c h = elim (Bool-cases (taken (mk 0) t)) [
  | inl yes' ↦
      let h' : ◌≡◌ {A = Option (SupportChat × List SupportChat)} none (some (c, t')) =
        rw yes' at h in
      absurd (cc h')
  | inr no' ↦ let h' : insert_row chat_key mk t ≡ some (c, t') = rw no' at h in (no', h')
]

abbrev pub chats : Repository chat_key
chats = record (list_repository chat_key) {
  insert = insert_chat;
  rows-insert = λ mk t t' c h. insert_row_lem chat_key mk t t' c (insert_chat-taken mk t t' c h).1;
}

abbrev pub database : ChatsDatabase
database = record { chats = chats; messages = list_repository message_key }

pub database-IsIndexed : IsIndexed database
database-IsIndexed (user n) t t' c h = none_of _ (insert_chat-taken (new_chat (user n)) t t' c h).0
  where
    none_of : (o : Option SupportChat) → (is_some o || false) ≡ false → o ≡ none
    none_of none e = refl
    none_of (some x) e = cc
database-IsIndexed (guest g) t t' c h =
    none_of _ (insert_chat-taken (new_chat (guest g)) t t' c h).0
  where
    none_of : (o : Option SupportChat) → is_some o ≡ false → o ≡ none
    none_of none e = refl
    none_of (some x) e = cc

abbrev pub quiet : ChatsTables database
quiet = record { chats = []; messages = [] }

pub quiet-OnePerIdentity : OnePerIdentity database quiet
unfolding count
quiet-OnePerIdentity = record { ids = tt; one = λ i. omega arith }

-- Another tab of the same browser gets there first.
abbrev pub tab : ChatsTables database → ChatsTables database
tab s = record s { chats = record (new_chat (guest token) 1) { unread_by_admin = 1 } ∷ [] }

abbrev pub raced : SupportChat × ChatsTables database
raced =
    or_value (new_chat (guest token) 9, quiet) (get_or_create_chat database (guest token) tab quiet)

pub raced_lem : get_or_create_chat database (guest token) tab quiet ≡ ok raced
unfolding get_or_create_chat created_or_raced find_chat first by_key identity_where
raced_lem = refl

get_or_create_chat_again_example :
    (find_chat database (guest token) raced.1 ≡ some raced.0)
    × (get_or_create_chat database (guest token) (λ s. s) raced.1 ≡ ok raced)
get_or_create_chat_again_example =
    get_or_create_chat_again database (guest token) tab (λ s. s) quiet raced.1 raced.0
      database-IsIndexed raced_lem

-- What both sides write, and what the studio reads.
abbrev talk : List (ℕ × Action)
talk =
    (1, said none ordinary "Добрий день" 100)
    ∷ (1, read_by_admin)
    ∷ (1, said (some 9) admin "Вітаємо" 200)
    ∷ []

abbrev talked : ChatsTables database
talked = or_value quiet (perform_all database talk raced.1)

talked_lem : perform_all database talk raced.1 ≡ ok talked
unfolding perform_all perform add_message get_chat_by_id mark_read_by_admin first by_key put change
    get_or_create_chat created_or_raced find_chat identity_where
talked_lem = refl

abbrev written : Inbox
written = record { thread = []; for_admin = 1; for_user = 0 }

raced-Holds : Holds database 1 raced.1 written
unfolding get_or_create_chat created_or_raced find_chat first by_key identity_where said_in
raced-Holds = record { row = raced.0; there = refl; same = refl }

perform_all-Holds_example : Holds database 1 talked (act_all talk 1 written)
perform_all-Holds_example =
    perform_all-Holds database 1 talk raced.1 talked written raced-Holds talked_lem

latest_message_per_chat-Newest_example :
    Newest database (2 ∷ 1 ∷ []) 1 talked (latest_message_per_chat database (2 ∷ 1 ∷ []) talked 1)
latest_message_per_chat-Newest_example =
    latest_message_per_chat-Newest database (2 ∷ 1 ∷ []) 1 talked refl

-- A browser writes, and its account takes the chat over.
abbrev alone : SupportChat × ChatsTables database
alone =
    or_value (new_chat (guest token) 9, quiet)
      (get_or_create_chat database (guest token) (λ s. s) quiet)

alone_lem : get_or_create_chat database (guest token) (λ s. s) quiet ≡ ok alone
unfolding get_or_create_chat created_or_raced find_chat first by_key identity_where
alone_lem = refl

Reach-OnePerIdentity_example : OnePerIdentity database (claim_guest_chat database 5 token alone.1).1
Reach-OnePerIdentity_example =
    Reach-OnePerIdentity database database-IsIndexed quiet-OnePerIdentity (
      claimed 5 token alone.1
        (got (guest token) (λ s. s) quiet alone.1 alone.0 start start alone_lem))
