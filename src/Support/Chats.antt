-- ===== src/Support/Chats.antt =====
-- backend/src/support/support.service.ts: who has which conversation, its messages and its
-- unread counters.
pub mod Inbox
pub mod Identities
pub mod Reach
pub mod Latest
use gall_pr.Common.{
  ℕ, ◌+◌, String, Bool, true, false, not, ◌&&◌, ◌||◌, Option, none, some, List, [], ◌∷◌, ltb, leb,
  ◌==◌, str_eq, if◌then◌else◌, is_some, not_found, crashed, Result, ok, err, ◌>>=◌, or_throw, map,
}
use mathlib.Core.Option.{map as map_option}
use gall_pr.Common.Rows.{at_key}
use gall_pr.Common.Repository.{Repository}
use gall_pr.Identity.{Identity, user, guest, user_id, guest_token, identity_where}
use gall_pr.Auth.Entities.{UserRole, admin, ordinary}

-- backend/src/support/entities/support-chat.entity.ts
pub record SupportChat : Type 0 where
  pub id : ℕ
  pub user_id : Option ℕ
  pub guest_token : Option String
  pub last_message_at : Option ℕ
  pub unread_by_admin : ℕ
  pub unread_by_user : ℕ

-- backend/src/support/entities/support-message.entity.ts
pub record SupportMessage : Type 0 where
  pub id : ℕ
  pub chat_id : ℕ
  pub sender_id : Option ℕ
  pub sender_role : UserRole
  pub content : String
  pub created_at : ℕ

abbrev pub chat_key : SupportChat → ℕ
chat_key c = c.id

abbrev pub message_key : SupportMessage → ℕ
message_key m = m.id

pub record ChatsDatabase : Type 1 where
  pub chats : Repository chat_key
  pub messages : Repository message_key

pub record ChatsTables (db : ChatsDatabase) : Type 0 where
  pub chats : db.chats.Table
  pub messages : db.messages.Table

-- `identityWhere(identity)` on a chat; `{ where: { chatId } }`
abbrev pub is_chat_of : Identity → SupportChat → Bool
is_chat_of identity c = identity_where identity c.user_id c.guest_token

abbrev pub in_chat : ℕ → SupportMessage → Bool
in_chat chat m = m.chat_id == chat

-- `create(identityWhere(identity))`, with the columns' defaults.
abbrev pub new_chat : Identity → ℕ → SupportChat
new_chat identity id = record {
  id = id;
  user_id = user_id identity;
  guest_token = guest_token identity;
  last_message_at = none;
  unread_by_admin = 0;
  unread_by_user = 0;
}

-- `order: { createdAt: 'ASC', id: 'ASC' }`
abbrev pub not_after : SupportMessage → SupportMessage → Bool
not_after m n = ltb m.created_at n.created_at || (m.created_at == n.created_at && leb m.id n.id)

unfoldable pub place : SupportMessage → List SupportMessage → List SupportMessage
place m [] = m ∷ []
place m (n ∷ ns) = let rest = place m ns in if not_after m n then m ∷ n ∷ ns else n ∷ rest

unfoldable pub oldest_first : List SupportMessage → List SupportMessage
unfolding place
oldest_first [] = []
oldest_first (m ∷ ms) = place m (oldest_first ms)

abbrev pub Latest : Type 0
Latest = ℕ → Option SupportMessage

-- `latest.set(message.chatId, message)`
abbrev pub set : Latest → SupportMessage → Latest
set latest m chat = if m.chat_id == chat then some m else latest chat

-- `for (const message of messages)`
unfoldable pub latest_of : List SupportMessage → Latest → Latest
latest_of [] latest = latest
latest_of (m ∷ ms) latest = latest_of ms (set latest m)

abbrev pub includes : ℕ → List ℕ → Bool
includes k [] = false
includes k (n ∷ ns) = n == k || includes k ns

-- `if (!x)` on an optional number.
abbrev pub number_of : Option ℕ → Option ℕ
number_of none = none
number_of (some k) = if k == 0 then none else some k

-- What the inbox shows of a chat. The columns of its account are left out.
pub record ChatSummary : Type 0 where
  pub id : ℕ
  pub is_guest : Bool
  pub last_message : Option (String × UserRole)
  pub last_message_at : Option ℕ
  pub unread_by_admin : ℕ
  pub is_online : Bool

abbrev pub to_chat_summary : (ℕ → Bool) → SupportChat → Option SupportMessage → ChatSummary
to_chat_summary online c last = record {
  id = c.id;
  is_guest = not (is_some (number_of c.user_id));
  last_message = map_option (λ (m : SupportMessage). (m.content, m.sender_role)) last;
  last_message_at = c.last_message_at;
  unread_by_admin = c.unread_by_admin;
  is_online = online c.id;
}

abbrev pub seen_by_admin : SupportChat → SupportChat
seen_by_admin c = record c { unread_by_admin = 0 }

abbrev pub seen_by_user : SupportChat → SupportChat
seen_by_user c = record c { unread_by_user = 0 }

-- The chat after a message of the role.
abbrev pub counted : UserRole → ℕ → SupportChat → SupportChat
counted admin now c = record c { last_message_at = some now; unread_by_user = c.unread_by_user + 1 }
counted ordinary now c = record c {
  last_message_at = some now;
  unread_by_admin = c.unread_by_admin + 1;
}

module _ (db : ChatsDatabase) where
  unfoldable pub find_chat : Identity → ChatsTables db → Option SupportChat
  find_chat identity s = db.chats.find_one (is_chat_of identity) s.chats

  -- The insertion of `getOrCreateChat`, and what follows it where the database refuses the row.
  unfoldable pub created_or_raced :
      Identity
      → ChatsTables db
      → Option (SupportChat × db.chats.Table)
      → Result (SupportChat × ChatsTables db)
  unfolding find_chat
  created_or_raced identity s (some (chat, chats)) = ok (chat, record s { chats = chats })
  created_or_raced identity s none = do
    raced ← or_throw (find_chat identity s) (crashed "the chat could not be inserted")
    ok (raced, s)

  -- `getOrCreateChat`; between its lookup and its insertion other requests may commit what
  -- `meanwhile` does.
  unfoldable pub get_or_create_chat :
      Identity
      → (ChatsTables db → ChatsTables db)
      → ChatsTables db
      → Result (SupportChat × ChatsTables db)
  unfolding find_chat created_or_raced
  get_or_create_chat identity meanwhile s = elim (find_chat identity s) [
    | some existing ↦ ok (existing, s)
    | none ↦
        let s' = meanwhile s in
        created_or_raced identity s' (db.chats.insert (new_chat identity) s'.chats)
  ]

  unfoldable pub claim_guest_chat : ℕ → String → ChatsTables db → String × ChatsTables db
  unfolding find_chat
  claim_guest_chat account token s = elim (find_chat (guest token) s) [
    | none ↦ ("Немає що перенести", s)
    | some guest_chat ↦
        if is_some (find_chat (user account) s) then ("У вас уже є розмова з підтримкою", s) else (
          "Розмову перенесено в акаунт",
          record s {
            chats =
                db.chats.save (record guest_chat { user_id = some account; guest_token = none })
                  s.chats;
          },
        )
  ]

  unfoldable pub get_chat_by_id : ℕ → ChatsTables db → Result SupportChat
  get_chat_by_id chat s =
      or_throw (db.chats.find_one (at_key chat_key chat) s.chats) (not_found "Розмову не знайдено")

  unfoldable pub latest_message_per_chat : List ℕ → ChatsTables db → Latest
  unfolding oldest_first latest_of
  latest_message_per_chat chats s =
      latest_of (oldest_first (db.messages.find (λ m. includes m.chat_id chats) s.messages))
        (λ k. none)

  -- The parameter is the ORDER BY, on `createdAt` alone.
  unfoldable pub get_messages :
      (List SupportMessage → List SupportMessage) → ℕ → ChatsTables db → List SupportMessage
  get_messages earliest_first chat s = earliest_first (db.messages.find (in_chat chat) s.messages)

  -- `getAdminChatList`; `newest_first` is its ORDER BY, and `online` the presence.
  unfoldable pub get_admin_chat_list :
      (List SupportChat → List SupportChat) → (ℕ → Bool) → ChatsTables db → List ChatSummary
  unfolding latest_message_per_chat
  get_admin_chat_list newest_first online s =
      let chats =
        newest_first (db.chats.find (λ (c : SupportChat). is_some c.last_message_at) s.chats) in
      let last_messages = latest_message_per_chat (map chat_key chats) s in
      map (λ (c : SupportChat). to_chat_summary online c (last_messages c.id)) chats

  -- `addMessage`: the message as it is read back, the chat, and the tables.
  unfoldable pub add_message :
      ℕ
      → Option ℕ
      → UserRole
      → String
      → ℕ
      → ChatsTables db
      → Result (Option SupportMessage × SupportChat × ChatsTables db)
  unfolding get_chat_by_id
  add_message chat_id sender role content now s = do
    chat ← get_chat_by_id chat_id s
    (message, messages) ←
        or_throw
          (db.messages.insert
            (λ id. record {
              id = id;
              chat_id = chat_id;
              sender_id = sender;
              sender_role = role;
              content = content;
              created_at = now;
            })
            s.messages)
          (crashed "the message could not be inserted")
    ok (
      db.messages.find_one (at_key message_key message.id) messages,
      counted role message.created_at chat,
      record {
        chats = db.chats.save (counted role message.created_at chat) s.chats;
        messages = messages;
      },
    )

  unfoldable pub mark_read_by_admin : ℕ → ChatsTables db → ChatsTables db
  mark_read_by_admin chat s = record s {
    chats = db.chats.update (at_key chat_key chat) seen_by_admin s.chats;
  }

  unfoldable pub mark_read_by_user : ℕ → ChatsTables db → ChatsTables db
  mark_read_by_user chat s = record s {
    chats = db.chats.update (at_key chat_key chat) seen_by_user s.chats;
  }
