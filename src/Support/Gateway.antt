-- ===== src/Support/Gateway.antt =====
-- backend/src/support/support.gateway.ts: the socket of a conversation. What is emitted to rooms
-- and sent to Telegram is not modelled; each handler runs on its own.
pub mod Laws
pub mod Own
use gall_pr.Common.{
  ℕ, String, Bool, true, false, not, ◌&&◌, Option, none, some, ltb, ◌==◌, if◌then◌else◌, trim,
  utf16_length, non_empty, Failure, Result, ok, err,
}
use gall_pr.Identity.{Identity, user, guest, is_valid_guest_token}
use gall_pr.Auth.Entities.{UserRole, admin, ordinary}
use gall_pr.Support.RateLimit.{Limits, allow_message, release_socket}
use gall_pr.Support.Chats.{
  SupportChat, SupportMessage, ChatsDatabase, ChatsTables, number_of, find_chat, get_or_create_chat,
  add_message, mark_read_by_admin,
}

abbrev pub max_message_length : ℕ
max_message_length = 2000

pub record SocketData : Type 0 where
  pub user_id : Option ℕ
  pub role : UserRole
  pub chat_id : Option ℕ
  pub identity : Option Identity

abbrev pub is_admin : UserRole → Bool
is_admin admin = true
is_admin ordinary = false

-- backend/src/support/support-presence.service.ts: the chats that are online.
abbrev pub Presence : Type 0
Presence = ℕ → Bool

abbrev pub mark_online : ℕ → Presence → Presence
mark_online chat online k = if k == chat then true else online k

abbrev pub mark_offline : ℕ → Presence → Presence
mark_offline chat online k = if k == chat then false else online k

-- What the handler reads of a message's body.
pub data Reading : Type 0 where
  ignored too_long : Reading
  text : String → Reading

unfoldable pub read_content : Option String → Reading
unfolding trim non_empty utf16_length
read_content none = ignored
read_content (some raw) = elim (non_empty (trim raw)) [
  | none ↦ ignored
  | some content ↦ if ltb max_message_length (utf16_length content) then too_long else text content
]

-- How a message ends.
pub data Outcome : Type 0 where
  dropped : Outcome
  refused : String → Outcome
  failed : Failure → Outcome
  posted : Option SupportMessage → SupportChat → Outcome

-- `data.role !== ADMIN && !allowMessage(...)`: an administrator is not counted.
unfoldable pub metered : ℕ → String → String → UserRole → Limits → Bool × Limits
metered now client address role limits =
    if is_admin role then (true, limits) else allow_message now client address limits

module _ (db : ChatsDatabase) where
  pub record Gateway : Type 0 where
    pub tables : ChatsTables db
    pub limits : Limits
    pub online : Presence

  -- `enterChat`
  unfoldable pub enter_chat : ℕ → SocketData → Gateway → SocketData × Gateway
  enter_chat chat socket g =
      (record socket { chat_id = some chat }, record g { online = mark_online chat g.online })

  -- `joinOwnChat`
  unfoldable pub join_own_chat : Identity → SocketData → Gateway → SocketData × Gateway
  unfolding enter_chat
  join_own_chat identity socket g = elim (find_chat db identity g.tables) [
    | none ↦ (record socket { identity = some identity }, g)
    | some chat ↦ enter_chat chat.id (record socket { identity = some identity }) g
  ]

  -- `identify`, on the token as the JWT service has verified it; `none` is a socket that is
  -- disconnected.
  unfoldable pub identify :
      Option (Option (ℕ × UserRole)) → Option String → Gateway → Option (SocketData × Gateway)
  unfolding join_own_chat
  identify (some none) guest_token g = none
  identify (some (some (sub, admin))) guest_token g =
      some (record { user_id = some sub; role = admin; chat_id = none; identity = none }, g)
  identify (some (some (sub, ordinary))) guest_token g = some (
      join_own_chat (user sub)
        (record { user_id = some sub; role = ordinary; chat_id = none; identity = none }) g)
  identify none none g = none
  identify none (some token) g =
      if is_valid_guest_token (some token)
      then some (
          join_own_chat (guest token)
            (record { user_id = none; role = ordinary; chat_id = none; identity = none }) g)
      else none

  -- What `handleDisconnect` does to the presence.
  unfoldable pub left_online : SocketData → Presence → Presence
  left_online socket online =
      if is_admin socket.role
      then online
      else elim (number_of socket.chat_id) [ none ↦ online | some chat ↦ mark_offline chat online ]

  unfoldable pub handle_disconnect : String → SocketData → Gateway → Gateway
  unfolding left_online
  handle_disconnect client socket g = record g {
    limits = release_socket client g.limits;
    online = left_online socket g.online;
  }

  -- `startChat`
  unfoldable pub start_chat : SocketData → Gateway → Result (Option ℕ × SocketData × Gateway)
  unfolding enter_chat
  start_chat socket g = elim socket.identity [
    | none ↦ ok (none, socket, g)
    | some identity ↦ elim (get_or_create_chat db identity (λ s. s) g.tables) [
      | err e ↦ err e
      | ok (chat, tables) ↦
          let (socket', g') = enter_chat chat.id socket (record g { tables = tables }) in
          ok (number_of (some chat.id), socket', g')
    ]
  ]

  unfoldable pub handle_join_chat : SocketData → Option ℕ → Gateway → Gateway
  handle_join_chat socket chat g = if not (is_admin socket.role) then g else elim (number_of chat) [
    | none ↦ g
    | some id ↦ record g { tables = mark_read_by_admin db id g.tables }
  ]

  -- The chat that a message goes to.
  unfoldable pub chat_for :
      SocketData → Option ℕ → Gateway → Result (Option ℕ × SocketData × Gateway)
  unfolding start_chat
  chat_for socket asked g =
      if is_admin socket.role then ok (number_of asked, socket, g) else elim socket.chat_id [
        | some chat ↦ ok (number_of (some chat), socket, g)
        | none ↦ start_chat socket g
      ]

  -- The message is written.
  unfoldable pub deliver :
      ℕ → SocketData → Option ℕ → String → Gateway → Outcome × SocketData × Gateway
  unfolding chat_for
  deliver now socket asked content g = elim (chat_for socket asked g) [
    | err e ↦ (failed e, socket, g)
    | ok (none, socket', g') ↦ (dropped, socket', g')
    | ok (some chat_id, socket', g') ↦
        elim (add_message db chat_id socket'.user_id socket'.role content now g'.tables) [
          | err e ↦ (failed e, socket', g')
          | ok (message, chat, tables) ↦
              (posted message chat, socket', record g' { tables = tables })
        ]
  ]

  unfoldable pub handle_message :
      ℕ
      → String
      → String
      → Option ℕ
      → Option String
      → SocketData
      → Gateway
      → Outcome × SocketData × Gateway
  unfolding read_content metered deliver
  handle_message now client address asked body socket g = elim (read_content body) [
    | ignored ↦ (dropped, socket, g)
    | too_long ↦ (refused "Повідомлення задовге — максимум 2000 символів", socket, g)
    | text content ↦
        let (allowed, limits) = metered now client address socket.role g.limits in
        let g' : Gateway = record g { limits = limits } in
        if allowed
        then deliver now socket asked content g'
        else (refused "Забагато повідомлень. Зачекайте трохи.", socket, g')
  ]
