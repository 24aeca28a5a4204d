-- ===== src/Users.antt =====
-- `remove` of backend/src/users/users.service.ts: the deletion of an account, over the tables of
-- all the services that keep something of it.
pub mod Others
pub mod Forgotten
use gall_pr.Common.{
  ℕ, Bool, true, false, Option, none, some, List, [], ◌∷◌, map, ◌==◌, if◌then◌else◌, bad_request,
  not_found, Result, ok, ◌>>=◌, ◌>>◌, throw_if, or_throw,
}
use gall_pr.Common.Rows.{at_key}
use gall_pr.Common.Repository.{Repository}
use gall_pr.Auth.Entities.{User, user_key, AuthDatabase, AuthTables, of_user, is_reset_of}
use gall_pr.Orders.Entities.{CartItem, Order, cart_key, order_key}
use gall_pr.Likes.{LikesDatabase, LikesTables, forget_likes}
use gall_pr.Giveaways.{GiveawayParticipant, participant_key}
use gall_pr.Support.Chats.{
  SupportChat, SupportMessage, ChatsDatabase, ChatsTables, chat_key, includes,
}

pub record AccountDatabase : Type 1 where
  pub auth : AuthDatabase
  pub likes : LikesDatabase
  pub support : ChatsDatabase
  pub orders : Repository order_key
  pub carts : Repository cart_key
  pub participants : Repository participant_key

pub record AccountTables (db : AccountDatabase) : Type 0 where
  pub auth : AuthTables db.auth
  pub likes : LikesTables db.likes
  pub support : ChatsTables db.support
  pub orders : db.orders.Table
  pub carts : db.carts.Table
  pub participants : db.participants.Table

-- `{ userId: id }` on each table, and `{ senderId: id }`.
abbrev pub is_id : ℕ → Option ℕ → Bool
is_id id none = false
is_id id (some n) = n == id

abbrev pub is_order_of : ℕ → Order → Bool
is_order_of id o = is_id id o.user_id

abbrev pub is_cart_of : ℕ → CartItem → Bool
is_cart_of id c = is_id id c.user_id

abbrev pub is_participant : ℕ → GiveawayParticipant → Bool
is_participant id p = p.user_id == id

abbrev pub has_chat : ℕ → SupportChat → Bool
has_chat id c = is_id id c.user_id

abbrev pub is_sender : ℕ → SupportMessage → Bool
is_sender id m = is_id id m.sender_id

-- `{ chatId: In(chatIds) }`
abbrev pub is_among : List ℕ → SupportMessage → Bool
is_among chats m = includes m.chat_id chats

-- `{ userId: null }`
abbrev pub without_user : Order → Order
without_user o = record o { user_id = none }

module _ (db : AccountDatabase) where
  -- `chatIds`
  abbrev pub chats_of : ℕ → ChatsTables db.support → List ℕ
  chats_of id s = map chat_key (db.support.chats.find (has_chat id) s.chats)

  unfoldable pub forget_messages :
      ℕ → List ℕ → db.support.messages.Table → db.support.messages.Table
  forget_messages id [] t = db.support.messages.delete (is_sender id) t
  forget_messages id (chat ∷ chats) t =
      db.support.messages.delete (is_sender id)
        (db.support.messages.delete (is_among (chat ∷ chats)) t)

  unfoldable pub forget_support : ℕ → ChatsTables db.support → ChatsTables db.support
  unfolding forget_messages
  forget_support id s = record {
    messages = forget_messages id (chats_of id s) s.messages;
    chats = db.support.chats.delete (has_chat id) s.chats;
  }

  unfoldable pub forget_auth : ℕ → AuthTables db.auth → AuthTables db.auth
  forget_auth id s = record {
    sessions = db.auth.sessions.delete (of_user id) s.sessions;
    resets = db.auth.resets.delete (is_reset_of id) s.resets;
    users = db.auth.users.delete (at_key user_key id) s.users;
  }

  -- The transaction.
  unfoldable pub forget : ℕ → AccountTables db → AccountTables db
  unfolding forget_support forget_auth
  forget id s = record {
    orders = db.orders.update (is_order_of id) without_user s.orders;
    likes = forget_likes db.likes id s.likes;
    carts = db.carts.delete (is_cart_of id) s.carts;
    participants = db.participants.delete (is_participant id) s.participants;
    support = forget_support id s.support;
    auth = forget_auth id s.auth;
  }

  unfoldable pub remove : ℕ → ℕ → AccountTables db → Result (AccountTables db)
  unfolding forget
  remove id requester s = do
    throw_if (id == requester) (bad_request "Не можна видалити власний акаунт")
    user ←
        or_throw (db.auth.users.find_one (at_key user_key id) s.auth.users)
          (not_found "Користувача не знайдено")
    ok (forget id s)
