-- ===== src/Examples/Sockets.antt =====
-- A browser's first message over its socket.
use gall_pr.Common.{◌≡◌, refl, true, none, some, false, Option, trim, non_empty, utf16_length}
use gall_pr.Common.Rows.{first, by_key, put}
use gall_pr.Identity.{guest, identity_where}
use gall_pr.Auth.Entities.{ordinary}
use gall_pr.Support.RateLimit.{allow_message, consume, spend}
use gall_pr.Support.Chats.{
  SupportChat, SupportMessage, is_chat_of, new_chat, find_chat, created_or_raced,
  get_or_create_chat, get_chat_by_id, add_message,
}
use gall_pr.Support.Gateway.{
  SocketData, Gateway, Outcome, posted, handle_message, read_content, metered, deliver, chat_for,
  start_chat, enter_chat,
}
use gall_pr.Support.Gateway.Laws.{Posted, handle_message-Posted, Answer}
use gall_pr.Support.Gateway.Own.{IsOwn, handle_message-is_chat_of}
use gall_pr.Examples.Chats.{token, database, database-IsIndexed, quiet, quiet-OnePerIdentity}

abbrev visitor : SocketData
visitor = record { user_id = none; role = ordinary; chat_id = none; identity = some (guest token) }

abbrev idle : Gateway database
idle = record {
  tables = quiet;
  limits = record { sockets = λ k. none; addresses = λ k. none };
  online = λ k. false;
}

abbrev answer : Answer database
answer = handle_message database 500 "a" "10.0.0.1" (some 77) (some " Добрий день ") visitor idle

-- What the handler answers, by its parts.
abbrev chat_of : Outcome → SupportChat
chat_of (posted m c) = c
chat_of _ = new_chat (guest "") 0

abbrev message_of : Outcome → Option SupportMessage
message_of (posted m c) = m
message_of _ = none

answer_lem : answer ≡ (posted (message_of answer.0) (chat_of answer.0), answer.1, answer.2)
unfolding handle_message read_content metered deliver chat_for start_chat enter_chat allow_message
    consume spend get_or_create_chat created_or_raced find_chat get_chat_by_id add_message trim
    non_empty utf16_length first by_key put identity_where
answer_lem = refl

handle_message-Posted_example :
    Posted database 500 "a" "10.0.0.1"
      (some " Добрий день ")
      (some 77)
      visitor
      answer.1
      idle
      answer.2
      (message_of answer.0)
      (chat_of answer.0)
handle_message-Posted_example =
    handle_message-Posted database 500 "a" "10.0.0.1" (some 77) (some " Добрий день ") visitor
      answer.1 idle answer.2 (message_of answer.0) (chat_of answer.0) answer_lem

visitor-IsOwn : IsOwn database (guest token) visitor idle
visitor-IsOwn = record { customer = refl; who = refl; own = λ chat e. absurd (cc e) }

handle_message-is_chat_of_example : is_chat_of (guest token) (chat_of answer.0) ≡ true
handle_message-is_chat_of_example =
    handle_message-is_chat_of database (guest token) 500 "a" "10.0.0.1" (some 77)
      (some " Добрий день ") visitor answer.1 idle answer.2 (message_of answer.0) (chat_of answer.0)
      database-IsIndexed quiet-OnePerIdentity visitor-IsOwn answer_lem
