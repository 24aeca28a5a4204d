-- ===== src/Examples/Departure.antt =====
-- An account that is deleted: what it liked, wrote, ordered and was signed in with.
use gall_pr.Common.{ℕ, ◌≡◌, ◌≢◌, refl, true, none, some, [], ◌∷◌, ok}
use gall_pr.Common.Rows.{first}
use gall_pr.Auth.Entities.{User, UserRole, user_key, session_key, reset_key}
use gall_pr.Orders.Entities.{painting_key, cart_key, order_key}
use gall_pr.Likes.{like_key}
use gall_pr.Giveaways.{participant_key}
use gall_pr.Support.Chats.{chat_key, message_key}
use gall_pr.Users.{AccountDatabase, AccountTables, remove}
use gall_pr.Users.Others.{Stays}
use gall_pr.Users.Forgotten.{NoTrace, remove-NoTrace}
use gall_pr.Examples.Tables.{list_repository}
use gall_pr.Examples.Shop.{lilies, harbour, earlier, or_value}

abbrev database : AccountDatabase
database = record {
  auth = record {
    users = list_repository user_key;
    sessions = list_repository session_key;
    resets = list_repository reset_key;
  };
  likes = record { paintings = list_repository painting_key; likes = list_repository like_key };
  support = record { chats = list_repository chat_key; messages = list_repository message_key };
  orders = list_repository order_key;
  carts = list_repository cart_key;
  participants = list_repository participant_key;
}

abbrev leaver : User
leaver = record {
  id = 5;
  email = "olena@example.com";
  password_hash = none;
  google_id = none;
  first_name = none;
  last_name = none;
  phone = "";
  role = UserRole.ordinary;
  is_active = true;
  telegram_chat_id = none;
}

abbrev before : AccountTables database
before = record {
  auth = record {
    users = leaver ∷ [];
    sessions =
        record { id = 1; user_id = 5; token_hash = "phone"; expires_at = 9000; user_agent = none }
        ∷ [];
    resets = [];
  };
  likes = record {
    paintings = lilies ∷ harbour ∷ [];
    likes = record { id = 1; user_id = 5; painting_id = 7 } ∷ [];
  };
  support = record {
    chats =
        record {
          id = 1;
          user_id = some 5;
          guest_token = none;
          last_message_at = some 10;
          unread_by_admin = 1;
          unread_by_user = 0;
        }
        ∷ [];
    messages =
        record {
          id = 1;
          chat_id = 1;
          sender_id = some 5;
          sender_role = UserRole.ordinary;
          content = "Добрий день";
          created_at = 10;
        }
        ∷ [];
  };
  orders = record earlier { user_id = some 5; guest_token = none } ∷ [];
  carts = [];
  participants = [];
}

abbrev after : AccountTables database
after = or_value before (remove database 5 1 before)

after_lem : remove database 5 1 before ≡ ok after
unfolding remove first
after_lem = refl

remove-NoTrace_example :
    ◌≢◌ {A = ℕ} 5 1 × NoTrace database 5 before after × Stays database 5 before after
remove-NoTrace_example = remove-NoTrace database 5 1 before after after_lem
