-- ===== src/Support/Gateway/Own.antt =====
-- A customer writes into the own conversation only.
use gall_pr.Common.{
  ℕ, ◌≡◌, refl, sym, ap, subst, ◌∙◌, inl, inr, String, true, Option, none, some, arith,
  Option-cases, some_eq, Result, Result-cases, ok, err, >>=-eq-ok, or_throw, or_throw-eq-ok,
  ok-injective,
}
use gall_pr.Common.Rows.{by_key, at_key, first_meets, first-eq-by_key}
use gall_pr.Common.Rows.Laws.{by_key-first}
use gall_pr.Identity.{Identity}
use gall_pr.Auth.Entities.{UserRole, ordinary}
use gall_pr.Support.Chats.{
  SupportChat, SupportMessage, chat_key, number_of, ChatsDatabase, ChatsTables, is_chat_of, counted,
  find_chat, get_or_create_chat, get_chat_by_id, add_message,
}
use gall_pr.Support.Chats.Identities.{
  IsIndexed, OnePerIdentity, get_or_create_chat_again, get_or_create_chat-OnePerIdentity,
}
use gall_pr.Support.Gateway.{
  SocketData, Gateway, posted, enter_chat, join_own_chat, start_chat, chat_for, handle_message,
  metered,
}
use gall_pr.Support.Gateway.Laws.{handle_message-Posted}

number_of-eq-some : (o : Option ℕ) (k : ℕ) → number_of o ≡ some k → o ≡ some k
number_of-eq-some none k h = cc
number_of-eq-some (some n) k h = ground (arith, h)

module _ (db : ChatsDatabase) where
  -- Whatever chat stands under the id is of the identity.
  abbrev pub IsOf : Identity → ℕ → ChatsTables db → Type 0
  IsOf i chat s =
      (c : SupportChat)
      → by_key chat_key chat (db.chats.rows s.chats) ≡ some c
      → is_chat_of i c ≡ true

  -- A customer's socket is in no chat but its own.
  pub record IsOwn (i : Identity) (socket : SocketData) (g : Gateway db) : Type 0 where
    pub customer : socket.role ≡ ordinary
    pub who : socket.identity ≡ some i
    pub own : (chat : ℕ) → socket.chat_id ≡ some chat → IsOf i chat g.tables

  find_chat-IsOf :
      (i : Identity) (s : ChatsTables db) (c : SupportChat)
      → OnePerIdentity db s
      → find_chat db i s ≡ some c
      → IsOf i c.id s
  unfolding find_chat
  find_chat-IsOf i s c one found other there =
      let rows = db.chats.rows s.chats in
      let found' = sym (db.chats.find_one_lem (is_chat_of i) s.chats) ∙ found in
      let key = by_key-first chat_key (is_chat_of i) rows c one.ids found' in
      subst (λ x. is_chat_of i x ≡ true) (some_eq (sym key ∙ there))
        (first_meets (is_chat_of i) rows {r = c} found')

  join_own_chat-IsOwn :
      (i : Identity) (socket : SocketData) (g : Gateway db)
      → OnePerIdentity db g.tables
      → socket.role ≡ ordinary
      → socket.chat_id ≡ none
      → IsOwn i (join_own_chat db i socket g).0 (join_own_chat db i socket g).1
  unfolding join_own_chat enter_chat
  join_own_chat-IsOwn i socket g one role outside = elim (Option-cases (find_chat db i g.tables)) [
    | inl nothing ↦
        rw (join_own_chat, nothing)
          (record { customer = role; who = refl; own = λ chat e. absurd (cc (outside, e)) })
    | inr (c, found) ↦
        rw (join_own_chat, found)
          (record {
            customer = role;
            who = refl;
            own = λ chat e.
                subst (λ k. IsOf i k g.tables) (some_eq e) (find_chat-IsOf i g.tables c one found);
          })
  ]

  start_chat-IsOf :
      (i : Identity) (socket socket' : SocketData) (g g' : Gateway db) (chat : ℕ)
      → IsIndexed db
      → OnePerIdentity db g.tables
      → socket.identity ≡ some i
      → start_chat db socket g ≡ ok (some chat, socket', g')
      → IsOf i chat g'.tables
  unfolding start_chat enter_chat
  start_chat-IsOf i socket socket' g g' chat indexed one who h =
      elim (Result-cases (get_or_create_chat db i (λ s. s) g.tables)) [
        | inl (e, broken) ↦
            let h' : ◌≡◌ {A = Result (Option ℕ × SocketData × Gateway db)} (err e)
                (ok (some chat, socket', g')) =
              rw (start_chat, who, broken) at h in
            absurd (cc h')
        | inr ((c, tables), made) ↦
            let h' : ◌≡◌ {A = Result (Option ℕ × SocketData × Gateway db)}
                (ok (number_of (some c.id), _, _)) (ok (some chat, socket', g')) =
              rw (start_chat, who, made) at h in
            let out = ok-injective h' in
            let id = some_eq (
              number_of-eq-some (some c.id) chat
                (ap (λ (x : Option ℕ × SocketData × Gateway db). x.0) out)) in
            let left : tables ≡ g'.tables =
              ap (λ (x : Option ℕ × SocketData × Gateway db). (x.2).tables) out in
            let found =
              get_or_create_chat_again db i (λ s. s) (λ s. s) g.tables tables c indexed made in
            let one' =
              get_or_create_chat-OnePerIdentity db i (λ s. s) g.tables tables c indexed one one
                made in
            subst (λ t. IsOf i chat t) left
              (subst (λ k. IsOf i k tables) id (find_chat-IsOf i tables c one' found.0))
      ]

  start_chat-role :
      (socket socket' : SocketData) (g g' : Gateway db) (chat : Option ℕ)
      → start_chat db socket g ≡ ok (chat, socket', g')
      → socket'.role ≡ socket.role
  unfolding start_chat enter_chat
  start_chat-role socket socket' g g' chat h = elim (Option-cases socket.identity) [
    | inl nobody ↦
        let h' : ◌≡◌ {A = Result (Option ℕ × SocketData × Gateway db)} (ok (none, socket, g))
            (ok (chat, socket', g')) =
          rw (start_chat, nobody) at h in
        ap (λ (x : Option ℕ × SocketData × Gateway db). (x.1).role) (sym (ok-injective h'))
    | inr (i, who) ↦ elim (Result-cases (get_or_create_chat db i (λ s. s) g.tables)) [
      | inl (e, broken) ↦
          let h' : ◌≡◌ {A = Result (Option ℕ × SocketData × Gateway db)} (err e)
              (ok (chat, socket', g')) =
            rw (start_chat, who, broken) at h in
          absurd (cc h')
      | inr ((c, tables), made) ↦
          let h' : ◌≡◌ {A = Result (Option ℕ × SocketData × Gateway db)}
              (ok (number_of (some c.id), record socket { chat_id = some c.id }, _))
              (ok (chat, socket', g')) =
            rw (start_chat, who, made) at h in
          ap (λ (x : Option ℕ × SocketData × Gateway db). (x.1).role) (sym (ok-injective h'))
    ]
  ]

  chat_for-IsOf :
      (i : Identity) (socket socket' : SocketData) (asked : Option ℕ) (g g' : Gateway db) (chat : ℕ)
      → IsIndexed db
      → OnePerIdentity db g.tables
      → IsOwn i socket g
      → chat_for db socket asked g ≡ ok (some chat, socket', g')
      → (socket'.role ≡ ordinary) × IsOf i chat g'.tables
  unfolding chat_for
  chat_for-IsOf i socket socket' asked g g' chat indexed one mine h =
      elim (Option-cases socket.chat_id) [
        | inl outside ↦
            let h' : start_chat db socket g ≡ ok (some chat, socket', g') =
              rw (chat_for, mine.customer, outside) at h in
            (
              start_chat-role socket socket' g g' (some chat) h' ∙ mine.customer,
              start_chat-IsOf i socket socket' g g' chat indexed one mine.who h',
            )
        | inr (k, inside) ↦
            let h' : ◌≡◌ {A = Result (Option ℕ × SocketData × Gateway db)}
                (ok (number_of (some k), socket, g)) (ok (some chat, socket', g')) =
              rw (chat_for, mine.customer, inside) at h in
            let out = ok-injective h' in
            let id =
              number_of-eq-some (some k) chat
                (ap (λ (x : Option ℕ × SocketData × Gateway db). x.0) out) in
            (
              ap (λ (x : Option ℕ × SocketData × Gateway db). (x.1).role) (sym out) ∙ mine.customer,
              subst (λ (x : Gateway db). IsOf i chat x.tables)
                  (ap (λ (x : Option ℕ × SocketData × Gateway db). x.2) out)
                  (mine.own chat (inside ∙ id)),
            )
      ]

  add_message-is_chat_of :
      (i : Identity) (chat now : ℕ) (sender : Option ℕ) (role : UserRole) (content : String)
      (s s' : ChatsTables db) (m : Option SupportMessage) (c : SupportChat)
      → IsOf i chat s
      → role ≡ ordinary
      → add_message db chat sender role content now s ≡ ok (m, c, s')
      → is_chat_of i c ≡ true
  unfolding add_message get_chat_by_id
  add_message-is_chat_of i chat now sender role content s s' m c own customer h =
      let (row, read, h1) =
        >>=-eq-ok (or_throw (db.chats.find_one (at_key chat_key chat) s.chats) _) _ h in
      let ((message, messages), inserted, last) =
        >>=-eq-ok (or_throw (db.messages.insert _ s.messages) _) _ h1 in
      let found =
        sym (first-eq-by_key chat_key chat (db.chats.rows s.chats))
        ∙ sym (db.chats.find_one_lem (at_key chat_key chat) s.chats)
        ∙ or_throw-eq-ok _ _ read in
      ap (λ (x : Option SupportMessage × SupportChat × ChatsTables db). is_chat_of i x.1)
        (sym (ok-injective last))
      ∙ ap (λ r. is_chat_of i (counted r message.created_at row)) customer
      ∙ own row found

  -- Whatever chat a customer's message asks for, what is posted stands in a chat of the customer's
  -- own identity, when the socket is in no other chat, no identity has two chats and the unique
  -- indexes refuse a second one.
  pub handle_message-is_chat_of :
      (i : Identity) (now : ℕ) (client address : String) (asked : Option ℕ) (body : Option String)
      (socket socket' : SocketData) (g g' : Gateway db) (m : Option SupportMessage)
      (c : SupportChat)
      → IsIndexed db
      → OnePerIdentity db g.tables
      → IsOwn i socket g
      → handle_message db now client address asked body socket g ≡ (posted m c, socket', g')
      → is_chat_of i c ≡ true
  handle_message-is_chat_of i now client address asked body socket socket' g g' m c indexed one mine
        h =
      let p = handle_message-Posted db now client address asked body socket socket' g g' m c h in
      let g1 : Gateway db = record g {
        limits = (metered now client address socket.role g.limits).1;
      } in
      let mine' : IsOwn i socket g1 = record {
        customer = mine.customer;
        who = mine.who;
        own = mine.own;
      } in
      let (customer, own) =
        chat_for-IsOf i socket socket' asked g1 p.before p.chat_id indexed one mine' p.chosen in
      add_message-is_chat_of i p.chat_id now socket'.user_id socket'.role p.content p.before.tables
        g'.tables m c own customer p.added
