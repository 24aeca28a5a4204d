-- ===== src/Support/Chats/Inbox.antt =====
-- What a conversation is, apart from the tables: what was said, and how much of it either side
-- has not seen.
use gall_pr.Common.{
  ℕ, ◌+◌, ◌≡◌, refl, sym, ap, subst, ◌∙◌, inl, inr, String, Option, some, List, [], ◌∷◌, ◌++◌, ◌==◌,
  if◌then◌else◌, arith, Bool-cases, some_eq, Result, ok, ◌>>=◌, >>=-eq-ok, or_throw, or_throw-eq-ok,
  ok-injective,
}
use gall_pr.Common.Rows.{first, by_key, at_key, change, by_key-put, by_key-key, first-eq-by_key}
use gall_pr.Auth.Entities.{UserRole, admin, ordinary}
use gall_pr.Support.Chats.{
  SupportChat, SupportMessage, chat_key, ChatsDatabase, ChatsTables, get_chat_by_id, add_message,
  mark_read_by_admin, mark_read_by_user, seen_by_admin, seen_by_user, counted,
}

pub record Inbox : Type 0 where
  pub thread : List (UserRole × String)
  pub for_admin : ℕ
  pub for_user : ℕ

-- What may happen to a conversation.
pub data Action : Type 0 where
  said : (sender : Option ℕ) (role : UserRole) (content : String) (now : ℕ) → Action
  read_by_admin read_by_user : Action

unfoldable pub act : Action → Inbox → Inbox
act (said sender admin content now) i = record i {
  thread = i.thread ++ (admin, content) ∷ [];
  for_user = i.for_user + 1;
}
act (said sender ordinary content now) i = record i {
  thread = i.thread ++ (ordinary, content) ∷ [];
  for_admin = i.for_admin + 1;
}
act read_by_admin i = record i { for_admin = 0 }
act read_by_user i = record i { for_user = 0 }

-- A series of actions, each on the conversation of the id, rest one conversation sees it.
unfoldable pub act_all : List (ℕ × Action) → ℕ → Inbox → Inbox
unfolding act
act_all [] chat i = i
act_all ((to, a) ∷ rest) chat i = act_all rest chat (if to == chat then act a i else i)

-- What was said in a conversation.
unfoldable pub said_in : ℕ → List SupportMessage → List (UserRole × String)
said_in chat [] = []
said_in chat (m ∷ ms) =
    let rest = said_in chat ms in
    if m.chat_id == chat then (m.sender_role, m.content) ∷ rest else rest

said_in-append :
    (chat : ℕ) (ms : List SupportMessage) (m : SupportMessage)
    → said_in chat (ms ++ m ∷ []) ≡ (
        if m.chat_id == chat
        then said_in chat ms ++ (m.sender_role, m.content) ∷ []
        else said_in chat ms)
unfolding said_in
said_in-append chat [] m = elim (Bool-cases (m.chat_id == chat)) [
  | inl hit ↦ rw hit refl
  | inr miss ↦ rw miss refl
]
said_in-append chat (x ∷ ms) m = ground (arith, said_in-append chat ms m)

-- The row under a key after a change of the row under a key.
by_key-change :
    (to chat : ℕ) (f : SupportChat → SupportChat) (cs : List SupportChat) {c : SupportChat}
    → ((x : SupportChat) → (f x).id ≡ x.id)
    → by_key chat_key chat cs ≡ some c
    → by_key chat_key chat (change (at_key chat_key to) f cs) ≡ some (if to == chat then f c else c)
unfolding by_key first change
by_key-change to chat f [] keeps h = cc
by_key-change to chat f (x ∷ cs) {c} keeps h =
    let rest = by_key-change to chat f cs {c = c} keeps in ground (arith, rest, h, keeps x)

abbrev inbox_of : SupportChat → List (UserRole × String) → Inbox
inbox_of c thread = record {
  thread = thread;
  for_admin = c.unread_by_admin;
  for_user = c.unread_by_user;
}

pub counted-id : (role : UserRole) (now : ℕ) (c : SupportChat) → (counted role now c).id ≡ c.id
counted-id admin now c = refl
counted-id ordinary now c = refl

counted-act :
    (sender : Option ℕ) (role : UserRole) (content : String) (now at : ℕ) (c : SupportChat)
    (t : List (UserRole × String))
    → inbox_of (counted role at c) (t ++ (role, content) ∷ [])
      ≡ act (said sender role content now) (inbox_of c t)
unfolding act
counted-act sender admin content now at c t = refl
counted-act sender ordinary content now at c t = refl

module _ (db : ChatsDatabase) where
  -- The conversation that the tables hold under an id.
  pub record Holds (chat : ℕ) (s : ChatsTables db) (i : Inbox) : Type 0 where
    pub row : SupportChat
    pub there : by_key chat_key chat (db.chats.rows s.chats) ≡ some row
    pub same : inbox_of row (said_in chat (db.messages.rows s.messages)) ≡ i

  -- The call of the service that carries an action out.
  unfoldable pub perform : ℕ → Action → ChatsTables db → Result (ChatsTables db)
  perform chat (said sender role content now) s = do
    (message, row, s') ← add_message db chat sender role content now s
    ok s'
  perform chat read_by_admin s = ok (mark_read_by_admin db chat s)
  perform chat read_by_user s = ok (mark_read_by_user db chat s)

  unfoldable pub perform_all : List (ℕ × Action) → ChatsTables db → Result (ChatsTables db)
  perform_all [] s = ok s
  perform_all ((chat, a) ∷ rest) s = do s' ← perform chat a s; perform_all rest s'

  change-Holds :
      (to chat : ℕ) (a : Action) (f : SupportChat → SupportChat) (s : ChatsTables db) (i : Inbox)
      → ((x : SupportChat) → (f x).id ≡ x.id)
      → ((x : SupportChat) (t : List (UserRole × String)) → inbox_of (f x) t ≡ act a (inbox_of x t))
      → Holds chat s i
      → Holds chat
          (record s { chats = db.chats.update (at_key chat_key to) f s.chats })
          (if to == chat then act a i else i)
  change-Holds to chat a f s i keeps acts h = record {
    row = if to == chat then f h.row else h.row;
    there =
        ap (by_key chat_key chat) (db.chats.rows-update (at_key chat_key to) f s.chats)
        ∙ by_key-change to chat f (db.chats.rows s.chats) {c = h.row} keeps h.there;
    same = elim (Bool-cases (to == chat)) [
      | inl hit ↦ rw hit (acts h.row _ ∙ ap (act a) h.same)
      | inr miss ↦ rw miss h.same
    ];
  }

  -- The tables after a message `m` of the chat `c`.
  said-Holds :
      (to chat now : ℕ) (sender : Option ℕ) (role : UserRole) (content : String) (c : SupportChat)
      (m : SupportMessage) (t : db.messages.Table) (s : ChatsTables db) (i : Inbox)
      → by_key chat_key to (db.chats.rows s.chats) ≡ some c
      → db.messages.rows t ≡ db.messages.rows s.messages ++ m ∷ []
      → m.chat_id ≡ to
      → ◌≡◌ {A = UserRole × String} (m.sender_role, m.content) (role, content)
      → Holds chat s i
      → Holds chat
          (record { chats = db.chats.save (counted role m.created_at c) s.chats; messages = t })
          (if to == chat then act (said sender role content now) i else i)
  said-Holds to chat now sender role content c m t s i found added about what h =
      let rows = db.chats.rows s.chats in
      let c' = counted role m.created_at c in
      let id : c'.id ≡ to =
        counted-id role m.created_at c ∙ by_key-key chat_key to rows {r = c} found in
      let put' : by_key chat_key chat (db.chats.rows (db.chats.save c' s.chats))
          ≡ (if to == chat then some c' else by_key chat_key chat rows) =
        ap (by_key chat_key chat) (db.chats.rows-save c' s.chats)
        ∙ by_key-put chat_key chat c' rows
        ∙ ap (λ k. if k == chat then some c' else by_key chat_key chat rows) id in
      let spoken : said_in chat (db.messages.rows t) ≡ (
          if to == chat
          then said_in chat (db.messages.rows s.messages) ++ (role, content) ∷ []
          else said_in chat (db.messages.rows s.messages)) =
        ap (said_in chat) added
        ∙ said_in-append chat (db.messages.rows s.messages) m
        ∙ ap
            (λ k.
              if k == chat
              then said_in chat (db.messages.rows s.messages) ++ (m.sender_role, m.content) ∷ []
              else said_in chat (db.messages.rows s.messages))
            about
        ∙ ap
            (λ x.
              if to == chat
              then said_in chat (db.messages.rows s.messages) ++ x ∷ []
              else said_in chat (db.messages.rows s.messages))
            what in
      elim (Bool-cases (to == chat)) [
        | inl hit ↦
            let e : to ≡ chat = ground (arith, hit) in
            let same : c ≡ h.row =
              some_eq (sym (subst (λ k. by_key chat_key k rows ≡ some c) e found) ∙ h.there) in
            rw hit (record {
              row = c';
              there = put' ∙ rw hit refl;
              same =
                  ap (inbox_of c') (spoken ∙ rw hit refl)
                  ∙ counted-act sender role content now m.created_at c _
                  ∙ ap
                      (λ x.
                        act (said sender role content now)
                          (inbox_of x (said_in chat (db.messages.rows s.messages))))
                      same
                  ∙ ap (act (said sender role content now)) h.same;
            })
        | inr miss ↦ rw miss (record {
          row = h.row;
          there = put' ∙ rw miss h.there;
          same = ap (inbox_of h.row) (spoken ∙ rw miss refl) ∙ h.same;
        })
      ]

  perform-Holds :
      (to chat : ℕ) (a : Action) (s s' : ChatsTables db) (i : Inbox)
      → perform to a s ≡ ok s'
      → Holds chat s i
      → Holds chat s' (if to == chat then act a i else i)
  unfolding perform add_message get_chat_by_id mark_read_by_admin mark_read_by_user act
  perform-Holds to chat (said sender role content now) s s' i e h =
      let ((message, row, t), added, last) =
        >>=-eq-ok (add_message db to sender role content now s) _ e in
      let (c, read, e1) =
        >>=-eq-ok (or_throw (db.chats.find_one (at_key chat_key to) s.chats) _) _ added in
      let ((m, messages), inserted, e2) =
        >>=-eq-ok (or_throw (db.messages.insert _ s.messages) _) _ e1 in
      let (rows, shape, fresh) =
        db.messages.rows-insert _ s.messages messages m (or_throw-eq-ok _ _ inserted) in
      let found =
        sym (db.chats.find_one_lem (at_key chat_key to) s.chats) ∙ or_throw-eq-ok _ _ read in
      subst (λ x. Holds chat x (if to == chat then act (said sender role content now) i else i))
        (ap (λ (x : Option SupportMessage × SupportChat × ChatsTables db). x.2) (ok-injective e2)
          ∙ ok-injective last)
        (said-Holds to chat now sender role content c m messages s i
          (sym (first-eq-by_key chat_key to (db.chats.rows s.chats)) ∙ found) rows
          (ap (λ (x : SupportMessage). x.chat_id) shape)
          (ap (λ (x : SupportMessage). (x.sender_role, x.content)) shape) h)
  perform-Holds to chat read_by_admin s s' i e h =
      subst (λ x. Holds chat x (if to == chat then act read_by_admin i else i)) (ok-injective e)
        (change-Holds to chat read_by_admin seen_by_admin s i (λ x. refl) (λ x t. refl) h)
  perform-Holds to chat read_by_user s s' i e h =
      subst (λ x. Holds chat x (if to == chat then act read_by_user i else i)) (ok-injective e)
        (change-Holds to chat read_by_user seen_by_user s i (λ x. refl) (λ x t. refl) h)

  -- After any series of messages and readings that succeeds, the tables hold of a conversation what
  -- the series makes of it: what was said in order, and for either side how much of it came after
  -- its last reading.
  pub perform_all-Holds :
      (chat : ℕ) (actions : List (ℕ × Action)) (s s' : ChatsTables db) (i : Inbox)
      → Holds chat s i
      → perform_all actions s ≡ ok s'
      → Holds chat s' (act_all actions chat i)
  unfolding perform_all act_all
  perform_all-Holds chat [] s s' i h e = subst (λ x. Holds chat x i) (ok-injective e) h
  perform_all-Holds chat ((to, a) ∷ rest) s s' i h e =
      let (t, one, more) = >>=-eq-ok (perform to a s) _ e in
      perform_all-Holds chat rest t s' (if to == chat then act a i else i)
        (perform-Holds to chat a s t i one h) more
