-- ===== src/Support/Chats/Reach.antt =====
-- The conversations over any history of requests.
use gall_pr.Common.{
  ℕ, ◌≤◌, ◌≡◌, refl, sym, ap, subst, ◌∙◌, String, Option, some, map, Distinct, arith, ok, >>=-eq-ok,
  or_throw, or_throw-eq-ok, ok-injective,
}
use gall_pr.Common.Rows.{by_key, count, at_key, by_key-key, first-eq-by_key}
use gall_pr.Common.Rows.Laws.{map-put, map-change}
use gall_pr.Common.Rows.Counts.{count-put, count-change}
use gall_pr.Identity.{Identity}
use gall_pr.Auth.Entities.{UserRole, admin, ordinary}
use gall_pr.Support.Chats.{
  SupportChat, SupportMessage, chat_key, ChatsDatabase, ChatsTables, is_chat_of, counted,
  get_or_create_chat, claim_guest_chat, get_chat_by_id, add_message, mark_read_by_admin,
  mark_read_by_user, seen_by_admin, seen_by_user,
}
use gall_pr.Support.Chats.Identities.{
  IsIndexed, OnePerIdentity, get_or_create_chat-OnePerIdentity, claim_guest_chat-OnePerIdentity,
}
use gall_pr.Support.Chats.Inbox.{Action, said, read_by_admin, read_by_user, perform, counted-id}

module _ (db : ChatsDatabase) where
  -- What requests make of the tables. A chat is looked up and created with the requests of
  -- others in between.
  pub data Reach (s : ChatsTables db) : ChatsTables db → Type 0 where
    start : Reach s s
    got :
        (i : Identity) (meanwhile : ChatsTables db → ChatsTables db) (t u : ChatsTables db)
        (c : SupportChat)
        → Reach s t
        → Reach s (meanwhile t)
        → get_or_create_chat db i meanwhile t ≡ ok (c, u)
        → Reach s u
    claimed :
        (account : ℕ) (token : String) (t : ChatsTables db)
        → Reach s t
        → Reach s (claim_guest_chat db account token t).1
    acted :
        (chat : ℕ) (a : Action) (t u : ChatsTables db)
        → Reach s t
        → perform db chat a t ≡ ok u
        → Reach s u

  change-OnePerIdentity :
      (chat : ℕ) (f : SupportChat → SupportChat) (s : ChatsTables db)
      → ((c : SupportChat) → (f c).id ≡ c.id)
      → ((i : Identity) (c : SupportChat) → is_chat_of i (f c) ≡ is_chat_of i c)
      → OnePerIdentity db s
      → OnePerIdentity db (record s { chats = db.chats.update (at_key chat_key chat) f s.chats })
  change-OnePerIdentity chat f s keeps same one =
      let rows = db.chats.rows s.chats in
      let e = db.chats.rows-update (at_key chat_key chat) f s.chats in
      record {
        ids =
            subst (λ cs. Distinct (map chat_key cs)) (sym e)
              (subst Distinct (sym (map-change (at_key chat_key chat) chat_key f rows keeps))
                one.ids);
        one = λ i.
            subst (λ cs. count (is_chat_of i) cs ≤ 1) (sym e)
              (subst (λ n. n ≤ 1)
                (sym (count-change (is_chat_of i) (at_key chat_key chat) f rows (same i)))
                (one.one i));
      }

  counted-is_chat_of :
      (i : Identity) (role : UserRole) (now : ℕ) (c : SupportChat)
      → is_chat_of i (counted role now c) ≡ is_chat_of i c
  counted-is_chat_of i admin now c = refl
  counted-is_chat_of i ordinary now c = refl

  said-OnePerIdentity :
      (chat now : ℕ) (role : UserRole) (c : SupportChat) (t : db.messages.Table)
      (s : ChatsTables db)
      → by_key chat_key chat (db.chats.rows s.chats) ≡ some c
      → OnePerIdentity db s
      → OnePerIdentity db
          (record { chats = db.chats.save (counted role now c) s.chats; messages = t })
  said-OnePerIdentity chat now role c t s found one =
      let rows = db.chats.rows s.chats in
      let c' = counted role now c in
      let id : c'.id ≡ chat = counted-id role now c ∙ by_key-key chat_key chat rows {r = c} found in
      let key : by_key chat_key c'.id rows ≡ some c =
        subst (λ k. by_key chat_key k rows ≡ some c) (sym id) found in
      let e = db.chats.rows-save c' s.chats in
      record {
        ids =
            subst (λ cs. Distinct (map chat_key cs)) (sym e)
              (subst Distinct (sym (map-put chat_key c' c rows key)) one.ids);
        one = λ i.
            subst (λ cs. count (is_chat_of i) cs ≤ 1) (sym e)
              (ground (
                arith,
                count-put chat_key (is_chat_of i) c' c rows key,
                counted-is_chat_of i role now c,
                one.one i,
              ));
      }

  perform-OnePerIdentity :
      (chat : ℕ) (a : Action) (s s' : ChatsTables db)
      → OnePerIdentity db s
      → perform db chat a s ≡ ok s'
      → OnePerIdentity db s'
  unfolding perform add_message get_chat_by_id mark_read_by_admin mark_read_by_user
  perform-OnePerIdentity chat (said sender role content now) s s' one h =
      let ((message, row, t), added, last) =
        >>=-eq-ok (add_message db chat sender role content now s) _ h in
      let (c, read, h1) =
        >>=-eq-ok (or_throw (db.chats.find_one (at_key chat_key chat) s.chats) _) _ added in
      let ((m, messages), inserted, h2) =
        >>=-eq-ok (or_throw (db.messages.insert _ s.messages) _) _ h1 in
      let found =
        sym (first-eq-by_key chat_key chat (db.chats.rows s.chats))
        ∙ sym (db.chats.find_one_lem (at_key chat_key chat) s.chats)
        ∙ or_throw-eq-ok _ _ read in
      subst (OnePerIdentity db)
        (ap (λ (x : Option SupportMessage × SupportChat × ChatsTables db). x.2) (ok-injective h2)
          ∙ ok-injective last)
        (said-OnePerIdentity chat m.created_at role c messages s found one)
  perform-OnePerIdentity chat read_by_admin s s' one h =
      subst (OnePerIdentity db) (ok-injective h)
        (change-OnePerIdentity chat seen_by_admin s (λ c. refl) (λ i c. refl) one)
  perform-OnePerIdentity chat read_by_user s s' one h =
      subst (OnePerIdentity db) (ok-injective h)
        (change-OnePerIdentity chat seen_by_user s (λ c. refl) (λ i c. refl) one)

  -- After any history of lookups, claims, messages and readings, in which a lookup that creates a
  -- chat may be interrupted by other requests, no account and no browser has two chats, if none had
  -- at the start and the unique indexes refuse a second one.
  pub Reach-OnePerIdentity :
      {s t : ChatsTables db} → IsIndexed db → OnePerIdentity db s → Reach s t → OnePerIdentity db t
  Reach-OnePerIdentity indexed one start = one
  Reach-OnePerIdentity indexed one (got i meanwhile t u c before between h) =
      get_or_create_chat-OnePerIdentity db i meanwhile t u c indexed
        (Reach-OnePerIdentity indexed one before) (Reach-OnePerIdentity indexed one between) h
  Reach-OnePerIdentity indexed one (claimed account token t before) =
      claim_guest_chat-OnePerIdentity db account token t (Reach-OnePerIdentity indexed one before)
  Reach-OnePerIdentity indexed one (acted chat a t u before h) =
      perform-OnePerIdentity chat a t u (Reach-OnePerIdentity indexed one before) h
