-- ===== src/Users/Forgotten.antt =====
-- What is left of an account that was deleted, and of everybody else.
use gall_pr.Common.{
  ℕ, ◌≡◌, ◌≢◌, refl, sym, ap, subst, ◌∙◌, inl, inr, Bool, true, List, [], ◌∷◌, map, ◌==◌, arith,
  All, All-mono, Bool-cases, ok, >>=-eq-ok, throw_if, throw_if-eq-ok, or_throw, ok-injective,
}
use gall_pr.Common.Rows.{at_key, keep, discard, change, count}
use gall_pr.Common.Rows.Counts.{count-discard, count-discard_self}
use gall_pr.Auth.Entities.{user_key, of_user, is_reset_of}
use gall_pr.Orders.Entities.{Order}
use gall_pr.Likes.{by_user, forget_likes}
use gall_pr.Support.Chats.{SupportChat, chat_key, in_chat, includes}
use gall_pr.Users.{
  AccountDatabase, AccountTables, is_order_of, is_cart_of, is_participant, has_chat, is_sender,
  is_among, without_user, chats_of, forget_messages, forget_support, forget_auth, forget, remove,
}
use gall_pr.Users.Others.{Stays, forget-Stays}

module _ {A : Type 0} where
  -- A deletion of all that is counted.
  count-discard_all :
      (w v : A → Bool) (xs : List A)
      → ((x : A) → w x ≡ true → v x ≡ true)
      → count w (discard v xs) ≡ 0
  unfolding count discard
  count-discard_all w v [] all = refl
  count-discard_all w v (x ∷ xs) all = elim (Bool-cases (v x)) [
    | inl gone ↦ rw (gone, discard) (count-discard_all w v xs all)
    | inr stays ↦ elim (Bool-cases (w x)) [
      | inl hit ↦ absurd (cc (all x hit, stays))
      | inr miss ↦ rw (stays, discard, count) (rw miss (count-discard_all w v xs all))
    ]
  ]

-- No order names the account any more, and nothing else of an order has changed.
count-without_user :
    (id : ℕ) (os : List Order)
    → count (is_order_of id) (change (is_order_of id) without_user os) ≡ 0
unfolding count change
count-without_user id [] = refl
count-without_user id (o ∷ os) = elim (Bool-cases (is_order_of id o)) [
  | inl own ↦ rw (own, change, count) (count-without_user id os)
  | inr other ↦ rw (other, change, count) (rw other (count-without_user id os))
]

-- A chat whose id is in the list, and the messages in it.
includes-map :
    (id : ℕ) (cs : List SupportChat)
    → All
        (λ c. has_chat id c ≡ true → includes c.id (map chat_key (keep (has_chat id) cs)) ≡ true)
        cs
unfolding keep
includes-map id [] = tt
includes-map id (c ∷ cs) = elim (Bool-cases (has_chat id c)) [
  | inl own ↦ (
    λ h. rw (own, keep) (ground arith),
    All-mono cs (λ x f h. rw (own, keep) (ground (arith, f h))) (includes-map id cs),
  )
  | inr other ↦ (
    λ h. absurd (cc (h, other)),
    All-mono cs (λ x f h. rw (other, keep) (f h)) (includes-map id cs),
  )
]

module _ (db : AccountDatabase) where
  pub record NoTrace (id : ℕ) (s s' : AccountTables db) : Type 0 where
    pub sessions : count (of_user id) (db.auth.sessions.rows s'.auth.sessions) ≡ 0
    pub resets : count (is_reset_of id) (db.auth.resets.rows s'.auth.resets) ≡ 0
    pub users : count (at_key user_key id) (db.auth.users.rows s'.auth.users) ≡ 0
    pub likes : count (by_user id) (db.likes.likes.rows s'.likes.likes) ≡ 0
    pub carts : count (is_cart_of id) (db.carts.rows s'.carts) ≡ 0
    pub participants : count (is_participant id) (db.participants.rows s'.participants) ≡ 0
    pub chats : count (has_chat id) (db.support.chats.rows s'.support.chats) ≡ 0
    pub written : count (is_sender id) (db.support.messages.rows s'.support.messages) ≡ 0
    pub threads :
        All
          (λ (c : SupportChat).
            has_chat id c ≡ true
            → count (in_chat c.id) (db.support.messages.rows s'.support.messages) ≡ 0)
          (db.support.chats.rows s.support.chats)
    pub orders : count (is_order_of id) (db.orders.rows s'.orders) ≡ 0

  forget_messages-written :
      (id : ℕ) (chats : List ℕ) (t : db.support.messages.Table)
      → count (is_sender id) (db.support.messages.rows (forget_messages db id chats t)) ≡ 0
  unfolding forget_messages
  forget_messages-written id [] t =
      ap (count (is_sender id)) (db.support.messages.rows-delete (is_sender id) t)
      ∙ count-discard_self (is_sender id) (db.support.messages.rows t)
  forget_messages-written id (chat ∷ chats) t =
      ap (count (is_sender id)) (db.support.messages.rows-delete (is_sender id) _)
      ∙ count-discard_self (is_sender id) _

  forget_messages-threads :
      (id k : ℕ) (chats : List ℕ) (t : db.support.messages.Table)
      → includes k chats ≡ true
      → count (in_chat k) (db.support.messages.rows (forget_messages db id chats t)) ≡ 0
  unfolding forget_messages
  forget_messages-threads id k [] t h = absurd (cc h)
  forget_messages-threads id k (chat ∷ chats) t h =
      let gone = is_among (chat ∷ chats) in
      let rows = db.support.messages.rows t in
      let left = count-discard_all (in_chat k) gone rows (λ x e.
        let i : x.chat_id ≡ k = ground (arith, e) in
        subst (λ n. includes n (chat ∷ chats) ≡ true) (sym i) h) in
      ap (count (in_chat k)) (
        db.support.messages.rows-delete (is_sender id) _
        ∙ ap (discard (is_sender id)) (db.support.messages.rows-delete gone t))
      ∙ omega (arith, left, count-discard (in_chat k) (is_sender id) (discard gone rows))

  forget-NoTrace : (id : ℕ) (s : AccountTables db) → NoTrace id s (forget db id s)
  unfolding forget forget_auth forget_support forget_likes
  forget-NoTrace id s = record {
    sessions =
        ap (count (of_user id)) (db.auth.sessions.rows-delete (of_user id) s.auth.sessions)
        ∙ count-discard_self (of_user id) (db.auth.sessions.rows s.auth.sessions);
    resets =
        ap (count (is_reset_of id)) (db.auth.resets.rows-delete (is_reset_of id) s.auth.resets)
        ∙ count-discard_self (is_reset_of id) (db.auth.resets.rows s.auth.resets);
    users =
        ap (count (at_key user_key id))
          (db.auth.users.rows-delete (at_key user_key id) s.auth.users)
        ∙ count-discard_self (at_key user_key id) (db.auth.users.rows s.auth.users);
    likes =
        ap (count (by_user id)) (db.likes.likes.rows-delete (by_user id) s.likes.likes)
        ∙ count-discard_self (by_user id) (db.likes.likes.rows s.likes.likes);
    carts =
        ap (count (is_cart_of id)) (db.carts.rows-delete (is_cart_of id) s.carts)
        ∙ count-discard_self (is_cart_of id) (db.carts.rows s.carts);
    participants =
        ap (count (is_participant id))
          (db.participants.rows-delete (is_participant id) s.participants)
        ∙ count-discard_self (is_participant id) (db.participants.rows s.participants);
    chats =
        ap (count (has_chat id)) (db.support.chats.rows-delete (has_chat id) s.support.chats)
        ∙ count-discard_self (has_chat id) (db.support.chats.rows s.support.chats);
    written = forget_messages-written id (chats_of db id s.support) s.support.messages;
    threads =
        All-mono (db.support.chats.rows s.support.chats)
          (λ c f own.
            forget_messages-threads id c.id (chats_of db id s.support) s.support.messages (
              subst (λ cs. includes c.id (map chat_key cs) ≡ true)
                (sym (db.support.chats.find_lem (has_chat id) s.support.chats)) (f own)))
          (includes-map id (db.support.chats.rows s.support.chats));
    orders =
        ap (count (is_order_of id)) (db.orders.rows-update (is_order_of id) without_user s.orders)
        ∙ count-without_user id (db.orders.rows s.orders);
  }

  -- When an account is deleted it is not the requester's, no session, reset link, like, cart line,
  -- entry in a giveaway, chat, message in its chats or message that it sent is left and no order
  -- names it; only these orders lose their owner and no order changes otherwise, the counters of
  -- likes stay right and no painting changes otherwise, and every account, session, reset link,
  -- like, cart line, entry and chat of others stays, and every message that others sent in other
  -- chats.
  pub remove-NoTrace :
      (id requester : ℕ) (s s' : AccountTables db)
      → remove db id requester s ≡ ok s'
      → (id ≢ requester) × NoTrace id s s' × Stays db id s s'
  unfolding remove
  remove-NoTrace id requester s s' h =
      let (u, other, h1) = >>=-eq-ok (throw_if (id == requester) _) _ h in
      let (user, found, last) =
        >>=-eq-ok (or_throw (db.auth.users.find_one (at_key user_key id) s.auth.users) _) _ h1 in
      let apart = throw_if-eq-ok _ _ {u = u} other in
      let left = ok-injective last in
      (
        λ e. ground (arith, apart, e),
        subst (NoTrace id s) left (forget-NoTrace id s),
        subst (Stays db id s) left (forget-Stays db id s),
      )
