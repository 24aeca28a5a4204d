-- ===== src/Users/Others.antt =====
-- What the deletion of an account leaves to everybody else.
use gall_pr.Common.{
  ℕ, ◌≡◌, refl, sym, ap, ◌∙◌, inl, inr, Bool, true, false, not, ◌&&◌, Option, none, some, List, [],
  ◌∷◌, map, ◌==◌, if◌then◌else◌, arith, Bool-cases,
}
use gall_pr.Common.Rows.{at_key, keep, discard, change, count}
use gall_pr.Auth.Entities.{User, RefreshSession, PasswordReset, user_key, of_user, is_reset_of}
use gall_pr.Orders.Entities.{Order, Painting, CartItem}
use gall_pr.Likes.{PaintingLike, LikesDatabase, by_user, liked_less, take_likes_off, forget_likes}
use gall_pr.Likes.Laws.{IsCounted, forget_likes-IsCounted}
use gall_pr.Giveaways.{GiveawayParticipant}
use gall_pr.Support.Chats.{SupportChat, SupportMessage, chat_key, includes}
use gall_pr.Users.{
  AccountDatabase, AccountTables, is_id, is_order_of, is_cart_of, is_participant, has_chat,
  is_sender, is_among, without_user, chats_of, forget_messages, forget_support, forget_auth, forget,
}

-- The column names the account.
abbrev pub names : ℕ → Option ℕ → Bool
names id none = false
names id (some n) = n == id

module _ {A : Type 0} where
  -- The rows that are not deleted.
  discard-keep :
      (v w : A → Bool) (xs : List A) → ((x : A) → not (v x) ≡ w x) → discard v xs ≡ keep w xs
  unfolding discard keep
  discard-keep v w [] same = refl
  discard-keep v w (x ∷ xs) same = elim (Bool-cases (v x)) [
    | inl gone ↦
        let out : w x ≡ false = sym (same x) ∙ ap not gone in
        rw (gone, discard) (rw (out, keep) (discard-keep v w xs same))
    | inr stays ↦
        let left : w x ≡ true = sym (same x) ∙ ap not stays in
        rw (stays, discard) (rw (left, keep) (ap (λ ys. x ∷ ys) (discard-keep v w xs same)))
  ]

  -- Two deletions.
  discard-discard-keep :
      (u v w : A → Bool) (xs : List A)
      → ((x : A) → not (u x) && not (v x) ≡ w x)
      → discard u (discard v xs) ≡ keep w xs
  unfolding discard keep
  discard-discard-keep u v w [] same = refl
  discard-discard-keep u v w (x ∷ xs) same =
      let rest = discard-discard-keep u v w xs same in
      elim (Bool-cases (v x)) [
        | inl gone ↦
            let out : w x ≡ false = sym (same x) ∙ ground (arith, gone) in
            rw (gone, discard) (rw (out, keep) rest)
        | inr stays ↦ elim (Bool-cases (u x)) [
          | inl gone ↦
              let out : w x ≡ false = sym (same x) ∙ ground (arith, gone) in
              rw (stays, discard) (rw (gone, discard) (rw (out, keep) rest))
          | inr both ↦
              let left : w x ≡ true = sym (same x) ∙ ground (arith, stays, both) in
              rw (stays, discard) (rw (both, discard) (rw (left, keep) (ap (λ ys. x ∷ ys) rest)))
        ]
      ]

names-is_id : (id : ℕ) (o : Option ℕ) → is_id id o ≡ names id o
names-is_id id none = refl
names-is_id id (some n) = refl

-- The orders of the account lose their owner, and no other.
abbrev pub anonymous : ℕ → Order → Order
anonymous id o = if names id o.user_id then record o { user_id = none } else o

change-anonymous :
    (id : ℕ) (os : List Order) → change (is_order_of id) without_user os ≡ map (anonymous id) os
unfolding change
change-anonymous id [] = refl
change-anonymous id (o ∷ os) =
    rw (names-is_id id o.user_id) (ap (λ xs. anonymous id o ∷ xs) (change-anonymous id os))

-- The chats of the account that have this id.
abbrev pub own_chats : ℕ → ℕ → List SupportChat → ℕ
own_chats id chat cs = count (λ (c : SupportChat). names id c.user_id && c.id == chat) cs

includes-own_chats :
    (id chat : ℕ) (cs : List SupportChat)
    → includes chat (map chat_key (keep (has_chat id) cs)) ≡ not (own_chats id chat cs == 0)
unfolding keep count
includes-own_chats id chat [] = refl
includes-own_chats id chat (c ∷ cs) =
    let rest = includes-own_chats id chat cs in
    let same = names-is_id id c.user_id in
    elim (Bool-cases (names id c.user_id)) [
      | inl own ↦
          let e : has_chat id c ≡ true = same ∙ own in rw (e, keep) (ground (arith, rest, own))
      | inr other ↦
          let e : has_chat id c ≡ false = same ∙ other in rw (e, keep) (ground (arith, rest, other))
    ]

-- A painting but for its counter of likes.
abbrev pub uncounted : Painting → Painting
uncounted p = record p { likes_count = 0 }

map-liked_less :
    (w : Painting → Bool) (ps : List Painting)
    → map uncounted (change w liked_less ps) ≡ map uncounted ps
unfolding change
map-liked_less w [] = refl
map-liked_less w (p ∷ ps) = elim (Bool-cases (w p)) [
  | inl hit ↦ rw (hit, change) (ap (λ xs. uncounted p ∷ xs) (map-liked_less w ps))
  | inr miss ↦ rw (miss, change) (ap (λ xs. uncounted p ∷ xs) (map-liked_less w ps))
]

take_likes_off-uncounted :
    (db : LikesDatabase) (likes : List PaintingLike) (t : db.paintings.Table)
    → map uncounted (db.paintings.rows (take_likes_off db likes t))
      ≡ map uncounted (db.paintings.rows t)
unfolding take_likes_off
take_likes_off-uncounted db [] t = refl
take_likes_off-uncounted db (like ∷ likes) t =
    take_likes_off-uncounted db likes _
    ∙ ap (map uncounted) (db.paintings.rows-update _ liked_less t)
    ∙ map-liked_less _ (db.paintings.rows t)

none_among : (ms : List SupportMessage) → discard (is_among []) ms ≡ ms
unfolding discard
none_among [] = refl
none_among (m ∷ ms) = ap (λ xs. m ∷ xs) (none_among ms)

module _ (db : AccountDatabase) where
  -- What stays: the orders, of which the account's lose their owner; the paintings, and counters of
  -- likes that were right; all rows of other accounts; the messages that others sent in chats of
  -- others.
  pub record Stays (id : ℕ) (s s' : AccountTables db) : Type 0 where
    pub orders : db.orders.rows s'.orders ≡ map (anonymous id) (db.orders.rows s.orders)
    pub paintings :
        map uncounted (db.likes.paintings.rows s'.likes.paintings)
        ≡ map uncounted (db.likes.paintings.rows s.likes.paintings)
    pub counted : IsCounted db.likes s.likes → IsCounted db.likes s'.likes
    pub users :
        db.auth.users.rows s'.auth.users
        ≡ keep (λ (u : User). not (u.id == id)) (db.auth.users.rows s.auth.users)
    pub sessions :
        db.auth.sessions.rows s'.auth.sessions
        ≡ keep
            (λ (r : RefreshSession). not (r.user_id == id))
            (db.auth.sessions.rows s.auth.sessions)
    pub resets :
        db.auth.resets.rows s'.auth.resets
        ≡ keep (λ (r : PasswordReset). not (r.user_id == id)) (db.auth.resets.rows s.auth.resets)
    pub carts :
        db.carts.rows s'.carts
        ≡ keep (λ (c : CartItem). not (names id c.user_id)) (db.carts.rows s.carts)
    pub likes :
        db.likes.likes.rows s'.likes.likes
        ≡ keep (λ (l : PaintingLike). not (l.user_id == id)) (db.likes.likes.rows s.likes.likes)
    pub participants :
        db.participants.rows s'.participants
        ≡ keep
            (λ (p : GiveawayParticipant). not (p.user_id == id))
            (db.participants.rows s.participants)
    pub chats :
        db.support.chats.rows s'.support.chats
        ≡ keep
            (λ (c : SupportChat). not (names id c.user_id))
            (db.support.chats.rows s.support.chats)
    pub messages :
        db.support.messages.rows s'.support.messages
        ≡ keep
            (λ (m : SupportMessage).
              not (names id m.sender_id)
              && own_chats id m.chat_id (db.support.chats.rows s.support.chats) == 0)
            (db.support.messages.rows s.support.messages)

  forget_messages-rows :
      (id : ℕ) (chats : List ℕ) (t : db.support.messages.Table)
      → db.support.messages.rows (forget_messages db id chats t)
        ≡ discard (is_sender id) (discard (is_among chats) (db.support.messages.rows t))
  unfolding forget_messages
  forget_messages-rows id [] t =
      db.support.messages.rows-delete (is_sender id) t
      ∙ ap (discard (is_sender id)) (sym (none_among (db.support.messages.rows t)))
  forget_messages-rows id (chat ∷ chats) t =
      db.support.messages.rows-delete (is_sender id) _
      ∙ ap (discard (is_sender id)) (db.support.messages.rows-delete (is_among (chat ∷ chats)) t)

  left_in :
      (id : ℕ) (s : AccountTables db) (m : SupportMessage)
      → not (is_sender id m) && not (is_among (chats_of db id s.support) m)
        ≡ not (names id m.sender_id)
          && own_chats id m.chat_id (db.support.chats.rows s.support.chats) == 0
  left_in id s m =
      let inside =
        ap (λ cs. includes m.chat_id (map chat_key cs))
          (db.support.chats.find_lem (has_chat id) s.support.chats)
        ∙ includes-own_chats id m.chat_id (db.support.chats.rows s.support.chats) in
      rw (names-is_id id m.sender_id) (rw inside (ground arith))

  pub forget-Stays : (id : ℕ) (s : AccountTables db) → Stays id s (forget db id s)
  unfolding forget forget_auth forget_likes forget_support
  forget-Stays id s = record {
    orders =
        db.orders.rows-update (is_order_of id) without_user s.orders
        ∙ change-anonymous id (db.orders.rows s.orders);
    paintings =
        take_likes_off-uncounted db.likes (db.likes.likes.find (by_user id) s.likes.likes)
          s.likes.paintings;
    counted = forget_likes-IsCounted db.likes id s.likes;
    users =
        db.auth.users.rows-delete (at_key user_key id) s.auth.users
        ∙ discard-keep (at_key user_key id) _ _ (λ x. refl);
    sessions =
        db.auth.sessions.rows-delete (of_user id) s.auth.sessions
        ∙ discard-keep (of_user id) _ _ (λ x. refl);
    resets =
        db.auth.resets.rows-delete (is_reset_of id) s.auth.resets
        ∙ discard-keep (is_reset_of id) _ _ (λ x. refl);
    carts =
        db.carts.rows-delete (is_cart_of id) s.carts
        ∙ discard-keep (is_cart_of id) _ _ (λ x. ap not (names-is_id id x.user_id));
    likes =
        db.likes.likes.rows-delete (by_user id) s.likes.likes
        ∙ discard-keep (by_user id) _ _ (λ x. refl);
    participants =
        db.participants.rows-delete (is_participant id) s.participants
        ∙ discard-keep (is_participant id) _ _ (λ x. refl);
    chats =
        db.support.chats.rows-delete (has_chat id) s.support.chats
        ∙ discard-keep (has_chat id) _ _ (λ x. ap not (names-is_id id x.user_id));
    messages =
        forget_messages-rows id (chats_of db id s.support) s.support.messages
        ∙ discard-discard-keep (is_sender id) (is_among (chats_of db id s.support)) _ _
            (left_in id s);
  }
