-- ===== src/Support/Chats/Latest.antt =====
-- The message that the inbox shows of a conversation.
use gall_pr.Common.{
  ℕ, ◌≡◌, refl, sym, subst, ◌∙◌, ◌⊎◌, inl, inr, Bool, true, false, Option, none, some, List, [],
  ◌∷◌, ◌==◌, ◌<◌, ◌≤◌, ◌≢◌, ltb, arith, All, All-mono, Among, All-Among, Bool-cases, Option-cases,
  some_eq,
}
use gall_pr.Common.Rows.{keep}
use gall_pr.Support.Chats.{
  SupportMessage, ChatsDatabase, ChatsTables, in_chat, not_after, place, oldest_first, Latest, set,
  latest_of, includes, latest_message_per_chat,
}

-- No message stands before an older one.
abbrev Sorted : List SupportMessage → Type 0
Sorted [] = Unit {0}
Sorted (m ∷ ms) = All (λ n. not_after m n ≡ true) ms × Sorted ms

module _ (P : SupportMessage → Type 0) where
  All-place : (m : SupportMessage) (ms : List SupportMessage) → P m → All P ms → All P (place m ms)
  unfolding place
  All-place m [] p h = (p, tt)
  All-place m (n ∷ ns) p (q, h) = elim (Bool-cases (not_after m n)) [
    | inl before ↦ rw before (p, (q, h))
    | inr after ↦ rw after (q, All-place m ns p h)
  ]

  All-unplace :
      (m : SupportMessage) (ms : List SupportMessage) → All P (place m ms) → P m × All P ms
  unfolding place
  All-unplace m [] h = h
  All-unplace m (n ∷ ns) h = elim (Bool-cases (not_after m n)) [
    | inl before ↦ let h' : P m × (P n × All P ns) = rw before at h in h'
    | inr after ↦
        let h' : P n × All P (place m ns) = rw after at h in
        let (p, ps) = All-unplace m ns h'.1 in (p, (h'.0, ps))
  ]

  All-oldest_first : (ms : List SupportMessage) → All P (oldest_first ms) → All P ms
  unfolding oldest_first
  All-oldest_first [] h = tt
  All-oldest_first (m ∷ ms) h =
      let (p, ps) = All-unplace m (oldest_first ms) h in (p, All-oldest_first ms ps)

  All-oldest : (ms : List SupportMessage) → All P ms → All P (oldest_first ms)
  unfolding oldest_first
  All-oldest [] h = tt
  All-oldest (m ∷ ms) (p, h) = All-place m (oldest_first ms) p (All-oldest ms h)

place-Sorted : (m : SupportMessage) (ms : List SupportMessage) → Sorted ms → Sorted (place m ms)
unfolding place
place-Sorted m [] h = (tt, tt)
place-Sorted m (n ∷ ns) (first, h) = elim (Bool-cases (not_after m n)) [
  | inl before ↦
      rw before ((before, All-mono ns (λ x p. ground (arith, before, p)) first), (first, h))
  | inr after ↦ rw after (
    All-place (λ x. not_after n x ≡ true) m ns (ground (arith, after)) first,
    place-Sorted m ns h,
  )
]

oldest_first-Sorted : (ms : List SupportMessage) → Sorted (oldest_first ms)
unfolding oldest_first
oldest_first-Sorted [] = tt
oldest_first-Sorted (m ∷ ms) = place-Sorted m (oldest_first ms) (oldest_first-Sorted ms)

-- What the map holds under a chat after the loop: what it held, or a message of the list.
module _ (chat : ℕ) where
  latest_of-newest :
      (ms : List SupportMessage) (latest : Latest) {m n : SupportMessage}
      → All (λ x. not_after n x ≡ true) ms
      → Sorted ms
      → latest chat ≡ some n
      → latest_of ms latest chat ≡ some m
      → not_after n m ≡ true
  unfolding latest_of
  latest_of-newest [] latest {m} {n} after sorted here h =
      let same = some_eq (sym here ∙ h) in rw (sym same) (ground arith)
  latest_of-newest (x ∷ ms) latest {m} {n} (p, after) (q, sorted) here h =
      elim (Bool-cases (x.chat_id == chat)) [
        | inl hit ↦
            let later =
              latest_of-newest ms (set latest x) {m = m} {n = x} q sorted (rw hit refl) h in
            ground (arith, p, later)
        | inr miss ↦
            latest_of-newest ms (set latest x) {m = m} {n = n} after sorted (rw miss here) h
      ]

  latest_of-newest_of :
      (ms : List SupportMessage) (latest : Latest) {m : SupportMessage}
      → Sorted ms
      → latest_of ms latest chat ≡ some m
      → All (λ x. in_chat chat x ≡ true → not_after x m ≡ true) ms
  unfolding latest_of
  latest_of-newest_of [] latest sorted h = tt
  latest_of-newest_of (x ∷ ms) latest {m} (q, sorted) h = (
    λ hit. latest_of-newest ms (set latest x) {m = m} {n = x} q sorted (rw hit refl) h,
    latest_of-newest_of ms (set latest x) {m = m} sorted h,
  )

  latest_of-from :
      (P : SupportMessage → Type 0) (ms : List SupportMessage) (latest : Latest)
      {m : SupportMessage}
      → All P ms
      → latest_of ms latest chat ≡ some m
      → (latest chat ≡ some m) ⊎ (P m × (in_chat chat m ≡ true))
  unfolding latest_of
  latest_of-from P [] latest all h = inl h
  latest_of-from P (x ∷ ms) latest {m} (p, all) h =
      elim (latest_of-from P ms (set latest x) {m = m} all h) [
        | inr found ↦ inr found
        | inl kept ↦ elim (Bool-cases (x.chat_id == chat)) [
          | inl hit ↦
              let kept' : some x ≡ some m = rw hit at kept in
              let same = some_eq kept' in inr (subst P same p, rw (sym same) hit)
          | inr miss ↦ let kept' : latest chat ≡ some m = rw miss at kept in inl kept'
        ]
      ]

  -- A chat that has a message in the list has one in the map.
  latest_of-found :
      (ms : List SupportMessage) (latest : Latest)
      → latest_of ms latest chat ≡ none
      → (latest chat ≡ none) × All (λ x. in_chat chat x ≡ false) ms
  unfolding latest_of
  latest_of-found [] latest h = (h, tt)
  latest_of-found (x ∷ ms) latest h =
      let (kept, rest) = latest_of-found ms (set latest x) h in
      elim (Bool-cases (x.chat_id == chat)) [
        | inl hit ↦ let kept' : some x ≡ none = rw hit at kept in absurd (cc kept')
        | inr miss ↦ let kept' : latest chat ≡ none = rw miss at kept in (kept', (miss, rest))
      ]

-- The rows that a query selects.
All-keep :
    (P : SupportMessage → Type 0) (w : SupportMessage → Bool) (ms : List SupportMessage)
    → All P (keep w ms)
    → All (λ x. w x ≡ true → P x) ms
unfolding keep
All-keep P w [] h = tt
All-keep P w (x ∷ ms) h = elim (Bool-cases (w x)) [
  | inl yes' ↦
      let h' : P x × All P (keep w ms) = rw (keep, yes') at h in (λ q. h'.0, All-keep P w ms h'.1)
  | inr no' ↦
      let h' : All P (keep w ms) = rw (keep, no') at h in
      (λ q. absurd (cc (q, no')), All-keep P w ms h')
]

All-kept :
    (P : SupportMessage → Type 0) (w : SupportMessage → Bool) (ms : List SupportMessage)
    → All P ms
    → All P (keep w ms)
unfolding keep
All-kept P w [] h = tt
All-kept P w (x ∷ ms) (p, h) = elim (Bool-cases (w x)) [
  | inl yes' ↦ rw (keep, yes') (p, All-kept P w ms h)
  | inr no' ↦ rw (keep, no') (All-kept P w ms h)
]

-- The message was written before the other, or at the same time under an id that is no higher.
abbrev pub IsNoNewer : SupportMessage → SupportMessage → Type 0
IsNoNewer x m = (x.created_at < m.created_at) ⊎ ((x.created_at ≡ m.created_at) × (x.id ≤ m.id))

not_after-IsNoNewer : (x m : SupportMessage) → not_after x m ≡ true → IsNoNewer x m
not_after-IsNoNewer x m h = elim (Bool-cases (ltb x.created_at m.created_at)) [
  | inl before ↦ inl (ground (arith, before))
  | inr later ↦ inr (ground (arith, h, later), ground (arith, h, later))
]

module _ (db : ChatsDatabase) (chats : List ℕ) (chat : ℕ) (s : ChatsTables db) where
  -- What the inbox may show of a chat: its newest message, or nothing where it has none.
  abbrev pub Newest : Option SupportMessage → Type 0
  Newest none = All (λ (x : SupportMessage). x.chat_id ≢ chat) (db.messages.rows s.messages)
  Newest (some m) =
      Among m (db.messages.rows s.messages)
      × (m.chat_id ≡ chat)
      × All (λ (x : SupportMessage). x.chat_id ≡ chat → IsNoNewer x m) (db.messages.rows s.messages)

  asked :
      (x : SupportMessage)
      → includes chat chats ≡ true
      → in_chat chat x ≡ true
      → includes x.chat_id chats ≡ true
  asked x listed hit = let e : x.chat_id ≡ chat = ground (arith, hit) in rw e listed

  -- The message that the inbox shows of a chat that it asked for is a message of this chat, and
  -- every message of the chat was written before it, or at the same time under an id that is no
  -- higher; it shows none only where the chat has none.
  pub latest_message_per_chat-Newest :
      includes chat chats ≡ true → Newest (latest_message_per_chat db chats s chat)
  unfolding latest_message_per_chat
  latest_message_per_chat-Newest listed =
      let w = λ (m : SupportMessage). includes m.chat_id chats in
      let rows = db.messages.rows s.messages in
      let found = db.messages.find w s.messages in
      let ms = oldest_first found in
      let back = λ (P : SupportMessage → Type 0) (h : All P ms).
        All-keep P w rows
          (subst (All P) (db.messages.find_lem w s.messages) (All-oldest_first P found h)) in
      let among : All (λ x. Among x rows) ms =
        All-oldest _ found
          (rw (db.messages.find_lem w s.messages) (All-kept _ w rows (All-Among rows))) in
      elim (Option-cases (latest_of ms (λ k. none) chat)) [
        | inl nothing ↦ rw nothing (
            All-mono rows
              (λ x f. elim (Bool-cases (in_chat chat x)) [
                | inl hit ↦ absurd (cc (hit, f (asked x listed hit)))
                | inr miss ↦ λ e. ground (arith, miss, e)
              ])
              (back _ (latest_of-found chat ms (λ k. none) nothing).1))
        | inr (m, shown) ↦
            let from : Among m rows × (in_chat chat m ≡ true) =
              elim (latest_of-from chat (λ x. Among x rows) ms (λ k. none) {m = m} among shown) [
                | inl never ↦ absurd (cc never)
                | inr found ↦ found
              ] in
            rw shown (
              from.0,
              ground (arith, from.1),
              All-mono rows
                  (λ x f e.
                    let hit : in_chat chat x ≡ true = ground (arith, e) in
                    not_after-IsNoNewer x m (f (asked x listed hit) hit))
                  (back _ (
                    latest_of-newest_of chat ms (λ k. none) {m = m} (oldest_first-Sorted found)
                      shown)),
            )
      ]
