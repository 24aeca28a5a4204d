-- ===== src/Support/Chats/Identities.antt =====
-- One conversation for each account and each browser.
use gall_pr.Common.{
  ℕ, ◌≤◌, ◌≡◌, refl, sym, ap, subst, ◌∙◌, inl, inr, String, Bool, true, false, Option, none, some,
  List, [], ◌∷◌, ◌++◌, ◌==◌, arith, Bool-cases, Option-cases, is_some, eq_iff, map, Distinct, ltb,
  Result, ok, >>=-eq-ok, or_throw, or_throw-eq-ok, ok-injective,
}
use gall_pr.Common.Rows.{first, count, by_key, put}
use gall_pr.Common.Rows.Laws.{Distinct-snoc, map-put, by_key-first}
use gall_pr.Common.Rows.Counts.{count-append, count-put, first-count}
use gall_pr.Identity.{Identity, user, guest, identity_where}
use gall_pr.Support.Chats.{
  SupportChat, chat_key, ChatsDatabase, ChatsTables, is_chat_of, new_chat, find_chat,
  created_or_raced, get_or_create_chat, claim_guest_chat,
}

-- The first row is found before what is added.
first-append :
    (w : SupportChat → Bool) (xs ys : List SupportChat) {c : SupportChat}
    → first w xs ≡ some c
    → first w (xs ++ ys) ≡ some c
unfolding first
first-append w [] ys h = cc
first-append w (x ∷ xs) ys {c} h = ground (arith, first-append w xs ys {c = c})

first-append_none :
    (w : SupportChat → Bool) (xs ys : List SupportChat)
    → first w xs ≡ none
    → first w (xs ++ ys) ≡ first w ys
unfolding first
first-append_none w [] ys h = refl
first-append_none w (x ∷ xs) ys h = ground (arith, first-append_none w xs ys)

pub new_chat-is_chat_of : (i : Identity) (id : ℕ) → is_chat_of i (new_chat i id) ≡ true
unfolding identity_where
new_chat-is_chat_of (user n) id = ground arith
new_chat-is_chat_of (guest t) id = (eq_iff t t).1 refl

-- A new chat is of nobody else.
is_chat_of-new_chat : (i j : Identity) (id : ℕ) → is_chat_of j (new_chat i id) ≡ true → j ≡ i
unfolding identity_where
is_chat_of-new_chat (user n) (user m) id h = ap user (ground (arith, h))
is_chat_of-new_chat (user n) (guest t) id h = absurd (cc h)
is_chat_of-new_chat (guest t) (user m) id h = absurd (cc h)
is_chat_of-new_chat (guest t) (guest u) id h = ap guest (sym ((eq_iff t u).0 h))

-- A row more keeps every count at one, where only an identity without a chat gets it.
append-le_one :
    (w : SupportChat → Bool) (xs : List SupportChat) (c : SupportChat)
    → count w xs ≤ 1
    → (w c ≡ true → first w xs ≡ none)
    → count w (xs ++ c ∷ []) ≤ 1
unfolding count
append-le_one w xs c h alone = elim (Bool-cases (w c)) [
  | inl hit ↦
      let empty : false ≡ ltb 0 (count w xs) = ap is_some (sym (alone hit)) ∙ first-count w xs in
      rw (count-append w xs (c ∷ [])) (ground (arith, hit, empty))
  | inr miss ↦ rw (count-append w xs (c ∷ [])) (ground (arith, miss, h))
]

still_one :
    (account : ℕ) (c c' : SupportChat) (rows : List SupportChat)
    → c'.user_id ≡ some account
    → c'.guest_token ≡ none
    → by_key chat_key c'.id rows ≡ some c
    → false ≡ ltb 0 (count (is_chat_of (user account)) rows)
    → (j : Identity) → count (is_chat_of j) rows ≤ 1
    → count (is_chat_of j) (put chat_key c' rows) ≤ 1
unfolding identity_where
still_one account c c' rows mine unnamed key empty (user n) one =
    let moved = count-put chat_key (is_chat_of (user n)) c' c rows key in
    elim (Bool-cases (account == n)) [
      | inl same ↦
          let e : account ≡ n = ground (arith, same) in
          let empty' = subst (λ k. false ≡ ltb 0 (count (is_chat_of (user k)) rows)) e empty in
          ground (arith, moved, empty')
      | inr other ↦
          let not_mine : is_chat_of (user n) c' ≡ false =
            ap (λ o. identity_where (user n) o c'.guest_token) mine ∙ other in
          ground (arith, moved, not_mine, one)
    ]
still_one account c c' rows mine unnamed key empty (guest t) one =
    let moved = count-put chat_key (is_chat_of (guest t)) c' c rows key in
    let not_mine : is_chat_of (guest t) c' ≡ false =
      ap (λ o. identity_where (guest t) c'.user_id o) unnamed in
    ground (arith, moved, not_mine, one)

module _ (db : ChatsDatabase) where
  -- The unique indexes on user_id and guest_token: a row of an identity that has a chat is refused.
  abbrev pub IsIndexed : Type 0
  IsIndexed =
      (i : Identity) (t t' : db.chats.Table) (c : SupportChat)
      → db.chats.insert (new_chat i) t ≡ some (c, t')
      → first (is_chat_of i) (db.chats.rows t) ≡ none

  -- No account and no browser has two conversations.
  pub record OnePerIdentity (s : ChatsTables db) : Type 0 where
    pub ids : Distinct (map chat_key (db.chats.rows s.chats))
    pub one : (i : Identity) → count (is_chat_of i) (db.chats.rows s.chats) ≤ 1

  appended :
      (i : Identity) (s : ChatsTables db) (row : SupportChat) (t : db.chats.Table)
      → first (is_chat_of i) (db.chats.rows s.chats) ≡ none
      → db.chats.rows t ≡ db.chats.rows s.chats ++ row ∷ []
      → row ≡ new_chat i row.id
      → find_chat db i (record s { chats = t }) ≡ some row
  unfolding find_chat first
  appended i s row t none_yet added shape =
      let mine : is_chat_of i row ≡ true = ap (is_chat_of i) shape ∙ new_chat-is_chat_of i row.id in
      db.chats.find_one_lem (is_chat_of i) t
      ∙ ap (first (is_chat_of i)) added
      ∙ first-append_none (is_chat_of i) (db.chats.rows s.chats) (row ∷ []) none_yet
      ∙ rw mine refl

  created_or_raced-find_chat :
      (i : Identity) (s s' : ChatsTables db) (c : SupportChat)
      (o : Option (SupportChat × db.chats.Table))
      → IsIndexed
      → db.chats.insert (new_chat i) s.chats ≡ o
      → created_or_raced db i s o ≡ ok (c, s')
      → find_chat db i s' ≡ some c
  unfolding created_or_raced
  created_or_raced-find_chat i s s' c none indexed e h =
      let (raced, found, last) = >>=-eq-ok (or_throw (find_chat db i s) _) _ h in
      let out = ok-injective last in
      ap (λ (x : SupportChat × ChatsTables db). find_chat db i x.1) (sym out)
      ∙ or_throw-eq-ok _ _ found
      ∙ ap (λ (x : SupportChat × ChatsTables db). some x.0) out
  created_or_raced-find_chat i s s' c (some (row, t)) indexed e h =
      let (added, shape, fresh) = db.chats.rows-insert (new_chat i) s.chats t row e in
      let out = ok-injective h in
      ap (λ (x : SupportChat × ChatsTables db). find_chat db i x.1) (sym out)
      ∙ appended i s row t (indexed i s.chats t row e) added shape
      ∙ ap (λ (x : SupportChat × ChatsTables db). some x.0) out

  get_or_create_chat-find_chat :
      (i : Identity) (meanwhile : ChatsTables db → ChatsTables db) (s s' : ChatsTables db)
      (c : SupportChat)
      → IsIndexed
      → get_or_create_chat db i meanwhile s ≡ ok (c, s')
      → find_chat db i s' ≡ some c
  unfolding get_or_create_chat
  get_or_create_chat-find_chat i meanwhile s s' c indexed h =
      elim (Option-cases (find_chat db i s)) [
        | inl missing ↦
            let h' : created_or_raced db i (meanwhile s)
                  (db.chats.insert (new_chat i) (meanwhile s).chats)
                ≡ ok (c, s') =
              rw (get_or_create_chat, missing) at h in
            created_or_raced-find_chat i (meanwhile s) s' c _ indexed refl h'
        | inr (chat, found) ↦
            let h' : ◌≡◌ {A = Result (SupportChat × ChatsTables db)} (ok (chat, s)) (ok (c, s')) =
              rw (get_or_create_chat, found) at h in
            let out = ok-injective h' in
            ap (λ (x : SupportChat × ChatsTables db). find_chat db i x.1) (sym out)
            ∙ found
            ∙ ap (λ (x : SupportChat × ChatsTables db). some x.0) out
      ]

  -- Whatever is committed between its lookup and its insertion, the chat that getOrCreateChat
  -- answers is the one that the identity finds from then on, and asking again answers it and adds
  -- none, when the unique indexes refuse a second chat.
  pub get_or_create_chat_again :
      (i : Identity) (meanwhile later : ChatsTables db → ChatsTables db) (s s' : ChatsTables db)
      (c : SupportChat)
      → IsIndexed
      → get_or_create_chat db i meanwhile s ≡ ok (c, s')
      → (find_chat db i s' ≡ some c) × (get_or_create_chat db i later s' ≡ ok (c, s'))
  unfolding get_or_create_chat
  get_or_create_chat_again i meanwhile later s s' c indexed h =
      let found = get_or_create_chat-find_chat i meanwhile s s' c indexed h in
      (found, rw (get_or_create_chat, found) refl)

  created_or_raced-OnePerIdentity :
      (i : Identity) (s s' : ChatsTables db) (c : SupportChat)
      (o : Option (SupportChat × db.chats.Table))
      → IsIndexed
      → OnePerIdentity s
      → db.chats.insert (new_chat i) s.chats ≡ o
      → created_or_raced db i s o ≡ ok (c, s')
      → OnePerIdentity s'
  unfolding created_or_raced count identity_where
  created_or_raced-OnePerIdentity i s s' c none indexed one e h =
      let (raced, found, last) = >>=-eq-ok (or_throw (find_chat db i s) _) _ h in
      subst OnePerIdentity (ap (λ (x : SupportChat × ChatsTables db). x.1) (ok-injective last)) one
  created_or_raced-OnePerIdentity i s s' c (some (row, t)) indexed one e h =
      let (added, shape, fresh) = db.chats.rows-insert (new_chat i) s.chats t row e in
      let rows = db.chats.rows s.chats in
      let refused = indexed i s.chats t row e in
      subst OnePerIdentity (ap (λ (x : SupportChat × ChatsTables db). x.1) (ok-injective h))
        (record {
          ids =
              subst (λ cs. Distinct (map chat_key cs)) (sym added)
                (Distinct-snoc chat_key rows row one.ids fresh);
          one = λ j.
              subst (λ cs. count (is_chat_of j) cs ≤ 1) (sym added)
                (append-le_one (is_chat_of j) rows row (one.one j) (λ hit.
                  let mine = is_chat_of-new_chat i j row.id (ap (is_chat_of j) (sym shape) ∙ hit) in
                  subst (λ k. first (is_chat_of k) rows ≡ none) (sym mine) refused));
        })

  pub get_or_create_chat-OnePerIdentity :
      (i : Identity) (meanwhile : ChatsTables db → ChatsTables db) (s s' : ChatsTables db)
      (c : SupportChat)
      → IsIndexed
      → OnePerIdentity s
      → OnePerIdentity (meanwhile s)
      → get_or_create_chat db i meanwhile s ≡ ok (c, s')
      → OnePerIdentity s'
  unfolding get_or_create_chat
  get_or_create_chat-OnePerIdentity i meanwhile s s' c indexed before between h =
      elim (Option-cases (find_chat db i s)) [
        | inl missing ↦
            let s1 = meanwhile s in
            let h' : created_or_raced db i s1 (db.chats.insert (new_chat i) s1.chats) ≡ ok (c, s') =
              rw (get_or_create_chat, missing) at h in
            created_or_raced-OnePerIdentity i s1 s' c _ indexed between refl h'
        | inr (chat, found) ↦
            let h' : ◌≡◌ {A = Result (SupportChat × ChatsTables db)} (ok (chat, s)) (ok (c, s')) =
              rw (get_or_create_chat, found) at h in
            subst OnePerIdentity (ap (λ (x : SupportChat × ChatsTables db). x.1) (ok-injective h'))
              before
      ]

  -- The chat of a browser becomes the account's, where the account had none.
  claimed :
      (account : ℕ) (token : String) (c : SupportChat) (s : ChatsTables db)
      → OnePerIdentity s
      → find_chat db (guest token) s ≡ some c
      → find_chat db (user account) s ≡ none
      → OnePerIdentity (record s {
        chats = db.chats.save (record c { user_id = some account; guest_token = none }) s.chats;
      })
  unfolding find_chat identity_where
  claimed account token c s one found without =
      let rows = db.chats.rows s.chats in
      let c' : SupportChat = record c { user_id = some account; guest_token = none } in
      let key =
        by_key-first chat_key (is_chat_of (guest token)) rows c one.ids
          (sym (db.chats.find_one_lem (is_chat_of (guest token)) s.chats) ∙ found) in
      let saved = db.chats.rows-save c' s.chats in
      let empty : false ≡ ltb 0 (count (is_chat_of (user account)) rows) =
        ap is_some (sym without ∙ db.chats.find_one_lem (is_chat_of (user account)) s.chats)
        ∙ first-count (is_chat_of (user account)) rows in
      record {
        ids =
            subst (λ cs. Distinct (map chat_key cs)) (sym saved)
              (subst Distinct (sym (map-put chat_key c' c rows key)) one.ids);
        one = λ j.
            subst (λ cs. count (is_chat_of j) cs ≤ 1) (sym saved)
              (still_one account c c' rows refl refl key empty j (one.one j));
      }

  pub claim_guest_chat-OnePerIdentity :
      (account : ℕ) (token : String) (s : ChatsTables db)
      → OnePerIdentity s
      → OnePerIdentity (claim_guest_chat db account token s).1
  unfolding claim_guest_chat
  claim_guest_chat-OnePerIdentity account token s one =
      elim (Option-cases (find_chat db (guest token) s)) [
        | inl nothing ↦ rw (claim_guest_chat, nothing) one
        | inr (c, found) ↦ elim (Option-cases (find_chat db (user account) s)) [
          | inl without ↦
              rw (claim_guest_chat, found, without) (claimed account token c s one found without)
          | inr (own, has) ↦ rw (claim_guest_chat, found, has) one
        ]
      ]
