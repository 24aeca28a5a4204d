-- ===== src/Support/Gateway/Laws.antt =====
-- What gets into a conversation, and into whose.
use gall_pr.Common.{
  ℕ, ◌≤◌, ◌≡◌, refl, ap, subst, ◌∙◌, inl, inr, ◌⊎◌, String, true, Option, none, some, ltb, trim,
  utf16_length, non_empty, arith, Bool-cases, Option-cases, Result-cases, ok,
}
use gall_pr.Auth.Entities.{UserRole, admin, ordinary}
use gall_pr.Support.RateLimit.{Limits, allow_message}
use gall_pr.Support.Chats.{SupportChat, SupportMessage, ChatsDatabase, add_message}
use gall_pr.Support.Gateway.{
  max_message_length, SocketData, is_admin, Reading, ignored, too_long, text, read_content, Outcome,
  dropped, refused, failed, posted, Gateway, chat_for, deliver, metered, handle_message,
}

Reading-cases :
    (r : Reading) → (r ≡ ignored) ⊎ (r ≡ too_long) ⊎ ((content : String) × (r ≡ text content))
Reading-cases ignored = inl refl
Reading-cases too_long = inr (inl refl)
Reading-cases (text content) = inr (inr (content, refl))

-- A text that the handler goes on with.
pub record IsText (body : Option String) (content : String) : Type 0 where
  pub sent : String
  pub here : body ≡ some sent
  pub trimmed_text : non_empty (trim sent) ≡ some content
  pub short : utf16_length content ≤ max_message_length

read_content-IsText :
    (body : Option String) (content : String)
    → read_content body ≡ text content
    → IsText body content
unfolding read_content
read_content-IsText none content h = absurd (cc h)
read_content-IsText (some sent) content h = elim (Option-cases (non_empty (trim sent))) [
  | inl blank ↦ let h' : ignored ≡ text content = rw (read_content, blank) at h in absurd (cc h')
  | inr (c, filled) ↦ elim (Bool-cases (ltb max_message_length (utf16_length c))) [
    | inl long ↦
        let h' : too_long ≡ text content = rw (read_content, filled, long) at h in absurd (cc h')
    | inr short ↦
        let h' : text c ≡ text content = rw (read_content, filled, short) at h in
        let e : c ≡ content = ap (λ r. elim r [ text x ↦ x | ignored ↦ c | too_long ↦ c ]) h' in
        record {
          sent = sent;
          here = refl;
          trimmed_text = filled ∙ ap some e;
          short = subst (λ x. utf16_length x ≤ max_message_length) e (ground (arith, short));
        }
  ]
]

module _ (db : ChatsDatabase) where
  abbrev pub Answer : Type 0
  Answer = Outcome × SocketData × Gateway db

  -- What stands behind a message that is posted.
  pub record Posted (now : ℕ) (client address : String) (body : Option String) (asked : Option ℕ)
      (socket socket' : SocketData) (g g' : Gateway db) (m : Option SupportMessage)
      (c : SupportChat) : Type 0 where
    pub content : String
    pub chat_id : ℕ
    pub before : Gateway db
    pub is_text : IsText body content
    pub allowed :
        (is_admin socket.role ≡ true) ⊎ ((allow_message now client address g.limits).0 ≡ true)
    pub chosen :
        chat_for db socket asked
          (record g { limits = (metered now client address socket.role g.limits).1 })
        ≡ ok (some chat_id, socket', before)
    pub added :
        add_message db chat_id socket'.user_id socket'.role content now before.tables
        ≡ ok (m, c, g'.tables)

  deliver-posted :
      (now : ℕ) (socket socket' : SocketData) (asked : Option ℕ) (content : String)
      (g g' : Gateway db) (m : Option SupportMessage) (c : SupportChat)
      → deliver db now socket asked content g ≡ (posted m c, socket', g')
      → (chat_id : ℕ) × (before : Gateway db) × (chat_for db socket asked g
          ≡ ok (some chat_id, socket', before))
        × (add_message db chat_id socket'.user_id socket'.role content now before.tables
            ≡ ok (m, c, g'.tables))
  unfolding deliver
  deliver-posted now socket socket' asked content g g' m c h =
      elim (Result-cases (chat_for db socket asked g)) [
        | inl (e, broken) ↦
            let h' : ◌≡◌ {A = Answer} (failed e, socket, g) (posted m c, socket', g') =
              rw (deliver, broken) at h in
            absurd (cc (ap (λ (x : Answer). x.0) h'))
        | inr ((none, socket1, g1), nowhere) ↦
            let h' : ◌≡◌ {A = Answer} (dropped, socket1, g1) (posted m c, socket', g') =
              rw (deliver, nowhere) at h in
            absurd (cc (ap (λ (x : Answer). x.0) h'))
        | inr ((some chat_id, socket1, g1), chosen) ↦
            elim (Result-cases
              (add_message db chat_id socket1.user_id socket1.role content now g1.tables)) [
                | inl (e, broken) ↦
                    let h' : ◌≡◌ {A = Answer} (failed e, socket1, g1) (posted m c, socket', g') =
                      rw (deliver, chosen, broken) at h in
                    absurd (cc (ap (λ (x : Answer). x.0) h'))
                | inr ((message, chat, tables), added) ↦
                    let h' : ◌≡◌ {A = Answer}
                        (posted message chat, socket1, record g1 { tables = tables })
                        (posted m c, socket', g') =
                      rw (deliver, chosen, added) at h in
                    let what : ◌≡◌ {A = Option SupportMessage × SupportChat} (message, chat)
                        (m, c) =
                      ap (λ (x : Answer). elim x.0 [ posted p q ↦ (p, q) | _ ↦ (message, chat) ])
                        h' in
                    let who : socket1 ≡ socket' = ap (λ (x : Answer). x.1) h' in
                    let left : tables ≡ g'.tables = ap (λ (x : Answer). (x.2).tables) h' in
                    (
                      chat_id,
                      g1,
                      subst (λ d. chat_for db socket asked g ≡ ok (some chat_id, d, g1)) who chosen,
                      subst
                            (λ d.
                              add_message db chat_id d.user_id d.role content now g1.tables
                              ≡ ok (message, chat, tables))
                            who added
                          ∙ ap (λ (x : Option SupportMessage × SupportChat). ok (x.0, x.1, tables))
                              what
                          ∙ ap (λ t. ok (m, c, t)) left,
                    )
              ]
      ]

  metered-allowed :
      (now : ℕ) (client address : String) (role : UserRole) (limits : Limits)
      → (metered now client address role limits).0 ≡ true
      → (is_admin role ≡ true) ⊎ ((allow_message now client address limits).0 ≡ true)
  unfolding metered
  metered-allowed now client address admin limits h = inl refl
  metered-allowed now client address ordinary limits h = inr h

  -- A message that is posted was a string whose trimmed text is not empty and has at most 2000 code
  -- units, came from an administrator or within the rate limits, and is what addMessage added, with
  -- the sender of the socket, to the chat that the handler chose.
  pub handle_message-Posted :
      (now : ℕ) (client address : String) (asked : Option ℕ) (body : Option String)
      (socket socket' : SocketData) (g g' : Gateway db) (m : Option SupportMessage)
      (c : SupportChat)
      → handle_message db now client address asked body socket g ≡ (posted m c, socket', g')
      → Posted now client address body asked socket socket' g g' m c
  unfolding handle_message
  handle_message-Posted now client address asked body socket socket' g g' m c h =
      elim (Reading-cases (read_content body)) [
        | inl nothing ↦
            let h' : ◌≡◌ {A = Answer} (dropped, socket, g) (posted m c, socket', g') =
              rw (handle_message, nothing) at h in
            absurd (cc (ap (λ (x : Answer). x.0) h'))
        | inr (inl long) ↦
            let h' : ◌≡◌ {A = Answer} (refused _, socket, g) (posted m c, socket', g') =
              rw (handle_message, long) at h in
            absurd (cc (ap (λ (x : Answer). x.0) h'))
        | inr (inr (content, read)) ↦
            let left = (metered now client address socket.role g.limits).1 in
            let g1 : Gateway db = record g { limits = left } in
            elim (Bool-cases (metered now client address socket.role g.limits).0) [
              | inr over ↦
                  let h' : ◌≡◌ {A = Answer} (refused _, socket, g1) (posted m c, socket', g') =
                    rw (handle_message, read, over) at h in
                  absurd (cc (ap (λ (x : Answer). x.0) h'))
              | inl allowed ↦
                  let h' : deliver db now socket asked content g1 ≡ (posted m c, socket', g') =
                    rw (handle_message, read, allowed) at h in
                  let (chat_id, before, chosen, added) =
                    deliver-posted now socket socket' asked content g1 g' m c h' in
                  record {
                    content = content;
                    chat_id = chat_id;
                    before = before;
                    is_text = read_content-IsText body content read;
                    allowed = metered-allowed now client address socket.role g.limits allowed;
                    chosen = chosen;
                    added = added;
                  }
            ]
      ]
