-- ===== src/Giveaways/Join.antt =====
-- Taking part once.
use gall_pr.Common.{
  ℕ, ◌+◌, ◌<◌, ◌≡◌, refl, sym, ap, subst, ◌∙◌, inl, inr, true, false, none, some, [], ◌∷◌, ◌++◌,
  leb, ltb, is_some, arith, Bool-cases, Option-cases, Result, ok, err, >>=-eq-ok, throw_if,
  throw_if-eq-ok, ok-injective,
}
use gall_pr.Common.Rows.{first, count}
use gall_pr.Common.Rows.Counts.{count-append, first-count}
use gall_pr.Giveaways.{
  Giveaway, GiveawayParticipant, GiveawaysDatabase, GiveawaysTables, is_entry, takes_part_in,
  new_entry, already_in, get_entity_or_throw, has_joined, enter, join,
}

module _ (db : GiveawaysDatabase) where
  -- The unique index: an entry that is there is refused.
  abbrev pub IsIndexed : Type 0
  IsIndexed =
      (giveaway user : ℕ) (t t' : db.participants.Table) (p : GiveawayParticipant)
      → db.participants.insert (new_entry giveaway user) t ≡ some (p, t')
      → first (is_entry giveaway user) (db.participants.rows t) ≡ none

  abbrev pub entries : ℕ → ℕ → GiveawaysTables db → ℕ
  entries giveaway user s = count (is_entry giveaway user) (db.participants.rows s.participants)

  enter-once :
      (giveaway user : ℕ) (t t' : db.participants.Table)
      → IsIndexed
      → enter db giveaway user t ≡ ok t'
      → (count (is_entry giveaway user) (db.participants.rows t') ≡ 1)
        × (count (takes_part_in giveaway) (db.participants.rows t')
            ≡ count (takes_part_in giveaway) (db.participants.rows t) + 1)
  unfolding enter count
  enter-once giveaway user t t' indexed h =
      elim (Option-cases (db.participants.insert (new_entry giveaway user) t)) [
        | inl refused ↦
            elim (Bool-cases (is_some (db.participants.find_one (is_entry giveaway user) t))) [
              | inl there ↦
                  let h' : ◌≡◌ {A = Result db.participants.Table} (err _) (ok t') =
                    rw (enter, refused, there) at h in
                  absurd (cc h')
              | inr missing ↦
                  let h' : ◌≡◌ {A = Result db.participants.Table} (err _) (ok t') =
                    rw (enter, refused, missing) at h in
                  absurd (cc h')
            ]
        | inr ((p, u), inserted) ↦
            let h' : ok u ≡ ok t' = rw (enter, inserted) at h in
            let rows = db.participants.rows t in
            let (added, shape, fresh) =
              db.participants.rows-insert (new_entry giveaway user) t u p inserted in
            let e : db.participants.rows t' ≡ rows ++ p ∷ [] =
              ap db.participants.rows (sym (ok-injective h')) ∙ added in
            let one = ap (λ (x : GiveawayParticipant). x.giveaway_id) shape in
            let two = ap (λ (x : GiveawayParticipant). x.user_id) shape in
            let free : false ≡ ltb 0 (count (is_entry giveaway user) rows) =
              ap is_some (sym (indexed giveaway user t u p inserted))
              ∙ first-count (is_entry giveaway user) rows in
            (
              ap (count (is_entry giveaway user)) e
                  ∙ count-append (is_entry giveaway user) rows (p ∷ [])
                  ∙ ground (arith, one, two, free),
              ap (count (takes_part_in giveaway)) e
                  ∙ count-append (takes_part_in giveaway) rows (p ∷ [])
                  ∙ ground (arith, one),
            )
      ]

  joined-refused :
      (now id user : ℕ) (other : db.participants.Table → db.participants.Table)
      (s : GiveawaysTables db) (g : Giveaway)
      → get_entity_or_throw db id s ≡ ok g
      → leb g.deadline now ≡ false
      → has_joined db id user s ≡ true
      → join db now id user other s ≡ err already_in
  unfolding join
  joined-refused now id user other s g found in_time there =
      rw (join, found) (rw in_time (rw there refl))

  -- What a request to join that succeeds found and left.
  pub record Joined (now id user n : ℕ) (s s' : GiveawaysTables db) : Type 0 where
    pub giveaway : Giveaway
    pub open_still : now < giveaway.deadline
    pub was_out : entries id user s ≡ 0
    pub is_in : entries id user s' ≡ 1
    pub counted : n ≡ count (takes_part_in id) (db.participants.rows s'.participants)
    pub again :
        (other : db.participants.Table → db.participants.Table)
        → join db now id user other s' ≡ err already_in

  -- A request to join that succeeds found the giveaway open and the user outside it, whoever else
  -- joins between its lookup and its insertion; it leaves the user in it exactly once, answers the
  -- number of participants then, and is refused when it is repeated at that time, when the unique
  -- index refuses a second entry.
  pub join-Joined :
      (now id user n : ℕ) (meanwhile : db.participants.Table → db.participants.Table)
      (s s' : GiveawaysTables db)
      → IsIndexed
      → join db now id user meanwhile s ≡ ok (n, s')
      → Joined now id user n s s'
  unfolding join get_entity_or_throw has_joined first
  join-Joined now id user n meanwhile s s' indexed h =
      let (g, found, h1) = >>=-eq-ok (get_entity_or_throw db id s) _ h in
      let (u0, early, h2) = >>=-eq-ok (throw_if (leb g.deadline now) _) _ h1 in
      let (u1, new, h3) = >>=-eq-ok (throw_if (has_joined db id user s) _) _ h2 in
      let (t, entered, last) = >>=-eq-ok (enter db id user (meanwhile s.participants)) _ h3 in
      let out = ok-injective last in
      let tables : record s { participants = t } ≡ s' =
        ap (λ (x : ℕ × GiveawaysTables db). x.1) out in
      let in_time = throw_if-eq-ok _ _ {u = u0} early in
      let absent = throw_if-eq-ok _ _ {u = u1} new in
      let once = enter-once id user (meanwhile s.participants) t indexed entered in
      let was : false ≡ ltb 0 (entries id user s) =
        sym absent
        ∙ ap is_some (db.participants.find_one_lem (is_entry id user) s.participants)
        ∙ first-count (is_entry id user) (db.participants.rows s.participants) in
      let there : has_joined db id user (record s { participants = t }) ≡ true =
        ap is_some (db.participants.find_one_lem (is_entry id user) t)
        ∙ first-count (is_entry id user) (db.participants.rows t)
        ∙ ap (ltb 0) once.0 in
      let same : get_entity_or_throw db id (record s { participants = t })
          ≡ get_entity_or_throw db id s =
        refl in
      record {
        giveaway = g;
        open_still = ground (arith, in_time);
        was_out = ground (arith, was);
        is_in = subst (λ x. entries id user x ≡ 1) tables once.0;
        counted =
            ap (λ (x : ℕ × GiveawaysTables db). x.0) (sym out)
            ∙ db.participants.count_where_lem (takes_part_in id) t
            ∙ ap
                (λ (x : GiveawaysTables db).
                  count (takes_part_in id) (db.participants.rows x.participants))
                tables;
        again = λ other.
            subst (λ x. join db now id user other x ≡ err already_in) tables
              (joined-refused now id user other (record s { participants = t }) g (same ∙ found)
                in_time there);
      }
