-- ===== src/Reviews/Write.antt =====
-- One review of an order that reached its customer.
use gall_pr.Common.{
  ℕ, ◌≡◌, refl, sym, ap, subst, ◌∙◌, inl, inr, true, false, not, none, some, [], ◌∷◌, ltb, is_some,
  arith, Bool-cases, Option-cases, Result, ok, err, >>=-eq-ok, throw_if, throw_if-eq-ok, or_throw,
  or_throw-eq-ok, ok-injective, trim,
}
use gall_pr.Common.Rows.{first, count, first_meets}
use gall_pr.Common.Rows.Counts.{count-append, first-count}
use gall_pr.Identity.{Identity}
use gall_pr.Orders.Entities.{Order, OrderStatus}
use gall_pr.Orders.Status.{own_order, is_status}
use gall_pr.Reviews.{
  Review, ReviewsDatabase, ReviewsTables, Strings, CreateReviewDto, about_order, new_review,
  account_of, already_reviewed, write, create,
}

module _ (db : ReviewsDatabase) where
  -- The unique key: a second review of an order is refused.
  abbrev pub IsIndexed : Type 0
  IsIndexed =
      (mk : ℕ → Review) (t t' : db.reviews.Table) (r : Review)
      → db.reviews.insert mk t ≡ some (r, t')
      → first (about_order r.order_id) (db.reviews.rows t) ≡ none

  abbrev pub reviews_of : ℕ → ReviewsTables db → ℕ
  reviews_of order s = count (about_order order) (db.reviews.rows s.reviews)

  write-once :
      (order : ℕ) (mk : ℕ → Review) (t t' : db.reviews.Table) (r : Review)
      → IsIndexed
      → ((id : ℕ) → (mk id).order_id ≡ order)
      → write db order mk t ≡ ok (r, t')
      → (r ≡ mk r.id) × (count (about_order order) (db.reviews.rows t') ≡ 1)
  unfolding write count
  write-once order mk t t' r indexed about h = elim (Option-cases (db.reviews.insert mk t)) [
    | inl refused ↦ elim (Bool-cases (is_some (db.reviews.find_one (about_order order) t))) [
      | inl there ↦
          let h' : ◌≡◌ {A = Result (Review × db.reviews.Table)} (err _) (ok (r, t')) =
            rw (write, refused, there) at h in
          absurd (cc h')
      | inr missing ↦
          let h' : ◌≡◌ {A = Result (Review × db.reviews.Table)} (err _) (ok (r, t')) =
            rw (write, refused, missing) at h in
          absurd (cc h')
    ]
    | inr ((q, u), inserted) ↦
        let h' : ◌≡◌ {A = Result (Review × db.reviews.Table)} (ok (q, u)) (ok (r, t')) =
          rw (write, inserted) at h in
        let out = ok-injective h' in
        let one : q ≡ r = ap (λ (x : Review × db.reviews.Table). x.0) out in
        let two : u ≡ t' = ap (λ (x : Review × db.reviews.Table). x.1) out in
        let rows = db.reviews.rows t in
        let (added, shape, fresh) = db.reviews.rows-insert mk t u q inserted in
        let mine : q.order_id ≡ order = ap (λ (x : Review). x.order_id) shape ∙ about q.id in
        let free : false ≡ ltb 0 (count (about_order order) rows) =
          ap is_some
            (sym (subst (λ k. first (about_order k) rows ≡ none) mine (indexed mk t u q inserted)))
          ∙ first-count (about_order order) rows in
        (
          subst (λ x. x ≡ mk x.id) one shape,
          ap (λ x. count (about_order order) (db.reviews.rows x)) (sym two)
              ∙ ap (count (about_order order)) added
              ∙ count-append (about_order order) rows (q ∷ [])
              ∙ ground (arith, mine, free),
        )
  ]

  -- What stands behind a review that is taken.
  pub record Reviewed (lib : Strings) (identity : Identity) (dto : CreateReviewDto)
      (s s' : ReviewsTables db) (r : Review) : Type 0 where
    pub order : Order
    pub own : own_order identity dto.order_id order ≡ true
    pub received : is_status order.status OrderStatus.completed ≡ true
    pub none_before : reviews_of order.id s ≡ 0
    pub only : reviews_of order.id s' ≡ 1
    pub hidden : r.is_published ≡ false
    pub about : r.order_id ≡ order.id
    pub writer : r.user_id ≡ order.user_id
    pub stars : r.rating ≡ dto.rating
    pub body : r.text ≡ trim dto.text
    pub shape : r ≡ new_review lib dto order (account_of db order s) r.id
    pub again :
        (other : CreateReviewDto) (between : db.reviews.Table → db.reviews.Table)
        → other.order_id ≡ dto.order_id
        → create db lib identity other between s' ≡ err already_reviewed

  reviewed-refused :
      (lib : Strings) (identity : Identity) (dto : CreateReviewDto)
      (between : db.reviews.Table → db.reviews.Table) (s : ReviewsTables db) (order : Order)
      → db.orders.find_one (own_order identity dto.order_id) s.orders ≡ some order
      → is_status order.status OrderStatus.completed ≡ true
      → is_some (db.reviews.find_one (about_order order.id) s.reviews) ≡ true
      → create db lib identity dto between s ≡ err already_reviewed
  unfolding create
  reviewed-refused lib identity dto between s order found received there =
      rw (create, found) (rw received (rw there refl))

  -- A review that is taken is about a completed order of the one who asks, which had no review,
  -- whoever else writes between the lookups and the insertion; it is the order's only review then,
  -- carries the order, the account, the rating and the trimmed text and is not published, and
  -- another one about the order is refused, when the unique key refuses a second one.
  pub create-Reviewed :
      (lib : Strings) (identity : Identity) (dto : CreateReviewDto)
      (meanwhile : db.reviews.Table → db.reviews.Table) (s s' : ReviewsTables db) (r : Review)
      → IsIndexed
      → create db lib identity dto meanwhile s ≡ ok (r, s')
      → Reviewed lib identity dto s s' r
  unfolding create
  create-Reviewed lib identity dto meanwhile s s' r indexed h =
      let (order, found, h1) =
        >>=-eq-ok (or_throw (db.orders.find_one (own_order identity dto.order_id) s.orders) _) _
          h in
      let (u0, done, h2) =
        >>=-eq-ok (throw_if (not (is_status order.status OrderStatus.completed)) _) _ h1 in
      let (u1, new, h3) =
        >>=-eq-ok (throw_if (is_some (db.reviews.find_one (about_order order.id) s.reviews)) _) _
          h2 in
      let ((q, t), written, last) =
        >>=-eq-ok
          (write db order.id (new_review lib dto order (account_of db order s))
            (meanwhile s.reviews))
          _ h3 in
      let there = or_throw-eq-ok _ _ found in
      let received : is_status order.status OrderStatus.completed ≡ true =
        let e = throw_if-eq-ok _ _ {u = u0} done in ground (arith, e) in
      let absent = throw_if-eq-ok _ _ {u = u1} new in
      let once =
        write-once order.id (new_review lib dto order (account_of db order s)) (meanwhile s.reviews)
          t q indexed (λ id. refl) written in
      let out = ok-injective last in
      let tables : record s { reviews = t } ≡ s' =
        ap (λ (x : Review × ReviewsTables db). x.1) out in
      let same : q ≡ r = ap (λ (x : Review × ReviewsTables db). x.0) out in
      let was : false ≡ ltb 0 (reviews_of order.id s) =
        sym absent
        ∙ ap is_some (db.reviews.find_one_lem (about_order order.id) s.reviews)
        ∙ first-count (about_order order.id) (db.reviews.rows s.reviews) in
      let listed : is_some (db.reviews.find_one (about_order order.id) t) ≡ true =
        ap is_some (db.reviews.find_one_lem (about_order order.id) t)
        ∙ first-count (about_order order.id) (db.reviews.rows t)
        ∙ ap (ltb 0) once.1 in
      let shape : r ≡ new_review lib dto order (account_of db order s) r.id =
        subst (λ x. x ≡ new_review lib dto order (account_of db order s) x.id) same once.0 in
      record {
        order = order;
        hidden = ap (λ (x : Review). x.is_published) shape;
        about = ap (λ (x : Review). x.order_id) shape;
        writer = ap (λ (x : Review). x.user_id) shape;
        stars = ap (λ (x : Review). x.rating) shape;
        body = ap (λ (x : Review). x.text) shape;
        own =
            first_meets (own_order identity dto.order_id) (db.orders.rows s.orders) {r = order}
              (sym (db.orders.find_one_lem (own_order identity dto.order_id) s.orders) ∙ there);
        received = received;
        none_before = ground (arith, was);
        only = subst (λ x. reviews_of order.id x ≡ 1) tables once.1;
        shape = shape;
        again = λ other between about.
            subst (λ x. create db lib identity other between x ≡ err already_reviewed) tables
              (reviewed-refused lib identity other between (record s { reviews = t }) order
                (subst (λ k. db.orders.find_one (own_order identity k) s.orders ≡ some order)
                  (sym about) there)
                received listed);
      }
