-- ===== src/Orders/Status/Book.antt =====
-- Where the copies of a painting are: on the shelf, or held by an order that is not cancelled.
use gall_pr.Common.{
  ℕ, ◌+◌, ◌≡◌, refl, sym, subst, ◌∙◌, inl, inr, true, false, map, ok, >>=-eq-ok, ok-injective,
  arith, if◌then◌else◌, Bool-cases, sum_of, All, Distinct,
}
use gall_pr.Orders.Entities.{Order, OrderStatus, Database, Tables, order_key}
use gall_pr.Orders.Stock.{take_stock_back}
use gall_pr.Orders.Stock.Moves.{in_items, shelf}
use gall_pr.Orders.Stock.Returns.{
  AreDistinct, is_row, shelf-restore_stock, shelf-take_stock_back, take_stock_back-is_row,
}
use gall_pr.Orders.Status.{is_status, commit_cancel, commit_restore, write_status}

-- What an order keeps off the shelf. A commission never took anything.
abbrev pub held : ℕ → Order → ℕ
held k o =
    if o.is_commission
    then 0
    else if is_status o.status OrderStatus.cancelled
    then 0
    else in_items k o.items

module _ (db : Database) where
  -- The copies that the shop has to account for.
  abbrev pub book : ℕ → Tables db → ℕ
  book k s = shelf db.paintings k s.paintings + sum_of (held k) (db.orders.rows s.orders)

  -- What the database keeps: ids are primary keys, and no order lists a painting twice.
  pub record IsSound (s : Tables db) : Type 0 where
    pub keys : Distinct (map order_key (db.orders.rows s.orders))
    pub lines : All (λ o. AreDistinct o.items) (db.orders.rows s.orders)

  -- A row was rewritten under its own id, with its lines and its kind.
  pub record Rewritten (k : ℕ) (s : Tables db) (order order' : Order) (s' : Tables db)
      : Type 0 where
    pub same_id : order'.id ≡ order.id
    pub same_items : order'.items ≡ order.items
    pub moved :
        shelf db.paintings k s'.paintings + held k order'
        ≡ shelf db.paintings k s.paintings + held k order
    pub saved : s'.orders ≡ db.orders.save order' s.orders
    pub there : is_row db.paintings k s'.paintings ≡ true

  pub commit_cancel-Rewritten :
      (k : ℕ) (order : Order) (s : Tables db)
      → is_row db.paintings k s.paintings ≡ true
      → is_status order.status OrderStatus.cancelled ≡ false
      → Rewritten k s order (commit_cancel db order s).0 (commit_cancel db order s).1
  unfolding commit_cancel
  commit_cancel-Rewritten k order s there live =
      let (moved, still) = shelf-restore_stock db.paintings k order s.paintings there in
      record {
        same_id = refl;
        same_items = refl;
        moved = ground (arith, moved);
        saved = refl;
        there = still;
      }

  commit_restore-Rewritten :
      (k : ℕ) (status : OrderStatus) (order order' : Order) (s s' : Tables db)
      → is_row db.paintings k s.paintings ≡ true
      → AreDistinct order.items
      → is_status order.status OrderStatus.cancelled ≡ true
      → is_status status OrderStatus.cancelled ≡ false
      → commit_restore db status order s ≡ ok (order', s')
      → Rewritten k s order order' s'
  unfolding commit_restore
  commit_restore-Rewritten k status order order' s s' there d was will h =
      let (paintings, taken, last) =
        >>=-eq-ok (take_stock_back db.paintings order s.paintings) _ h in
      let moved = shelf-take_stock_back db.paintings order s.paintings paintings d taken k in
      let still = take_stock_back-is_row db.paintings k order s.paintings paintings there taken in
      subst (λ (x : Order × Tables db). Rewritten k s order x.0 x.1) (ok-injective last)
        (record {
          same_id = refl;
          same_items = refl;
          moved = ground (arith, moved);
          saved = refl;
          there = still;
        })

  save-Rewritten :
      (k : ℕ) (status : OrderStatus) (order : Order) (s : Tables db)
      → is_row db.paintings k s.paintings ≡ true
      → is_status order.status OrderStatus.cancelled ≡ is_status status OrderStatus.cancelled
      → Rewritten k s order
          (record order { status = status })
          (record s { orders = db.orders.save (record order { status = status }) s.orders })
  save-Rewritten k status order s there alike = record {
    same_id = refl;
    same_items = refl;
    moved = rw alike;
    saved = refl;
    there = there;
  }

  -- However the status of an order without repeated paintings is written, the shelf gains what the
  -- order stops holding and loses what it begins to hold, and the order is saved under its id with
  -- its lines; the painting has a row.
  pub write_status-Rewritten :
      (k : ℕ) (status : OrderStatus) (order order' : Order) (s s' : Tables db)
      → is_row db.paintings k s.paintings ≡ true
      → AreDistinct order.items
      → write_status db status order s ≡ ok (order', s')
      → Rewritten k s order order' s'
  unfolding write_status
  write_status-Rewritten k status order order' s s' there d h =
      elim (Bool-cases (is_status order.status OrderStatus.cancelled)) [
        | inl was ↦ elim (Bool-cases (is_status status OrderStatus.cancelled)) [
          | inl will ↦
              subst (λ (x : Order × Tables db). Rewritten k s order x.0 x.1)
                (ok-injective (rw (was, will) at h))
                (save-Rewritten k status order s there (was ∙ sym will))
          | inr wont ↦
              commit_restore-Rewritten k status order order' s s' there d was wont
                (rw (was, wont) at h)
        ]
        | inr live ↦ elim (Bool-cases (is_status status OrderStatus.cancelled)) [
          | inl will ↦
              subst (λ (x : Order × Tables db). Rewritten k s order x.0 x.1)
                (ok-injective (rw (live, will) at h)) (commit_cancel-Rewritten k order s there live)
          | inr wont ↦
              subst (λ (x : Order × Tables db). Rewritten k s order x.0 x.1)
                (ok-injective (rw (live, wont) at h))
                (save-Rewritten k status order s there (live ∙ sym wont))
        ]
      ]
