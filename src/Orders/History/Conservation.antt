-- ===== src/Orders/History/Conservation.antt =====
-- Every step of the order book keeps each painting's copies: what leaves the shelf is held by an
-- order, and what an order gives up is back on the shelf.
use gall_pr.Common.{
  ℕ, ◌≡◌, refl, sym, ap, subst, ◌∙◌, inl, inr, String, true, false, Option, none, some, List, map,
  ok, >>=-eq-ok, or_throw-eq-ok, throw_if-eq-ok, ok-injective, or_throw, throw_if, arith,
  Bool-cases, sum_of, All, Distinct, not,
}
use gall_pr.Common.Rows.{at_key, by_key, put, first, first-eq-by_key, by_key-key}
use gall_pr.Common.Rows.Laws.{
  sum_of-put, map-put, All-put, All-by_key, sum_of-discard, Distinct-discard, sum_of-change,
  map-change, All-change, All-discard, by_key-first,
}
use gall_pr.Identity.{Identity}
use gall_pr.Orders.Entities.{Order, OrderStatus, PaymentStatus, Database, Tables, order_key}
use gall_pr.Orders.Stock.Returns.{AreDistinct, is_row}
use gall_pr.Orders.Status.{
  is_status, own_order, order_missing, check_cancellable, with_tracking, read_cancel, commit_cancel,
  write_status, cancel, update_status_admin, update_payment_status_admin, archive_admin,
  remove_admin, claim_guest_orders, unclaimed,
}
use gall_pr.Orders.Status.Book.{
  held, book, IsSound, Rewritten, write_status-Rewritten, commit_cancel-Rewritten,
}

module _ (db : Database) where
  -- What a step keeps.
  pub record Keeps (k : ℕ) (s s' : Tables db) : Type 0 where
    pub conserved : book db k s' ≡ book db k s
    pub sound : IsSound db s'
    pub there : is_row db.paintings k s'.paintings ≡ true

  -- A row of the order book, rewritten.
  Rewritten-Keeps :
      (k : ℕ) (s s' : Tables db) (row order order' : Order)
      → IsSound db s
      → by_key order_key row.id (db.orders.rows s.orders) ≡ some row
      → order.id ≡ row.id
      → order.items ≡ row.items
      → held k order ≡ held k row
      → Rewritten db k s order order' s'
      → Keeps k s s'
  Rewritten-Keeps k s s' row order order' sound found id items held' r =
      let rows = db.orders.rows s.orders in
      let at : by_key order_key order'.id rows ≡ some row =
        subst (λ n. by_key order_key n rows ≡ some row) (sym (r.same_id ∙ id)) found in
      let after : db.orders.rows s'.orders ≡ put order_key order' rows =
        ap db.orders.rows r.saved ∙ db.orders.rows-save order' s.orders in
      let lines : AreDistinct row.items =
        All-by_key order_key (λ o. AreDistinct o.items) row.id rows row sound.lines found in
      record {
        conserved = omega (
          arith,
          ap (λ x. sum_of (held k) x) after,
          sum_of-put order_key (held k) order' row rows at,
          r.moved,
          held',
        );
        sound = record {
          keys =
              subst Distinct (sym (ap (map order_key) after ∙ map-put order_key order' row rows at))
                sound.keys;
          lines = subst (All (λ o. AreDistinct o.items)) (sym after) (
              All-put order_key (λ o. AreDistinct o.items) order' rows sound.lines
                (subst AreDistinct (sym (r.same_items ∙ items)) lines));
        };
        there = r.there;
      }

  find_order :
      (id : ℕ) (s : Tables db) (row : Order)
      → or_throw (db.orders.find_one (at_key order_key id) s.orders) order_missing ≡ ok row
      → by_key order_key row.id (db.orders.rows s.orders) ≡ some row
  find_order id s row h =
      let found : by_key order_key id (db.orders.rows s.orders) ≡ some row =
        sym (first-eq-by_key order_key id (db.orders.rows s.orders))
        ∙ sym (db.orders.find_one_lem (at_key order_key id) s.orders)
        ∙ or_throw-eq-ok _ _ h in
      subst (λ n. by_key order_key n (db.orders.rows s.orders) ≡ some row)
        (sym (by_key-key order_key id (db.orders.rows s.orders) found)) found

  -- An order of the book whose fields other than lines, status and kind are changed.
  saved-Keeps :
      (k : ℕ) (s : Tables db) (row updated : Order)
      → IsSound db s
      → is_row db.paintings k s.paintings ≡ true
      → by_key order_key row.id (db.orders.rows s.orders) ≡ some row
      → updated.id ≡ row.id
      → updated.items ≡ row.items
      → held k updated ≡ held k row
      → Keeps k s (record s { orders = db.orders.save updated s.orders })
  saved-Keeps k s row updated sound there found id items held' =
      Rewritten-Keeps k s _ row row updated sound found refl refl refl (record {
        same_id = id;
        same_items = items;
        moved = omega (arith, held');
        saved = refl;
        there = there;
      })

  pub cancel-Keeps :
      (k : ℕ) (identity : Identity) (id : ℕ) (s s' : Tables db) (order : Order) (notices : List _)
      → IsSound db s
      → is_row db.paintings k s.paintings ≡ true
      → cancel db identity id s ≡ ok (order, s', notices)
      → Keeps k s s'
  unfolding cancel read_cancel check_cancellable
  cancel-Keeps k identity id s s' order notices sound there h =
      let rows = db.orders.rows s.orders in
      let (row, read, last) = >>=-eq-ok (read_cancel db identity id s) _ h in
      let (found, read', checked) =
        >>=-eq-ok (or_throw (db.orders.find_one (own_order identity id) s.orders) order_missing) _
          read in
      let (_, live, done) = >>=-eq-ok (check_cancellable found) _ checked in
      let selected : first (own_order identity id) rows ≡ some found =
        sym (db.orders.find_one_lem (own_order identity id) s.orders) ∙ or_throw-eq-ok _ _ read' in
      let at = by_key-first order_key (own_order identity id) rows found sound.keys selected in
      let active : is_status found.status OrderStatus.cancelled ≡ false = ground arith in
      let kept =
        Rewritten-Keeps k s (commit_cancel db found s).1 found found (commit_cancel db found s).0
          sound at refl refl refl (commit_cancel-Rewritten db k found s there active) in
      let same : found ≡ row = ok-injective done in
      subst (Keeps k s)
        (ap (λ o. (commit_cancel db o s).1) same
          ∙ ap (λ (x : Order × Tables db × List _). x.1) (ok-injective last))
        kept

  with_tracking_lem :
      (status : OrderStatus) (tracking : Option String) (row order : Order)
      → with_tracking status tracking row ≡ ok order
      → (order.id ≡ row.id)
        × (order.items ≡ row.items)
        × (order.status ≡ row.status)
        × (order.is_commission ≡ row.is_commission)
  unfolding with_tracking
  with_tracking_lem status tracking row order h =
      elim (Bool-cases (is_status status OrderStatus.shipped)) [
        | inl shipping ↦ ground arith
        | inr other ↦ ground arith
      ]

  pub update_status-Keeps :
      (k id : ℕ) (status : OrderStatus) (tracking : Option String) (s s' : Tables db)
      (order : Order) (notices : List _)
      → IsSound db s
      → is_row db.paintings k s.paintings ≡ true
      → update_status_admin db id status tracking s ≡ ok (order, s', notices)
      → Keeps k s s'
  unfolding update_status_admin
  update_status-Keeps k id status tracking s s' order notices sound there h =
      let (row, found, later) =
        >>=-eq-ok (or_throw (db.orders.find_one (at_key order_key id) s.orders) order_missing) _
          h in
      let at = find_order id s row found in
      elim (Bool-cases (is_status row.status status)) [
        | inl same ↦
            subst (Keeps k s)
              (ap (λ (x : Order × Tables db × List _). x.1) (ok-injective (rw same at later)))
              (record { conserved = refl; sound = sound; there = there })
        | inr other ↦
            let (row', tracked, rest) =
              >>=-eq-ok (with_tracking status tracking row) _ (rw other at later) in
            let ((updated, t), written, last) = >>=-eq-ok (write_status db status row' s) _ rest in
            let (ids, items, statuses, kinds) =
              with_tracking_lem status tracking row row' tracked in
            let lines : AreDistinct row.items =
              All-by_key order_key (λ o. AreDistinct o.items) row.id (db.orders.rows s.orders) row
                sound.lines at in
            subst (Keeps k s) (ap (λ (x : Order × Tables db × List _). x.1) (ok-injective last)) (
              Rewritten-Keeps k s t row row' updated sound at ids items
                (rw (items, statuses, kinds) refl)
                (write_status-Rewritten db k status row' updated s t there
                  (subst AreDistinct (sym items) lines) written))
      ]

  pub update_payment-Keeps :
      (k id : ℕ) (payment : PaymentStatus) (s s' : Tables db) (order : Order) (notices : List _)
      → IsSound db s
      → is_row db.paintings k s.paintings ≡ true
      → update_payment_status_admin db id payment s ≡ ok (order, s', notices)
      → Keeps k s s'
  unfolding update_payment_status_admin
  update_payment-Keeps k id payment s s' order notices sound there h =
      let (row, found, last) =
        >>=-eq-ok (or_throw (db.orders.find_one (at_key order_key id) s.orders) order_missing) _
          h in
      subst (Keeps k s) (ap (λ (x : Order × Tables db × List _). x.1) (ok-injective last)) (
        saved-Keeps k s row (record row { payment_status = payment }) sound there
          (find_order id s row found) refl refl refl)

  pub archive-Keeps :
      (k id : ℕ) (s s' : Tables db) (order : Order)
      → IsSound db s
      → is_row db.paintings k s.paintings ≡ true
      → archive_admin db id s ≡ ok (order, s')
      → Keeps k s s'
  unfolding archive_admin
  archive-Keeps k id s s' order sound there h =
      let (row, found, later) =
        >>=-eq-ok (or_throw (db.orders.find_one (at_key order_key id) s.orders) order_missing) _
          h in
      let (_, completed, last) =
        >>=-eq-ok (throw_if (not (is_status row.status OrderStatus.completed)) _) _ later in
      subst (Keeps k s) (ap (λ (x : Order × Tables db). x.1) (ok-injective last)) (
        saved-Keeps k s row (record row { is_archived = true }) sound there
          (find_order id s row found) refl refl refl)

  pub remove-Keeps :
      (k id : ℕ) (s s' : Tables db)
      → IsSound db s
      → is_row db.paintings k s.paintings ≡ true
      → remove_admin db id s ≡ ok s'
      → Keeps k s s'
  unfolding remove_admin
  remove-Keeps k id s s' sound there h =
      let rows = db.orders.rows s.orders in
      let (row, found, later) =
        >>=-eq-ok (or_throw (db.orders.find_one (at_key order_key id) s.orders) order_missing) _
          h in
      let (_, cancelled, last) =
        >>=-eq-ok (throw_if (not (is_status row.status OrderStatus.cancelled)) _) _ later in
      let at = find_order id s row found in
      let gone = db.orders.rows-delete (at_key order_key row.id) s.orders in
      let freed : held k row ≡ 0 = (let e = throw_if-eq-ok _ _ cancelled in ground arith) in
      subst (Keeps k s) (ok-injective last) (record {
        conserved = omega (
          arith,
          ap (λ x. sum_of (held k) x) gone,
          sum_of-discard order_key (held k) row.id row rows sound.keys at,
          freed,
        );
        sound = record {
          keys =
              subst Distinct (sym (ap (map order_key) gone))
                (Distinct-discard order_key (at_key order_key row.id) rows sound.keys);
          lines =
              subst (All (λ o. AreDistinct o.items)) (sym gone)
                (All-discard (at_key order_key row.id) (λ o. AreDistinct o.items) rows sound.lines);
        };
        there = there;
      })

  pub claim-Keeps :
      (k user : ℕ) (token : String) (s : Tables db)
      → IsSound db s
      → is_row db.paintings k s.paintings ≡ true
      → Keeps k s (claim_guest_orders db user token s)
  unfolding claim_guest_orders
  claim-Keeps k user token s sound there =
      let rows = db.orders.rows s.orders in
      let mark = λ (o : Order). record o { user_id = some user; guest_token = none } in
      let w = unclaimed db token in
      let changed = db.orders.rows-update w mark s.orders in
      record {
        conserved = omega (
          arith,
          ap (λ x. sum_of (held k) x) changed,
          sum_of-change w (held k) mark rows (λ o. refl),
        );
        sound = record {
          keys =
              subst Distinct
                (sym (ap (map order_key) changed ∙ map-change w order_key mark rows (λ o. refl)))
                sound.keys;
          lines =
              subst (All (λ o. AreDistinct o.items)) (sym changed)
                (All-change w (λ o. AreDistinct o.items) mark rows (λ o l. l) sound.lines);
        };
        there = there;
      }
