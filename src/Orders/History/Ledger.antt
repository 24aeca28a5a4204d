-- ===== src/Orders/History/Ledger.antt =====
-- The account of copies over a whole history.
use gall_pr.Common.{
  ℕ, ◌+◌, ◌≡◌, refl, sym, ap, subst, ◌∙◌, true, none, List, [], ◌∷◌, ◌++◌, map, ok, >>=-eq-ok,
  or_throw-eq-ok, ok-injective, or_throw, arith, sum_of, sum_of-append, All, All-append, Distinct,
}
use gall_pr.Common.Rows.{at_key, by_key}
use gall_pr.Common.Rows.Laws.{Distinct-snoc}
use gall_pr.Identity.{Identity}
use gall_pr.NovaPoshta.{Api}
use gall_pr.Orders.Entities.{Order, Database, Tables, order_key, painting_key, cart_painting}
use gall_pr.Orders.Stock.Laws.{stock_order-Distinct}
use gall_pr.Orders.Stock.Moves.{in_items, shelf}
use gall_pr.Orders.Stock.Returns.{AreDistinct, is_row}
use gall_pr.Orders.Checkout.{CheckoutDto, checkout}
use gall_pr.Orders.Checkout.Laws.{cart_of}
use gall_pr.Orders.Checkout.Guards.{checkout-CheckedOut}
use gall_pr.Orders.Commission.{
  CreateCommissionDto, new_commission, optional_address, check_commission, create_commission,
}
use gall_pr.Orders.Status.Book.{held, book, IsSound}
use gall_pr.Orders.History.{
  Step, checks_out, commissions, cancels, sets_status, sets_payment, archives, removes, claims,
  Reach, here, next,
}
use gall_pr.Orders.History.Conservation.{
  Keeps, cancel-Keeps, update_status-Keeps, update_payment-Keeps, archive-Keeps, remove-Keeps,
  claim-Keeps,
}

module _ (db : Database) where
  inserted-Keeps :
      (k : ℕ) (s s' : Tables db) (order : Order)
      → IsSound db s
      → db.orders.rows s'.orders ≡ db.orders.rows s.orders ++ order ∷ []
      → by_key order_key order.id (db.orders.rows s.orders) ≡ none
      → AreDistinct order.items
      → shelf db.paintings k s'.paintings + held k order ≡ shelf db.paintings k s.paintings
      → is_row db.paintings k s'.paintings ≡ true
      → Keeps db k s s'
  inserted-Keeps k s s' order sound added fresh lines moved there =
      let rows = db.orders.rows s.orders in
      record {
        conserved = omega (
          arith,
          ap (λ x. sum_of (held k) x) added,
          sum_of-append (held k) rows (order ∷ []),
          moved,
        );
        sound = record {
          keys =
              subst Distinct (sym (ap (map order_key) added))
                (Distinct-snoc order_key rows order sound.keys fresh);
          lines =
              subst (All (λ o. AreDistinct o.items)) (sym added)
                (All-append (λ o. AreDistinct o.items) rows (order ∷ []) sound.lines (lines, tt));
        };
        there = there;
      }

  checkout-Keeps :
      (k : ℕ) (api : Api) (sender : _) (identity : Identity) (dto : CheckoutDto) (s s' : Tables db)
      (order : Order) (notices : List _)
      → IsSound db s
      → is_row db.paintings k s.paintings ≡ true
      → Distinct (map cart_painting (cart_of db identity s))
      → checkout db api sender identity dto s ≡ ok (order, s', notices)
      → Keeps db k s s'
  checkout-Keeps k api sender identity dto s s' order notices sound there unique h =
      let p = (checkout-CheckedOut db api sender identity dto s s' order notices h).placed in
      let held' : held k order ≡ in_items k order.items = rw (p.is_purchase, p.is_pending) in
      inserted-Keeps k s s' order sound p.recorded p.fresh
        (subst Distinct (sym p.lines)
          (stock_order-Distinct cart_painting (cart_of db identity s) unique))
        (omega (arith, p.moved k, held')) (p.rows_stay k there)

  commission-Keeps :
      (k : ℕ) (api : Api) (identity : Identity) (dto : CreateCommissionDto) (s s' : Tables db)
      (order : Order) (notices : List _)
      → IsSound db s
      → is_row db.paintings k s.paintings ≡ true
      → create_commission db api identity dto s ≡ ok (order, s', notices)
      → Keeps db k s s'
  unfolding create_commission new_commission
  commission-Keeps k api identity dto s s' order notices sound there h =
      let ((painting, offered), checked, later) =
        >>=-eq-ok
          (check_commission dto
            (db.paintings.find_one (at_key painting_key dto.painting_id) s.paintings))
          _ h in
      let ((row, orders), inserted, last) =
        >>=-eq-ok
          (or_throw
            (db.orders.insert
              (new_commission identity dto (optional_address api dto) painting offered) s.orders)
            _)
          _ later in
      let (added, shape, fresh) =
        db.orders.rows-insert _ s.orders orders row (or_throw-eq-ok _ _ inserted) in
      let kind = ap (λ (o : Order). o.is_commission) shape in
      let held' : held k row ≡ 0 = rw kind in
      let items = ap (λ (o : Order). o.items) shape in
      subst (Keeps db k s) (ap (λ (x : Order × Tables db × List _). x.1) (ok-injective last)) (
        inserted-Keeps k s (record s { orders = orders }) row sound added fresh
          (subst AreDistinct (sym items) (tt, tt)) (omega (arith, held')) there)

  Step-Keeps :
      (k : ℕ) {s s' : Tables db}
      → Step db s s'
      → IsSound db s
      → is_row db.paintings k s.paintings ≡ true
      → Keeps db k s s'
  Step-Keeps k (checks_out {s} {s'} api sender identity dto order notices unique h) sound there =
      checkout-Keeps k api sender identity dto s s' order notices sound there unique h
  Step-Keeps k (commissions {s} {s'} api identity dto order notices h) sound there =
      commission-Keeps k api identity dto s s' order notices sound there h
  Step-Keeps k (cancels {s} {s'} identity id order notices h) sound there =
      cancel-Keeps db k identity id s s' order notices sound there h
  Step-Keeps k (sets_status {s} {s'} id status tracking order notices h) sound there =
      update_status-Keeps db k id status tracking s s' order notices sound there h
  Step-Keeps k (sets_payment {s} {s'} id payment order notices h) sound there =
      update_payment-Keeps db k id payment s s' order notices sound there h
  Step-Keeps k (archives {s} {s'} id order h) sound there =
      archive-Keeps db k id s s' order sound there h
  Step-Keeps k (removes {s} {s'} id h) sound there = remove-Keeps db k id s s' sound there h
  Step-Keeps k (claims {s} {s'} user token h) sound there =
      subst (Keeps db k s) h (claim-Keeps db k user token s sound there)

  history-Keeps :
      (k : ℕ) {s t : Tables db}
      → IsSound db s
      → is_row db.paintings k s.paintings ≡ true
      → Reach db s t
      → Keeps db k s t
  history-Keeps k sound there here = record { conserved = refl; sound = sound; there = there }
  history-Keeps k sound there (next r step) =
      let before = history-Keeps k sound there r in
      let after = Step-Keeps k step before.sound before.there in
      record {
        conserved = after.conserved ∙ before.conserved;
        sound = after.sound;
        there = after.there;
      }

  -- After any history of checkouts, commissions, cancellations and administrative changes, the
  -- copies of a painting on the shelf and those held by orders that are not cancelled add up to
  -- what they were, provided the history begins with distinct order ids, with no painting listed
  -- twice in one order, with the painting in its table, and every cart that is checked out lists a
  -- painting once.
  pub history_conserves :
      (k : ℕ) {s t : Tables db}
      → IsSound db s
      → is_row db.paintings k s.paintings ≡ true
      → Reach db s t
      → book db k t ≡ book db k s
  history_conserves k sound there r = (history-Keeps k sound there r).conserved
