-- ===== src/Orders/Status/Race.antt =====
-- Two requests that cancel one order at the same time. `cancel` of
-- backend/src/orders/orders.service.ts reads the order and checks its status before its
-- transaction begins, and the transaction does not look again.
use gall_pr.Common.{ℕ, ◌+◌, ◌≡◌, sym, ap, ◌∙◌, true, false, ok-injective, ok, arith}
use gall_pr.Identity.{Identity}
use gall_pr.Orders.Entities.{Order, Database, Tables}
use gall_pr.Orders.Stock.Moves.{in_items, shelf}
use gall_pr.Orders.Stock.Returns.{is_row, shelf-restore_stock}
use gall_pr.Orders.Status.{read_cancel, commit_cancel}

module _ (db : Database) where
  -- Both requests have read the order before either one's transaction.
  abbrev pub cancel_at_once : Order → Order → Tables db → Tables db
  cancel_at_once first second s = (commit_cancel db second (commit_cancel db first s).1).1

  -- If two cancellations of an order that is not a commission, by one identity, both read the order
  -- before either writes, each of its paintings is put back on the shelf twice.
  pub cancel_at_once_doubles :
      (k id : ℕ) (identity : Identity) (first second : Order) (s : Tables db)
      → is_row db.paintings k s.paintings ≡ true
      → read_cancel db identity id s ≡ ok first
      → read_cancel db identity id s ≡ ok second
      → first.is_commission ≡ false
      → shelf db.paintings k (cancel_at_once first second s).paintings
        ≡ shelf db.paintings k s.paintings + in_items k first.items + in_items k first.items
  unfolding commit_cancel
  cancel_at_once_doubles k id identity first second s there a b kind =
      let same : first ≡ second = ok-injective (sym a ∙ b) in
      let (once, still) = shelf-restore_stock db.paintings k first s.paintings there in
      let (again, _) =
        shelf-restore_stock db.paintings k second (commit_cancel db first s).1.paintings still in
      let item = ap (λ (o : Order). in_items k o.items) same in
      let kind' = ap (λ (o : Order). o.is_commission) same in
      ground (arith, once, again, item, kind')
