-- ===== src/Examples/Changes.antt =====
-- What happens to an order of the shop after it is placed.
use gall_pr.Common.{
  String, ◌+◌, ◌≡◌, refl, true, some, none, List, [], ◌∷◌, ok, arith, trim, non_empty, trimmed,
  or_throw,
}
use gall_pr.Common.Rows.{first, put, by_key, at_key}
use gall_pr.Identity.{identity_where}
use gall_pr.Orders.Stock.{
  insert_in_order, stock_order, take_off, put_back, check_amount, restore_item, restore_items,
  restore_stock, check_items, take_items, take_stock_back,
}
use gall_pr.Orders.Stock.Moves.{shelf}
use gall_pr.Orders.Stock.Returns.{is_row, shelf-restore_stock, shelf-take_stock_back}
use gall_pr.Orders.Entities.{Order, OrderStatus, Tables, order_key}
use gall_pr.Orders.Checkout.{Notice}
use gall_pr.Orders.Status.{
  check_cancellable, with_tracking, commit_cancel, read_cancel, cancel, commit_restore,
  write_status, update_status_admin, order_missing,
}
use gall_pr.Orders.Status.Book.{Rewritten, book, write_status-Rewritten}
use gall_pr.Orders.Status.Written.{IsWaybill, update_status-ships}
use gall_pr.Orders.Status.Race.{cancel_at_once, cancel_at_once_doubles}
use gall_pr.Orders.History.{here, next, cancels, sets_status}
use gall_pr.Orders.History.Ledger.{history_conserves}
use gall_pr.Orders.Admin.{completed, total_pages}
use gall_pr.Orders.Admin.Laws.{first_pages, pages_complete}
use gall_pr.Examples.Shop.{shop, today, customer, earlier, or_value}

has_lilies : is_row shop.paintings 7 today.paintings ≡ true
unfolding by_key first
has_lilies = refl

shelf-restore_stock_example :
    (shelf shop.paintings 7 (restore_stock shop.paintings earlier today.paintings)
      ≡ shelf shop.paintings 7 today.paintings + 1)
    × (is_row shop.paintings 7 (restore_stock shop.paintings earlier today.paintings) ≡ true)
shelf-restore_stock_example =
    shelf-restore_stock shop.paintings 7 earlier today.paintings has_lilies

abbrev taken_back : shop.paintings.Table
taken_back = or_value [] (take_stock_back shop.paintings earlier today.paintings)

taken_back_lem : take_stock_back shop.paintings earlier today.paintings ≡ ok taken_back
unfolding take_stock_back check_items take_items check_amount take_off stock_order insert_in_order
    first put by_key
taken_back_lem = refl

shelf-take_stock_back_example :
    shelf shop.paintings 7 taken_back + 1 ≡ shelf shop.paintings 7 today.paintings
shelf-take_stock_back_example =
    shelf-take_stock_back shop.paintings earlier today.paintings taken_back (tt, tt) taken_back_lem
      7

abbrev cancelled : Order × Tables shop × List Notice
cancelled = or_value (earlier, today, []) (cancel shop customer 1 today)

cancelled_lem : cancel shop customer 1 today ≡ ok cancelled
unfolding cancel read_cancel check_cancellable commit_cancel restore_stock restore_items
    restore_item put_back stock_order insert_in_order identity_where first put by_key
cancelled_lem = refl

abbrev reopened : Order × Tables shop × List Notice
reopened = or_value cancelled (update_status_admin shop 1 OrderStatus.confirmed none cancelled.1)

reopened_lem : update_status_admin shop 1 OrderStatus.confirmed none cancelled.1 ≡ ok reopened
unfolding update_status_admin write_status commit_restore with_tracking take_stock_back check_items
    take_items check_amount take_off cancel read_cancel check_cancellable commit_cancel
    restore_stock restore_items restore_item put_back stock_order insert_in_order identity_where
    first put by_key
reopened_lem = refl

history_conserves_example : book shop 7 reopened.1 ≡ book shop 7 today
history_conserves_example =
    history_conserves shop 7 (record { keys = (tt, tt); lines = ((tt, tt), tt) }) has_lilies
      (next (next here (cancels customer 1 cancelled.0 cancelled.2 cancelled_lem))
        (sets_status 1 OrderStatus.confirmed none reopened.0 reopened.2 reopened_lem))

is_still_there : is_row shop.paintings 7 cancelled.1.paintings ≡ true
unfolding cancel read_cancel check_cancellable commit_cancel restore_stock restore_items
    restore_item put_back stock_order insert_in_order identity_where first put by_key
is_still_there = refl

written :
    write_status shop OrderStatus.confirmed cancelled.0 cancelled.1 ≡ ok (reopened.0, reopened.1)
unfolding update_status_admin write_status commit_restore with_tracking take_stock_back check_items
    take_items check_amount take_off cancel read_cancel check_cancellable commit_cancel
    restore_stock restore_items restore_item put_back stock_order insert_in_order identity_where
    first put by_key
written = refl

write_status-Rewritten_example : Rewritten shop 7 cancelled.1 cancelled.0 reopened.0 reopened.1
unfolding cancel read_cancel first identity_where commit_cancel
write_status-Rewritten_example =
    write_status-Rewritten shop 7 OrderStatus.confirmed cancelled.0 reopened.0 cancelled.1
      reopened.1 is_still_there (tt, tt) written

read_lem : read_cancel shop customer 1 today ≡ ok earlier
unfolding read_cancel check_cancellable identity_where first
read_lem = refl

cancel_at_once_doubles_example :
    shelf shop.paintings 7 (cancel_at_once shop earlier earlier today).paintings
    ≡ shelf shop.paintings 7 today.paintings + 1 + 1
cancel_at_once_doubles_example =
    cancel_at_once_doubles shop 7 1 customer earlier earlier today has_lilies read_lem read_lem refl

pages_complete_example :
    first_pages 1 (total_pages 2 1) (earlier ∷ earlier ∷ []) ≡ earlier ∷ earlier ∷ []
pages_complete_example = pages_complete 1 (earlier ∷ earlier ∷ []) (omega arith)

-- The order was completed and archived, and is sent again.
abbrev archived : Tables shop
archived = record today {
  orders = record earlier { status = OrderStatus.completed; is_archived = true } ∷ [];
}

abbrev resent : Order × Tables shop × List Notice
resent =
    or_value (earlier, today, [])
      (update_status_admin shop 1 OrderStatus.shipped (some "20450") archived)

-- The order is sent for the first time.
abbrev shipped : Order × Tables shop × List Notice
shipped =
    or_value (earlier, today, [])
      (update_status_admin shop 1 OrderStatus.shipped (some " 20450 ") today)

found_earlier :
    or_throw (shop.orders.find_one (at_key order_key 1) today.orders) order_missing ≡ ok earlier
unfolding first
found_earlier = refl

shipped_lem : update_status_admin shop 1 OrderStatus.shipped (some " 20450 ") today ≡ ok shipped
unfolding update_status_admin write_status with_tracking trim non_empty trimmed first put
shipped_lem = refl

update_status-ships_example :
    (shipped.0.status ≡ OrderStatus.shipped)
    × ((ttn : String) × IsWaybill (some " 20450 ") ttn × (shipped.0.tracking_number ≡ some ttn))
    × (by_key order_key shipped.0.id (shop.orders.rows shipped.1.orders) ≡ some shipped.0)
update_status-ships_example =
    update_status-ships shop 1 (some " 20450 ") earlier shipped.0 today shipped.1 shipped.2
      found_earlier refl shipped_lem
