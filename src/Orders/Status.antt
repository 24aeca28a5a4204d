-- ===== src/Orders/Status.antt =====
-- The life of an order after it is placed, backend/src/orders/orders.service.ts: cancelling by the
-- customer, the administrator's changes, and the claim of a guest's orders by an account.
pub mod Written
pub mod Book
pub mod Race
use gall_pr.Common.{
  ℕ, String, Bool, true, false, not, ◌&&◌, Option, none, some, List, [], ◌∷◌, Failure, bad_request,
  not_found, Result, ok, err, ◌>>=◌, ◌>>◌, throw_if, or_throw, ◌==◌, if◌then◌else◌, trimmed,
  is_some, str_eq,
}
use gall_pr.Common.Rows.{at_key}
use gall_pr.Identity.{Identity, identity_where}
use gall_pr.Orders.Entities.{
  Order, OrderStatus, PaymentStatus, PaymentProvider, Database, Tables, order_key, painting_key,
}
use gall_pr.Orders.Stock.{restore_stock, take_stock_back}
use gall_pr.Orders.Checkout.{
  Notice, notify_user_of_status_change, email_status_change, notify_user_of_payment,
  email_payment_result, notify_admin_of_proof, email_payment_proof_received,
}

abbrev status_code : OrderStatus → ℕ
status_code OrderStatus.pending = 0
status_code OrderStatus.confirmed = 1
status_code OrderStatus.shipped = 2
status_code OrderStatus.cancelled = 3
status_code OrderStatus.completed = 4

-- `a === b` on the two enumerations.
abbrev pub is_status : OrderStatus → OrderStatus → Bool
is_status a b = status_code a == status_code b

abbrev payment_code : PaymentStatus → ℕ
payment_code PaymentStatus.unpaid = 0
payment_code PaymentStatus.paid = 1
payment_code PaymentStatus.failed = 2

abbrev pub is_payment : PaymentStatus → PaymentStatus → Bool
is_payment a b = payment_code a == payment_code b

-- `{ id, ...identityWhere(identity) }`
abbrev pub own_order : Identity → ℕ → Order → Bool
own_order identity id o = at_key order_key id o && identity_where identity o.user_id o.guest_token

abbrev pub order_missing : Failure
order_missing = not_found "Замовлення не знайдено"

-- The three refusals of `cancel`.
unfoldable pub check_cancellable : Order → Result (Unit {0})
check_cancellable order = do
  throw_if (is_status order.status OrderStatus.cancelled) (bad_request "Замовлення вже скасовано")
  throw_if (is_status order.status OrderStatus.completed)
      (bad_request "Виконане замовлення скасувати не можна")
  throw_if (is_status order.status OrderStatus.shipped)
      (bad_request "Замовлення вже відправлено — щоб його скасувати, звʼяжіться з підтримкою")

-- The waybill that a change to SHIPPED has to bring.
unfoldable pub with_tracking : OrderStatus → Option String → Order → Result Order
with_tracking status tracking order =
    if is_status status OrderStatus.shipped
    then (do
      ttn ←
          or_throw (trimmed tracking)
            (bad_request "Вкажіть номер накладної (ТТН), щоб позначити замовлення відправленим")
      ok (record order { tracking_number = some ttn }))
    else ok order

module _ (db : Database) where
  -- The transaction of a cancellation, on the order as it was read before it.
  unfoldable pub commit_cancel : Order → Tables db → Order × Tables db
  commit_cancel order s =
      let updated = record order { status = OrderStatus.cancelled } in
      (
        updated,
        record s {
          paintings = restore_stock db.paintings order s.paintings;
          orders = db.orders.save updated s.orders;
        },
      )

  -- What stands before that transaction.
  unfoldable pub read_cancel : Identity → ℕ → Tables db → Result Order
  unfolding check_cancellable
  read_cancel identity id s = do
    order ← or_throw (db.orders.find_one (own_order identity id) s.orders) order_missing
    check_cancellable order
    ok order

  unfoldable pub cancel : Identity → ℕ → Tables db → Result (Order × Tables db × List Notice)
  cancel identity id s = do
    order ← read_cancel identity id s
    let (updated, s') = commit_cancel order s
    ok (updated, s', notify_user_of_status_change updated ∷ [])

  -- The transaction of the opposite change.
  unfoldable pub commit_restore : OrderStatus → Order → Tables db → Result (Order × Tables db)
  commit_restore status order s = do
    paintings ← take_stock_back db.paintings order s.paintings
    let updated = record order { status = status }
    ok (updated, record s { paintings = paintings; orders = db.orders.save updated s.orders })

  -- Which of the three ways the new status is written.
  unfoldable pub write_status : OrderStatus → Order → Tables db → Result (Order × Tables db)
  write_status status order s =
      if not (is_status order.status OrderStatus.cancelled)
        && is_status status OrderStatus.cancelled
      then ok (commit_cancel order s)
      else if is_status order.status OrderStatus.cancelled
          && not (is_status status OrderStatus.cancelled)
      then commit_restore status order s
      else let updated = record order { status = status } in
        ok (updated, record s { orders = db.orders.save updated s.orders })

  unfoldable pub update_status_admin :
      ℕ → OrderStatus → Option String → Tables db → Result (Order × Tables db × List Notice)
  update_status_admin id status tracking s = do
    order ← or_throw (db.orders.find_one (at_key order_key id) s.orders) order_missing
    if is_status order.status status then ok (order, s, []) else (do
      order' ← with_tracking status tracking order
      (updated, s') ← write_status status order' s
      ok (updated, s', notify_user_of_status_change updated ∷ email_status_change updated ∷ []))

  unfoldable pub update_payment_status_admin :
      ℕ → PaymentStatus → Tables db → Result (Order × Tables db × List Notice)
  update_payment_status_admin id payment s = do
    order ← or_throw (db.orders.find_one (at_key order_key id) s.orders) order_missing
    let updated = record order { payment_status = payment }
    let s' = record s { orders = db.orders.save updated s.orders }
    let letter = email_payment_result updated payment
    ok (
      updated,
      s',
      if is_payment payment PaymentStatus.unpaid
          then []
          else if is_some updated.user_id
          then notify_user_of_payment updated payment ∷ letter ∷ []
          else letter ∷ [],
    )

  unfoldable pub archive_admin : ℕ → Tables db → Result (Order × Tables db)
  archive_admin id s = do
    order ← or_throw (db.orders.find_one (at_key order_key id) s.orders) order_missing
    throw_if (not (is_status order.status OrderStatus.completed))
        (bad_request "Тільки виконані замовлення можна прибрати з перегляду")
    let updated = record order { is_archived = true }
    ok (updated, record s { orders = db.orders.save updated s.orders })

  unfoldable pub remove_admin : ℕ → Tables db → Result (Tables db)
  remove_admin id s = do
    order ← or_throw (db.orders.find_one (at_key order_key id) s.orders) order_missing
    throw_if (not (is_status order.status OrderStatus.cancelled))
        (bad_request "Видалити можна лише скасоване замовлення")
    ok (record s { orders = db.orders.delete (at_key order_key order.id) s.orders })

  -- `{ guestToken, userId: IsNull() }`
  abbrev pub unclaimed : String → Order → Bool
  unclaimed token o =
      not (is_some o.user_id) && identity_where (Identity.guest token) o.user_id o.guest_token

  unfoldable pub claim_guest_orders : ℕ → String → Tables db → Tables db
  claim_guest_orders user token s = record s {
    orders =
        db.orders.update (unclaimed token)
          (λ o. record o { user_id = some user; guest_token = none }) s.orders;
  }
