-- ===== src/Orders/Commission.antt =====
-- `createCommission` of backend/src/orders/orders.service.ts: a request to paint a work again.
use gall_pr.Common.{
  ℕ, String, true, false, not, ◌&&◌, Option, none, some, List, [], ◌∷◌, bad_request, not_found,
  crashed, Result, ok, err, ◌>>=◌, ◌>>◌, throw_if, or_throw, Decimal, to_cents, or_else, ltb,
  if◌then◌else◌, is_filled, trimmed, trim,
}
use gall_pr.Common.Rows.{at_key}
use gall_pr.Identity.{Identity, user_id, guest_token}
use gall_pr.NovaPoshta.{Api, Place, get_city_by_ref, get_warehouse_by_ref, zero_amount}
use gall_pr.Orders.Entities.{
  Painting, Order, OrderStatus, PaymentProvider, PaymentStatus, DeliveryMethod, Database, Tables,
  painting_key,
}
use gall_pr.Orders.Checkout.{Address, Notice, notify_admin_of_new_order, email_commission_placed}

-- backend/src/orders/dto/create-commission.dto.ts
pub record CreateCommissionDto : Type 0 where
  pub painting_id : ℕ
  pub name : String
  pub email : String
  pub phone : String
  pub offered_price : Option Decimal
  pub contact_handle : Option String
  pub nova_poshta_city_ref : Option String
  pub nova_poshta_warehouse_ref : Option String
  pub comment : Option String

-- `.catch(() => null)`
unfoldable pub null_on_error : {A : Type 0} → Result (Option A) → Option A
null_on_error (ok x) = x
null_on_error (err e) = none

both_named : Option Place → Option Place → Option Address
both_named (some city) (some warehouse) =
    some (record { city = city.name; warehouse = warehouse.name })
both_named _ _ = none

-- The address is optional here, and so is Nova Poshta's answer.
unfoldable pub optional_address : Api → CreateCommissionDto → Option Address
unfolding both_named null_on_error
optional_address api dto =
    if is_filled dto.nova_poshta_city_ref && is_filled dto.nova_poshta_warehouse_ref
    then both_named (null_on_error (get_city_by_ref api (or_else dto.nova_poshta_city_ref ""))) (
        get_warehouse_by_ref api (or_else dto.nova_poshta_city_ref "")
          (or_else dto.nova_poshta_warehouse_ref ""))
    else none

unfoldable pub new_commission :
    Identity → CreateCommissionDto → Option Address → Painting → Decimal → ℕ → Order
new_commission identity dto address painting offered id = record {
  id = id;
  user_id = user_id identity;
  guest_token = guest_token identity;
  guest_name = some (trim dto.name);
  guest_email = some (trim dto.email);
  guest_phone = some (trim dto.phone);
  guest_address = none;
  contact_handle = trimmed dto.contact_handle;
  tracking_number = none;
  comment = trimmed dto.comment;
  delivery_method = DeliveryMethod.nova_poshta;
  call_me_requested = false;
  nova_poshta_city = elim address [ none ↦ none | some a ↦ some a.city ];
  nova_poshta_warehouse = elim address [ none ↦ none | some a ↦ some a.warehouse ];
  delivery_cost = zero_amount;
  cod_fee = zero_amount;
  status = OrderStatus.pending;
  payment_provider = PaymentProvider.on_agreement;
  payment_status = PaymentStatus.unpaid;
  payment_proof_url = none;
  is_commission = true;
  is_archived = false;
  total = offered;
  items = record { painting_id = painting.id; quantity = 1; price = painting.price } ∷ [];
}

-- The three refusals, and the price that is offered. (The message also shows the original's price.)
unfoldable pub check_commission :
    CreateCommissionDto → Option Painting → Result (Painting × Decimal)
check_commission dto none = err (not_found "Картину не знайдено")
check_commission dto (some painting) = do
  throw_if (not painting.is_repeatable) (bad_request "Ця робота не доступна для повтору")
  let offered = or_else dto.offered_price painting.price
  throw_if (ltb (to_cents offered) (to_cents painting.price))
      (bad_request "Сума не може бути меншою за вартість оригіналу")
  ok (painting, offered)

module _ (db : Database) where
  unfoldable pub create_commission :
      Api → Identity → CreateCommissionDto → Tables db → Result (Order × Tables db × List Notice)
  create_commission api identity dto s = do
    (painting, offered) ←
        check_commission dto
          (db.paintings.find_one (at_key painting_key dto.painting_id) s.paintings)
    (order, orders) ←
        or_throw
          (db.orders.insert
            (new_commission identity dto (optional_address api dto) painting offered) s.orders)
          (crashed "the order could not be inserted")
    ok (
      order,
      record s { orders = orders },
      notify_admin_of_new_order order.id
          ∷ email_commission_placed order.id painting.title painting.price
          ∷ [],
    )
