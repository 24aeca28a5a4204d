-- ===== src/Orders/Checkout.antt =====
-- `checkout` of backend/src/orders/orders.service.ts: its guards in their order, the quote of the
-- delivery, and the transaction that reserves the stock, writes the order and empties the cart.
-- The notifications that it starts and does not wait for are returned as a list.
pub mod Laws
pub mod Guards
use gall_pr.Common.{
  ℕ, ◌+◌, String, Bool, true, false, not, ◌&&◌, ◌||◌, Option, none, some, List, [], ◌∷◌, Failure,
  bad_request, crashed, Result, ok, err, ◌>>=◌, ◌>>◌, throw_if, or_throw, Decimal, to_cents,
  of_cents, or_else, if◌then◌else◌, is_filled, trimmed, non_empty, is_some,
}
use gall_pr.Common.Rows
use gall_pr.Identity.{Identity, is_guest, user_id, guest_token, identity_where}
use gall_pr.NovaPoshta.{
  Api, Place, DeliveryPrice, get_city_by_ref, get_warehouse_by_ref,
  calculate_delivery_price_for_cart_items, call_nova_poshta, delivery_unavailable,
}
use gall_pr.Orders.Entities.{
  CartItem, CartLine, with_paintings, OrderItem, Order, OrderStatus, PaymentProvider, PaymentStatus,
  DeliveryMethod, Database, Tables, cart_painting,
}
use gall_pr.Orders.Stock.{stock_order, reserve}

-- backend/src/orders/dto/checkout.dto.ts
pub record CheckoutDto : Type 0 where
  pub guest_name : Option String
  pub guest_email : Option String
  pub guest_phone : Option String
  pub guest_address : Option String
  pub comment : Option String
  pub payment_provider : PaymentProvider
  pub delivery_method : DeliveryMethod
  pub call_me_requested : Option Bool
  pub nova_poshta_city_ref : Option String
  pub nova_poshta_warehouse_ref : Option String

pub record Address : Type 0 where
  pub city : String
  pub warehouse : String

-- Work that is started and not waited for, with what it is started on.
pub data Notice : Type 0 where
  notify_admin_of_new_order email_order_placed : ℕ → Notice
  notify_user_of_status_change email_status_change : Order → Notice
  notify_admin_of_proof email_payment_proof_received : Order → Notice
  notify_user_of_payment email_payment_result : Order → PaymentStatus → Notice
  email_commission_placed : ℕ → String → Decimal → Notice

abbrev pub is_nova_poshta : DeliveryMethod → Bool
is_nova_poshta DeliveryMethod.nova_poshta = true

abbrev pub is_cash_on_delivery : PaymentProvider → Bool
is_cash_on_delivery PaymentProvider.cash_on_delivery = true
is_cash_on_delivery _ = false

unfoldable pub check_contact : Identity → CheckoutDto → Result (Unit {0})
check_contact identity dto = do
  throw_if (is_guest identity && not (is_filled dto.guest_email))
      (bad_request "Вкажіть email — надішлемо туди замовлення")
  throw_if
      (is_guest identity && (not (is_filled dto.guest_name) || not (is_filled dto.guest_phone)))
      (bad_request "Вкажіть ім'я та телефон для оформлення замовлення")
  throw_if
      (is_nova_poshta dto.delivery_method
        && (not (is_filled dto.nova_poshta_city_ref)
            || not (is_filled dto.nova_poshta_warehouse_ref)))
      (bad_request "Оберіть місто та відділення Нової пошти")

-- `!city || !warehouse`
unfoldable pub confirmed_address : Option Place → Option Place → Result Address
confirmed_address (some city) (some warehouse) =
    ok (record { city = city.name; warehouse = warehouse.name })
confirmed_address _ _ = err (
    bad_request "Не вдалося підтвердити відділення Нової пошти — оберіть місто й відділення ще раз")

-- The address as Nova Poshta names it, resolved from the refs.
unfoldable pub delivery_address : Api → CheckoutDto → Result (Option Address)
unfolding confirmed_address
delivery_address api dto =
    if is_nova_poshta dto.delivery_method
    then (do
      city ← call_nova_poshta (get_city_by_ref api (or_else dto.nova_poshta_city_ref ""))
      address ← confirmed_address city (
          get_warehouse_by_ref api (or_else dto.nova_poshta_city_ref "")
            (or_else dto.nova_poshta_warehouse_ref ""))
      ok (some address))
    else ok none

abbrev pub free : DeliveryPrice
free = record {
  shipping_cost = record { digits = 0; scale = 0 };
  redelivery_cost = record { digits = 0; scale = 0 };
}

-- The truth of an optional string.
abbrev pub is_given : Option String → Bool
is_given none = false
is_given (some s) = is_some (non_empty s)

unfoldable pub delivery_price : Api → String → CheckoutDto → List CartLine → Result DeliveryPrice
delivery_price api sender dto cart =
    if is_nova_poshta dto.delivery_method && is_given dto.nova_poshta_city_ref
    then (do
      price ← call_nova_poshta (
          calculate_delivery_price_for_cart_items api sender cart
            (or_else dto.nova_poshta_city_ref "") (is_cash_on_delivery dto.payment_provider))
      or_throw price delivery_unavailable)
    else ok free

abbrev only_guest {ℓ} : {A : Type ℓ} → Identity → Option A → Option A
only_guest identity x = if is_guest identity then x else none

-- The row that `manager.create(Order, …)` describes, under the id that the database gives it.
unfoldable pub new_order :
    Identity → CheckoutDto → Option Address → DeliveryPrice → List OrderItem → ℕ → ℕ → Order
new_order identity dto address price items cents id = record {
  id = id;
  user_id = user_id identity;
  guest_token = guest_token identity;
  guest_name = only_guest identity dto.guest_name;
  guest_email = only_guest identity dto.guest_email;
  guest_phone = only_guest identity dto.guest_phone;
  guest_address = only_guest identity dto.guest_address;
  contact_handle = none;
  tracking_number = none;
  comment = trimmed dto.comment;
  delivery_method = dto.delivery_method;
  call_me_requested = or_else dto.call_me_requested false;
  nova_poshta_city = elim address [ none ↦ none | some a ↦ some a.city ];
  nova_poshta_warehouse = elim address [ none ↦ none | some a ↦ some a.warehouse ];
  delivery_cost = price.shipping_cost;
  cod_fee = price.redelivery_cost;
  status = OrderStatus.pending;
  payment_provider = dto.payment_provider;
  payment_status = PaymentStatus.unpaid;
  payment_proof_url = none;
  is_commission = false;
  is_archived = false;
  total = of_cents cents;
  items = items;
}

-- `identityWhere(identity)` on a cart row.
abbrev pub cart_where : Identity → CartItem → Bool
cart_where identity c = identity_where identity c.user_id c.guest_token

abbrev pub is_empty : List CartItem → Bool
is_empty [] = true
is_empty (c ∷ cs) = false

module _ (db : Database) where
  -- The transaction.
  unfoldable pub place_order :
      Identity
      → CheckoutDto
      → Option Address
      → DeliveryPrice
      → List CartItem
      → Tables db
      → Result (Order × Tables db)
  place_order identity dto address price cart s = do
    (items, cents, paintings) ←
        reserve db.paintings (stock_order cart_painting cart) [] 0 s.paintings
    (order, orders) ←
        or_throw
          (db.orders.insert
            (new_order identity dto address price items
              (cents + (to_cents price.shipping_cost + to_cents price.redelivery_cost)))
            s.orders)
          (crashed "the order could not be inserted")
    ok (
      order,
      record {
        paintings = paintings;
        carts = db.carts.delete (cart_where identity) s.carts;
        orders = orders;
      },
    )

  unfoldable pub checkout :
      Api → String → Identity → CheckoutDto → Tables db → Result (Order × Tables db × List Notice)
  checkout api sender identity dto s = do
    check_contact identity dto
    address ← delivery_address api dto
    let cart = db.carts.find (cart_where identity) s.carts
    throw_if (is_empty cart) (bad_request "Кошик порожній")
    lines ← with_paintings db s cart
    price ← delivery_price api sender dto lines
    (order, s') ← place_order identity dto address price cart s
    ok (order, s', notify_admin_of_new_order order.id ∷ email_order_placed order.id ∷ [])
