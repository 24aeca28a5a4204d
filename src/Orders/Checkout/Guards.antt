-- ===== src/Orders/Checkout/Guards.antt =====
-- The guards of a checkout: what a success says of the request, and how each failure is answered.
use gall_pr.Common.{
  ◌≡◌, refl, String, true, false, not, ◌||◌, Option, none, some, List, [], ◌∷◌, bad_request, ok,
  err, ◌>>=◌, throw_if, or_throw, >>=-eq-ok, throw_if-eq-ok, or_throw-eq-ok, ok-injective, arith,
  or_else, is_filled, trimmed, non_empty, trim, ap, subst, ◌∙◌,
}
use gall_pr.Identity.{Identity, is_guest}
use gall_pr.NovaPoshta.{
  Api, Place, json, thrown, DeliveryPrice, PriceRequest, get_city_by_ref, call, call_nova_poshta,
  calculate_delivery_price_for_cart_items, delivery_unavailable,
}
use gall_pr.NovaPoshta.Laws.{
  IsQuoted, question, calculate_delivery_price_for_cart_items-IsQuoted, call_nova_poshta-eq-ok,
  get_warehouse_by_ref_unreachable,
}
use gall_pr.Orders.Entities.{CartLine, with_paintings, Order, Database, Tables, DeliveryMethod}
use gall_pr.Orders.Checkout.{
  CheckoutDto, Notice, notify_admin_of_new_order, email_order_placed, check_contact,
  delivery_address, delivery_price, place_order, checkout, is_empty, is_given, is_nova_poshta,
  is_cash_on_delivery, cart_where,
}
use gall_pr.Orders.Checkout.Laws.{Placed, place_order-Placed, cart_of}

is_given_of_filled : (x : Option String) → is_filled x ≡ true → is_given x ≡ true
unfolding is_filled trimmed trim non_empty
is_given_of_filled none h = h
is_given_of_filled (some String.[]) h = h
is_given_of_filled (some (String.◌∷◌ c s)) h = refl

-- What the guards leave of the request.
pub record IsReachable (identity : Identity) (dto : CheckoutDto) : Type 0 where
  pub email : not (is_guest identity) || is_filled dto.guest_email ≡ true
  pub name : not (is_guest identity) || is_filled dto.guest_name ≡ true
  pub phone : not (is_guest identity) || is_filled dto.guest_phone ≡ true
  pub city : is_filled dto.nova_poshta_city_ref ≡ true
  pub warehouse : is_filled dto.nova_poshta_warehouse_ref ≡ true

is_nova_poshta_lem : (m : DeliveryMethod) → is_nova_poshta m ≡ true
is_nova_poshta_lem DeliveryMethod.nova_poshta = refl

-- The guards of a checkout let through only a request with a city and a warehouse and, from a
-- guest, with an email, a name and a phone.
pub check_contact-IsReachable :
    (identity : Identity) (dto : CheckoutDto) {u : Unit {0}}
    → check_contact identity dto ≡ ok u
    → IsReachable identity dto
unfolding check_contact
check_contact-IsReachable identity dto h = record {
  email = ground (arith, is_nova_poshta_lem dto.delivery_method);
  name = ground (arith, is_nova_poshta_lem dto.delivery_method);
  phone = ground (arith, is_nova_poshta_lem dto.delivery_method);
  city = ground (arith, is_nova_poshta_lem dto.delivery_method);
  warehouse = ground (arith, is_nova_poshta_lem dto.delivery_method);
}

-- What the delivery of a cart is priced for.
abbrev pub checkout_request : String → CheckoutDto → List CartLine → PriceRequest
checkout_request sender dto cart =
    question sender (or_else dto.nova_poshta_city_ref "") cart
      (is_cash_on_delivery dto.payment_provider)

-- A request that the guards let through is priced by a quote, never by default.
delivery_price-IsQuoted :
    (api : Api) (sender : String) (dto : CheckoutDto) (cart : List CartLine) (price : DeliveryPrice)
    → is_given dto.nova_poshta_city_ref ≡ true
    → delivery_price api sender dto cart ≡ ok price
    → IsQuoted api (checkout_request sender dto cart) price
unfolding delivery_price
delivery_price-IsQuoted api sender dto cart price given h =
    let work =
      calculate_delivery_price_for_cart_items api sender cart (or_else dto.nova_poshta_city_ref "")
        (is_cash_on_delivery dto.payment_provider) in
    let h' : (call_nova_poshta work >>= λ found. or_throw found delivery_unavailable) ≡ ok price =
      rw (is_nova_poshta_lem dto.delivery_method, given) at h in
    let (found, called, last) = >>=-eq-ok (call_nova_poshta work) _ h' in
    let e = or_throw-eq-ok found _ last in
    calculate_delivery_price_for_cart_items-IsQuoted api sender cart _ _ price
      (call_nova_poshta-eq-ok work called ∙ ap ok e)

module _ (db : Database) where
  pub record CheckedOut (api : Api) (sender : String) (identity : Identity) (dto : CheckoutDto)
      (s : Tables db) (order : Order) (s' : Tables db) (notices : List Notice) : Type 0 where
    pub price : DeliveryPrice
    pub lines : List CartLine
    pub loaded : with_paintings db s (cart_of db identity s) ≡ ok lines
    pub placed : Placed db identity price s order s'
    pub quoted : IsQuoted api (checkout_request sender dto lines) price
    pub reachable : IsReachable identity dto
    pub stocked : is_empty (cart_of db identity s) ≡ false
    pub told : notices ≡ notify_admin_of_new_order order.id ∷ email_order_placed order.id ∷ []

  -- A checkout that succeeds came from a reachable customer with a cart that is not empty; it moved
  -- every copy of the cart from the shelf into the order, charged the sum of the lines plus a
  -- delivery price that Nova Poshta quoted for this very cart, recorded a pending order under a
  -- fresh id, emptied the cart, and told the administrator and the customer.
  pub checkout-CheckedOut :
      (api : Api) (sender : String) (identity : Identity) (dto : CheckoutDto) (s s' : Tables db)
      (order : Order) (notices : List Notice)
      → checkout db api sender identity dto s ≡ ok (order, s', notices)
      → CheckedOut api sender identity dto s order s' notices
  unfolding checkout
  checkout-CheckedOut api sender identity dto s s' order notices h =
      let (_, checked, h1) = >>=-eq-ok (check_contact identity dto) _ h in
      let (address, resolved, h2) = >>=-eq-ok (delivery_address api dto) _ h1 in
      let cart = db.carts.find (cart_where identity) s.carts in
      let (_, filled, h3) = >>=-eq-ok (throw_if (is_empty cart) _) _ h2 in
      let (lines, loaded, h3') = >>=-eq-ok (with_paintings db s cart) _ h3 in
      let (price, priced, h4) = >>=-eq-ok (delivery_price api sender dto lines) _ h3' in
      let ((row, t), placed, last) =
        >>=-eq-ok (place_order db identity dto address price cart s) _ h4 in
      let same = db.carts.find_lem (cart_where identity) s.carts in
      let reachable = check_contact-IsReachable identity dto checked in
      record {
        price = price;
        lines = lines;
        loaded = subst (λ c. with_paintings db s c ≡ ok lines) same loaded;
        told =
            subst
              (λ (x : Order × Tables db × List Notice).
                x.2 ≡ notify_admin_of_new_order x.0.id ∷ email_order_placed x.0.id ∷ [])
              (ok-injective last) refl;
        placed =
            subst (λ (x : Order × Tables db × List Notice). Placed db identity price s x.0 x.1)
              (ok-injective last)
              (place_order-Placed db identity dto address price cart s row t same placed);
        quoted =
            delivery_price-IsQuoted api sender dto lines price
              (is_given_of_filled dto.nova_poshta_city_ref reachable.city) priced;
        reachable = reachable;
        stocked = rw (← same) (throw_if-eq-ok _ _ filled);
      }

  module _ (api : Api) (sender : String) (identity : Identity) (dto : CheckoutDto) (s : Tables db)
      (message : String) (passed : check_contact identity dto ≡ ok tt) where
    -- When the contact guards pass and the city cannot be looked up, the customer is told that the
    -- delivery cannot be priced now.
    pub checkout_no_city :
        api.get_cities_by_ref (or_else dto.nova_poshta_city_ref "") ≡ thrown message
        → checkout db api sender identity dto s ≡ err delivery_unavailable
    unfolding checkout delivery_address get_city_by_ref call call_nova_poshta
    checkout_no_city h = rw (passed, checkout, is_nova_poshta_lem dto.delivery_method, h)

    -- When the contact guards pass, the city is known and its warehouses cannot be listed, the
    -- customer is told to choose the city and the warehouse again.
    pub checkout_no_warehouses :
        (place : Place) (more : List Place)
        → api.get_cities_by_ref (or_else dto.nova_poshta_city_ref "")
          ≡ json true (some (place ∷ more))
        → api.get_warehouses (or_else dto.nova_poshta_city_ref "") ≡ thrown message
        → checkout db api sender identity dto s
          ≡ err (
              bad_request
                "Не вдалося підтвердити відділення Нової пошти — оберіть місто й відділення ще раз")
    unfolding checkout delivery_address get_city_by_ref call call_nova_poshta
    checkout_no_warehouses place more h k = rw (
      passed,
      checkout,
      is_nova_poshta_lem dto.delivery_method,
      h,
      get_warehouse_by_ref_unreachable api _ (or_else dto.nova_poshta_warehouse_ref "") message k,
    )
