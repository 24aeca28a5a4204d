-- ===== src/Orders/Checkout/Laws.antt =====
-- What a checkout that succeeds has done, and when it is refused.
use gall_pr.Common.{
  ℕ, ◌+◌, ◌≡◌, ap, subst, ◌∙◌, true, false, Option, none, List, [], ◌∷◌, ◌++◌, ok, or_throw,
  >>=-eq-ok, or_throw-eq-ok, ok-injective, to_cents, to_cents-of_cents, sum_of, arith, map, is_some,
}
use gall_pr.Common.Rows.{keep, discard, by_key}
use gall_pr.Identity.{Identity, user_id, guest_token}
use gall_pr.NovaPoshta.{DeliveryPrice}
use gall_pr.Orders.Entities.{
  CartItem, OrderItem, Order, OrderStatus, Database, Tables, cart_painting, cart_quantity,
  item_painting, order_key, painting_key,
}
use gall_pr.Orders.Stock.{stock_order, reserve}
use gall_pr.Orders.Stock.Laws.{quantity_of-stock_order}
use gall_pr.Orders.Stock.Moves.{
  in_cart, in_items, line_cents, shelf, reserve-Reserved, reserve-map_painting, reserve-row,
}
use gall_pr.Orders.Checkout.{CheckoutDto, Address, new_order, cart_where, place_order}

module _ (db : Database) where
  abbrev pub cart_of : Identity → Tables db → List CartItem
  cart_of identity s = keep (cart_where identity) (db.carts.rows s.carts)

  -- What the transaction has done.
  pub record Placed (identity : Identity) (price : DeliveryPrice) (s : Tables db) (order : Order)
      (s' : Tables db) : Type 0 where
    pub moved :
        (k : ℕ)
        → shelf db.paintings k s'.paintings + in_items k order.items
          ≡ shelf db.paintings k s.paintings
    pub listed : (k : ℕ) → in_items k order.items ≡ in_cart k (cart_of identity s)
    pub charged :
        to_cents order.total
        ≡ sum_of line_cents order.items
          + (to_cents price.shipping_cost + to_cents price.redelivery_cost)
    pub delivery : order.delivery_cost ≡ price.shipping_cost
    pub fee : order.cod_fee ≡ price.redelivery_cost
    pub emptied : db.carts.rows s'.carts ≡ discard (cart_where identity) (db.carts.rows s.carts)
    pub recorded : db.orders.rows s'.orders ≡ db.orders.rows s.orders ++ order ∷ []
    pub fresh : by_key order_key order.id (db.orders.rows s.orders) ≡ none
    pub lines :
        map item_painting order.items
        ≡ map cart_painting (stock_order cart_painting (cart_of identity s))
    pub rows_stay :
        (k : ℕ)
        → is_some (by_key painting_key k (db.paintings.rows s.paintings)) ≡ true
        → is_some (by_key painting_key k (db.paintings.rows s'.paintings)) ≡ true
    pub is_pending : order.status ≡ OrderStatus.pending
    pub is_purchase : order.is_commission ≡ false
    pub owner : (order.user_id ≡ user_id identity) × (order.guest_token ≡ guest_token identity)

  Placed-of :
      (identity : Identity) (dto : CheckoutDto) (address : Option Address) (price : DeliveryPrice)
      (cart : List CartItem) (s : Tables db) (items : List OrderItem) (cents : ℕ) (row : Order)
      (s' : Tables db)
      → cart ≡ cart_of identity s
      → reserve db.paintings (stock_order cart_painting cart) [] 0 s.paintings
        ≡ ok (items, cents, s'.paintings)
      → db.carts.rows s'.carts ≡ discard (cart_where identity) (db.carts.rows s.carts)
      → db.orders.rows s'.orders ≡ db.orders.rows s.orders ++ row ∷ []
      → by_key order_key row.id (db.orders.rows s.orders) ≡ none
      → row
        ≡ new_order identity dto address price items
            (cents + (to_cents price.shipping_cost + to_cents price.redelivery_cost))
            row.id
      → Placed identity price s row s'
  unfolding new_order
  Placed-of identity dto address price cart s items cents row s' same reserved emptied recorded
        fresh shape =
      let sorted_cart = stock_order cart_painting cart in
      let r =
        reserve-Reserved db.paintings sorted_cart [] items 0 cents s.paintings s'.paintings
          reserved in
      let ids =
        reserve-map_painting db.paintings sorted_cart [] items 0 cents s.paintings s'.paintings
          reserved in
      let its : row.items ≡ items = ap (λ (o : Order). o.items) shape in
      let sorted = λ (k : ℕ). quantity_of-stock_order cart_painting cart_quantity k cart in
      let carts = λ (k : ℕ). ap (λ c. in_cart k c) same in
      record {
        moved = λ k. omega (arith, r.moved k, r.listed k, ap (λ x. in_items k x) its);
        listed = λ k. omega (arith, r.listed k, ap (λ x. in_items k x) its, sorted k, carts k);
        charged =
            ap (λ (o : Order). to_cents o.total) shape
            ∙ to_cents-of_cents _
            ∙ omega (arith, r.priced, ap (λ x. sum_of line_cents x) its);
        delivery = ap (λ (o : Order). o.delivery_cost) shape;
        fee = ap (λ (o : Order). o.cod_fee) shape;
        emptied = emptied;
        recorded = recorded;
        fresh = fresh;
        lines =
            ap (map item_painting) its
            ∙ ids
            ∙ ap (λ c. map cart_painting (stock_order cart_painting c)) same;
        rows_stay = λ k there.
            reserve-row db.paintings k sorted_cart [] items 0 cents s.paintings s'.paintings there
              reserved;
        is_pending = ap (λ (o : Order). o.status) shape;
        is_purchase = ap (λ (o : Order). o.is_commission) shape;
        owner = (ap (λ (o : Order). o.user_id) shape, ap (λ (o : Order). o.guest_token) shape);
      }

  pub place_order-Placed :
      (identity : Identity) (dto : CheckoutDto) (address : Option Address) (price : DeliveryPrice)
      (cart : List CartItem) (s : Tables db) (order : Order) (s' : Tables db)
      → cart ≡ cart_of identity s
      → place_order db identity dto address price cart s ≡ ok (order, s')
      → Placed identity price s order s'
  unfolding place_order
  place_order-Placed identity dto address price cart s order s' same h =
      let ((items, cents, paintings), reserved, later) =
        >>=-eq-ok (reserve db.paintings (stock_order cart_painting cart) [] 0 s.paintings) _ h in
      let ((row, orders), inserted, last) =
        >>=-eq-ok
          (or_throw
            (db.orders.insert
              (new_order identity dto address price items
                (cents + (to_cents price.shipping_cost + to_cents price.redelivery_cost)))
              s.orders)
            _)
          _ later in
      let (rows, shape, fresh) =
        db.orders.rows-insert _ s.orders orders row (or_throw-eq-ok _ _ inserted) in
      let t : Tables db = record {
        paintings = paintings;
        carts = db.carts.delete (cart_where identity) s.carts;
        orders = orders;
      } in
      subst (λ (x : Order × Tables db). Placed identity price s x.0 x.1) (ok-injective last)
        (Placed-of identity dto address price cart s items cents row t same reserved
          (db.carts.rows-delete (cart_where identity) s.carts) rows fresh shape)
