-- ===== src/Cart.antt =====
-- backend/src/cart/cart.service.ts, over the tables of the order book, and
-- `calculateDeliveryPriceForIdentity` of backend/src/nova-poshta/nova-poshta.service.ts.
pub mod Laws
use gall_pr.Common.{
  ℕ, ◌+◌, ◌*◌, min, String, Bool, true, false, not, ◌&&◌, Option, none, some, List, [], ◌∷◌,
  Failure, bad_request, not_found, crashed, Result, ok, err, ◌>>=◌, ◌>>◌, throw_if, or_throw,
  or_else, ltb, leb, ◌==◌, if◌then◌else◌, Decimal, plus, times,
}
use gall_pr.Common.Rows.{at_key}
use gall_pr.Identity.{Identity, user_id, guest_token, identity_where}
use gall_pr.NovaPoshta.{
  Api, DeliveryPrice, calculate_delivery_price_for_cart_items, call_nova_poshta, zero_amount,
}
use gall_pr.Orders.Entities.{
  Painting, CartItem, CartLine, Database, Tables, painting_key, cart_key, with_paintings,
}
use gall_pr.Orders.Checkout.{cart_where}

-- `{ ...identityWhere(identity), paintingId }`
abbrev pub line_where : Identity → ℕ → CartItem → Bool
line_where identity painting c = cart_where identity c && c.painting_id == painting

abbrev line_missing : Failure
line_missing = not_found "Цієї позиції немає у кошику"

abbrev not_for_sale : Failure
not_for_sale = bad_request "Картина зараз недоступна"

-- `items.reduce((sum, item) => sum + Number(item.painting.price) * item.quantity, 0)`
unfoldable pub total_from : Decimal → List CartLine → Decimal
total_from sum [] = sum
total_from sum (item ∷ items) =
    total_from (plus sum (times item.painting.price item.quantity)) items

-- The row that `cartRepository.create` describes.
abbrev pub new_item : Identity → ℕ → ℕ → ℕ → CartItem
new_item identity painting quantity id = record {
  id = id;
  user_id = user_id identity;
  guest_token = guest_token identity;
  painting_id = painting;
  quantity = quantity;
}

-- The guards of `addItem` on the painting.
unfoldable pub check_for_sale : Option Painting → Result Painting
check_for_sale none = err (not_found "Картину не знайдено")
check_for_sale (some p) = do
  throw_if (not p.is_available) not_for_sale
  throw_if (leb p.amount 0) not_for_sale
  ok p

module _ (db : Database) where
  unfoldable pub get_cart : Identity → Tables db → Result (List CartLine × Decimal)
  unfolding total_from
  get_cart identity s = do
    items ← with_paintings db s (db.carts.find (cart_where identity) s.carts)
    ok (items, total_from zero_amount items)

  -- The two branches of `addItem` on the row that is already in the cart.
  unfoldable pub write_line :
      Identity → ℕ → ℕ → Painting → Tables db → Option CartItem → Result (CartItem × Tables db)
  write_line identity painting quantity p s (some item) =
      let updated = record item { quantity = min (item.quantity + quantity) p.amount } in
      ok (updated, record s { carts = db.carts.save updated s.carts })
  write_line identity painting quantity p s none = do
    (created, carts) ←
        or_throw (db.carts.insert (new_item identity painting (min quantity p.amount)) s.carts)
          (crashed "the cart item could not be inserted")
    ok (created, record s { carts = carts })

  unfoldable pub add_item : Identity → ℕ → Option ℕ → Tables db → Result (CartItem × Tables db)
  add_item identity painting wanted s = do
    p ← check_for_sale (db.paintings.find_one (at_key painting_key painting) s.paintings)
    write_line identity painting (or_else wanted 1) p s
        (db.carts.find_one (line_where identity painting) s.carts)

  unfoldable pub update_item : Identity → ℕ → ℕ → Tables db → Result (CartItem × Tables db)
  update_item identity painting quantity s = do
    item ← or_throw (db.carts.find_one (line_where identity painting) s.carts) line_missing
    p ←
        or_throw (db.paintings.find_one (at_key painting_key item.painting_id) s.paintings)
          (crashed "painting is null")
    throw_if (not p.is_available) not_for_sale
    throw_if (ltb p.amount quantity) (bad_request "Стільки примірників немає в наявності")
    let updated = record item { quantity = quantity }
    ok (updated, record s { carts = db.carts.save updated s.carts })

  unfoldable pub remove_item : Identity → ℕ → Tables db → Result (Tables db)
  remove_item identity painting s = do
    item ← or_throw (db.carts.find_one (line_where identity painting) s.carts) line_missing
    ok (record s { carts = db.carts.delete (at_key cart_key item.id) s.carts })

  unfoldable pub clear_cart : Identity → Tables db → Tables db
  clear_cart identity s = record s { carts = db.carts.delete (cart_where identity) s.carts }

  -- One round of the loop of `mergeGuestCart`.
  unfoldable pub merge_item : ℕ → CartItem → Tables db → Result (Tables db)
  merge_item user item s =
      elim (db.carts.find_one (line_where (Identity.user user) item.painting_id) s.carts) [
        | some existing ↦ do
          p ←
              or_throw
                (db.paintings.find_one (at_key painting_key existing.painting_id) s.paintings)
                (crashed "painting is null")
          let updated = record existing {
            quantity = min (existing.quantity + item.quantity) p.amount;
          }
          ok (record s {
            carts = db.carts.delete (at_key cart_key item.id) (db.carts.save updated s.carts);
          })
        | none ↦ ok (record s {
          carts = db.carts.save (record item { user_id = some user; guest_token = none }) s.carts;
        })
      ]

  unfoldable pub merge_items : ℕ → List CartItem → Tables db → Result (Tables db)
  merge_items user [] s = ok s
  merge_items user (item ∷ items) s = do s' ← merge_item user item s; merge_items user items s'

  unfoldable pub merge_guest_cart : ℕ → String → Tables db → Result (Tables db)
  merge_guest_cart user token s =
      merge_items user (db.carts.find (cart_where (Identity.guest token)) s.carts) s

  unfoldable pub calculate_delivery_price_for_identity :
      Api → String → Identity → String → Bool → Tables db → Result (Option DeliveryPrice)
  calculate_delivery_price_for_identity api sender identity recipient with_redelivery s = do
    (items, total) ← get_cart identity s
    call_nova_poshta
        (calculate_delivery_price_for_cart_items api sender items recipient with_redelivery)
