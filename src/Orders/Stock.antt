-- ===== src/Orders/Stock.antt =====
-- The stock steps of backend/src/orders/orders.service.ts: the loop of `checkout` that takes
-- paintings off the shelf, `restoreStock` and `takeStockBack`. A transaction that throws leaves the
-- tables as they were, so an error carries no table.
pub mod Laws
pub mod Moves
pub mod Returns
use Prim.Native.String
use gall_pr.Common.{
  ℕ, ◌+◌, ◌-◌, ◌*◌, ◌≡◌, String, Bool, true, false, not, ◌||◌, Option, none, some, List, [], ◌∷◌,
  ◌++◌, Failure, bad_request, crashed, Result, ok, err, ◌>>=◌, ltb, leb, if◌then◌else◌, to_cents,
}
use gall_pr.Common.Rows.{at_key, by_key, put}
use gall_pr.Common.Repository.{Repository}
use gall_pr.Orders.Entities.{
  Painting, CartItem, OrderItem, Order, painting_key, cart_painting, item_painting,
}

-- `stockOrder`: a stable sort by painting id, so that every transaction locks in one order.
module _ {A : Type 0} (painting_id : A → ℕ) where
  unfoldable pub insert_in_order : A → List A → List A
  insert_in_order x [] = x ∷ []
  insert_in_order x (y ∷ ys) =
      if leb (painting_id x) (painting_id y) then x ∷ y ∷ ys else y ∷ insert_in_order x ys

  unfoldable pub stock_order : List A → List A
  unfolding insert_in_order
  stock_order [] = []
  stock_order (x ∷ xs) = insert_in_order x (stock_order xs)

title_or : Option Painting → String
title_or none = "Картина"
title_or (some p) = p.title

unfoldable pub no_longer_available : Option Painting → Failure
unfolding title_or
no_longer_available p =
    bad_request
      (String.◌++◌ "\"" (String.◌++◌ (title_or p) "\" більше недоступна в потрібній кількості"))

-- `painting.amount -= quantity`, with the clamp at 0 that also withdraws the painting.
unfoldable pub take_off : ℕ → Painting → Painting
take_off quantity p =
    let left = p.amount - quantity in
    if leb left 0 then record p { amount = 0; is_available = false } else record p { amount = left }

-- `painting.amount += quantity`, and the painting is for sale again.
unfoldable pub put_back : ℕ → Painting → Painting
put_back quantity p = record p { amount = p.amount + quantity; is_available = true }

-- The guard of `checkout` on a locked row.
unfoldable pub check_available : ℕ → Option Painting → Result Painting
check_available quantity none = err (no_longer_available none)
check_available quantity (some p) =
    if not p.is_available || ltb p.amount quantity then err (no_longer_available (some p)) else ok p

-- The guard of `takeStockBack`, which does not read `isAvailable`.
unfoldable pub check_amount : ℕ → Option Painting → Result Painting
check_amount quantity none = err (no_longer_available none)
check_amount quantity (some p) =
    if ltb p.amount quantity then err (no_longer_available (some p)) else ok p

abbrev pub item_of : CartItem → Painting → OrderItem
item_of c p = record { painting_id = p.id; quantity = c.quantity; price = p.price }

module _ (repo : Repository painting_key) where
  -- The loop over the cart inside the transaction of `checkout`.
  unfoldable pub reserve :
      List CartItem → List OrderItem → ℕ → repo.Table → Result (List OrderItem × ℕ × repo.Table)
  reserve [] items cents t = ok (items, cents, t)
  reserve (c ∷ cs) items cents t = do
    painting ← check_available c.quantity (repo.find_one (at_key painting_key c.painting_id) t)
    reserve cs (items ++ item_of c painting ∷ []) (cents + to_cents painting.price * c.quantity)
        (repo.save (take_off c.quantity painting) t)

  unfoldable pub restore_item : OrderItem → repo.Table → repo.Table
  restore_item i t = elim (repo.find_one (at_key painting_key i.painting_id) t) [
    | none ↦ t
    | some p ↦ repo.save (put_back i.quantity p) t
  ]

  unfoldable pub restore_items : List OrderItem → repo.Table → repo.Table
  unfolding restore_item
  restore_items [] t = t
  restore_items (i ∷ is) t = restore_items is (restore_item i t)

  -- `movesStock` stands in the test.
  unfoldable pub restore_stock : Order → repo.Table → repo.Table
  restore_stock order t =
      if order.is_commission then t else restore_items (stock_order item_painting order.items) t

  -- The first pass of `takeStockBack`: check each line and remember the painting.
  unfoldable pub check_items : List OrderItem → List Painting → repo.Table → Result (List Painting)
  check_items [] held t = ok held
  check_items (i ∷ is) held t = do
    painting ← check_amount i.quantity (repo.find_one (at_key painting_key i.painting_id) t)
    check_items is (put painting_key painting held) t

  -- The second pass. The remembered painting is one object: a second line sees the first one's change.
  unfoldable pub take_items : List OrderItem → List Painting → repo.Table → Result repo.Table
  take_items [] held t = ok t
  take_items (i ∷ is) held t = elim (by_key painting_key i.painting_id held) [
    | none ↦ err (crashed "painting is undefined")
    | some p ↦
        take_items is (put painting_key (take_off i.quantity p) held)
          (repo.save (take_off i.quantity p) t)
  ]

  unfoldable pub take_stock_back : Order → repo.Table → Result repo.Table
  take_stock_back order t = if order.is_commission then ok t else do
    held ← check_items (stock_order item_painting order.items) [] t
    take_items order.items held t
