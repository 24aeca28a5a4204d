-- ===== src/Orders/Entities.antt =====
-- The entities that the order book reads and writes (paintings, cart and orders), with the columns
-- that the modelled services use, and the tables that hold them.
use gall_pr.Common.{
  ℕ, String, Bool, Option, List, [], ◌∷◌, Decimal, Result, ok, ◌>>=◌, or_throw, crashed,
}
use gall_pr.Common.Rows.{at_key}
use gall_pr.Common.Repository.{Repository}

-- backend/src/paintings/entities/painting.entity.ts
pub record Painting : Type 0 where
  pub id : ℕ
  pub title : String
  pub price : Decimal
  pub amount : ℕ
  pub is_available : Bool
  pub is_repeatable : Bool
  pub weight : Option Decimal
  pub likes_count : ℕ
  pub series_id : Option ℕ
  pub technique_id : Option ℕ
  pub material_id : Option ℕ
  pub is_featured : Bool
  pub interior_images : Option (List String)

-- backend/src/cart/entities/cart-item.entity.ts
pub record CartItem : Type 0 where
  pub id : ℕ
  pub user_id : Option ℕ
  pub guest_token : Option String
  pub painting_id : ℕ
  pub quantity : ℕ

-- A cart item with its eager relation, as a query returns it.
pub record CartLine : Type 0 where
  pub painting : Painting
  pub quantity : ℕ

-- backend/src/orders/entities/order-item.entity.ts
pub record OrderItem : Type 0 where
  pub painting_id : ℕ
  pub quantity : ℕ
  pub price : Decimal

-- backend/src/orders/entities/order.entity.ts
pub data OrderStatus : Type 0 where
  pending confirmed shipped cancelled completed : OrderStatus

pub data PaymentProvider : Type 0 where
  cash_on_delivery card_transfer on_agreement : PaymentProvider

pub data PaymentStatus : Type 0 where
  unpaid paid failed : PaymentStatus

pub data DeliveryMethod : Type 0 where
  nova_poshta : DeliveryMethod

pub record Order : Type 0 where
  pub id : ℕ
  pub user_id : Option ℕ
  pub guest_token : Option String
  pub guest_name : Option String
  pub guest_email : Option String
  pub guest_phone : Option String
  pub guest_address : Option String
  pub contact_handle : Option String
  pub tracking_number : Option String
  pub comment : Option String
  pub delivery_method : DeliveryMethod
  pub call_me_requested : Bool
  pub nova_poshta_city : Option String
  pub nova_poshta_warehouse : Option String
  pub delivery_cost : Decimal
  pub cod_fee : Decimal
  pub status : OrderStatus
  pub payment_provider : PaymentProvider
  pub payment_status : PaymentStatus
  pub payment_proof_url : Option String
  pub is_commission : Bool
  pub is_archived : Bool
  pub total : Decimal
  pub items : List OrderItem

abbrev pub painting_key : Painting → ℕ
painting_key p = p.id

abbrev pub cart_key : CartItem → ℕ
cart_key c = c.id

abbrev pub order_key : Order → ℕ
order_key o = o.id

abbrev pub item_painting : OrderItem → ℕ
item_painting i = i.painting_id

abbrev pub item_quantity : OrderItem → ℕ
item_quantity i = i.quantity

abbrev pub cart_painting : CartItem → ℕ
cart_painting c = c.painting_id

abbrev pub cart_quantity : CartItem → ℕ
cart_quantity c = c.quantity

pub record Database : Type 1 where
  pub paintings : Repository painting_key
  pub carts : Repository cart_key
  pub orders : Repository order_key

-- What the tables hold at one moment.
pub record Tables (db : Database) : Type 0 where
  pub paintings : db.paintings.Table
  pub carts : db.carts.Table
  pub orders : db.orders.Table

-- A query follows the eager relation. (The foreign key keeps the painting there while the row is.)
module _ (db : Database) where
  unfoldable pub with_painting : Tables db → CartItem → Result CartLine
  with_painting s c = do
    p ←
        or_throw (db.paintings.find_one (at_key painting_key c.painting_id) s.paintings)
          (crashed "painting is null")
    ok (record { painting = p; quantity = c.quantity })

  unfoldable pub with_paintings : Tables db → List CartItem → Result (List CartLine)
  unfolding with_painting
  with_paintings s [] = ok []
  with_paintings s (c ∷ cs) = do
    line ← with_painting s c
    lines ← with_paintings s cs
    ok (line ∷ lines)
