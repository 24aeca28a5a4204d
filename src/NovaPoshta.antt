-- ===== src/NovaPoshta.antt =====
-- backend/src/nova-poshta/nova-poshta.service.ts. The HTTP exchange (`fetchJson` of
-- backend/src/common/http.util.ts, and Nova Poshta behind it) is the parameter `Api`: for each
-- request either the upstream error that `fetchJson` throws or the JSON that came back.
pub mod Laws
use gall_pr.Common.{
  ℕ, String, Bool, true, false, Option, none, some, List, [], ◌∷◌, map, Failure, upstream,
  unavailable, Result, ok, err, ◌>>=◌, Decimal, to_cents, of_cents, plus, times, or_else,
  if◌then◌else◌, str_eq, non_empty, take, or_throw,
}
use gall_pr.Common.Rows.{first}
use gall_pr.Orders.Entities.{CartLine}

pub data Reply (A : Type 0) : Type 0 where
  thrown : String → Reply A
  json : Bool → Option (List A) → Reply A

-- `{ Ref, Description }`
pub record Place : Type 0 where
  pub ref : String
  pub name : String

-- What `Number(…)` makes of a field: a finite amount, or not.
pub data Figure : Type 0 where
  finite : Decimal → Figure
  not_finite : Figure

-- A field that is missing or null is `none`.
pub record DocumentPriceResult : Type 0 where
  pub cost : Option Figure
  pub cost_redelivery : Option Figure

-- `methodProperties` of `getDocumentPrice`; weight and cost are sent with two decimals.
pub record PriceRequest : Type 0 where
  pub city_sender : String
  pub city_recipient : String
  pub weight : Decimal
  pub cost : Decimal
  pub redelivery_amount : Option Decimal

pub record Api : Type 0 where
  pub get_cities_by_string : String → Reply Place
  pub get_cities_by_ref : String → Reply Place
  pub get_warehouses : String → Reply Place
  pub get_document_price : PriceRequest → Reply DocumentPriceResult

pub record DeliveryPrice : Type 0 where
  pub shipping_cost : Decimal
  pub redelivery_cost : Decimal

module _ {A : Type 0} where
  unfoldable pub call : Reply A → Result (List A)
  call (thrown message) = err (upstream message)
  call (json false found) = err (upstream "the call failed")
  call (json true found) = ok (or_else found [])

  unfoldable pub call_quietly : Reply A → List A
  unfolding call
  call_quietly reply = elim (call reply) [ ok found ↦ found | err e ↦ [] ]

  abbrev pub head? : List A → Option A
  head? [] = none
  head? (x ∷ xs) = some x

unfoldable pub search_cities : Api → String → List Place
unfolding call_quietly
search_cities api query = take 20 (call_quietly (api.get_cities_by_string query))

unfoldable pub get_city_by_ref : Api → String → Result (Option Place)
unfolding call
get_city_by_ref api city_ref = do cities ← call (api.get_cities_by_ref city_ref); ok (head? cities)

unfoldable pub get_warehouses : Api → String → List Place
unfolding call_quietly
get_warehouses api city_ref = call_quietly (api.get_warehouses city_ref)

abbrev pub has_ref : String → Place → Bool
has_ref ref place = str_eq place.ref ref

unfoldable pub get_warehouse_by_ref : Api → String → String → Option Place
unfolding get_warehouses
get_warehouse_by_ref api city_ref warehouse_ref =
    first (has_ref warehouse_ref) (get_warehouses api city_ref)

-- `toFixed(2)`, and `Math.round(x * 100) / 100`
abbrev pub two_decimals : Decimal → Decimal
two_decimals d = of_cents (to_cents d)

-- What the checks on the quoted row let through.
unfoldable pub read_quote : Option DocumentPriceResult → Result DeliveryPrice
read_quote none = err (upstream "getDocumentPrice returned no quote for this shipment")
read_quote (some row) = elim row.cost [
  | none ↦ err (upstream "getDocumentPrice returned no quote for this shipment")
  | some cost ↦ elim cost [
    | not_finite ↦ err (upstream "getDocumentPrice quoted a non-number")
    | finite shipping ↦
        elim (or_else row.cost_redelivery (finite (record { digits = 0; scale = 0 }))) [
          | not_finite ↦ err (upstream "getDocumentPrice quoted a non-number")
          | finite redelivery ↦
              ok (record { shipping_cost = shipping; redelivery_cost = redelivery })
        ]
  ]
]

-- `methodProperties` of `calculateDeliveryPrice`.
abbrev pub price_request : String → String → Decimal → Decimal → Bool → PriceRequest
price_request sender recipient weight cost with_redelivery = record {
  city_sender = sender;
  city_recipient = recipient;
  weight = two_decimals weight;
  cost = two_decimals cost;
  redelivery_amount = if with_redelivery then some (two_decimals cost) else none;
}

unfoldable pub calculate_delivery_price :
    Api → String → String → Decimal → Decimal → Bool → Result DeliveryPrice
unfolding call
calculate_delivery_price api sender recipient weight cost with_redelivery = do
  rows ← call (api.get_document_price (price_request sender recipient weight cost with_redelivery))
  read_quote (head? rows)

abbrev pub zero_amount : Decimal
zero_amount = record { digits = 0; scale = 0 }

-- `DEFAULT_PAINTING_WEIGHT_KG`
abbrev pub default_painting_weight_kg : Decimal
default_painting_weight_kg = record { digits = 5; scale = 1 }

unfoldable pub sum_cart_weight_from : Decimal → List CartLine → Decimal
sum_cart_weight_from sum [] = sum
sum_cart_weight_from sum (item ∷ items) =
    sum_cart_weight_from
      (plus sum (times (or_else item.painting.weight default_painting_weight_kg) item.quantity))
      items

unfoldable pub sum_cart_weight : List CartLine → Decimal
unfolding sum_cart_weight_from
sum_cart_weight items = sum_cart_weight_from zero_amount items

unfoldable pub sum_cart_cost_from : Decimal → List CartLine → Decimal
sum_cart_cost_from sum [] = sum
sum_cart_cost_from sum (item ∷ items) =
    sum_cart_cost_from (plus sum (times item.painting.price item.quantity)) items

-- What `calculateDeliveryPriceForCartItems` asks a price for.
abbrev pub cart_request : String → String → List CartLine → Bool → PriceRequest
cart_request sender recipient items with_redelivery =
    price_request sender recipient (sum_cart_weight items) (sum_cart_cost_from zero_amount items)
      with_redelivery

-- `senderCityRef` is the field of the settings row.
unfoldable pub calculate_delivery_price_for_cart_items :
    Api → String → List CartLine → String → Bool → Result (Option DeliveryPrice)
calculate_delivery_price_for_cart_items api sender [] recipient with_redelivery = ok none
calculate_delivery_price_for_cart_items api sender (item ∷ items) recipient with_redelivery = do
  ref ← or_throw (non_empty sender) (upstream "sender city is not configured in app settings")
  price ←
      calculate_delivery_price api ref recipient (sum_cart_weight (item ∷ items))
        (sum_cart_cost_from zero_amount (item ∷ items)) with_redelivery
  ok (some price)

-- `NovaPoshtaService.unavailable()`
abbrev pub delivery_unavailable : Failure
delivery_unavailable =
    unavailable
      "Не вдалося розрахувати вартість доставки — Нова пошта зараз недоступна. Спробуйте за кілька хвилин."

-- `callNovaPoshta` of the order book, and the `catch` of `calculateDeliveryPriceForIdentity`.
unfoldable pub call_nova_poshta {ℓ} : {A : Type ℓ} → Result A → Result A
call_nova_poshta (ok a) = ok a
call_nova_poshta (err (upstream message)) = err delivery_unavailable
call_nova_poshta (err e) = err e
