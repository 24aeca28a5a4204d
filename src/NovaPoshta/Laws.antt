-- ===== src/NovaPoshta/Laws.antt =====
-- What the delivery quotes guarantee: a price comes from a row that Nova Poshta quoted.
use gall_pr.Common.{
  ◌≡◌, refl, ap, ◌∙◌, map, plus, times, if◌then◌else◌, String, Bool, true, false, Option, none,
  some, List, [], ◌∷◌, Failure, upstream, unavailable, Result, ok, err, >>=-eq-ok, Decimal, arith,
  or_else, or_throw, or_throw-eq-ok, sym, subst, non_empty, eq_iff,
}
use gall_pr.Common.Rows.{first, first_meets}
use gall_pr.Orders.Entities.{CartLine}
use gall_pr.NovaPoshta.{
  Reply, thrown, json, Place, PriceRequest, finite, DocumentPriceResult, Api, DeliveryPrice, call,
  head?, two_decimals, price_request, cart_request, sum_cart_weight, sum_cart_cost_from,
  sum_cart_weight_from, zero_amount, get_warehouses, get_warehouse_by_ref, has_ref, read_quote,
  calculate_delivery_price, calculate_delivery_price_for_cart_items, call_nova_poshta,
}

-- Nova Poshta has answered the request with a row that quotes this price.
pub record IsQuoted (api : Api) (request : PriceRequest) (price : DeliveryPrice) : Type 0 where
  pub row : DocumentPriceResult
  pub rest : List DocumentPriceResult
  pub answered : api.get_document_price request ≡ json true (some (row ∷ rest))
  pub quoted : row.cost ≡ some (finite price.shipping_cost)
  pub redelivered : or_else row.cost_redelivery (finite zero_amount) ≡ finite price.redelivery_cost

read_quote_lem :
    (o : Option DocumentPriceResult) (price : DeliveryPrice)
    → read_quote o ≡ ok price
    → (row : DocumentPriceResult) × (o ≡ some row)
      × (row.cost ≡ some (finite price.shipping_cost))
      × (or_else row.cost_redelivery (finite zero_amount) ≡ finite price.redelivery_cost)
unfolding read_quote
read_quote_lem none price h = cc
read_quote_lem (some row) price h = (row, refl, ground arith, ground arith)

call_lem :
    (reply : Reply DocumentPriceResult) (rows : List DocumentPriceResult)
    (row : DocumentPriceResult)
    → call reply ≡ ok rows
    → head? rows ≡ some row
    → (rest : List DocumentPriceResult) × (reply ≡ json true (some (row ∷ rest)))
unfolding call
call_lem (thrown m) rows row h k = cc
call_lem (json false found) rows row h k = cc
call_lem (json true none) [] row h k = cc
call_lem (json true none) (r ∷ rs) row h k = cc
call_lem (json true (some [])) [] row h k = cc
call_lem (json true (some [])) (r ∷ rs) row h k = cc
call_lem (json true (some (x ∷ xs))) rows row h k = (xs, ground arith)

pub calculate_delivery_price-IsQuoted :
    (api : Api) (sender recipient : String) (weight cost : Decimal) (redelivery : Bool)
    (price : DeliveryPrice)
    → calculate_delivery_price api sender recipient weight cost redelivery ≡ ok price
    → IsQuoted api (price_request sender recipient weight cost redelivery) price
unfolding calculate_delivery_price
calculate_delivery_price-IsQuoted api sender recipient weight cost redelivery price h =
    let (rows, called, read) = >>=-eq-ok _ _ h in
    let (row, first_row, quoted, redelivered) = read_quote_lem _ price read in
    let (rest, answered) = call_lem _ rows row called first_row in
    record {
      row = row;
      rest = rest;
      answered = answered;
      quoted = quoted;
      redelivered = redelivered;
    }

non_empty-some : (s r : String) → non_empty s ≡ some r → s ≡ r
unfolding non_empty
non_empty-some String.[] r h = cc
non_empty-some (String.◌∷◌ c s) r h = cc

-- The sum of amounts, from the first on.
unfoldable pub added : Decimal → List Decimal → Decimal
added sum [] = sum
added sum (x ∷ xs) = added (plus sum x) xs

-- What the lines of a cart weigh, half a kilogram for a painting whose weight is not known, and
-- what they cost: each as often as it is in the cart.
abbrev pub weights : List CartLine → List Decimal
weights items =
    map
      (λ (i : CartLine).
        times (or_else i.painting.weight (record { digits = 5; scale = 1 })) i.quantity)
      items

abbrev pub costs : List CartLine → List Decimal
costs items = map (λ (i : CartLine). times i.painting.price i.quantity) items

abbrev nought : Decimal
nought = record { digits = 0; scale = 0 }

-- The question about a cart that is to be sent between two cities.
abbrev pub question : String → String → List CartLine → Bool → PriceRequest
question sender recipient items redelivery = record {
  city_sender = sender;
  city_recipient = recipient;
  weight = two_decimals (added nought (weights items));
  cost = two_decimals (added nought (costs items));
  redelivery_amount = if redelivery then some (two_decimals (added nought (costs items))) else none;
}

sum_cart_weight_from-added :
    (sum : Decimal) (items : List CartLine)
    → sum_cart_weight_from sum items ≡ added sum (weights items)
unfolding sum_cart_weight_from added
sum_cart_weight_from-added sum [] = refl
sum_cart_weight_from-added sum (i ∷ is) =
    sum_cart_weight_from-added
      (plus sum (times (or_else i.painting.weight (record { digits = 5; scale = 1 })) i.quantity))
      is

sum_cart_cost_from-added :
    (sum : Decimal) (items : List CartLine) → sum_cart_cost_from sum items ≡ added sum (costs items)
unfolding sum_cart_cost_from added
sum_cart_cost_from-added sum [] = refl
sum_cart_cost_from-added sum (i ∷ is) =
    sum_cart_cost_from-added (plus sum (times i.painting.price i.quantity)) is

cart_request-question :
    (sender recipient : String) (items : List CartLine) (redelivery : Bool)
    → cart_request sender recipient items redelivery ≡ question sender recipient items redelivery
unfolding sum_cart_weight
cart_request-question sender recipient items redelivery =
    ap (λ w. price_request sender recipient w (sum_cart_cost_from zero_amount items) redelivery)
      (sum_cart_weight_from-added zero_amount items)
    ∙ ap (λ cost. price_request sender recipient (added nought (weights items)) cost redelivery)
        (sum_cart_cost_from-added zero_amount items)

calculate_delivery_price_for_cart_items_lem :
    (api : Api) (sender : String) (items : List CartLine) (recipient : String) (redelivery : Bool)
    (price : DeliveryPrice)
    → calculate_delivery_price_for_cart_items api sender items recipient redelivery
      ≡ ok (some price)
    → IsQuoted api (cart_request sender recipient items redelivery) price
unfolding calculate_delivery_price_for_cart_items
calculate_delivery_price_for_cart_items_lem api sender [] recipient redelivery price h = cc
calculate_delivery_price_for_cart_items_lem api sender (i ∷ is) recipient redelivery price h =
    let (ref, configured, later) = >>=-eq-ok (or_throw (non_empty sender) _) _ h in
    let (found, calculated, last) =
      >>=-eq-ok
        (calculate_delivery_price api ref recipient (sum_cart_weight (i ∷ is))
          (sum_cart_cost_from zero_amount (i ∷ is)) redelivery)
        _ later in
    let e : found ≡ price = cc in
    let same = sym (non_empty-some sender ref (or_throw-eq-ok _ _ configured)) in
    subst (λ x. IsQuoted api (cart_request x recipient (i ∷ is) redelivery) price) same
      (calculate_delivery_price-IsQuoted api ref recipient _ _ redelivery price
        (rw e at calculated))

-- A delivery price for a cart is the one that Nova Poshta quotes, in the first row of its answer,
-- for the cart's weight and cost, rounded to hundredths: the sums over its lines of the weight,
-- half a kilogram where it is not known, and of the price, each times the quantity, and the same
-- cost to be collected, when that is asked for.
pub calculate_delivery_price_for_cart_items-IsQuoted :
    (api : Api) (sender : String) (items : List CartLine) (recipient : String) (redelivery : Bool)
    (price : DeliveryPrice)
    → calculate_delivery_price_for_cart_items api sender items recipient redelivery
      ≡ ok (some price)
    → IsQuoted api (question sender recipient items redelivery) price
calculate_delivery_price_for_cart_items-IsQuoted api sender items recipient redelivery price h =
    subst (λ x. IsQuoted api x price) (cart_request-question sender recipient items redelivery)
      (calculate_delivery_price_for_cart_items_lem api sender items recipient redelivery price h)

pub call_nova_poshta-eq-ok :
    {A : Type 0} (r : Result A) {a : A} → call_nova_poshta r ≡ ok a → r ≡ ok a
unfolding call_nova_poshta
call_nova_poshta-eq-ok (ok a) h = h
call_nova_poshta-eq-ok (err e) h = absurd (go e h)
  where
    go : {A : Type 0} (e : Failure) {a : A} → call_nova_poshta {A = A} (err e) ≡ ok a → ⊥
    go (upstream m) h = cc
    go (unavailable m) h = cc
    go _ h = cc

-- A warehouse that is found carries the ref that was asked for.
pub get_warehouse_by_ref_lem :
    (api : Api) (city_ref warehouse_ref : String) (place : Place)
    → get_warehouse_by_ref api city_ref warehouse_ref ≡ some place
    → place.ref ≡ warehouse_ref
unfolding get_warehouse_by_ref
get_warehouse_by_ref_lem api city_ref warehouse_ref place h =
    (eq_iff _ _).0 (first_meets (has_ref warehouse_ref) (get_warehouses api city_ref) h)

-- When the list of warehouses cannot be had, no warehouse is found: the failure is not passed on.
pub get_warehouse_by_ref_unreachable :
    (api : Api) (city_ref warehouse_ref message : String)
    → api.get_warehouses city_ref ≡ thrown message
    → get_warehouse_by_ref api city_ref warehouse_ref ≡ none
unfolding get_warehouse_by_ref call first
get_warehouse_by_ref_unreachable api city_ref warehouse_ref message h = rw h
