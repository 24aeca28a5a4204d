-- ===== src/Examples/Delivery.antt =====
-- Quotes and warehouses for the shop.
use gall_pr.Common.{◌≡◌, refl, false, some, [], ◌∷◌, ok, to_cents, plus, times, non_empty, List}
use gall_pr.Common.Rows.{first}
use gall_pr.NovaPoshta.{
  DeliveryPrice, call, call_quietly, get_warehouses, get_warehouse_by_ref, read_quote,
  calculate_delivery_price, sum_cart_weight_from, sum_cart_weight, sum_cart_cost_from,
  calculate_delivery_price_for_cart_items,
}
use gall_pr.NovaPoshta.Laws.{
  IsQuoted, question, calculate_delivery_price_for_cart_items-IsQuoted, get_warehouse_by_ref_lem,
}
use gall_pr.Orders.Entities.{CartLine}
use gall_pr.Examples.Shop.{carrier, lilies, branch, whole}

abbrev lines : List CartLine
lines = record { painting = lilies; quantity = 2 } ∷ []

abbrev price : DeliveryPrice
price = record { shipping_cost = whole 80; redelivery_cost = whole 0 }

price_lem :
    calculate_delivery_price_for_cart_items carrier "sender" lines "kyiv" false ≡ ok (some price)
unfolding calculate_delivery_price_for_cart_items calculate_delivery_price read_quote call
    sum_cart_weight sum_cart_weight_from sum_cart_cost_from to_cents plus times non_empty
price_lem = refl

calculate_delivery_price_for_cart_items-IsQuoted_example :
    IsQuoted carrier (question "sender" "kyiv" lines false) price
calculate_delivery_price_for_cart_items-IsQuoted_example =
    calculate_delivery_price_for_cart_items-IsQuoted carrier "sender" lines "kyiv" false price
      price_lem

branch_lem : get_warehouse_by_ref carrier "kyiv" "branch-1" ≡ some branch
unfolding get_warehouse_by_ref get_warehouses call call_quietly first
branch_lem = refl

get_warehouse_by_ref_lem_example : branch.ref ≡ "branch-1"
get_warehouse_by_ref_lem_example =
    get_warehouse_by_ref_lem carrier "kyiv" "branch-1" branch branch_lem
