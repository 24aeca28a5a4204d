-- ===== src/Examples/Sales.antt =====
-- Checkouts in the shop.
use gall_pr.Common.{
  ℕ, ◌≡◌, refl, List, [], ◌∷◌, ok, err, bad_request, to_cents, plus, times, trim, non_empty,
  trimmed, is_filled,
}
use gall_pr.Common.Rows.{first, keep, discard, change, count, put, by_key}
use gall_pr.Identity.{identity_where}
use gall_pr.NovaPoshta.{
  delivery_unavailable, call, call_quietly, get_city_by_ref, get_warehouses, get_warehouse_by_ref,
  read_quote, calculate_delivery_price, sum_cart_weight_from, sum_cart_weight, sum_cart_cost_from,
  calculate_delivery_price_for_cart_items, call_nova_poshta,
}
use gall_pr.Orders.Stock.Laws.{IsSortedFrom, stock_order_lem}
use gall_pr.Orders.Stock.Moves.{Reserved, reserve-Reserved}
use mathlib.Core.List.{Perm}
use gall_pr.Orders.Stock.{insert_in_order, stock_order, take_off, check_available, reserve}
use gall_pr.Orders.Entities.{
  CartItem, OrderItem, Order, Tables, cart_painting, with_painting, with_paintings,
}
use gall_pr.Orders.Checkout.{
  checkout, place_order, new_order, check_contact, delivery_address, delivery_price,
  confirmed_address, Notice,
}
use gall_pr.Orders.Checkout.Guards.{
  CheckedOut, IsReachable, checkout-CheckedOut, check_contact-IsReachable, checkout_no_city,
  checkout_no_warehouses,
}
use gall_pr.Examples.Shop.{
  shop, today, carrier, half_carrier, no_carrier, kyiv, two_lilies, one_harbour, customer, request,
  earlier, or_value,
}

abbrev bought : Order × Tables shop × List Notice
bought = or_value (earlier, today, []) (checkout shop carrier "sender" customer request today)

bought_lem :
    checkout shop carrier "sender" customer request today ≡ ok (bought.0, bought.1, bought.2)
unfolding checkout place_order new_order check_contact delivery_address delivery_price
    confirmed_address with_painting with_paintings insert_in_order stock_order take_off
    check_available reserve call call_quietly get_city_by_ref get_warehouses get_warehouse_by_ref
    read_quote calculate_delivery_price sum_cart_weight_from sum_cart_weight sum_cart_cost_from
    calculate_delivery_price_for_cart_items call_nova_poshta identity_where first keep discard
    change count put by_key to_cents plus times trim non_empty trimmed is_filled
bought_lem = refl

checkout-CheckedOut_example :
    CheckedOut shop carrier "sender" customer request today bought.0 bought.1 bought.2
checkout-CheckedOut_example =
    checkout-CheckedOut shop carrier "sender" customer request today bought.1 bought.0 bought.2
      bought_lem

is_contact_given : check_contact customer request ≡ ok tt
unfolding check_contact trim non_empty trimmed is_filled
is_contact_given = refl

check_contact-IsReachable_example : IsReachable customer request
check_contact-IsReachable_example = check_contact-IsReachable customer request is_contact_given

checkout_no_city_example :
    checkout shop no_carrier "sender" customer request today ≡ err delivery_unavailable
checkout_no_city_example =
    checkout_no_city shop no_carrier "sender" customer request today "timeout" is_contact_given refl

checkout_no_warehouses_example :
    checkout shop half_carrier "sender" customer request today
    ≡ err (
        bad_request
          "Не вдалося підтвердити відділення Нової пошти — оберіть місто й відділення ще раз")
checkout_no_warehouses_example =
    checkout_no_warehouses shop half_carrier "sender" customer request today "timeout"
      is_contact_given kyiv [] refl refl

abbrev cart : List CartItem
cart = two_lilies ∷ one_harbour ∷ []

abbrev taken : List OrderItem × ℕ × shop.paintings.Table
taken = or_value ([], 0, today.paintings) (reserve shop.paintings cart [] 0 today.paintings)

taken_lem : reserve shop.paintings cart [] 0 today.paintings ≡ ok (taken.0, taken.1, taken.2)
unfolding reserve take_off check_available first put by_key to_cents
taken_lem = refl

reserve-Reserved_example : Reserved shop.paintings cart [] 0 today.paintings taken.0 taken.1 taken.2
reserve-Reserved_example =
    reserve-Reserved shop.paintings cart [] taken.0 0 taken.1 today.paintings taken.2 taken_lem

stock_order_lem_example :
    IsSortedFrom cart_painting 0 (stock_order cart_painting cart)
    × Perm (stock_order cart_painting cart) cart
stock_order_lem_example = stock_order_lem cart_painting cart
