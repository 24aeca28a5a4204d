-- ===== src/Examples/Carts.antt =====
-- What the shop's customer puts in the cart.
use gall_pr.Common.{◌≡◌, refl, some, ok, arith}
use gall_pr.Common.Rows.{first, put}
use gall_pr.Identity.{identity_where}
use gall_pr.Orders.Entities.{CartItem, Tables}
use gall_pr.Cart.{check_for_sale, write_line, add_item, update_item}
use gall_pr.Cart.Laws.{Stored, add_item-Stored, update_item-Stored}
use gall_pr.Examples.Shop.{shop, today, customer, two_lilies, or_value}

-- Five more lilies are asked for, and there are three.
abbrev added : CartItem × Tables shop
added = or_value (two_lilies, today) (add_item shop customer 7 (some 5) today)

added_lem : add_item shop customer 7 (some 5) today ≡ ok added
unfolding add_item check_for_sale write_line identity_where first put
added_lem = refl

add_item-Stored_example : Stored shop customer 7 today added.0 added.1
add_item-Stored_example =
    add_item-Stored shop customer 7 (some 5) today added.1 added.0 (omega arith) added_lem

abbrev updated : CartItem × Tables shop
updated = or_value (two_lilies, today) (update_item shop customer 7 3 today)

updated_lem : update_item shop customer 7 3 today ≡ ok updated
unfolding update_item identity_where first put
updated_lem = refl

update_item-Stored_example : Stored shop customer 7 today updated.0 updated.1
update_item-Stored_example =
    update_item-Stored shop customer 7 3 today updated.1 updated.0 (omega arith) updated_lem
