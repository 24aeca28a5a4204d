-- ===== src/Examples/Shop.antt =====
-- A shop with two paintings, one guest's cart and one order that was placed before.
use gall_pr.Common.{ℕ, Result, ok, err, true, false, none, some, [], ◌∷◌, Decimal}
use gall_pr.Identity.{Identity, guest}
use gall_pr.NovaPoshta.{Api, Place, thrown, json, finite, DocumentPriceResult}
use gall_pr.Orders.Entities.{
  Painting, CartItem, OrderStatus, PaymentProvider, PaymentStatus, DeliveryMethod, Order, Database,
  Tables, painting_key, cart_key, order_key,
}
use gall_pr.Orders.Checkout.{CheckoutDto}
use gall_pr.Examples.Tables.{list_repository}

-- What a result holds, else the default.
abbrev pub or_value {ℓ} : {A : Type ℓ} → A → Result A → A
or_value d (ok a) = a
or_value d (err e) = d

abbrev pub shop : Database
shop = record {
  paintings = list_repository painting_key;
  carts = list_repository cart_key;
  orders = list_repository order_key;
}

abbrev pub whole : ℕ → Decimal
whole n = record { digits = n; scale = 0 }

abbrev pub lilies : Painting
lilies = record {
  id = 7;
  title = "Лілії";
  price = whole 1200;
  amount = 3;
  is_available = true;
  is_repeatable = true;
  weight = some (whole 2);
  likes_count = 1;
  series_id = none;
  technique_id = none;
  material_id = none;
  is_featured = false;
  interior_images = none;
}

abbrev pub harbour : Painting
harbour = record {
  id = 4;
  title = "Гавань";
  price = whole 800;
  amount = 1;
  is_available = true;
  is_repeatable = false;
  weight = none;
  likes_count = 0;
  series_id = none;
  technique_id = none;
  material_id = none;
  is_featured = false;
  interior_images = none;
}

abbrev pub customer : Identity
customer = guest "8f14e45f"

abbrev pub two_lilies : CartItem
two_lilies = record {
  id = 1;
  user_id = none;
  guest_token = some "8f14e45f";
  painting_id = 7;
  quantity = 2;
}

abbrev pub one_harbour : CartItem
one_harbour = record {
  id = 2;
  user_id = none;
  guest_token = some "8f14e45f";
  painting_id = 4;
  quantity = 1;
}

abbrev pub earlier : Order
earlier = record {
  id = 1;
  user_id = none;
  guest_token = some "8f14e45f";
  guest_name = some "Олена";
  guest_email = some "olena@example.com";
  guest_phone = some "+380501112233";
  guest_address = none;
  contact_handle = none;
  tracking_number = none;
  comment = none;
  delivery_method = DeliveryMethod.nova_poshta;
  call_me_requested = false;
  nova_poshta_city = some "Київ";
  nova_poshta_warehouse = some "Відділення №1";
  delivery_cost = whole 80;
  cod_fee = whole 0;
  status = OrderStatus.pending;
  payment_provider = PaymentProvider.card_transfer;
  payment_status = PaymentStatus.unpaid;
  payment_proof_url = none;
  is_commission = false;
  is_archived = false;
  total = whole 1280;
  items = record { painting_id = 7; quantity = 1; price = whole 1200 } ∷ [];
}

abbrev pub today : Tables shop
today = record {
  paintings = lilies ∷ harbour ∷ [];
  carts = two_lilies ∷ one_harbour ∷ [];
  orders = earlier ∷ [];
}

abbrev pub kyiv : Place
kyiv = record { ref = "kyiv"; name = "Київ" }

abbrev pub branch : Place
branch = record { ref = "branch-1"; name = "Відділення №1" }

abbrev pub quote : DocumentPriceResult
quote = record { cost = some (finite (whole 80)); cost_redelivery = none }

abbrev pub carrier : Api
carrier = record {
  get_cities_by_string = λ s. json true (some (kyiv ∷ []));
  get_cities_by_ref = λ r. json true (some (kyiv ∷ []));
  get_warehouses = λ r. json true (some (branch ∷ []));
  get_document_price = λ r. json true (some (quote ∷ []));
}

-- Nova Poshta finds the city and does not list its warehouses.
abbrev pub half_carrier : Api
half_carrier = record carrier { get_warehouses = λ r. thrown "timeout" }

abbrev pub no_carrier : Api
no_carrier = record carrier { get_cities_by_ref = λ r. thrown "timeout" }

abbrev pub request : CheckoutDto
request = record {
  guest_name = some "Олена";
  guest_email = some "olena@example.com";
  guest_phone = some "+380501112233";
  guest_address = none;
  comment = none;
  payment_provider = PaymentProvider.card_transfer;
  delivery_method = DeliveryMethod.nova_poshta;
  call_me_requested = none;
  nova_poshta_city_ref = some "kyiv";
  nova_poshta_warehouse_ref = some "branch-1";
}
