-- ===== src/Paintings.antt =====
-- backend/src/paintings/paintings.service.ts: what the administrator does to the catalogue, and
-- the pages that it is read in. Only the columns of Orders.Entities are modelled.
pub mod Shelf
pub mod Sales
pub mod Reach
pub mod Restock
use gall_pr.Common.{
  ℕ, ◌+◌, ◌-◌, ◌*◌, ◌/◌, min, max, String, Bool, true, false, not, ◌&&◌, ◌||◌, Option, none, some,
  List, [], ◌∷◌, ltb, leb, length, ◌==◌, str_eq, if◌then◌else◌, is_some, or_else, non_empty,
  Decimal, to_cents, take, drop, bad_request, not_found, crashed, Result, ok, err, ◌>>=◌, ◌>>◌,
  throw_if, or_throw,
}
use gall_pr.Common.Rows.{at_key}
use gall_pr.Common.Repository.{Repository}
use gall_pr.Orders.Entities.{Painting, painting_key}

-- backend/src/paintings/dto/create-painting.dto.ts
abbrev pub interior_images_min : ℕ
interior_images_min = 2

abbrev pub interior_images_max : ℕ
interior_images_max = 6

pub record CreatePaintingDto : Type 0 where
  pub title : String
  pub price : Decimal
  pub amount : Option ℕ
  pub is_available : Option Bool
  pub is_repeatable : Option Bool
  pub weight : Option Decimal
  pub series_id : Option ℕ
  pub technique_id : Option ℕ
  pub material_id : Option ℕ
  pub is_featured : Option Bool
  pub interior_images : Option (List String)

-- backend/src/paintings/dto/update-painting.dto.ts: a field that is not sent is `none`, one that is
-- sent as null is `some none`.
pub record UpdatePaintingDto : Type 0 where
  pub title : Option (Option String)
  pub price : Option (Option Decimal)
  pub amount : Option (Option ℕ)
  pub is_available : Option (Option Bool)
  pub is_repeatable : Option (Option Bool)
  pub weight : Option (Option Decimal)
  pub series_id : Option (Option ℕ)
  pub technique_id : Option (Option ℕ)
  pub material_id : Option (Option ℕ)
  pub is_featured : Option (Option Bool)
  pub interior_images : Option (Option (List String))

-- The value that was sent, if one was; whether null was.
abbrev pub sent : {A : Type 0} → Option (Option A) → Option A
sent none = none
sent (some a) = a

abbrev pub is_null : {A : Type 0} → Option (Option A) → Bool
is_null none = false
is_null (some none) = true
is_null (some (some a)) = false

-- Null for a column that is not nullable, which the database refuses.
abbrev pub breaks_not_null : UpdatePaintingDto → Bool
breaks_not_null dto =
    is_null dto.title
    || is_null dto.price
    || is_null dto.amount
    || is_null dto.is_repeatable
    || is_null dto.is_featured

-- `assertInteriorImageCount`
unfoldable pub assert_interior_image_count : Option (List String) → Result (Unit {0})
assert_interior_image_count none = ok tt
assert_interior_image_count (some []) = ok tt
assert_interior_image_count (some (i ∷ is)) = do
  throw_if (ltb (length (i ∷ is)) interior_images_min)
      (bad_request "Фото в інтер'єрі: додайте щонайменше 2, або жодного")
  throw_if (ltb interior_images_max (length (i ∷ is))) (bad_request "Фото в інтер'єрі: не більше 6")

-- `reconcileAvailability`
unfoldable pub reconcile_availability : ℕ → Option Bool → Bool
reconcile_availability amount requested = if leb amount 0 then false else or_else requested true

-- `images.length ? images : null`
abbrev pub stored_images : List String → Option (List String)
stored_images [] = none
stored_images (i ∷ is) = some (i ∷ is)

abbrev pub sent_images : Option (List String) → Option (List String)
sent_images none = none
sent_images (some is) = stored_images is

abbrev pub has_title : String → Painting → Bool
has_title title p = str_eq p.title title

-- `create({ ...dto, ... })`; the weight and the repeatability fall back to the columns' defaults.
unfoldable pub new_painting : CreatePaintingDto → ℕ → Painting
unfolding reconcile_availability
new_painting dto id = record {
  id = id;
  title = dto.title;
  price = dto.price;
  amount = or_else dto.amount 1;
  is_available = reconcile_availability (or_else dto.amount 1) dto.is_available;
  is_repeatable = or_else dto.is_repeatable false;
  weight = dto.weight;
  likes_count = 0;
  series_id = dto.series_id;
  technique_id = dto.technique_id;
  material_id = dto.material_id;
  is_featured = or_else dto.is_featured false;
  interior_images = sent_images dto.interior_images;
}

-- What the field is after it was not sent, or sent.
abbrev images_after : Option (List String) → Option (List String) → Option (List String)
images_after none before = before
images_after (some is) before = stored_images is

-- `Object.assign(painting, dto)`, the interior images, and the reconciled availability, where no
-- null was sent for a column that is not nullable.
unfoldable pub assigned : UpdatePaintingDto → Painting → Painting
unfolding reconcile_availability
assigned dto p = record p {
  title = or_else (sent dto.title) p.title;
  price = or_else (sent dto.price) p.price;
  amount = or_else (sent dto.amount) p.amount;
  is_available =
      reconcile_availability (or_else (sent dto.amount) p.amount)
        (or_else dto.is_available (some p.is_available));
  is_repeatable = or_else (sent dto.is_repeatable) p.is_repeatable;
  weight = or_else dto.weight p.weight;
  series_id = or_else dto.series_id p.series_id;
  technique_id = or_else dto.technique_id p.technique_id;
  material_id = or_else dto.material_id p.material_id;
  is_featured = or_else (sent dto.is_featured) p.is_featured;
  interior_images = images_after (sent dto.interior_images) p.interior_images;
}

-- Whether the title of an update has to be looked up.
abbrev pub is_new_title : Option String → Painting → Bool
is_new_title none p = false
is_new_title (some title) p = is_some (non_empty title) && not (str_eq title p.title)

-- `Math.ceil(total / limit)`
abbrev pub pages : ℕ → ℕ → ℕ
pages total limit = (total + (limit - 1)) / limit

-- The filters of the catalogue.
pub record Filters : Type 0 where
  pub is_available : Option Bool
  pub min_price : Option ℕ
  pub max_price : Option ℕ
  pub series_id : Option ℕ
  pub technique_id : Option ℕ
  pub material_id : Option ℕ

abbrev same_flag : Bool → Bool → Bool
same_flag a b = if a then b else not b

abbrev available : Option Bool → Bool → Bool
available none b = true
available (some a) b = same_flag b a

abbrev at_least : Option ℕ → ℕ → Bool
at_least none cents = true
at_least (some n) cents = leb n cents

abbrev at_most : Option ℕ → ℕ → Bool
at_most none cents = true
at_most (some n) cents = leb cents n

-- An id that is missing or 0 is no filter.
abbrev of_id : Option ℕ → Option ℕ → Bool
of_id none s = true
of_id (some n) none = n == 0
of_id (some n) (some s) = n == 0 || s == n

-- `where` of `findAll`; prices are compared in cents.
unfoldable pub meets : Filters → Painting → Bool
meets f p =
    of_id f.technique_id p.technique_id
    && of_id f.material_id p.material_id
    && of_id f.series_id p.series_id
    && available f.is_available p.is_available
    && at_least f.min_price (to_cents p.price)
    && at_most f.max_price (to_cents p.price)

-- What the catalogue answers.
pub record Page : Type 0 where
  pub items : List Painting
  pub total : ℕ
  pub page : ℕ
  pub limit : ℕ
  pub total_pages : ℕ

-- `MIN(price)` and `MAX(price)` in cents, and 0 where there is no painting.
abbrev lowest : List Painting → ℕ
lowest [] = 0
lowest (p ∷ []) = to_cents p.price
lowest (p ∷ q ∷ ps) = min (to_cents p.price) (lowest (q ∷ ps))

abbrev highest : List Painting → ℕ
highest [] = 0
highest (p ∷ ps) = max (to_cents p.price) (highest ps)

module _ (repo : Repository painting_key) where
  unfoldable pub create : CreatePaintingDto → repo.Table → Result (Painting × repo.Table)
  unfolding new_painting assert_interior_image_count
  create dto t = do
    throw_if (is_some (repo.find_one (has_title dto.title) t))
        (bad_request "Картина з такою назвою вже існує")
    assert_interior_image_count dto.interior_images
    or_throw (repo.insert (new_painting dto) t) (crashed "the painting could not be inserted")

  unfoldable pub find_one : ℕ → repo.Table → Result Painting
  find_one id t =
      or_throw (repo.find_one (at_key painting_key id) t) (not_found "Картину не знайдено")

  unfoldable pub update : ℕ → UpdatePaintingDto → repo.Table → Result (Painting × repo.Table)
  unfolding assigned assert_interior_image_count
  update id dto t = do
    painting ← or_throw (repo.find_one (at_key painting_key id) t) (not_found "Картину не знайдено")
    throw_if
        (is_new_title (sent dto.title) painting
          && is_some (repo.find_one (has_title (or_else (sent dto.title) painting.title)) t))
        (bad_request "Картина з такою назвою вже існує")
    assert_interior_image_count (sent dto.interior_images)
    throw_if (is_null dto.interior_images) (crashed "dto.interiorImages is null")
    throw_if (breaks_not_null dto) (crashed "the painting could not be saved")
    ok (assigned dto painting, repo.save (assigned dto painting) t)

  -- `findAll`, with pages from 1; the ORDER BY is the parameter `sorted`.
  unfoldable pub find_all : (List Painting → List Painting) → ℕ → ℕ → Filters → repo.Table → Page
  unfolding meets
  find_all sorted page limit f t = record {
    items = take limit (drop ((page - 1) * limit) (sorted (repo.find (meets f) t)));
    total = repo.count_where (meets f) t;
    page = page;
    limit = limit;
    total_pages = pages (repo.count_where (meets f) t) limit;
  }

  unfoldable pub get_price_range : repo.Table → ℕ × ℕ
  get_price_range t = (lowest (repo.find (λ p. true) t), highest (repo.find (λ p. true) t))

  -- `remove`, where the database says whether an order refers to the painting.
  unfoldable pub remove : (Painting → Bool) → ℕ → repo.Table → Result repo.Table
  remove is_ordered id t = do
    painting ← or_throw (repo.find_one (at_key painting_key id) t) (not_found "Картину не знайдено")
    throw_if (is_ordered painting)
        (bad_request "Неможливо видалити картину: вона є в замовленнях клієнтів")
    ok (repo.delete (at_key painting_key painting.id) t)
