-- ===== src/Reviews.antt =====
-- backend/src/reviews/reviews.service.ts: what customers write about an order that reached them.
pub mod Write
use gall_pr.Common.{
  ℕ, zero, suc, String, Bool, true, false, not, ◌&&◌, Option, none, some, List, [], ◌∷◌, map, take,
  ◌==◌, str_eq, if◌then◌else◌, is_some, or_else, trim, trimmed, non_empty, Failure, bad_request,
  not_found, conflict, crashed, Result, ok, err, ◌>>=◌, ◌>>◌, throw_if, or_throw,
}
use Prim.Native.String
use gall_pr.Common.Rows.{at_key}
use gall_pr.Common.Repository.{Repository}
use gall_pr.Identity.{Identity}
use gall_pr.Auth.Entities.{User, user_key}
use gall_pr.Orders.Entities.{Painting, Order, OrderItem, OrderStatus, painting_key, order_key}
use gall_pr.Orders.Status.{own_order, is_status}

-- backend/src/reviews/entities/review.entity.ts
pub record Review : Type 0 where
  pub id : ℕ
  pub order_id : ℕ
  pub user_id : Option ℕ
  pub author_name : String
  pub rating : ℕ
  pub text : String
  pub is_published : Bool

abbrev pub review_key : Review → ℕ
review_key r = r.id

abbrev pub about_order : ℕ → Review → Bool
about_order order r = r.order_id == order

pub record ReviewsDatabase : Type 1 where
  pub reviews : Repository review_key
  pub orders : Repository order_key
  pub users : Repository user_key
  pub paintings : Repository painting_key

pub record ReviewsTables (db : ReviewsDatabase) : Type 0 where
  pub reviews : db.reviews.Table
  pub orders : db.orders.Table
  pub users : db.users.Table
  pub paintings : db.paintings.Table

-- What the source takes from JavaScript strings: the words of a trimmed text, its first character
-- in upper case, and its first hundred code units.
pub record Strings : Type 0 where
  pub words : String → List String
  pub initial : String → String
  pub cut : String → String

abbrev pub public_limit : ℕ
public_limit = 24

-- backend/src/reviews/dto
pub record CreateReviewDto : Type 0 where
  pub order_id : ℕ
  pub rating : ℕ
  pub text : String

pub record UpdateReviewDto : Type 0 where
  pub rating : Option ℕ
  pub text : Option String
  pub is_published : Option Bool

-- `a || b` on optional strings that are not empty.
abbrev pub or_next : Option String → Option String → Option String
or_next none b = b
or_next (some a) b = some a

abbrev pub word_at : ℕ → List String → Option String
word_at n [] = none
word_at zero (w ∷ ws) = non_empty w
word_at (suc n) (w ∷ ws) = word_at n ws

abbrev pub name_word : Strings → ℕ → Option String → Option String
name_word lib n none = none
name_word lib n (some name) = word_at n (lib.words (trim name))

abbrev pub with_initial : Strings → String → Option String → String
with_initial lib first none = first
with_initial lib first (some last) =
    String.◌++◌ first (String.◌++◌ " " (String.◌++◌ (lib.initial last) "."))

abbrev pub signed : Strings → Option String → Option String → String
signed lib none last = "Покупець"
signed lib (some first) last = with_initial lib first last

abbrev pub first_name_of : Option User → Option String
first_name_of none = none
first_name_of (some u) = trimmed u.first_name

abbrev pub last_name_of : Option User → Option String
last_name_of none = none
last_name_of (some u) = trimmed u.last_name

-- `authorFrom`, on the account of the order and its guest's name.
unfoldable pub author_from : Strings → Option User → Option String → String
author_from lib account guest_name = lib.cut (
    signed lib (or_next (first_name_of account) (name_word lib 0 guest_name))
      (or_next (last_name_of account) (name_word lib 1 guest_name)))

abbrev pub already_reviewed : Failure
already_reviewed = conflict "Відгук до цього замовлення вже є"

-- What the homepage shows of a review: the review, and the painting beside it.
pub record Shown : Type 0 where
  pub review : Review
  pub painting : Option Painting

abbrev pub edited : UpdateReviewDto → Review → Review
edited dto r = record r {
  rating = or_else dto.rating r.rating;
  text = text_of dto.text r.text;
  is_published = or_else dto.is_published r.is_published;
}
  where
    text_of : Option String → String → String
    text_of none before = before
    text_of (some t) before = trim t

abbrev first_item : List OrderItem → Option OrderItem
first_item [] = none
first_item (i ∷ is) = some i

abbrev pub new_review : Strings → CreateReviewDto → Order → Option User → ℕ → Review
new_review lib dto order account id = record {
  id = id;
  order_id = order.id;
  user_id = order.user_id;
  author_name = author_from lib account order.guest_name;
  rating = dto.rating;
  text = trim dto.text;
  is_published = false;
}

module _ (db : ReviewsDatabase) where
  -- The account of an order, as its relation loads it.
  abbrev pub account_of : Order → ReviewsTables db → Option User
  account_of order s = elim order.user_id [
    | none ↦ none
    | some id ↦ db.users.find_one (at_key user_key id) s.users
  ]

  -- `paintingOf`: the painting of the order's first line.
  unfoldable pub painting_of : Option Order → ReviewsTables db → Option Painting
  painting_of none s = none
  painting_of (some order) s = elim (first_item order.items) [
    | none ↦ none
    | some item ↦ db.paintings.find_one (at_key painting_key item.painting_id) s.paintings
  ]

  unfoldable pub shown : ReviewsTables db → Review → Shown
  unfolding painting_of
  shown s r = record {
    review = r;
    painting = painting_of (db.orders.find_one (at_key order_key r.order_id) s.orders) s;
  }

  -- `findPublished`; the ORDER BY is the parameter `newest_first`.
  unfoldable pub find_published : (List Review → List Review) → ReviewsTables db → List Shown
  unfolding shown
  find_published newest_first s = map (shown s) (
      take public_limit (newest_first (db.reviews.find (λ (r : Review). r.is_published) s.reviews)))

  unfoldable pub find_all_admin : (List Review → List Review) → ReviewsTables db → List Shown
  unfolding shown
  find_all_admin newest_first s =
      map (shown s) (newest_first (db.reviews.find (λ r. true) s.reviews))

  -- The insertion of `create`: where the database refuses the row, a review of the order that is
  -- there is the duplicate.
  unfoldable pub write : ℕ → (ℕ → Review) → db.reviews.Table → Result (Review × db.reviews.Table)
  write order mk t = elim (db.reviews.insert mk t) [
    | some (r, t') ↦ ok (r, t')
    | none ↦
        if is_some (db.reviews.find_one (about_order order) t)
        then err already_reviewed
        else err (crashed "the review could not be inserted")
  ]

  -- `create`; between its lookups and its insertion others may write, as `meanwhile` says.
  unfoldable pub create :
      Strings
      → Identity
      → CreateReviewDto
      → (db.reviews.Table → db.reviews.Table)
      → ReviewsTables db
      → Result (Review × ReviewsTables db)
  unfolding write
  create lib identity dto meanwhile s = do
    order ←
        or_throw (db.orders.find_one (own_order identity dto.order_id) s.orders)
          (not_found "Замовлення не знайдено")
    throw_if (not (is_status order.status OrderStatus.completed))
        (bad_request "Відгук можна залишити, коли замовлення отримане")
    throw_if (is_some (db.reviews.find_one (about_order order.id) s.reviews)) already_reviewed
    (r, reviews) ←
        write order.id (new_review lib dto order (account_of order s)) (meanwhile s.reviews)
    ok (r, record s { reviews = reviews })

  unfoldable pub update :
      ℕ → UpdateReviewDto → ReviewsTables db → Result (Review × ReviewsTables db)
  update id dto s = do
    r ←
        or_throw (db.reviews.find_one (at_key review_key id) s.reviews)
          (not_found "Відгук не знайдено")
    ok (edited dto r, record s { reviews = db.reviews.save (edited dto r) s.reviews })

  unfoldable pub remove : ℕ → ReviewsTables db → Result (ReviewsTables db)
  remove id s = do
    throw_if (db.reviews.count_where (at_key review_key id) s.reviews == 0)
        (not_found "Відгук не знайдено")
    ok (record s { reviews = db.reviews.delete (at_key review_key id) s.reviews })
