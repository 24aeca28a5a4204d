-- ===== src/Examples/Opinions.antt =====
-- A review of an order of the shop.
use gall_pr.Common.{
  ◌≡◌, refl, Bool, false, Option, none, some, List, [], ◌∷◌, ok, is_some, if◌then◌else◌, Bool-cases,
  inl, inr, subst, some_eq, trim, trimmed, non_empty,
}
use gall_pr.Common.Rows.{first, by_key}
use gall_pr.Common.Repository.{Repository}
use gall_pr.Identity.{identity_where}
use gall_pr.Auth.Entities.{user_key}
use gall_pr.Orders.Entities.{OrderStatus, order_key, painting_key}
use gall_pr.Reviews.{
  Review, ReviewsDatabase, ReviewsTables, Strings, CreateReviewDto, review_key, about_order,
  author_from, write, create,
}
use gall_pr.Reviews.Write.{IsIndexed, Reviewed, create-Reviewed}
use gall_pr.Examples.Tables.{list_repository, insert_row, insert_row_lem}
use gall_pr.Examples.Shop.{customer, earlier, lilies, or_value}

-- The unique key on the order.
abbrev written_about : Review → List Review → Bool
written_about r t = is_some (first (about_order r.order_id) t)

abbrev unique_row : Option (Review × List Review) → List Review → Option (Review × List Review)
unique_row none t = none
unique_row (some (r, t')) t = if written_about r t then none else some (r, t')

unique_row-free :
    (o : Option (Review × List Review)) (t t' : List Review) (r : Review)
    → unique_row o t ≡ some (r, t')
    → (o ≡ some (r, t')) × (written_about r t ≡ false)
unique_row-free none t t' r h = absurd (cc h)
unique_row-free (some (q, u)) t t' r h = elim (Bool-cases (written_about q t)) [
  | inl there ↦
      let h' : ◌≡◌ {A = Option (Review × List Review)} none (some (r, t')) = rw there at h in
      absurd (cc h')
  | inr free ↦
      let h' : some (q, u) ≡ some (r, t') = rw free at h in
      (h', subst (λ (x : Review × List Review). written_about x.0 t ≡ false) (some_eq h') free)
]

abbrev reviews : Repository review_key
reviews = record (list_repository review_key) {
  insert = λ mk t. unique_row (insert_row review_key mk t) t;
  rows-insert = λ mk t t' r h.
      insert_row_lem review_key mk t t' r (unique_row-free (insert_row review_key mk t) t t' r h).0;
}

abbrev database : ReviewsDatabase
database = record {
  reviews = reviews;
  orders = list_repository order_key;
  users = list_repository user_key;
  paintings = list_repository painting_key;
}

database-IsIndexed : IsIndexed database
database-IsIndexed mk t t' r h =
    none_of (first (about_order r.order_id) t)
      (unique_row-free (insert_row review_key mk t) t t' r h).1
  where
    none_of : (o : Option Review) → is_some o ≡ false → o ≡ none
    none_of none e = refl
    none_of (some x) e = cc

abbrev plain : Strings
plain = record { words = λ s. s ∷ []; initial = λ s. s; cut = λ s. s }

abbrev arrived : ReviewsTables database
arrived = record {
  reviews = [];
  orders = record earlier { status = OrderStatus.completed } ∷ [];
  users = [];
  paintings = lilies ∷ [];
}

abbrev praise : CreateReviewDto
praise = record { order_id = 1; rating = 5; text = " Дуже гарна картина " }

abbrev nothing : Review
nothing = record {
  id = 0;
  order_id = 0;
  user_id = none;
  author_name = "";
  rating = 0;
  text = "";
  is_published = false;
}

abbrev praised : Review × ReviewsTables database
praised = or_value (nothing, arrived) (create database plain customer praise (λ t. t) arrived)

praised_lem : create database plain customer praise (λ t. t) arrived ≡ ok praised
unfolding create write author_from first by_key identity_where trim trimmed non_empty
praised_lem = refl

create-Reviewed_example : Reviewed database plain customer praise arrived praised.1 praised.0
create-Reviewed_example =
    create-Reviewed database plain customer praise (λ t. t) arrived praised.1 praised.0
      database-IsIndexed praised_lem
