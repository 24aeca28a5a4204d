-- ===== src/Examples/Catalogue.antt =====
-- The catalogue of the shop.
use gall_pr.Common.{◌≡◌, refl, false, none, some, List, [], ◌∷◌, ok, arith, ◌==◌}
use gall_pr.Common.Rows.{by_key, first, put}
use gall_pr.Orders.Entities.{Painting, painting_key}
use gall_pr.Paintings.{
  UpdatePaintingDto, update, assigned, assert_interior_image_count, reconcile_availability,
}
use gall_pr.Paintings.Shelf.{IsShelf}
use gall_pr.Paintings.Reach.{start, updated, Reach-IsShelf}
use gall_pr.Paintings.Restock.{update_restocked}
use gall_pr.Examples.Tables.{list_repository}
use gall_pr.Examples.Shop.{lilies, harbour, or_value}

abbrev sold_out : Painting
sold_out = record harbour { amount = 0; is_available = false }

abbrev shelf : List Painting
shelf = lilies ∷ sold_out ∷ []

-- Two copies more, and nothing else.
abbrev two_more : UpdatePaintingDto
two_more = record {
  title = none;
  price = none;
  amount = some (some 2);
  is_available = none;
  is_repeatable = none;
  weight = none;
  series_id = none;
  technique_id = none;
  material_id = none;
  is_featured = none;
  interior_images = none;
}

abbrev restocked : Painting × List Painting
restocked = or_value (sold_out, shelf) (update (list_repository painting_key) 4 two_more shelf)

restocked_lem : update (list_repository painting_key) 4 two_more shelf ≡ ok restocked
unfolding update assigned assert_interior_image_count reconcile_availability first put
restocked_lem = refl

found_lem : first (λ (p : Painting). p.id == 4) shelf ≡ some sold_out
unfolding first
found_lem = refl

update_restocked_example :
    (by_key painting_key 4 restocked.1 ≡ some restocked.0)
    × ((restocked.0).amount ≡ 2)
    × ((restocked.0).is_available ≡ false)
update_restocked_example =
    update_restocked (list_repository painting_key) 4 2 two_more shelf restocked.1 sold_out
      restocked.0 found_lem refl refl refl restocked_lem

shelf-IsShelf : IsShelf (list_repository painting_key) shelf
shelf-IsShelf = (
  record { stocked = λ e. omega arith; sequence = tt },
  (record { stocked = λ e. absurd (cc e); sequence = tt }, tt),
)

Reach-IsShelf_example : IsShelf (list_repository painting_key) restocked.1
Reach-IsShelf_example =
    Reach-IsShelf (list_repository painting_key) shelf-IsShelf
      (updated 4 two_more restocked.0 shelf restocked.1 start restocked_lem)
