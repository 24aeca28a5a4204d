-- ===== src/Paintings/Shelf.antt =====
-- What is for sale has copies, whatever the administrator and the customers do.
use gall_pr.Common.{
  ℕ, ◌-◌, ◌≤◌, ◌≡◌, sym, ap, subst, ◌∙◌, inl, inr, String, Bool, true, ◌&&◌, Option, none, some,
  List, [], ◌∷◌, ltb, leb, length, or_else, is_some, arith, All, All-append, Bool-cases, ok,
  >>=-eq-ok, throw_if, throw_if-eq-ok, or_throw, or_throw-eq-ok, ok-injective,
}
use gall_pr.Common.Rows.{at_key, first-eq-by_key}
use gall_pr.Common.Rows.Laws.{All-put, All-by_key, All-discard}
use gall_pr.Common.Repository.{Repository}
use gall_pr.Orders.Entities.{Painting, painting_key}
use gall_pr.Orders.Stock.{take_off, put_back}
use gall_pr.Paintings.{
  CreatePaintingDto, UpdatePaintingDto, interior_images_min, interior_images_max,
  assert_interior_image_count, reconcile_availability, stored_images, sent_images, new_painting,
  assigned, sent, is_null, breaks_not_null, images_after, has_title, is_new_title, create, update,
  remove,
}

-- No interior images, or enough and not too many of them.
abbrev pub IsSequence : Option (List String) → Type 0
IsSequence none = Unit {0}
IsSequence (some is) = (interior_images_min ≤ length is) × (length is ≤ interior_images_max)

pub record IsSound (p : Painting) : Type 0 where
  pub stocked : p.is_available ≡ true → 1 ≤ p.amount
  pub sequence : IsSequence p.interior_images

reconcile_availability-stocked :
    (amount : ℕ) (requested : Option Bool)
    → reconcile_availability amount requested ≡ true
    → 1 ≤ amount
unfolding reconcile_availability
reconcile_availability-stocked amount requested h = ground (arith, h)

assert_interior_image_count-IsSequence :
    (is : List String) {u : Unit {0}}
    → assert_interior_image_count (some is) ≡ ok u
    → IsSequence (stored_images is)
unfolding assert_interior_image_count
assert_interior_image_count-IsSequence [] h = tt
assert_interior_image_count-IsSequence (i ∷ is) {u} h =
    let (u1, few, h1) = >>=-eq-ok (throw_if (ltb (length (i ∷ is)) interior_images_min) _) _ h in
    let enough = throw_if-eq-ok _ _ {u = u1} few in
    let short = throw_if-eq-ok _ _ {u = u} h1 in (ground (arith, enough), ground (arith, short))

new_painting-IsSound :
    (dto : CreatePaintingDto) (id : ℕ) {u : Unit {0}}
    → assert_interior_image_count dto.interior_images ≡ ok u
    → IsSound (new_painting dto id)
unfolding new_painting
new_painting-IsSound dto id {u} h = record {
  stocked = reconcile_availability-stocked (or_else dto.amount 1) dto.is_available;
  sequence = counted dto.interior_images h;
}
  where
    counted :
        (o : Option (List String))
        → assert_interior_image_count o ≡ ok u
        → IsSequence (sent_images o)
    counted none e = tt
    counted (some is) e = assert_interior_image_count-IsSequence is {u = u} e

assigned-IsSound :
    (dto : UpdatePaintingDto) (p : Painting) {u : Unit {0}}
    → assert_interior_image_count (sent dto.interior_images) ≡ ok u
    → IsSound p
    → IsSound (assigned dto p)
unfolding assigned
assigned-IsSound dto p {u} h sound = record {
  stocked =
      reconcile_availability-stocked (or_else (sent dto.amount) p.amount)
        (or_else dto.is_available (some p.is_available));
  sequence = kept (sent dto.interior_images) h;
}
  where
    kept :
        (o : Option (List String))
        → assert_interior_image_count o ≡ ok u
        → IsSequence (images_after o p.interior_images)
    kept none e = sound.sequence
    kept (some is) e = assert_interior_image_count-IsSequence is {u = u} e

pub take_off-IsSound : (n : ℕ) (p : Painting) → IsSound p → IsSound (take_off n p)
unfolding take_off
take_off-IsSound n p sound = elim (Bool-cases (leb (p.amount - n) 0)) [
  | inl out ↦
      rw (take_off, out) (record { stocked = λ e. absurd (cc e); sequence = sound.sequence })
  | inr left ↦
      rw (take_off, left)
        (record { stocked = λ e. ground (arith, left); sequence = sound.sequence })
]

pub put_back-IsSound : (n : ℕ) (p : Painting) → 1 ≤ n → IsSound p → IsSound (put_back n p)
unfolding put_back
put_back-IsSound n p some_copy sound = record {
  stocked = λ e. omega (arith, some_copy);
  sequence = sound.sequence;
}

module _ (repo : Repository painting_key) where
  abbrev pub IsShelf : repo.Table → Type 0
  IsShelf t = All IsSound (repo.rows t)

  pub found-IsSound :
      (k : ℕ) (t : repo.Table) (p : Painting)
      → IsShelf t
      → repo.find_one (at_key painting_key k) t ≡ some p
      → IsSound p
  found-IsSound k t p shelf found = All-by_key painting_key IsSound k (repo.rows t) p shelf (
      sym (first-eq-by_key painting_key k (repo.rows t))
      ∙ sym (repo.find_one_lem (at_key painting_key k) t)
      ∙ found)

  pub saved-IsShelf :
      (p : Painting) (t : repo.Table) → IsShelf t → IsSound p → IsShelf (repo.save p t)
  saved-IsShelf p t shelf sound =
      subst (All IsSound) (sym (repo.rows-save p t))
        (All-put painting_key IsSound p (repo.rows t) shelf sound)

  pub create-IsShelf :
      (dto : CreatePaintingDto) (t t' : repo.Table) (p : Painting)
      → IsShelf t
      → create repo dto t ≡ ok (p, t')
      → IsShelf t'
  unfolding create
  create-IsShelf dto t t' p shelf h =
      let (u0, free, h0) =
        >>=-eq-ok (throw_if (is_some (repo.find_one (has_title dto.title) t)) _) _ h in
      let (u1, counted, h1) = >>=-eq-ok (assert_interior_image_count dto.interior_images) _ h0 in
      let (added, shape, fresh) =
        repo.rows-insert (new_painting dto) t t' p (or_throw-eq-ok _ _ h1) in
      subst (All IsSound) (sym added) (
        All-append IsSound (repo.rows t) (p ∷ []) shelf
          (subst IsSound (sym shape) (new_painting-IsSound dto p.id {u = u1} counted), tt))

  pub update-IsShelf :
      (id : ℕ) (dto : UpdatePaintingDto) (t t' : repo.Table) (p : Painting)
      → IsShelf t
      → update repo id dto t ≡ ok (p, t')
      → IsShelf t'
  unfolding update
  update-IsShelf id dto t t' p shelf h =
      let (old, found, h0) =
        >>=-eq-ok (or_throw (repo.find_one (at_key painting_key id) t) _) _ h in
      let (u0, free, h1) =
        >>=-eq-ok
          (throw_if
            (is_new_title (sent dto.title) old
              && is_some (repo.find_one (has_title (or_else (sent dto.title) old.title)) t))
            _)
          _ h0 in
      let (u1, counted, h2) =
        >>=-eq-ok (assert_interior_image_count (sent dto.interior_images)) _ h1 in
      let (u2, real, h3) = >>=-eq-ok (throw_if (is_null dto.interior_images) _) _ h2 in
      let (u3, kept, last) = >>=-eq-ok (throw_if (breaks_not_null dto) _) _ h3 in
      let sound = found-IsSound id t old shelf (or_throw-eq-ok _ _ found) in
      subst IsShelf (ap (λ (x : Painting × repo.Table). x.1) (ok-injective last))
        (saved-IsShelf (assigned dto old) t shelf (assigned-IsSound dto old {u = u1} counted sound))

  pub remove-IsShelf :
      (is_ordered : Painting → Bool) (id : ℕ) (t t' : repo.Table)
      → IsShelf t
      → remove repo is_ordered id t ≡ ok t'
      → IsShelf t'
  unfolding remove
  remove-IsShelf is_ordered id t t' shelf h =
      let (old, found, h0) =
        >>=-eq-ok (or_throw (repo.find_one (at_key painting_key id) t) _) _ h in
      let (u0, free, last) = >>=-eq-ok (throw_if (is_ordered old) _) _ h0 in
      subst IsShelf (ok-injective last) (
        subst (All IsSound) (sym (repo.rows-delete (at_key painting_key old.id) t))
          (All-discard (at_key painting_key old.id) IsSound (repo.rows t) shelf))
