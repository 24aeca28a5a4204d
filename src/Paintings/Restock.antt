-- ===== src/Paintings/Restock.antt =====
-- What raising the number of copies of a painting that is sold out does.
use gall_pr.Common.{
  ℕ, ◌≡◌, sym, ap, ◌∙◌, false, ◌&&◌, none, some, or_else, is_some, arith, some_eq, ok, >>=-eq-ok,
  throw_if, or_throw, or_throw-eq-ok, ok-injective,
}
use gall_pr.Common.Rows.{at_key, by_key, by_key-key, by_key-put, first-eq-by_key}
use gall_pr.Common.Repository.{Repository}
use gall_pr.Orders.Entities.{Painting, painting_key}
use gall_pr.Paintings.{
  UpdatePaintingDto, assert_interior_image_count, reconcile_availability, has_title, is_new_title,
  assigned, sent, is_null, breaks_not_null, update,
}

module _ (repo : Repository painting_key) where
  by_key-saved :
      (id : ℕ) (q : Painting) (t : repo.Table)
      → q.id ≡ id
      → by_key painting_key id (repo.rows (repo.save q t)) ≡ some q
  by_key-saved id q t e = rw (repo.rows-save q t, by_key-put) (ground (arith, e))

  -- When the copies of a painting that is not for sale are changed and the availability is not
  -- sent, an update that succeeds answers the row that is then in the table under its id, with the
  -- new number of copies and still not for sale.
  pub update_restocked :
      (id n : ℕ) (dto : UpdatePaintingDto) (t t' : repo.Table) (p q : Painting)
      → repo.find_one (at_key painting_key id) t ≡ some p
      → p.is_available ≡ false
      → dto.amount ≡ some (some n)
      → dto.is_available ≡ none
      → update repo id dto t ≡ ok (q, t')
      → (by_key painting_key id (repo.rows t') ≡ some q) × (q.amount ≡ n) × (q.is_available ≡ false)
  unfolding update assigned reconcile_availability
  update_restocked id n dto t t' p q found out more unsent h =
      let (old, read, h0) = >>=-eq-ok (or_throw (repo.find_one (at_key painting_key id) t) _) _ h in
      let (u0, free, h1) =
        >>=-eq-ok
          (throw_if
            (is_new_title (sent dto.title) old
              && is_some (repo.find_one (has_title (or_else (sent dto.title) old.title)) t))
            _)
          _ h0 in
      let (u1, counted, h2) =
        >>=-eq-ok (assert_interior_image_count (sent dto.interior_images)) _ h1 in
      let (u2, real, h3) = >>=-eq-ok (throw_if (is_null dto.interior_images) _) _ h2 in
      let (u3, kept, last) = >>=-eq-ok (throw_if (breaks_not_null dto) _) _ h3 in
      let same : p ≡ old = some_eq (sym found ∙ or_throw-eq-ok _ _ read) in
      let left : assigned dto old ≡ q =
        ap (λ (x : Painting × repo.Table). x.0) (ok-injective last) in
      let key : old.id ≡ id = by_key-key painting_key id (repo.rows t) {r = old} (
        sym (first-eq-by_key painting_key id (repo.rows t))
        ∙ sym (repo.find_one_lem (at_key painting_key id) t)
        ∙ or_throw-eq-ok _ _ read) in
      let stored : repo.save (assigned dto old) t ≡ t' =
        ap (λ (x : Painting × repo.Table). x.1) (ok-injective last) in
      (
        ap (λ u. by_key painting_key id (repo.rows u)) (sym stored)
            ∙ by_key-saved id (assigned dto old) t key
            ∙ ap some left,
        ap (λ (x : Painting). x.amount) (sym left) ∙ ap (λ o. or_else (sent o) old.amount) more,
        ap (λ (x : Painting). x.is_available) (sym left)
            ∙ ap
                (λ o.
                  reconcile_availability (or_else (sent dto.amount) old.amount)
                    (or_else o (some old.is_available)))
                unsent
            ∙ ap
                (λ (x : Painting).
                  reconcile_availability (or_else (sent dto.amount) old.amount)
                    (some x.is_available))
                (sym same)
            ∙ ap (λ b. reconcile_availability (or_else (sent dto.amount) old.amount) (some b)) out
            ∙ ground arith,
      )
