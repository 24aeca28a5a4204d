-- ===== src/Orders/Stock/Moves.antt =====
-- What the loops over stock lines move: from the shelf into an order, and back.
use gall_pr.Common.{
  ℕ, ◌+◌, ◌*◌, ◌≤◌, ◌≡◌, ◌∙◌, sym, ap, true, some, List, [], ◌∷◌, ◌++◌, ok, arith, ◌==◌,
  if◌then◌else◌, map, subst, is_some, ok-injective, >>=-eq-ok, to_cents, sum_of, sum_of-append,
}
use mathlib.Core.List.{append-nil, append_assoc, map-append}
use gall_pr.Common.Rows.{at_key, by_key, by_key-put, by_key-key, first-eq-by_key}
use gall_pr.Common.Repository.{Repository}
use gall_pr.Orders.Entities.{
  Painting, CartItem, OrderItem, painting_key, cart_painting, cart_quantity, item_painting,
  item_quantity,
}
use gall_pr.Orders.Stock.{take_off, put_back, check_available, item_of, reserve}
use gall_pr.Orders.Stock.Laws.{
  amount_at, quantity_of, quantity_of-append, amount_at-take_off, amount_at-put_back,
  check_available_lem,
}

abbrev pub in_cart : ℕ → List CartItem → ℕ
in_cart = quantity_of cart_painting cart_quantity

abbrev pub in_items : ℕ → List OrderItem → ℕ
in_items = quantity_of item_painting item_quantity

-- What the lines come to, each price rounded to whole cents.
abbrev pub line_cents : OrderItem → ℕ
line_cents i = to_cents i.price * i.quantity

module _ (repo : Repository painting_key) where
  abbrev pub shelf : ℕ → repo.Table → ℕ
  shelf k t = amount_at k (repo.rows t)

  pub find_one-by_key :
      (k : ℕ) (t : repo.Table)
      → repo.find_one (at_key painting_key k) t ≡ by_key painting_key k (repo.rows t)
  find_one-by_key k t = repo.find_one_lem _ t ∙ first-eq-by_key painting_key k (repo.rows t)

  -- Saving a painting with a line taken off moves that line off the shelf.
  pub shelf-take_off :
      (k n q : ℕ) (p : Painting) (t : repo.Table)
      → by_key painting_key n (repo.rows t) ≡ some p
      → q ≤ p.amount
      → shelf k (repo.save (take_off q p) t) + (if n == k then q else 0) ≡ shelf k t
  shelf-take_off k n q p t found enough =
      let same : p.id ≡ n = by_key-key painting_key n (repo.rows t) found in
      rw (repo.rows-save (take_off q p) t)
        (amount_at-take_off k n q p (repo.rows t) same found enough)

  pub shelf-put_back :
      (k n q : ℕ) (p : Painting) (t : repo.Table)
      → by_key painting_key n (repo.rows t) ≡ some p
      → shelf k (repo.save (put_back q p) t) ≡ shelf k t + (if n == k then q else 0)
  shelf-put_back k n q p t found =
      let same : p.id ≡ n = by_key-key painting_key n (repo.rows t) found in
      rw (repo.rows-save (put_back q p) t) (amount_at-put_back k n q p (repo.rows t) same found)

  -- The order's lines are for the paintings of the cart's lines.
  pub reserve-map_painting :
      (cs : List CartItem) (items items' : List OrderItem) (cents cents' : ℕ) (t t' : repo.Table)
      → reserve repo cs items cents t ≡ ok (items', cents', t')
      → map item_painting items' ≡ map item_painting items ++ map cart_painting cs
  unfolding reserve
  reserve-map_painting [] items items' cents cents' t t' h =
      let e = ok-injective h in
      ap (λ (x : List OrderItem × ℕ × repo.Table). map item_painting x.0) (sym e)
      ∙ sym (append-nil _)
  reserve-map_painting (c ∷ cs) items items' cents cents' t t' h =
      let (p, checked, rest) = >>=-eq-ok _ _ h in
      let (found, _, _) = check_available_lem c.quantity _ p checked in
      let row : by_key painting_key c.painting_id (repo.rows t) ≡ some p =
        sym (find_one-by_key c.painting_id t) ∙ found in
      let same : p.id ≡ c.painting_id = by_key-key painting_key c.painting_id (repo.rows t) row in
      reserve-map_painting cs (items ++ item_of c p ∷ []) items' _ cents' _ t' rest
      ∙ rw (map-append, append_assoc)
          (ap (λ n. map item_painting items ++ n ∷ map cart_painting cs) same)

  -- Nor does reserving take a painting's row away.
  pub reserve-row :
      (k : ℕ) (cs : List CartItem) (items items' : List OrderItem) (cents cents' : ℕ)
      (t t' : repo.Table)
      → is_some (by_key painting_key k (repo.rows t)) ≡ true
      → reserve repo cs items cents t ≡ ok (items', cents', t')
      → is_some (by_key painting_key k (repo.rows t')) ≡ true
  unfolding reserve
  reserve-row k [] items items' cents cents' t t' there h =
      let e = ap (λ (x : List OrderItem × ℕ × repo.Table). x.2) (ok-injective h) in
      subst (λ u. is_some (by_key painting_key k (repo.rows u)) ≡ true) e there
  reserve-row k (c ∷ cs) items items' cents cents' t t' there h =
      let (p, checked, rest) =
        >>=-eq-ok (check_available c.quantity (repo.find_one (at_key painting_key c.painting_id) t))
          _ h in
      let kept : is_some (by_key painting_key k (repo.rows (repo.save (take_off c.quantity p) t)))
          ≡ true =
        rw (repo.rows-save (take_off c.quantity p) t, by_key-put) (ground arith) in
      reserve-row k cs _ items' _ cents' _ t' kept rest

  -- What a successful run of the reserving loop has done.
  pub record Reserved (cs : List CartItem) (items : List OrderItem) (cents : ℕ) (t : repo.Table)
      (items' : List OrderItem) (cents' : ℕ) (t' : repo.Table) : Type 0 where
    pub moved : (k : ℕ) → shelf k t' + in_cart k cs ≡ shelf k t
    pub listed : (k : ℕ) → in_items k items' ≡ in_items k items + in_cart k cs
    pub priced : cents' + sum_of line_cents items ≡ cents + sum_of line_cents items'

  reserve-Reserved_cons :
      (c : CartItem) (p : Painting) (cs : List CartItem) (items items' : List OrderItem)
      (cents cents' : ℕ) (t t' : repo.Table)
      → by_key painting_key c.painting_id (repo.rows t) ≡ some p
      → c.quantity ≤ p.amount
      → Reserved cs
          (items ++ item_of c p ∷ [])
          (cents + to_cents p.price * c.quantity)
          (repo.save (take_off c.quantity p) t)
          items'
          cents'
          t'
      → Reserved (c ∷ cs) items cents t items' cents' t'
  reserve-Reserved_cons c p cs items items' cents cents' t t' found enough r = record {
    moved =
        λ k. omega (arith, r.moved k, shelf-take_off k c.painting_id c.quantity p t found enough);
    listed = λ k.
        let same : p.id ≡ c.painting_id =
          by_key-key painting_key c.painting_id (repo.rows t) found in
        omega (
          arith,
          r.listed k,
          quantity_of-append item_painting item_quantity k items (item_of c p ∷ []),
          ap (λ n. if n == k then c.quantity else 0) same,
        );
    priced = omega (arith, r.priced, sum_of-append line_cents items (item_of c p ∷ []));
  }

  -- A run of the reserving loop that succeeds moves each line of the cart from the shelf into the
  -- order and adds its price to the sum.
  pub reserve-Reserved :
      (cs : List CartItem) (items items' : List OrderItem) (cents cents' : ℕ) (t t' : repo.Table)
      → reserve repo cs items cents t ≡ ok (items', cents', t')
      → Reserved cs items cents t items' cents' t'
  unfolding reserve
  reserve-Reserved [] items items' cents cents' t t' h = record {
    moved = λ k. ground arith;
    listed = λ k. ground arith;
    priced = ground arith;
  }
  reserve-Reserved (c ∷ cs) items items' cents cents' t t' h =
      let (p, checked, rest) =
        >>=-eq-ok (check_available c.quantity (repo.find_one (at_key painting_key c.painting_id) t))
          _ h in
      let (found, enough, _) = check_available_lem c.quantity _ p checked in
      reserve-Reserved_cons c p cs items items' cents cents' t t'
        (sym (find_one-by_key c.painting_id t) ∙ found) enough
        (reserve-Reserved cs _ items' _ cents' _ t' rest)
