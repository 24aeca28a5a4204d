-- ===== src/Orders/Stock/Returns.antt =====
-- Stock that a cancelled order gives back, and that an order brought back takes again.
use gall_pr.Common.{
  Distinct, ℕ, ◌+◌, ◌≤◌, ◌≡◌, refl, ◌∙◌, sym, ap, inl, inr, Bool, true, some, List, [], ◌∷◌, map,
  Result, ok, ◌>>=◌, arith, ◌==◌, leb, if◌then◌else◌, Option-cases, Bool-cases, >>=-eq-ok,
  ok-injective, subst, crashed, is_some, All,
}
use gall_pr.Common.Rows.{by_key, put, by_key-put, by_key-key}
use gall_pr.Common.Repository.{Repository}
use gall_pr.Orders.Entities.{Painting, OrderItem, Order, painting_key, item_painting, item_quantity}
use gall_pr.Orders.Stock.{
  insert_in_order, stock_order, take_off, restore_item, restore_items, restore_stock, check_items,
  take_items, take_stock_back,
}
use gall_pr.Orders.Stock.Laws.{
  on_shelf, quantity_of-Absent, quantity_of-stock_order, take_off-id, check_amount_lem,
}
use gall_pr.Orders.Stock.Moves.{in_items, shelf, find_one-by_key, shelf-take_off, shelf-put_back}

module _ {A : Type 0} (id : A → ℕ) (P : A → Type 0) where
  All-insert_in_order : (x : A) (xs : List A) → All P (insert_in_order id x xs) → P x × All P xs
  unfolding insert_in_order
  All-insert_in_order x [] h = h
  All-insert_in_order x (y ∷ ys) h = elim (Bool-cases (leb (id x) (id y))) [
    | inl first ↦ rw (first, insert_in_order) at h
    | inr later ↦
        let (p, rest) =
          (let g : P y × All P (insert_in_order id x ys) = rw (later, insert_in_order) at h in g) in
        let (q, others) = All-insert_in_order x ys rest in (q, (p, others))
  ]

  -- What holds of every sorted line holds of every line.
  pub All-stock_order : (xs : List A) → All P (stock_order id xs) → All P xs
  unfolding stock_order
  All-stock_order [] h = h
  All-stock_order (x ∷ xs) h =
      let (p, rest) = All-insert_in_order x (stock_order id xs) h in (p, All-stock_order xs rest)

-- No painting stands in two lines.
abbrev pub AreDistinct : List OrderItem → Type 0
AreDistinct is = Distinct (map item_painting is)

module _ (repo : Repository painting_key) where
  -- The table has a row for the painting.
  abbrev pub is_row : ℕ → repo.Table → Bool
  is_row k t = is_some (by_key painting_key k (repo.rows t))

  is_row-save :
      (k : ℕ) (p : Painting) (t : repo.Table) → is_row k t ≡ true → is_row k (repo.save p t) ≡ true
  is_row-save k p t h = rw (repo.rows-save p t, by_key-put) (ground arith)

  restore_item_lem :
      (k : ℕ) (i : OrderItem) (t : repo.Table)
      → is_row k t ≡ true
      → (shelf repo k (restore_item repo i t)
          ≡ shelf repo k t + (if i.painting_id == k then i.quantity else 0))
        × (is_row k (restore_item repo i t) ≡ true)
  unfolding restore_item
  restore_item_lem k i t h = elim (Option-cases (by_key painting_key i.painting_id (repo.rows t))) [
    | inl missing ↦
        rw (find_one-by_key repo i.painting_id t ∙ missing, restore_item)
          (
            ground (
              arith,
              ap (λ n. is_some (by_key painting_key n (repo.rows t))) {x = i.painting_id} {y = k},
            ),
            h,
          )
    | inr (p, found) ↦
        rw (find_one-by_key repo i.painting_id t ∙ found, restore_item)
          (shelf-put_back repo k i.painting_id i.quantity p t found, is_row-save k _ t h)
  ]

  restore_items_lem :
      (k : ℕ) (is : List OrderItem) (t : repo.Table)
      → is_row k t ≡ true
      → (shelf repo k (restore_items repo is t) ≡ shelf repo k t + in_items k is)
        × (is_row k (restore_items repo is t) ≡ true)
  unfolding restore_items
  restore_items_lem k [] t h = (omega arith, h)
  restore_items_lem k (i ∷ is) t h =
      let (here, still) = restore_item_lem k i t h in
      let (later, kept) = restore_items_lem k is (restore_item repo i t) still in
      (omega (arith, here, later), kept)

  -- Restoring the stock of an order puts every line of an ordinary order back on the shelf and
  -- moves nothing for a commission; the painting keeps its row.
  pub shelf-restore_stock :
      (k : ℕ) (order : Order) (t : repo.Table)
      → is_row k t ≡ true
      → (shelf repo k (restore_stock repo order t)
          ≡ shelf repo k t + (if order.is_commission then 0 else in_items k order.items))
        × (is_row k (restore_stock repo order t) ≡ true)
  unfolding restore_stock
  shelf-restore_stock k order t h = elim (Bool-cases order.is_commission) [
    | inl yes' ↦ rw yes' (omega arith, h)
    | inr no' ↦
        let (moved, kept) = restore_items_lem k (stock_order item_painting order.items) t h in
        rw no' (
          omega (arith, moved, quantity_of-stock_order item_painting item_quantity k order.items),
          kept,
        )
  ]

  -- A line whose painting is remembered as it stands in the table, with enough copies.
  abbrev IsHeld : List Painting → repo.Table → OrderItem → Type 0
  IsHeld held t i =
      (p : Painting) × (by_key painting_key i.painting_id held ≡ some p)
      × (by_key painting_key i.painting_id (repo.rows t) ≡ some p)

  abbrev HasEnough : repo.Table → OrderItem → Type 0
  HasEnough t i = i.quantity ≤ shelf repo i.painting_id t

  IsHeld-put :
      (k : ℕ) (p : Painting) (held : List Painting) (t : repo.Table) (i : OrderItem)
      → by_key painting_key k (repo.rows t) ≡ some p
      → IsHeld held t i
      → IsHeld (put painting_key p held) t i
  IsHeld-put k p held t i found (q, remembered, row) =
      let same : p.id ≡ k = by_key-key painting_key k (repo.rows t) found in
      (
        q,
        rw by_key-put (
            ground
              (arith, ap (λ n. by_key painting_key n (repo.rows t)) {x = k} {y = i.painting_id})),
        row,
      )

  check_items_keeps :
      (is : List OrderItem) (held held' : List Painting) (t : repo.Table) (i : OrderItem)
      → check_items repo is held t ≡ ok held'
      → IsHeld held t i
      → IsHeld held' t i
  unfolding check_items
  check_items_keeps [] held held' t i h k = let e : held ≡ held' = ground arith in rw (← e) k
  check_items_keeps (j ∷ is) held held' t i h k =
      let (p, checked, rest) = >>=-eq-ok _ _ h in
      let (found, _) = check_amount_lem j.quantity _ p checked in
      check_items_keeps is _ held' t i rest
        (IsHeld-put j.painting_id p held t i (sym (find_one-by_key repo j.painting_id t) ∙ found) k)

  check_items_lem :
      (is : List OrderItem) (held held' : List Painting) (t : repo.Table)
      → check_items repo is held t ≡ ok held'
      → All (λ i. IsHeld held' t i × HasEnough t i) is
  unfolding check_items
  check_items_lem [] held held' t h = tt
  check_items_lem (j ∷ is) held held' t h =
      let (p, checked, rest) = >>=-eq-ok _ _ h in
      let (found, enough) = check_amount_lem j.quantity _ p checked in
      let row : by_key painting_key j.painting_id (repo.rows t) ≡ some p =
        sym (find_one-by_key repo j.painting_id t) ∙ found in
      let same : p.id ≡ j.painting_id = by_key-key painting_key j.painting_id (repo.rows t) row in
      let now : IsHeld (put painting_key p held) t j = (p, rw by_key-put (ground arith), row) in
      (
        (check_items_keeps is _ held' t j rest now, rw row enough),
        check_items_lem is _ held' t rest,
      )

  -- Taking one line: the remembered rows and the table change alike.
  IsHeld-take :
      (i j : OrderItem) (p : Painting) (held : List Painting) (t : repo.Table)
      → by_key painting_key i.painting_id held ≡ some p
      → IsHeld held t j
      → IsHeld
          (put painting_key (take_off i.quantity p) held)
          (repo.save (take_off i.quantity p) t)
          j
  IsHeld-take i j p held t found (q, remembered, row) = elim (Bool-cases (p.id == j.painting_id)) [
    | inl same ↦ (
      take_off i.quantity p,
      rw (by_key-put, take_off-id, same),
      rw (repo.rows-save (take_off i.quantity p) t, by_key-put, take_off-id, same),
    )
    | inr other ↦ (
      q,
      rw (by_key-put, take_off-id, other) remembered,
      rw (repo.rows-save (take_off i.quantity p) t, by_key-put, take_off-id, other) row,
    )
  ]

  AreHeld-take :
      (i : OrderItem) (p : Painting) (is : List OrderItem) (held : List Painting) (t : repo.Table)
      → by_key painting_key i.painting_id held ≡ some p
      → All (IsHeld held t) is
      → All
          (IsHeld
            (put painting_key (take_off i.quantity p) held)
            (repo.save (take_off i.quantity p) t))
          is
  AreHeld-take i p [] held t found h = tt
  AreHeld-take i p (j ∷ is) held t found (h, hs) =
      (IsHeld-take i j p held t found h, AreHeld-take i p is held t found hs)

  take_items_lem :
      (is : List OrderItem) (held : List Painting) (t : repo.Table)
      → All (IsHeld held t) is
      → ((k : ℕ) → in_items k is ≤ shelf repo k t)
      → (t' : repo.Table) × (take_items repo is held t ≡ ok t')
        × ((k : ℕ) → shelf repo k t' + in_items k is ≡ shelf repo k t)
  unfolding take_items
  take_items_lem [] held t h enough = (t, refl, λ k. omega arith)
  take_items_lem (i ∷ is) held t ((p, remembered, row), hs) enough =
      let all : i.quantity + in_items i.painting_id is ≤ shelf repo i.painting_id t =
        (let e = enough i.painting_id in ground arith) in
      let fits : i.quantity ≤ p.amount = ground (arith, ap on_shelf row) in
      let moved = λ (k : ℕ). shelf-take_off repo k i.painting_id i.quantity p t row fits in
      let (t', done, rest) =
        take_items_lem is _ (repo.save (take_off i.quantity p) t)
          (AreHeld-take i p is held t remembered hs) (λ k. omega (arith, enough k, moved k)) in
      (t', rw (remembered, take_items) done, λ k. omega (arith, rest k, moved k))

  enough_of_distinct :
      (k : ℕ) (t : repo.Table) (is : List OrderItem)
      → AreDistinct is
      → All (HasEnough t) is
      → in_items k is ≤ shelf repo k t
  enough_of_distinct k t [] d h = omega arith
  enough_of_distinct k t (i ∷ is) (alone, d) (h, hs) = elim (Bool-cases (i.painting_id == k)) [
    | inl same ↦
        let e : i.painting_id ≡ k = ground arith in
        rw same (
          omega (
            arith,
            ap (λ n. in_items n is) e,
            quantity_of-Absent item_painting item_quantity i.painting_id is alone,
            ap (λ n. shelf repo n t) e,
          ))
    | inr other ↦ rw other (omega (arith, enough_of_distinct k t is d hs))
  ]

  split_All :
      (held : List Painting) (t : repo.Table) (is : List OrderItem)
      → All (λ i. IsHeld held t i × HasEnough t i) is
      → All (IsHeld held t) is × All (HasEnough t) is
  split_All held t [] h = (tt, tt)
  split_All held t (i ∷ is) ((a, b), h) =
      let (as', bs) = split_All held t is h in ((a, as'), (b, bs))

  -- When taking the stock of an order back succeeds for an order without repeated paintings,
  -- exactly its lines have left the shelf, and nothing has for a commission.
  pub shelf-take_stock_back :
      (order : Order) (t t' : repo.Table)
      → AreDistinct order.items
      → take_stock_back repo order t ≡ ok t'
      → (k : ℕ)
      → shelf repo k t' + (if order.is_commission then 0 else in_items k order.items)
        ≡ shelf repo k t
  unfolding take_stock_back
  shelf-take_stock_back order t t' d h k = elim (Bool-cases order.is_commission) [
    | inl yes' ↦ rw yes' (let e : t ≡ t' = ground arith in rw e (omega arith))
    | inr no' ↦
        let h' : (check_items repo (stock_order item_painting order.items) [] t >>= λ held.
        take_items repo order.items held t)
            ≡ ok t' =
          rw no' at h in
        let (held, checked, taken) =
          >>=-eq-ok (check_items repo (stock_order item_painting order.items) [] t) _ h' in
        let (are_held, enough) = split_All held t order.items (
          All-stock_order item_painting (λ i. IsHeld held t i × HasEnough t i) order.items
            (check_items_lem _ [] held t checked)) in
        let (u, done, moved) =
          take_items_lem order.items held t are_held
            (λ n. enough_of_distinct n t order.items d enough) in
        let same : ok u ≡ ok t' = sym done ∙ taken in
        let e : u ≡ t' = cc in rw no' (rw (← e) (moved k))
  ]

  take_items-is_row :
      (k : ℕ) (is : List OrderItem) (held : List Painting) (t t' : repo.Table)
      → is_row k t ≡ true
      → take_items repo is held t ≡ ok t'
      → is_row k t' ≡ true
  unfolding take_items
  take_items-is_row k [] held t t' there h = subst (λ u. is_row k u ≡ true) (ok-injective h) there
  take_items-is_row k (i ∷ is) held t t' there h =
      elim (Option-cases (by_key painting_key i.painting_id held)) [
        | inl lost ↦
            let e : Result.err (crashed "painting is undefined") ≡ ok t' =
              rw (lost, take_items) at h in
            cc
        | inr (p, found) ↦
            let rest : take_items repo is (put painting_key (take_off i.quantity p) held)
                  (repo.save (take_off i.quantity p) t)
                ≡ ok t' =
              rw (found, take_items) at h in
            take_items-is_row k is _ (repo.save (take_off i.quantity p) t) t'
              (is_row-save k (take_off i.quantity p) t there) rest
      ]

  -- Taking stock back removes no row.
  pub take_stock_back-is_row :
      (k : ℕ) (order : Order) (t t' : repo.Table)
      → is_row k t ≡ true
      → take_stock_back repo order t ≡ ok t'
      → is_row k t' ≡ true
  unfolding take_stock_back
  take_stock_back-is_row k order t t' there h = elim (Bool-cases order.is_commission) [
    | inl yes' ↦
        let e : Result.ok t ≡ ok t' = rw yes' at h in
        subst (λ u. is_row k u ≡ true) (ok-injective e) there
    | inr no' ↦
        let h' : (check_items repo (stock_order item_painting order.items) [] t >>= λ held.
        take_items repo order.items held t)
            ≡ ok t' =
          rw no' at h in
        let (held, checked, taken) =
          >>=-eq-ok (check_items repo (stock_order item_painting order.items) [] t) _ h' in
        take_items-is_row k order.items held t t' there taken
  ]
