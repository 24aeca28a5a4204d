-- ===== src/Orders/Stock/Laws.antt =====
-- What sorting the lines of a cart or an order keeps, and how one write moves a painting's amount.
use mathlib.Core.List.{Perm}
use mathlib.Core.List.Perm
use gall_pr.Common.{
  Absent, Distinct, ℕ, ◌+◌, ◌-◌, ◌≤◌, ◌≡◌, refl, ap, inl, inr, true, false, Option, none, some,
  List, [], ◌∷◌, map, ◌++◌, ok, arith, ◌==◌, leb, if◌then◌else◌, Bool-cases,
}
use gall_pr.Common.Rows.{first, by_key, put, by_key-put}
use gall_pr.Orders.Entities.{Painting, painting_key}
use gall_pr.Orders.Stock.{
  insert_in_order, stock_order, take_off, put_back, check_available, check_amount,
}

-- The copies of a painting on the shelf, none if there is no such row.
abbrev pub on_shelf : Option Painting → ℕ
on_shelf none = 0
on_shelf (some p) = p.amount

abbrev pub amount_at : ℕ → List Painting → ℕ
amount_at k ps = on_shelf (by_key painting_key k ps)

module _ {A : Type 0} (id quantity : A → ℕ) where
  -- How many copies of painting `k` the lines ask for.
  abbrev pub quantity_of : ℕ → List A → ℕ
  quantity_of k [] = 0
  quantity_of k (x ∷ xs) = (if id x == k then quantity x else 0) + quantity_of k xs

  quantity_of-insert_in_order :
      (k : ℕ) (x : A) (xs : List A)
      → quantity_of k (insert_in_order id x xs) ≡ quantity_of k (x ∷ xs)
  unfolding insert_in_order
  quantity_of-insert_in_order k x [] = refl
  quantity_of-insert_in_order k x (y ∷ ys) = elim (Bool-cases (leb (id x) (id y))) [
    | inl first ↦ rw first
    | inr later ↦ rw later (omega (arith, quantity_of-insert_in_order k x ys))
  ]

  -- Sorting the lines asks for no more and no less.
  pub quantity_of-stock_order :
      (k : ℕ) (xs : List A) → quantity_of k (stock_order id xs) ≡ quantity_of k xs
  unfolding stock_order
  quantity_of-stock_order k [] = refl
  quantity_of-stock_order k (x ∷ xs) =
      omega
        (arith, quantity_of-insert_in_order k x (stock_order id xs), quantity_of-stock_order k xs)

  pub quantity_of-append :
      (k : ℕ) (xs ys : List A) → quantity_of k (xs ++ ys) ≡ quantity_of k xs + quantity_of k ys
  quantity_of-append k [] ys = omega arith
  quantity_of-append k (x ∷ xs) ys = omega (arith, quantity_of-append k xs ys)

module _ {A : Type 0} (id : A → ℕ) where
  pub quantity_of-Absent :
      (quantity : A → ℕ) (k : ℕ) (xs : List A)
      → Absent k (map id xs)
      → quantity_of id quantity k xs ≡ 0
  quantity_of-Absent quantity k [] h = refl
  quantity_of-Absent quantity k (x ∷ xs) (h, hs) =
      rw h (omega (arith, quantity_of-Absent quantity k xs hs))

  insert_in_order-Absent :
      (k : ℕ) (x : A) (xs : List A)
      → (id x == k) ≡ false
      → Absent k (map id xs)
      → Absent k (map id (insert_in_order id x xs))
  unfolding insert_in_order
  insert_in_order-Absent k x [] h hs = (h, tt)
  insert_in_order-Absent k x (y ∷ ys) h (p, hs) = elim (Bool-cases (leb (id x) (id y))) [
    | inl first ↦ rw first (h, (p, hs))
    | inr later ↦ rw later (p, insert_in_order-Absent k x ys h hs)
  ]

  insert_in_order-Distinct :
      (x : A) (xs : List A)
      → Absent (id x) (map id xs)
      → Distinct (map id xs)
      → Distinct (map id (insert_in_order id x xs))
  unfolding insert_in_order
  insert_in_order-Distinct x [] h d = (tt, tt)
  insert_in_order-Distinct x (y ∷ ys) (ne, h) (alone, d) = elim (Bool-cases (leb (id x) (id y))) [
    | inl first ↦ rw first ((ne, h), (alone, d))
    | inr later ↦
        rw later (
          insert_in_order-Absent (id y) x ys (ground arith) alone,
          insert_in_order-Distinct x ys h d,
        )
  ]

  stock_order-Absent :
      (k : ℕ) (xs : List A) → Absent k (map id xs) → Absent k (map id (stock_order id xs))
  unfolding stock_order
  stock_order-Absent k [] h = tt
  stock_order-Absent k (x ∷ xs) (p, h) =
      insert_in_order-Absent k x (stock_order id xs) p (stock_order-Absent k xs h)

  pub stock_order-Distinct :
      (xs : List A) → Distinct (map id xs) → Distinct (map id (stock_order id xs))
  unfolding stock_order
  stock_order-Distinct [] d = tt
  stock_order-Distinct (x ∷ xs) (alone, d) =
      insert_in_order-Distinct x (stock_order id xs) (stock_order-Absent (id x) xs alone)
        (stock_order-Distinct xs d)

module _ {A : Type 0} (id : A → ℕ) where
  -- No line has a smaller painting id than `n`, and the ids do not fall.
  abbrev pub IsSortedFrom : ℕ → List A → Type 0
  IsSortedFrom n [] = Unit {0}
  IsSortedFrom n (x ∷ xs) = (n ≤ id x) × IsSortedFrom (id x) xs

  insert_in_order-IsSortedFrom :
      (n : ℕ) (x : A) (xs : List A)
      → n ≤ id x
      → IsSortedFrom n xs
      → IsSortedFrom n (insert_in_order id x xs)
  unfolding insert_in_order
  insert_in_order-IsSortedFrom n x [] h s = (h, tt)
  insert_in_order-IsSortedFrom n x (y ∷ ys) h (p, s) =
      ground (arith, insert_in_order-IsSortedFrom (id y) x ys)

  stock_order-IsSortedFrom : (xs : List A) → IsSortedFrom 0 (stock_order id xs)
  unfolding stock_order
  stock_order-IsSortedFrom [] = tt
  stock_order-IsSortedFrom (x ∷ xs) =
      insert_in_order-IsSortedFrom 0 x (stock_order id xs) (omega arith)
        (stock_order-IsSortedFrom xs)

  insert_in_order-perm : (x : A) (xs : List A) → Perm (insert_in_order id x xs) (x ∷ xs)
  unfolding insert_in_order
  insert_in_order-perm x [] = Perm.refl _
  insert_in_order-perm x (y ∷ ys) = elim (Bool-cases (leb (id x) (id y))) [
    | inl first ↦ rw first (Perm.refl _)
    | inr later ↦ rw later (Perm.trans (Perm.cons y (insert_in_order-perm x ys)) (Perm.swap x y ys))
  ]

  stock_order-perm : (xs : List A) → Perm (stock_order id xs) xs
  unfolding stock_order
  stock_order-perm [] = Perm.refl _
  stock_order-perm (x ∷ xs) =
      Perm.trans (insert_in_order-perm x (stock_order id xs)) (Perm.cons x (stock_order-perm xs))

  -- The stock order of the lines is the same lines, sorted by their painting ids.
  pub stock_order_lem :
      (xs : List A) → IsSortedFrom 0 (stock_order id xs) × Perm (stock_order id xs) xs
  stock_order_lem xs = (stock_order-IsSortedFrom xs, stock_order-perm xs)

pub take_off-id : (q : ℕ) (p : Painting) → (take_off q p).id ≡ p.id
unfolding take_off
take_off-id q p = ground arith

pub take_off-amount : (q : ℕ) (p : Painting) → (take_off q p).amount ≡ p.amount - q
unfolding take_off
take_off-amount q p = ground arith

pub take_off-price : (q : ℕ) (p : Painting) → (take_off q p).price ≡ p.price
unfolding take_off
take_off-price q p = ground arith

-- A line taken off the shelf is missing there, and nothing else is.
pub amount_at-take_off :
    (k n q : ℕ) (p : Painting) (ps : List Painting)
    → p.id ≡ n
    → by_key painting_key n ps ≡ some p
    → q ≤ p.amount
    → amount_at k (put painting_key (take_off q p) ps) + (if n == k then q else 0) ≡ amount_at k ps
amount_at-take_off k n q p ps same found enough =
    rw (by_key-put, take_off-id)
      (ground
        (arith, take_off-amount q p, ap (λ i. on_shelf (by_key painting_key i ps)) {x = n} {y = k}))

pub amount_at-put_back :
    (k n q : ℕ) (p : Painting) (ps : List Painting)
    → p.id ≡ n
    → by_key painting_key n ps ≡ some p
    → amount_at k (put painting_key (put_back q p) ps) ≡ amount_at k ps + (if n == k then q else 0)
unfolding put_back
amount_at-put_back k n q p ps same found =
    rw by_key-put (ground (arith, ap (λ i. on_shelf (by_key painting_key i ps)) {x = n} {y = k}))

pub check_available_lem :
    (q : ℕ) (o : Option Painting) (p : Painting)
    → check_available q o ≡ ok p
    → (o ≡ some p) × (q ≤ p.amount) × (p.is_available ≡ true)
unfolding check_available
check_available_lem q none p h = ground arith
check_available_lem q (some x) p h = ground arith

pub check_amount_lem :
    (q : ℕ) (o : Option Painting) (p : Painting)
    → check_amount q o ≡ ok p
    → (o ≡ some p) × (q ≤ p.amount)
unfolding check_amount
check_amount_lem q none p h = ground arith
check_amount_lem q (some x) p h = ground arith
