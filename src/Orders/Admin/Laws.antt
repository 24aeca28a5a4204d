-- ===== src/Orders/Admin/Laws.antt =====
-- The pages of a tab hold its orders, each once; and orders that no tab lists.
use native.Mathlib.Nat.{div-add-mod, mod-lt, mul-le-mul_right}
use gall_pr.Common.{
  ℕ, zero, suc, ◌+◌, ◌-◌, ◌*◌, ◌/◌, ◌≤◌, ◌<◌, max, ◌≡◌, refl, ap, ◌∙◌, List, [], ◌∷◌, ◌++◌, take,
  drop, length, arith,
}
use gall_pr.Orders.Entities.{Order}
use gall_pr.Orders.Admin.{page_of, total_pages}

module _ {A : Type 0} where
  take-append-take : (m l : ℕ) (xs : List A) → take m xs ++ take l (drop m xs) ≡ take (m + l) xs
  take-append-take zero l xs = let e : zero + l ≡ l = omega arith in rw e
  take-append-take (suc m) zero [] = let e : suc m + zero ≡ suc m = omega arith in rw e
  take-append-take (suc m) (suc l) [] =
      let e : suc m + suc l ≡ suc (m + suc l) = omega arith in rw e
  take-append-take (suc m) l (x ∷ xs) =
      let e : suc m + l ≡ suc (m + l) = omega arith in
      rw e (ap (λ ys. x ∷ ys) (take-append-take m l xs))

  take_all : (n : ℕ) (xs : List A) → length xs ≤ n → take n xs ≡ xs
  take_all zero [] h = refl
  take_all (suc n) [] h = refl
  take_all zero (x ∷ xs) h = absurd (omega arith)
  take_all (suc n) (x ∷ xs) h = ap (λ ys. x ∷ ys) (take_all n xs (omega arith))

-- The first `n` pages, one after the other.
abbrev pub first_pages : ℕ → ℕ → List Order → List Order
first_pages limit zero orders = []
first_pages limit (suc n) orders = first_pages limit n orders ++ page_of (suc n) limit orders

first_pages-take :
    (limit n : ℕ) (orders : List Order) → first_pages limit n orders ≡ take (n * limit) orders
unfolding page_of
first_pages-take limit zero orders = let e : zero * limit ≡ zero = omega arith in rw e
first_pages-take limit (suc n) orders =
    let e : suc n * limit ≡ n * limit + limit = omega arith in
    let p : suc n - 1 ≡ n = omega arith in
    rw (e, p, first_pages-take limit n orders) (take-append-take (n * limit) limit orders)

total_pages_cover : (total limit : ℕ) → 0 < limit → total ≤ total_pages total limit * limit
unfolding total_pages
total_pages_cover total limit h =
    let a = total + limit - 1 in
    grind (
      arith,
      div-add-mod a limit,
      mod-lt a {m = limit} h,
      mul-le-mul_right {m = a / limit} {n = max 1 (a / limit)} limit,
    )

-- The pages of a tab, read one after the other, are the orders of the tab: none is missing and none
-- stands on two pages, when the page size is not 0.
pub pages_complete :
    (limit : ℕ) (orders : List Order)
    → 0 < limit
    → first_pages limit (total_pages (length orders) limit) orders ≡ orders
pages_complete limit orders h =
    first_pages-take limit (total_pages (length orders) limit) orders
    ∙ take_all _ orders (total_pages_cover (length orders) limit h)
