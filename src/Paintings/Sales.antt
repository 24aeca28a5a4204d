-- ===== src/Paintings/Sales.antt =====
-- The orders' steps on the shelf: what they sell, put back and take again.
use gall_pr.Common.{
  ℕ, ◌≤◌, ◌≡◌, ap, subst, inl, inr, Option, none, some, List, [], ◌∷◌, leb, arith, All, Bool-cases,
  Option-cases, Result, ok, err, ◌>>=◌, >>=-eq-ok, ok-injective,
}
use gall_pr.Common.Rows.{at_key, by_key, put}
use gall_pr.Common.Rows.Laws.{All-put, All-by_key}
use gall_pr.Common.Repository.{Repository}
use gall_pr.Orders.Entities.{Painting, painting_key, CartItem, OrderItem, Order, item_painting}
use gall_pr.Orders.Stock.{
  take_off, put_back, check_available, check_amount, reserve, restore_item, restore_items,
  restore_stock, check_items, take_items, take_stock_back, stock_order, insert_in_order,
}
use gall_pr.Paintings.Shelf.{
  IsSound, IsShelf, found-IsSound, saved-IsShelf, take_off-IsSound, put_back-IsSound,
}

check_available-some :
    (n : ℕ) (o : Option Painting) (p : Painting) → check_available n o ≡ ok p → o ≡ some p
unfolding check_available
check_available-some n none p h = cc
check_available-some n (some q) p h = ground (arith, h)

check_amount-some :
    (n : ℕ) (o : Option Painting) (p : Painting) → check_amount n o ≡ ok p → o ≡ some p
unfolding check_amount
check_amount-some n none p h = cc
check_amount-some n (some q) p h = ground (arith, h)

-- Every line is of one copy or more.
abbrev pub HasCopies : OrderItem → Type 0
HasCopies i = 1 ≤ i.quantity

insert_in_order-HasCopies :
    (i : OrderItem) (is : List OrderItem)
    → HasCopies i
    → All HasCopies is
    → All HasCopies (insert_in_order item_painting i is)
unfolding insert_in_order
insert_in_order-HasCopies i [] p h = (p, tt)
insert_in_order-HasCopies i (j ∷ js) p (q, h) =
    elim (Bool-cases (leb (item_painting i) (item_painting j))) [
      | inl before ↦ rw (insert_in_order, before) (p, (q, h))
      | inr after ↦ rw (insert_in_order, after) (q, insert_in_order-HasCopies i js p h)
    ]

stock_order-HasCopies :
    (is : List OrderItem) → All HasCopies is → All HasCopies (stock_order item_painting is)
unfolding stock_order
stock_order-HasCopies [] h = tt
stock_order-HasCopies (i ∷ is) (p, h) =
    insert_in_order-HasCopies i (stock_order item_painting is) p (stock_order-HasCopies is h)

module _ (repo : Repository painting_key) where
  pub reserve-IsShelf :
      (cart : List CartItem) (items items' : List OrderItem) (cents cents' : ℕ) (t t' : repo.Table)
      → IsShelf repo t
      → reserve repo cart items cents t ≡ ok (items', cents', t')
      → IsShelf repo t'
  unfolding reserve check_available
  reserve-IsShelf [] items items' cents cents' t t' shelf h =
      subst (IsShelf repo) (ap (λ (x : List OrderItem × ℕ × repo.Table). x.2) (ok-injective h))
        shelf
  reserve-IsShelf (c ∷ cart) items items' cents cents' t t' shelf h =
      let (p, checked, rest) = >>=-eq-ok (check_available c.quantity _) _ h in
      let found = check_available-some c.quantity _ p checked in
      reserve-IsShelf cart _ items' _ cents' (repo.save (take_off c.quantity p) t) t'
        (saved-IsShelf repo (take_off c.quantity p) t shelf
          (take_off-IsSound c.quantity p (found-IsSound repo c.painting_id t p shelf found)))
        rest

  restore_items-IsShelf :
      (is : List OrderItem) (t : repo.Table)
      → All HasCopies is
      → IsShelf repo t
      → IsShelf repo (restore_items repo is t)
  unfolding restore_items restore_item
  restore_items-IsShelf [] t some_copy shelf = shelf
  restore_items-IsShelf (i ∷ is) t (one, more) shelf =
      restore_items-IsShelf is (restore_item repo i t) more
        (elim (Option-cases (repo.find_one (at_key painting_key i.painting_id) t)) [
          | inl gone ↦ rw (restore_item, gone) shelf
          | inr (p, found) ↦
              rw (restore_item, found)
                (saved-IsShelf repo (put_back i.quantity p) t shelf (
                  put_back-IsSound i.quantity p one
                    (found-IsSound repo i.painting_id t p shelf found)))
        ])

  check_items-IsSound :
      (is : List OrderItem) (held held' : List Painting) (t : repo.Table)
      → IsShelf repo t
      → All IsSound held
      → check_items repo is held t ≡ ok held'
      → All IsSound held'
  unfolding check_items
  check_items-IsSound [] held held' t shelf sound h = subst (All IsSound) (ok-injective h) sound
  check_items-IsSound (i ∷ is) held held' t shelf sound h =
      let (p, checked, rest) = >>=-eq-ok (check_amount i.quantity _) _ h in
      let found = check_amount-some i.quantity _ p checked in
      check_items-IsSound is (put painting_key p held) held' t shelf
        (All-put painting_key IsSound p held sound
          (found-IsSound repo i.painting_id t p shelf found))
        rest

  take_items-IsShelf :
      (is : List OrderItem) (held : List Painting) (t t' : repo.Table)
      → All IsSound held
      → IsShelf repo t
      → take_items repo is held t ≡ ok t'
      → IsShelf repo t'
  unfolding take_items
  take_items-IsShelf [] held t t' sound shelf h = subst (IsShelf repo) (ok-injective h) shelf
  take_items-IsShelf (i ∷ is) held t t' sound shelf h =
      elim (Option-cases (by_key painting_key i.painting_id held)) [
        | inl gone ↦
            let h' : ◌≡◌ {A = Result repo.Table} (err _) (ok t') = rw (take_items, gone) at h in
            absurd (cc h')
        | inr (p, there) ↦
            let q = take_off i.quantity p in
            let h' : take_items repo is (put painting_key q held) (repo.save q t) ≡ ok t' =
              rw (take_items, there) at h in
            let sound_q =
              take_off-IsSound i.quantity p
                (All-by_key painting_key IsSound i.painting_id held p sound there) in
            take_items-IsShelf is (put painting_key q held) (repo.save q t) t'
              (All-put painting_key IsSound q held sound sound_q)
              (saved-IsShelf repo q t shelf sound_q) h'
      ]

  pub restore_stock-IsShelf :
      (order : Order) (t : repo.Table)
      → All HasCopies order.items
      → IsShelf repo t
      → IsShelf repo (restore_stock repo order t)
  unfolding restore_stock
  restore_stock-IsShelf order t copies shelf = elim (Bool-cases order.is_commission) [
    | inl yes' ↦ rw (restore_stock, yes') shelf
    | inr no' ↦
        rw (restore_stock, no')
          (restore_items-IsShelf (stock_order item_painting order.items) t
            (stock_order-HasCopies order.items copies) shelf)
  ]

  pub take_stock_back-IsShelf :
      (order : Order) (t t' : repo.Table)
      → IsShelf repo t
      → take_stock_back repo order t ≡ ok t'
      → IsShelf repo t'
  unfolding take_stock_back
  take_stock_back-IsShelf order t t' shelf h = elim (Bool-cases order.is_commission) [
    | inl yes' ↦
        let h' : ok t ≡ ok t' = rw (take_stock_back, yes') at h in
        subst (IsShelf repo) (ok-injective h') shelf
    | inr no' ↦
        let lines = stock_order item_painting order.items in
        let h' : (check_items repo lines [] t >>= λ held. take_items repo order.items held t)
            ≡ ok t' =
          rw (take_stock_back, no') at h in
        let (held, checked, taken) = >>=-eq-ok (check_items repo lines [] t) _ h' in
        take_items-IsShelf order.items held t t'
          (check_items-IsSound lines [] held t shelf tt checked) shelf taken
  ]
