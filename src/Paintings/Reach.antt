-- ===== src/Paintings/Reach.antt =====
-- The shelf over any history of the catalogue and the orders.
use gall_pr.Common.{ℕ, ◌≡◌, Bool, List, [], All, ok}
use gall_pr.Common.Repository.{Repository}
use gall_pr.Orders.Entities.{Painting, painting_key, CartItem, OrderItem, Order}
use gall_pr.Orders.Stock.{reserve, restore_stock, take_stock_back}
use gall_pr.Paintings.{CreatePaintingDto, UpdatePaintingDto, create, update, remove}
use gall_pr.Paintings.Shelf.{IsShelf, create-IsShelf, update-IsShelf, remove-IsShelf}
use gall_pr.Paintings.Sales.{
  HasCopies, reserve-IsShelf, restore_stock-IsShelf, take_stock_back-IsShelf,
}

module _ (repo : Repository painting_key) where
  -- What the administrator and the orders make of the table of paintings.
  pub data Reach (s : repo.Table) : repo.Table → Type 0 where
    start : Reach s s
    created :
        (dto : CreatePaintingDto) (p : Painting) (t u : repo.Table)
        → Reach s t
        → create repo dto t ≡ ok (p, u)
        → Reach s u
    updated :
        (id : ℕ) (dto : UpdatePaintingDto) (p : Painting) (t u : repo.Table)
        → Reach s t
        → update repo id dto t ≡ ok (p, u)
        → Reach s u
    removed :
        (is_ordered : Painting → Bool) (id : ℕ) (t u : repo.Table)
        → Reach s t
        → remove repo is_ordered id t ≡ ok u
        → Reach s u
    sold :
        (cart : List CartItem) (items : List OrderItem) (cents : ℕ) (t u : repo.Table)
        → Reach s t
        → reserve repo cart [] 0 t ≡ ok (items, cents, u)
        → Reach s u
    returned :
        (order : Order) (t : repo.Table)
        → All HasCopies order.items
        → Reach s t
        → Reach s (restore_stock repo order t)
    taken_back :
        (order : Order) (t u : repo.Table)
        → Reach s t
        → take_stock_back repo order t ≡ ok u
        → Reach s u

  -- After any history of paintings that are created, updated and removed, of carts that are
  -- reserved, and of orders whose stock is restored or taken back, a painting that is for sale has
  -- a copy, and its interior images are none or two to six, if this held at the start and every
  -- line of a restored order has a copy.
  pub Reach-IsShelf : {s t : repo.Table} → IsShelf repo s → Reach s t → IsShelf repo t
  Reach-IsShelf shelf start = shelf
  Reach-IsShelf shelf (created dto p t u before h) =
      create-IsShelf repo dto t u p (Reach-IsShelf shelf before) h
  Reach-IsShelf shelf (updated id dto p t u before h) =
      update-IsShelf repo id dto t u p (Reach-IsShelf shelf before) h
  Reach-IsShelf shelf (removed is_ordered id t u before h) =
      remove-IsShelf repo is_ordered id t u (Reach-IsShelf shelf before) h
  Reach-IsShelf shelf (sold cart items cents t u before h) =
      reserve-IsShelf repo cart [] items 0 cents t u (Reach-IsShelf shelf before) h
  Reach-IsShelf shelf (returned order t copies before) =
      restore_stock-IsShelf repo order t copies (Reach-IsShelf shelf before)
  Reach-IsShelf shelf (taken_back order t u before h) =
      take_stock_back-IsShelf repo order t u (Reach-IsShelf shelf before) h
