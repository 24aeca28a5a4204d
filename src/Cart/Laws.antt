-- ===== src/Cart/Laws.antt =====
-- What the operations on the cart write.
use gall_pr.Common.{
  ℕ, ◌≤◌, min, ◌≡◌, refl, eq_iff, sym, ap, subst, ◌∙◌, true, not, Option, none, some, List, [], ◌∷◌,
  ◌++◌, ok, >>=-eq-ok, ok-injective, throw_if-eq-ok, or_throw-eq-ok, or_throw, or_else, ltb, arith,
  throw_if,
}
use gall_pr.Common.Rows.{at_key, first, by_key, by_key-put, first_meets}
use gall_pr.Identity.{Identity, identity_where, user_id, guest_token}
use gall_pr.Orders.Entities.{Painting, CartItem, Database, Tables, painting_key, cart_key}
use gall_pr.Cart.{line_where, new_item, check_for_sale, write_line, add_item, update_item}

check_for_sale_lem :
    (o : Option Painting) (p : Painting)
    → check_for_sale o ≡ ok p
    → (o ≡ some p) × (p.is_available ≡ true) × (1 ≤ p.amount)
unfolding check_for_sale
check_for_sale_lem none p h = cc
check_for_sale_lem (some q) p h = ground arith

module _ (db : Database) where
  -- What an addition or a change has written for the painting.
  pub record Stored (identity : Identity) (painting : ℕ) (s : Tables db) (item : CartItem)
      (s' : Tables db) : Type 0 where
    pub row : Painting
    pub for_painting : item.painting_id ≡ painting
    pub in_cart : identity_where identity item.user_id item.guest_token ≡ true
    pub on_sale : db.paintings.find_one (at_key painting_key painting) s.paintings ≡ some row
    pub available : row.is_available ≡ true
    pub in_stock : 1 ≤ item.quantity
    pub fits : item.quantity ≤ row.amount
    pub saved : by_key cart_key item.id (db.carts.rows s'.carts) ≡ some item

  by_key-save :
      (item : CartItem) (t : db.carts.Table)
      → by_key cart_key item.id (db.carts.rows (db.carts.save item t)) ≡ some item
  by_key-save item t = rw (db.carts.rows-save item t, by_key-put) (ground arith)

  by_key-snoc :
      (item : CartItem) (rows : List CartItem)
      → by_key cart_key item.id rows ≡ none
      → by_key cart_key item.id (rows ++ item ∷ []) ≡ some item
  unfolding by_key first
  by_key-snoc item [] h = ground arith
  by_key-snoc item (x ∷ xs) h = ground (arith, by_key-snoc item xs)

  -- The line is the one of this customer's cart for this painting.
  abbrev IsLine : Identity → ℕ → CartItem → Type 0
  IsLine identity painting item =
      (item.painting_id ≡ painting) × (identity_where identity item.user_id item.guest_token ≡ true)

  line_where-IsLine :
      (identity : Identity) (painting : ℕ) (item : CartItem)
      → line_where identity painting item ≡ true
      → IsLine identity painting item
  line_where-IsLine identity painting item h = (ground (arith, h), ground (arith, h))

  own_line :
      (identity : Identity)
      → identity_where identity (user_id identity) (guest_token identity) ≡ true
  unfolding identity_where
  own_line (Identity.user id) = ground arith
  own_line (Identity.guest token) = (eq_iff _ _).1 refl

  write_line_lem :
      (identity : Identity) (painting quantity : ℕ) (p : Painting) (s s' : Tables db)
      (found : Option CartItem) (item : CartItem)
      → 1 ≤ quantity
      → 1 ≤ p.amount
      → ((old : CartItem) → found ≡ some old → IsLine identity painting old)
      → write_line db identity painting quantity p s found ≡ ok (item, s')
      → IsLine identity painting item
        × (1 ≤ item.quantity)
        × (item.quantity ≤ p.amount)
        × (by_key cart_key item.id (db.carts.rows s'.carts) ≡ some item)
  unfolding write_line
  write_line_lem identity painting quantity p s s' (some old) item asked stock own h =
      subst
        (λ (x : CartItem × Tables db).
          IsLine identity painting x.0
          × (1 ≤ x.0.quantity)
          × (x.0.quantity ≤ p.amount)
          × (by_key cart_key x.0.id (db.carts.rows x.1.carts) ≡ some x.0))
        (ok-injective h) (own old refl, omega arith, omega arith, by_key-save _ s.carts)
  write_line_lem identity painting quantity p s s' none item asked stock own h =
      let ((created, carts), inserted, last) =
        >>=-eq-ok
          (or_throw (db.carts.insert (new_item identity painting (min quantity p.amount)) s.carts)
            _)
          _ h in
      let (rows, shape, fresh) =
        db.carts.rows-insert _ s.carts carts created (or_throw-eq-ok _ _ inserted) in
      let amount : created.quantity ≡ min quantity p.amount =
        ap (λ (c : CartItem). c.quantity) shape in
      subst
        (λ (x : CartItem × Tables db).
          IsLine identity painting x.0
          × (1 ≤ x.0.quantity)
          × (x.0.quantity ≤ p.amount)
          × (by_key cart_key x.0.id (db.carts.rows x.1.carts) ≡ some x.0))
        (ok-injective last)
        (
          (
            ap (λ (c : CartItem). c.painting_id) shape,
            subst (λ (c : CartItem). identity_where identity c.user_id c.guest_token ≡ true)
                (sym shape) (own_line identity),
          ),
          omega (arith, amount),
          omega (arith, amount),
          rw rows (by_key-snoc created _ fresh),
        )

  -- What an addition to the cart stores is a line of this cart for the painting that was asked for,
  -- which is for sale, of at least one copy and no more copies than there are of it, when the
  -- client asks for at least one.
  pub add_item-Stored :
      (identity : Identity) (painting : ℕ) (wanted : Option ℕ) (s s' : Tables db) (item : CartItem)
      → 1 ≤ or_else wanted 1
      → add_item db identity painting wanted s ≡ ok (item, s')
      → Stored identity painting s item s'
  unfolding add_item
  add_item-Stored identity painting wanted s s' item asked h =
      let (p, checked, later) =
        >>=-eq-ok
          (check_for_sale (db.paintings.find_one (at_key painting_key painting) s.paintings)) _ h in
      let (found, available, stock) = check_for_sale_lem _ p checked in
      let (line, least, most, kept) =
        write_line_lem identity painting _ p s s' _ item asked stock
          (λ old e. line_where-IsLine identity painting old (
            first_meets (line_where identity painting) (db.carts.rows s.carts)
              (sym (db.carts.find_one_lem _ s.carts) ∙ e)))
          later in
      record {
        for_painting = line.0;
        in_cart = line.1;
        row = p;
        on_sale = found;
        available = available;
        in_stock = least;
        fits = most;
        saved = kept;
      }

  -- A change of quantity to at least one is stored within the same limits, for the painting of the
  -- row that it changes.
  pub update_item-Stored :
      (identity : Identity) (painting quantity : ℕ) (s s' : Tables db) (item : CartItem)
      → 1 ≤ quantity
      → update_item db identity painting quantity s ≡ ok (item, s')
      → Stored identity painting s item s'
  unfolding update_item
  update_item-Stored identity painting quantity s s' item asked h =
      let (old, found, h1) =
        >>=-eq-ok (or_throw (db.carts.find_one (line_where identity painting) s.carts) _) _ h in
      let (p, loaded, h2) =
        >>=-eq-ok
          (or_throw (db.paintings.find_one (at_key painting_key old.painting_id) s.paintings) _) _
          h1 in
      let (_, sale, h3) = >>=-eq-ok (throw_if (not p.is_available) _) _ h2 in
      let (_, enough, last) = >>=-eq-ok (throw_if (ltb p.amount quantity) _) _ h3 in
      let e1 = throw_if-eq-ok _ _ sale in
      let e2 = throw_if-eq-ok _ _ enough in
      let met =
        first_meets (line_where identity painting) (db.carts.rows s.carts)
          (sym (db.carts.find_one_lem _ s.carts) ∙ or_throw-eq-ok _ _ found) in
      let same : old.painting_id ≡ painting = ground arith in
      subst (λ (x : CartItem × Tables db). Stored identity painting s x.0 x.1) (ok-injective last)
        (record {
          for_painting = same;
          in_cart = (line_where-IsLine identity painting old met).1;
          row = p;
          on_sale =
              subst (λ n. db.paintings.find_one (at_key painting_key n) s.paintings ≡ some p) same
                (or_throw-eq-ok _ _ loaded);
          available = ground arith;
          in_stock = asked;
          fits = ground arith;
          saved = by_key-save _ s.carts;
        })
