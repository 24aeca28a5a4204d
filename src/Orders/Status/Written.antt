-- ===== src/Orders/Status/Written.antt =====
-- What an administrator's change of status writes into the order, whichever way it takes.
use gall_pr.Common.{
  List, ◌≡◌, refl, sym, ◌∙◌, subst, inl, inr, String, true, false, Option, some, ok, ◌>>=◌,
  >>=-eq-ok, ok-injective, Bool-cases, arith, trimmed, or_throw, or_throw-eq-ok, trim, non_empty,
  some_eq, none, ◌≢◌, ap,
}
use gall_pr.Orders.Entities.{order_key, Order, OrderStatus, Database, Tables}
use gall_pr.Orders.Stock.{take_stock_back}
use gall_pr.Common.Rows.{at_key, by_key, by_key-put}
use gall_pr.Orders.Status.{
  is_status, order_missing, update_status_admin, with_tracking, commit_cancel, commit_restore,
  write_status,
}

-- The waybill number is what was sent, without the blanks around it, and not empty.
abbrev pub IsWaybill : Option String → String → Type 0
IsWaybill tracking ttn = (sent : String) × (tracking ≡ some sent) × (ttn ≡ trim sent) × (ttn ≢ "")

filled-eq : (s t : String) → non_empty s ≡ some t → (t ≡ s) × (t ≢ "")
unfolding non_empty
filled-eq String.[] t h = absurd (cc h)
filled-eq (String.◌∷◌ x s) t h = (sym (some_eq h), λ e. absurd (cc (h, e)))

trimmed-IsWaybill : (o : Option String) (t : String) → trimmed o ≡ some t → IsWaybill o t
unfolding trimmed
trimmed-IsWaybill none t h = absurd (cc h)
trimmed-IsWaybill (some s) t h = let (e, filled) = filled-eq (trim s) t h in (s, refl, e, filled)

-- The waybill is written with the change to SHIPPED, and only then.
pub record Tracked (status : OrderStatus) (tracking : Option String) (row order : Order)
    : Type 0 where
  pub same_archive : order.is_archived ≡ row.is_archived
  pub same_status : order.status ≡ row.status
  pub untouched : is_status status OrderStatus.shipped ≡ false → order ≡ row
  pub waybill :
      is_status status OrderStatus.shipped ≡ true
      → (ttn : String) × IsWaybill tracking ttn × (order.tracking_number ≡ some ttn)

pub with_tracking-Tracked :
    (status : OrderStatus) (tracking : Option String) (row order : Order)
    → with_tracking status tracking row ≡ ok order
    → Tracked status tracking row order
unfolding with_tracking
with_tracking-Tracked status tracking row order h =
    elim (Bool-cases (is_status status OrderStatus.shipped)) [
      | inl shipping ↦
          let h' : (or_throw (trimmed tracking) _ >>= λ ttn.
          ok (record row { tracking_number = some ttn }))
              ≡ ok order =
            rw shipping at h in
          let (ttn, found, last) = >>=-eq-ok (or_throw (trimmed tracking) _) _ h' in
          subst (Tracked status tracking row) (ok-injective last) (record {
            same_archive = refl;
            same_status = refl;
            untouched = λ e. cc;
            waybill = λ e. (ttn, trimmed-IsWaybill tracking ttn (or_throw-eq-ok _ _ found), refl);
          })
      | inr other ↦ subst (Tracked status tracking row) (ok-injective (rw other at h)) (record {
        same_archive = refl;
        same_status = refl;
        untouched = λ e. refl;
        waybill = λ e. cc;
      })
    ]

pub is_status-eq : (a b : OrderStatus) → is_status a b ≡ true → a ≡ b
is_status-eq a b h = ground arith

module _ (db : Database) where
  pub record Written (status : OrderStatus) (order : Order) (s : Tables db) (order' : Order)
      (s' : Tables db) : Type 0 where
    pub same_archive : order'.is_archived ≡ order.is_archived
    pub same_tracking : order'.tracking_number ≡ order.tracking_number
    pub new_status : order'.status ≡ status
    pub saved : s'.orders ≡ db.orders.save order' s.orders

  pub write_status-Written :
      (status : OrderStatus) (order order' : Order) (s s' : Tables db)
      → write_status db status order s ≡ ok (order', s')
      → Written status order s order' s'
  unfolding write_status commit_cancel commit_restore
  write_status-Written status order order' s s' h =
      let P = λ (x : Order × Tables db). Written status order s x.0 x.1 in
      elim (Bool-cases (is_status order.status OrderStatus.cancelled)) [
        | inl was ↦ elim (Bool-cases (is_status status OrderStatus.cancelled)) [
          | inl will ↦ subst P (ok-injective (rw (was, will) at h)) (record {
            same_archive = refl;
            same_tracking = refl;
            new_status = refl;
            saved = refl;
          })
          | inr wont ↦
              let h' : commit_restore db status order s ≡ ok (order', s') = rw (was, wont) at h in
              let (paintings, taken, last) =
                >>=-eq-ok (take_stock_back db.paintings order s.paintings) _ h' in
              subst P (ok-injective last) (record {
                same_archive = refl;
                same_tracking = refl;
                new_status = refl;
                saved = refl;
              })
        ]
        | inr live ↦ elim (Bool-cases (is_status status OrderStatus.cancelled)) [
          | inl will ↦ subst P (ok-injective (rw (live, will) at h)) (record {
            same_archive = refl;
            same_tracking = refl;
            new_status = sym (is_status-eq status OrderStatus.cancelled will);
            saved = refl;
          })
          | inr wont ↦ subst P (ok-injective (rw (live, wont) at h)) (record {
            same_archive = refl;
            same_tracking = refl;
            new_status = refl;
            saved = refl;
          })
        ]
      ]

  -- What a change of status that takes place leaves in the order.
  pub update_status-Written :
      (id : _) (status : OrderStatus) (tracking : Option String) (row order : Order)
      (s s' : Tables db) (notices : List _)
      → or_throw (db.orders.find_one (at_key order_key id) s.orders) order_missing ≡ ok row
      → is_status row.status status ≡ false
      → update_status_admin db id status tracking s ≡ ok (order, s', notices)
      → (row' : Order) × Tracked status tracking row row' × Written status row' s order s'
  unfolding update_status_admin
  update_status-Written id status tracking row order s s' notices found changed h =
      let (found_row, found', later) =
        >>=-eq-ok (or_throw (db.orders.find_one (at_key order_key id) s.orders) order_missing) _
          h in
      let same : found_row ≡ row = ok-injective (sym found' ∙ found) in
      let other : is_status found_row.status status ≡ false =
        subst (λ (r : Order). is_status r.status status ≡ false) (sym same) changed in
      let (row', tracked, rest) =
        >>=-eq-ok (with_tracking status tracking found_row) _ (rw other at later) in
      let ((updated, t), written, last) = >>=-eq-ok (write_status db status row' s) _ rest in
      (
        row',
        subst (λ r. Tracked status tracking r row') same
            (with_tracking-Tracked status tracking found_row row' tracked),
        subst (λ (x : Order × Tables db × List _). Written status row' s x.0 x.1)
            (ok-injective last) (write_status-Written status row' updated s t written),
      )

  -- An order that was not shipped and that the administrator sets to SHIPPED is shipped and carries
  -- the waybill number that was sent, without the blanks around it and not empty, and is in the
  -- table like this.
  pub update_status-ships :
      (id : _) (tracking : Option String) (row order : Order) (s s' : Tables db) (notices : List _)
      → or_throw (db.orders.find_one (at_key order_key id) s.orders) order_missing ≡ ok row
      → is_status row.status OrderStatus.shipped ≡ false
      → update_status_admin db id OrderStatus.shipped tracking s ≡ ok (order, s', notices)
      → (order.status ≡ OrderStatus.shipped)
        × ((ttn : String) × IsWaybill tracking ttn × (order.tracking_number ≡ some ttn))
        × (by_key order_key order.id (db.orders.rows s'.orders) ≡ some order)
  update_status-ships id tracking row order s s' notices found changed h =
      let (row', tracked, written) =
        update_status-Written id OrderStatus.shipped tracking row order s s' notices found changed
          h in
      let (ttn, waybill, e) = tracked.waybill refl in
      (
        written.new_status,
        (ttn, waybill, written.same_tracking ∙ e),
        ap (λ t. by_key order_key order.id (db.orders.rows t)) written.saved
            ∙ ap (by_key order_key order.id) (db.orders.rows-save order s.orders)
            ∙ by_key-put order_key order.id order (db.orders.rows s.orders)
            ∙ ground arith,
      )
