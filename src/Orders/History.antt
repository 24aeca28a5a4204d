-- ===== src/Orders/History.antt =====
-- The order book over time: the operations of backend/src/orders/orders.service.ts as steps that
-- customers and administrators take in any order.
pub mod Conservation
pub mod Ledger
use gall_pr.Common.{ℕ, String, ◌≡◌, Option, List, Result, ok, map, Distinct}
use gall_pr.Identity.{Identity}
use gall_pr.NovaPoshta.{Api}
use gall_pr.Orders.Entities.{Order, OrderStatus, PaymentStatus, Database, Tables, cart_painting}
use gall_pr.Orders.Checkout.{CheckoutDto, Notice, checkout}
use gall_pr.Orders.Checkout.Laws.{cart_of}
use gall_pr.Orders.Status.{
  cancel, update_status_admin, update_payment_status_admin, archive_admin, remove_admin,
  claim_guest_orders,
}
use gall_pr.Orders.Commission.{CreateCommissionDto, create_commission}

-- One request that succeeds. (One that fails leaves the tables as they were.) The cart's unique
-- indexes on owner and painting are the premise of `checks_out`.
pub data Step (db : Database) : Tables db → Tables db → Type 0 where
  checks_out :
      {s s' : Tables db} (api : Api) (sender : String) (identity : Identity) (dto : CheckoutDto)
      (order : Order) (notices : List Notice)
      → Distinct (map cart_painting (cart_of db identity s))
      → checkout db api sender identity dto s ≡ ok (order, s', notices)
      → Step db s s'
  commissions :
      {s s' : Tables db} (api : Api) (identity : Identity) (dto : CreateCommissionDto)
      (order : Order) (notices : List Notice)
      → create_commission db api identity dto s ≡ ok (order, s', notices)
      → Step db s s'
  cancels :
      {s s' : Tables db} (identity : Identity) (id : ℕ) (order : Order) (notices : List Notice)
      → cancel db identity id s ≡ ok (order, s', notices)
      → Step db s s'
  sets_status :
      {s s' : Tables db} (id : ℕ) (status : OrderStatus) (tracking : Option String) (order : Order)
      (notices : List Notice)
      → update_status_admin db id status tracking s ≡ ok (order, s', notices)
      → Step db s s'
  sets_payment :
      {s s' : Tables db} (id : ℕ) (payment : PaymentStatus) (order : Order) (notices : List Notice)
      → update_payment_status_admin db id payment s ≡ ok (order, s', notices)
      → Step db s s'
  archives :
      {s s' : Tables db} (id : ℕ) (order : Order)
      → archive_admin db id s ≡ ok (order, s')
      → Step db s s'
  removes : {s s' : Tables db} (id : ℕ) → remove_admin db id s ≡ ok s' → Step db s s'
  claims :
      {s s' : Tables db} (user : ℕ) (token : String)
      → claim_guest_orders db user token s ≡ s'
      → Step db s s'

pub data Reach (db : Database) (s : Tables db) : Tables db → Type 0 where
  here : Reach db s s
  next : {t u : Tables db} → Reach db s t → Step db t u → Reach db s u
