-- ===== src/Orders/Admin.antt =====
-- `findAllAdmin` of backend/src/orders/orders.service.ts: which orders the administrator's tabs
-- list, and in what pages. The query's ORDER BY is the parameter `newest_first`.
pub mod Laws
use gall_pr.Common.{ℕ, ◌+◌, ◌-◌, ◌*◌, ◌/◌, max, Bool, true, false, not, List, take, drop, length}
use gall_pr.Orders.Entities.{Order, OrderStatus, Database, Tables}
use gall_pr.Orders.Status.{is_status}

pub data AdminOrderTab : Type 0 where
  active completed : AdminOrderTab

-- `ADMIN_ORDERS_PAGE_SIZE`
abbrev pub admin_orders_page_size : ℕ
admin_orders_page_size = 25

-- `where`
unfoldable pub listed_in : AdminOrderTab → Order → Bool
listed_in completed o = is_status o.status OrderStatus.completed
listed_in active o = not o.is_archived

abbrev is_waiting : Order → Bool
is_waiting o = is_status o.status OrderStatus.pending

pub record Page : Type 0 where
  pub orders : List Order
  pub total : ℕ
  pub pending_total : ℕ
  pub page : ℕ
  pub limit : ℕ
  pub total_pages : ℕ

-- `skip: (page - 1) * limit, take: limit`
unfoldable pub page_of : ℕ → ℕ → List Order → List Order
page_of page limit orders = take limit (drop ((page - 1) * limit) orders)

-- `Math.max(1, Math.ceil(total / limit))`
unfoldable pub total_pages : ℕ → ℕ → ℕ
total_pages total limit = max 1 ((total + limit - 1) / limit)

module _ (db : Database) (newest_first : List Order → List Order) where
  unfoldable pub find_all_admin : AdminOrderTab → ℕ → ℕ → Tables db → Page
  find_all_admin tab page limit s =
      let found = db.orders.find (listed_in tab) s.orders in
      record {
        orders = page_of page limit (newest_first found);
        total = length found;
        pending_total = length (db.orders.find is_waiting s.orders);
        page = page;
        limit = limit;
        total_pages = total_pages (length found) limit;
      }
