-- ===== src/Orders.antt =====
-- The order book, backend/src/orders/.
pub mod Entities
pub mod Stock
pub mod Checkout
pub mod Status
pub mod Commission
pub mod Admin
pub mod History
