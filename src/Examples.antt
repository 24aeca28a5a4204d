-- ===== src/Examples.antt =====
-- Concrete runs: a database whose tables are lists, a small shop in it, and the theorems of the
-- library applied to requests that it answers.
pub mod Tables
pub mod Shop
mod Sales
mod Changes
mod Delivery
mod Carts
mod Letters
mod Accounts
mod Hearts
mod Chats
mod Sockets
mod Catalogue
mod Draws
mod Departure
mod Office
mod Opinions
