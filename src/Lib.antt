-- ===== src/Lib.antt =====
-- The shop of gall-pr: its order book, cart, delivery prices, outbox of letters, accounts, likes
-- and support chat, as the NestJS services under backend/src define them.
--
-- A request comes from an account or from a guest (Identity, backend/src/common/identity.util.ts).
-- Paintings go into a cart (Cart, backend/src/cart/cart.service.ts); a checkout
-- (Orders.Checkout, `checkout` of backend/src/orders/orders.service.ts) asks Nova Poshta for the
-- address and the price (NovaPoshta, backend/src/nova-poshta/nova-poshta.service.ts), takes the
-- stock (Orders.Stock: `stockOrder`, `restoreStock`, `takeStockBack` and the loop of `checkout`) and
-- writes the order. Orders.Status has what happens to it later (`cancel`, `updateStatusAdmin`,
-- `updatePaymentStatusAdmin`, `archiveAdmin`, `removeAdmin`, `claimGuestOrders`), Orders.Commission
-- has `createCommission`, Orders.Admin has `findAllAdmin`, and Orders.History is the order book over
-- time, as steps that these operations take in any order. Orders.Entities has the rows
-- (backend/src/orders/entities, backend/src/paintings/entities, backend/src/cart/entities).
-- Letters are recorded by `send` (Mail, backend/src/mail/mail.service.ts) and sent by the drain
-- (Mail.Dispatcher, backend/src/mail/mail.dispatcher.ts). Accounts sign in, refresh and change
-- passwords in Auth (backend/src/auth/auth.service.ts): Auth.Sessions and Auth.Passwords.
--
-- Likes has the favourites and their counter (backend/src/likes/likes.service.ts, and what
-- `remove` of backend/src/users/users.service.ts takes off). Support.Chats has the conversations
-- (backend/src/support/support.service.ts), Support.RateLimit the windows that meter messages
-- (support-rate-limit.service.ts beside it), and Support.Gateway the handlers of the socket
-- (support.gateway.ts). Identity also checks the shape of a guest token.
--
-- Paintings has the catalogue (backend/src/paintings/paintings.service.ts), Giveaways the draws and
-- who joins them (backend/src/giveaways/giveaways.service.ts), and Users the deletion of an account
-- over all these tables (`remove` of backend/src/users/users.service.ts). Settings has the row of
-- settings, the administrator's link code and the questions
-- (backend/src/settings/settings.service.ts), and ExchangeRate the cached rate of the dollar
-- (backend/src/exchange-rate/exchange-rate.service.ts). Reviews has what customers write about
-- their orders (backend/src/reviews/reviews.service.ts), Uploads which files are taken as images
-- (backend/src/uploads/uploads.service.ts, backend/src/common/upload.options.ts), and Proxy whose
-- address a request has (backend/src/config/proxy.ts).
--
-- How the state is modelled. A table is a parameter, an implementation of Common.Repository, which
-- states what TypeORM's calls select and leave; the operations take the tables and return them. A
-- transaction is one step; Orders.Status.Race takes `cancel` apart, since it reads before its
-- transaction. Where a request looks a row up and then inserts it, what others commit in between is
-- an argument, `meanwhile` (and `racing`, where TypeORM's `save` looks as well). A thrown exception is a value of Failure. Where a request that fails may have
-- written, the tables are returned beside the result. Work that is started and not waited for is
-- returned as a list of notices. Amounts are exact decimals (Common.Amounts). Every loop runs over
-- a list that is read before it, so no fuel is needed.
--
-- Parameters: the answers of Nova Poshta over HTTP, SMTP, the signing and hashing libraries, the
-- clock, random values, lower and upper case, the words of a name, the order of a sorted query, the
-- plain text of an HTML letter, the cut of a text to its column, the answers of the National Bank
-- and of the storage of images, and the foreign key that keeps a painting that was ordered.
--
-- Not modelled: row locks and interleavings inside a transaction, binary floating point below a
-- hundredth, upload of payment proofs, letter templates, registration and Google sign-in,
-- series, materials, techniques, news, analytics, the Telegram bot, controllers, what the socket
-- emits, and the web client.
--
-- Examples instantiates the tables by lists and runs the operations on a small shop.
pub mod Common
pub mod Identity
pub mod NovaPoshta
pub mod Orders
pub mod Cart
pub mod Mail
pub mod Auth
pub mod Examples
pub mod Likes
pub mod Paintings
pub mod Giveaways
pub mod Users
pub mod ExchangeRate
pub mod Reviews
pub mod Uploads
pub mod Proxy
pub mod Settings
pub mod Support
