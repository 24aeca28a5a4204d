-- ===== src/Support.antt =====
-- backend/src/support: the conversations with the studio.
pub mod RateLimit
pub mod Chats
pub mod Gateway
