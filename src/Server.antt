-- ===== src/Server.antt =====
-- The request handlers of arqs-server/app/main.py. A handler takes the database and returns the
-- reply with the database that it leaves: `atomically` rolls back on an error, as closing the
-- session of get_db does.
pub mod Identity
pub mod Endpoints
pub mod Links
pub mod Packets
pub mod Inbox
pub mod Stats
pub mod Delivery
pub mod Consistent
