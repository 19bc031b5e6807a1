-- ===== src/Accounts.antt =====
-- The accounts of apps/backend: apps/backend/src/db/queries/users.ts on the table of users,
-- apps/backend/src/routes/auth.ts and the guards of HTTP requests and sockets.
pub mod Text
pub mod Users
pub mod Session
pub mod Register
pub mod Google
pub mod Laws
pub mod Unique
