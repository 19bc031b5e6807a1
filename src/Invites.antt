-- ===== src/Invites.antt =====
-- The rooms of the server and their invite codes: `createRoom` and `getRoomByCode` of
-- apps/backend/src/db/queries/rooms.ts, and apps/backend/src/routes/rooms.ts.
pub mod Codes
pub mod Routes
pub mod Laws
pub mod Joining
pub mod Recent
pub mod Squads
