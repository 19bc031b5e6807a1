-- ===== src/Players.antt =====
-- The table of players: the upserts of packages/database/seeds/seedPlayers.ts, and
-- apps/backend/src/db/queries/players.ts, from which an auction draws its pool.
pub mod Table
pub mod Once
pub mod Grid
pub mod Seeding
