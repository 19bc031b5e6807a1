-- ===== src/Tests.antt =====
-- Concrete rooms, and the theorems at them.
pub mod Fixtures
pub mod Rules
pub mod Pools
pub mod Rooms
pub mod Bids
pub mod Lobbies
pub mod Stores
pub mod Feeds
pub mod Accounts
pub mod Invites
pub mod Ledgers
pub mod Handlers
pub mod Pages
pub mod Sessions
