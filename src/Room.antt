-- ===== src/Room.antt =====
-- One room: its hot state in Redis, its rows in PostgreSQL, and the process memory around them.
pub mod State
pub mod Rows
pub mod Wallets
pub mod Queue
pub mod Timer
pub mod Engine
pub mod Bids
pub mod Host
pub mod Lobby
pub mod Tasks
pub mod Faults
pub mod Overtaken
pub mod Interleaving
pub mod Safety
pub mod Progress
