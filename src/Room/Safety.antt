-- ===== src/Room/Safety.antt =====
-- The safety of a whole auction: what every step of the room keeps.
pub mod Invariant
pub mod Loads
pub mod Frame
pub mod Sales
pub mod Rounds
pub mod Bidding
pub mod Accepting
pub mod Control
pub mod Start
pub mod History
