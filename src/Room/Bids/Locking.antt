-- ===== src/Room/Bids/Locking.antt =====
-- The bid lock of a room and the lock of the Redis client under it.
use ipl_auction_app.Base.{ℕ, Option, none, some}
use ipl_auction_app.Store.Memory.{MemoryEntry}
use ipl_auction_app.Store.Client.{Client}

-- Whose the lock is, without its time.
abbrev pub holder : Option MemoryEntry → Option ℕ
holder none = none
holder (some e) = some e.value
