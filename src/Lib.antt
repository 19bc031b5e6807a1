-- ===== src/Lib.antt =====
-- The live player auction of the repository: the squad rules, the room of one auction with its engine,
-- timer, bids, host and lobby, the copy of it that a browser keeps, the Redis client under it, and the
-- accounts and rooms of the server.
--
-- The parts and their files:
-- - Rules: packages/shared/src/types, packages/shared/src/constants/auction.ts and
--   packages/shared/src/validators/bidEligibility.ts. `can_bid` is `canBid`. Rules/Caps states the rules
--   of the tournament one by one and compares them with the code.
-- - Franchise: the pure part of apps/backend/src/services/franchiseStateService.ts. `deducted` is the
--   object `updated` of `deductFromFranchiseState`, `rebuilt` that of `rebuildFranchiseStateFromDB`.
-- - Pool: packages/shared/src/constants/pool.constants.ts, and the shuffle and the calibrated pool of
--   apps/backend/src/services/queueManager.ts.
-- - Room/State: one room as a record of its Redis keys (apps/backend/src/redis/keys.ts), its rows
--   (packages/database/migrations), its timer, the tasks that wait, the messages sent and the clock.
-- - Room/Rows: apps/backend/src/db/queries/rooms.ts and auction.ts on the rows, with the constraints. That
--   on franchises is an argument, since packages/database/src/fix_constraint.js replaces the migration's.
--   Room/Lobby/Members: the members and the host of a room through joins, choices, departures and sales.
-- - Room/Wallets, Room/Queue, Room/Timer, Room/Engine, Room/Host, Room/Bids: the services
--   franchiseStateService.ts, queueManager.ts, timerService.ts, auctionEngine.ts,
--   hostDeadManService.ts and bidValidator.ts of apps/backend/src/services, with
--   apps/backend/src/socket/handlers/auctionHandler.ts and apps/backend/src/redis/lock.ts.
-- - Room/Lobby: apps/backend/src/socket/handlers/roomHandler.ts and disconnectHandler.ts, and
--   apps/backend/src/services/teardownService.ts. Room/Tasks resumes what waits.
-- - Room/Safety: the invariant of a room with an auction, through every step. Room/Faults: where the
--   room does other than its comments say. Room/Overtaken: the bid handler with the engine in between.
-- - Room/Interleaving: bid handlers that run at once, cut at the calls that they await. A list of events
--   says whose turn it is, or what else happens to the room.
-- - Room/Progress: the rounds of an auction, from a player on the block to the next. `round` is the
--   timer's deadline and the pauses of the engine behind it.
-- - Client: apps/frontend/src/stores/auctionStore.ts and apps/frontend/src/hooks/useBidEligibility.ts.
--   Client/Feed: the listeners of apps/frontend/src/hooks/useAuction.ts, which play the room's messages
--   into the store. Client/Sync: `auction:state_sync_request` of auctionHandler.ts.
--   Client/LockerRoom is the lobby page of apps/frontend/src/app/room/[roomCode], Client/FranchisePicker
--   its franchise page with apps/frontend/src/components/room/FranchiseGrid.tsx, Client/BidButton,
--   Client/Presence and Client/Rosters parts of its auction and results pages. Client/SignedIn:
--   apps/frontend/src/lib/api.ts, lib/socketClient.ts and hooks/useAuth.ts.
-- - Store: apps/backend/src/redis/client.ts, the Redis client with its store in memory, and the lock of
--   apps/backend/src/redis/lock.ts on top of it. Store/Client has every operation over a server that may
--   fail, Store/Memory the entries with their expiry, Store/Spec the abstract lock.
-- - Accounts: the table of users of apps/backend/src/db/queries/users.ts, apps/backend/src/routes/auth.ts
--   and the guards apps/backend/src/middleware/auth.ts and
--   apps/backend/src/socket/middleware/socketAuth.ts. Accounts/Text has the string methods.
-- - Invites: the rooms of the server with their codes (`createRoom`, `getRoomByCode` of
--   apps/backend/src/db/queries/rooms.ts) and apps/backend/src/routes/rooms.ts.
-- - Ledger: apps/backend/src/db/queries/history.ts and apps/backend/src/routes/history.ts, on the rooms
--   of Invites. Ledger/Deals is the life of a room as far as its purses go.
-- - Players: the table of players, with packages/database/seeds/seedPlayers.ts, which fills it, and
--   apps/backend/src/db/queries/players.ts, which reads it for a pool. Players/Grid reads the workbook.
-- - Base: what the parts share. Tests: concrete rooms, clients and accounts.
--
-- How the parts interact: a handler is a function on the room. The bid handler checks, takes the lock,
-- writes Redis and restarts the timer; the timer's tick runs the engine, which deducts the sale from the
-- franchise state in Redis, moves the queue on and leaves the durable write as a task; the next player
-- is presented by a task after the pause. The host's controls and the dead man's switch act on the same
-- timer. A handler is one step; the engine is cut at its sleeps, and the bid handler at the lock, and in
-- Room/Interleaving at every call behind it, each command of its pipeline included. The room's messages
-- reach the browser's store through Client/Feed. Room holds its Redis keys as fields; Store is what is
-- below them, the keys of one process and the server it shares. The bid lock of a room is that of a
-- process whose Redis server is out (Room/Bids/Locking compares the two); with a healthy server the
-- process goes on refusing a lock that was given back, which Store has and the room leaves out.
--
-- Bounds: amounts are whole lakhs, which are natural numbers, and a wallet is an integer, since a sale is
-- deducted without a check; the numbers stay far below 2 ^ 53, so nothing wraps around. Ids are numbers.
-- Percentages of the pool are rounded on integers, half up, as Math.round does, and 25 * 1.4 is exactly
-- 35. Every loop runs over a list or an index that falls, so no fuel is needed. Strings of accounts and
-- codes are lists of ASCII code units; keys, fields and values of Store are only compared, and are
-- numbers, with none for the empty string.
--
-- Parameters: the draws of Math.random (`draw k i`), the ids, salts and suffixes that are drawn, the
-- tokens of locks and recovery windows, the players that the database returns, ioredis (`RawRedis`),
-- bcryptjs (`Bcrypt`), jsonwebtoken (`Jwt`), `atob` with `JSON.parse` (`Parser`), and the floating point
-- numbers of the workbook's prices (`Floats`).
--
-- Not modelled: in a room, the expiry of Redis keys and failures of Redis and PostgreSQL; other rooms,
-- except in Invites and Ledger; timestamps and texts of messages, logging, rendering, the redirects of
-- Google's sign-in, the forms and filters of the other pages, and the scripts that migrate the
-- database; packages/database/seeds/seed.js, which repeats seedPlayers.ts. They are transport, display,
-- files or calls of libraries.
pub mod Base
pub mod Rules
pub mod Franchise
pub mod Pool
pub mod Room
pub mod Accounts
pub mod Invites
pub mod Ledger
pub mod Players
pub mod Store
pub mod Client
pub mod Tests
