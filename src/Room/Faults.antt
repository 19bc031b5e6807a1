-- ===== src/Room/Faults.antt =====
-- Where the room does other than its comments say, for the class of rooms that shows it.
use ipl_auction_app.Base.{
  ℕ, ◌≡◌, ◌≢◌, ◌≤◌, ◌∙◌, ap, true, false, none, some, or_else, leb, arith, find,
}
use ipl_auction_app.Rules.Types.{FranchiseName, FranchiseState, same_refl}
use ipl_auction_app.Franchise.{deducted}
use ipl_auction_app.Room.State.{RoomStatus, Room, QueueEntry, Member, Db, World, set_redis}
use ipl_auction_app.Room.Rows.{
  get_room_member_by_franchise, migrated, add_member_to_room, of_user, is_unselected,
  remove_member_from_room,
}
use ipl_auction_app.Room.Wallets.{set_franchise_state}
use ipl_auction_app.Room.Queue.{get_next_player}
use ipl_auction_app.Room.Engine.{process_player_sold, handle_timer_expiry, run_expiry, expire_next}
use ipl_auction_app.Room.Host.{HostAction, skip, forget_timer, run_action, host_control}
use ipl_auction_app.Room.Lobby.{teardown_manager, run_teardown}
use ipl_auction_app.Room.Safety.Invariant.{IsCached}
use ipl_auction_app.Room.Safety.Frame.{Keeps-IsCached, get_next-KeepsBlock, get_next_db}
use ipl_auction_app.Room.Safety.Control.{forget-KeepsBlock}
use ipl_auction_app.Room.Timer.{set_auction_state}
use ipl_auction_app.Room.Safety.Sales.{sold-Same}

-- The teardown of anyone but the host in an active room deletes the room's bid lock, whoever holds
-- it, unless a teardown of that user is running already.
pub teardown-releases :
    (token user : ℕ) (r : Room) (w : World)
    → w.db.room ≡ some r
    → r.status ≡ RoomStatus.active
    → r.host_user_id ≢ user
    → w.redis.teardown_lock user ≡ false
    → (teardown_manager token user w).1.redis.bid_lock ≡ none
unfolding teardown_manager run_teardown remove_member_from_room
teardown-releases token user r w e a h l = ground arith

-- Under the migration's constraint, while a member of the room has no franchise, a user who has no row in it cannot be added: the
-- insertion fails.
pub add_member-unselected :
    (id user : ℕ) (m : Member) (db : Db)
    → find is_unselected db.members ≡ some m
    → find (of_user user) db.members ≡ none
    → add_member_to_room migrated id user db ≡ none
unfolding add_member_to_room
add_member-unselected id user m db u n = ground arith

-- An expiry over a bid at or above the base price sells the entry's player to the standing bidder.
expiry-sells :
    (e : QueueEntry) (price : ℕ) (f : FranchiseName) (s : FranchiseState) (m : Member) (w : World)
    → IsCached w
    → w.redis.franchise_state f ≡ some s
    → get_room_member_by_franchise f w.db ≡ some m
    → w.redis.current_bidder ≡ some f
    → w.redis.current_bid ≡ some price
    → e.player.base_price_lakhs ≤ price
    → (handle_timer_expiry e w).redis.franchise_state f ≡ some (deducted s price e.player)
unfolding handle_timer_expiry set_franchise_state set_redis
expiry-sells e price f s m w c h k b p base =
    let sold = sold-Same e price f s m w c h k in
    let reached : leb e.player.base_price_lakhs (or_else w.redis.current_bid 0) ≡ true =
      ground arith in
    ground (arith, sold.states f, same_refl f)

-- The room in which a skip resolves the player: the timer's keys are gone, the queue is cached.
abbrev skipping : World → World
skipping w = (get_next_player (forget_timer w)).1

host_control_host :
    (r : Room) (a : HostAction) (w : World)
    → w.db.room ≡ some r
    → host_control r.host_user_id a w ≡ run_action a w
unfolding host_control
host_control_host r a w room = ground arith

skip-expiry :
    (e : QueueEntry) (r : Room) (w : World)
    → w.db.room ≡ some r
    → (get_next_player w).0 ≡ some e
    → host_control r.host_user_id skip w ≡ handle_timer_expiry e (skipping w)
unfolding run_action run_expiry expire_next
skip-expiry e r w room next =
    host_control_host r skip w room
    ∙ ap (λ o. expire_next (o, skipping w)) ((forget-KeepsBlock w).next ∙ next)

skip-sells :
    (e : QueueEntry) (price : ℕ) (f : FranchiseName) (s : FranchiseState) (m : Member) (r : Room)
    (w : World)
    → IsCached w
    → w.redis.franchise_state f ≡ some s
    → get_room_member_by_franchise f w.db ≡ some m
    → w.redis.current_bidder ≡ some f
    → w.redis.current_bid ≡ some price
    → w.db.room ≡ some r
    → (get_next_player w).0 ≡ some e
    → e.player.base_price_lakhs ≤ price
    → (host_control r.host_user_id skip w).redis.franchise_state f
      ≡ some (deducted s price e.player)
unfolding forget_timer
skip-sells e price f s m r w c h k b p room next base =
    let kept = forget-KeepsBlock w in
    let cached = get_next-KeepsBlock (forget_timer w) in
    ap (λ (v : World). v.redis.franchise_state f) (skip-expiry e r w room next)
    ∙ expiry-sells e price f s m (skipping w)
        (Keeps-IsCached cached.teams (Keeps-IsCached kept.teams c)) (cached.teams.states f ∙ h)
        (ap (get_room_member_by_franchise f) (get_next_db (forget_timer w)) ∙ k) (cached.bidder ∙ b)
        (cached.bid ∙ p) base

module _ (e : QueueEntry) (price : ℕ) (f : FranchiseName) (s : FranchiseState) (m : Member)
    (w : World) (c : IsCached w) (h : w.redis.franchise_state f ≡ some s)
    (k : get_room_member_by_franchise f w.db ≡ some m) where
  sold_state :
      (process_player_sold e price f w).redis.franchise_state f ≡ some (deducted s price e.player)
  unfolding set_franchise_state set_redis
  sold_state = ground (arith, (sold-Same e price f s m w c h k).states f, same_refl f)

  sold-IsCached : IsCached (process_player_sold e price f w)
  unfolding set_franchise_state set_redis set_auction_state get_room_member_by_franchise
  sold-IsCached g q =
      let same = sold-Same e price f s m w c h k in ground (arith, same, same.states g, c g)

-- After a sale to the standing bidder, whose state is cached and who is a member before and after it, a
-- skip by the host before the queue moves on sells the next player as well, to the same franchise at
-- the same price, if that reaches the base price: nobody has bid on that player, and no squad rule is
-- asked.
pub skip-sells_next :
    (e e' : QueueEntry) (price : ℕ) (f : FranchiseName) (s : FranchiseState) (m m' : Member)
    (r : Room) (w : World)
    → IsCached w
    → w.redis.franchise_state f ≡ some s
    → get_room_member_by_franchise f w.db ≡ some m
    → w.redis.current_bidder ≡ some f
    → w.redis.current_bid ≡ some price
    → (process_player_sold e price f w).db.room ≡ some r
    → get_room_member_by_franchise f (process_player_sold e price f w).db ≡ some m'
    → (get_next_player (process_player_sold e price f w)).0 ≡ some e'
    → e'.player.base_price_lakhs ≤ price
    → (host_control r.host_user_id skip (process_player_sold e price f w)).redis.franchise_state f
      ≡ some (deducted (deducted s price e.player) price e'.player)
unfolding set_franchise_state set_auction_state set_redis
skip-sells_next e e' price f s m m' r w c h k b p room member next base =
    let sold = process_player_sold e price f w in
    let same = sold-Same e price f s m w c h k in
    skip-sells e' price f (deducted s price e.player) m' r sold
      (sold-IsCached e price f s m w c h k) (sold_state e price f s m w c h k) member
      (same.bidder ∙ b) (same.bid ∙ p) room next base
