-- ===== src/Tests/Bids.antt =====
-- Bids, a skip and a short auction.
use ipl_auction_app.Base.{◌≡◌, refl, arith, [], ◌∷◌, some}
use ipl_auction_app.Rules.Types.{mumbai_indians, chennai_super_kings, same}
use ipl_auction_app.Rules.Eligibility.{can_bid}
use ipl_auction_app.Pool.{
  generate_calibrated_player_pool, calculate_pool_size, select_pool, fisher_yates_shuffle,
  choose_by_role, top_off, choose, push_all, of_role, used, role_code,
}
use ipl_auction_app.Franchise.{initial_state, deducted, price_tier}
use ipl_auction_app.Franchise.Laws.{IsLegal}
use ipl_auction_app.Room.State.{World, set_redis, set_db, emit, spawn}
use ipl_auction_app.Room.Rows.{
  get_room_member_by_franchise, is_room_member, update_queue_entry, advance_queue_position,
  current_position, queue_rows, set_status, insert_auction_queue, reset_queue_position,
  append_bid_event,
}
use ipl_auction_app.Room.Wallets.{
  load_franchise_state, deduct_from_franchise_state, set_franchise_state, init_all_franchise_states,
  init_states,
}
use ipl_auction_app.Room.Timer.{
  set_auction_state, start_timer, reset_timer, seconds_until, clear_timer,
}
use ipl_auction_app.Room.Queue.{
  get_next_player, advance_queue, initialize_queue, queue_entries, detect_phase_transition,
  rebuild_queue,
}
use ipl_auction_app.Room.Engine.{
  process_player_sold, complete_sale, start_auction, tick, advance_to_next_player, next_up,
  present_player, run_expiry, expire_next, handle_timer_expiry,
}
use ipl_auction_app.Room.Bids.{
  BidRequest, check_bid, validate_bid, place_bid, after_check, commit_bid, acquire_bid_lock,
  write_bid, release_bid_lock,
}
use ipl_auction_app.Room.Host.{skip, host_control}
use ipl_auction_app.Room.Safety.Invariant.{IsCached}
use ipl_auction_app.Room.Safety.Accepting.{Outcome, place_bid-Outcome}
use ipl_auction_app.Room.Safety.Start.{IsFresh}
use ipl_auction_app.Room.Safety.History.{here, next, bids, clock, ticks, auction-IsLegal}
use ipl_auction_app.Room.Faults.{skip-sells_next}
use ipl_auction_app.Room.Overtaken.{overtaken_bid, overtaken_bid-stands}
use ipl_auction_app.Room.Progress.{round}
use ipl_auction_app.Room.Progress.Rounds.{IsOver}
use ipl_auction_app.Room.Progress.Ending.{ended, bid, passes}
use ipl_auction_app.Room.Progress.Start.{start_auction-IsOver}
use ipl_auction_app.Tests.Fixtures.{
  opener, keeper, guest_member, active_room, first_entry, second_entry, untouched, open_world,
  host_bid,
}

open_world-IsCached : IsCached open_world
open_world-IsCached f h = cc

place_bid-Outcome_example : Outcome host_bid open_world (place_bid 5 host_bid open_world)
place_bid-Outcome_example = place_bid-Outcome 5 host_bid open_world open_world-IsCached

-- The guest buys the keeper; the host skips; the guest has the opener too.
skip-sells_next_example :
    (host_control 1 skip
        (process_player_sold first_entry 60 chennai_super_kings open_world)).redis.franchise_state
      chennai_super_kings
    ≡ some (deducted (deducted (initial_state chennai_super_kings) 60 keeper) 60 opener)
unfolding get_room_member_by_franchise same process_player_sold get_next_player advance_queue
    update_queue_entry advance_queue_position set_auction_state deduct_from_franchise_state
    load_franchise_state current_position set_franchise_state
skip-sells_next_example =
    skip-sells_next first_entry second_entry 60 chennai_super_kings
      (initial_state chennai_super_kings) guest_member guest_member
      (record active_room { current_queue_position = 1 }) open_world open_world-IsCached refl refl
      refl refl refl refl refl (omega arith)

untouched-IsFresh : IsFresh untouched
untouched-IsFresh = record { no_states = λ f. refl; no_timer = refl }

abbrev opener_bid : BidRequest
opener_bid = record {
  user_id = 1;
  franchise = some mumbai_indians;
  player_id = 1;
  amount_lakhs = 20;
}

abbrev started : World
started = start_auction (λ k i. 0) [] (opener ∷ []) untouched

abbrev bid_on : World
bid_on = place_bid 5 opener_bid started

abbrev sold_out : World
sold_out = tick (record bid_on { now = 11000 })

-- The host wins the opener for 20 lakhs when the ten seconds are over.
auction-IsLegal_example : IsLegal (deducted (initial_state mumbai_indians) 20 opener)
unfolding get_room_member_by_franchise same process_player_sold complete_sale get_next_player
    advance_queue update_queue_entry advance_queue_position set_auction_state
    deduct_from_franchise_state load_franchise_state set_franchise_state current_position
    start_auction initialize_queue generate_calibrated_player_pool calculate_pool_size select_pool
    fisher_yates_shuffle choose_by_role top_off choose push_all of_role used role_code queue_entries
    queue_rows set_status insert_auction_queue reset_queue_position append_bid_event
    init_all_franchise_states init_states initial_state advance_to_next_player next_up
    detect_phase_transition present_player start_timer place_bid check_bid is_room_member
    validate_bid can_bid after_check commit_bid acquire_bid_lock write_bid release_bid_lock
    reset_timer tick seconds_until clear_timer run_expiry expire_next handle_timer_expiry deducted
    price_tier emit spawn set_redis set_db rebuild_queue
auction-IsLegal_example =
    auction-IsLegal (λ k i. 0) [] (opener ∷ []) untouched untouched-IsFresh {v = sold_out}
      (next (next (next here (bids started 5 opener_bid)) (clock bid_on 11000 (omega arith)))
        (ticks (record bid_on { now = 11000 })))
      mumbai_indians (deducted (initial_state mumbai_indians) 20 opener) refl

-- The host's bid for the keeper finds the opener on the block.
overtaken_bid-stands_example :
    let v = overtaken_bid 5 host_bid second_entry open_world in
    (v.redis.current_player ≡ some opener)
    × (v.redis.current_bidder ≡ some mumbai_indians)
    × (v.redis.current_bid ≡ some 70)
unfolding check_bid validate_bid can_bid initial_state is_room_member load_franchise_state
overtaken_bid-stands_example =
    overtaken_bid-stands 5 host_bid mumbai_indians second_entry open_world open_world-IsCached refl
      refl

-- A queue of one player, with the host's bid, is over after one round.
start_auction-IsOver_example : IsOver (round bid_on)
unfolding queue_entries generate_calibrated_player_pool calculate_pool_size select_pool
    fisher_yates_shuffle choose_by_role top_off choose push_all of_role used role_code
start_auction-IsOver_example =
    start_auction-IsOver (λ k i. 0) [] (opener ∷ []) active_room untouched (round bid_on)
      untouched-IsFresh refl refl (omega arith)
      (bid 5 opener_bid started (passes bid_on (ended (round bid_on))))
