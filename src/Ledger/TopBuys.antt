-- ===== src/Ledger/TopBuys.antt =====
-- The dearest purchases of an auction.
use ipl_auction_app.Base.{ℕ, min, ◌≡◌, ◌∙◌, leb, count, take, count-map}
use ipl_auction_app.Room.State.{Db}
use ipl_auction_app.Accounts.Users.{Users}
use ipl_auction_app.Ledger.{TopBuy, top_buys, top_buy, member_rows, squad_rows, price_of}
use ipl_auction_app.Ledger.Sorting.{sort_desc, take-sort_desc}

-- At every price, as many of the top buys reach it as purchases of the auction do, up to five.
pub top_buys-dearest :
    (k : ℕ) (users : Users) (db : Db)
    → count (λ (b : TopBuy). leb k b.price_paid_lakhs) (top_buys users db)
      ≡ min 5 (count (λ r. leb k (price_of r)) (squad_rows db))
unfolding top_buys
top_buys-dearest k users db =
    count-map (top_buy (member_rows users db.members)) (λ (b : TopBuy). leb k b.price_paid_lakhs)
      (take 5 (sort_desc price_of (squad_rows db)))
    ∙ take-sort_desc price_of k 5 (squad_rows db)
