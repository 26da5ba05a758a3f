-- ===== src/Feed/Tests.antt =====
-- Call prices and squeeze prices at concrete feeds, with ratios left unreduced.
use fin_chain_core.Prelude.{◌^◌, ◌≡◌, ◌≢◌, refl}
use fin_chain_core.Prelude.Int.{pos}
use fin_chain_core.Prelude.Results.{ok}
use fin_chain_core.Asset.{asset}
use fin_chain_core.Price.{price, null_price}
use fin_chain_core.Feed.{PriceFeed, unreduced, call_price, validate_feed, halve_up}
use fin_chain_core.Feed.Bounds.{validate_feed_null}

-- 10 ^ 18 of debt at a ratio of 1.75 leaves the supply, and is halved.
call_price_halved :
    call_price unreduced (asset (pos (10 ^ 18)) 1) (asset (pos (10 ^ 18)) 0) 1750
    ≡ ok (price (asset (pos 488281250000000001) 0) (asset (pos 854492187500000001) 1))
unfolding call_price halve_up
call_price_halved = refl

abbrev feed : PriceFeed
feed = record {
  settlement_price = price (asset (pos 3) 1) (asset (pos 7) 0);
  core_exchange_rate = null_price;
  maintenance_collateral_ratio = 1750;
  maximum_short_squeeze_ratio = 1500;
}

abbrev null_feed : PriceFeed
null_feed = record feed { settlement_price = null_price }

validate_feed_null_example : validate_feed unreduced null_feed ≢ ok tt
validate_feed_null_example = validate_feed_null unreduced null_feed refl
