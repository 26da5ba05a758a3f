-- ===== src/Market/Tests.antt =====
-- An order for 200 of asset 5 against one for 60 of the core asset. Asset 5 charges one percent.
use fin_chain_core.Prelude.{
  ℕ, ◌≡◌, ◌<◌, refl, some, [], ◌∷◌, arith, find_first, replace_first, remove_first, sum_of,
}
use fin_chain_core.Prelude.Int.{pos, neg, ◌+ℤ◌, ◌-ℤ◌, ◌≤ℤ◌}
use fin_chain_core.Prelude.Maps.{lookup, put}
use fin_chain_core.Prelude.Results.{Result, ok, err, SafeInt, int64_safe}
use fin_chain_core.Asset.{asset, sub, negate, asset_ge, asset_le, asset_lt}
use fin_chain_core.Price.{price, multiply, divide}
use fin_chain_core.Ledger.{find_balance, put_balance, adjust_balance}
use fin_chain_core.Market.{
  LimitOrder, TradedAsset, Statistics, Market, has_order, calculate_market_fee, pay_fee,
  pay_market_fees, pay_order, cancel_order, maybe_cull_small_order, fill_order,
}
use fin_chain_core.Market.Matching.{match_amounts, match_orders, place_order}
use fin_chain_core.Market.Value.{value}
use fin_chain_core.Market.Fees.{IsFair, fee_part, calculate_market_fee_lem}
use fin_chain_core.Market.Match.{IsOrder, value-match_orders}
use fin_chain_core.Market.Filled.{match_orders_fills}

instance abbrev safe : SafeInt
safe = int64_safe

abbrev usd : LimitOrder
usd = record {
  order_id = 1;
  expiration = 1_600_000_000;
  seller = 1;
  for_sale = pos 200;
  sell_price = price (asset (pos 200) 5) (asset (pos 100) 0);
  deferred_fee = pos 3;
}

abbrev core : LimitOrder
core = record {
  order_id = 2;
  expiration = 1_600_000_000;
  seller = 2;
  for_sale = pos 60;
  sell_price = price (asset (pos 60) 0) (asset (pos 120) 5);
  deferred_fee = pos 0;
}

abbrev core_asset : TradedAsset
core_asset = record { asset_id = 0; flags = 0; market_fee_percent = 0; max_market_fee = pos 0 }

abbrev usd_asset : TradedAsset
usd_asset = record { asset_id = 5; flags = 1; market_fee_percent = 100; max_market_fee = pos 1000 }

abbrev account : ℕ → Statistics
account n = record {
  account = n;
  total_core_in_orders = pos 60;
  pending_fees = pos 0;
  pending_vested_fees = pos 0;
  paid_market_fees = [];
}

abbrev market : Market
market = record {
  balances = record { owner = 1; asset_type = 5; balance = pos 500; lockeds = [] } ∷ [];
  orders = usd ∷ core ∷ [];
  assets = core_asset ∷ usd_asset ∷ [];
  dynamic_data = record { of_asset_id = 5; accumulated_fees = pos 7; market_fees = pos 7 } ∷ [];
  statistics = account 1 ∷ account 2 ∷ [];
  head_block_time = 1_500_000_000;
  cashback_vesting_threshold = pos 100;
}

abbrev result_or {ℓ} : {A : Type ℓ} → A → Result A → A
result_or a (ok b) = b
result_or a (err e) = a

abbrev after : Market
after = (result_or (market, 0) (match_orders usd core core.sell_price market)).0

matched : match_orders usd core core.sell_price market ≡ ok (after, 2)
unfolding match_orders match_amounts multiply asset_le asset_lt fill_order find_first remove_first
    replace_first pay_market_fees calculate_market_fee sub pay_order adjust_balance find_balance
    put_balance pay_fee maybe_cull_small_order cancel_order lookup put negate asset_ge ◌+ℤ◌ ◌-ℤ◌ neg
matched = refl

fees_after : value 5 after ≡ pos 707
unfolding match_orders match_amounts multiply asset_le asset_lt fill_order find_first remove_first
    replace_first pay_market_fees calculate_market_fee sub pay_order adjust_balance find_balance
    put_balance pay_fee maybe_cull_small_order cancel_order lookup put negate asset_ge ◌+ℤ◌ ◌-ℤ◌ neg
    sum_of
fees_after = refl

usd_there : find_first (has_order 1) market.orders ≡ some usd
unfolding find_first
usd_there = refl

core_there : find_first (has_order 2) market.orders ≡ some core
unfolding find_first
core_there = refl

usd-IsOrder : IsOrder usd
usd-IsOrder = ((200, omega arith, refl), omega arith)

core-IsOrder : IsOrder core
core-IsOrder = ((60, omega arith, refl), omega arith)

core_asset-IsFair : IsFair core_asset
core_asset-IsFair = (omega arith, omega arith)

usd_asset-IsFair : IsFair usd_asset
usd_asset-IsFair = (omega arith, omega arith)

value-match_orders_example : value 5 after ≡ value 5 market
value-match_orders_example =
    value-match_orders 5 usd core core.sell_price market after 2 (omega arith) usd_there core_there
      usd-IsOrder core-IsOrder (core_asset-IsFair, (usd_asset-IsFair, tt)) matched

match_orders_fills_example : 0 < 2
match_orders_fills_example = match_orders_fills usd core core.sell_price market after 2 matched

calculate_market_fee_lem_example :
    (calculate_market_fee usd_asset (asset (pos 120) 5) ≡ asset (fee_part usd_asset 120) 5)
    × (pos 0 ≤ℤ fee_part usd_asset 120)
    × (fee_part usd_asset 120 ≤ℤ pos 120)
calculate_market_fee_lem_example =
    calculate_market_fee_lem usd_asset 120 5 usd_asset-IsFair (omega arith)

abbrev without_usd : Market
without_usd = result_or market (cancel_order usd market)

cancelled : cancel_order usd market ≡ ok without_usd
unfolding cancel_order find_first remove_first replace_first adjust_balance find_balance put_balance
    ◌+ℤ◌ ◌-ℤ◌ neg negate asset_ge asset_lt
cancelled = refl

abbrev with_third : Market
with_third =
    result_or market
      (place_order 3 1_600_000_000 1 (asset (pos 50) 5) (asset (pos 20) 0) (pos 4) market)

placed :
    place_order 3 1_600_000_000 1 (asset (pos 50) 5) (asset (pos 20) 0) (pos 4) market
    ≡ ok with_third
unfolding place_order find_first replace_first adjust_balance find_balance put_balance divide ◌+ℤ◌
    ◌-ℤ◌ neg negate asset_ge asset_lt
placed = refl
