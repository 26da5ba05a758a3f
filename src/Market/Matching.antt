-- ===== src/Market/Matching.antt =====
-- Two limit orders against each other (database::match in libraries/chain/db_market.cpp), and the
-- placing of an order (limit_order_create_evaluator in libraries/chain/market_evaluator.cpp, up to
-- the creation of the order).
use fin_chain_core.Prelude.{ℕ, ◌+◌, ◌*◌, Bool, true, false, ◌∷◌, ◌==◌, if◌then◌else◌}
use fin_chain_core.Prelude.Int.{ℤ, ◌+ℤ◌}
use fin_chain_core.Prelude.Results.{Result, ok, SafeInt, ◌>>=◌}
use fin_chain_core.Asset.{Asset, negate, asset_le}
use fin_chain_core.Price.{Price, multiply, divide}
use fin_chain_core.Market.{
  LimitOrder, Market, Statistics, amount_for_sale, fill_order, modify_statistics, credit,
}

-- What the two orders receive, the first and the second.
unfoldable pub match_amounts : LimitOrder → LimitOrder → Price → Result (Asset × Asset)
match_amounts usd core match_price = do
  core_value ← multiply (amount_for_sale core) match_price
  fits ← asset_le (amount_for_sale usd) core_value
  if fits
      then (multiply (amount_for_sale usd) match_price >>= λ usd_receives.
          ok (usd_receives, amount_for_sale usd))
      else (multiply (amount_for_sale core) match_price >>= λ core_receives.
          ok (amount_for_sale core, core_receives))

abbrev pub bit : Bool → ℕ
bit true = 1
bit false = 0

module _ ⦃safe : SafeInt⦄ where
  -- database::match of two limit orders; the number has bit 0 if the first order was filled and
  -- bit 1 if the second was
  unfoldable pub match_orders : LimitOrder → LimitOrder → Price → Market → Result (Market × ℕ)
  match_orders usd core match_price m = do
    (usd_receives, core_receives) ← match_amounts usd core match_price
    (m1, usd_filled) ← fill_order usd core_receives usd_receives false m
    (m2, core_filled) ← fill_order core usd_receives core_receives true m1
    ok (m2, bit usd_filled + 2 * bit core_filled)

  abbrev pub core_in_orders : Asset → Statistics → Result Statistics
  core_in_orders a s =
      if a.asset_id == 0
      then (safe.check (s.total_core_in_orders +ℤ a.amount) >>= λ n.
          ok (record s { total_core_in_orders = n }))
      else ok s

  -- limit_order_create_evaluator::do_apply, before the order is applied
  unfoldable pub place_order : ℕ → ℕ → ℕ → Asset → Asset → ℤ → Market → Result Market
  place_order order_id expiration seller to_sell min_to_receive deferred_fee m = do
    m1 ← modify_statistics seller (core_in_orders to_sell) m
    debit ← negate to_sell
    m2 ← credit seller debit m1
    sell_price ← divide to_sell min_to_receive
    ok (record m2 {
      orders =
          record {
            order_id = order_id;
            expiration = expiration;
            seller = seller;
            for_sale = to_sell.amount;
            sell_price = sell_price;
            deferred_fee = deferred_fee;
          }
          ∷ m2.orders;
    })
