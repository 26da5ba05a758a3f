-- ===== src/Market.antt =====
-- Limit orders of the market (libraries/chain/db_market.cpp, with limit_order_object of
-- libraries/chain/include/graphene/chain/market_object.hpp): two orders are matched, each is filled
-- and pays its seller, less the fee of the market; orders are placed, culled and cancelled.
--
-- Fees are counted by libraries/chain/account_object.cpp. The objects of each kind are a list, and
-- an account and an asset are given by the parts of their objects that the market reads. Virtual
-- operations, which are reported to the history, are not modelled, nor are debug assertions.
use fin_chain_core.Prelude.{
  ℕ, zero, suc, ◌+◌, ◌*◌, ◌/◌, ◌%◌, Bool, true, false, not, Option, none, some, List, [], ◌∷◌, ◌&&◌,
  ◌||◌, ◌==◌, ltb, leb, if◌then◌else◌, find_first, replace_first, remove_first,
}
use fin_chain_core.Prelude.Int.{ℤ, pos, ◌+ℤ◌, ◌-ℤ◌, ltb_ℤ, eqb_ℤ}
use fin_chain_core.Prelude.Words.{to_u128, mul128, u64_mod, signed64}
use fin_chain_core.Prelude.Maps.{Map, nat_key, lookup, put}
use fin_chain_core.Prelude.Results.{Result, ok, err, SafeInt, ◌>>=◌, ◌>>◌, fc_assert, found}
use fin_chain_core.Asset.{Asset, asset, add, sub, negate, asset_eq, asset_le}
use fin_chain_core.Price.{Price, price, multiply, divide}
use fin_chain_core.Ledger.{Balances, adjust_balance}
use fin_chain_core.Authorization.{has_flag}
pub mod Matching
pub mod Fees
pub mod Value
pub mod Fill
pub mod Conserve
pub mod Match
pub mod Filled
mod Tests

-- class limit_order_object
pub record LimitOrder : Type 0 where
  pub order_id : ℕ
  pub expiration : ℕ
  pub seller : ℕ
  pub for_sale : ℤ
  pub sell_price : Price
  pub deferred_fee : ℤ

-- The part of an asset object that the fee of the market depends on.
pub record TradedAsset : Type 0 where
  pub asset_id : ℕ
  pub flags : ℕ
  pub market_fee_percent : ℕ
  pub max_market_fee : ℤ

-- The part of asset_dynamic_data_object, found by its asset, that trades change.
pub record DynamicData : Type 0 where
  pub of_asset_id : ℕ
  pub accumulated_fees : ℤ
  pub market_fees : ℤ

-- The part of account_statistics_object, found by its account, that trades change.
pub record Statistics : Type 0 where
  pub account : ℕ
  pub total_core_in_orders : ℤ
  pub pending_fees : ℤ
  pub pending_vested_fees : ℤ
  pub paid_market_fees : Map ℕ ℤ

-- The part of the database that the market works on, with the parameter of the chain that
-- separates fees that vest from those that do not.
pub record Market : Type 0 where
  pub balances : Balances
  pub orders : List LimitOrder
  pub assets : List TradedAsset
  pub dynamic_data : List DynamicData
  pub statistics : List Statistics
  pub head_block_time : ℕ
  pub cashback_vesting_threshold : ℤ

abbrev pub has_order : ℕ → LimitOrder → Bool
has_order i o = o.order_id == i

abbrev pub is_traded : ℕ → TradedAsset → Bool
is_traded i a = a.asset_id == i

abbrev pub is_data_of : ℕ → DynamicData → Bool
is_data_of i d = d.of_asset_id == i

abbrev pub is_account : ℕ → Statistics → Bool
is_account i s = s.account == i

-- limit_order_object::amount_for_sale and amount_to_receive
abbrev pub amount_for_sale : LimitOrder → Asset
amount_for_sale o = asset o.for_sale o.sell_price.base.asset_id

abbrev pub amount_to_receive : LimitOrder → Result Asset
amount_to_receive o = multiply (amount_for_sale o) o.sell_price

-- HARDFORK_555_TIME
abbrev pub hardfork_555_time : ℕ
hardfork_555_time = 1_456_250_400

-- database::calculate_market_fee; the fee in percent of percent, at most the largest fee
unfoldable pub calculate_market_fee : TradedAsset → Asset → Asset
calculate_market_fee a amount =
    if not (has_flag a.flags 1)
    then asset (pos 0) a.asset_id
    else if a.market_fee_percent == 0
    then asset (pos 0) a.asset_id
    else let part =
        signed64 (mul128 (to_u128 amount.amount) a.market_fee_percent / 10_000 % u64_mod) in
      asset (if ltb_ℤ a.max_market_fee part then a.max_market_fee else part) a.asset_id

-- `d.modify( account.statistics(d), change )`
abbrev pub modify_statistics : ℕ → (Statistics → Result Statistics) → Market → Result Market
modify_statistics i change m = do
  s ← found (find_first (is_account i) m.statistics)
  s' ← change s
  ok (record m { statistics = replace_first (is_account i) s' m.statistics })

module _ ⦃safe : SafeInt⦄ where
  -- account_statistics_object::pay_fee
  unfoldable pub pay_fee : ℤ → ℤ → Statistics → Result Statistics
  pay_fee core_fee threshold s =
      if ltb_ℤ threshold core_fee
      then (safe.check (s.pending_fees +ℤ core_fee) >>= λ n. ok (record s { pending_fees = n }))
      else (safe.check (s.pending_vested_fees +ℤ core_fee) >>= λ n.
          ok (record s { pending_vested_fees = n }))

  -- The fees of an account by asset, one more of which has been paid.
  abbrev pub count_fee : Asset → Statistics → Result Statistics
  count_fee fee s = elim (lookup fee.asset_id s.paid_market_fees) [
    | none ↦ ok (record s { paid_market_fees = put fee.asset_id fee.amount s.paid_market_fees })
    | some n ↦ safe.check (n +ℤ fee.amount) >>= λ t.
        ok (record s { paid_market_fees = put fee.asset_id t s.paid_market_fees })
  ]

  abbrev pub accumulate : Asset → DynamicData → Result DynamicData
  accumulate fee d = do
    a ← safe.check (d.accumulated_fees +ℤ fee.amount)
    f ← safe.check (d.market_fees +ℤ fee.amount)
    ok (record d { accumulated_fees = a; market_fees = f })

  -- The branch of `pay_market_fees` where there is a fee
  abbrev pub collect_fees : Asset → ℕ → Market → Result Market
  collect_fees fee owner m = do
    d ← found (find_first (is_data_of fee.asset_id) m.dynamic_data)
    d' ← accumulate fee d
    modify_statistics owner (count_fee fee)
        (record m { dynamic_data = replace_first (is_data_of fee.asset_id) d' m.dynamic_data })

  -- database::pay_market_fees
  unfoldable pub pay_market_fees : TradedAsset → Asset → ℕ → Market → Result (Market × Asset)
  pay_market_fees recv_asset receives owner m = do
    m' ←
        if ltb_ℤ (pos 0) (calculate_market_fee recv_asset receives).amount
        then collect_fees (calculate_market_fee recv_asset receives) owner m
        else ok m
    ok (m', calculate_market_fee recv_asset receives)

  -- `if( amount.asset_id == asset_id_type() ) total_core_in_orders -= amount`
  abbrev pub core_left_orders : Asset → Statistics → Result Statistics
  core_left_orders a s =
      if a.asset_id == 0
      then (safe.check (s.total_core_in_orders -ℤ a.amount) >>= λ n.
          ok (record s { total_core_in_orders = n }))
      else ok s

  abbrev pub credit : ℕ → Asset → Market → Result Market
  credit account a m = do bs ← adjust_balance account a m.balances; ok (record m { balances = bs })

  -- database::pay_order
  unfoldable pub pay_order : ℕ → Asset → Asset → Market → Result Market
  pay_order receiver receives pays m = do
    m1 ← modify_statistics receiver (core_left_orders pays) m
    credit receiver receives m1

  -- database::cancel_order of a limit order
  unfoldable pub cancel_order : LimitOrder → Market → Result Market
  cancel_order o m = do
    m1 ← modify_statistics o.seller (core_left_orders (amount_for_sale o)) m
    m2 ← credit o.seller (amount_for_sale o) m1
    m3 ← credit o.seller (asset o.deferred_fee 0) m2
    ok (record m3 { orders = remove_first (has_order o.order_id) m3.orders })

  -- maybe_cull_small_order
  unfoldable pub maybe_cull_small_order : LimitOrder → Market → Result (Market × Bool)
  maybe_cull_small_order o m = do
    to_receive ← amount_to_receive o
    if eqb_ℤ to_receive.amount (pos 0)
        then (cancel_order o m >>= λ m'. ok (m', true))
        else ok (m, false)

  -- The deferred fee of an order is paid when the order is first filled.
  abbrev pub pay_deferred_fee : LimitOrder → Market → Result Market
  pay_deferred_fee o m =
      if ltb_ℤ (pos 0) o.deferred_fee
      then modify_statistics o.seller (pay_fee o.deferred_fee m.cashback_vesting_threshold) m
      else ok m

  -- The order is removed if it has sold all, and is written anew if not.
  abbrev pub settle_order : LimitOrder → Asset → Bool → Market → Result (Market × Bool)
  settle_order o pays cull m =
      if asset_eq pays (amount_for_sale o)
      then ok (record m { orders = remove_first (has_order o.order_id) m.orders }, true)
      else (do
        rest ← safe.check (o.for_sale -ℤ pays.amount)
        let left = record o { for_sale = rest; deferred_fee = pos 0 }
        let m' = record m { orders = replace_first (has_order o.order_id) left m.orders }
        if cull then maybe_cull_small_order left m' else ok (m', false))

  -- database::fill_order of a limit order
  unfoldable pub fill_order : LimitOrder → Asset → Asset → Bool → Market → Result (Market × Bool)
  fill_order o pays receives cull_if_small m = do
    fc_assert ((amount_for_sale o).asset_id == pays.asset_id)
    fc_assert (not (pays.asset_id == receives.asset_id))
    recv_asset ← found (find_first (is_traded receives.asset_id) m.assets)
    (m1, issuer_fees) ← pay_market_fees recv_asset receives o.seller m
    rest ← sub receives issuer_fees
    m2 ← pay_order o.seller rest pays m1
    m3 ← pay_deferred_fee o m2
    settle_order o pays (cull_if_small || ltb m.head_block_time hardfork_555_time) m3
