-- ===== src/Feed.antt =====
-- `struct price_feed` and `price::call_price` (libraries/chain/protocol/asset.cpp): the prices that a
-- feed derives, each brought below the largest supply by a loop that halves both sides.
--
-- `boost::rational<int128_t>` is not in the repository. An interface stands for its normal form: a
-- ratio of numbers that are not negative is kept at its value, and no part of it grows. That a zero
-- denominator raises is in the code below.
use native.Mathlib.Nat.{le_refl}
use fin_chain_core.Prelude.{
  ℕ, zero, suc, ◌+◌, ◌*◌, ◌/◌, ◌%◌, ◌≤◌, ◌<◌, ◌≡◌, refl, Bool, true, false, not, Option, none, some,
  ◌&&◌, ◌||◌, ◌==◌, ltb, leb, if◌then◌else◌,
}
use fin_chain_core.Prelude.Int.{ℤ, pos, pos_part}
use fin_chain_core.Prelude.Results.{
  Result, ok, err, assert_exception, bad_rational, ◌>>=◌, ◌>>◌, fc_assert,
}
use fin_chain_core.Asset.{Asset, asset, max_share_supply}
use fin_chain_core.Price.{Price, price, null_price, is_null, validate, divide, invert}
pub mod Bounds
mod Tests

pub record Rational : Type 0 where
  -- numerator and denominator of the normal form
  pub numerator : ℕ → ℕ → ℕ
  pub denominator : ℕ → ℕ → ℕ
  pub same_value : (n d : ℕ) → numerator n d * d ≡ n * denominator n d
  pub numerator_le : (n d : ℕ) → numerator n d ≤ n
  pub denominator_le : (n d : ℕ) → denominator n d ≤ d
  pub numerator_pos : (n d : ℕ) → 0 < n → 0 < d → 0 < numerator n d
  pub denominator_pos : (n d : ℕ) → 0 < d → 0 < denominator n d

-- The interface can be met: a ratio that is left as it is.
abbrev pub unreduced : Rational
unreduced = record {
  numerator = λ n d. n;
  denominator = λ n d. d;
  same_value = λ n d. refl;
  numerator_le = λ n d. le_refl n;
  denominator_le = λ n d. le_refl d;
  numerator_pos = λ n d hn hd. hn;
  denominator_pos = λ n d hd. hd;
}

-- GRAPHENE_COLLATERAL_RATIO_DENOM, GRAPHENE_MIN_COLLATERAL_RATIO, GRAPHENE_MAX_COLLATERAL_RATIO
abbrev pub collateral_ratio_denom : ℕ
collateral_ratio_denom = 1000

abbrev pub min_collateral_ratio : ℕ
min_collateral_ratio = 1001

abbrev pub max_collateral_ratio : ℕ
max_collateral_ratio = 32000

pub record PriceFeed : Type 0 where
  pub settlement_price : Price
  pub core_exchange_rate : Price
  pub maintenance_collateral_ratio : ℕ
  pub maximum_short_squeeze_ratio : ℕ

-- `n > GRAPHENE_MAX_SHARE_SUPPLY || d > GRAPHENE_MAX_SHARE_SUPPLY`, the test of both loops
abbrev pub too_large : ℕ → ℕ → Bool
too_large n d = ltb max_share_supply n || ltb max_share_supply d

-- Enough for numerators and denominators below 2 ^ 79, as `Feed.Bounds` shows.
abbrev pub halvings : ℕ
halvings = 22

module _ (r : Rational) where
  open r use {numerator, denominator}

  -- The loop of `call_price`, on fuel; `none` means that the fuel ran out.
  pub halve_up : ℕ → ℕ → ℕ → Option (ℕ × ℕ)
  halve_up zero n d = none
  halve_up (suc f) n d =
      let n' = n / 2 + 1 in
      let d' = d / 2 + 1 in
      let rest = halve_up f (numerator n' d') (denominator n' d') in
      if too_large n d then rest else some (n, d)

  -- The loop of `max_short_squeeze_price`, which rounds each half up.
  pub halve_round : ℕ → ℕ → ℕ → Option (ℕ × ℕ)
  halve_round zero n d = none
  halve_round (suc f) n d =
      let n' = n / 2 + n % 2 in
      let d' = d / 2 + d % 2 in
      let rest = halve_round f (numerator n' d') (denominator n' d') in
      if too_large n d then rest else some (n, d)

  -- The product of two normal forms, of n / d and n' / d'.
  abbrev pub product : ℕ → ℕ → ℕ → ℕ → ℕ × ℕ
  product n d n' d' =
      let a = numerator n d * numerator n' d' in
      let b = denominator n d * denominator n' d' in (numerator a b, denominator a b)

  abbrev ratio_of : Option (ℕ × ℕ) → ℕ → ℕ → Result Price
  ratio_of none i j = err assert_exception
  ratio_of (some (n, d)) i j = divide (asset (pos n) i) (asset (pos d) j)

  -- price::call_price, for amounts that are not negative
  unfoldable pub call_price : Asset → Asset → ℕ → Result Price
  unfolding divide
  call_price debt collateral collateral_ratio = do
    let d = pos_part debt.amount
    let c = pos_part collateral.amount
    if c == 0 then err bad_rational else ok tt
    let cp = product d c collateral_ratio collateral_ratio_denom
    p ← ratio_of (halve_up halvings cp.0 cp.1) debt.asset_id collateral.asset_id
    ok (invert p)

  -- price_feed::max_short_squeeze_price, for amounts that are not negative
  unfoldable pub max_short_squeeze_price : PriceFeed → Result Price
  unfolding divide
  max_short_squeeze_price feed = do
    let sp = feed.settlement_price
    let b = pos_part sp.base.amount
    let q = pos_part sp.quote.amount
    if (q == 0) || (feed.maximum_short_squeeze_ratio == 0) then err bad_rational else ok tt
    let cp = product b q collateral_ratio_denom feed.maximum_short_squeeze_ratio
    ratio_of (halve_round halvings cp.0 cp.1) sp.base.asset_id sp.quote.asset_id

  -- price_feed::validate
  unfoldable pub validate_feed : PriceFeed → Result (Unit {0})
  unfolding max_short_squeeze_price is_null validate
  validate_feed feed = do
    if is_null feed.settlement_price then ok tt else validate feed.settlement_price
    fc_assert (leb min_collateral_ratio feed.maximum_short_squeeze_ratio)
    fc_assert (leb feed.maximum_short_squeeze_ratio max_collateral_ratio)
    fc_assert (leb min_collateral_ratio feed.maintenance_collateral_ratio)
    fc_assert (leb feed.maintenance_collateral_ratio max_collateral_ratio)
    squeeze ← max_short_squeeze_price feed
    ok tt

-- price_feed::is_for
unfoldable pub is_for : PriceFeed → ℕ → Bool
unfolding is_null
is_for feed asset_id =
    if not (is_null feed.settlement_price)
    then feed.settlement_price.base.asset_id == asset_id
    else if not (is_null feed.core_exchange_rate)
    then feed.core_exchange_rate.base.asset_id == asset_id
    else true
