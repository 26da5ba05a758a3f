-- ===== src/Price.antt =====
-- `struct price` (libraries/chain/include/graphene/chain/protocol/asset.hpp and
-- libraries/chain/protocol/asset.cpp): a ratio of two amounts, its order, and the conversion of an
-- amount. Products are 128-bit words.
use fin_chain_core.Prelude.{
  ℕ, Bool, true, false, not, ◌^◌, ◌/◌, ◌&&◌, ◌||◌, ◌==◌, ltb, leb, if◌then◌else◌,
}
use fin_chain_core.Prelude.Int.{ℤ, pos, ltb_ℤ}
use fin_chain_core.Prelude.Words.{to_u128, mul128}
use fin_chain_core.Prelude.Results.{Result, ok, err, assert_exception, ◌>>◌, fc_assert}
use fin_chain_core.Asset.{Asset, asset, max_share_supply}
pub mod Order
pub mod Multiply
mod Tests

pub record Price : Type 0 where
  pub base : Asset
  pub quote : Asset

abbrev pub price : Asset → Asset → Price
price b q = record { base = b; quote = q }

-- `amult` and `bmult` of the comparisons
abbrev pub amult : Price → Price → ℕ
amult a b = mul128 (to_u128 b.quote.amount) (to_u128 a.base.amount)

abbrev pub bmult : Price → Price → ℕ
bmult a b = mul128 (to_u128 a.quote.amount) (to_u128 b.base.amount)

-- operator ==
unfoldable pub price_eq : Price → Price → Bool
price_eq a b =
    if (a.base.asset_id == b.base.asset_id) && (a.quote.asset_id == b.quote.asset_id)
    then amult a b == bmult a b
    else false

-- operator <
unfoldable pub price_lt : Price → Price → Bool
price_lt a b =
    if ltb a.base.asset_id b.base.asset_id
    then true
    else if ltb b.base.asset_id a.base.asset_id
    then false
    else if ltb a.quote.asset_id b.quote.asset_id
    then true
    else if ltb b.quote.asset_id a.quote.asset_id
    then false
    else ltb (amult a b) (bmult a b)

-- operator <=
unfoldable pub price_le : Price → Price → Bool
unfolding price_eq price_lt
price_le a b = price_eq a b || price_lt a b

-- operator >
unfoldable pub price_gt : Price → Price → Bool
unfolding price_le
price_gt a b = not (price_le a b)

-- operator >=
unfoldable pub price_ge : Price → Price → Bool
unfolding price_lt
price_ge a b = not (price_lt a b)

-- One branch of `operator *`: (a * to) / from, checked against the largest supply.
abbrev pub convert : ℤ → Asset → Asset → Result Asset
convert a from to = do
  fc_assert (ltb_ℤ (pos 0) from.amount)
  let result = mul128 (to_u128 a) (to_u128 to.amount) / to_u128 from.amount
  fc_assert (leb result max_share_supply)
  ok (asset (pos result) to.asset_id)

-- operator * of an amount and a price, in either direction of the price
unfoldable pub multiply : Asset → Price → Result Asset
multiply a p =
    if a.asset_id == p.base.asset_id
    then convert a.amount p.base p.quote
    else if a.asset_id == p.quote.asset_id
    then convert a.amount p.quote p.base
    else err assert_exception

-- operator / of two amounts
unfoldable pub divide : Asset → Asset → Result Price
divide b q = do fc_assert (not (b.asset_id == q.asset_id)); ok (price b q)

-- operator ~
abbrev pub invert : Price → Price
invert p = price p.quote p.base

-- price::max and price::min of a market
unfoldable pub price_max : ℕ → ℕ → Result Price
unfolding divide
price_max base quote = divide (asset (pos max_share_supply) base) (asset (pos 1) quote)

unfoldable pub price_min : ℕ → ℕ → Result Price
unfolding divide
price_min base quote = divide (asset (pos 1) base) (asset (pos max_share_supply) quote)

-- The default price, 0 of asset 0 over 0 of asset 0.
abbrev pub null_price : Price
null_price = price (asset (pos 0) 0) (asset (pos 0) 0)

unfoldable pub is_null : Price → Bool
unfolding price_eq
is_null p = price_eq p null_price

unfoldable pub validate : Price → Result (Unit {0})
validate p = do
  fc_assert (ltb_ℤ (pos 0) p.base.amount)
  fc_assert (ltb_ℤ (pos 0) p.quote.amount)
  fc_assert (not (p.base.asset_id == p.quote.asset_id))
