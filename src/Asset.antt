-- ===== src/Asset.antt =====
-- `struct asset` (libraries/chain/include/graphene/chain/protocol/asset.hpp): an amount of an asset,
-- and its operators. Every operator between two amounts asserts that they are of one asset.
pub mod Laws
use fin_chain_core.Prelude.{ℕ, Bool, true, ◌^◌, ◌*◌, not, ◌&&◌, ◌==◌, if◌then◌else◌}
use fin_chain_core.Prelude.Int.{ℤ, ◌+ℤ◌, ◌-ℤ◌, neg, ltb_ℤ, eqb_ℤ}
use fin_chain_core.Prelude.Results.{Result, ok, SafeInt, ◌>>=◌, ◌>>◌, fc_assert}

-- `GRAPHENE_MAX_SHARE_SUPPLY`, 10000000000 * GRAPHENE_BLOCKCHAIN_PRECISION
abbrev pub max_share_supply : ℕ
max_share_supply = 10_000_000_000 * 100_000_000

-- An `asset_id_type` is the instance number of the object.
pub record Asset : Type 0 where
  pub amount : ℤ
  pub asset_id : ℕ

abbrev pub asset : ℤ → ℕ → Asset
asset a i = record { amount = a; asset_id = i }

-- operator + and operator +=
unfoldable pub add : ⦃s : SafeInt⦄ → Asset → Asset → Result Asset
add ⦃s⦄ a b = do
  fc_assert (a.asset_id == b.asset_id)
  sum ← s.check (a.amount +ℤ b.amount)
  ok (asset sum a.asset_id)

-- operator - and operator -=
unfoldable pub sub : ⦃s : SafeInt⦄ → Asset → Asset → Result Asset
sub ⦃s⦄ a b = do
  fc_assert (a.asset_id == b.asset_id)
  rest ← s.check (a.amount -ℤ b.amount)
  ok (asset rest a.asset_id)

-- unary operator -
unfoldable pub negate : ⦃s : SafeInt⦄ → Asset → Result Asset
negate ⦃s⦄ a = do n ← s.check (neg a.amount); ok (asset n a.asset_id)

-- operator ==
abbrev pub asset_eq : Asset → Asset → Bool
asset_eq a b = (a.asset_id == b.asset_id) && eqb_ℤ a.amount b.amount

-- operator <
unfoldable pub asset_lt : Asset → Asset → Result Bool
asset_lt a b = do fc_assert (a.asset_id == b.asset_id); ok (ltb_ℤ a.amount b.amount)

-- operator <=, which compares only if the two are not equal
unfoldable pub asset_le : Asset → Asset → Result Bool
unfolding asset_lt
asset_le a b = if asset_eq a b then ok true else asset_lt a b

-- operator >
unfoldable pub asset_gt : Asset → Asset → Result Bool
unfolding asset_le
asset_gt a b = do le ← asset_le a b; ok (not le)

-- operator >=
unfoldable pub asset_ge : Asset → Asset → Result Bool
unfolding asset_lt
asset_ge a b = do lt ← asset_lt a b; ok (not lt)
