-- ===== src/Interest.antt =====
-- The interest on a locked balance (libraries/chain/asset_object.cpp): the daily rate raised to the
-- number of days by squaring, scaled by the period and by how full the interest pool is.
--
-- Numbers of the type `uint128_t` wrap. How boost narrows one of them to 64 bits is not in the
-- repository: an interface stands for it, which is exact for a number that fits. The precision of
-- an asset is at most 12, as its creation asserts, so that `pow(10, precision)` is exact.
use native.Mathlib.Nat.{le_refl}
use fin_chain_core.Prelude.{
  ℕ, zero, suc, ◌+◌, ◌*◌, ◌/◌, ◌%◌, ◌^◌, ◌≡◌, ◌<◌, refl, Bool, true, false, ◌==◌, leb,
  if◌then◌else◌,
}
use fin_chain_core.Prelude.Int.{ℤ, pos, ◌+ℤ◌, ◌-ℤ◌, mul_ℤ, quot, eqb_ℤ}
use fin_chain_core.Prelude.Words.{
  u32_mod, u64_mod, u128_mod, to_u128, mul128, sub128, signed32, signed64, wrap_int32,
}
use fin_chain_core.Prelude.Results.{
  Result, ok, err, overflow_exception, SafeInt, ◌>>=◌, ◌>>◌, fc_assert,
}
use fin_chain_core.Asset.{Asset, asset, add, sub}
use fin_chain_core.Price.{Price, price, multiply}
pub mod Power
pub mod Profit
mod Tests

-- `convert_to<uint64_t>()`
pub record Narrowing : Type 0 where
  pub narrow : ℕ → ℕ
  pub narrow_exact : (n : ℕ) → n < u64_mod → narrow n ≡ n

-- JRC_INTEREST_DAY
abbrev pub interest_day : ℕ
interest_day = 3600 * 24

-- GRAPHENE_100_PERCENT
abbrev pub hundred_percent : ℕ
hundred_percent = 10_000

-- A quotient of 128-bit numbers, which raises on a zero divisor.
unfoldable pub div128 : ℕ → ℕ → Result ℕ
div128 a b = if b == 0 then err overflow_exception else ok (a / b)

-- class asset_lock_data_object; a rate is a price between two amounts of the asset
pub record AssetLockData : Type 0 where
  pub asset_id : ℕ
  pub nominal_interest_perday : Price
  pub reward_coefficient : ℕ
  pub interest_pool : ℤ
  pub max_period : ℕ
  pub profile_scale_percent : ℕ
  pub profile_receive_percent : ℕ
  pub can_unlock_not_expired : Bool

-- JRC_INTEREST_BASE_SUPPLY / GRAPHENE_BLOCKCHAIN_PRECISION * precision, in 64 bits
abbrev pub scale_of : ℕ → ℕ
scale_of precision = (1_000_000_000_000 / 100_000_000 * precision) % u64_mod

-- `pecent_of_year` and `reward_rate`: from twice the coefficient off to as much on
unfoldable pub reward_rate : ℕ → ℕ → ℕ → Result ℤ
reward_rate lock_period max_period reward_coefficient =
    let half = quot (signed32 max_period) (pos 2) in
    if eqb_ℤ half (pos 0)
    then err overflow_exception
    else let scaled =
        wrap_int32
          (mul_ℤ (wrap_int32 (pos (lock_period / interest_day) -ℤ half)) (pos hundred_percent)) in
      ok (
        pos hundred_percent
        +ℤ quot (mul_ℤ (quot scaled half) (pos reward_coefficient)) (pos hundred_percent))

-- `max_need_pool`: the interest of the whole supply over the longest period
unfoldable pub max_need_pool : Price → ℤ → ℕ → Result ℕ
unfolding div128
max_need_pool top to_deposit reward_coefficient =
    let quote = to_u128 top.quote.amount in
    let base = to_u128 top.base.amount in
    let supply = to_u128 to_deposit in
    do
      fc_assert (leb base quote)
      grown ← div128 (mul128 quote supply) base
      ok (
          mul128 (sub128 grown supply) ((reward_coefficient + hundred_percent) % u32_mod)
          / hundred_percent)

module _ ⦃w : Narrowing⦄ where
  -- the closure `multiply_of_interest`
  unfoldable pub multiply_of_interest : ℕ → Price → Price → Result Price
  unfolding div128
  multiply_of_interest precision a b = do
    first ← div128 (mul128 (scale_of precision) (to_u128 a.quote.amount)) (to_u128 a.base.amount)
    second ← div128 (mul128 first (to_u128 b.quote.amount)) (to_u128 b.base.amount)
    ok (
        price (asset (signed64 (scale_of precision)) a.base.asset_id)
          (asset (signed64 (w.narrow second)) b.quote.asset_id))

  -- The body of the loop: the result is multiplied if the last bit is set, the base is squared.
  unfoldable pub pow_step : ℕ → Price → Price → ℕ → Result (Price × Price)
  pow_step precision cur_base result pow = do
    result' ← (if pow % 2 == 1 then multiply_of_interest precision result cur_base else ok result)
    cur_base' ← multiply_of_interest precision cur_base cur_base
    ok (cur_base', result')

  -- `while( pow )`, for as many steps as the first argument
  unfoldable pub pow_loop : ℕ → ℕ → Price → Price → ℕ → Result Price
  pow_loop zero precision cur_base result pow = ok result
  pow_loop (suc n) precision cur_base result pow = if pow == 0 then ok result else (do
    next ← pow_step precision cur_base result pow
    pow_loop n precision next.0 next.1 (pow / 2))

  -- A `uint32_t` has 32 bits.
  unfoldable pub fast_pow_of_interest : Price → ℕ → ℕ → Result Price
  fast_pow_of_interest rate pow precision =
      pow_loop 32 precision rate
        (price (asset (pos 1) rate.base.asset_id) (asset (pos 1) rate.quote.asset_id)) pow

  -- What the pool can pay: the scaled gain, or a share of the pool if that is less.
  abbrev pub actual_profile : AssetLockData → ℕ → ℕ → Result ℕ
  actual_profile lock gain need = do
    share ← div128 (mul128 gain (to_u128 lock.interest_pool)) need
    let actual = mul128 share lock.profile_scale_percent / hundred_percent
    ok (
        if leb (to_u128 lock.interest_pool) actual
        then w.narrow
            (mul128 (to_u128 lock.interest_pool) lock.profile_receive_percent / hundred_percent)
        else actual)

  module _ ⦃s : SafeInt⦄ where
    -- `pre_profile`
    unfoldable pub pre_profile : AssetLockData → ℕ → ℤ → ℕ → Asset → Result ℕ
    pre_profile lock lock_period reward precision base_asset = do
      rate ←
          fast_pow_of_interest lock.nominal_interest_perday (lock_period / interest_day) precision
      grown ← multiply base_asset rate
      gain ← sub grown base_asset
      ok (mul128 (to_u128 gain.amount) (to_u128 reward) / hundred_percent)

    -- asset_lock_data_object::_get_interest
    unfoldable pub get_interest : AssetLockData → ℕ → ℕ → ℤ → Result Price
    get_interest lock lock_period digits current_supply =
        let precision = 10 ^ digits in
        let base_asset = asset (signed64 (scale_of precision)) lock.asset_id in
        do
          fc_assert (leb lock_period (lock.max_period * interest_day % u32_mod))
          to_deposit ← s.check (current_supply -ℤ lock.interest_pool)
          top ← fast_pow_of_interest lock.nominal_interest_perday lock.max_period precision
          reward ← reward_rate lock_period lock.max_period lock.reward_coefficient
          gain ← pre_profile lock lock_period reward precision base_asset
          need ← max_need_pool top to_deposit lock.reward_coefficient
          actual ← actual_profile lock gain need
          res_asset ← add (asset (signed64 (w.narrow actual)) lock.asset_id) base_asset
          ok (price base_asset res_asset)

    -- asset_lock_data_object::get_profit
    unfoldable pub get_profit : AssetLockData → ℤ → ℕ → ℕ → ℤ → Result ℤ
    get_profit lock tolocking_balance lock_period digits current_supply = do
      rate ← get_interest lock lock_period digits current_supply
      grown ← multiply (asset tolocking_balance lock.asset_id) rate
      profit ← sub grown (asset tolocking_balance lock.asset_id)
      ok profit.amount
