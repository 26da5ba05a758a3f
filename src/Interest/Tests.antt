-- ===== src/Interest/Tests.antt =====
-- Interest of 0.1 percent a day over 30 days, on 500000 units of an asset of five digits.
use fin_chain_core.Prelude.{ℕ, ◌*◌, ◌/◌, ◌≤◌, ◌≡◌, refl, true, arith}
use fin_chain_core.Prelude.Int.{pos, ◌+ℤ◌, ◌-ℤ◌, mul_ℤ, quot}
use fin_chain_core.Prelude.Results.{ok, SafeInt, int64_safe}
use fin_chain_core.Asset.{asset, add, sub}
use fin_chain_core.Price.{Price, price, multiply}
use fin_chain_core.Interest.{
  Narrowing, AssetLockData, div128, multiply_of_interest, pow_step, pow_loop, fast_pow_of_interest,
  reward_rate, max_need_pool, pre_profile, get_interest, get_profit, interest_day,
}
use fin_chain_core.Interest.Power.{product, fast_pow_of_interest-product}
use fin_chain_core.Interest.Profit.{unit_of, get_profit_lem}

instance abbrev safe : SafeInt
safe = int64_safe

instance abbrev whole : Narrowing
whole = record { narrow = λ n. n; narrow_exact = λ n h. refl }

abbrev daily : Price
daily = price (asset (pos 1_000_000_000_000) 3) (asset (pos 1_001_000_000_000) 3)

abbrev lock : AssetLockData
lock = record {
  asset_id = 3;
  nominal_interest_perday = daily;
  reward_coefficient = 2_000;
  interest_pool = pos 2_000_000_000;
  max_period = 360;
  profile_scale_percent = 10_000;
  profile_receive_percent = 10_000;
  can_unlock_not_expired = true;
}

thirty_days :
    get_profit lock (pos 500_000) (30 * interest_day) 5 (pos 100_000_000_000) ≡ ok (pos 498)
unfolding get_profit get_interest multiply_of_interest div128 pow_step pow_loop fast_pow_of_interest
    reward_rate max_need_pool pre_profile add sub multiply quot mul_ℤ ◌+ℤ◌ ◌-ℤ◌
thirty_days = refl

get_profit_lem_example : (g : ℕ) × (g ≤ 2_000_000_000) × (pos 498 ≡ pos (500_000 * g / unit_of 5))
get_profit_lem_example =
    get_profit_lem lock 500_000 (30 * interest_day) 5 2_000_000_000 (pos 100_000_000_000) (pos 498)
      (omega arith) (omega arith) refl (omega arith) (omega arith) thirty_days

fast_pow_of_interest-product_example :
    fast_pow_of_interest daily 30 100_000 ≡ ok (product 100_000 daily 30 32)
fast_pow_of_interest-product_example =
    fast_pow_of_interest-product 100_000 daily 30 (omega arith) (omega arith) (omega arith)

two_days : fast_pow_of_interest daily 2 100_000 ≡ ok (product 100_000 daily 2 2)
unfolding multiply_of_interest div128 pow_step pow_loop fast_pow_of_interest
two_days = refl
