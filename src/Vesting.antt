-- ===== src/Vesting.antt =====
-- Vesting balances (libraries/chain/vesting_balance_object.cpp and its header): a linear policy with
-- a cliff, and a policy that counts coin seconds. Times are seconds, `fc::uint128_t` is a word of 128
-- bits. `assert` is off in a release build and is not modelled.
use fin_chain_core.Prelude.{
  ℕ, ◌+◌, ◌-◌, ◌*◌, ◌/◌, ◌%◌, ◌^◌, Bool, true, false, ◌==◌, ltb, leb, ◌&&◌, if◌then◌else◌, min, max,
}
use fin_chain_core.Prelude.Int.{ℤ, pos, negsuc, ◌+ℤ◌, ◌-ℤ◌, leb_ℤ, sub_ℕ}
use fin_chain_core.Prelude.Words.{to_u128, mul128, u64_mod, u128_mod, mul_int64}
use fin_chain_core.Prelude.Results.{
  Result, ok, err, assert_exception, SafeInt, ◌>>=◌, ◌>>◌, fc_assert,
}
use fin_chain_core.Asset.{Asset, asset, add, sub, asset_le, max_share_supply}
pub mod Cdd
pub mod Claims
pub mod Linear
pub mod Balance
mod Tests

-- struct vesting_policy_context
pub record VestingPolicyContext : Type 0 where
  pub balance : Asset
  pub now : ℕ
  pub amount : Asset

-- struct linear_vesting_policy
pub record LinearVestingPolicy : Type 0 where
  pub begin_timestamp : ℕ
  pub vesting_cliff_seconds : ℕ
  pub vesting_duration_seconds : ℕ
  pub begin_balance : ℤ

-- struct cdd_vesting_policy
pub record CddVestingPolicy : Type 0 where
  pub vesting_seconds : ℕ
  pub coin_seconds_earned : ℕ
  pub start_claim : ℕ
  pub coin_seconds_earned_last_update : ℕ

-- The static variant of the two policies.
pub data VestingPolicy : Type 0 where
  linear : LinearVestingPolicy → VestingPolicy
  cdd : CddVestingPolicy → VestingPolicy

-- class vesting_balance_object
pub record VestingBalance : Type 0 where
  pub owner : ℕ
  pub balance : Asset
  pub policy : VestingPolicy

-- The sum of two amounts is one of `share_type`, so it is checked.
unfoldable pub sum_below_max_shares : ⦃s : SafeInt⦄ → Asset → Asset → Result Bool
sum_below_max_shares ⦃s⦄ a b =
    if leb_ℤ a.amount (pos max_share_supply) && leb_ℤ b.amount (pos max_share_supply)
    then (do sum ← s.check (a.amount +ℤ b.amount); ok (leb_ℤ sum (pos max_share_supply)))
    else ok false

-- `total_vested` of the linear policy once the cliff is past
abbrev pub linear_vested : LinearVestingPolicy → ℕ → ℤ
linear_vested p elapsed =
    if ltb elapsed p.vesting_duration_seconds
    then pos ((mul128 (to_u128 p.begin_balance) elapsed / p.vesting_duration_seconds) % u64_mod)
    else p.begin_balance

-- linear_vesting_policy::get_allowed_withdraw
unfoldable pub linear_get_allowed_withdraw :
    ⦃s : SafeInt⦄ → LinearVestingPolicy → VestingPolicyContext → Result Asset
linear_get_allowed_withdraw ⦃s⦄ p ctx =
    let elapsed = ctx.now - p.begin_timestamp in
    if ltb p.begin_timestamp ctx.now && leb p.vesting_cliff_seconds elapsed
    then (do
      withdrawn_already ← s.check (p.begin_balance -ℤ ctx.balance.amount)
      allowed ← s.check (linear_vested p elapsed -ℤ withdrawn_already)
      ok (asset allowed ctx.balance.asset_id))
    else ok (asset (pos 0) ctx.balance.asset_id)

-- `std::max(vesting_seconds, 1u)`
abbrev pub seconds_of : CddVestingPolicy → ℕ
seconds_of p = max p.vesting_seconds 1

-- cdd_vesting_policy::compute_coin_seconds_earned
unfoldable pub compute_coin_seconds_earned : CddVestingPolicy → VestingPolicyContext → ℕ
compute_coin_seconds_earned p ctx =
    let delta_seconds = sub_ℕ ctx.now p.coin_seconds_earned_last_update in
    let delta_coin_seconds = mul128 (to_u128 ctx.balance.amount) (to_u128 delta_seconds) in
    let coin_seconds_earned_cap = mul128 (to_u128 ctx.balance.amount) (seconds_of p) in
    min ((p.coin_seconds_earned + delta_coin_seconds) % u128_mod) coin_seconds_earned_cap

-- cdd_vesting_policy::update_coin_seconds_earned
unfoldable pub update_coin_seconds_earned :
    CddVestingPolicy → VestingPolicyContext → CddVestingPolicy
update_coin_seconds_earned p ctx = record p {
  coin_seconds_earned = compute_coin_seconds_earned p ctx;
  coin_seconds_earned_last_update = ctx.now;
}

-- cdd_vesting_policy::get_allowed_withdraw
unfoldable pub cdd_get_allowed_withdraw : CddVestingPolicy → VestingPolicyContext → Asset
cdd_get_allowed_withdraw p ctx =
    if leb ctx.now p.start_claim
    then asset (pos 0) ctx.balance.asset_id
    else asset (pos ((compute_coin_seconds_earned p ctx / seconds_of p) % u64_mod))
        ctx.balance.asset_id

-- cdd_vesting_policy::on_deposit_vested; the product `amount * seconds` is one of `int64_t`
unfoldable pub cdd_on_deposit_vested : CddVestingPolicy → VestingPolicyContext → CddVestingPolicy
unfolding update_coin_seconds_earned
cdd_on_deposit_vested p ctx =
    let q = update_coin_seconds_earned p ctx in
    record q {
      coin_seconds_earned =
          (q.coin_seconds_earned + to_u128 (mul_int64 ctx.amount.amount (seconds_of p))) % u128_mod;
    }

-- cdd_vesting_policy::on_withdraw
unfoldable pub cdd_on_withdraw : CddVestingPolicy → VestingPolicyContext → CddVestingPolicy
unfolding update_coin_seconds_earned
cdd_on_withdraw p ctx =
    let q = update_coin_seconds_earned p ctx in
    let coin_seconds_needed = mul128 (to_u128 ctx.amount.amount) (seconds_of p) in
    record q {
      coin_seconds_earned = (q.coin_seconds_earned + u128_mod - coin_seconds_needed) % u128_mod;
    }

-- The visitors, one for each operation of a policy.
unfoldable pub on_deposit : VestingPolicy → VestingPolicyContext → VestingPolicy
unfolding update_coin_seconds_earned
on_deposit (linear p) ctx = linear p
on_deposit (cdd p) ctx = cdd (update_coin_seconds_earned p ctx)

unfoldable pub on_deposit_vested : VestingPolicy → VestingPolicyContext → Result VestingPolicy
unfolding cdd_on_deposit_vested
on_deposit_vested (linear p) ctx = err assert_exception
on_deposit_vested (cdd p) ctx = ok (cdd (cdd_on_deposit_vested p ctx))

unfoldable pub on_withdraw : VestingPolicy → VestingPolicyContext → VestingPolicy
unfolding cdd_on_withdraw
on_withdraw (linear p) ctx = linear p
on_withdraw (cdd p) ctx = cdd (cdd_on_withdraw p ctx)

module _ ⦃s : SafeInt⦄ where
  -- The test is the same for both policies.
  unfoldable pub deposit_allowed : VestingPolicyContext → Result Bool
  unfolding sum_below_max_shares
  deposit_allowed ctx =
      if ctx.amount.asset_id == ctx.balance.asset_id
      then sum_below_max_shares ctx.amount ctx.balance
      else ok false

  unfoldable pub deposit_vested_allowed : VestingPolicy → VestingPolicyContext → Result Bool
  unfolding deposit_allowed
  deposit_vested_allowed (linear p) ctx = ok false
  deposit_vested_allowed (cdd p) ctx = deposit_allowed ctx

  unfoldable pub allowed_withdraw : VestingPolicy → VestingPolicyContext → Result Asset
  unfolding linear_get_allowed_withdraw cdd_get_allowed_withdraw
  allowed_withdraw (linear p) ctx = linear_get_allowed_withdraw p ctx
  allowed_withdraw (cdd p) ctx = ok (cdd_get_allowed_withdraw p ctx)

  -- The linear policy looks at the assets first; for the other a difference raises in `<=`.
  unfoldable pub withdraw_allowed : VestingPolicy → VestingPolicyContext → Result Bool
  unfolding linear_get_allowed_withdraw cdd_get_allowed_withdraw asset_le
  withdraw_allowed (linear p) ctx =
      if ctx.amount.asset_id == ctx.balance.asset_id
      then (do allowed ← linear_get_allowed_withdraw p ctx; asset_le ctx.amount allowed)
      else ok false
  withdraw_allowed (cdd p) ctx = asset_le ctx.amount (cdd_get_allowed_withdraw p ctx)

  abbrev context_of : VestingBalance → ℕ → Asset → VestingPolicyContext
  context_of v t amount = record { balance = v.balance; now = t; amount = amount }

  -- vesting_balance_object::is_deposit_allowed
  unfoldable pub is_deposit_allowed : VestingBalance → ℕ → Asset → Result Bool
  unfolding deposit_allowed
  is_deposit_allowed v t amount = deposit_allowed (context_of v t amount)

  -- vesting_balance_object::is_deposit_vested_allowed
  unfoldable pub is_deposit_vested_allowed : VestingBalance → ℕ → Asset → Result Bool
  unfolding deposit_vested_allowed
  is_deposit_vested_allowed v t amount = deposit_vested_allowed v.policy (context_of v t amount)

  -- vesting_balance_object::is_withdraw_allowed
  unfoldable pub is_withdraw_allowed : VestingBalance → ℕ → Asset → Result Bool
  unfolding withdraw_allowed
  is_withdraw_allowed v t amount = withdraw_allowed v.policy (context_of v t amount)

  -- vesting_balance_object::get_allowed_withdraw
  unfoldable pub get_allowed_withdraw : VestingBalance → ℕ → Result Asset
  unfolding allowed_withdraw
  get_allowed_withdraw v t = allowed_withdraw v.policy (context_of v t (asset (pos 0) 0))

  -- vesting_balance_object::deposit
  unfoldable pub deposit : VestingBalance → ℕ → Asset → Result VestingBalance
  unfolding on_deposit add
  deposit v t amount = do
    let policy' = on_deposit v.policy (context_of v t amount)
    balance' ← add v.balance amount
    ok (record v { balance = balance'; policy = policy' })

  -- vesting_balance_object::deposit_vested
  unfoldable pub deposit_vested : VestingBalance → ℕ → Asset → Result VestingBalance
  unfolding on_deposit_vested add
  deposit_vested v t amount = do
    policy' ← on_deposit_vested v.policy (context_of v t amount)
    balance' ← add v.balance amount
    ok (record v { balance = balance'; policy = policy' })

  -- vesting_balance_object::withdraw
  unfoldable pub withdraw : VestingBalance → ℕ → Asset → Result VestingBalance
  unfolding on_withdraw sub
  withdraw v t amount = do
    let policy' = on_withdraw v.policy (context_of v t amount)
    balance' ← sub v.balance amount
    ok (record v { balance = balance'; policy = policy' })
