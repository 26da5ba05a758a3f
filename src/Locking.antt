-- ===== src/Locking.antt =====
-- Locked balances (libraries/chain/lock_balance_evaluator.cpp, libraries/chain/protocol/lock_balance.cpp and
-- libraries/chain/include/graphene/chain/locked_balance_object.hpp): an amount is locked for a period with its
-- interest, which the interest pool of its asset pays.
--
-- The lock data of an asset are an object that the asset names by its id. Each is created for one
-- asset that has none yet, so that it is a field of the asset here.
use native.Mathlib.Nat.{le_refl}
use fin_chain_core.Prelude.{
  ℕ, suc, ◌+◌, ◌<◌, ◌^◌, ◌≡◌, Bool, true, false, not, Option, none, some, List, [], ◌∷◌, ◌++◌, ◌==◌,
  ◌&&◌, leb, if◌then◌else◌, find_first, replace_first,
}
use fin_chain_core.Prelude.Int.{ℤ, pos, ◌+ℤ◌, ◌-ℤ◌, ltb_ℤ, leb_ℤ}
use fin_chain_core.Prelude.Words.{signed64}
use fin_chain_core.Prelude.Results.{
  found, Result, ok, err, assert_exception, SafeInt, ◌>>=◌, ◌>>◌, fc_assert,
}
use fin_chain_core.Asset.{Asset, asset, negate, asset_ge}
use fin_chain_core.Price.{Price, price}
use fin_chain_core.Ledger.{
  AccountBalance, Balances, find_balance, put_balance, get_balance, adjust_balance,
  add_lock_balance, unlock_balance,
}
use fin_chain_core.Interest.{AssetLockData, interest_day}
pub mod Operations
pub mod Value
pub mod Steps
pub mod LockSteps
pub mod Conserve
pub mod Once
pub mod Reach
pub mod Terms
pub mod Pools
mod Tests

-- `asset_object` with its dynamic data, as far as locking reads and writes them.
pub record LockAsset : Type 0 where
  pub asset_id : ℕ
  pub issuer : ℕ
  pub precision : ℕ
  pub current_supply : ℤ
  pub locked_balance : ℤ
  pub lock_data : Option AssetLockData

-- class locked_balance_object, for balances that an account has locked itself
pub record LockedBalance : Type 0 where
  pub locked_id : ℕ
  pub initial_lock_balance : ℤ
  pub locked_balance : ℤ
  pub lock_time : ℕ
  pub lock_period : ℕ
  pub asset_id : ℕ
  pub finish : Bool

pub record LockState : Type 0 where
  pub assets : List LockAsset
  pub lockeds : List LockedBalance
  pub balances : Balances
  pub head_block_time : ℕ
  pub next_id : ℕ

-- `fc::safe<uint32_t>`, of which times and periods are
pub record SafeTime : Type 0 where
  pub check_time : ℕ → Result ℕ
  pub check_time_exact : (a b : ℕ) → check_time a ≡ ok b → b ≡ a
  pub check_time_fits : (a : ℕ) → a < 2 ^ 32 → check_time a ≡ ok a

abbrev pub is_asset : ℕ → LockAsset → Bool
is_asset i a = a.asset_id == i

abbrev pub is_locked : ℕ → LockedBalance → Bool
is_locked i l = l.locked_id == i

-- struct lock_balance_operation
pub record LockBalanceOperation : Type 0 where
  pub fee : Asset
  pub issuer : ℕ
  pub amount : Asset
  pub period : ℕ

-- struct set_lock_data_operation
pub record SetLockDataOperation : Type 0 where
  pub fee : Asset
  pub issuer : ℕ
  pub nominal_interest_perday : ℕ
  pub reward_coefficient : ℕ
  pub init_interest_pool : Asset
  pub max_period : ℕ
  pub profile_scale_percent : ℕ
  pub profile_receive_percent : ℕ
  pub can_unlock_not_expired : Bool

-- struct unlock_balance_operation
pub record UnlockBalanceOperation : Type 0 where
  pub fee : Asset
  pub issuer : ℕ
  pub locked_id : ℕ
  pub expired : Bool

-- struct donation_balance_operation
pub record DonationBalanceOperation : Type 0 where
  pub fee : Asset
  pub issuer : ℕ
  pub amount : Asset

unfoldable pub validate_lock : LockBalanceOperation → Result (Unit {0})
validate_lock op = do
  fc_assert (leb_ℤ (pos 0) op.fee.amount)
  fc_assert (ltb_ℤ (pos 0) op.amount.amount)
  fc_assert (leb interest_day op.period)

unfoldable pub validate_set_lock_data : SetLockDataOperation → Result (Unit {0})
validate_set_lock_data op = do
  fc_assert (leb_ℤ (pos 0) op.fee.amount)
  fc_assert (leb 1 op.nominal_interest_perday)
  fc_assert (leb_ℤ (pos 0) op.init_interest_pool.amount)
  fc_assert (leb op.reward_coefficient 10_000)
  fc_assert (leb 2 op.max_period)
  fc_assert (leb 1 op.profile_scale_percent)
  fc_assert (leb op.profile_receive_percent 10_000)

-- unlock_balance_operation::validate and donation_balance_operation::validate look at the fee alone
unfoldable pub validate_unlock : UnlockBalanceOperation → Result (Unit {0})
validate_unlock op = fc_assert (leb_ℤ (pos 0) op.fee.amount)

unfoldable pub validate_donation : DonationBalanceOperation → Result (Unit {0})
validate_donation op = fc_assert (leb_ℤ (pos 0) op.fee.amount)

-- The asset of an id, with its lock data.
unfoldable pub get_lock_data : ℕ → LockState → Result (LockAsset × AssetLockData)
get_lock_data i c = do
  a ← found (find_first (is_asset i) c.assets)
  lock ← found a.lock_data
  ok (a, lock)

-- The lock data of an asset written anew, with a new sum of locked balances.
abbrev pub put_lock_data : LockAsset → AssetLockData → ℤ → List LockAsset → List LockAsset
put_lock_data a lock locked assets =
    replace_first (is_asset a.asset_id)
      (record a { lock_data = some lock; locked_balance = locked }) assets

-- The object that `lock_balance_evaluator::do_apply` creates.
abbrev pub new_locked : LockBalanceOperation → ℤ → LockState → LockedBalance
new_locked op total c = record {
  locked_id = c.next_id;
  initial_lock_balance = op.amount.amount;
  locked_balance = total;
  lock_time = c.head_block_time;
  lock_period = op.period;
  asset_id = op.amount.asset_id;
  finish = false;
}

-- The object that `set_lock_data_evaluator::do_apply` creates.
abbrev pub new_lock_data : SetLockDataOperation → AssetLockData
new_lock_data op = record {
  asset_id = op.init_interest_pool.asset_id;
  nominal_interest_perday =
      price (asset (pos 1_000_000_000_000) op.init_interest_pool.asset_id)
        (asset (signed64 op.nominal_interest_perday) op.init_interest_pool.asset_id);
  reward_coefficient = op.reward_coefficient;
  interest_pool = op.init_interest_pool.amount;
  max_period = op.max_period;
  profile_scale_percent = op.profile_scale_percent;
  profile_receive_percent = op.profile_receive_percent;
  can_unlock_not_expired = op.can_unlock_not_expired;
}
