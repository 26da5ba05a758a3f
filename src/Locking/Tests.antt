-- ===== src/Locking/Tests.antt =====
-- An account locks 500000 of its million units for 30 days, and unlocks them when the period is over.
use fin_chain_core.Prelude.{
  ℕ, ◌*◌, ◌<◌, ◌^◌, ◌≡◌, refl, Bool, true, false, none, some, Option, List, [], ◌∷◌, ◌++◌, ltb,
  if◌then◌else◌, arith, find_first, replace_first,
}
use fin_chain_core.Prelude.Int.{ℤ, pos, negsuc, neg, ◌+ℤ◌, ◌-ℤ◌, ◌≤ℤ◌, mul_ℤ, quot}
use fin_chain_core.Prelude.Results.{
  Result, ok, err, assert_exception, overflow_exception, SafeInt, int64_safe,
}
use fin_chain_core.Asset.{asset, add, sub, negate, asset_lt, asset_ge}
use fin_chain_core.Price.{price, multiply}
use fin_chain_core.Ledger.{
  AccountBalance, find_balance, put_balance, get_balance, adjust_balance, add_lock_balance,
  unlock_balance,
}
use fin_chain_core.Interest.{
  Narrowing, AssetLockData, div128, multiply_of_interest, pow_step, pow_loop, fast_pow_of_interest,
  reward_rate, max_need_pool, pre_profile, get_interest, get_profit,
}
use fin_chain_core.Locking.{
  LockAsset, LockedBalance, LockState, SafeTime, is_asset, LockBalanceOperation,
  UnlockBalanceOperation, DonationBalanceOperation, SetLockDataOperation, validate_donation,
  get_lock_data, put_lock_data,
}
use fin_chain_core.Locking.Operations.{
  add_to_pool, donate, set_lock_data, pay_early, unlock, evaluate_lock, apply_lock, lock_balance,
}
use fin_chain_core.Locking.Value.{value}
use fin_chain_core.Locking.Conserve.{value-unlock, value-lock_balance}
use fin_chain_core.Locking.Terms.{lock_balance_terms}
use fin_chain_core.Locking.Once.{donate_negative}
use fin_chain_core.Locking.Reach.{no_change, change, elsewhere, donates, unlock_once}
use fin_chain_core.Prelude.{◌==◌, ◌&&◌}

instance abbrev safe : SafeInt
safe = int64_safe

instance abbrev whole : Narrowing
whole = record { narrow = λ n. n; narrow_exact = λ n h. refl }

abbrev time_check : ℕ → Result ℕ
time_check n = if ltb n (2 ^ 32) then ok n else err overflow_exception

time_check_exact : (a b : ℕ) → time_check a ≡ ok b → b ≡ a
time_check_exact a b h = ground arith

time_check_fits : (a : ℕ) → a < 2 ^ 32 → time_check a ≡ ok a
time_check_fits a h = ground arith

instance abbrev time : SafeTime
time = record {
  check_time = time_check;
  check_time_exact = time_check_exact;
  check_time_fits = time_check_fits;
}

abbrev month : ℕ
month = 30 * 86_400

abbrev pool : ℤ → AssetLockData
pool n = record {
  asset_id = 3;
  nominal_interest_perday =
      price (asset (pos 1_000_000_000_000) 3) (asset (pos 1_001_000_000_000) 3);
  reward_coefficient = 2_000;
  interest_pool = n;
  max_period = 360;
  profile_scale_percent = 10_000;
  profile_receive_percent = 10_000;
  can_unlock_not_expired = true;
}

abbrev token : ℤ → Option AssetLockData → LockAsset
token locked lock = record {
  asset_id = 3;
  issuer = 1;
  precision = 5;
  current_supply = pos 100_000_000_000;
  locked_balance = locked;
  lock_data = lock;
}

abbrev entry : ℕ → List ℕ → AccountBalance
entry n ids = record { owner = 1; asset_type = 3; balance = pos n; lockeds = ids }

abbrev locked : Bool → LockedBalance
locked over = record {
  locked_id = 0;
  initial_lock_balance = pos 500_000;
  locked_balance = pos 500_498;
  lock_time = 1_000;
  lock_period = month;
  asset_id = 3;
  finish = over;
}

abbrev state : ℕ → LockAsset → List LockedBalance → AccountBalance → ℕ → LockState
state now a items b next = record {
  assets = a ∷ [];
  lockeds = items;
  balances = b ∷ [];
  head_block_time = now;
  next_id = next;
}

abbrev start : LockState
start = state 1_000 (token (pos 0) (some (pool (pos 2_000_000_000)))) [] (entry 1_000_000 []) 0

abbrev after_lock : ℕ → LockState
after_lock now =
    state now (token (pos 500_498) (some (pool (pos 1_999_999_502)))) (locked false ∷ [])
      (entry 500_000 (0 ∷ [])) 1

abbrev after_unlock : LockState
after_unlock =
    state 3_000_000 (token (pos 500_498) (some (pool (pos 1_999_999_502)))) (locked true ∷ [])
      (entry 1_000_498 []) 1

abbrev lock_op : LockBalanceOperation
lock_op = record {
  fee = asset (pos 20) 0;
  issuer = 1;
  amount = asset (pos 500_000) 3;
  period = month;
}

abbrev unlock_op : UnlockBalanceOperation
unlock_op = record { fee = asset (pos 20) 0; issuer = 1; locked_id = 0; expired = true }

locks : lock_balance lock_op start ≡ ok (after_lock 1_000)
unfolding lock_balance evaluate_lock apply_lock get_lock_data get_profit get_interest
    multiply_of_interest div128 pow_step pow_loop fast_pow_of_interest reward_rate max_need_pool
    pre_profile add sub multiply quot mul_ℤ ◌+ℤ◌ ◌-ℤ◌ neg negate asset_lt asset_ge get_balance
    adjust_balance find_balance put_balance add_lock_balance find_first replace_first
locks = refl

unlocks : unlock unlock_op (after_lock 3_000_000) ≡ ok after_unlock
unfolding unlock pay_early get_lock_data ◌+ℤ◌ adjust_balance find_balance put_balance unlock_balance
    find_first replace_first
unlocks = refl

value-lock_balance_example : value 3 (after_lock 1_000) ≡ value 3 start
value-lock_balance_example = value-lock_balance 3 lock_op start (after_lock 1_000) locks

lock_balance_terms_example :
    (a : LockAsset) × (lock : AssetLockData) × (profit : ℤ) × (find_first (is_asset 3) start.assets
      ≡ some a)
    × (a.lock_data ≡ some lock)
    × (get_profit lock (pos 500_000) month a.precision a.current_supply ≡ ok profit)
    × (profit ≤ℤ lock.interest_pool)
    × (pos 500_000 ≤ℤ (get_balance start.balances 1 3).amount)
    × (find_first (is_asset 3) (after_lock 1_000).assets
        ≡ some (record a {
          lock_data = some (record lock { interest_pool = lock.interest_pool +ℤ neg profit });
          locked_balance = a.locked_balance +ℤ (profit +ℤ pos 500_000);
        }))
    × ((o i : ℕ)
        → get_balance (after_lock 1_000).balances o i ≡ (
            if (1 == o) && (3 == i)
            then asset ((get_balance start.balances 1 3).amount +ℤ neg (pos 500_000)) i
            else get_balance start.balances o i))
    × ((after_lock 1_000).lockeds
        ≡ start.lockeds
          ++ (record {
            locked_id = 0;
            initial_lock_balance = pos 500_000;
            locked_balance = profit +ℤ pos 500_000;
            lock_time = 1_000;
            lock_period = month;
            asset_id = 3;
            finish = false;
          }
              ∷ []))
    × ((after_lock 1_000).next_id ≡ 1)
lock_balance_terms_example = lock_balance_terms lock_op start (after_lock 1_000) locks

value-unlock_example : value 3 after_unlock ≡ value 3 (after_lock 3_000_000)
value-unlock_example = value-unlock 3 unlock_op (after_lock 3_000_000) after_unlock unlocks

abbrev donation : DonationBalanceOperation
donation = record { fee = asset (pos 20) 0; issuer = 1; amount = asset (pos 40) 3 }

abbrev after_donation : LockState
after_donation =
    state 1_000 (token (pos 0) (some (pool (pos 2_000_000_040)))) [] (entry 999_960 []) 0

donated : donate donation start ≡ ok after_donation
unfolding donate add_to_pool get_lock_data ◌+ℤ◌ neg negate asset_lt asset_ge get_balance
    adjust_balance find_balance put_balance find_first replace_first
donated = refl

-- A donation and the passing of time after the unlocking
abbrev later : LockState
later =
    state 4_000_000 (token (pos 500_498) (some (pool (pos 1_999_999_542)))) (locked true ∷ [])
      (entry 1_000_458 []) 1

donated_later : donate donation (record after_unlock { head_block_time = 4_000_000 }) ≡ ok later
unfolding donate add_to_pool get_lock_data ◌+ℤ◌ neg negate asset_lt asset_ge get_balance
    adjust_balance find_balance put_balance find_first replace_first
donated_later = refl

unlock_once_example : unlock unlock_op later ≡ err assert_exception
unlock_once_example =
    unlock_once unlock_op unlock_op (after_lock 3_000_000) after_unlock later unlocks
      (change (change no_change (elsewhere refl)) (donates donation donated_later)) refl

donate_negative_example :
    let op : DonationBalanceOperation = record {
      fee = asset (pos 20) 0;
      issuer = 2;
      amount = asset (negsuc 99) 3;
    } in
    (validate_donation op ≡ ok tt)
    × ((c' : LockState) × (donate op start ≡ ok c')
        × (get_balance c'.balances 2 3
            ≡ asset ((get_balance start.balances 2 3).amount +ℤ pos 100) 3)
        × (c'.assets
            ≡ put_lock_data
                (token (pos 0) (some (pool (pos 2_000_000_000))))
                (pool (pos 2_000_000_000 +ℤ negsuc 99))
                (pos 0)
                start.assets))
unfolding get_balance find_balance find_first ◌+ℤ◌
donate_negative_example =
    donate_negative 99 3 2 (asset (pos 20) 0) start
      (token (pos 0) (some (pool (pos 2_000_000_000)))) (pool (pos 2_000_000_000)) (omega arith)
      (omega arith) refl refl (omega arith) (omega arith) (omega arith)

abbrev set_op : SetLockDataOperation
set_op = record {
  fee = asset (pos 20) 0;
  issuer = 1;
  nominal_interest_perday = 1_001_000_000_000;
  reward_coefficient = 2_000;
  init_interest_pool = asset (pos 400_000) 3;
  max_period = 360;
  profile_scale_percent = 10_000;
  profile_receive_percent = 10_000;
  can_unlock_not_expired = true;
}

abbrev without : LockState
without = state 1_000 (token (pos 0) none) [] (entry 1_000_000 []) 0

abbrev with_pool : LockState
with_pool = state 1_000 (token (pos 0) (some (pool (pos 400_000)))) [] (entry 600_000 []) 0

has_set : set_lock_data set_op without ≡ ok with_pool
unfolding set_lock_data ◌+ℤ◌ neg negate asset_lt asset_ge get_balance adjust_balance find_balance
    put_balance find_first replace_first
has_set = refl
