-- ===== src/Locking/Operations.antt =====
-- The operations on locked balances, each evaluated and then applied.
use fin_chain_core.Prelude.{
  ℕ, ◌+◌, Bool, true, false, not, none, some, [], ◌∷◌, ◌++◌, ◌==◌, leb, if◌then◌else◌, find_first,
  replace_first,
}
use fin_chain_core.Prelude.Int.{ℤ, pos, ◌+ℤ◌, ◌-ℤ◌, ltb_ℤ, leb_ℤ}
use fin_chain_core.Prelude.Results.{
  found, Result, ok, err, assert_exception, SafeInt, ◌>>=◌, ◌>>◌, fc_assert,
}
use fin_chain_core.Asset.{asset, negate, asset_ge}
use fin_chain_core.Ledger.{
  AccountBalance, Balances, find_balance, put_balance, get_balance, adjust_balance,
  add_lock_balance, unlock_balance,
}
use fin_chain_core.Interest.{Narrowing, AssetLockData, get_profit}
use fin_chain_core.Locking.{
  LockedBalance, LockState, SafeTime, is_asset, is_locked, LockBalanceOperation,
  SetLockDataOperation, UnlockBalanceOperation, DonationBalanceOperation, get_lock_data,
  put_lock_data, new_locked, new_lock_data,
}

module _ ⦃s : SafeInt⦄ where
  -- `interest_pool += amount`
  unfoldable pub add_to_pool : ℤ → AssetLockData → Result AssetLockData
  add_to_pool amount lock = do
    pool ← s.check (lock.interest_pool +ℤ amount)
    ok (record lock { interest_pool = pool })

  -- set_lock_data_evaluator, do_evaluate and do_apply
  unfoldable pub set_lock_data : SetLockDataOperation → LockState → Result LockState
  set_lock_data op c = do
    a ← found (find_first (is_asset op.init_interest_pool.asset_id) c.assets)
    fc_assert (elim a.lock_data [ none ↦ true | some lock ↦ false ])
    fc_assert (a.issuer == op.issuer)
    fc_assert (
        if ltb_ℤ (pos 0) op.init_interest_pool.amount
        then leb_ℤ op.init_interest_pool.amount
            (get_balance c.balances op.issuer op.init_interest_pool.asset_id).amount
        else true)
    enough ←
        asset_ge (get_balance c.balances op.issuer op.init_interest_pool.asset_id)
          op.init_interest_pool
    fc_assert enough
    balances ←
        (if ltb_ℤ (pos 0) op.init_interest_pool.amount
          then (do debit ← negate op.init_interest_pool; adjust_balance op.issuer debit c.balances)
          else ok c.balances)
    ok (record c {
      assets = put_lock_data a (new_lock_data op) a.locked_balance c.assets;
      balances = balances;
    })

  -- donation_balance_evaluator, do_evaluate and do_apply
  unfoldable pub donate : DonationBalanceOperation → LockState → Result LockState
  donate op c = do
    enough ← asset_ge (get_balance c.balances op.issuer op.amount.asset_id) op.amount
    fc_assert enough
    (a, lock) ← get_lock_data op.amount.asset_id c
    debit ← negate op.amount
    balances ← adjust_balance op.issuer debit c.balances
    lock' ← add_to_pool op.amount.amount lock
    ok (record c { assets = put_lock_data a lock' a.locked_balance c.assets; balances = balances })

  -- The change of the set of locked balances that `lock` and `unlock` make on the balance of an
  -- account, which must be there.
  abbrev pub change_lockeds :
      ℕ → ℕ → (AccountBalance → Result AccountBalance) → Balances → Result Balances
  change_lockeds issuer i change bs = do
    b ← found (find_balance issuer i bs)
    b' ← change b
    ok (put_balance issuer i b' bs)

  -- Unlocking before the period is over: the interest goes back to the pool.
  unfoldable pub pay_early :
      UnlockBalanceOperation
      → LockedBalance
      → AssetLockData
      → Balances
      → Result (Balances × AssetLockData)
  pay_early op item lock bs = do
    bs' ← adjust_balance op.issuer (asset item.initial_lock_balance item.asset_id) bs
    interest ← s.check (item.locked_balance -ℤ item.initial_lock_balance)
    lock' ← add_to_pool interest lock
    ok (bs', lock')

  -- The three branches of `unlock_balance_evaluator::do_apply`.
  abbrev pub pay_out :
      Bool
      → UnlockBalanceOperation
      → LockedBalance
      → AssetLockData
      → Balances
      → Result (Balances × AssetLockData)
  pay_out matured op item lock bs =
      if matured
      then (do
        bs' ← adjust_balance op.issuer (asset item.locked_balance item.asset_id) bs
        ok (bs', lock))
      else if not lock.can_unlock_not_expired
      then err assert_exception
      else pay_early op item lock bs

  -- `o.locked.expired && (d.head_block_time() >= time_point_sec(item.get_unlock_time()))`
  abbrev pub is_matured : ⦃t : SafeTime⦄ → UnlockBalanceOperation → LockedBalance → ℕ → Result Bool
  is_matured ⦃t⦄ op item now =
      if op.expired
      then (do
        unlock_time ← t.check_time (item.lock_time + item.lock_period)
        ok (leb unlock_time now))
      else ok false

  -- unlock_balance_evaluator, do_evaluate and do_apply
  unfoldable pub unlock : ⦃t : SafeTime⦄ → UnlockBalanceOperation → LockState → Result LockState
  unlock op c = do
    item ← found (find_first (is_locked op.locked_id) c.lockeds)
    fc_assert (leb_ℤ (pos 0) item.locked_balance)
    (a, lock) ← get_lock_data item.asset_id c
    held ← found (find_balance op.issuer item.asset_id c.balances)
    fc_assert (not item.finish)
    matured ← is_matured op item c.head_block_time
    (paid, lock') ← pay_out matured op item lock c.balances
    balances ← change_lockeds op.issuer item.asset_id (unlock_balance item.locked_id) paid
    ok (record c {
      assets = put_lock_data a lock' a.locked_balance c.assets;
      lockeds = replace_first (is_locked op.locked_id) (record item { finish = true }) c.lockeds;
      balances = balances;
    })

  module _ ⦃w : Narrowing⦄ where
    -- lock_balance_evaluator::do_evaluate, which leaves the profit and the amount to lock behind; that
    -- there are lock data is tested twice in the code
    unfoldable pub evaluate_lock : LockBalanceOperation → LockState → Result (ℤ × ℤ)
    evaluate_lock op c = do
      (a, lock) ← get_lock_data op.amount.asset_id c
      fc_assert
          (leb_ℤ op.amount.amount (get_balance c.balances op.issuer op.amount.asset_id).amount)
      profit ← get_profit lock op.amount.amount op.period a.precision a.current_supply
      to_locked_balance ← s.check (profit +ℤ op.amount.amount)
      fc_assert (leb_ℤ profit lock.interest_pool)
      ok (profit, to_locked_balance)

  -- lock_balance_evaluator::do_apply
  unfoldable pub apply_lock : LockBalanceOperation → ℤ → ℤ → LockState → Result LockState
  apply_lock op profit to_locked_balance c = do
    (a, lock) ← get_lock_data op.amount.asset_id c
    held ← found (find_balance op.issuer op.amount.asset_id c.balances)
    debit ← negate op.amount
    paid ← adjust_balance op.issuer debit c.balances
    balances ← change_lockeds op.issuer op.amount.asset_id (add_lock_balance c.next_id) paid
    pool ← s.check (lock.interest_pool -ℤ profit)
    locked ← s.check (a.locked_balance +ℤ to_locked_balance)
    ok (record c {
      assets = put_lock_data a (record lock { interest_pool = pool }) locked c.assets;
      lockeds = c.lockeds ++ (new_locked op to_locked_balance c ∷ []);
      balances = balances;
      next_id = c.next_id + 1;
    })

  unfoldable pub lock_balance :
      ⦃w : Narrowing⦄ → LockBalanceOperation → LockState → Result LockState
  lock_balance op c = do
    (profit, to_locked_balance) ← evaluate_lock op c
    apply_lock op profit to_locked_balance c
