-- ===== src/Locking/LockSteps.antt =====
-- What a locking has done when it returns.
use fin_chain_core.Prelude.{◌≡◌, sym, ap, subst, ◌∙◌, some, find_first, [], ◌∷◌, ◌++◌, ◌+◌}
use fin_chain_core.Prelude.Int.{ℤ, ◌+ℤ◌, ◌-ℤ◌, neg, leb_ℤ, leb_ℤ→le, ◌≤ℤ◌, int_laws}
use fin_chain_core.Prelude.Results.{
  found, ok, SafeInt, >>=-eq-ok, ok-injective, fc_assert, ensure-eq-ok,
}
use fin_chain_core.Asset.{asset, negate}
use fin_chain_core.Asset.Laws.{negate-eq-ok}
use fin_chain_core.Ledger.{Balances, find_balance, adjust_balance, add_lock_balance}
use fin_chain_core.Ledger.Totals.{total}
use fin_chain_core.Interest.{Narrowing, AssetLockData, get_profit}
use fin_chain_core.Locking.{
  LockAsset, LockState, is_asset, get_lock_data, put_lock_data, new_locked, LockBalanceOperation,
}
use fin_chain_core.Locking.Operations.{change_lockeds, evaluate_lock, apply_lock}
use fin_chain_core.Ledger.{get_balance}
use fin_chain_core.Locking.Value.{get_lock_data-eq-ok}

-- The profit is within the pool, the amount within the balance, and both are locked.
pub evaluate_lock-eq-ok :
    ⦃s : SafeInt⦄ ⦃w : Narrowing⦄ (op : LockBalanceOperation) (c : LockState) {x : ℤ × ℤ}
    → evaluate_lock op c ≡ ok x
    → (a : LockAsset) × (lock : AssetLockData) × (find_first (is_asset op.amount.asset_id) c.assets
        ≡ some a)
      × (a.lock_data ≡ some lock)
      × (op.amount.amount ≤ℤ (get_balance c.balances op.issuer op.amount.asset_id).amount)
      × (get_profit lock op.amount.amount op.period a.precision a.current_supply ≡ ok x.0)
      × (x.1 ≡ x.0 +ℤ op.amount.amount)
      × (x.0 ≤ℤ lock.interest_pool)
unfolding evaluate_lock
evaluate_lock-eq-ok ⦃s⦄ op c {x} h =
    let (y, e1, h1) = >>=-eq-ok (get_lock_data op.amount.asset_id c) _ h in
    let (u, e2, h2) =
      >>=-eq-ok
        (fc_assert
          (leb_ℤ op.amount.amount (get_balance c.balances op.issuer op.amount.asset_id).amount))
        _ h1 in
    let (profit, e3, h3) =
      >>=-eq-ok (get_profit y.1 op.amount.amount op.period y.0.precision y.0.current_supply) _ h2 in
    let (total, e4, h4) = >>=-eq-ok (s.check (profit +ℤ op.amount.amount)) _ h3 in
    let (v, e5, h5) = >>=-eq-ok (fc_assert (leb_ℤ profit y.1.interest_pool)) _ h4 in
    let (got, has) = get_lock_data-eq-ok op.amount.asset_id c e1 in
    let e = ok-injective h5 in
    let covered = leb_ℤ→le profit y.1.interest_pool (ensure-eq-ok _ _ e5) in
    (
      y.0,
      y.1,
      got,
      has,
      leb_ℤ→le op.amount.amount (get_balance c.balances op.issuer op.amount.asset_id).amount
          (ensure-eq-ok _ _ e2),
      e3 ∙ ap (λ (z : ℤ × ℤ). ok z.0) e,
      ap (λ (z : ℤ × ℤ). z.1) (sym e)
          ∙ s.check_exact _ _ e4
          ∙ ap (λ (z : ℤ × ℤ). z.0 +ℤ op.amount.amount) e,
      subst (λ (z : ℤ × ℤ). z.0 ≤ℤ y.1.interest_pool) e covered,
    )

-- A locking debits the account and the pool, and adds an object with both.
pub apply_lock-eq-ok :
    ⦃s : SafeInt⦄ (op : LockBalanceOperation) (profit total : ℤ) (c c' : LockState)
    → apply_lock op profit total c ≡ ok c'
    → (a : LockAsset) × (lock : AssetLockData) × (pool : ℤ) × (n : ℤ) × (mid : Balances)
      × (bs : Balances) × (find_first (is_asset op.amount.asset_id) c.assets ≡ some a)
      × (a.lock_data ≡ some lock)
      × (pool ≡ lock.interest_pool +ℤ neg profit)
      × (n ≡ a.locked_balance +ℤ total)
      × (adjust_balance op.issuer (asset (neg op.amount.amount) op.amount.asset_id) c.balances
          ≡ ok mid)
      × (change_lockeds op.issuer op.amount.asset_id (add_lock_balance c.next_id) mid ≡ ok bs)
      × (c' ≡ record c {
        assets = put_lock_data a (record lock { interest_pool = pool }) n c.assets;
        lockeds = c.lockeds ++ (new_locked op total c ∷ []);
        balances = bs;
        next_id = c.next_id + 1;
      })
unfolding apply_lock
apply_lock-eq-ok ⦃s⦄ op profit total c c' h =
    let (x, e1, h1) = >>=-eq-ok (get_lock_data op.amount.asset_id c) _ h in
    let (held, e2, h2) =
      >>=-eq-ok (found (find_balance op.issuer op.amount.asset_id c.balances)) _ h1 in
    let (debit, e3, h3) = >>=-eq-ok (negate op.amount) _ h2 in
    let (mid, e4, h4) = >>=-eq-ok (adjust_balance op.issuer debit c.balances) _ h3 in
    let (bs, e5, h5) =
      >>=-eq-ok (change_lockeds op.issuer op.amount.asset_id (add_lock_balance c.next_id) mid) _
        h4 in
    let (pool, e6, h6) = >>=-eq-ok (s.check (x.1.interest_pool -ℤ profit)) _ h5 in
    let (n, e7, h7) = >>=-eq-ok (s.check (x.0.locked_balance +ℤ total)) _ h6 in
    let (got, has) = get_lock_data-eq-ok op.amount.asset_id c e1 in
    let opposite = negate-eq-ok op.amount debit e3 in
    (
      x.0,
      x.1,
      pool,
      n,
      mid,
      bs,
      got,
      has,
      s.check_exact _ _ e6 ∙ omega int_laws,
      s.check_exact _ _ e7,
      cc,
      e5,
      sym (ok-injective h7),
    )
