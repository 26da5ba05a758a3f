-- ===== src/Locking/Steps.antt =====
-- What an operation on locked balances has done when it returns.
use fin_chain_core.Prelude.{
  ◌≡◌, refl, sym, ap, ◌∙◌, Bool, true, false, not, some, if◌then◌else◌, find_first, replace_first,
}
use fin_chain_core.Prelude.Int.{ℤ, pos, ◌+ℤ◌, ◌-ℤ◌, neg, leb_ℤ, int_laws}
use fin_chain_core.Prelude.Results.{
  found-eq-ok, found, Error, Result, ok, err, SafeInt, >>=-eq-ok, ok-injective, fc_assert,
  ensure-eq-ok,
}
use fin_chain_core.Asset.{asset, negate}
use fin_chain_core.Asset.Laws.{negate-eq-ok}
use fin_chain_core.Ledger.{Balances, find_balance, adjust_balance, unlock_balance}
use fin_chain_core.Interest.{AssetLockData}
use fin_chain_core.Locking.{
  LockAsset, LockedBalance, LockState, SafeTime, is_asset, is_locked, get_lock_data, put_lock_data,
  UnlockBalanceOperation, DonationBalanceOperation,
}
use fin_chain_core.Locking.Operations.{
  add_to_pool, donate, change_lockeds, pay_early, pay_out, is_matured, unlock,
}
use fin_chain_core.Ledger.{get_balance}
use fin_chain_core.Asset.{asset_ge}
use fin_chain_core.Locking.Value.{get_lock_data-eq-ok, add_to_pool-eq-ok}

-- A donation moves its amount from a balance to the pool.
pub donate-eq-ok :
    ⦃s : SafeInt⦄ (op : DonationBalanceOperation) (c c' : LockState)
    → donate op c ≡ ok c'
    → (a : LockAsset) × (lock : AssetLockData) × (lock' : AssetLockData) × (bs : Balances)
      × (find_first (is_asset op.amount.asset_id) c.assets ≡ some a)
      × (a.lock_data ≡ some lock)
      × (lock'.interest_pool ≡ lock.interest_pool +ℤ op.amount.amount)
      × (adjust_balance op.issuer (asset (neg op.amount.amount) op.amount.asset_id) c.balances
          ≡ ok bs)
      × (c' ≡ record c { assets = put_lock_data a lock' a.locked_balance c.assets; balances = bs })
unfolding donate
donate-eq-ok op c c' h =
    let (enough, e1, h1) =
      >>=-eq-ok (asset_ge (get_balance c.balances op.issuer op.amount.asset_id) op.amount) _ h in
    let (u, e2, h2) = >>=-eq-ok (fc_assert enough) _ h1 in
    let (x, e3, h3) = >>=-eq-ok (get_lock_data op.amount.asset_id c) _ h2 in
    let (debit, e4, h4) = >>=-eq-ok (negate op.amount) _ h3 in
    let (bs, e5, h5) = >>=-eq-ok (adjust_balance op.issuer debit c.balances) _ h4 in
    let (lock', e6, h6) = >>=-eq-ok (add_to_pool op.amount.amount x.1) _ h5 in
    let (got, has) = get_lock_data-eq-ok op.amount.asset_id c e3 in
    let n = negate-eq-ok op.amount debit e4 in
    (
      x.0,
      x.1,
      lock',
      bs,
      got,
      has,
      add_to_pool-eq-ok op.amount.amount x.1 e6,
      cc,
      sym (ok-injective h6),
    )

allowed :
    (b : Bool) (e : Error) {A : Type 0} {r : Result A} {a : A}
    → (if not b then err e else r) ≡ ok a
    → r ≡ ok a
allowed true e h = h
allowed false e h = cc

not-true : (b : Bool) → not b ≡ true → b ≡ false
not-true true h = cc
not-true false h = refl

pay_early-eq-ok :
    ⦃s : SafeInt⦄ (op : UnlockBalanceOperation) (item : LockedBalance) (lock : AssetLockData)
    (bs : Balances) {x : Balances × AssetLockData}
    → pay_early op item lock bs ≡ ok x
    → (paid : ℤ) × (back : ℤ) × (adjust_balance op.issuer (asset paid item.asset_id) bs ≡ ok x.0)
      × (x.1.interest_pool ≡ lock.interest_pool +ℤ back)
      × (paid +ℤ back ≡ item.locked_balance)
unfolding pay_early
pay_early-eq-ok ⦃s⦄ op item lock bs {x} h =
    let (bs', e1, h1) =
      >>=-eq-ok (adjust_balance op.issuer (asset item.initial_lock_balance item.asset_id) bs) _ h in
    let (interest, e2, h2) =
      >>=-eq-ok (s.check (item.locked_balance -ℤ item.initial_lock_balance)) _ h1 in
    let (lock', e3, h3) = >>=-eq-ok (add_to_pool interest lock) _ h2 in
    let e = ok-injective h3 in
    (
      item.initial_lock_balance,
      interest,
      e1 ∙ ap (λ (y : Balances × AssetLockData). ok y.0) e,
      ap (λ (y : Balances × AssetLockData). y.1.interest_pool) (sym e)
          ∙ add_to_pool-eq-ok interest lock e3,
      rw (s.check_exact _ _ e2) (omega int_laws),
    )

-- What is paid out and what goes back to the pool make up the locked balance.
pub pay_out-eq-ok :
    ⦃s : SafeInt⦄ (matured : Bool) (op : UnlockBalanceOperation) (item : LockedBalance)
    (lock : AssetLockData) (bs : Balances) {x : Balances × AssetLockData}
    → pay_out matured op item lock bs ≡ ok x
    → (paid : ℤ) × (back : ℤ) × (adjust_balance op.issuer (asset paid item.asset_id) bs ≡ ok x.0)
      × (x.1.interest_pool ≡ lock.interest_pool +ℤ back)
      × (paid +ℤ back ≡ item.locked_balance)
pay_out-eq-ok true op item lock bs {x} h =
    let (bs', e1, h1) =
      >>=-eq-ok (adjust_balance op.issuer (asset item.locked_balance item.asset_id) bs) _ h in
    let e = ok-injective h1 in
    (
      item.locked_balance,
      pos 0,
      e1 ∙ ap (λ (y : Balances × AssetLockData). ok y.0) e,
      ap (λ (y : Balances × AssetLockData). y.1.interest_pool) (sym e) ∙ omega int_laws,
      omega int_laws,
    )
pay_out-eq-ok false op item lock bs h =
    pay_early-eq-ok op item lock bs (allowed lock.can_unlock_not_expired _ h)

-- An unlocking finishes a balance that is not finished, and pays it out.
pub unlock-eq-ok :
    ⦃s : SafeInt⦄ ⦃t : SafeTime⦄ (op : UnlockBalanceOperation) (c c' : LockState)
    → unlock op c ≡ ok c'
    → (item : LockedBalance) × (a : LockAsset) × (lock : AssetLockData) × (lock' : AssetLockData)
      × (mid : Balances) × (bs : Balances) × (paid : ℤ) × (back : ℤ) × (find_first
            (is_locked op.locked_id)
            c.lockeds
          ≡ some item)
      × (item.finish ≡ false)
      × (find_first (is_asset item.asset_id) c.assets ≡ some a)
      × (a.lock_data ≡ some lock)
      × (adjust_balance op.issuer (asset paid item.asset_id) c.balances ≡ ok mid)
      × (lock'.interest_pool ≡ lock.interest_pool +ℤ back)
      × (paid +ℤ back ≡ item.locked_balance)
      × (change_lockeds op.issuer item.asset_id (unlock_balance item.locked_id) mid ≡ ok bs)
      × (c' ≡ record c {
        assets = put_lock_data a lock' a.locked_balance c.assets;
        lockeds = replace_first (is_locked op.locked_id) (record item { finish = true }) c.lockeds;
        balances = bs;
      })
unfolding unlock
unlock-eq-ok op c c' h =
    let (item, e1, h1) = >>=-eq-ok (found (find_first (is_locked op.locked_id) c.lockeds)) _ h in
    let (u, e2, h2) = >>=-eq-ok (fc_assert (leb_ℤ (pos 0) item.locked_balance)) _ h1 in
    let (x, e3, h3) = >>=-eq-ok (get_lock_data item.asset_id c) _ h2 in
    let (held, e4, h4) = >>=-eq-ok (found (find_balance op.issuer item.asset_id c.balances)) _ h3 in
    let (v, e5, h5) = >>=-eq-ok (fc_assert (not item.finish)) _ h4 in
    let (matured, e6, h6) = >>=-eq-ok (is_matured op item c.head_block_time) _ h5 in
    let (y, e7, h7) = >>=-eq-ok (pay_out matured op item x.1 c.balances) _ h6 in
    let (bs, e8, h8) =
      >>=-eq-ok (change_lockeds op.issuer item.asset_id (unlock_balance item.locked_id) y.0) _ h7 in
    let (got, has) = get_lock_data-eq-ok item.asset_id c e3 in
    let (paid, back, adjusted, pool, both) = pay_out-eq-ok matured op item x.1 c.balances e7 in
    (
      item,
      x.0,
      x.1,
      y.1,
      y.0,
      bs,
      paid,
      back,
      found-eq-ok _ e1,
      not-true _ (ensure-eq-ok _ _ e5),
      got,
      has,
      adjusted,
      pool,
      both,
      e8,
      sym (ok-injective h8),
    )
