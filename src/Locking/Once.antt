-- ===== src/Locking/Once.antt =====
-- What a locked balance that is paid out refuses, and what a donation can do: one of a negative
-- amount is a withdrawal from the pool.
use fin_chain_core.Prelude.{
  ℕ, suc, ◌<◌, ◌^◌, ◌≡◌, refl, ap, ◌∙◌, Bool, true, false, not, Option, none, some, arith,
  Option-cases, subst, ==_refl, ◌-◌, inl, inr, find_first, find_first-has, find_first-replace_first,
}
use fin_chain_core.Prelude.Int.{pos, negsuc, ◌+ℤ◌, neg, ◌≤ℤ◌, int_laws}
use fin_chain_core.Prelude.Results.{
  found, Result, ok, err, assert_exception, SafeInt, FitsInt64, fc_assert, ◌>>=◌, ◌>>◌,
}
use fin_chain_core.Asset.{Asset, asset, negate, asset_ge}
use fin_chain_core.Ledger.{find_balance, get_balance}
use fin_chain_core.Ledger.Effect.{get_balance-adjust_balance, get_balance-asset}
use fin_chain_core.Ledger.Accept.{adjust_balance_total}
use fin_chain_core.Interest.{AssetLockData}
use fin_chain_core.Locking.{
  LockAsset, LockedBalance, LockState, SafeTime, is_asset, is_locked, get_lock_data, put_lock_data,
  validate_donation, UnlockBalanceOperation, DonationBalanceOperation,
}
use fin_chain_core.Locking.Operations.{add_to_pool, donate, unlock}
use fin_chain_core.Locking.Steps.{unlock-eq-ok}

-- The checks before a payment raise no other exception than that of an assertion.
found_cases :
    {A B : Type 0} (o : Option A) (next : A → Result B)
    → ((a : A) → next a ≡ err assert_exception)
    → (found o >>= next) ≡ err assert_exception
found_cases none next h = refl
found_cases (some a) next h = h a

assert_cases :
    {B : Type 0} (b : Bool) (next : Result B)
    → next ≡ err assert_exception
    → (fc_assert b >> next) ≡ err assert_exception
assert_cases true next h = h
assert_cases false next h = refl

lock_cases :
    {B : Type 0} (a : LockAsset) (o : Option AssetLockData)
    (next : LockAsset × AssetLockData → Result B)
    → ((x : LockAsset × AssetLockData) → next x ≡ err assert_exception)
    → ((found o >>= λ lock. ok (a, lock)) >>= next) ≡ err assert_exception
lock_cases a none next h = refl
lock_cases a (some lock) next h = h (a, lock)

lock_data_cases :
    {B : Type 0} (i : ℕ) (c : LockState) (next : LockAsset × AssetLockData → Result B)
    → ((x : LockAsset × AssetLockData) → next x ≡ err assert_exception)
    → (get_lock_data i c >>= next) ≡ err assert_exception
unfolding get_lock_data
lock_data_cases i c next h = elim (Option-cases (find_first (is_asset i) c.assets)) [
  | inl gone ↦ rw gone refl
  | inr (a, got) ↦ rw got (lock_cases a a.lock_data next h)
]

get_lock_data_total :
    (i : ℕ) (c : LockState) (a : LockAsset) (lock : AssetLockData)
    → find_first (is_asset i) c.assets ≡ some a
    → a.lock_data ≡ some lock
    → get_lock_data i c ≡ ok (a, lock)
unfolding get_lock_data
get_lock_data_total i c a lock got has =
    rw got (ap (λ (o : Option AssetLockData). found o >>= λ l. ok (a, l)) has)

over_case :
    {B : Type 0} (b : Bool) (next : Result B)
    → b ≡ true
    → (fc_assert (not b) >> next) ≡ err assert_exception
over_case true next h = refl
over_case false next h = cc

pub unlock_finished :
    ⦃s : SafeInt⦄ ⦃t : SafeTime⦄ (op : UnlockBalanceOperation) (c : LockState)
    (item : LockedBalance)
    → find_first (is_locked op.locked_id) c.lockeds ≡ some item
    → item.finish ≡ true
    → unlock op c ≡ err assert_exception
unfolding unlock
unlock_finished op c item got over = rw got (
    assert_cases _ _ (
      lock_data_cases item.asset_id c _ (λ x.
        found_cases (find_balance op.issuer item.asset_id c.balances) _
          (λ held. over_case item.finish _ over))))

-- What is unlocked is finished.
pub unlock-finishes :
    ⦃s : SafeInt⦄ ⦃t : SafeTime⦄ (op : UnlockBalanceOperation) (c c' : LockState)
    → unlock op c ≡ ok c'
    → (item : LockedBalance) × (find_first (is_locked op.locked_id) c'.lockeds ≡ some item)
      × (item.finish ≡ true)
unlock-finishes op c c' h =
    let (
      item, a, lock, lock', mid, bs, paid, back, found_item, live, got, has, moved, pool, both,
      changed, end,
    ) =
      unlock-eq-ok op c c' h in
    let new = record item { finish = true } in
    let key = find_first-has (is_locked op.locked_id) c.lockeds found_item in
    let again = find_first-replace_first (is_locked op.locked_id) new c.lockeds found_item key in
    (new, ap (λ (x : LockState). find_first (is_locked op.locked_id) x.lockeds) end ∙ again, refl)

negative_is_less :
    (d : Asset) (n : ℕ) → pos 0 ≤ℤ d.amount → asset_ge d (asset (negsuc n) d.asset_id) ≡ ok true
unfolding asset_ge
negative_is_less d n h = ground (arith, ==_refl d.asset_id)

-- A donation of a negative amount of an asset with lock data passes every check, whoever sends it:
-- the sender, whose balance is not below zero, is credited with the amount, and the interest pool
-- pays it, even one that has less, as long as the amount and the new sums fit an `int64_t` and the
-- fee is not below zero.
pub donate_negative :
    ⦃s : SafeInt⦄ (n i issuer : ℕ) (fee : Asset) (c : LockState) (a : LockAsset)
    (lock : AssetLockData)
    → n < 2 ^ 63 - 1
    → pos 0 ≤ℤ fee.amount
    → find_first (is_asset i) c.assets ≡ some a
    → a.lock_data ≡ some lock
    → pos 0 ≤ℤ (get_balance c.balances issuer i).amount
    → FitsInt64 ((get_balance c.balances issuer i).amount +ℤ pos (suc n))
    → FitsInt64 (lock.interest_pool +ℤ negsuc n)
    → let op : DonationBalanceOperation = record {
      fee = fee;
      issuer = issuer;
      amount = asset (negsuc n) i;
    } in
      (validate_donation op ≡ ok tt)
      × ((c' : LockState) × (donate op c ≡ ok c')
          × (get_balance c'.balances issuer i
              ≡ asset ((get_balance c.balances issuer i).amount +ℤ pos (suc n)) i)
          × (c'.assets
              ≡ put_lock_data a
                  (record lock { interest_pool = lock.interest_pool +ℤ negsuc n })
                  a.locked_balance
                  c.assets))
unfolding donate add_to_pool negate validate_donation
donate_negative ⦃s⦄ n i issuer fee c a lock small paid got has credit fits fits_pool =
    let opposite : neg (negsuc n) ≡ pos (suc n) = omega int_laws in
    let credit_amount : Asset = asset (pos (suc n)) i in
    let fits_neg : FitsInt64 (neg (pos (suc n))) = omega int_laws in
    let sum_credit : pos 0 ≤ℤ (get_balance c.balances issuer i).amount +ℤ pos (suc n) =
      omega int_laws in
    let (bs, moved) =
      adjust_balance_total issuer credit_amount c.balances fits_neg fits sum_credit in
    let less =
      subst (λ j. asset_ge (get_balance c.balances issuer i) (asset (negsuc n) j) ≡ ok true)
        (get_balance-asset c.balances issuer i)
        (negative_is_less (get_balance c.balances issuer i) n credit) in
    let after = get_balance-adjust_balance issuer credit_amount c.balances bs issuer i moved in
    (
      ground arith,
      (
        record c {
          assets =
              put_lock_data a (record lock { interest_pool = lock.interest_pool +ℤ negsuc n })
                a.locked_balance c.assets;
          balances = bs;
        },
        rw (
          less,
          get_lock_data_total i c a lock got has,
          opposite,
          s.check_fits (pos (suc n)) (omega arith),
          moved,
          s.check_fits (lock.interest_pool +ℤ negsuc n) fits_pool,
        ),
        after ∙ rw (==_refl issuer, ==_refl i) refl,
        refl,
      ),
    )
