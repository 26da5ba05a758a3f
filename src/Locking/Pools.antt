-- ===== src/Locking/Pools.antt =====
-- How the interest pool of an asset begins.
use fin_chain_core.Prelude.{
  ℕ, ◌≡◌, refl, sym, ap, subst, ◌∙◌, Bool, true, false, Option, none, some, ◌==◌, if◌then◌else◌,
  arith, Bool-cases, inl, inr, find_first, sum_of, find_first-has, sum_of-replace_first,
}
use fin_chain_core.Prelude.Int.{ℤ, pos, ◌+ℤ◌, leb_ℤ, ◌≤ℤ◌, int_laws, +ℤ_cancel, +ℤ_assoc}
use fin_chain_core.Prelude.Results.{
  found-eq-ok, found, ◌>>=◌, ok, SafeInt, >>=-eq-ok, ok-injective, fc_assert, ensure-eq-ok,
}
use fin_chain_core.Asset.{asset, negate}
use fin_chain_core.Asset.Laws.{negate-eq-ok}
use fin_chain_core.Ledger.{Balances, adjust_balance}
use fin_chain_core.Ledger.Totals.{
  of_asset-neg, total, of_asset, total-adjust_balance, of_asset-zero,
}
use fin_chain_core.Interest.{AssetLockData}
use fin_chain_core.Locking.{LockAsset, LockState, is_asset, put_lock_data}
use fin_chain_core.Locking.Value.{value, pool_of}
use fin_chain_core.Ledger.{get_balance}
use fin_chain_core.Asset.{asset_ge}
use fin_chain_core.Prelude.Int.{◌≤ℤ◌, ltb_ℤ, ltb_ℤ→ge}
use fin_chain_core.Locking.{SetLockDataOperation, validate_set_lock_data, new_lock_data}
use fin_chain_core.Locking.Operations.{set_lock_data}

none-true :
    (o : Option AssetLockData)
    → (elim o as (λ x. Bool) [ none ↦ true | some lock ↦ false ]) ≡ true
    → o ≡ none
none-true none h = refl
none-true (some lock) h = cc

-- The balances after the payment into a new pool, which is at least zero.
pool_paid :
    ⦃s : SafeInt⦄ (i : ℕ) (op : SetLockDataOperation) (bs bs' : Balances)
    → pos 0 ≤ℤ op.init_interest_pool.amount
    → (if ltb_ℤ (pos 0) op.init_interest_pool.amount
        then (negate op.init_interest_pool >>= λ debit. adjust_balance op.issuer debit bs)
        else ok bs)
      ≡ ok bs'
    → total i bs' +ℤ of_asset i op.init_interest_pool ≡ total i bs
pool_paid i op bs bs' valid h = elim (Bool-cases (ltb_ℤ (pos 0) op.init_interest_pool.amount)) [
  | inl some_amount ↦
      let (debit, negated, moved) =
        >>=-eq-ok (negate op.init_interest_pool) _ (rw some_amount at h) in
      let (same, opposite) = negate-eq-ok op.init_interest_pool debit negated in
      let e = total-adjust_balance i op.issuer debit bs bs' moved in
      rw
        (
          e,
          same,
          opposite,
          +ℤ_assoc,
          of_asset-neg i op.init_interest_pool.asset_id op.init_interest_pool.amount,
        )
        (omega int_laws)
  | inr nothing ↦
      let zero_amount : op.init_interest_pool.amount ≡ pos 0 =
        omega (int_laws, ltb_ℤ→ge (pos 0) op.init_interest_pool.amount nothing) in
      rw (← ok-injective (rw nothing at h), of_asset-zero i op.init_interest_pool zero_amount)
        (omega int_laws)
]

pool_of-first :
    (i : ℕ) (a : LockAsset) (lock : AssetLockData) (n : ℤ)
    → a.lock_data ≡ none
    → pool_of i (record a { lock_data = some lock; locked_balance = n })
      ≡ pool_of i a +ℤ of_asset i (asset lock.interest_pool a.asset_id)
pool_of-first i a lock n without = elim (Bool-cases (a.asset_id == i)) [
  | inl same ↦ rw (same, without) (omega int_laws)
  | inr other ↦ rw other (omega int_laws)
]

sum_of-first :
    (i j : ℕ) (a : LockAsset) (lock : AssetLockData) (n : ℤ) (c : LockState)
    → find_first (is_asset j) c.assets ≡ some a
    → a.lock_data ≡ none
    → sum_of (pool_of i) (put_lock_data a lock n c.assets)
      ≡ sum_of (pool_of i) c.assets +ℤ of_asset i (asset lock.interest_pool j)
sum_of-first i j a lock n c got without =
    let key : a.asset_id ≡ j = ground (arith, find_first-has (is_asset j) c.assets got) in
    let new = record a { lock_data = some lock; locked_balance = n } in
    let got' = subst (λ k. find_first (is_asset k) c.assets ≡ some a) (sym key) got in
    let moved = sum_of-replace_first (is_asset a.asset_id) (pool_of i) a new c.assets got' in
    +ℤ_cancel _ _ (pool_of i a)
      (moved ∙ rw (pool_of-first i a lock n without, key) (omega int_laws))

validate_set_lock_data-eq-ok :
    (op : SetLockDataOperation)
    → validate_set_lock_data op ≡ ok tt
    → pos 0 ≤ℤ op.init_interest_pool.amount
unfolding validate_set_lock_data
validate_set_lock_data-eq-ok op h = ground arith

new_pool : (t p l x : ℤ) → t +ℤ (p +ℤ x) +ℤ l ≡ t +ℤ x +ℤ p +ℤ l
new_pool t p l x = omega int_laws

-- The first pool of an asset that has none.
pub set_lock_data-eq-ok :
    ⦃s : SafeInt⦄ (op : SetLockDataOperation) (c c' : LockState)
    → set_lock_data op c ≡ ok c'
    → (a : LockAsset) × (bs : Balances) × (find_first
          (is_asset op.init_interest_pool.asset_id)
          c.assets
        ≡ some a)
      × (a.lock_data ≡ none)
      × ((if ltb_ℤ (pos 0) op.init_interest_pool.amount
            then (negate op.init_interest_pool >>= λ debit.
                adjust_balance op.issuer debit c.balances)
            else ok c.balances)
          ≡ ok bs)
      × (c' ≡ record c {
        assets = put_lock_data a (new_lock_data op) a.locked_balance c.assets;
        balances = bs;
      })
unfolding set_lock_data
set_lock_data-eq-ok op c c' h =
    let j = op.init_interest_pool.asset_id in
    let (a, e1, h1) = >>=-eq-ok (found (find_first (is_asset j) c.assets)) _ h in
    let (u, e2, h2) =
      >>=-eq-ok (fc_assert (elim a.lock_data as (λ x. Bool) [ none ↦ true | some lock ↦ false ])) _
        h1 in
    let (v, e3, h3) = >>=-eq-ok (fc_assert (a.issuer == op.issuer)) _ h2 in
    let (x, e4, h4) =
      >>=-eq-ok
        (fc_assert (
          if ltb_ℤ (pos 0) op.init_interest_pool.amount
          then leb_ℤ op.init_interest_pool.amount (get_balance c.balances op.issuer j).amount
          else true))
        _ h3 in
    let (enough, e5, h5) =
      >>=-eq-ok (asset_ge (get_balance c.balances op.issuer j) op.init_interest_pool) _ h4 in
    let (y, e6, h6) = >>=-eq-ok (fc_assert enough) _ h5 in
    let (bs, e7, h7) =
      >>=-eq-ok
        (if ltb_ℤ (pos 0) op.init_interest_pool.amount
          then (negate op.init_interest_pool >>= λ debit. adjust_balance op.issuer debit c.balances)
          else ok c.balances)
        _ h6 in
    (
      a,
      bs,
      found-eq-ok _ e1,
      none-true a.lock_data (ensure-eq-ok _ _ e2),
      e7,
      sym (ok-injective h7),
    )

-- A valid operation that goes through and gives an asset its first pool leaves the value of every
-- asset, in the balances, the interest pool and the locked balances together, as it was.
pub value-set_lock_data :
    ⦃s : SafeInt⦄ (i : ℕ) (op : SetLockDataOperation) (c c' : LockState)
    → validate_set_lock_data op ≡ ok tt
    → set_lock_data op c ≡ ok c'
    → value i c' ≡ value i c
value-set_lock_data i op c c' valid h =
    let (a, bs, got, without, moved, end) = set_lock_data-eq-ok op c c' h in
    let paid = pool_paid i op c.balances bs (validate_set_lock_data-eq-ok op valid) moved in
    let pools =
      sum_of-first i op.init_interest_pool.asset_id a (new_lock_data op) a.locked_balance c got
        without in
    ap (value i) end ∙ rw (pools, ← paid) (new_pool (total i bs) _ _ _)
