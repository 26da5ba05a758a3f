-- ===== src/Locking/Value.antt =====
-- Where the value of an asset is: in the balances of the accounts, in the interest pool, and in the
-- locked balances that are not finished.
use fin_chain_core.Prelude.{
  ℕ, ◌≡◌, refl, sym, ap, subst, ◌∙◌, true, false, Option, none, some, ◌==◌, if◌then◌else◌, arith,
  Bool-cases, inl, inr, find_first, replace_first, sum_of, find_first-has, sum_of-replace_first,
  ltb, length,
}
use fin_chain_core.Prelude.Int.{ℤ, pos, ◌+ℤ◌, int_laws, +ℤ_cancel}
use fin_chain_core.Prelude.Results.{
  found-eq-ok, found, Result, ok, SafeInt, >>=-eq-ok, ok-injective, fc_assert,
}
use fin_chain_core.Asset.{asset}
use fin_chain_core.Ledger.{
  AccountBalance, Balances, find_balance, add_lock_balance, unlock_balance, contains,
}
use fin_chain_core.Ledger.Totals.{total, part_of, of_asset, total-put_balance}
use fin_chain_core.Interest.{AssetLockData}
use fin_chain_core.Locking.{
  LockAsset, LockedBalance, LockState, is_asset, is_locked, get_lock_data, put_lock_data,
}
use fin_chain_core.Locking.Operations.{add_to_pool, change_lockeds}

abbrev pool_in : Option AssetLockData → ℤ
pool_in none = pos 0
pool_in (some lock) = lock.interest_pool

abbrev pub pool_of : ℕ → LockAsset → ℤ
pool_of i a = if a.asset_id == i then pool_in a.lock_data else pos 0

abbrev pub locked_of : ℕ → LockedBalance → ℤ
locked_of i l = if l.asset_id == i then (if l.finish then pos 0 else l.locked_balance) else pos 0

abbrev pub value : ℕ → LockState → ℤ
value i c = total i c.balances +ℤ sum_of (pool_of i) c.assets +ℤ sum_of (locked_of i) c.lockeds

pub get_lock_data-eq-ok :
    (i : ℕ) (c : LockState) {x : LockAsset × AssetLockData}
    → get_lock_data i c ≡ ok x
    → (find_first (is_asset i) c.assets ≡ some x.0) × (x.0.lock_data ≡ some x.1)
unfolding get_lock_data
get_lock_data-eq-ok i c {x} h =
    let (a, got, h1) = >>=-eq-ok (found (find_first (is_asset i) c.assets)) _ h in
    let (lock, has, h2) = >>=-eq-ok (found a.lock_data) _ h1 in
    let e = ok-injective h2 in
    (
      found-eq-ok _ got ∙ ap (λ (y : LockAsset × AssetLockData). some y.0) e,
      subst (λ (y : LockAsset × AssetLockData). y.0.lock_data ≡ some y.1) e (found-eq-ok _ has),
    )

pool_of-change :
    (i : ℕ) (a : LockAsset) (lock lock' : AssetLockData) (n d : ℤ)
    → a.lock_data ≡ some lock
    → lock'.interest_pool ≡ lock.interest_pool +ℤ d
    → pool_of i (record a { lock_data = some lock'; locked_balance = n })
      ≡ pool_of i a +ℤ of_asset i (asset d a.asset_id)
pool_of-change i a lock lock' n d has e = elim (Bool-cases (a.asset_id == i)) [
  | inl same ↦ rw (same, has, e) refl
  | inr other ↦ rw other (omega int_laws)
]

-- A change of the pool of an asset changes the sum of the pools by as much.
pub sum_of-put_lock_data :
    (i j : ℕ) (a : LockAsset) (lock lock' : AssetLockData) (n d : ℤ) (c : LockState)
    → find_first (is_asset j) c.assets ≡ some a
    → a.lock_data ≡ some lock
    → lock'.interest_pool ≡ lock.interest_pool +ℤ d
    → sum_of (pool_of i) (put_lock_data a lock' n c.assets)
      ≡ sum_of (pool_of i) c.assets +ℤ of_asset i (asset d j)
sum_of-put_lock_data i j a lock lock' n d c got has e =
    let key : a.asset_id ≡ j = ground (arith, find_first-has (is_asset j) c.assets got) in
    let new = record a { lock_data = some lock'; locked_balance = n } in
    let got' = subst (λ k. find_first (is_asset k) c.assets ≡ some a) (sym key) got in
    let moved = sum_of-replace_first (is_asset a.asset_id) (pool_of i) a new c.assets got' in
    let change = pool_of-change i a lock lock' n d has e in
    +ℤ_cancel _ _ (pool_of i a) (moved ∙ rw (change, key) (omega int_laws))

pub add_to_pool-eq-ok :
    ⦃s : SafeInt⦄ (d : ℤ) (lock : AssetLockData) {lock' : AssetLockData}
    → add_to_pool d lock ≡ ok lock'
    → lock'.interest_pool ≡ lock.interest_pool +ℤ d
unfolding add_to_pool
add_to_pool-eq-ok ⦃s⦄ d lock h =
    let (pool, sum, end) = >>=-eq-ok (s.check (lock.interest_pool +ℤ d)) _ h in
    ap (λ (l : AssetLockData). l.interest_pool) (sym (ok-injective end)) ∙ s.check_exact _ _ sum

-- A balance that is finished no longer counts.
pub sum_of-finish :
    (i j : ℕ) (item : LockedBalance) (c : LockState)
    → find_first (is_locked j) c.lockeds ≡ some item
    → item.finish ≡ false
    → sum_of (locked_of i) (replace_first (is_locked j) (record item { finish = true }) c.lockeds)
        +ℤ of_asset i (asset item.locked_balance item.asset_id)
      ≡ sum_of (locked_of i) c.lockeds
sum_of-finish i j item c got live =
    let new = record item { finish = true } in
    let moved = sum_of-replace_first (is_locked j) (locked_of i) item new c.lockeds got in
    let before : locked_of i item ≡ of_asset i (asset item.locked_balance item.asset_id) =
      rw live refl in
    let after : locked_of i new ≡ pos 0 = ground arith in
    rw (before, after) at moved ∙ omega int_laws

-- The sets of locked balances have no part in the sums.
pub total-change_lockeds :
    ⦃s : SafeInt⦄ (i issuer a : ℕ) (change : AccountBalance → Result AccountBalance)
    (bs bs' : Balances)
    → ((b b' : AccountBalance) → change b ≡ ok b' → part_of i b' ≡ part_of i b)
    → change_lockeds issuer a change bs ≡ ok bs'
    → total i bs' ≡ total i bs
total-change_lockeds i issuer a change bs bs' same h =
    let (b, got, h1) = >>=-eq-ok (found (find_balance issuer a bs)) _ h in
    let (b', changed, h2) = >>=-eq-ok (change b) _ h1 in
    let moved = total-put_balance i issuer a b b' bs (found-eq-ok _ got) in
    ap (total i) (sym (ok-injective h2))
    ∙ +ℤ_cancel _ _ (part_of i b) (moved ∙ ap (λ (x : ℤ). total i bs +ℤ x) (same b b' changed))

pub part_of-add_lock_balance :
    (i id : ℕ) (b b' : AccountBalance) → add_lock_balance id b ≡ ok b' → part_of i b' ≡ part_of i b
unfolding add_lock_balance
part_of-add_lock_balance i id b b' h =
    let (u, e, end) = >>=-eq-ok (fc_assert (ltb (length b.lockeds) 50)) _ h in
    ap (part_of i) (sym (ok-injective end))

pub part_of-unlock_balance :
    (i id : ℕ) (b b' : AccountBalance) → unlock_balance id b ≡ ok b' → part_of i b' ≡ part_of i b
unfolding unlock_balance
part_of-unlock_balance i id b b' h =
    let (u, e, end) = >>=-eq-ok (fc_assert (contains id b.lockeds)) _ h in
    ap (part_of i) (sym (ok-injective end))
