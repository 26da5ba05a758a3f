-- ===== src/Locking/Terms.antt =====
-- The terms on which a balance is locked.
use fin_chain_core.Prelude.{
  ℕ, ◌≡◌, refl, sym, ap, subst, ◌∙◌, false, some, ◌==◌, if◌then◌else◌, arith, Bool-cases, inl, inr,
  find_first, find_first-has, [], ◌∷◌, ◌++◌,
}
use fin_chain_core.Prelude.Int.{ℤ, ◌+ℤ◌, ◌≤ℤ◌}
use fin_chain_core.Prelude.Results.{
  found-eq-ok, found, ok, SafeInt, >>=-eq-ok, ok-injective, fc_assert,
}
use fin_chain_core.Asset.{asset}
use fin_chain_core.Ledger.{Balances}
use fin_chain_core.Ledger.Totals.{total}
use fin_chain_core.Interest.{Narrowing, AssetLockData, get_profit}
use fin_chain_core.Locking.{LockAsset, LockState, is_asset, new_locked, LockBalanceOperation}
use fin_chain_core.Locking.Operations.{evaluate_lock, lock_balance}
use fin_chain_core.Ledger.{AccountBalance, find_balance, found_balance, add_lock_balance}
use fin_chain_core.Ledger.Totals.{find_balance-key}
use fin_chain_core.Ledger.Effect.{find_balance-put_balance, get_balance-adjust_balance}
use fin_chain_core.Locking.Operations.{change_lockeds}
use mathlib.Core.Option.{some-injective}
use fin_chain_core.Prelude.{replace_first, ◌+◌, ◌&&◌, length, ltb, ==_iff, find_first-replace_first}
use fin_chain_core.Prelude.Int.{neg}
use fin_chain_core.Locking.LockSteps.{evaluate_lock-eq-ok, apply_lock-eq-ok}
use fin_chain_core.Ledger.{get_balance}
use fin_chain_core.Prelude.{◌++◌, [], ◌∷◌}
use fin_chain_core.Prelude.Int.{◌≤ℤ◌}

-- The balance that is found for a key, where a balance of the same amount is written for one.
same_balance :
    (o j issuer i : ℕ) (b b' : AccountBalance) (bs : Balances)
    → find_balance issuer i bs ≡ some b
    → b.owner ≡ issuer
    → b.asset_type ≡ i
    → b'.balance ≡ b.balance
    → b'.asset_type ≡ b.asset_type
    → found_balance (if (issuer == o) && (i == j) then some b' else find_balance o j bs) j
      ≡ found_balance (find_balance o j bs) j
same_balance o j issuer i b b' bs here owner type amount same =
    elim (Bool-cases ((issuer == o) && (i == j))) [
      | inr other ↦ rw other refl
      | inl both ↦
          let o_is : issuer ≡ o = ground arith in
          let j_is : i ≡ j = ground arith in
          let there =
            subst (λ k. find_balance k j bs ≡ some b) o_is
              (subst (λ k. find_balance issuer k bs ≡ some b) j_is here) in
          rw (both, there) (λ t. asset (amount t) (same t))
    ]

-- The asset as it is written, from the asset that was there.
written_asset :
    (a a1 : LockAsset) (lock lock1 : AssetLockData) (pool n total profit amount : ℤ)
    → a ≡ a1
    → lock ≡ lock1
    → pool ≡ lock1.interest_pool +ℤ neg profit
    → n ≡ a1.locked_balance +ℤ total
    → total ≡ profit +ℤ amount
    → record a1 { lock_data = some (record lock1 { interest_pool = pool }); locked_balance = n }
      ≡ record a {
        lock_data = some (record lock { interest_pool = lock.interest_pool +ℤ neg profit });
        locked_balance = a.locked_balance +ℤ (profit +ℤ amount);
      }
written_asset a a1 lock lock1 pool n total profit amount a_is lock_is pool_eq n_eq total_eq =
    rw (a_is, lock_is, pool_eq, n_eq, total_eq) refl

-- Adding an id to the set of a balance leaves every balance as it was.
get_balance-add_lock_balance :
    ⦃s : SafeInt⦄ (k issuer i o j : ℕ) (bs bs' : Balances)
    → change_lockeds issuer i (add_lock_balance k) bs ≡ ok bs'
    → get_balance bs' o j ≡ get_balance bs o j
unfolding add_lock_balance get_balance
get_balance-add_lock_balance k issuer i o j bs bs' h =
    let (b, got, h1) = >>=-eq-ok (found (find_balance issuer i bs)) _ h in
    let (b', changed, h2) = >>=-eq-ok (add_lock_balance k b) _ h1 in
    let (u, room, same) = >>=-eq-ok (fc_assert (ltb (length b.lockeds) 50)) _ changed in
    let here = found-eq-ok (find_balance issuer i bs) got in
    let (owner, type) = find_balance-key issuer i bs here in
    let owner' = ap (λ (x : AccountBalance). x.owner) (sym (ok-injective same)) ∙ owner in
    let type' = ap (λ (x : AccountBalance). x.asset_type) (sym (ok-injective same)) ∙ type in
    let amount = ap (λ (x : AccountBalance). x.balance) (sym (ok-injective same)) in
    let after = find_balance-put_balance issuer i o j b b' bs here owner' type' in
    ap (λ x. found_balance (find_balance o j x) j) (sym (ok-injective h2))
    ∙ ap (λ x. found_balance x j) after
    ∙ same_balance o j issuer i b b' bs here owner type amount (type' ∙ sym type)

-- A locking that goes through takes a profit that the interest of the asset gives for its amount
-- and period and that the pool holds, out of a balance that holds the amount. The pool of the asset
-- is then less by the profit, the sum of what is locked of it is more by both, the balance of the
-- account is less by the amount, every other balance is as it was, and one object is added, which
-- has the next free id and holds the two together for the period from now on, not yet paid out.
pub lock_balance_terms :
    ⦃s : SafeInt⦄ ⦃w : Narrowing⦄ (op : LockBalanceOperation) (c c' : LockState)
    → lock_balance op c ≡ ok c'
    → (a : LockAsset) × (lock : AssetLockData) × (profit : ℤ) × (find_first
          (is_asset op.amount.asset_id)
          c.assets
        ≡ some a)
      × (a.lock_data ≡ some lock)
      × (get_profit lock op.amount.amount op.period a.precision a.current_supply ≡ ok profit)
      × (profit ≤ℤ lock.interest_pool)
      × (op.amount.amount ≤ℤ (get_balance c.balances op.issuer op.amount.asset_id).amount)
      × (find_first (is_asset op.amount.asset_id) c'.assets
          ≡ some (record a {
            lock_data = some (record lock { interest_pool = lock.interest_pool +ℤ neg profit });
            locked_balance = a.locked_balance +ℤ (profit +ℤ op.amount.amount);
          }))
      × ((o i : ℕ)
          → get_balance c'.balances o i ≡ (
              if (op.issuer == o) && (op.amount.asset_id == i)
              then asset
                  ((get_balance c.balances op.issuer op.amount.asset_id).amount
                    +ℤ neg op.amount.amount)
                  i
              else get_balance c.balances o i))
      × (c'.lockeds
          ≡ c.lockeds
            ++ (record {
              locked_id = c.next_id;
              initial_lock_balance = op.amount.amount;
              locked_balance = profit +ℤ op.amount.amount;
              lock_time = c.head_block_time;
              lock_period = op.period;
              asset_id = op.amount.asset_id;
              finish = false;
            }
                ∷ []))
      × (c'.next_id ≡ c.next_id + 1)
unfolding lock_balance
lock_balance_terms op c c' h =
    let j = op.amount.asset_id in
    let (x, evaluated, applied) = >>=-eq-ok (evaluate_lock op c) _ h in
    let (a, lock, got, has, enough, priced, both, covered) = evaluate_lock-eq-ok op c evaluated in
    let (a1, lock1, pool, n, mid, bs, got1, has1, pool_eq, sum_eq, moved, changed, end) =
      apply_lock-eq-ok op x.0 x.1 c c' applied in
    let a_is = some-injective _ _ (sym got ∙ got1) in
    let lock_is = some-injective _ _ (sym has ∙ ap (λ (y : LockAsset). y.lock_data) a_is ∙ has1) in
    let new : LockAsset = record a1 {
      lock_data = some (record lock1 { interest_pool = pool });
      locked_balance = n;
    } in
    let has_key = find_first-has (is_asset j) c.assets got1 in
    let key = (==_iff a1.asset_id j).0 has_key in
    let written = find_first-replace_first (is_asset j) new c.assets got1 has_key in
    let found_new =
      subst (λ k. find_first (is_asset j) (replace_first (is_asset k) new c.assets) ≡ some new)
        (sym key) written in
    (
      a,
      lock,
      x.0,
      got,
      has,
      priced,
      covered,
      enough,
      ap (λ (y : LockState). find_first (is_asset j) y.assets) end
          ∙ found_new
          ∙ ap (λ (y : LockAsset). some y)
              (written_asset a a1 lock lock1 pool n x.1 x.0 op.amount.amount a_is lock_is pool_eq
                sum_eq both),
      λ o i.
          ap (λ (y : LockState). get_balance y.balances o i) end
          ∙ get_balance-add_lock_balance c.next_id op.issuer j o i mid bs changed
          ∙ get_balance-adjust_balance op.issuer (asset (neg op.amount.amount) j) c.balances mid o i
              moved,
      ap (λ (y : LockState). y.lockeds) end
          ∙ ap (λ (t : ℤ). c.lockeds ++ (new_locked op t c ∷ [])) both,
      ap (λ (y : LockState). y.next_id) end,
    )
