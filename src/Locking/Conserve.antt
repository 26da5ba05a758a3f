-- ===== src/Locking/Conserve.antt =====
-- Every operation on locked balances leaves the value of each asset as it was.
use fin_chain_core.Prelude.{ℕ, ◌≡◌, refl, ap, ◌∙◌, ◌==◌, Bool-cases, inl, inr, sum_of-append}
use fin_chain_core.Prelude.Int.{ℤ, pos, ◌+ℤ◌, neg, int_laws}
use fin_chain_core.Prelude.Results.{ok, SafeInt, >>=-eq-ok}
use fin_chain_core.Asset.{asset}
use fin_chain_core.Ledger.{add_lock_balance, unlock_balance}
use fin_chain_core.Ledger.Totals.{of_asset-neg, of_asset-add, total, of_asset, total-adjust_balance}
use fin_chain_core.Interest.{Narrowing}
use fin_chain_core.Locking.{
  LockState, SafeTime, new_locked, LockBalanceOperation, UnlockBalanceOperation,
  DonationBalanceOperation,
}
use fin_chain_core.Locking.Operations.{donate, unlock, evaluate_lock, lock_balance}
use fin_chain_core.Locking.Value.{
  value, locked_of, sum_of-put_lock_data, sum_of-finish, total-change_lockeds,
  part_of-add_lock_balance, part_of-unlock_balance,
}
use fin_chain_core.Locking.Steps.{donate-eq-ok, unlock-eq-ok}
use fin_chain_core.Locking.LockSteps.{evaluate_lock-eq-ok, apply_lock-eq-ok}

-- The three parts of the value change by amounts that cancel.
balanced : (t p l a b d : ℤ) → a +ℤ b +ℤ d ≡ pos 0 → t +ℤ a +ℤ (p +ℤ b) +ℤ (l +ℤ d) ≡ t +ℤ p +ℤ l
balanced t p l a b d h =
    let e : t +ℤ a +ℤ (p +ℤ b) +ℤ (l +ℤ d) ≡ t +ℤ p +ℤ l +ℤ (a +ℤ b +ℤ d) = omega int_laws in
    e ∙ rw h (omega int_laws)

two_parts : (t p l a b : ℤ) → a +ℤ b ≡ pos 0 → t +ℤ a +ℤ (p +ℤ b) +ℤ l ≡ t +ℤ p +ℤ l
two_parts t p l a b h =
    let e : t +ℤ a +ℤ (p +ℤ b) +ℤ l ≡ t +ℤ p +ℤ l +ℤ (a +ℤ b) = omega int_laws in
    e ∙ rw h (omega int_laws)

paid_out : (t p l l' a b d : ℤ) → l' +ℤ d ≡ l → a +ℤ b ≡ d → t +ℤ a +ℤ (p +ℤ b) +ℤ l' ≡ t +ℤ p +ℤ l
paid_out t p l l' a b d h e =
    let e' : t +ℤ a +ℤ (p +ℤ b) +ℤ l' ≡ t +ℤ p +ℤ (l' +ℤ (a +ℤ b)) = omega int_laws in
    e' ∙ rw (e, h) refl

-- A donation that goes through leaves the value of every asset, in the balances, the interest pool
-- and the locked balances together, as it was.
pub value-donate :
    ⦃s : SafeInt⦄ (i : ℕ) (op : DonationBalanceOperation) (c c' : LockState)
    → donate op c ≡ ok c'
    → value i c' ≡ value i c
value-donate i op c c' h =
    let (a, lock, lock', bs, got, has, pool, moved, end) = donate-eq-ok op c c' h in
    let j = op.amount.asset_id in
    let d = op.amount.amount in
    let balances = total-adjust_balance i op.issuer (asset (neg d) j) c.balances bs moved in
    let pools = sum_of-put_lock_data i j a lock lock' a.locked_balance d c got has pool in
    ap (value i) end
    ∙ rw (balances, pools) (two_parts (total i c.balances) _ _ _ _ (of_asset-neg i j d))

-- An unlocking that goes through, before or after the period, leaves the value of every asset, in
-- the balances, the interest pool and the locked balances together, as it was.
pub value-unlock :
    ⦃s : SafeInt⦄ ⦃t : SafeTime⦄ (i : ℕ) (op : UnlockBalanceOperation) (c c' : LockState)
    → unlock op c ≡ ok c'
    → value i c' ≡ value i c
value-unlock i op c c' h =
    let (
      item, a, lock, lock', mid, bs, paid, back, found_item, live, got, has, moved, pool, both,
      changed, end,
    ) =
      unlock-eq-ok op c c' h in
    let j = item.asset_id in
    let sets =
      total-change_lockeds i op.issuer j (unlock_balance item.locked_id) mid bs
        (part_of-unlock_balance i item.locked_id) changed in
    let balances = total-adjust_balance i op.issuer (asset paid j) c.balances mid moved in
    let pools = sum_of-put_lock_data i j a lock lock' a.locked_balance back c got has pool in
    let parts : of_asset i (asset paid j) +ℤ of_asset i (asset back j)
        ≡ of_asset i (asset item.locked_balance j) =
      of_asset-add i j paid back ∙ ap (λ (x : ℤ). of_asset i (asset x j)) both in
    ap (value i) end
    ∙ rw (sets, balances, pools)
        (paid_out (total i c.balances) _ _ _ _ _ _
          (sum_of-finish i op.locked_id item c found_item live) parts)

locked_sum :
    (i j : ℕ) (x y : ℤ)
    → of_asset i (asset (neg x) j) +ℤ of_asset i (asset (neg y) j) +ℤ of_asset i (asset (y +ℤ x) j)
      ≡ pos 0
locked_sum i j x y = elim (Bool-cases (j == i)) [
  | inl same ↦ rw same (omega int_laws)
  | inr other ↦ rw other (omega int_laws)
]

-- A locking that goes through leaves the value of every asset, in the balances, the interest pool
-- and the locked balances together, as it was.
pub value-lock_balance :
    ⦃s : SafeInt⦄ ⦃w : Narrowing⦄ (i : ℕ) (op : LockBalanceOperation) (c c' : LockState)
    → lock_balance op c ≡ ok c'
    → value i c' ≡ value i c
unfolding lock_balance
value-lock_balance i op c c' h =
    let (x, evaluated, applied) = >>=-eq-ok (evaluate_lock op c) _ h in
    let (a0, lock0, got0, has0, enough, priced, both, covered) =
      evaluate_lock-eq-ok op c evaluated in
    let (a, lock, pool, n, mid, bs, got, has, pool_eq, sum_eq, moved, changed, end) =
      apply_lock-eq-ok op x.0 x.1 c c' applied in
    let j = op.amount.asset_id in
    let d = op.amount.amount in
    let sets =
      total-change_lockeds i op.issuer j (add_lock_balance c.next_id) mid bs
        (part_of-add_lock_balance i c.next_id) changed in
    let balances = total-adjust_balance i op.issuer (asset (neg d) j) c.balances mid moved in
    let pools =
      sum_of-put_lock_data i j a lock (record lock { interest_pool = pool }) n (neg x.0) c got has
        pool_eq in
    let objects = sum_of-append (locked_of i) c.lockeds (new_locked op x.1 c) in
    let parts : of_asset i (asset (neg d) j)
          +ℤ of_asset i (asset (neg x.0) j)
          +ℤ of_asset i (asset x.1 j)
        ≡ pos 0 =
      rw both (locked_sum i j d x.0) in
    ap (value i) end
    ∙ rw (sets, balances, pools, objects) (balanced (total i c.balances) _ _ _ _ _ parts)
