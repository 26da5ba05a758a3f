-- ===== src/Ledger/Accept.antt =====
-- Which changes of a balance `adjust_balance` accepts, and which it refuses.
use fin_chain_core.Prelude.{
  ℕ, suc, ◌<◌, ◌^◌, ◌≡◌, inl, inr, [], ◌∷◌, ◌++◌, arith, Bool-cases, Option-cases,
}
use fin_chain_core.Prelude.Int.{
  pos, negsuc, ◌+ℤ◌, ◌≤ℤ◌, ◌<ℤ◌, neg, eqb_ℤ, int_laws, neg_parts, +ℤ_parts,
}
use fin_chain_core.Prelude.Results.{ok, err, assert_exception, SafeInt, FitsInt64}
use fin_chain_core.Asset.{Asset, asset, negate, asset_ge}
use fin_chain_core.Ledger.{
  AccountBalance, Balances, find_balance, put_balance, get_balance, new_balance, change_balance,
  adjust_balance, covers,
}
use fin_chain_core.Ledger.Totals.{find_balance-key}
use fin_chain_core.Ledger.Effect.{get_balance-none, get_balance-some}

-- A debit of more than the balance, which fits an `int64_t`, raises an assertion.
pub adjust_balance_overdraft :
    ⦃s : SafeInt⦄ (account i n : ℕ) (bs : Balances)
    → suc n < 2 ^ 63
    → (get_balance bs account i).amount <ℤ pos (suc n)
    → adjust_balance account (asset (negsuc n) i) bs ≡ err assert_exception
unfolding adjust_balance negate asset_ge
adjust_balance_overdraft ⦃s⦄ account i n bs fits short =
    elim (Option-cases (find_balance account i bs)) [
      | inl gone ↦ rw gone (ground arith)
      | inr (b, found) ↦
          let opposite : neg (negsuc n) ≡ pos (suc n) = omega int_laws in
          let less = rw (get_balance-some bs account i b found) at short in
          rw (found, opposite, s.check_fits (pos (suc n)) (omega arith)) (ground arith)
    ]

covers_lem :
    ⦃s : SafeInt⦄ (b : AccountBalance) (d : Asset)
    → b.asset_type ≡ d.asset_id
    → FitsInt64 (neg d.amount)
    → pos 0 ≤ℤ b.balance +ℤ d.amount
    → covers b d ≡ ok tt
unfolding negate asset_ge
covers_lem ⦃s⦄ b d key fits cover =
    let opposite = neg_parts d.amount in
    let sum = +ℤ_parts b.balance d.amount in
    rw (s.check_fits (neg d.amount) fits) (ground (arith, opposite, sum))

change_balance_total :
    ⦃s : SafeInt⦄ (b : AccountBalance) (d : Asset)
    → b.asset_type ≡ d.asset_id
    → FitsInt64 (neg d.amount)
    → FitsInt64 (b.balance +ℤ d.amount)
    → pos 0 ≤ℤ b.balance +ℤ d.amount
    → change_balance b d ≡ ok (record b { balance = b.balance +ℤ d.amount })
change_balance_total ⦃s⦄ b d key fits fits_sum cover =
    rw (covers_lem b d key fits cover, s.check_fits (b.balance +ℤ d.amount) fits_sum)

-- A change that leaves a balance of at least zero goes through, as long as its opposite and the new
-- balance fit an `int64_t`.
pub adjust_balance_total :
    ⦃s : SafeInt⦄ (account : ℕ) (d : Asset) (bs : Balances)
    → FitsInt64 (neg d.amount)
    → FitsInt64 ((get_balance bs account d.asset_id).amount +ℤ d.amount)
    → pos 0 ≤ℤ (get_balance bs account d.asset_id).amount +ℤ d.amount
    → (bs' : Balances) × (adjust_balance account d bs ≡ ok bs')
unfolding adjust_balance
adjust_balance_total ⦃s⦄ account d bs fits_neg fits_sum cover =
    elim (Bool-cases (eqb_ℤ d.amount (pos 0))) [
      | inl nothing ↦ (bs, rw nothing)
      | inr some_amount ↦ elim (Option-cases (find_balance account d.asset_id bs)) [
        | inl gone ↦
            let start : pos 0 +ℤ d.amount ≡ d.amount = omega int_laws in
            let credit = rw (get_balance-none bs account d.asset_id gone, start) at cover in
            (bs ++ (new_balance account d ∷ []), rw (some_amount, gone) (ground arith))
        | inr (b, found) ↦
            let same = get_balance-some bs account d.asset_id b found in
            let key = find_balance-key account d.asset_id bs found in
            let change =
              change_balance_total b d key.1 fits_neg (rw same at fits_sum) (rw same at cover) in
            (
              put_balance account d.asset_id (record b { balance = b.balance +ℤ d.amount }) bs,
              rw (some_amount, found, change),
            )
      ]
    ]
