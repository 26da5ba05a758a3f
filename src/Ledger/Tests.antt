-- ===== src/Ledger/Tests.antt =====
-- Account balances at a concrete index: accounts 1 and 2 hold 100 and 50 units of asset 0.
use fin_chain_core.Prelude.{ℕ, ◌≡◌, refl, [], ◌∷◌}
use fin_chain_core.Prelude.Int.{neg, pos, negsuc, ◌+ℤ◌}
use fin_chain_core.Prelude.Results.{ok, SafeInt, int64_safe}
use fin_chain_core.Asset.{asset, negate, asset_ge}
use fin_chain_core.Ledger.{AccountBalance, Balances, find_balance, put_balance, adjust_balance}
use fin_chain_core.Ledger.Totals.{total, of_asset, total-adjust_balance}

instance abbrev safe : SafeInt
safe = int64_safe

abbrev entry : ℕ → ℕ → AccountBalance
entry o n = record { owner = o; asset_type = 0; balance = pos n; lockeds = [] }

abbrev two : Balances
two = entry 1 100 ∷ entry 2 50 ∷ []

debited : adjust_balance 1 (asset (negsuc 29) 0) two ≡ ok (entry 1 70 ∷ entry 2 50 ∷ [])
unfolding adjust_balance find_balance put_balance negate neg asset_ge ◌+ℤ◌
debited = refl

total-adjust_balance_example :
    total 0 (entry 1 70 ∷ entry 2 50 ∷ []) ≡ total 0 two +ℤ of_asset 0 (asset (negsuc 29) 0)
total-adjust_balance_example = total-adjust_balance 0 1 (asset (negsuc 29) 0) two _ debited
