-- ===== src/Transfer/Tests.antt =====
-- Transfers of a whitelisted asset between accounts 1 and 2, which hold 100 and 50 units of it.
use fin_chain_core.Prelude.{ℕ, ◌≡◌, ◌≢◌, refl, none, [], ◌∷◌, inl, arith}
use fin_chain_core.Prelude.Int.{pos, neg, ◌+ℤ◌, ◌<ℤ◌, ◌≤ℤ◌}
use fin_chain_core.Prelude.Results.{ok, SafeInt, int64_safe}
use fin_chain_core.Asset.{asset, negate, asset_ge}
use fin_chain_core.Ledger.{AccountBalance, find_balance, put_balance, get_balance, adjust_balance}
use fin_chain_core.Ledger.Totals.{total}
use fin_chain_core.Ledger.Effect.{IsValid}
use fin_chain_core.Authorization.{
  AccountObject, AssetObject, any_authority, slow_check, is_authorized_asset,
}
use fin_chain_core.Authorization.Meaning.{is_authorized_asset_iff}
use fin_chain_core.Transfer.{
  Chain, TransferOperation, OverrideTransferOperation, validate_transfer, evaluate_transfer,
  apply_transfer, transfer, validate_override_transfer, evaluate_override_transfer,
  apply_override_transfer, override_transfer, move_balance,
}
use fin_chain_core.Transfer.Guards.{Permitted, Unrestricted}
use fin_chain_core.Transfer.Effect.{transfer-Permitted, get_balance-transfer, total-transfer}
use fin_chain_core.Transfer.Complete.{transfer_total}

instance abbrev safe : SafeInt
safe = int64_safe

abbrev account : ℕ → AccountObject
account n = record {
  account_id = n;
  allowed_assets = none;
  whitelisting_accounts = 9 ∷ [];
  blacklisting_accounts = [];
}

-- White-listed and overridable.
abbrev token : AssetObject
token = record {
  asset_id = 5;
  issuer = 3;
  flags = 6;
  whitelist_authorities = 9 ∷ [];
  blacklist_authorities = 8 ∷ [];
}

abbrev entry : ℕ → ℕ → AccountBalance
entry o n = record { owner = o; asset_type = 5; balance = pos n; lockeds = [] }

abbrev chain : ℕ → ℕ → Chain
chain m n = record {
  accounts = account 1 ∷ account 2 ∷ [];
  assets = token ∷ [];
  balances = entry 1 m ∷ entry 2 n ∷ [];
  head_block_time = 1_500_000_000;
}

abbrev op : TransferOperation
op = record { fee = asset (pos 20) 0; from = 1; to = 2; amount = asset (pos 30) 5 }

abbrev override_op : OverrideTransferOperation
override_op = record {
  fee = asset (pos 20) 0;
  issuer = 3;
  from = 1;
  to = 2;
  amount = asset (pos 30) 5;
}

transferred : transfer op (chain 100 50) ≡ ok (chain 70 80)
unfolding transfer validate_transfer evaluate_transfer apply_transfer move_balance
    is_authorized_asset slow_check any_authority get_balance adjust_balance find_balance put_balance
    negate neg asset_ge ◌+ℤ◌
transferred = refl

overridden : override_transfer override_op (chain 100 50) ≡ ok (chain 70 80)
unfolding override_transfer validate_override_transfer evaluate_override_transfer
    apply_override_transfer move_balance is_authorized_asset slow_check any_authority get_balance
    adjust_balance find_balance put_balance negate neg asset_ge ◌+ℤ◌
overridden = refl

transfer-Permitted_example :
    (f : AccountObject) × (t : AccountObject) × (a : AssetObject) × Permitted 1 2 5
      (chain 100 50)
      f
      t
      a
    × Unrestricted f t a
    × (op.from ≢ op.to)
    × (pos 0 <ℤ op.amount.amount)
    × (op.amount.amount ≤ℤ (get_balance (chain 100 50).balances 1 5).amount)
transfer-Permitted_example = transfer-Permitted op (chain 100 50) (chain 70 80) transferred

get_balance-transfer_example :
    get_balance (chain 70 80).balances 2 5
    ≡ asset ((get_balance (chain 100 50).balances 2 5).amount +ℤ pos 30) 5
get_balance-transfer_example = get_balance-transfer op (chain 100 50) (chain 70 80) 2 5 transferred

total-transfer_example :
    ((i : ℕ) → total i (chain 70 80).balances ≡ total i (chain 100 50).balances)
    × (IsValid (chain 100 50).balances → IsValid (chain 70 80).balances)
total-transfer_example = total-transfer op (chain 100 50) (chain 70 80) transferred

permitted : Permitted 1 2 5 (chain 100 50) (account 1) (account 2) token
unfolding is_authorized_asset slow_check any_authority
permitted = (
  refl,
  refl,
  refl,
  (is_authorized_asset_iff (account 1) token).0 refl,
  (is_authorized_asset_iff (account 2) token).0 refl,
)

transfer_total_example : (c' : Chain) × (transfer op (chain 100 50) ≡ ok c')
unfolding get_balance find_balance ◌+ℤ◌
transfer_total_example =
    transfer_total op (chain 100 50) (account 1) (account 2) token permitted (inl refl)
      (omega arith) (omega arith) (omega arith) (omega arith) (omega arith) (omega arith)
      (omega arith)
