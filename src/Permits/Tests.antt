-- ===== src/Permits/Tests.antt =====
-- Account 2 may withdraw 100 units from account 1 in every 1000 seconds.
use fin_chain_core.Prelude.{ℕ, ◌≤◌, ◌≡◌, refl, none, [], ◌∷◌, arith}
use fin_chain_core.Prelude.Int.{pos, neg, ◌+ℤ◌, ◌-ℤ◌, mul_ℤ, quot}
use fin_chain_core.Prelude.Results.{ok, SafeInt, int64_safe}
use fin_chain_core.Prelude.{find_first, replace_first}
use fin_chain_core.Asset.{asset, negate, asset_lt, asset_le, asset_ge}
use fin_chain_core.Ledger.{AccountBalance, find_balance, put_balance, get_balance, adjust_balance}
use fin_chain_core.Ledger.Totals.{total}
use fin_chain_core.Authorization.{AccountObject, AssetObject, slow_check, is_authorized_asset}
use fin_chain_core.Authorization.Meaning.{MayHold}
use fin_chain_core.Transfer.{get_account, get_asset, move_balance}
use fin_chain_core.Permits.{
  Permit, PermitState, ClaimOperation, periods_since, available_this_period, claim_permit,
  evaluate_claim, claim,
}
use fin_chain_core.Permits.Period.{claim_permit_twice}
use fin_chain_core.Permits.Claim.{MayClaim, claim-MayClaim}

instance abbrev safe : SafeInt
safe = int64_safe

abbrev permit : ℕ → ℕ → Permit
permit start claimed = record {
  permit_id = 4;
  withdraw_from_account = 1;
  authorized_account = 2;
  withdrawal_limit = asset (pos 100) 5;
  withdrawal_period_sec = 1_000;
  period_start_time = start;
  expiration = 50_000;
  claimed_this_period = pos claimed;
}

abbrev account : ℕ → AccountObject
account n = record {
  account_id = n;
  allowed_assets = none;
  whitelisting_accounts = [];
  blacklisting_accounts = [];
}

abbrev token : AssetObject
token = record {
  asset_id = 5;
  issuer = 3;
  flags = 0;
  whitelist_authorities = [];
  blacklist_authorities = [];
}

abbrev entry : ℕ → ℕ → AccountBalance
entry o n = record { owner = o; asset_type = 5; balance = pos n; lockeds = [] }

abbrev state : ℕ → ℕ → Permit → PermitState
state m n p = record {
  chain = record {
    accounts = account 1 ∷ account 2 ∷ [];
    assets = token ∷ [];
    balances = entry 1 m ∷ entry 2 n ∷ [];
    head_block_time = 12_500;
  };
  permits = p ∷ [];
  next_id = 5;
  block_interval = 5;
}

abbrev op : ClaimOperation
op = record {
  fee = asset (pos 20) 0;
  withdraw_permission = 4;
  withdraw_from_account = 1;
  withdraw_to_account = 2;
  amount_to_withdraw = asset (pos 60) 5;
}

claimed : claim op (state 300 50 (permit 10_000 80)) ≡ ok (state 240 110 (permit 12_000 60))
unfolding claim evaluate_claim claim_permit periods_since available_this_period quot mul_ℤ ◌+ℤ◌ ◌-ℤ◌
    neg negate asset_lt asset_le asset_ge get_balance adjust_balance find_balance put_balance
    move_balance is_authorized_asset slow_check find_first replace_first
claimed = refl

claim-MayClaim_example :
    (p : Permit) × MayClaim op (state 300 50 (permit 10_000 80)) p
    × ((to : AccountObject) × (a : AssetObject) × (get_account 2 (account 1 ∷ account 2 ∷ [])
          ≡ ok to)
        × (get_asset 5 (token ∷ []) ≡ ok a)
        × MayHold to a)
    × ((i : ℕ) → total i (entry 1 240 ∷ entry 2 110 ∷ []) ≡ total i (entry 1 300 ∷ entry 2 50 ∷ []))
claim-MayClaim_example =
    claim-MayClaim op (state 300 50 (permit 10_000 80)) (state 240 110 (permit 12_000 60)) claimed

claim_permit_twice_example :
    (start' : ℕ) × (c1 : ℕ) × (c2 : ℕ) × (claim_permit (pos 60) 12_500 (permit 10_000 80)
      ≡ ok (permit start' c1))
    × (available_this_period (permit start' c1) 12_500 ≡ ok (asset (pos 40) 5))
    × (available_this_period (permit start' c1) 12_700 ≡ ok (asset (pos 40) 5))
    × (claim_permit (pos 30) 12_700 (permit start' c1) ≡ ok (permit start' c2))
    × (available_this_period (permit start' c2) 12_700 ≡ ok (asset (pos 10) 5))
    × (c2 ≤ 100)
    × (start' ≤ 12_500)
claim_permit_twice_example =
    claim_permit_twice (permit 10_000 80) 10_000 80 100 5 1_000 60 30 12_500 12_700 (omega arith)
      (omega arith) (omega arith) (omega arith) (omega arith) (omega arith) (omega arith)
      (omega arith)
