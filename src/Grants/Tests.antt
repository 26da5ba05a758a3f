-- ===== src/Grants/Tests.antt =====
-- Account 1 makes a vesting balance for account 2, which draws on another.
use fin_chain_core.Prelude.{ℕ, ◌≡◌, refl, none, [], ◌∷◌, find_first, replace_first, sum_of}
use fin_chain_core.Prelude.Int.{pos, neg, ◌+ℤ◌, ◌-ℤ◌}
use fin_chain_core.Prelude.Results.{Result, ok, err, SafeInt, int64_safe}
use fin_chain_core.Asset.{asset, negate, sub, asset_ge, asset_le}
use fin_chain_core.Ledger.{find_balance, put_balance, get_balance, adjust_balance}
use fin_chain_core.Authorization.{AccountObject}
use fin_chain_core.Vesting.{
  VestingBalance, linear, linear_get_allowed_withdraw, is_withdraw_allowed, withdraw_allowed,
  on_withdraw, withdraw,
}
use fin_chain_core.Grants.{
  GrantState, CreateOperation, WithdrawOperation, cdd_initializer, init_policy, evaluate_create,
  apply_create, create_grant, evaluate_withdraw, apply_withdraw, withdraw_grant,
}
use fin_chain_core.Grants.Value.{grant_value, grant_value-create_grant, grant_value-withdraw_grant}

instance abbrev safe : SafeInt
safe = int64_safe

abbrev account : ℕ → AccountObject
account n = record {
  account_id = n;
  allowed_assets = none;
  whitelisting_accounts = [];
  blacklisting_accounts = [];
}

abbrev grant : VestingBalance
grant = record {
  owner = 2;
  balance = asset (pos 70) 5;
  policy = linear (record {
    begin_timestamp = 100;
    vesting_cliff_seconds = 10;
    vesting_duration_seconds = 100;
    begin_balance = pos 100;
  });
}

abbrev state : GrantState
state = record {
  chain = record {
    accounts = account 1 ∷ account 2 ∷ [];
    assets =
        record {
          asset_id = 5;
          issuer = 3;
          flags = 0;
          whitelist_authorities = [];
          blacklist_authorities = [];
        }
        ∷ [];
    balances = record { owner = 1; asset_type = 5; balance = pos 40; lockeds = [] } ∷ [];
    head_block_time = 150;
  };
  vestings = record { vesting_id = 6; vesting = grant } ∷ [];
  next_vesting_id = 7;
}

abbrev create_op : CreateOperation
create_op = record {
  fee = asset (pos 1) 0;
  creator = 1;
  owner = 2;
  amount = asset (pos 15) 5;
  policy = cdd_initializer 160 3600;
}

abbrev withdraw_op : WithdrawOperation
withdraw_op = record {
  fee = asset (pos 1) 0;
  vesting_balance = 6;
  owner = 2;
  amount = asset (pos 20) 5;
}

abbrev state_or : Result GrantState → GrantState
state_or (ok g) = g
state_or (err e) = state

abbrev after_create : GrantState
after_create = state_or (create_grant create_op state)

created : create_grant create_op state ≡ ok after_create
unfolding create_grant evaluate_create apply_create asset_ge get_balance negate adjust_balance
    find_balance put_balance init_policy find_first ◌+ℤ◌ ◌-ℤ◌ neg
created = refl

abbrev after_withdraw : GrantState
after_withdraw = state_or (withdraw_grant withdraw_op state)

withdrawn : withdraw_grant withdraw_op state ≡ ok after_withdraw
unfolding withdraw_grant evaluate_withdraw apply_withdraw is_withdraw_allowed withdraw_allowed
    linear_get_allowed_withdraw asset_le withdraw on_withdraw sub adjust_balance find_balance
    put_balance find_first replace_first ◌+ℤ◌ ◌-ℤ◌ neg
withdrawn = refl

left_in_grant : sum_of (λ v. v.vesting.balance.amount) after_withdraw.vestings ≡ pos 50
unfolding withdraw_grant evaluate_withdraw apply_withdraw is_withdraw_allowed withdraw_allowed
    linear_get_allowed_withdraw asset_le withdraw on_withdraw sub adjust_balance find_balance
    put_balance find_first replace_first ◌+ℤ◌ ◌-ℤ◌ neg sum_of
left_in_grant = refl

grant_value-create_grant_example : grant_value 5 after_create ≡ grant_value 5 state
grant_value-create_grant_example = grant_value-create_grant 5 create_op state after_create created

grant_value-withdraw_grant_example : grant_value 5 after_withdraw ≡ grant_value 5 state
grant_value-withdraw_grant_example =
    grant_value-withdraw_grant 5 withdraw_op state after_withdraw withdrawn
