-- ===== src/Grants.antt =====
-- Vesting balances that accounts make and draw on
-- (libraries/chain/vesting_balance_evaluator.cpp).
use fin_chain_core.Prelude.{ℕ, suc, Bool, List, ◌∷◌, not, ◌==◌, find_first, replace_first}
use fin_chain_core.Prelude.Int.{ℤ, pos, ltb_ℤ, leb_ℤ}
use fin_chain_core.Prelude.Results.{Result, ok, SafeInt, ◌>>=◌, ◌>>◌, fc_assert, found}
use fin_chain_core.Asset.{Asset, negate, asset_ge}
use fin_chain_core.Ledger.{get_balance, adjust_balance}
use fin_chain_core.Authorization.{AccountObject, AssetObject, is_transfer_restricted}
use fin_chain_core.Transfer.{Chain, get_account, get_asset}
use fin_chain_core.Vesting.{
  VestingPolicy, linear, cdd, VestingBalance, is_withdraw_allowed, withdraw,
}
use fin_chain_core.Cashback.{VestingObject, is_vesting}
pub mod Value
mod Tests

-- The chain and its vesting balances
pub record GrantState : Type 0 where
  pub chain : Chain
  pub vestings : List VestingObject
  pub next_vesting_id : ℕ

-- vesting_policy_initializer, the static variant of linear_vesting_policy_initializer and
-- cdd_vesting_policy_initializer
pub data VestingPolicyInitializer : Type 0 where
  linear_initializer :
      (begin_timestamp vesting_cliff_seconds vesting_duration_seconds : ℕ)
      → VestingPolicyInitializer
  cdd_initializer : (start_claim vesting_seconds : ℕ) → VestingPolicyInitializer

-- struct vesting_balance_create_operation
pub record CreateOperation : Type 0 where
  pub fee : Asset
  pub creator : ℕ
  pub owner : ℕ
  pub amount : Asset
  pub policy : VestingPolicyInitializer

-- struct vesting_balance_withdraw_operation
pub record WithdrawOperation : Type 0 where
  pub fee : Asset
  pub vesting_balance : ℕ
  pub owner : ℕ
  pub amount : Asset

-- vesting_balance_create_operation::validate and vesting_balance_withdraw_operation::validate
abbrev pub validate_amounts : Asset → Asset → Result (Unit {0})
validate_amounts fee amount = do
  fc_assert (leb_ℤ (pos 0) fee.amount)
  fc_assert (ltb_ℤ (pos 0) amount.amount)

-- init_policy_visitor
unfoldable pub init_policy : VestingPolicyInitializer → ℤ → ℕ → VestingPolicy
init_policy (linear_initializer begin_timestamp vesting_cliff_seconds vesting_duration_seconds)
      init_balance now =
    linear (record {
      begin_timestamp = begin_timestamp;
      vesting_cliff_seconds = vesting_cliff_seconds;
      vesting_duration_seconds = vesting_duration_seconds;
      begin_balance = init_balance;
    })
init_policy (cdd_initializer start_claim vesting_seconds) init_balance now = cdd (record {
  vesting_seconds = vesting_seconds;
  coin_seconds_earned = 0;
  start_claim = start_claim;
  coin_seconds_earned_last_update = now;
})

abbrev pub granted : CreateOperation → ℕ → VestingBalance
granted op now = record {
  owner = op.owner;
  balance = op.amount;
  policy = init_policy op.policy op.amount.amount now;
}

-- vesting_balance_create_evaluator::do_evaluate
unfoldable pub evaluate_create : CreateOperation → GrantState → Result (Unit {0})
evaluate_create op g = do
  creator_account ← get_account op.creator g.chain.accounts
  owner_account ← get_account op.owner g.chain.accounts
  fc_assert (ltb_ℤ (pos 0) op.amount.amount)
  covered ←
      asset_ge (get_balance g.chain.balances creator_account.account_id op.amount.asset_id)
        op.amount
  fc_assert covered
  asset_type ← get_asset op.amount.asset_id g.chain.assets
  fc_assert (not (is_transfer_restricted asset_type))

module _ ⦃safe : SafeInt⦄ where
  -- vesting_balance_create_evaluator::do_apply
  unfoldable pub apply_create : CreateOperation → GrantState → Result GrantState
  apply_create op g = do
    covered ← asset_ge (get_balance g.chain.balances op.creator op.amount.asset_id) op.amount
    fc_assert covered
    debit ← negate op.amount
    balances ← adjust_balance op.creator debit g.chain.balances
    ok (record {
      chain = record g.chain { balances = balances };
      vestings =
          record { vesting_id = g.next_vesting_id; vesting = granted op g.chain.head_block_time }
          ∷ g.vestings;
      next_vesting_id = suc g.next_vesting_id;
    })

  unfoldable pub create_grant : CreateOperation → GrantState → Result GrantState
  create_grant op g = validate_amounts op.fee op.amount >> evaluate_create op g >> apply_create op g

  -- vesting_balance_withdraw_evaluator::do_evaluate
  unfoldable pub evaluate_withdraw : WithdrawOperation → GrantState → Result (Unit {0})
  evaluate_withdraw op g = do
    vbo ← found (find_first (is_vesting op.vesting_balance) g.vestings)
    fc_assert (op.owner == vbo.vesting.owner)
    allowed ← is_withdraw_allowed vbo.vesting g.chain.head_block_time op.amount
    fc_assert allowed
    owner_account ← get_account op.owner g.chain.accounts
    ok tt

  -- vesting_balance_withdraw_evaluator::do_apply
  unfoldable pub apply_withdraw : WithdrawOperation → GrantState → Result GrantState
  apply_withdraw op g = do
    vbo ← found (find_first (is_vesting op.vesting_balance) g.vestings)
    left ← withdraw vbo.vesting g.chain.head_block_time op.amount
    balances ← adjust_balance op.owner op.amount g.chain.balances
    ok (record g {
      chain = record g.chain { balances = balances };
      vestings =
          replace_first (is_vesting op.vesting_balance) (record vbo { vesting = left }) g.vestings;
    })

  unfoldable pub withdraw_grant : WithdrawOperation → GrantState → Result GrantState
  withdraw_grant op g =
      validate_amounts op.fee op.amount >> evaluate_withdraw op g >> apply_withdraw op g
