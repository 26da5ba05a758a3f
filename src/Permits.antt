-- ===== src/Permits.antt =====
-- Withdraw permissions (libraries/chain/withdraw_permission_evaluator.cpp,
-- libraries/chain/include/graphene/chain/withdraw_permission_object.hpp and
-- libraries/chain/protocol/withdraw_permission.cpp): an account lets another withdraw up to a limit
-- in each period. The doc of the claim operation allows one claim in a period; the code, and so the
-- model, allows any number that stay within the limit together.
--
-- Times are 32-bit seconds, whose sums and products wrap; their difference is a signed number.
use fin_chain_core.Prelude.{
  ℕ, ◌+◌, ◌*◌, ◌%◌, Bool, true, false, not, Option, none, some, List, [], ◌∷◌, ◌++◌, ◌||◌, ◌==◌,
  ltb, leb, if◌then◌else◌, find_first, replace_first,
}
use fin_chain_core.Prelude.Int.{ℤ, pos, ◌+ℤ◌, ◌-ℤ◌, mul_ℤ, quot, ltb_ℤ, leb_ℤ, eqb_ℤ}
use fin_chain_core.Prelude.Words.{u32_mod, to_u32}
use fin_chain_core.Prelude.Results.{
  found, Result, ok, err, overflow_exception, SafeInt, ◌>>=◌, ◌>>◌, fc_assert,
}
use fin_chain_core.Asset.{Asset, asset, asset_le, asset_ge}
use fin_chain_core.Ledger.{get_balance}
use fin_chain_core.Authorization.{is_authorized_asset, is_transfer_restricted}
use fin_chain_core.Transfer.{Chain, get_account, get_asset, move_balance}
pub mod Period
pub mod Claim
mod Tests

-- class withdraw_permission_object
pub record Permit : Type 0 where
  pub permit_id : ℕ
  pub withdraw_from_account : ℕ
  pub authorized_account : ℕ
  pub withdrawal_limit : Asset
  pub withdrawal_period_sec : ℕ
  pub period_start_time : ℕ
  pub expiration : ℕ
  pub claimed_this_period : ℤ

-- The database with the permissions, the id of the next one and the block interval.
pub record PermitState : Type 0 where
  pub chain : Chain
  pub permits : List Permit
  pub next_id : ℕ
  pub block_interval : ℕ

-- withdraw_permission_create_operation, and withdraw_permission_update_operation with the id
pub record PermitTerms : Type 0 where
  pub fee : Asset
  pub withdraw_from_account : ℕ
  pub authorized_account : ℕ
  pub withdrawal_limit : Asset
  pub withdrawal_period_sec : ℕ
  pub periods_until_expiration : ℕ
  pub period_start_time : ℕ

-- struct withdraw_permission_claim_operation
pub record ClaimOperation : Type 0 where
  pub fee : Asset
  pub withdraw_permission : ℕ
  pub withdraw_from_account : ℕ
  pub withdraw_to_account : ℕ
  pub amount_to_withdraw : Asset

-- struct withdraw_permission_delete_operation
pub record DeleteOperation : Type 0 where
  pub fee : Asset
  pub withdrawal_permission : ℕ
  pub withdraw_from_account : ℕ
  pub authorized_account : ℕ

abbrev pub is_permit : ℕ → Permit → Bool
is_permit i p = p.permit_id == i

-- withdraw_permission_create_operation::validate, and that of the update
unfoldable pub validate_terms : PermitTerms → Result (Unit {0})
validate_terms op = do
  fc_assert (leb_ℤ (pos 0) op.fee.amount)
  fc_assert (not (op.withdraw_from_account == op.authorized_account))
  fc_assert (ltb_ℤ (pos 0) op.withdrawal_limit.amount)
  fc_assert (ltb 0 op.withdrawal_period_sec)
  fc_assert (ltb 0 op.periods_until_expiration)

-- withdraw_permission_claim_operation::validate
unfoldable pub validate_claim : ClaimOperation → Result (Unit {0})
validate_claim op = do
  fc_assert (not (op.withdraw_to_account == op.withdraw_from_account))
  fc_assert (ltb_ℤ (pos 0) op.amount_to_withdraw.amount)
  fc_assert (leb_ℤ (pos 0) op.fee.amount)

-- withdraw_permission_delete_operation::validate
unfoldable pub validate_delete : DeleteOperation → Result (Unit {0})
validate_delete op = do
  fc_assert (leb_ℤ (pos 0) op.fee.amount)
  fc_assert (not (op.withdraw_from_account == op.authorized_account))

-- The end of the last period.
abbrev pub expiration_of : PermitTerms → ℕ
expiration_of op =
    (op.period_start_time + (op.periods_until_expiration * op.withdrawal_period_sec) % u32_mod)
    % u32_mod

-- The object that withdraw_permission_create_evaluator::do_apply creates.
abbrev pub new_permit : PermitTerms → ℕ → Permit
new_permit op id = record {
  permit_id = id;
  withdraw_from_account = op.withdraw_from_account;
  authorized_account = op.authorized_account;
  withdrawal_limit = op.withdrawal_limit;
  withdrawal_period_sec = op.withdrawal_period_sec;
  period_start_time = op.period_start_time;
  expiration = expiration_of op;
  claimed_this_period = pos 0;
}

-- withdraw_permission_create_evaluator
unfoldable pub create_permit : PermitTerms → PermitState → Result PermitState
create_permit op c = do
  from ← get_account op.withdraw_from_account c.chain.accounts
  to ← get_account op.authorized_account c.chain.accounts
  limited ← get_asset op.withdrawal_limit.asset_id c.chain.assets
  fc_assert (ltb c.chain.head_block_time op.period_start_time)
  fc_assert (ltb c.chain.head_block_time (expiration_of op))
  fc_assert (leb c.block_interval op.withdrawal_period_sec)
  ok (record c { permits = c.permits ++ (new_permit op c.next_id ∷ []); next_id = c.next_id + 1 })

-- withdraw_permission_update_evaluator
unfoldable pub update_permit : ℕ → PermitTerms → PermitState → Result PermitState
update_permit id op c = do
  permit ← found (find_first (is_permit id) c.permits)
  fc_assert (permit.authorized_account == op.authorized_account)
  fc_assert (permit.withdraw_from_account == op.withdraw_from_account)
  limited ← get_asset op.withdrawal_limit.asset_id c.chain.assets
  fc_assert (leb c.chain.head_block_time op.period_start_time)
  fc_assert (ltb c.chain.head_block_time (expiration_of op))
  fc_assert (leb c.block_interval op.withdrawal_period_sec)
  let new = record permit {
    period_start_time = op.period_start_time;
    expiration = expiration_of op;
    withdrawal_limit = op.withdrawal_limit;
    withdrawal_period_sec = op.withdrawal_period_sec;
  }
  ok (record c { permits = replace_first (is_permit id) new c.permits })

abbrev pub remove_permit : ℕ → List Permit → List Permit
remove_permit id [] = []
remove_permit id (p ∷ ps) = if is_permit id p then ps else p ∷ remove_permit id ps

-- withdraw_permission_delete_evaluator
unfoldable pub delete_permit : DeleteOperation → PermitState → Result PermitState
delete_permit op c = do
  permit ← found (find_first (is_permit op.withdrawal_permission) c.permits)
  fc_assert (permit.authorized_account == op.authorized_account)
  fc_assert (permit.withdraw_from_account == op.withdraw_from_account)
  ok (record c { permits = remove_permit op.withdrawal_permission c.permits })

-- The whole periods from the start of the current one to now, negative before the start. A period of
-- zero, for which the code has no defined behaviour, raises here.
unfoldable pub periods_since : Permit → ℕ → Result ℤ
periods_since p now =
    if p.withdrawal_period_sec == 0
    then err overflow_exception
    else ok (quot (pos now -ℤ pos p.period_start_time) (pos p.withdrawal_period_sec))

abbrev pub next_start : Permit → ℤ → ℕ
next_start p periods =
    to_u32 (pos p.period_start_time +ℤ mul_ℤ periods (pos p.withdrawal_period_sec))

module _ ⦃s : SafeInt⦄ where
  -- withdraw_permission_object::available_this_period
  unfoldable pub available_this_period : Permit → ℕ → Result Asset
  available_this_period p now =
      if leb ((p.period_start_time + p.withdrawal_period_sec) % u32_mod) now
      then ok p.withdrawal_limit
      else if ltb_ℤ p.claimed_this_period p.withdrawal_limit.amount
      then (do
        rest ← s.check (p.withdrawal_limit.amount -ℤ p.claimed_this_period)
        ok (asset rest p.withdrawal_limit.asset_id))
      else ok (asset (pos 0) p.withdrawal_limit.asset_id)

  -- The change of the permission in withdraw_permission_claim_evaluator::do_apply.
  unfoldable pub claim_permit : ℤ → ℕ → Permit → Result Permit
  claim_permit amount now p = do
    periods ← periods_since p now
    claimed ←
        (if eqb_ℤ periods (pos 0) then s.check (p.claimed_this_period +ℤ amount) else ok amount)
    ok (record p { period_start_time = next_start p periods; claimed_this_period = claimed })

  -- withdraw_permission_claim_evaluator::do_evaluate; the code reads the account called `from` from
  -- the operation's receiver
  unfoldable pub evaluate_claim : ClaimOperation → PermitState → Result Permit
  evaluate_claim op c = do
    permit ← found (find_first (is_permit op.withdraw_permission) c.permits)
    fc_assert (ltb c.chain.head_block_time permit.expiration)
    fc_assert (permit.authorized_account == op.withdraw_to_account)
    fc_assert (permit.withdraw_from_account == op.withdraw_from_account)
    available ← available_this_period permit c.chain.head_block_time
    within ← asset_le op.amount_to_withdraw available
    fc_assert within
    enough ←
        asset_ge
          (get_balance c.chain.balances op.withdraw_from_account op.amount_to_withdraw.asset_id)
          op.amount_to_withdraw
    fc_assert enough
    withdrawn ← get_asset op.amount_to_withdraw.asset_id c.chain.assets
    fc_assert (
        if is_transfer_restricted withdrawn
        then (withdrawn.issuer == permit.authorized_account)
          || (withdrawn.issuer == permit.withdraw_from_account)
        else true)
    from ← get_account op.withdraw_to_account c.chain.accounts
    to ← get_account permit.authorized_account c.chain.accounts
    fc_assert (is_authorized_asset to withdrawn)
    fc_assert (is_authorized_asset from withdrawn)
    ok permit

  -- withdraw_permission_claim_evaluator, do_evaluate and do_apply
  unfoldable pub claim : ClaimOperation → PermitState → Result PermitState
  claim op c = do
    permit ← evaluate_claim op c
    permit' ← claim_permit op.amount_to_withdraw.amount c.chain.head_block_time permit
    balances ←
        move_balance op.withdraw_from_account op.withdraw_to_account op.amount_to_withdraw
          c.chain.balances
    ok (record c {
      permits = replace_first (is_permit op.withdraw_permission) permit' c.permits;
      chain = record c.chain { balances = balances };
    })
