-- ===== src/Transfer.antt =====
-- Transfers (libraries/chain/transfer_evaluator.cpp and libraries/chain/protocol/transfer.cpp): an
-- operation is validated, evaluated against the state, and then applied to it.
use fin_chain_core.Prelude.{
  ℕ, Bool, true, false, not, Option, none, some, List, [], ◌∷◌, ◌||◌, ◌==◌, ltb, leb, if◌then◌else◌,
}
use fin_chain_core.Prelude.Int.{ℤ, pos, ltb_ℤ, leb_ℤ}
use fin_chain_core.Prelude.Results.{
  Result, ok, err, SafeInt, ◌>>=◌, ◌>>◌, ensure, fc_assert, assert_exception,
  transfer_from_account_not_whitelisted, transfer_to_account_not_whitelisted,
  transfer_restricted_transfer_asset, override_transfer_not_permitted,
}
use fin_chain_core.Asset.{Asset, negate}
use fin_chain_core.Ledger.{Balances, get_balance, adjust_balance}
use fin_chain_core.Authorization.{
  AccountObject, AssetObject, is_authorized_asset, is_transfer_restricted, can_override,
}
pub mod Moves
pub mod Guards
pub mod Effect
pub mod Complete
mod Tests

-- The part of the database that transfers read and write.
pub record Chain : Type 0 where
  pub accounts : List AccountObject
  pub assets : List AssetObject
  pub balances : Balances
  pub head_block_time : ℕ

-- `id(d)`: the object of an id, which raises if there is none.
abbrev pub get_account : ℕ → List AccountObject → Result AccountObject
get_account id [] = err assert_exception
get_account id (a ∷ as') = if a.account_id == id then ok a else get_account id as'

abbrev pub get_asset : ℕ → List AssetObject → Result AssetObject
get_asset id [] = err assert_exception
get_asset id (a ∷ as') = if a.asset_id == id then ok a else get_asset id as'

-- struct transfer_operation; the memo and the extensions play no part in the effect
pub record TransferOperation : Type 0 where
  pub fee : Asset
  pub from : ℕ
  pub to : ℕ
  pub amount : Asset

-- struct override_transfer_operation
pub record OverrideTransferOperation : Type 0 where
  pub fee : Asset
  pub issuer : ℕ
  pub from : ℕ
  pub to : ℕ
  pub amount : Asset

-- transfer_operation::validate
unfoldable pub validate_transfer : TransferOperation → Result (Unit {0})
validate_transfer op = do
  fc_assert (leb_ℤ (pos 0) op.fee.amount)
  fc_assert (not (op.from == op.to))
  fc_assert (ltb_ℤ (pos 0) op.amount.amount)

-- override_transfer_operation::validate
unfoldable pub validate_override_transfer : OverrideTransferOperation → Result (Unit {0})
validate_override_transfer op = do
  fc_assert (leb_ℤ (pos 0) op.fee.amount)
  fc_assert (not (op.from == op.to))
  fc_assert (ltb_ℤ (pos 0) op.amount.amount)
  fc_assert (not (op.issuer == op.from))

abbrev pub check_restriction : AccountObject → AccountObject → AssetObject → Result (Unit {0})
check_restriction from_account to_account asset_type =
    if is_transfer_restricted asset_type
    then ensure
        ((from_account.account_id == asset_type.issuer)
          || (to_account.account_id == asset_type.issuer))
        transfer_restricted_transfer_asset
    else ok tt

-- transfer_evaluator::do_evaluate
unfoldable pub evaluate_transfer : TransferOperation → Chain → Result (Unit {0})
evaluate_transfer op c = do
  from_account ← get_account op.from c.accounts
  to_account ← get_account op.to c.accounts
  asset_type ← get_asset op.amount.asset_id c.assets
  ensure (is_authorized_asset from_account asset_type) transfer_from_account_not_whitelisted
  ensure (is_authorized_asset to_account asset_type) transfer_to_account_not_whitelisted
  check_restriction from_account to_account asset_type
  fc_assert (leb_ℤ op.amount.amount (get_balance c.balances op.from op.amount.asset_id).amount)

-- HARDFORK_419_TIME
abbrev pub hardfork_419_time : ℕ
hardfork_419_time = 1_446_652_800

-- override_transfer_evaluator::do_evaluate
unfoldable pub evaluate_override_transfer : OverrideTransferOperation → Chain → Result (Unit {0})
evaluate_override_transfer op c = do
  asset_type ← get_asset op.amount.asset_id c.assets
  ensure (can_override asset_type) override_transfer_not_permitted
  fc_assert (asset_type.issuer == op.issuer)
  from_account ← get_account op.from c.accounts
  to_account ← get_account op.to c.accounts
  fc_assert (is_authorized_asset to_account asset_type)
  fc_assert (is_authorized_asset from_account asset_type)
  (if leb c.head_block_time hardfork_419_time
      then fc_assert (is_authorized_asset from_account asset_type)
      else ok tt)
  fc_assert (leb_ℤ op.amount.amount (get_balance c.balances op.from op.amount.asset_id).amount)

module _ ⦃s : SafeInt⦄ where
  -- The two calls of both do_apply functions.
  unfoldable pub move_balance : ℕ → ℕ → Asset → Balances → Result Balances
  move_balance from to amount bs = do
    debit ← negate amount
    debited ← adjust_balance from debit bs
    adjust_balance to amount debited

  -- transfer_evaluator::do_apply
  unfoldable pub apply_transfer : TransferOperation → Chain → Result Chain
  apply_transfer op c = do
    bs ← move_balance op.from op.to op.amount c.balances
    ok (record c { balances = bs })

  -- override_transfer_evaluator::do_apply
  unfoldable pub apply_override_transfer : OverrideTransferOperation → Chain → Result Chain
  apply_override_transfer op c = do
    bs ← move_balance op.from op.to op.amount c.balances
    ok (record c { balances = bs })

  unfoldable pub transfer : TransferOperation → Chain → Result Chain
  transfer op c = do validate_transfer op; evaluate_transfer op c; apply_transfer op c

  unfoldable pub override_transfer : OverrideTransferOperation → Chain → Result Chain
  override_transfer op c = do
    validate_override_transfer op
    evaluate_override_transfer op c
    apply_override_transfer op c
