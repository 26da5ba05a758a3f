-- ===== src/Transfer/Complete.antt =====
-- A transfer that passes the checks goes through.
use fin_chain_core.Prelude.{ℕ, ◌≡◌, ◌≢◌, arith}
use fin_chain_core.Prelude.Int.{pos, ◌+ℤ◌, ◌≤ℤ◌, ◌<ℤ◌, neg, int_laws}
use fin_chain_core.Prelude.Results.{ok, SafeInt, FitsInt64}
use fin_chain_core.Asset.{Asset, asset, negate}
use fin_chain_core.Ledger.{Balances, get_balance, adjust_balance}
use fin_chain_core.Ledger.Effect.{get_balance-adjust_balance}
use fin_chain_core.Ledger.Accept.{adjust_balance_total}
use fin_chain_core.Authorization.{AccountObject, AssetObject}
use fin_chain_core.Transfer.{
  Chain, TransferOperation, validate_transfer, transfer, apply_transfer, move_balance,
}
use fin_chain_core.Transfer.Guards.{Permitted, Unrestricted, evaluate_transfer_total}

validate_transfer_total :
    (op : TransferOperation)
    → pos 0 ≤ℤ op.fee.amount
    → op.from ≢ op.to
    → pos 0 <ℤ op.amount.amount
    → validate_transfer op ≡ ok tt
unfolding validate_transfer
validate_transfer_total op fee apart positive = ground arith

-- The balance of the receiver after the debit of the sender.
receiver_balance :
    ⦃s : SafeInt⦄ (from to : ℕ) (d : Asset) (bs mid : Balances)
    → from ≢ to
    → adjust_balance from (asset (neg d.amount) d.asset_id) bs ≡ ok mid
    → get_balance mid to d.asset_id ≡ get_balance bs to d.asset_id
receiver_balance from to d bs mid apart h =
    rw (get_balance-adjust_balance from (asset (neg d.amount) d.asset_id) bs mid to d.asset_id h)
      (ground arith)

move_balance_total :
    ⦃s : SafeInt⦄ (from to : ℕ) (d : Asset) (bs : Balances)
    → from ≢ to
    → pos 0 <ℤ d.amount
    → d.amount ≤ℤ (get_balance bs from d.asset_id).amount
    → FitsInt64 (get_balance bs from d.asset_id).amount
    → pos 0 ≤ℤ (get_balance bs to d.asset_id).amount
    → FitsInt64 ((get_balance bs to d.asset_id).amount +ℤ d.amount)
    → (bs' : Balances) × (move_balance from to d bs ≡ ok bs')
unfolding move_balance negate
move_balance_total ⦃s⦄ from to d bs apart positive enough fits_from credit fits_to =
    let twice : neg (neg d.amount) ≡ d.amount = omega int_laws in
    let fits : FitsInt64 (neg d.amount) = omega int_laws in
    let fits' : FitsInt64 (neg (neg d.amount)) = omega int_laws in
    let rest : FitsInt64 ((get_balance bs from d.asset_id).amount +ℤ neg d.amount) =
      omega int_laws in
    let covered : pos 0 ≤ℤ (get_balance bs from d.asset_id).amount +ℤ neg d.amount =
      omega int_laws in
    let (mid, first) =
      adjust_balance_total from (asset (neg d.amount) d.asset_id) bs fits' rest covered in
    let same = receiver_balance from to d bs mid apart first in
    let sum : pos 0 ≤ℤ (get_balance bs to d.asset_id).amount +ℤ d.amount = omega int_laws in
    let (bs', second) = adjust_balance_total to d mid fits (rw same fits_to) (rw same sum) in
    (bs', rw (s.check_fits (neg d.amount) fits, first, second))

-- A transfer with a fee of at least zero and a positive amount within the balance of its sender,
-- between two different accounts that exist and may hold the asset, sent from or to the issuer if
-- the asset is restricted, goes through, as long as the balance of the sender and the new one of
-- the receiver fit an `int64_t` and that of the receiver is not below zero.
pub transfer_total :
    ⦃s : SafeInt⦄ (op : TransferOperation) (c : Chain) (f t : AccountObject) (a : AssetObject)
    → Permitted op.from op.to op.amount.asset_id c f t a
    → Unrestricted f t a
    → pos 0 ≤ℤ op.fee.amount
    → op.from ≢ op.to
    → pos 0 <ℤ op.amount.amount
    → op.amount.amount ≤ℤ (get_balance c.balances op.from op.amount.asset_id).amount
    → FitsInt64 (get_balance c.balances op.from op.amount.asset_id).amount
    → pos 0 ≤ℤ (get_balance c.balances op.to op.amount.asset_id).amount
    → FitsInt64 ((get_balance c.balances op.to op.amount.asset_id).amount +ℤ op.amount.amount)
    → (c' : Chain) × (transfer op c ≡ ok c')
unfolding transfer apply_transfer
transfer_total op c f t a permitted free fee apart positive enough fits_from credit fits_to =
    let (bs, moved) =
      move_balance_total op.from op.to op.amount c.balances apart positive enough fits_from credit
        fits_to in
    (
      record c { balances = bs },
      rw (
        validate_transfer_total op fee apart positive,
        evaluate_transfer_total op c f t a permitted free enough,
        moved,
      ),
    )
