-- ===== src/Transfer/Effect.antt =====
-- The theorems on whole transfers: validated, evaluated and applied.
use fin_chain_core.Prelude.{ℕ, ap, ◌∙◌, ◌≡◌, ◌≢◌, true, ◌==◌, ◌&&◌, if◌then◌else◌, arith}
use fin_chain_core.Prelude.Int.{pos, ◌+ℤ◌, ◌-ℤ◌, ◌≤ℤ◌, ◌<ℤ◌}
use fin_chain_core.Prelude.Results.{ok, SafeInt, >>=-eq-ok, ok-injective, ensure, ensure-eq-ok}
use fin_chain_core.Asset.{asset}
use fin_chain_core.Ledger.{get_balance}
use fin_chain_core.Ledger.Totals.{total}
use fin_chain_core.Ledger.Effect.{IsValid}
use fin_chain_core.Authorization.{AccountObject, AssetObject, can_override, is_authorized_asset}
use fin_chain_core.Authorization.Meaning.{is_authorized_asset_iff}
use fin_chain_core.Transfer.{
  Chain, TransferOperation, OverrideTransferOperation, get_account, get_asset, evaluate_transfer,
  evaluate_override_transfer, validate_transfer, validate_override_transfer, transfer,
  override_transfer, apply_transfer, apply_override_transfer, move_balance,
}
use fin_chain_core.Transfer.Moves.{
  total-move_balance, get_balance-move_balance, move_balance-IsValid,
}
use fin_chain_core.Transfer.Guards.{Permitted, Unrestricted, evaluate_transfer-eq-ok}

validate_transfer-eq-ok :
    (op : TransferOperation) {u : Unit {0}}
    → validate_transfer op ≡ ok u
    → (op.from ≢ op.to) × (pos 0 <ℤ op.amount.amount)
unfolding validate_transfer
validate_transfer-eq-ok op h = (λ same. ground arith, ground arith)

validate_override_transfer-eq-ok :
    (op : OverrideTransferOperation) {u : Unit {0}}
    → validate_override_transfer op ≡ ok u
    → (op.from ≢ op.to) × (pos 0 <ℤ op.amount.amount) × (op.issuer ≢ op.from)
unfolding validate_override_transfer
validate_override_transfer-eq-ok op h = (λ same. ground arith, ground arith, λ same. ground arith)

apply_transfer-eq-ok :
    ⦃s : SafeInt⦄ (op : TransferOperation) (c c' : Chain)
    → apply_transfer op c ≡ ok c'
    → move_balance op.from op.to op.amount c.balances ≡ ok c'.balances
unfolding apply_transfer
apply_transfer-eq-ok op c c' h =
    let (bs, moved, end) = >>=-eq-ok (move_balance op.from op.to op.amount c.balances) _ h in
    moved ∙ ap (λ (x : Chain). ok x.balances) (ok-injective end)

apply_override_transfer-eq-ok :
    ⦃s : SafeInt⦄ (op : OverrideTransferOperation) (c c' : Chain)
    → apply_override_transfer op c ≡ ok c'
    → move_balance op.from op.to op.amount c.balances ≡ ok c'.balances
unfolding apply_override_transfer
apply_override_transfer-eq-ok op c c' h =
    let (bs, moved, end) = >>=-eq-ok (move_balance op.from op.to op.amount c.balances) _ h in
    moved ∙ ap (λ (x : Chain). ok x.balances) (ok-injective end)

transfer-eq-ok :
    ⦃s : SafeInt⦄ (op : TransferOperation) (c c' : Chain)
    → transfer op c ≡ ok c'
    → (validate_transfer op ≡ ok tt)
      × (evaluate_transfer op c ≡ ok tt)
      × (move_balance op.from op.to op.amount c.balances ≡ ok c'.balances)
unfolding transfer
transfer-eq-ok op c c' h =
    let (u, valid, h1) = >>=-eq-ok (validate_transfer op) _ h in
    let (v, evaluated, h2) = >>=-eq-ok (evaluate_transfer op c) _ h1 in
    (valid, evaluated, apply_transfer-eq-ok op c c' h2)

-- A transfer that goes through has a positive amount within the balance of its sender, goes to
-- another account, and both accounts exist and may hold the asset; a restricted asset is sent from
-- or to its issuer.
pub transfer-Permitted :
    ⦃s : SafeInt⦄ (op : TransferOperation) (c c' : Chain)
    → transfer op c ≡ ok c'
    → (f : AccountObject) × (t : AccountObject) × (a : AssetObject) × Permitted op.from op.to
        op.amount.asset_id c f t a
      × Unrestricted f t a
      × (op.from ≢ op.to)
      × (pos 0 <ℤ op.amount.amount)
      × (op.amount.amount ≤ℤ (get_balance c.balances op.from op.amount.asset_id).amount)
transfer-Permitted op c c' h =
    let (valid, evaluated, moved) = transfer-eq-ok op c c' h in
    let (f, t, a, permitted, free, enough) = evaluate_transfer-eq-ok op c evaluated in
    let (apart, positive) = validate_transfer-eq-ok op valid in
    (f, t, a, permitted, free, apart, positive, enough)

-- A transfer takes its amount from the balance of the sender, adds it to that of the receiver, and
-- leaves every other balance as it was.
pub get_balance-transfer :
    ⦃s : SafeInt⦄ (op : TransferOperation) (c c' : Chain) (o a : ℕ)
    → transfer op c ≡ ok c'
    → get_balance c'.balances o a ≡ (
        if (op.from == o) && (op.amount.asset_id == a)
        then asset
            ((get_balance c.balances op.from op.amount.asset_id).amount -ℤ op.amount.amount)
            a
        else if (op.to == o) && (op.amount.asset_id == a)
        then asset ((get_balance c.balances op.to op.amount.asset_id).amount +ℤ op.amount.amount) a
        else get_balance c.balances o a)
get_balance-transfer op c c' o a h =
    let (valid, evaluated, moved) = transfer-eq-ok op c c' h in
    get_balance-move_balance op.from op.to op.amount c.balances c'.balances o a
      (validate_transfer-eq-ok op valid).0 moved

-- A transfer leaves the sum of every asset over all accounts as it was, and if no balance was below
-- zero before it, none is after it.
pub total-transfer :
    ⦃s : SafeInt⦄ (op : TransferOperation) (c c' : Chain)
    → transfer op c ≡ ok c'
    → ((i : ℕ) → total i c'.balances ≡ total i c.balances)
      × (IsValid c.balances → IsValid c'.balances)
total-transfer op c c' h =
    let (valid, evaluated, moved) = transfer-eq-ok op c c' h in
    (
      λ i. total-move_balance i op.from op.to op.amount c.balances c'.balances moved,
      λ v. move_balance-IsValid op.from op.to op.amount c.balances c'.balances v moved,
    )

-- An override transfer that goes through moves an asset that may be overridden and whose issuer
-- sends the operation, from an account other than the issuer, between two accounts that exist and
-- may hold it, and it leaves the sum of every asset over all accounts as it was.
pub override_transfer-Permitted :
    ⦃s : SafeInt⦄ (op : OverrideTransferOperation) (c c' : Chain)
    → override_transfer op c ≡ ok c'
    → (f : AccountObject) × (t : AccountObject) × (a : AssetObject) × Permitted op.from op.to
        op.amount.asset_id c f t a
      × (can_override a ≡ true)
      × (a.issuer ≡ op.issuer)
      × (op.issuer ≢ op.from)
      × ((i : ℕ) → total i c'.balances ≡ total i c.balances)
unfolding override_transfer evaluate_override_transfer
override_transfer-Permitted op c c' h =
    let (u, valid, h1) = >>=-eq-ok (validate_override_transfer op) _ h in
    let (v, evaluated, h2) = >>=-eq-ok (evaluate_override_transfer op c) _ h1 in
    let (a, got_asset, e1) = >>=-eq-ok (get_asset op.amount.asset_id c.assets) _ evaluated in
    let (u1, override, e2) = >>=-eq-ok (ensure (can_override a) _) _ e1 in
    let (u2, issued, e3) = >>=-eq-ok (ensure (a.issuer == op.issuer) _) _ e2 in
    let (f, got_from, e4) = >>=-eq-ok (get_account op.from c.accounts) _ e3 in
    let (t, got_to, e5) = >>=-eq-ok (get_account op.to c.accounts) _ e4 in
    let (u3, to_ok, e6) = >>=-eq-ok (ensure (is_authorized_asset t a) _) _ e5 in
    let (u4, from_ok, e7) = >>=-eq-ok (ensure (is_authorized_asset f a) _) _ e6 in
    (
      f,
      t,
      a,
      (
        got_from,
        got_to,
        got_asset,
        (is_authorized_asset_iff f a).0 (ensure-eq-ok _ _ from_ok),
        (is_authorized_asset_iff t a).0 (ensure-eq-ok _ _ to_ok),
      ),
      ensure-eq-ok _ _ override,
      ground arith,
      (validate_override_transfer-eq-ok op valid).2,
      λ i.
          total-move_balance i op.from op.to op.amount c.balances c'.balances
            (apply_override_transfer-eq-ok op c c' h2),
    )
