-- ===== src/Transfer/Guards.antt =====
-- What a transfer that goes through has been checked for, and that one that passes the checks goes
-- through.
use fin_chain_core.Prelude.{ℕ, ◌≡◌, false, arith, ◌⊎◌}
use fin_chain_core.Prelude.Int.{◌≤ℤ◌}
use fin_chain_core.Prelude.Results.{ok, >>=-eq-ok, ensure, ensure-eq-ok}
use fin_chain_core.Ledger.{get_balance}
use fin_chain_core.Authorization.{
  AccountObject, AssetObject, is_authorized_asset, is_transfer_restricted,
}
use fin_chain_core.Authorization.Meaning.{MayHold, is_authorized_asset_iff}
use fin_chain_core.Transfer.{
  Chain, TransferOperation, get_account, get_asset, check_restriction, evaluate_transfer,
}

-- The accounts and the asset exist, and both accounts may hold the asset.
abbrev pub Permitted : ℕ → ℕ → ℕ → Chain → AccountObject → AccountObject → AssetObject → Type 0
Permitted from to i c f t a =
    (get_account from c.accounts ≡ ok f)
    × (get_account to c.accounts ≡ ok t)
    × (get_asset i c.assets ≡ ok a)
    × MayHold f a
    × MayHold t a

-- A restricted asset moves only from or to its issuer.
abbrev pub Unrestricted : AccountObject → AccountObject → AssetObject → Type 0
Unrestricted f t a =
    (is_transfer_restricted a ≡ false) ⊎ (f.account_id ≡ a.issuer) ⊎ (t.account_id ≡ a.issuer)

check_restriction-Unrestricted :
    (f t : AccountObject) (a : AssetObject) {u : Unit {0}}
    → check_restriction f t a ≡ ok u
    → Unrestricted f t a
check_restriction-Unrestricted f t a h = ground arith

Unrestricted-check_restriction :
    (f t : AccountObject) (a : AssetObject) → Unrestricted f t a → check_restriction f t a ≡ ok tt
Unrestricted-check_restriction f t a h = ground arith

pub evaluate_transfer-eq-ok :
    (op : TransferOperation) (c : Chain) {u : Unit {0}}
    → evaluate_transfer op c ≡ ok u
    → (f : AccountObject) × (t : AccountObject) × (a : AssetObject) × Permitted op.from op.to
        op.amount.asset_id c f t a
      × Unrestricted f t a
      × (op.amount.amount ≤ℤ (get_balance c.balances op.from op.amount.asset_id).amount)
unfolding evaluate_transfer
evaluate_transfer-eq-ok op c h =
    let (f, got_from, h1) = >>=-eq-ok (get_account op.from c.accounts) _ h in
    let (t, got_to, h2) = >>=-eq-ok (get_account op.to c.accounts) _ h1 in
    let (a, got_asset, h3) = >>=-eq-ok (get_asset op.amount.asset_id c.assets) _ h2 in
    let (u1, from_ok, h4) = >>=-eq-ok (ensure (is_authorized_asset f a) _) _ h3 in
    let (u2, to_ok, h5) = >>=-eq-ok (ensure (is_authorized_asset t a) _) _ h4 in
    let (u3, free, h6) = >>=-eq-ok (check_restriction f t a) _ h5 in
    (
      f,
      t,
      a,
      (
        got_from,
        got_to,
        got_asset,
        (is_authorized_asset_iff f a).0 (ensure-eq-ok _ _ from_ok),
        (is_authorized_asset_iff t a).0 (ensure-eq-ok _ _ to_ok),
      ),
      check_restriction-Unrestricted f t a free,
      ground arith,
    )

pub evaluate_transfer_total :
    (op : TransferOperation) (c : Chain) (f t : AccountObject) (a : AssetObject)
    → Permitted op.from op.to op.amount.asset_id c f t a
    → Unrestricted f t a
    → op.amount.amount ≤ℤ (get_balance c.balances op.from op.amount.asset_id).amount
    → evaluate_transfer op c ≡ ok tt
unfolding evaluate_transfer
evaluate_transfer_total op c f t a (got_from, got_to, got_asset, from_ok, to_ok) free enough =
    rw
      (
        got_from,
        got_to,
        got_asset,
        (is_authorized_asset_iff f a).1 from_ok,
        (is_authorized_asset_iff t a).1 to_ok,
        Unrestricted-check_restriction f t a free,
      )
      (ground arith)
