-- ===== src/Permits/Claim.antt =====
-- What a claim that goes through has been checked for.
use fin_chain_core.Prelude.{
  ℕ, some, ◌≡◌, sym, ap, ◌∙◌, subst, true, ◌==◌, ◌||◌, ltb, ltb→lt, ◌<◌, if◌then◌else◌, find_first,
  ==_iff,
}
use fin_chain_core.Prelude.Int.{◌≤ℤ◌}
use fin_chain_core.Prelude.Results.{
  found-eq-ok, found, ok, SafeInt, >>=-eq-ok, ok-injective, fc_assert, ensure-eq-ok,
}
use fin_chain_core.Asset.{Asset, asset_le, asset_ge}
use fin_chain_core.Asset.Laws.{asset_le-eq-ok}
use fin_chain_core.Ledger.{get_balance}
use fin_chain_core.Ledger.Totals.{total}
use fin_chain_core.Authorization.{
  AssetObject, AccountObject, is_authorized_asset, is_transfer_restricted,
}
use fin_chain_core.Authorization.Meaning.{MayHold, is_authorized_asset_iff}
use fin_chain_core.Transfer.{get_account, get_asset, move_balance}
use fin_chain_core.Transfer.Moves.{total-move_balance}
use fin_chain_core.Permits.{
  Permit, PermitState, ClaimOperation, is_permit, available_this_period, claim_permit,
  evaluate_claim, claim,
}

-- A permission that the operation may use for its amount at the time of the state.
abbrev pub MayClaim : ⦃s : SafeInt⦄ → ClaimOperation → PermitState → Permit → Type 0
MayClaim ⦃s⦄ op c p =
    (find_first (is_permit op.withdraw_permission) c.permits ≡ some p)
    × (c.chain.head_block_time < p.expiration)
    × (p.authorized_account ≡ op.withdraw_to_account)
    × (p.withdraw_from_account ≡ op.withdraw_from_account)
    × ((rest : Asset) × (available_this_period p c.chain.head_block_time ≡ ok rest)
        × (op.amount_to_withdraw.asset_id ≡ rest.asset_id)
        × (op.amount_to_withdraw.amount ≤ℤ rest.amount))

evaluate_claim-MayClaim :
    ⦃s : SafeInt⦄ (op : ClaimOperation) (c : PermitState) {p : Permit}
    → evaluate_claim op c ≡ ok p
    → MayClaim op c p
      × ((to : AccountObject) × (a : AssetObject) × (get_account op.withdraw_to_account
              c.chain.accounts
            ≡ ok to)
          × (get_asset op.amount_to_withdraw.asset_id c.chain.assets ≡ ok a)
          × MayHold to a)
unfolding evaluate_claim
evaluate_claim-MayClaim op c {p} h =
    let now = c.chain.head_block_time in
    let d = op.amount_to_withdraw in
    let (q, e1, h1) =
      >>=-eq-ok (found (find_first (is_permit op.withdraw_permission) c.permits)) _ h in
    let (u2, e2, h2) = >>=-eq-ok (fc_assert (ltb now q.expiration)) _ h1 in
    let (u3, e3, h3) =
      >>=-eq-ok (fc_assert (q.authorized_account == op.withdraw_to_account)) _ h2 in
    let (u4, e4, h4) =
      >>=-eq-ok (fc_assert (q.withdraw_from_account == op.withdraw_from_account)) _ h3 in
    let (rest, e5, h5) = >>=-eq-ok (available_this_period q now) _ h4 in
    let (within, e6, h6) = >>=-eq-ok (asset_le d rest) _ h5 in
    let (u7, e7, h7) = >>=-eq-ok (fc_assert within) _ h6 in
    let (enough, e8, h8) =
      >>=-eq-ok (asset_ge (get_balance c.chain.balances op.withdraw_from_account d.asset_id) d) _
        h7 in
    let (u9, e9, h9) = >>=-eq-ok (fc_assert enough) _ h8 in
    let (a, e10, h10) = >>=-eq-ok (get_asset d.asset_id c.chain.assets) _ h9 in
    let (u11, e11, h11) =
      >>=-eq-ok
        (fc_assert (
          if is_transfer_restricted a
          then (a.issuer == q.authorized_account) || (a.issuer == q.withdraw_from_account)
          else true))
        _ h10 in
    let (from, e12, h12) = >>=-eq-ok (get_account op.withdraw_to_account c.chain.accounts) _ h11 in
    let (to, e13, h13) = >>=-eq-ok (get_account q.authorized_account c.chain.accounts) _ h12 in
    let (u14, e14, h14) = >>=-eq-ok (fc_assert (is_authorized_asset to a)) _ h13 in
    let (u15, e15, h15) = >>=-eq-ok (fc_assert (is_authorized_asset from a)) _ h14 in
    let (same, le) = asset_le-eq-ok d rest (e6 ∙ ap ok (ensure-eq-ok _ _ e7)) in
    let facts : MayClaim op c q = (
      found-eq-ok _ e1,
      ltb→lt _ _ (ensure-eq-ok _ _ e2),
      (==_iff _ _).0 (ensure-eq-ok _ _ e3),
      (==_iff _ _).0 (ensure-eq-ok _ _ e4),
      (rest, e5, same, le),
    ) in
    (
      subst (MayClaim op c) (ok-injective h15) facts,
      (from, a, e12, e10, (is_authorized_asset_iff from a).0 (ensure-eq-ok _ _ e15)),
    )

-- A claim that goes through uses a permission that has not expired, from the account that gave it
-- and by the account that it was given to, for at most what is left of its limit and of its asset;
-- the receiver may hold the asset, and the sum of every asset over all accounts stays as it was.
pub claim-MayClaim :
    ⦃s : SafeInt⦄ (op : ClaimOperation) (c c' : PermitState)
    → claim op c ≡ ok c'
    → (p : Permit) × MayClaim op c p
      × ((to : AccountObject) × (a : AssetObject) × (get_account op.withdraw_to_account
              c.chain.accounts
            ≡ ok to)
          × (get_asset op.amount_to_withdraw.asset_id c.chain.assets ≡ ok a)
          × MayHold to a)
      × ((i : ℕ) → total i c'.chain.balances ≡ total i c.chain.balances)
unfolding claim
claim-MayClaim op c c' h =
    let (p, e1, h1) = >>=-eq-ok (evaluate_claim op c) _ h in
    let (p', e2, h2) =
      >>=-eq-ok (claim_permit op.amount_to_withdraw.amount c.chain.head_block_time p) _ h1 in
    let (bs, e3, h3) =
      >>=-eq-ok
        (move_balance op.withdraw_from_account op.withdraw_to_account op.amount_to_withdraw
          c.chain.balances)
        _ h2 in
    let (may, receiver) = evaluate_claim-MayClaim op c e1 in
    (
      p,
      may,
      receiver,
      λ i.
          ap (λ (x : PermitState). total i x.chain.balances) (sym (ok-injective h3))
          ∙ total-move_balance i op.withdraw_from_account op.withdraw_to_account
              op.amount_to_withdraw c.chain.balances bs e3,
    )
