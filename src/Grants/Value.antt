-- ===== src/Grants/Value.antt =====
-- Making and drawing on a vesting balance moves value, and makes none.
use fin_chain_core.Prelude.{ℕ, ◌≡◌, sym, ap, subst, ◌∙◌, find_first, sum_of, sum_of-replace_first}
use fin_chain_core.Prelude.Int.{ℤ, pos, neg, ◌+ℤ◌, ◌-ℤ◌, int_laws, +ℤ_cancel}
use fin_chain_core.Prelude.Results.{
  ok, SafeInt, ◌>>◌, >>=-eq-ok, ok-injective, fc_assert, found, found-eq-ok,
}
use fin_chain_core.Asset.{Asset, asset, negate, sub, asset_ge}
use fin_chain_core.Asset.Laws.{negate-eq-ok, sub-eq-ok}
use fin_chain_core.Ledger.{get_balance, adjust_balance}
use fin_chain_core.Ledger.Totals.{total, of_asset, of_asset-add, of_asset-neg, total-adjust_balance}
use fin_chain_core.Vesting.{VestingBalance, withdraw}
use fin_chain_core.Cashback.{VestingObject, is_vesting}
use fin_chain_core.Grants.{
  GrantState, CreateOperation, WithdrawOperation, validate_amounts, evaluate_create, apply_create,
  create_grant, evaluate_withdraw, apply_withdraw, withdraw_grant,
}

abbrev pub in_grant : ℕ → VestingObject → ℤ
in_grant i v = of_asset i v.vesting.balance

abbrev pub grant_value : ℕ → GrantState → ℤ
grant_value i g = total i g.chain.balances +ℤ sum_of (in_grant i) g.vestings

module _ ⦃safe : SafeInt⦄ where
  of_asset-negate : (i : ℕ) (a c : Asset) → negate a ≡ ok c → of_asset i c +ℤ of_asset i a ≡ pos 0
  of_asset-negate i a c h =
      let (id, amount) = negate-eq-ok a c h in
      let c_is : asset (neg a.amount) a.asset_id ≡ c =
        λ t. record { amount = sym amount t; asset_id = sym id t } in
      subst (λ (x : Asset). of_asset i x +ℤ of_asset i a ≡ pos 0) c_is
        (of_asset-neg i a.asset_id a.amount)

  of_asset-sub :
      (i : ℕ) (a b c : Asset) → sub a b ≡ ok c → of_asset i c +ℤ of_asset i b ≡ of_asset i a
  of_asset-sub i a b c h =
      let (same, same', difference) = sub-eq-ok a b c h in
      let b_is : asset b.amount a.asset_id ≡ b =
        λ t. record { amount = b.amount; asset_id = same t } in
      let c_is : asset (a.amount -ℤ b.amount) a.asset_id ≡ c =
        λ t. record { amount = sym difference t; asset_id = sym same' t } in
      let whole : a.amount -ℤ b.amount +ℤ b.amount ≡ a.amount = omega int_laws in
      subst (λ (x : Asset). of_asset i x +ℤ of_asset i b ≡ of_asset i a) c_is
        (subst
          (λ (x : Asset).
            of_asset i (asset (a.amount -ℤ b.amount) a.asset_id) +ℤ of_asset i x ≡ of_asset i a)
          b_is
          (of_asset-add i a.asset_id (a.amount -ℤ b.amount) b.amount
            ∙ ap (λ (n : ℤ). of_asset i (asset n a.asset_id)) whole))

  -- Making a vesting balance that goes through leaves the sum of every asset, over the balances of the
  -- accounts and the vesting balances, as it was.
  pub grant_value-create_grant :
      (i : ℕ) (op : CreateOperation) (g g' : GrantState)
      → create_grant op g ≡ ok g'
      → grant_value i g' ≡ grant_value i g
  unfolding create_grant apply_create sum_of
  grant_value-create_grant i op g g' h =
      let (u, evaluated, h2) =
        >>=-eq-ok (validate_amounts op.fee op.amount >> evaluate_create op g) _ h in
      let (covered, test, h3) =
        >>=-eq-ok (asset_ge (get_balance g.chain.balances op.creator op.amount.asset_id) op.amount)
          _ h2 in
      let (u2, passed, h4) = >>=-eq-ok (fc_assert covered) _ h3 in
      let (debit, negated, h5) = >>=-eq-ok (negate op.amount) _ h4 in
      let (bs, debited, h6) = >>=-eq-ok (adjust_balance op.creator debit g.chain.balances) _ h5 in
      subst (λ (x : GrantState). grant_value i x ≡ grant_value i g) (ok-injective h6)
        (created _ _ _ _ _ (total-adjust_balance i op.creator debit g.chain.balances bs debited)
          (of_asset-negate i op.amount debit negated))
    where
      created : (t' t d a v : ℤ) → t' ≡ t +ℤ d → d +ℤ a ≡ pos 0 → t' +ℤ (a +ℤ v) ≡ t +ℤ v
      created t' t d a v e z =
          let right : t +ℤ d +ℤ (a +ℤ v) ≡ t +ℤ (d +ℤ a) +ℤ v = omega int_laws in
          rw e (right ∙ rw z (omega int_laws))

  balance-withdraw :
      (i t : ℕ) (v w : VestingBalance) (amount : Asset)
      → withdraw v t amount ≡ ok w
      → of_asset i w.balance +ℤ of_asset i amount ≡ of_asset i v.balance
  unfolding withdraw
  balance-withdraw i t v w amount h =
      let (b, difference, e) = >>=-eq-ok (sub v.balance amount) _ h in
      subst
        (λ (x : VestingBalance). of_asset i x.balance +ℤ of_asset i amount ≡ of_asset i v.balance)
        (ok-injective e) (of_asset-sub i v.balance amount b difference)

  -- Drawing on a vesting balance, when it goes through, leaves the sum of every asset, over the
  -- balances of the accounts and the vesting balances, as it was.
  pub grant_value-withdraw_grant :
      (i : ℕ) (op : WithdrawOperation) (g g' : GrantState)
      → withdraw_grant op g ≡ ok g'
      → grant_value i g' ≡ grant_value i g
  unfolding withdraw_grant apply_withdraw
  grant_value-withdraw_grant i op g g' h =
      let (u, evaluated, h2) =
        >>=-eq-ok (validate_amounts op.fee op.amount >> evaluate_withdraw op g) _ h in
      let (v, got, h3) =
        >>=-eq-ok (found (find_first (is_vesting op.vesting_balance) g.vestings)) _ h2 in
      let (w, withdrawn, h4) =
        >>=-eq-ok (withdraw v.vesting g.chain.head_block_time op.amount) _ h3 in
      let (bs, credited, h5) =
        >>=-eq-ok (adjust_balance op.owner op.amount g.chain.balances) _ h4 in
      let here = found-eq-ok (find_first (is_vesting op.vesting_balance) g.vestings) got in
      let moved =
        sum_of-replace_first (is_vesting op.vesting_balance) (in_grant i) v
          (record v { vesting = w }) g.vestings here in
      subst (λ (x : GrantState). grant_value i x ≡ grant_value i g) (ok-injective h5)
        (drawn _ _ _ _ _ _ _
          (total-adjust_balance i op.owner op.amount g.chain.balances bs credited) moved
          (balance-withdraw i g.chain.head_block_time v.vesting w op.amount withdrawn))
    where
      drawn :
          (t' t a s' s n o : ℤ) → t' ≡ t +ℤ a → s' +ℤ o ≡ s +ℤ n → n +ℤ a ≡ o → t' +ℤ s' ≡ t +ℤ s
      drawn t' t a s' s n o e m w =
          let left : s' +ℤ (n +ℤ a) ≡ s' +ℤ a +ℤ n = omega int_laws in
          let sum : s' +ℤ a ≡ s =
            +ℤ_cancel (s' +ℤ a) s n (sym left ∙ ap (λ (x : ℤ). s' +ℤ x) w ∙ m) in
          let right : t +ℤ a +ℤ s' ≡ t +ℤ (s' +ℤ a) = omega int_laws in
          rw e (right ∙ ap (λ (x : ℤ). t +ℤ x) sum)
