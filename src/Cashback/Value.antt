-- ===== src/Cashback/Value.antt =====
-- The payment of fees loses nothing and makes nothing: what was pending is afterwards in the vesting
-- balances, in the accumulated fees of the core asset, or out of its supply.
use fin_chain_core.Prelude.{
  ℕ, ◌≡◌, refl, sym, subst, ◌∙◌, Bool, true, false, Option, none, some, Bool-cases, inl, inr,
  find_first, sum_of, find_first-has, sum_of-replace_first, ==_iff,
}
use fin_chain_core.Prelude.Int.{ℤ, pos, ◌+ℤ◌, ◌-ℤ◌, eqb_ℤ, eqb_ℤ→eq, int_laws, +ℤ_cancel}
use fin_chain_core.Prelude.Results.{ok, SafeInt, ◌>>=◌, >>=-eq-ok, ok-injective, found, found-eq-ok}
use fin_chain_core.Asset.{Asset, asset, add}
use fin_chain_core.Asset.Laws.{add-eq-ok}
use fin_chain_core.Ledger.Totals.{of_asset}
use fin_chain_core.Vesting.{VestingBalance, deposit, deposit_vested, on_deposit_vested}
use fin_chain_core.Cashback.{
  FeeState, VestingObject, is_vesting, suits, new_vesting, create_vesting, pay_into,
  deposit_or_create, deposit_lazy_vesting,
}

-- What is vesting of the core asset, and all that has been paid: with the accumulated fees, and
-- less the supply, as what goes to the reserve leaves the supply.
abbrev pub in_vesting : VestingObject → ℤ
in_vesting v = of_asset 0 v.vesting.balance

abbrev pub paid_out : FeeState → ℤ
paid_out st = sum_of in_vesting st.vestings +ℤ st.accumulated_fees -ℤ st.current_supply

module _ ⦃safe : SafeInt⦄ where
  core_grows : (a c : Asset) (n : ℤ) → add a (asset n 0) ≡ ok c → of_asset 0 c ≡ of_asset 0 a +ℤ n
  core_grows a c n h =
      let (same, same', sum) = add-eq-ok a (asset n 0) c h in
      let a_is : asset a.amount 0 ≡ a = λ t. record { amount = a.amount; asset_id = sym same t } in
      let c_is : asset (a.amount +ℤ n) 0 ≡ c =
        λ t. record { amount = sym sum t; asset_id = sym (same' ∙ same) t } in
      subst (λ (x : Asset). of_asset 0 x ≡ of_asset 0 a +ℤ n) c_is
        (subst (λ (x : Asset). of_asset 0 (asset (a.amount +ℤ n) 0) ≡ of_asset 0 x +ℤ n) a_is refl)

  in_vesting-pay_into :
      (require_vesting : Bool) (now : ℕ) (amount : ℤ) (v w : VestingBalance)
      → pay_into require_vesting now amount v ≡ ok w
      → of_asset 0 w.balance ≡ of_asset 0 v.balance +ℤ amount
  unfolding deposit deposit_vested
  in_vesting-pay_into true now amount v w h =
      let (b, sum, e) = >>=-eq-ok (add v.balance (asset amount 0)) _ h in
      subst (λ (x : VestingBalance). of_asset 0 x.balance ≡ of_asset 0 v.balance +ℤ amount)
        (ok-injective e) (core_grows v.balance b amount sum)
  in_vesting-pay_into false now amount v w h =
      let (p, policy, h1) =
        >>=-eq-ok
          (on_deposit_vested v.policy
            (record { balance = v.balance; now = now; amount = asset amount 0 }))
          _ h in
      let (b, sum, e) = >>=-eq-ok (add v.balance (asset amount 0)) _ h1 in
      subst (λ (x : VestingBalance). of_asset 0 x.balance ≡ of_asset 0 v.balance +ℤ amount)
        (ok-injective e) (core_grows v.balance b amount sum)

  -- What is paid out grows by n, and the accounts are as they were.
  grown_by : (t u o n f s : ℤ) → t +ℤ o ≡ u +ℤ (o +ℤ n) → t +ℤ f -ℤ s ≡ u +ℤ f -ℤ s +ℤ n
  grown_by t u o n f s h =
      let e : u +ℤ (o +ℤ n) ≡ u +ℤ n +ℤ o = omega int_laws in
      rw (+ℤ_cancel t (u +ℤ n) o (h ∙ e)) (omega int_laws)

  paid_out-create_vesting :
      (v : VestingBalance) (st : FeeState)
      → paid_out (create_vesting v st).0 ≡ paid_out st +ℤ of_asset 0 v.balance
  unfolding sum_of
  paid_out-create_vesting v st = omega int_laws

  paid_out-deposit_or_create :
      (v : VestingObject) (amount : ℤ) (seconds owner : ℕ) (require_vesting : Bool) (st : FeeState)
      (r : FeeState × Option ℕ)
      → find_first (is_vesting v.vesting_id) st.vestings ≡ some v
      → deposit_or_create v amount seconds owner require_vesting st ≡ ok r
      → paid_out r.0 ≡ paid_out st +ℤ amount
  paid_out-deposit_or_create v amount seconds owner require_vesting st r here h =
      elim (Bool-cases (suits seconds owner v.vesting)) [
        | inl suited ↦
            let (w, paid, e) =
              >>=-eq-ok (pay_into require_vesting st.head_block_time amount v.vesting) _
                (rw suited at h) in
            let new : VestingObject = record v { vesting = w } in
            let moved =
              sum_of-replace_first (is_vesting v.vesting_id) in_vesting v new st.vestings here in
            let more =
              in_vesting-pay_into require_vesting st.head_block_time amount v.vesting w paid in
            subst (λ x. paid_out x.0 ≡ paid_out st +ℤ amount) (ok-injective e)
              (grown_by _ _ (in_vesting v) amount _ _ (rw more at moved))
        | inr unsuited ↦
            subst (λ x. paid_out x.0 ≡ paid_out st +ℤ amount) (ok-injective (rw unsuited at h))
              (paid_out-create_vesting
                (new_vesting amount seconds owner require_vesting st.head_block_time) st)
      ]

  pub paid_out-deposit_lazy_vesting :
      (vb : Option ℕ) (amount : ℤ) (seconds owner : ℕ) (require_vesting : Bool) (st : FeeState)
      (r : FeeState × Option ℕ)
      → deposit_lazy_vesting vb amount seconds owner require_vesting st ≡ ok r
      → paid_out r.0 ≡ paid_out st +ℤ amount
  unfolding deposit_lazy_vesting
  paid_out-deposit_lazy_vesting vb amount seconds owner require_vesting st r h =
      elim (Bool-cases (eqb_ℤ amount (pos 0))) [
        | inl nothing ↦
            subst (λ x. paid_out x.0 ≡ paid_out st +ℤ amount) (ok-injective (rw nothing at h))
              (rw (eqb_ℤ→eq amount (pos 0) nothing) (omega int_laws))
        | inr some_amount ↦ lazily vb (rw some_amount at h)
      ]
    where
      lazily :
          (o : Option ℕ)
          → (elim o [
            | none ↦ ok (
                create_vesting
                  (new_vesting amount seconds owner require_vesting st.head_block_time)
                  st)
            | some i ↦ found (find_first (is_vesting i) st.vestings) >>= λ v.
                deposit_or_create v amount seconds owner require_vesting st
          ])
            ≡ ok r
          → paid_out r.0 ≡ paid_out st +ℤ amount
      lazily none e =
          subst (λ x. paid_out x.0 ≡ paid_out st +ℤ amount) (ok-injective e)
            (paid_out-create_vesting
              (new_vesting amount seconds owner require_vesting st.head_block_time) st)
      lazily (some i) e =
          let (v, got, e1) = >>=-eq-ok (found (find_first (is_vesting i) st.vestings)) _ e in
          let here = found-eq-ok (find_first (is_vesting i) st.vestings) got in
          let same = (==_iff v.vesting_id i).0 (find_first-has (is_vesting i) st.vestings here) in
          paid_out-deposit_or_create v amount seconds owner require_vesting st r
            (subst (λ k. find_first (is_vesting k) st.vestings ≡ some v) (sym same) here) e1
