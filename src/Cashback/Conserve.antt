-- ===== src/Cashback/Conserve.antt =====
-- All that is pending is paid out.
use fin_chain_core.Prelude.{
  ℕ, ◌≡◌, refl, subst, ◌∙◌, Bool, true, false, Option, none, some, ◌||◌, Bool-cases, inl, inr,
  find_first, replace_first,
}
use fin_chain_core.Prelude.Int.{ℤ, pos, ◌+ℤ◌, ◌-ℤ◌, ltb_ℤ, eqb_ℤ, eqb_ℤ→eq, int_laws}
use fin_chain_core.Prelude.Results.{ok, SafeInt, >>=-eq-ok, ok-injective, found}
use fin_chain_core.Cashback.{
  FeeAccount, FeeStatistics, FeeState, Witness, is_account, cut_fee, deposit_lazy_vesting,
  set_cashback, set_pay, deposit_cashback, deposit_witness_pay, is_chain_account,
}
use fin_chain_core.Cashback.Process.{
  Cuts, split_fee, deposit_to, pay_out_fees, process_fees, current_referrer,
}
use fin_chain_core.Cashback.Value.{paid_out, paid_out-deposit_lazy_vesting}

paid_out-set_cashback :
    (a : FeeAccount) (r : FeeState × Option ℕ) → paid_out (set_cashback a r) ≡ paid_out r.0
paid_out-set_cashback a (st, none) = refl
paid_out-set_cashback a (st, some i) = refl

paid_out-set_pay :
    (wit : Witness) (r : FeeState × Option ℕ) → paid_out (set_pay wit r).0 ≡ paid_out r.0
paid_out-set_pay wit (st, none) = refl
paid_out-set_pay wit (st, some i) = refl

module _ ⦃safe : SafeInt⦄ where
  nothing_paid :
      (amount : ℤ) (st : FeeState)
      → eqb_ℤ amount (pos 0) ≡ true
      → paid_out st ≡ paid_out st +ℤ amount
  nothing_paid amount st nothing = rw (eqb_ℤ→eq amount (pos 0) nothing) (omega int_laws)

  paid_out-deposit_cashback :
      (a : FeeAccount) (amount : ℤ) (require_vesting : Bool) (st st' : FeeState)
      → deposit_cashback a amount require_vesting st ≡ ok st'
      → paid_out st' ≡ paid_out st +ℤ amount
  unfolding deposit_cashback
  paid_out-deposit_cashback a amount require_vesting st st' h =
      elim (Bool-cases (eqb_ℤ amount (pos 0))) [
        | inl nothing ↦
            subst (λ (x : FeeState). paid_out x ≡ paid_out st +ℤ amount)
              (ok-injective (rw nothing at h)) (nothing_paid amount st nothing)
        | inr some_amount ↦ elim (Bool-cases (is_chain_account a.account_id)) [
          | inl of_chain ↦
              let (n, fits, e) =
                >>=-eq-ok (safe.check (st.current_supply -ℤ amount)) _
                  (rw (some_amount, of_chain) at h) in
              subst (λ (x : FeeState). paid_out x ≡ paid_out st +ℤ amount) (ok-injective e)
                (rw (safe.check_exact _ n fits) (omega int_laws))
          | inr of_user ↦
              let (r, paid, e) =
                >>=-eq-ok
                  (deposit_lazy_vesting a.cashback_vb amount st.cashback_vesting_period_seconds
                    a.account_id require_vesting st)
                  _ (rw (some_amount, of_user) at h) in
              subst (λ (x : FeeState). paid_out x ≡ paid_out st +ℤ amount) (ok-injective e)
                (paid_out-set_cashback a r
                  ∙ paid_out-deposit_lazy_vesting a.cashback_vb amount
                      st.cashback_vesting_period_seconds a.account_id require_vesting st r paid)
        ]
      ]

  -- The pay of a witness is paid in full into vesting balances.
  pub paid_out-deposit_witness_pay :
      (wit wit' : Witness) (amount : ℤ) (st st' : FeeState)
      → deposit_witness_pay wit amount st ≡ ok (st', wit')
      → paid_out st' ≡ paid_out st +ℤ amount
  unfolding deposit_witness_pay
  paid_out-deposit_witness_pay wit wit' amount st st' h = elim (Bool-cases (eqb_ℤ amount (pos 0))) [
    | inl nothing ↦
        subst (λ x. paid_out x.0 ≡ paid_out st +ℤ amount) (ok-injective (rw nothing at h))
          (nothing_paid amount st nothing)
    | inr some_amount ↦
        let (r, paid, e) =
          >>=-eq-ok
            (deposit_lazy_vesting wit.pay_vb amount st.witness_pay_vesting_seconds
              wit.witness_account true st)
            _ (rw some_amount at h) in
        subst (λ x. paid_out x.0 ≡ paid_out st +ℤ amount) (ok-injective e)
          (paid_out-set_pay wit r
            ∙ paid_out-deposit_lazy_vesting wit.pay_vb amount st.witness_pay_vesting_seconds
                wit.witness_account true st r paid)
  ]

  paid_out-deposit_to :
      (id : ℕ) (amount : ℤ) (require_vesting : Bool) (st st' : FeeState)
      → deposit_to id amount require_vesting st ≡ ok st'
      → paid_out st' ≡ paid_out st +ℤ amount
  unfolding deposit_to
  paid_out-deposit_to id amount require_vesting st st' h =
      let (a, got, h1) = >>=-eq-ok (found (find_first (is_account id) st.accounts)) _ h in
      paid_out-deposit_cashback a amount require_vesting st st' h1

  -- The parts of a fee make the whole.
  pub split_fee-eq-ok :
      (a : FeeAccount) (total : ℤ) (c : Cuts)
      → split_fee a total ≡ ok c
      → c.network_cut +ℤ c.lifetime_cut +ℤ c.referrer_cut +ℤ c.registrar_cut ≡ total
  unfolding split_fee
  split_fee-eq-ok a total c h =
      let network = cut_fee total a.network_fee_percentage in
      let lifetime = cut_fee total a.lifetime_referrer_fee_percentage in
      let (rest, fits, h1) = >>=-eq-ok (safe.check (total -ℤ network)) _ h in
      let (referral, fits1, h2) = >>=-eq-ok (safe.check (rest -ℤ lifetime)) _ h1 in
      let referrer = cut_fee referral a.referrer_rewards_percentage in
      let (registrar, fits2, h3) = >>=-eq-ok (safe.check (referral -ℤ referrer)) _ h2 in
      subst
        (λ (x : Cuts). x.network_cut +ℤ x.lifetime_cut +ℤ x.referrer_cut +ℤ x.registrar_cut ≡ total)
        (ok-injective h3)
        (whole network lifetime referrer registrar referral rest total
          (safe.check_exact _ rest fits) (safe.check_exact _ referral fits1)
          (safe.check_exact _ registrar fits2))
    where
      whole : (n l r g f s t : ℤ) → s ≡ t -ℤ n → f ≡ s -ℤ l → g ≡ f -ℤ r → n +ℤ l +ℤ r +ℤ g ≡ t
      whole n l r g f s t e e' e'' = rw (e'', e', e) (omega int_laws)

  paid_out-pay_out_fees :
      (id : ℕ) (total : ℤ) (require_vesting : Bool) (st st' : FeeState)
      → pay_out_fees id total require_vesting st ≡ ok st'
      → paid_out st' ≡ paid_out st +ℤ total
  unfolding pay_out_fees
  paid_out-pay_out_fees id total require_vesting st st' h =
      let (a, got, h1) = >>=-eq-ok (found (find_first (is_account id) st.accounts)) _ h in
      let (r, got', h2) = >>=-eq-ok (found (find_first (is_account a.referrer) st.accounts)) _ h1 in
      let b = current_referrer a r st.head_block_time in
      let (c, split, h3) = >>=-eq-ok (split_fee b total) _ h2 in
      let (n, fits, h4) = >>=-eq-ok (safe.check (st.accumulated_fees +ℤ c.network_cut)) _ h3 in
      let st1 : FeeState = record st {
        accounts = replace_first (is_account id) b st.accounts;
        accumulated_fees = n;
      } in
      let (st2, paid, h5) =
        >>=-eq-ok (deposit_to b.lifetime_referrer c.lifetime_cut require_vesting st1) _ h4 in
      let (st3, paid', h6) =
        >>=-eq-ok (deposit_to b.referrer c.referrer_cut require_vesting st2) _ h5 in
      let first : paid_out st1 ≡ paid_out st +ℤ c.network_cut =
        rw (safe.check_exact _ n fits) (omega int_laws) in
      all_paid _ _ _ _ _ _ _ _ _ _ first
        (paid_out-deposit_to b.lifetime_referrer c.lifetime_cut require_vesting st1 st2 paid)
        (paid_out-deposit_to b.referrer c.referrer_cut require_vesting st2 st3 paid')
        (paid_out-deposit_to b.registrar c.registrar_cut require_vesting st3 st' h6)
        (split_fee-eq-ok b total c split)
    where
      all_paid :
          (p p1 p2 p3 p4 n l r g t : ℤ)
          → p1 ≡ p +ℤ n
          → p2 ≡ p1 +ℤ l
          → p3 ≡ p2 +ℤ r
          → p4 ≡ p3 +ℤ g
          → n +ℤ l +ℤ r +ℤ g ≡ t
          → p4 ≡ p +ℤ t
      all_paid p p1 p2 p3 p4 n l r g t e1 e2 e3 e4 e = rw (e4, e3, e2, e1, ← e) (omega int_laws)

  -- What is pending.
  abbrev pub pending : FeeStatistics → ℤ
  pending s = s.pending_fees +ℤ s.pending_vested_fees

  -- When the fees of an account have been processed, what is in the vesting balances and the
  -- accumulated fees of the core asset, less its supply, has grown by what was pending for the
  -- account, less what is still pending.
  pub paid_out-process_fees :
      (id : ℕ) (s s' : FeeStatistics) (st st' : FeeState)
      → process_fees id s st ≡ ok (st', s')
      → paid_out st' +ℤ pending s' ≡ paid_out st +ℤ pending s
  unfolding process_fees
  paid_out-process_fees id s s' st st' h =
      elim (Bool-cases (ltb_ℤ (pos 0) s.pending_fees || ltb_ℤ (pos 0) s.pending_vested_fees)) [
        | inl some_fees ↦
            let (st1, paid, h1) =
              >>=-eq-ok (pay_out_fees id s.pending_fees true st) _ (rw some_fees at h) in
            let (st2, paid', h2) =
              >>=-eq-ok (pay_out_fees id s.pending_vested_fees false st1) _ h1 in
            let (both, fits, h3) =
              >>=-eq-ok (safe.check (s.pending_fees +ℤ s.pending_vested_fees)) _ h2 in
            let (lifetime, fits', h4) =
              >>=-eq-ok (safe.check (s.lifetime_fees_paid +ℤ both)) _ h3 in
            subst (λ x. paid_out x.0 +ℤ pending x.1 ≡ paid_out st +ℤ pending s) (ok-injective h4)
              (both_paid _ _ _ _ _ (paid_out-pay_out_fees id s.pending_fees true st st1 paid)
                (paid_out-pay_out_fees id s.pending_vested_fees false st1 st2 paid'))
        | inr no_fees ↦
            subst (λ x. paid_out x.0 +ℤ pending x.1 ≡ paid_out st +ℤ pending s)
              (ok-injective (rw no_fees at h)) refl
      ]
    where
      both_paid :
          (p p1 p2 f v : ℤ) → p1 ≡ p +ℤ f → p2 ≡ p1 +ℤ v → p2 +ℤ (pos 0 +ℤ pos 0) ≡ p +ℤ (f +ℤ v)
      both_paid p p1 p2 f v e1 e2 = rw (e2, e1) (omega int_laws)
