-- ===== src/Cashback/Process.antt =====
-- The payment of pending fees (account_statistics_object::process_fees in
-- libraries/chain/account_object.cpp).
use fin_chain_core.Prelude.{ℕ, Bool, true, false, ◌||◌, if◌then◌else◌, find_first, replace_first}
use fin_chain_core.Prelude.Int.{ℤ, pos, ◌+ℤ◌, ◌-ℤ◌, ltb_ℤ}
use fin_chain_core.Prelude.Results.{Result, ok, SafeInt, ◌>>=◌, found}
use fin_chain_core.Cashback.{
  FeeAccount, FeeStatistics, FeeState, is_account, is_basic_account, cut_fee, deposit_cashback,
}

-- A referrer that is no longer a member is replaced by the lifetime referrer.
abbrev pub current_referrer : FeeAccount → FeeAccount → ℕ → FeeAccount
current_referrer a r now =
    if is_basic_account r now then record a { referrer = a.lifetime_referrer } else a

-- The parts of a fee.
pub record Cuts : Type 0 where
  pub network_cut : ℤ
  pub lifetime_cut : ℤ
  pub referrer_cut : ℤ
  pub registrar_cut : ℤ

module _ ⦃safe : SafeInt⦄ where
  unfoldable pub split_fee : FeeAccount → ℤ → Result Cuts
  split_fee a core_fee_total = do
    let network_cut = cut_fee core_fee_total a.network_fee_percentage
    let lifetime_cut = cut_fee core_fee_total a.lifetime_referrer_fee_percentage
    rest ← safe.check (core_fee_total -ℤ network_cut)
    referral ← safe.check (rest -ℤ lifetime_cut)
    let referrer_cut = cut_fee referral a.referrer_rewards_percentage
    registrar_cut ← safe.check (referral -ℤ referrer_cut)
    ok (record {
      network_cut = network_cut;
      lifetime_cut = lifetime_cut;
      referrer_cut = referrer_cut;
      registrar_cut = registrar_cut;
    })

  -- `d.deposit_cashback(d.get(id), amount, require_vesting)`
  unfoldable pub deposit_to : ℕ → ℤ → Bool → FeeState → Result FeeState
  deposit_to id amount require_vesting st = do
    a ← found (find_first (is_account id) st.accounts)
    deposit_cashback a amount require_vesting st

  -- `pay_out_fees`
  unfoldable pub pay_out_fees : ℕ → ℤ → Bool → FeeState → Result FeeState
  pay_out_fees id core_fee_total require_vesting st = do
    a ← found (find_first (is_account id) st.accounts)
    r ← found (find_first (is_account a.referrer) st.accounts)
    let b = current_referrer a r st.head_block_time
    cuts ← split_fee b core_fee_total
    n ← safe.check (st.accumulated_fees +ℤ cuts.network_cut)
    let st1 = record st {
      accounts = replace_first (is_account id) b st.accounts;
      accumulated_fees = n;
    }
    st2 ← deposit_to b.lifetime_referrer cuts.lifetime_cut require_vesting st1
    st3 ← deposit_to b.referrer cuts.referrer_cut require_vesting st2
    deposit_to b.registrar cuts.registrar_cut require_vesting st3

  -- account_statistics_object::process_fees
  unfoldable pub process_fees : ℕ → FeeStatistics → FeeState → Result (FeeState × FeeStatistics)
  process_fees id s st =
      if ltb_ℤ (pos 0) s.pending_fees || ltb_ℤ (pos 0) s.pending_vested_fees
      then (do
        st1 ← pay_out_fees id s.pending_fees true st
        st2 ← pay_out_fees id s.pending_vested_fees false st1
        both ← safe.check (s.pending_fees +ℤ s.pending_vested_fees)
        paid ← safe.check (s.lifetime_fees_paid +ℤ both)
        ok (
          st2,
          record { lifetime_fees_paid = paid; pending_fees = pos 0; pending_vested_fees = pos 0 },
        ))
      else ok (st, s)
