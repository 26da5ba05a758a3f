-- ===== src/Cashback/Tests.antt =====
-- A fee of an account whose referrer is no longer a member.
use fin_chain_core.Prelude.{
  ℕ, ◌≡◌, refl, none, some, [], ◌∷◌, arith, find_first, replace_first, sum_of,
}
use fin_chain_core.Prelude.Int.{pos, neg, ◌+ℤ◌, ◌-ℤ◌}
use fin_chain_core.Prelude.Results.{Result, ok, err, SafeInt, int64_safe}
use fin_chain_core.Asset.{asset, add}
use fin_chain_core.Vesting.{
  VestingBalance, cdd, deposit, deposit_vested, on_deposit, on_deposit_vested,
  update_coin_seconds_earned, compute_coin_seconds_earned,
}
use fin_chain_core.Cashback.{
  FeeAccount, FeeStatistics, FeeState, cut_fee, deposit_lazy_vesting, deposit_cashback,
}
use fin_chain_core.Cashback.Process.{split_fee, deposit_to, pay_out_fees, process_fees}
use fin_chain_core.Cashback.Value.{paid_out}
use fin_chain_core.Cashback.Conserve.{pending, paid_out-process_fees}
use fin_chain_core.Cashback.Split.{split_fee_lem}

instance abbrev safe : SafeInt
safe = int64_safe

abbrev member : ℕ → ℕ → FeeAccount
member id expiration = record {
  account_id = id;
  membership_expiration_date = expiration;
  registrar = 7;
  referrer = 8;
  lifetime_referrer = 9;
  network_fee_percentage = 2000;
  lifetime_referrer_fee_percentage = 3000;
  referrer_rewards_percentage = 5000;
  cashback_vb = none;
}

abbrev cashback : VestingBalance
cashback = record {
  owner = 7;
  balance = asset (pos 10) 0;
  policy = cdd (record {
    vesting_seconds = 100;
    start_claim = 0;
    coin_seconds_earned = 0;
    coin_seconds_earned_last_update = 400;
  });
}

abbrev fee_state : FeeState
fee_state = record {
  accounts =
      member 6 0
      ∷ record (member 7 2000) { cashback_vb = some 1 }
      ∷ member 8 400
      ∷ member 9 2000
      ∷ [];
  vestings = record { vesting_id = 1; vesting = cashback } ∷ [];
  next_vesting_id = 2;
  accumulated_fees = pos 5;
  current_supply = pos 10_000;
  head_block_time = 500;
  cashback_vesting_period_seconds = 100;
  witness_pay_vesting_seconds = 200;
}

abbrev statistics : FeeStatistics
statistics = record {
  lifetime_fees_paid = pos 0;
  pending_fees = pos 1001;
  pending_vested_fees = pos 50;
}

abbrev result_or {ℓ} : {A : Type ℓ} → A → Result A → A
result_or a (ok b) = b
result_or a (err e) = a

abbrev after : FeeState × FeeStatistics
after = result_or (fee_state, statistics) (process_fees 6 statistics fee_state)

processed : process_fees 6 statistics fee_state ≡ ok (after.0, after.1)
unfolding process_fees pay_out_fees split_fee deposit_to deposit_cashback deposit_lazy_vesting
    cut_fee deposit deposit_vested on_deposit on_deposit_vested add find_first replace_first
    update_coin_seconds_earned compute_coin_seconds_earned ◌+ℤ◌ ◌-ℤ◌ neg
processed = refl

paid_out_after : paid_out after.0 ≡ pos 1051 +ℤ paid_out fee_state
unfolding process_fees pay_out_fees split_fee deposit_to deposit_cashback deposit_lazy_vesting
    cut_fee deposit deposit_vested on_deposit on_deposit_vested add find_first replace_first
    update_coin_seconds_earned compute_coin_seconds_earned ◌+ℤ◌ ◌-ℤ◌ neg sum_of
paid_out_after = refl

paid_out-process_fees_example :
    paid_out after.0 +ℤ pending after.1 ≡ paid_out fee_state +ℤ pending statistics
paid_out-process_fees_example =
    paid_out-process_fees 6 statistics after.1 fee_state after.0 processed

split_fee_lem_example :
    split_fee (member 6 0) (pos 1001)
    ≡ ok (record {
      network_cut = pos 200;
      lifetime_cut = pos 300;
      referrer_cut = pos 250;
      registrar_cut = pos 251;
    })
split_fee_lem_example = split_fee_lem (member 6 0) 1001 (omega arith, omega arith) (omega arith)
