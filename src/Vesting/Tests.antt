-- ===== src/Vesting/Tests.antt =====
-- Vesting at concrete balances: 1000 units over 100 seconds, and a linear grant of 1000 units.
use fin_chain_core.Prelude.{◌≤◌, ◌≡◌, ◌≢◌, ◌+◌, ◌*◌, ◌^◌, refl, arith}
use fin_chain_core.Prelude.Int.{pos}
use fin_chain_core.Prelude.Results.{ok, SafeInt, int64_safe}
use fin_chain_core.Asset.{asset}
use fin_chain_core.Vesting.{
  CddVestingPolicy, LinearVestingPolicy, compute_coin_seconds_earned, cdd_on_deposit_vested,
  is_withdraw_allowed, withdraw,
}
use fin_chain_core.Vesting.Cdd.{at, IsEarning, on_deposit_vested_overflow}
use fin_chain_core.Vesting.Balance.{held, withdraw_lem}

instance abbrev safe : SafeInt
safe = int64_safe

-- Half of the balance has been earned by time 550.
abbrev policy : CddVestingPolicy
policy = record {
  vesting_seconds = 100;
  coin_seconds_earned = 0;
  start_claim = 0;
  coin_seconds_earned_last_update = 500;
}

policy-IsEarning : IsEarning policy 1000 550
policy-IsEarning = omega arith

withdraw_lem_example :
    (q : CddVestingPolicy) × (withdraw (held 7 1000 3 policy) 550 (asset (pos 300) 3)
      ≡ ok (held 7 700 3 q))
    × (q.coin_seconds_earned ≡ 20_000)
    × (q.vesting_seconds ≡ 100)
    × (q.start_claim ≡ 0)
    × (q.coin_seconds_earned_last_update ≡ 550)
    × (30_000 ≤ 50_000)
    × (300 ≤ 1000)
    × IsEarning q 700 550
unfolding is_withdraw_allowed compute_coin_seconds_earned
withdraw_lem_example = withdraw_lem policy 7 1000 3 550 policy-IsEarning 300 (omega arith) refl

-- With 100 seconds an amount of 10 ^ 17 is enough.
on_deposit_vested_overflow_example :
    (cdd_on_deposit_vested policy (at 1000 (10 ^ 17) 3 550)).coin_seconds_earned
    ≢ compute_coin_seconds_earned policy (at 1000 (10 ^ 17) 3 550) + 10 ^ 17 * 100
on_deposit_vested_overflow_example =
    on_deposit_vested_overflow policy 1000 550 policy-IsEarning (10 ^ 17) 3 (omega arith)
      (omega arith)

abbrev grant : LinearVestingPolicy
grant = record {
  begin_timestamp = 100;
  vesting_cliff_seconds = 10;
  vesting_duration_seconds = 200;
  begin_balance = pos 1000;
}

-- 500 have vested at 200; 300 are taken, and at 250 there are 450 more.
