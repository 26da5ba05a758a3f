-- ===== src/Vesting/Balance.antt =====
-- The operations of `vesting_balance_object` as a whole.
use native.Mathlib.Decide.{dec_lt}
use native.Mathlib.Nat.{le_trans}
use fin_chain_core.Prelude.{
  ℕ, ◌+◌, ◌-◌, ◌*◌, ◌/◌, ◌^◌, min, ◌≤◌, ◌<◌, ◌≡◌, ◌≢◌, true, arith, ap, subst, ◌∙◌,
}
use fin_chain_core.Prelude.Int.{pos, ◌+ℤ◌, ◌-ℤ◌, int_laws}
use fin_chain_core.Prelude.Results.{ok, err, assert_exception, SafeInt}
use fin_chain_core.Asset.{Asset, asset}
use fin_chain_core.Vesting.{
  CddVestingPolicy, VestingBalance, cdd, seconds_of, compute_coin_seconds_earned, cdd_on_withdraw,
  update_coin_seconds_earned, is_withdraw_allowed, deposit, withdraw,
}
use fin_chain_core.Vesting.Cdd.{
  at, IsEarning, allowed_eq, before_claim, compute_eq, needed_le, on_withdraw_eq,
  on_withdraw-fields, quotient_le, on_withdraw-IsEarning, on_deposit-IsEarning,
}

-- A balance of b of asset i under a coin seconds policy.
abbrev pub held : ℕ → ℕ → ℕ → CddVestingPolicy → VestingBalance
held owner b i p = record { owner = owner; balance = asset (pos b) i; policy = cdd p }

module _ ⦃s : SafeInt⦄ (p : CddVestingPolicy) (owner b i t : ℕ) (e : IsEarning p b t) where
  -- A positive amount is allowed only past the first claim, and up to what is earned.
  allowed→le :
      (a : ℕ)
      → 0 < a
      → is_withdraw_allowed (held owner b i p) t (asset (pos a) i) ≡ ok true
      → a ≤ compute_coin_seconds_earned p (at b a i t) / seconds_of p
  unfolding is_withdraw_allowed
  allowed→le a pa h = elim (dec_lt p.start_claim t) [
    | yes after ↦ ground (arith, allowed_eq p b t e a i after)
    | no before ↦ ground (arith, before_claim p b t e a i before)
  ]

  -- The coin seconds that are earned by time t: the balance earns as many as there are seconds since
  -- the last update, up to the whole vesting period.
  abbrev pub earned_by : ℕ
  earned_by =
      min (p.coin_seconds_earned + b * (t - p.coin_seconds_earned_last_update)) (b * seconds_of p)

  -- For a balance with a sound policy of coin days, a withdrawal of a positive amount that is
  -- allowed goes through: the balance falls by the amount and does not go below zero, the coin
  -- seconds are those earned by now less the amount times the seconds of the policy, which have been
  -- earned, the policy is updated now and is otherwise the same, and it stays sound.
  pub withdraw_lem :
      (a : ℕ)
      → 0 < a
      → is_withdraw_allowed (held owner b i p) t (asset (pos a) i) ≡ ok true
      → (q : CddVestingPolicy) × (withdraw (held owner b i p) t (asset (pos a) i)
          ≡ ok (held owner (b - a) i q))
        × (q.coin_seconds_earned ≡ earned_by - a * seconds_of p)
        × (q.vesting_seconds ≡ p.vesting_seconds)
        × (q.start_claim ≡ p.start_claim)
        × (q.coin_seconds_earned_last_update ≡ t)
        × (a * seconds_of p ≤ earned_by)
        × (a ≤ b)
        × IsEarning q (b - a) t
  unfolding withdraw
  withdraw_lem a pa h =
      let small = allowed→le a pa h in
      let a_le = le_trans small (quotient_le p b t e a i) in
      let rest : pos b -ℤ pos a ≡ pos (b - a) = omega int_laws in
      let earned = compute_eq p b t e a i in
      let (seconds, last, claim) = on_withdraw-fields p b t a i in
      (
        cdd_on_withdraw p (at b a i t),
        rw (rest, s.check_fits (pos (b - a)) (omega (arith, e.balance_lt))) (ground arith),
        on_withdraw_eq p b t e a i small ∙ ap (λ n. n - a * seconds_of p) earned,
        seconds,
        claim,
        last,
        subst (λ n. a * seconds_of p ≤ n) earned (needed_le p b t e a i small),
        a_le,
        on_withdraw-IsEarning p b t e a i small,
      )

  -- For a balance with a sound policy of coin days, a deposit goes through as long as the new
  -- balance fits 63 bits, and the policy stays sound.
  pub deposit_lem :
      (a : ℕ)
      → b + a < 2 ^ 63
      → (deposit (held owner b i p) t (asset (pos a) i)
          ≡ ok (held owner (b + a) i (update_coin_seconds_earned p (at b a i t))))
        × IsEarning (update_coin_seconds_earned p (at b a i t)) (b + a) t
  unfolding deposit
  deposit_lem a h =
      let total : pos b +ℤ pos a ≡ pos (b + a) = omega int_laws in
      (
        rw (total, s.check_fits (pos (b + a)) (omega arith)) (ground arith),
        on_deposit-IsEarning p b t e a i h,
      )

-- No deposit of another asset goes through.
pub deposit_refused :
    ⦃s : SafeInt⦄ (v : VestingBalance) (t : ℕ) (a : Asset)
    → v.balance.asset_id ≢ a.asset_id
    → deposit v t a ≡ err assert_exception
unfolding deposit
deposit_refused v t a ne = ground arith
