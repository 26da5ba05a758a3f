-- ===== src/Vesting/Cdd.antt =====
-- The coin seconds policy: what is earned stays below the cap, and a withdrawal takes exactly its
-- share.
use native.Mathlib.Nat.{
  mul-le-mul, mod-eq_of_lt, le-div_iff_mul-le, div-le_of_le-mul, le_trans, le_refl,
}
use native.Mathlib.Decide.{dec_lt}
use fin_chain_core.Prelude.{ℕ, ◌+◌, ◌-◌, ◌*◌, ◌/◌, ◌^◌, ◌≤◌, ◌<◌, ◌≡◌, ◌≢◌, refl, ap, arith, min}
use fin_chain_core.Prelude.Int.{pos, sub_ℕ}
use fin_chain_core.Prelude.Words.{to_u128, mul128, u128_mod, u64_mod}
use fin_chain_core.Asset.{asset}
use fin_chain_core.Vesting.{
  CddVestingPolicy, VestingPolicyContext, seconds_of, compute_coin_seconds_earned,
  update_coin_seconds_earned, cdd_get_allowed_withdraw, cdd_on_withdraw, cdd_on_deposit_vested,
}

-- A context with a balance of b and an amount of a, of asset i, at time t.
abbrev pub at : ℕ → ℕ → ℕ → ℕ → VestingPolicyContext
at b a i t = record { balance = asset (pos b) i; now = t; amount = asset (pos a) i }

-- A policy beside a balance of b at time t: seconds fit their word, the last update is not in the
-- future, and no more is earned than the cap.
pub record IsEarning (p : CddVestingPolicy) (b t : ℕ) : Type 0 where
  pub balance_lt : b < 2 ^ 63
  pub seconds_lt : p.vesting_seconds < 2 ^ 32
  pub updated_le : p.coin_seconds_earned_last_update ≤ t
  pub now_lt : t < 2 ^ 32
  pub earned_le : p.coin_seconds_earned ≤ b * seconds_of p

mul_lt_96 : (b s : ℕ) → b < 2 ^ 63 → s ≤ 2 ^ 32 → b * s ≤ 2 ^ 95
mul_lt_96 b s hb hs = let hb' : b ≤ 2 ^ 63 = omega arith in mul-le-mul hb' hs

to_u128-sub_ℕ : (t l : ℕ) → l ≤ t → to_u128 (sub_ℕ t l) ≡ t - l
to_u128-sub_ℕ t l h = ground arith

sub_mul : (b a s : ℕ) → a ≤ b → (b - a) * s + a * s ≡ b * s
sub_mul b a s h = let e : b - a + a ≡ b = omega arith in omega (arith, ap (λ (x : ℕ). x * s) e)

pub left_le : (x a b s : ℕ) → x ≤ b * s → a ≤ b → x - a * s ≤ (b - a) * s
left_le x a b s h k = let e = sub_mul b a s k in omega arith

module _ (p : CddVestingPolicy) (b t : ℕ) where
  pub on_withdraw-fields :
      (a i : ℕ)
      → let q = cdd_on_withdraw p (at b a i t) in
        (q.vesting_seconds ≡ p.vesting_seconds)
        × (q.coin_seconds_earned_last_update ≡ t)
        × (q.start_claim ≡ p.start_claim)
  unfolding cdd_on_withdraw
  on_withdraw-fields a i = (refl, refl, refl)

  update-fields :
      (a i : ℕ)
      → let q = update_coin_seconds_earned p (at b a i t) in
        (q.coin_seconds_earned ≡ compute_coin_seconds_earned p (at b a i t))
        × (q.vesting_seconds ≡ p.vesting_seconds)
        × (q.coin_seconds_earned_last_update ≡ t)
  unfolding update_coin_seconds_earned
  update-fields a i = (refl, refl, refl)

module _ (p : CddVestingPolicy) (b t : ℕ) (e : IsEarning p b t) where
  open e use {balance_lt, seconds_lt, updated_le, now_lt, earned_le}

  seconds_le : seconds_of p ≤ 2 ^ 32
  seconds_le = omega arith

  cap_eq : mul128 b (seconds_of p) ≡ b * seconds_of p
  cap_eq = mod-eq_of_lt (omega (arith, mul_lt_96 b (seconds_of p) balance_lt seconds_le))

  delta_lt : b * (t - p.coin_seconds_earned_last_update) ≤ 2 ^ 95
  delta_lt = mul_lt_96 b (t - p.coin_seconds_earned_last_update) balance_lt (omega arith)

  delta_eq :
      mul128 b (to_u128 (sub_ℕ t p.coin_seconds_earned_last_update))
      ≡ b * (t - p.coin_seconds_earned_last_update)
  delta_eq =
      rw (to_u128-sub_ℕ t p.coin_seconds_earned_last_update updated_le)
        (mod-eq_of_lt (omega (arith, delta_lt)))

  -- What is earned by time t, as plain arithmetic.
  pub compute_eq :
      (a i : ℕ)
      → compute_coin_seconds_earned p (at b a i t)
        ≡ min
            (p.coin_seconds_earned + b * (t - p.coin_seconds_earned_last_update))
            (b * seconds_of p)
  unfolding compute_coin_seconds_earned
  compute_eq a i = rw (
    delta_eq,
    cap_eq,
    mod-eq_of_lt {n = p.coin_seconds_earned + b * (t - p.coin_seconds_earned_last_update)}
        {m = u128_mod} (omega (arith, delta_lt, mul_lt_96 b (seconds_of p) balance_lt seconds_le)),
  )

  pub compute_le : (a i : ℕ) → compute_coin_seconds_earned p (at b a i t) ≤ b * seconds_of p
  compute_le a i = rw (compute_eq a i) (omega arith)

  pub quotient_le : (a i : ℕ) → compute_coin_seconds_earned p (at b a i t) / seconds_of p ≤ b
  quotient_le a i = div-le_of_le-mul (seconds_of p) (omega (arith, compute_le a i))

  -- After the first claim date what may be withdrawn is what is earned, in whole units.
  pub allowed_eq :
      (a i : ℕ)
      → p.start_claim < t
      → cdd_get_allowed_withdraw p (at b a i t)
        ≡ asset (pos (compute_coin_seconds_earned p (at b a i t) / seconds_of p)) i
  unfolding cdd_get_allowed_withdraw
  allowed_eq a i h =
      rw
        (mod-eq_of_lt {n = compute_coin_seconds_earned p (at b a i t) / seconds_of p} {m = u64_mod}
          (omega (arith, quotient_le a i)))
        (ground arith)

  pub before_claim :
      (a i : ℕ) → ¬ (p.start_claim < t) → cdd_get_allowed_withdraw p (at b a i t) ≡ asset (pos 0) i
  unfolding cdd_get_allowed_withdraw
  before_claim a i h = ground arith

  -- A policy never lets out more than the balance, at any time.
  pub allowed_le :
      (a i : ℕ) → (n : ℕ) × (cdd_get_allowed_withdraw p (at b a i t) ≡ asset (pos n) i) × (n ≤ b)
  allowed_le a i = elim (dec_lt p.start_claim t) [
    | yes after ↦ (
      compute_coin_seconds_earned p (at b a i t) / seconds_of p,
      allowed_eq a i after,
      quotient_le a i,
    )
    | no before ↦ (0, before_claim a i before, omega arith)
  ]

  pub needed_le :
      (a i : ℕ)
      → a ≤ compute_coin_seconds_earned p (at b a i t) / seconds_of p
      → a * seconds_of p ≤ compute_coin_seconds_earned p (at b a i t)
  needed_le a i h = (le-div_iff_mul-le (omega arith)).0 h

  -- A withdrawal of an allowed amount takes exactly its coin seconds.
  pub on_withdraw_eq :
      (a i : ℕ)
      → a ≤ compute_coin_seconds_earned p (at b a i t) / seconds_of p
      → (cdd_on_withdraw p (at b a i t)).coin_seconds_earned
        ≡ compute_coin_seconds_earned p (at b a i t) - a * seconds_of p
  unfolding cdd_on_withdraw
  on_withdraw_eq a i h =
      let needed = needed_le a i h in
      let cap = compute_le a i in
      let small = mul_lt_96 b (seconds_of p) balance_lt seconds_le in
      rw (mod-eq_of_lt {n = a * seconds_of p} {m = u128_mod} (omega arith)) (omega arith)

  -- The policy stays sound beside the balance that is left.
  pub on_withdraw-IsEarning :
      (a i : ℕ)
      → a ≤ compute_coin_seconds_earned p (at b a i t) / seconds_of p
      → IsEarning (cdd_on_withdraw p (at b a i t)) (b - a) t
  on_withdraw-IsEarning a i h =
      let earned = on_withdraw_eq a i h in
      let (same, last, _) = on_withdraw-fields p b t a i in
      record {
        balance_lt = omega arith;
        seconds_lt = rw same seconds_lt;
        updated_le = rw last (le_refl t);
        now_lt = now_lt;
        earned_le =
            rw (earned, same)
              (left_le _ a b (seconds_of p) (compute_le a i) (le_trans h (quotient_le a i)));
      }

  -- A deposit keeps what was earned, and the policy stays sound beside the larger balance.
  pub on_deposit-IsEarning :
      (a i : ℕ) → b + a < 2 ^ 63 → IsEarning (update_coin_seconds_earned p (at b a i t)) (b + a) t
  on_deposit-IsEarning a i h =
      let (earned, same, last) = update-fields p b t a i in
      record {
        balance_lt = h;
        seconds_lt = rw same seconds_lt;
        updated_le = rw last (le_refl t);
        now_lt = now_lt;
        earned_le = rw (earned, same) (omega (arith, compute_le a i));
      }

  -- A deposit of vested funds credits its coin seconds at once, as long as the product of the amount
  -- and the seconds fits an `int64_t`.
  pub on_deposit_vested_eq :
      (a i : ℕ)
      → b + a < 2 ^ 63
      → a * seconds_of p < 2 ^ 63
      → (cdd_on_deposit_vested p (at b a i t)).coin_seconds_earned
        ≡ compute_coin_seconds_earned p (at b a i t) + a * seconds_of p
  unfolding cdd_on_deposit_vested update_coin_seconds_earned
  on_deposit_vested_eq a i h fits =
      let cap = compute_le a i in
      let small = mul_lt_96 b (seconds_of p) balance_lt seconds_le in ground arith

  -- With a sound policy of coin days, where the product of a deposit and the seconds of the
  -- policy does not fit 63 bits though the new balance does, a vested deposit is not credited
  -- with the product.
  pub on_deposit_vested_overflow :
      (a i : ℕ)
      → b + a < 2 ^ 63
      → 2 ^ 63 ≤ a * seconds_of p
      → (cdd_on_deposit_vested p (at b a i t)).coin_seconds_earned
        ≢ compute_coin_seconds_earned p (at b a i t) + a * seconds_of p
  unfolding cdd_on_deposit_vested update_coin_seconds_earned
  on_deposit_vested_overflow a i h large =
      let cap = compute_le a i in
      let a_lt : a < 2 ^ 63 = omega arith in
      let prod = mul_lt_96 a (seconds_of p) a_lt seconds_le in
      let small = mul_lt_96 b (seconds_of p) balance_lt seconds_le in ground arith
