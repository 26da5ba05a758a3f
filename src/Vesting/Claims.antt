-- ===== src/Vesting/Claims.antt =====
-- Repeated withdrawals from a balance under the coin seconds policy.
use native.Mathlib.Nat.{add-mul-div_right, le_trans, mul-div_cancel, mul-le-mul_left}
use fin_chain_core.Prelude.{ℕ, ◌+◌, ◌-◌, ◌*◌, ◌/◌, ◌≤◌, ◌<◌, ◌≡◌, sym, ap, ◌∙◌, arith, min}
use fin_chain_core.Prelude.Int.{pos}
use fin_chain_core.Asset.{asset}
use fin_chain_core.Vesting.{
  CddVestingPolicy, seconds_of, compute_coin_seconds_earned, cdd_get_allowed_withdraw,
  cdd_on_withdraw,
}
use fin_chain_core.Vesting.Cdd.{
  at, IsEarning, compute_eq, compute_le, quotient_le, needed_le, allowed_eq, on_withdraw_eq,
  on_withdraw-IsEarning, on_withdraw-fields, left_le,
}

sub-div : (x a s : ℕ) → 0 < s → a * s ≤ x → (x - a * s) / s ≡ x / s - a
sub-div x a s hs h =
    let whole : x - a * s + a * s ≡ x = omega arith in
    let parts = add-mul-div_right (x - a * s) a hs in
    let e = sym (ap (λ (y : ℕ). y / s) whole) ∙ parts in omega (arith, e)

min_stay : (x b s t : ℕ) → x ≤ b * s → min (x + b * (t - t)) (b * s) ≡ x
min_stay x b s t h = let none_passed : t - t ≡ 0 = omega arith in rw none_passed (omega arith)

min_full : (c b d s : ℕ) → 0 < s → s ≤ d → min (c + b * d) (b * s) / s ≡ b
min_full c b d s hs h =
    let full : min (c + b * d) (b * s) ≡ b * s = omega (arith, mul-le-mul_left b h) in
    rw full (mul-div_cancel b hs)

module _ (p : CddVestingPolicy) (b t : ℕ) (e : IsEarning p b t) where
  -- At the moment of a withdrawal what is left earned is all that counts.
  earned_after :
      (a a' i : ℕ)
      → a ≤ compute_coin_seconds_earned p (at b a i t) / seconds_of p
      → compute_coin_seconds_earned (cdd_on_withdraw p (at b a i t)) (at (b - a) a' i t)
        ≡ compute_coin_seconds_earned p (at b a i t) - a * seconds_of p
  earned_after a a' i h =
      let q = cdd_on_withdraw p (at b a i t) in
      let (same, last, _) = on_withdraw-fields p b t a i in
      let left = on_withdraw_eq p b t e a i h in
      let cap =
        left_le _ a b (seconds_of p) (compute_le p b t e a i)
          (le_trans h (quotient_le p b t e a i)) in
      rw (compute_eq q (b - a) t (on_withdraw-IsEarning p b t e a i h) a' i, left, last, same)
        (min_stay _ (b - a) (seconds_of p) t cap)

  -- With a sound policy of coin days whose claims have started, what a withdrawal of at most the
  -- allowed amount leaves to withdraw at that moment is what was allowed, less the amount
  -- withdrawn: several small withdrawals give no more than one.
  pub allowed-on_withdraw :
      (a a' i : ℕ)
      → p.start_claim < t
      → a ≤ compute_coin_seconds_earned p (at b a i t) / seconds_of p
      → cdd_get_allowed_withdraw (cdd_on_withdraw p (at b a i t)) (at (b - a) a' i t)
        ≡ asset (pos (compute_coin_seconds_earned p (at b a i t) / seconds_of p - a)) i
  allowed-on_withdraw a a' i claim h =
      let q = cdd_on_withdraw p (at b a i t) in
      let (same, _, first) = on_withdraw-fields p b t a i in
      let claim' = rw (← first) at claim in
      let share = sub-div _ a (seconds_of p) (omega arith) (needed_le p b t e a i h) in
      rw (
        allowed_eq q (b - a) t (on_withdraw-IsEarning p b t e a i h) a' i claim',
        earned_after a a' i h,
        same,
        share,
      )

  -- With a sound policy of coin days whose claims have started, once its seconds have passed
  -- since the last update, the whole balance may be withdrawn.
  pub allowed_matured :
      (a i : ℕ)
      → p.start_claim < t
      → p.coin_seconds_earned_last_update + seconds_of p ≤ t
      → cdd_get_allowed_withdraw p (at b a i t) ≡ asset (pos b) i
  allowed_matured a i claim h =
      let full =
        min_full p.coin_seconds_earned b (t - p.coin_seconds_earned_last_update) (seconds_of p)
          (omega arith) (omega arith) in
      rw (allowed_eq p b t e a i claim, compute_eq p b t e a i, full)
