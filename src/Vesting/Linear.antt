-- ===== src/Vesting/Linear.antt =====
-- The linear policy with a cliff: what is allowed is what has vested less what was withdrawn.
use native.Mathlib.Nat.{
  mul-le-mul, mod-eq_of_lt, le-div_iff_mul-le, div-le_of_le-mul, div-mul-le_self, le_trans,
  mul-le-mul_left,
}
use fin_chain_core.Prelude.{
  ℕ, ◌+◌, ◌-◌, ◌*◌, ◌/◌, ◌%◌, ◌^◌, ◌≤◌, ◌<◌, ◌≡◌, refl, ◌∙◌, arith, ltb, leb, Bool-cases, inl, inr,
  ◌&&◌, if◌then◌else◌,
}
use fin_chain_core.Prelude.Int.{pos, ◌-ℤ◌, int_laws}
use fin_chain_core.Prelude.Results.{ok, SafeInt}
use fin_chain_core.Asset.{asset}
use fin_chain_core.Vesting.{LinearVestingPolicy, linear_vested, linear_get_allowed_withdraw}
use fin_chain_core.Vesting.Cdd.{at}

-- A policy that began with B, beside a balance of b.
pub record IsPartly (p : LinearVestingPolicy) (begun b : ℕ) : Type 0 where
  pub begin_eq : p.begin_balance ≡ pos begun
  pub begin_lt : begun < 2 ^ 63
  pub balance_le : b ≤ begun

-- What has vested after some seconds, with no overflow.
abbrev pub vested : ℕ → ℕ → ℕ → ℕ
vested begun duration elapsed = if ltb elapsed duration then begun * elapsed / duration else begun

-- Vesting has begun and the cliff is past.
abbrev pub IsOpen : LinearVestingPolicy → ℕ → Type 0
IsOpen p t = (p.begin_timestamp < t) × (p.begin_timestamp + p.vesting_cliff_seconds ≤ t)

share_le : (begun duration e : ℕ) → e ≤ duration → begun * e / duration ≤ begun
share_le begun duration e h = div-le_of_le-mul duration (omega (arith, mul-le-mul_left begun h))

share_mono :
    (begun duration e e' : ℕ) → 0 < duration → e ≤ e' → begun * e / duration ≤ begun * e' / duration
share_mono begun duration e e' pd h =
    (le-div_iff_mul-le pd).1
      (le_trans (div-mul-le_self (begun * e) duration) (mul-le-mul_left begun h))

pub vested_le : (begun duration elapsed : ℕ) → vested begun duration elapsed ≤ begun
vested_le begun duration elapsed = ground (arith, share_le begun duration elapsed)

pub vested_mono :
    (begun duration e e' : ℕ) → e ≤ e' → vested begun duration e ≤ vested begun duration e'
vested_mono begun duration e e' h =
    ground (arith, share_le begun duration e, share_mono begun duration e e')

linear_vested_eq :
    (p : LinearVestingPolicy) (begun e : ℕ)
    → p.begin_balance ≡ pos begun
    → begun < 2 ^ 63
    → e < 2 ^ 32
    → linear_vested p e ≡ pos (vested begun p.vesting_duration_seconds e)
linear_vested_eq p begun e h hb he =
    let d = p.vesting_duration_seconds in
    let begun_le : begun ≤ 2 ^ 63 = omega arith in
    let e_le : e ≤ 2 ^ 32 = omega arith in
    let no_wrap : begun * e % 2 ^ 128 ≡ begun * e =
      mod-eq_of_lt (omega (arith, mul-le-mul begun_le e_le)) in
    rw (h, no_wrap) (ground (arith, share_le begun d e))

module _ ⦃s : SafeInt⦄ (p : LinearVestingPolicy) (begun b t : ℕ) (h : IsPartly p begun b)
    (now_lt : t < 2 ^ 32) where
  open h use {begin_eq, begin_lt, balance_le}

  -- Past the cliff a withdrawal may take what has vested less what was taken before.
  pub linear_allowed_eq :
      (a i : ℕ)
      → IsOpen p t
      → begun - b ≤ vested begun p.vesting_duration_seconds (t - p.begin_timestamp)
      → linear_get_allowed_withdraw p (at b a i t)
        ≡ ok (
            asset
              (pos (vested begun p.vesting_duration_seconds (t - p.begin_timestamp) - (begun - b)))
              i)
  unfolding linear_get_allowed_withdraw
  linear_allowed_eq a i past taken =
      let v = vested begun p.vesting_duration_seconds (t - p.begin_timestamp) in
      let v_le = vested_le begun p.vesting_duration_seconds (t - p.begin_timestamp) in
      let first : pos begun -ℤ pos b ≡ pos (begun - b) = omega int_laws in
      let second : pos v -ℤ pos (begun - b) ≡ pos (v - (begun - b)) = omega int_laws in
      rw
        (
          linear_vested_eq p begun (t - p.begin_timestamp) begin_eq begin_lt (omega arith),
          begin_eq,
          first,
          s.check_fits (pos (begun - b)) (omega arith),
          second,
          s.check_fits (pos (v - (begun - b))) (omega arith),
        )
        (ground arith)

  -- Before the vesting begins or before the cliff nothing may be taken.
  pub linear_allowed_before :
      (a i : ℕ) → ¬ IsOpen p t → linear_get_allowed_withdraw p (at b a i t) ≡ ok (asset (pos 0) i)
  unfolding linear_get_allowed_withdraw
  linear_allowed_before a i early =
      elim (Bool-cases
        (ltb p.begin_timestamp t && leb p.vesting_cliff_seconds (t - p.begin_timestamp))) [
          | inl past ↦ absurd (early (ground (arith, past), ground (arith, past)))
          | inr waiting ↦ rw waiting
        ]

-- Of a linear grant that has been partly withdrawn, past the cliff, a withdrawal of an allowed
-- amount never blocks a later one: at any later time of 32 bits what is allowed is what has vested
-- by then, less all that was taken before, this withdrawal included.
pub linear_allowed-withdraw :
    ⦃s : SafeInt⦄ (p : LinearVestingPolicy) (begun b a a' i t t' : ℕ)
    → IsPartly p begun b
    → IsOpen p t
    → t ≤ t'
    → t' < 2 ^ 32
    → begun - b + a ≤ vested begun p.vesting_duration_seconds (t - p.begin_timestamp)
    → linear_get_allowed_withdraw p (at (b - a) a' i t')
      ≡ ok (
          asset
            (pos
              (vested begun p.vesting_duration_seconds (t' - p.begin_timestamp) - (begun - b) - a))
            i)
linear_allowed-withdraw p begun b a a' i t t' h past later small fits =
    let mono =
      vested_mono begun p.vesting_duration_seconds (t - p.begin_timestamp) (t' - p.begin_timestamp)
        (omega arith) in
    let upper = vested_le begun p.vesting_duration_seconds (t - p.begin_timestamp) in
    let enough : a ≤ b = omega (arith, upper, h.balance_le) in
    let left : IsPartly p begun (b - a) = record {
      begin_eq = h.begin_eq;
      begin_lt = h.begin_lt;
      balance_le = omega (arith, h.balance_le);
    } in
    let sum : begun - (b - a) ≡ begun - b + a = omega (arith, h.balance_le) in
    let e =
      linear_allowed_eq p begun (b - a) t' left small a' i (omega arith, omega arith)
        (omega arith) in
    e ∙ rw sum (rw (sub-sub _ (begun - b) a) refl)
  where
    sub-sub : (x y z : ℕ) → x - (y + z) ≡ x - y - z
    sub-sub x y z = omega arith

-- Of a linear grant that has been partly withdrawn, after the whole duration and past the cliff, at
-- a time of 32 bits, all that is left may be taken.
pub linear_allowed_matured :
    ⦃s : SafeInt⦄ (p : LinearVestingPolicy) (begun b a i t : ℕ)
    → IsPartly p begun b
    → IsOpen p t
    → t < 2 ^ 32
    → p.begin_timestamp + p.vesting_duration_seconds ≤ t
    → linear_get_allowed_withdraw p (at b a i t) ≡ ok (asset (pos b) i)
linear_allowed_matured p begun b a i t h past small over =
    let full : vested begun p.vesting_duration_seconds (t - p.begin_timestamp) ≡ begun =
      ground arith in
    let rest : begun - (begun - b) ≡ b = omega (arith, h.balance_le) in
    linear_allowed_eq p begun b t h small a i past (omega (arith, full)) ∙ rw (full, rest) refl
