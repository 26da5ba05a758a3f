-- ===== src/Cashback/Split.antt =====
-- The parts of a fee: each is what its percentage says, and none is negative.
use native.Mathlib.Nat.{mul-le-mul, mul-add, div-mul-le_self}
use fin_chain_core.Prelude.{
  ℕ, ◌+◌, ◌-◌, ◌*◌, ◌/◌, ◌^◌, ◌≤◌, ◌<◌, ◌≡◌, sym, ap, ◌∙◌, ◌==◌, arith, Bool-cases, inl, inr,
  ==_iff,
}
use fin_chain_core.Prelude.Int.{pos, ◌-ℤ◌, eqb_ℤ, int_laws}
use fin_chain_core.Prelude.Percent.{part_small, part_exact}
use fin_chain_core.Prelude.Results.{ok, SafeInt}
use fin_chain_core.Cashback.{FeeAccount, cut_fee}
use fin_chain_core.Cashback.Process.{split_fee}

-- The shortcuts of cut_fee make no difference: up to the whole, a cut of an amount that an `int64_t`
-- holds is its percentage, rounded down.
pub cut_fee_lem : (n p : ℕ) → n < 2 ^ 63 → p ≤ 10_000 → cut_fee (pos n) p ≡ pos (n * p / 10_000)
unfolding cut_fee
cut_fee_lem n p hn hp = elim (Bool-cases (eqb_ℤ (pos n) (pos 0))) [
  | inl nothing ↦
      let n_zero : n ≡ 0 = ground arith in
      let part : 0 ≡ n * p / 10_000 = omega arith ∙ ap (λ k. k * p / 10_000) (sym n_zero) in
      rw nothing (ap (λ (x : ℕ). pos x) part)
  | inr some_amount ↦ elim (Bool-cases (p == 0)) [
    | inl free ↦
        let p_zero = (==_iff p 0).0 free in
        let part : 0 ≡ n * p / 10_000 = omega arith ∙ ap (λ k. n * k / 10_000) (sym p_zero) in
        rw (some_amount, free) (ap (λ (x : ℕ). pos x) part)
    | inr some_percent ↦ elim (Bool-cases (p == 10_000)) [
      | inl whole ↦
          let p_whole = (==_iff p 10_000).0 whole in
          let part : n ≡ n * p / 10_000 = omega arith ∙ ap (λ k. n * k / 10_000) (sym p_whole) in
          rw (some_amount, some_percent, whole) (ap (λ (x : ℕ). pos x) part)
      | inr less ↦ rw (some_amount, some_percent, less) (part_exact n p hn hp)
    ]
  ]
]

-- The percentages of an account leave nothing negative.
abbrev pub IsShared : FeeAccount → Type 0
IsShared a =
    (a.network_fee_percentage + a.lifetime_referrer_fee_percentage ≤ 10_000)
    × (a.referrer_rewards_percentage ≤ 10_000)

-- Two parts of an amount are together at most the amount.
two_parts : (n p q : ℕ) → p + q ≤ 10_000 → n * p / 10_000 + n * q / 10_000 ≤ n
two_parts n p q h =
    let all : n * (p + q) ≤ n * 10_000 = mul-le-mul (omega arith) h in
    let sum : n * (p + q) ≡ n * p + n * q = mul-add n p q in
    omega (arith, all, sum, div-mul-le_self (n * p) 10_000, div-mul-le_self (n * q) 10_000)

abbrev pub rest_of : FeeAccount → ℕ → ℕ
rest_of a n =
    n - n * a.network_fee_percentage / 10_000 - n * a.lifetime_referrer_fee_percentage / 10_000

-- A fee that an `int64_t` holds, of an account whose percentages are at most the whole, is split
-- without an exception: the network and the lifetime referrer have their percentages of it, the
-- referrer has its percentage of the rest, and the registrar has what remains, which is not
-- negative.
pub split_fee_lem :
    ⦃s : SafeInt⦄ (a : FeeAccount) (n : ℕ)
    → IsShared a
    → n < 2 ^ 63
    → split_fee a (pos n)
      ≡ ok (record {
        network_cut = pos (n * a.network_fee_percentage / 10_000);
        lifetime_cut = pos (n * a.lifetime_referrer_fee_percentage / 10_000);
        referrer_cut = pos (rest_of a n * a.referrer_rewards_percentage / 10_000);
        registrar_cut = pos (rest_of a n - rest_of a n * a.referrer_rewards_percentage / 10_000);
      })
unfolding split_fee
split_fee_lem ⦃s⦄ a n (shares, rewards) hn =
    let x = n * a.network_fee_percentage / 10_000 in
    let y = n * a.lifetime_referrer_fee_percentage / 10_000 in
    let z = rest_of a n * a.referrer_rewards_percentage / 10_000 in
    let both = two_parts n a.network_fee_percentage a.lifetime_referrer_fee_percentage shares in
    let small : rest_of a n < 2 ^ 63 = omega arith in
    let part = part_small (rest_of a n) a.referrer_rewards_percentage small rewards in
    let network = cut_fee_lem n a.network_fee_percentage hn (omega arith) in
    let lifetime = cut_fee_lem n a.lifetime_referrer_fee_percentage hn (omega arith) in
    let referrer = cut_fee_lem (rest_of a n) a.referrer_rewards_percentage small rewards in
    let first : pos n -ℤ pos x ≡ pos (n - x) = omega int_laws in
    let second : pos (n - x) -ℤ pos y ≡ pos (n - x - y) = omega int_laws in
    let third : pos (n - x - y) -ℤ pos z ≡ pos (n - x - y - z) = omega int_laws in
    rw (
      network,
      lifetime,
      first,
      s.check_fits (pos (n - x)) (omega arith),
      second,
      s.check_fits (pos (n - x - y)) (omega arith),
      referrer,
      third,
      s.check_fits (pos (n - x - y - z)) (omega arith),
    )
