-- ===== src/Market/Fees.antt =====
-- The fee of the market is a part of what the seller receives.
use fin_chain_core.Prelude.{
  ℕ, ◌*◌, ◌/◌, ◌%◌, ◌^◌, ◌≤◌, ◌<◌, ◌≡◌, ◌∙◌, ap, not, ◌==◌, if◌then◌else◌, arith, Bool-cases, inl,
  inr, ==_iff,
}
use fin_chain_core.Prelude.Int.{ℤ, pos, ◌≤ℤ◌, ltb_ℤ}
use fin_chain_core.Prelude.Words.{mul128, u64_mod, signed64}
use fin_chain_core.Asset.{asset}
use fin_chain_core.Authorization.{has_flag}
use fin_chain_core.Market.{TradedAsset, calculate_market_fee}
use fin_chain_core.Prelude.Percent.{part_small, part_exact}

-- The options of an asset that charges a fee of at most the whole.
abbrev pub IsFair : TradedAsset → Type 0
IsFair a = (a.market_fee_percent ≤ 10_000) × (pos 0 ≤ℤ a.max_market_fee)

-- The fee as it is meant: a part of the amount, rounded down, and at most the largest fee.
abbrev pub fee_part : TradedAsset → ℕ → ℤ
fee_part a n =
    if not (has_flag a.flags 1)
    then pos 0
    else if ltb_ℤ a.max_market_fee (pos (n * a.market_fee_percent / 10_000))
    then a.max_market_fee
    else pos (n * a.market_fee_percent / 10_000)

fee_equation :
    (a : TradedAsset) (n i : ℕ)
    → signed64 (mul128 n a.market_fee_percent / 10_000 % u64_mod)
      ≡ pos (n * a.market_fee_percent / 10_000)
    → pos 0 ≤ℤ a.max_market_fee
    → calculate_market_fee a (asset (pos n) i) ≡ asset (fee_part a n) a.asset_id
unfolding calculate_market_fee
fee_equation a n i exact most = elim (Bool-cases (not (has_flag a.flags 1))) [
  | inl none_charged ↦ rw none_charged
  | inr charged ↦ elim (Bool-cases (a.market_fee_percent == 0)) [
    | inl free ↦
        let no_percent = (==_iff a.market_fee_percent 0).0 free in
        let no_part : n * a.market_fee_percent / 10_000 ≡ 0 =
          ap (λ p. n * p / 10_000) no_percent ∙ omega arith in
        rw (charged, free, no_part) (ground arith)
    | inr some_percent ↦ rw (charged, some_percent, exact)
  ]
]

-- For an asset that charges at most the whole, and an amount that an `int64_t` holds, the fee is the
-- percentage of the amount, rounded down, and at most the largest fee, or nothing for an asset that
-- charges none; it is neither negative nor more than the amount.
pub calculate_market_fee_lem :
    (a : TradedAsset) (n i : ℕ)
    → IsFair a
    → n < 2 ^ 63
    → (calculate_market_fee a (asset (pos n) i) ≡ asset (fee_part a n) a.asset_id)
      × (pos 0 ≤ℤ fee_part a n)
      × (fee_part a n ≤ℤ pos n)
unfolding calculate_market_fee
calculate_market_fee_lem a n i (percent, most) hn =
    let small = part_small n a.market_fee_percent hn percent in
    let exact = part_exact n a.market_fee_percent hn percent in
    (fee_equation a n i exact most, ground arith, ground arith)
