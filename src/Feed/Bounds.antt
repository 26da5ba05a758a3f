-- ===== src/Feed/Bounds.antt =====
-- The loops of `call_price` and `max_short_squeeze_price` end, with amounts in range.
use native.Mathlib.Nat.{pow-suc, mul-le-mul, mul-pos}
use fin_chain_core.Prelude.{
  ℕ, zero, suc, ◌+◌, ◌*◌, ◌-◌, ◌^◌, ◌/◌, ◌%◌, ◌≤◌, ◌<◌, ◌≡◌, ◌≢◌, refl, ◌∙◌, some, arith,
  Bool-cases, inl, inr,
}
use fin_chain_core.Prelude.Int.{pos}
use fin_chain_core.Prelude.Results.{ok}
use fin_chain_core.Asset.{asset, max_share_supply}
use fin_chain_core.Price.{price, null_price}
use fin_chain_core.Price.Multiply.{IsPositive}
use fin_chain_core.Feed.{
  Rational, PriceFeed, halve_up, halve_round, halvings, too_large, product, call_price,
  max_short_squeeze_price, validate_feed,
}

-- A positive amount that is no larger than the supply.
abbrev pub InSupply : ℕ → Type 0
InSupply n = (0 < n) × (n ≤ max_share_supply)

module _ (r : Rational) where
  open r use {numerator, denominator}

  halve_up_total :
      (f n d b : ℕ)
      → b ≡ 2 ^ f
      → n ≤ 2 + b * (max_share_supply - 2)
      → d ≤ 2 + b * (max_share_supply - 2)
      → 0 < n
      → 0 < d
      → (n' d' : ℕ) × (halve_up r (suc f) n d ≡ some (n', d')) × InSupply n' × InSupply d'
  unfolding halve_up
  halve_up_total zero n d b e hn hd pn pd =
      (n, d, ground (arith, e), (pn, omega (arith, e)), (pd, omega (arith, e)))
  halve_up_total (suc f) n d b e hn hd pn pd = elim (Bool-cases (too_large n d)) [
    | inl large ↦
        let n' = n / 2 + 1 in
        let d' = d / 2 + 1 in
        let half : b ≡ 2 ^ f * 2 = e ∙ pow-suc 2 f in
        rw large (
          halve_up_total f (numerator n' d') (denominator n' d') (2 ^ f) refl
            (omega (arith, r.numerator_le n' d', half))
            (omega (arith, r.denominator_le n' d', half))
            (r.numerator_pos n' d' (omega arith) (omega arith))
            (r.denominator_pos n' d' (omega arith)))
    | inr fits ↦ (n, d, rw fits, (pn, ground (arith, fits)), (pd, ground (arith, fits)))
  ]

  halve_round_total :
      (f n d b : ℕ)
      → b ≡ 2 ^ f
      → n ≤ b * max_share_supply
      → d ≤ b * max_share_supply
      → 0 < d
      → (n' d' : ℕ) × (halve_round r (suc f) n d ≡ some (n', d'))
        × (n' ≤ max_share_supply)
        × InSupply d'
  unfolding halve_round
  halve_round_total zero n d b e hn hd pd =
      (n, d, ground (arith, e), omega (arith, e), (pd, omega (arith, e)))
  halve_round_total (suc f) n d b e hn hd pd = elim (Bool-cases (too_large n d)) [
    | inl large ↦
        let n' = n / 2 + n % 2 in
        let d' = d / 2 + d % 2 in
        let half : b ≡ 2 ^ f * 2 = e ∙ pow-suc 2 f in
        rw large (
          halve_round_total f (numerator n' d') (denominator n' d') (2 ^ f) refl
            (omega (arith, r.numerator_le n' d', half))
            (omega (arith, r.denominator_le n' d', half)) (r.denominator_pos n' d' (omega arith)))
    | inr fits ↦ (n, d, rw fits, ground (arith, fits), (pd, ground (arith, fits)))
  ]

  -- The product of the two ratios stays below what the fuel allows for.
  product_le :
      (n d : ℕ) (a b : ℕ) → n < 2 ^ 63 → a < 2 ^ 16 → numerator n d * numerator a b ≤ 2 ^ 79
  product_le n d a b hn ha =
      let x : numerator n d ≤ 2 ^ 63 = omega (arith, r.numerator_le n d) in
      let y : numerator a b ≤ 2 ^ 16 = omega (arith, r.numerator_le a b) in mul-le-mul x y

  product_den_le :
      (n d : ℕ) (a b : ℕ) → d < 2 ^ 63 → b < 2 ^ 16 → denominator n d * denominator a b ≤ 2 ^ 79
  product_den_le n d a b hd hb =
      let x : denominator n d ≤ 2 ^ 63 = omega (arith, r.denominator_le n d) in
      let y : denominator a b ≤ 2 ^ 16 = omega (arith, r.denominator_le a b) in mul-le-mul x y

  call_price-loop :
      (debt collateral ratio : ℕ)
      → IsPositive debt
      → IsPositive collateral
      → 0 < ratio
      → ratio < 2 ^ 16
      → let cp = product r debt collateral ratio 1000 in
        (n d : ℕ) × (halve_up r halvings cp.0 cp.1 ≡ some (n, d)) × InSupply n × InSupply d
  call_price-loop debt collateral ratio hd hc pr hr =
      let a = numerator debt collateral * numerator ratio 1000 in
      let b = denominator debt collateral * denominator ratio 1000 in
      let pa : 0 < a =
        mul-pos (r.numerator_pos _ _ hd.0 hc.0) (r.numerator_pos _ _ pr (omega arith)) in
      let pb : 0 < b = mul-pos (r.denominator_pos _ _ hc.0) (r.denominator_pos _ _ (omega arith)) in
      halve_up_total 21 (numerator a b) (denominator a b) (2 ^ 21) refl
        (omega (arith, r.numerator_le a b, product_le debt collateral ratio 1000 hd.1 hr))
        (omega (
          arith,
          r.denominator_le a b,
          product_den_le debt collateral ratio 1000 hc.1 (omega arith),
        ))
        (r.numerator_pos a b pa pb) (r.denominator_pos a b pb)

  call_price-eq :
      (debt collateral ratio i j n d : ℕ)
      → i ≢ j
      → 0 < collateral
      → halve_up r halvings
          (product r debt collateral ratio 1000).0
          (product r debt collateral ratio 1000).1
        ≡ some (n, d)
      → call_price r (asset (pos debt) i) (asset (pos collateral) j) ratio
        ≡ ok (price (asset (pos d) j) (asset (pos n) i))
  unfolding call_price
  call_price-eq debt collateral ratio i j n d ne hc e = rw e (ground arith)

  -- For positive amounts of two assets that fit 63 bits and a positive ratio of 16 bits,
  -- `call_price` gives a price of collateral over debt: its loop ends, and both amounts are
  -- positive and at most the largest supply.
  pub call_price_total :
      (debt collateral ratio i j : ℕ)
      → i ≢ j
      → IsPositive debt
      → IsPositive collateral
      → 0 < ratio
      → ratio < 2 ^ 16
      → (n d : ℕ) × (call_price r (asset (pos debt) i) (asset (pos collateral) j) ratio
          ≡ ok (price (asset (pos d) j) (asset (pos n) i)))
        × InSupply n
        × InSupply d
  call_price_total debt collateral ratio i j ne hd hc pr hr =
      let (n, d, e, hn, hd') = call_price-loop debt collateral ratio hd hc pr hr in
      (n, d, call_price-eq debt collateral ratio i j n d ne hc.0 e, hn, hd')

  squeeze-loop :
      (b q ratio : ℕ)
      → b < 2 ^ 63
      → IsPositive q
      → 0 < ratio
      → ratio < 2 ^ 16
      → let cp = product r b q 1000 ratio in
        (n d : ℕ) × (halve_round r halvings cp.0 cp.1 ≡ some (n, d))
        × (n ≤ max_share_supply)
        × InSupply d
  squeeze-loop b q ratio hb hq pr hr =
      let n = numerator b q * numerator 1000 ratio in
      let d = denominator b q * denominator 1000 ratio in
      let pd : 0 < d = mul-pos (r.denominator_pos _ _ hq.0) (r.denominator_pos _ _ pr) in
      halve_round_total 21 (numerator n d) (denominator n d) (2 ^ 21) refl
        (omega (arith, r.numerator_le n d, product_le b q 1000 ratio hb (omega arith)))
        (omega (arith, r.denominator_le n d, product_den_le b q 1000 ratio hq.1 hr))
        (r.denominator_pos n d pd)

  squeeze-eq :
      (feed : PriceFeed) (b q n d i j : ℕ)
      → feed.settlement_price ≡ price (asset (pos b) i) (asset (pos q) j)
      → i ≢ j
      → 0 < q
      → 0 < feed.maximum_short_squeeze_ratio
      → let cp = product r b q 1000 feed.maximum_short_squeeze_ratio in
        halve_round r halvings cp.0 cp.1 ≡ some (n, d)
        → max_short_squeeze_price r feed ≡ ok (price (asset (pos n) i) (asset (pos d) j))
  unfolding max_short_squeeze_price
  squeeze-eq feed b q n d i j s ne hq pr e = rw (s, e) (ground arith)

  -- A settlement price of two assets, with a positive quote and a base that is not negative, both
  -- of 63 bits, and a positive ratio of 16 bits, has a squeeze price: the loop ends, both amounts
  -- are at most the largest supply, and the quote is positive.
  pub max_short_squeeze_price_total :
      (feed : PriceFeed) (b q i j : ℕ)
      → feed.settlement_price ≡ price (asset (pos b) i) (asset (pos q) j)
      → i ≢ j
      → b < 2 ^ 63
      → IsPositive q
      → 0 < feed.maximum_short_squeeze_ratio
      → feed.maximum_short_squeeze_ratio < 2 ^ 16
      → (n d : ℕ) × (max_short_squeeze_price r feed
          ≡ ok (price (asset (pos n) i) (asset (pos d) j)))
        × (n ≤ max_share_supply)
        × InSupply d
  max_short_squeeze_price_total feed b q i j s ne hb hq pr hr =
      let (n, d, e, hn, hd) = squeeze-loop b q feed.maximum_short_squeeze_ratio hb hq pr hr in
      (n, d, squeeze-eq feed b q n d i j s ne hq.0 pr e, hn, hd)

  -- A feed whose settlement price is the null price does not pass `validate`, though `validate`
  -- leaves the null price itself unchecked: its squeeze price has a zero denominator.
  pub validate_feed_null :
      (feed : PriceFeed) → feed.settlement_price ≡ null_price → validate_feed r feed ≢ ok tt
  unfolding validate_feed
  validate_feed_null feed e = rw e λ h. ground (arith, h)
