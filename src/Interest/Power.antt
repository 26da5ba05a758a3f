-- ===== src/Interest/Power.antt =====
-- The loop of `fast_pow_of_interest` against a description by the binary digits of the exponent.
use native.Mathlib.Nat.{
  div-eq_of_lt, div-div-eq-div-mul, lt-mul-div-succ, pow-le-pow_right, one-le-pow, pow-suc,
}
use fin_chain_core.Prelude.{
  ℕ, zero, suc, ◌+◌, ◌*◌, ◌/◌, ◌%◌, ◌^◌, ◌≡◌, ◌≢◌, ◌<◌, ◌≤◌, refl, sym, ap, ◌∙◌, false, inl, inr,
  ◌==◌, if◌then◌else◌, arith, Bool-cases,
}
use native.Mathlib.Decide.{dec_le}
use fin_chain_core.Prelude.Int.{pos}
use fin_chain_core.Prelude.Words.{to_u128, mul128, signed64}
use fin_chain_core.Prelude.Results.{ok}
use fin_chain_core.Asset.{asset}
use fin_chain_core.Price.{Price, price}
use fin_chain_core.Interest.{
  Narrowing, scale_of, multiply_of_interest, pow_step, pow_loop, fast_pow_of_interest,
}

-- The base of a price can be divided by.
abbrev pub IsDivisor : Price → Type 0
IsDivisor x = to_u128 x.base.amount ≢ 0

-- One unit of an asset can be divided by.
abbrev pub IsScale : ℕ → Type 0
IsScale precision = to_u128 (signed64 (scale_of precision)) ≢ 0

module _ ⦃w : Narrowing⦄ (precision : ℕ) where
  -- The product of two rates, over one unit: the quotients are rounded down one after the other, in
  -- 128 bits that wrap.
  abbrev pub times : Price → Price → Price
  times a b =
      let first = mul128 (scale_of precision) (to_u128 a.quote.amount) / to_u128 a.base.amount in
      price (asset (signed64 (scale_of precision)) a.base.asset_id) (
        asset (signed64 (w.narrow (mul128 first (to_u128 b.quote.amount) / to_u128 b.base.amount)))
          b.quote.asset_id)

  -- The rate squared k times, which is its power of exponent 2 ^ k.
  abbrev pub square : Price → ℕ → Price
  square rate zero = rate
  square rate (suc k) = times (square rate k) (square rate k)

  -- The product, from one on, of the powers of the rate with exponent 2 ^ i, over the digits i below k
  -- of the exponent that are one, from the lowest on.
  abbrev pub product : Price → ℕ → ℕ → Price
  product rate pow zero =
      price (asset (pos 1) rate.base.asset_id) (asset (pos 1) rate.quote.asset_id)
  product rate pow (suc k) =
      if pow / 2 ^ k % 2 == 1
      then times (product rate pow k) (square rate k)
      else product rate pow k

  multiply_of_interest-times :
      (a b : Price)
      → IsDivisor a
      → IsDivisor b
      → multiply_of_interest precision a b ≡ ok (times a b)
  unfolding multiply_of_interest
  multiply_of_interest-times a b na nb =
      let fa : (to_u128 a.base.amount == 0) ≡ false = ground arith in
      let fb : (to_u128 b.base.amount == 0) ≡ false = ground arith in rw (fa, fb) refl

  module _ (rate : Price) (pow : ℕ) (scale : IsScale precision) (divides : IsDivisor rate) where
    square-IsDivisor : (k : ℕ) → IsDivisor (square rate k)
    square-IsDivisor zero = divides
    square-IsDivisor (suc k) = scale

    product-IsDivisor : (k : ℕ) → IsDivisor (product rate pow k)
    product-IsDivisor zero = omega arith
    product-IsDivisor (suc k) = elim (Bool-cases (pow / 2 ^ k % 2 == 1)) [
      | inl one ↦ rw one scale
      | inr nothing ↦ rw nothing (product-IsDivisor k)
    ]

    -- Digits above the exponent are zero.
    product-above : (k m : ℕ) → pow < 2 ^ k → k ≤ m → product rate pow m ≡ product rate pow k
    product-above k zero low le =
        let same : 0 ≡ k = omega arith in ap (λ j. product rate pow j) same
    product-above k (suc m) low le = elim (dec_le k m) [
      | yes below ↦
          let power : 2 ^ k ≤ 2 ^ m = pow-le-pow_right (omega arith) below in
          let nothing : pow / 2 ^ m ≡ 0 = div-eq_of_lt (omega (arith, power, low)) in
          let no_digit : (pow / 2 ^ m % 2 == 1) ≡ false = rw nothing refl in
          rw no_digit (product-above k m low below)
      | no above ↦ let same : suc m ≡ k = omega arith in ap (λ j. product rate pow j) same
    ]

    -- A round of the loop at digit k.
    pow_step-square :
        (k : ℕ)
        → pow_step precision (square rate k) (product rate pow k) (pow / 2 ^ k)
          ≡ ok (square rate (suc k), product rate pow (suc k))
    unfolding pow_step
    pow_step-square k =
        let squared =
          multiply_of_interest-times (square rate k) (square rate k) (square-IsDivisor k)
            (square-IsDivisor k) in
        elim (Bool-cases (pow / 2 ^ k % 2 == 1)) [
          | inl one ↦
              rw
                (
                  one,
                  multiply_of_interest-times (product rate pow k) (square rate k)
                      (product-IsDivisor k) (square-IsDivisor k),
                  squared,
                )
                refl
          | inr nothing ↦ rw (nothing, squared) refl
        ]

    -- The rounds of the loop from digit k on.
    pow_loop-product :
        (n k m : ℕ)
        → m ≡ k + n
        → pow < 2 ^ m
        → pow_loop n precision (square rate k) (product rate pow k) (pow / 2 ^ k)
          ≡ ok (product rate pow m)
    unfolding pow_loop
    pow_loop-product zero k m e low =
        let same : k ≡ m = omega arith in ap (λ j. ok (product rate pow j)) same
    pow_loop-product (suc n) k m e low = elim (Bool-cases (pow / 2 ^ k == 0)) [
      | inl over ↦
          let below = lt-mul-div-succ pow (one-le-pow k 2 (omega arith)) in
          let quotient : pow / 2 ^ k ≡ 0 = ground arith in
          let bound : 2 ^ k * (pow / 2 ^ k + 1) ≡ 2 ^ k =
            ap (λ q. 2 ^ k * (q + 1)) quotient ∙ omega arith in
          let less : pow < 2 ^ k = omega (arith, below, bound) in
          rw over (ap (λ (x : Price). ok x) (sym (product-above k m less (omega arith))))
      | inr more ↦
          let half = div-div-eq-div-mul pow (2 ^ k) 2 ∙ ap (λ d. pow / d) (sym (pow-suc 2 k)) in
          let rest = pow_loop-product n (suc k) m (omega arith) low in
          rw (more, pow_step-square k, half) rest
    ]

  -- Where one unit of the asset and the base of the rate are not zero in 128 bits, and the exponent
  -- has 32 bits, `fast_pow_of_interest` raises nothing and returns the product, from one on, of the
  -- rate squared i times over those binary digits i of the exponent that are one, lowest first; each
  -- product is over one unit, and rounds down each of its two quotients.
  pub fast_pow_of_interest-product :
      (rate : Price) (pow : ℕ)
      → IsScale precision
      → IsDivisor rate
      → pow < 2 ^ 32
      → fast_pow_of_interest rate pow precision ≡ ok (product rate pow 32)
  unfolding fast_pow_of_interest
  fast_pow_of_interest-product rate pow scale divides small =
      let whole : pow / 2 ^ 0 ≡ pow = omega arith in
      ap (λ n. pow_loop 32 precision rate (product rate pow 0) n) (sym whole)
      ∙ pow_loop-product rate pow scale divides 32 0 32 refl small
