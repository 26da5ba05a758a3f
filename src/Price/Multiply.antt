-- ===== src/Price/Multiply.antt =====
-- What the conversion of an amount by a price returns (`operator *` of asset.cpp).
use native.Mathlib.Nat.{
  mul-le-mul, le-div_iff_mul-le, div-le_of_le-mul, div-mul-le_self, le_trans, le_refl,
}
use fin_chain_core.Prelude.{
  ℕ, ◌+◌, ◌-◌, ◌*◌, ◌/◌, ◌^◌, ◌≤◌, ◌<◌, ◌≡◌, ◌≢◌, refl, sym, ◌∙◌, arith, if◌then◌else◌, leb,
}
use fin_chain_core.Prelude.Int.{pos, negsuc, ◌≤ℤ◌}
use fin_chain_core.Prelude.Words.{mul128}
use fin_chain_core.Prelude.Percent.{mul128_small}
use fin_chain_core.Prelude.Results.{ok, err, assert_exception}
use fin_chain_core.Asset.{Asset, asset, max_share_supply}
use fin_chain_core.Price.{Price, price, multiply, convert, invert}

-- A positive amount that an `int64_t` holds.
abbrev pub IsPositive : ℕ → Type 0
IsPositive n = (0 < n) × (n < 2 ^ 63)

convert_floor :
    (a b q i j : ℕ)
    → a < 2 ^ 63
    → 0 < b
    → q < 2 ^ 63
    → convert (pos a) (asset (pos b) i) (asset (pos q) j) ≡ (
        if leb (a * q / b) max_share_supply
        then ok (asset (pos (a * q / b)) j)
        else err assert_exception)
convert_floor a b q i j ha hb hq = rw (mul128_small a q ha hq) (ground arith)

-- At a price with a positive base, where the amount and the quote fit 63 bits, a number of units of
-- the base gives the product with the quote over the base, rounded down, or raises if that is more
-- than the largest supply.
pub multiply_floor :
    (a b q i j : ℕ)
    → a < 2 ^ 63
    → 0 < b
    → q < 2 ^ 63
    → multiply (asset (pos a) i) (price (asset (pos b) i) (asset (pos q) j)) ≡ (
        if leb (a * q / b) max_share_supply
        then ok (asset (pos (a * q / b)) j)
        else err assert_exception)
unfolding multiply
multiply_floor a b q i j ha hb hq = ground (arith, convert_floor a b q i j ha hb hq)

pub multiply-eq-ok :
    (a b q i j : ℕ) (y : Asset)
    → a < 2 ^ 63
    → 0 < b
    → q < 2 ^ 63
    → multiply (asset (pos a) i) (price (asset (pos b) i) (asset (pos q) j)) ≡ ok y
    → (y ≡ asset (pos (a * q / b)) j) × (a * q / b ≤ max_share_supply)
multiply-eq-ok a b q i j y ha hb hq e =
    let floor = sym (multiply_floor a b q i j ha hb hq) ∙ e in ground arith

-- Which side of the price the amount is on makes no difference.
pub multiply-invert :
    (x : Asset) (p : Price)
    → p.base.asset_id ≢ p.quote.asset_id
    → multiply x (invert p) ≡ multiply x p
unfolding multiply
multiply-invert x p ne = ground arith

-- A negative amount becomes a word so large that no quotient of it is a supply.
wrapped : (n b : ℕ) → n < 2 ^ 63 → 0 < b → b < 2 ^ 63 → 2 ^ 127 ≤ mul128 (2 ^ 128 - 1 - n) b
wrapped n b hn hb hb' =
    let w : ℕ = 2 ^ 128 - 1 - n in
    let whole : w + (n + 1) ≡ 2 ^ 128 = omega arith in
    let e : w * b + (n + 1) * b ≡ 2 ^ 128 * b = mul-of-sum w (n + 1) b whole in
    let top : n + 1 ≤ 2 ^ 63 = omega arith in
    let side : b ≤ 2 ^ 63 = omega arith in
    let some_of_it : 1 * b ≤ (n + 1) * b = mul-le-mul (omega arith) (omega arith) in
    omega (arith, e, mul-le-mul top side, some_of_it)
  where
    mul-of-sum : (x y c : ℕ) {z : ℕ} → x + y ≡ z → x * c + y * c ≡ z * c
    mul-of-sum x y c h = rw (← h) (omega arith)

max-lt-div : (w b : ℕ) → 2 ^ 127 ≤ w → 0 < b → b < 2 ^ 63 → max_share_supply < w / b
max-lt-div w b hw hb hb' = (le-div_iff_mul-le hb).1 (omega arith)

-- An amount below zero is refused at every price whose two sides are positive and fit 63 bits.
pub multiply_negative :
    (n b q i j : ℕ)
    → n < 2 ^ 63
    → IsPositive b
    → IsPositive q
    → multiply (asset (negsuc n) i) (price (asset (pos b) i) (asset (pos q) j))
      ≡ err assert_exception
unfolding multiply
multiply_negative n b q i j hn hb hq =
    let big = max-lt-div (mul128 (2 ^ 128 - 1 - n) q) b (wrapped n q hn hq.0 hq.1) hb.0 hb.1 in
    ground (arith, big)

div-mul-div-le : (a b q : ℕ) → 0 < b → a * q / b * b / q ≤ a
div-mul-div-le a b q hb = div-le_of_le-mul q (omega (arith, div-mul-le_self (a * q) b))

-- At a price between two assets, of positive sides that fit 63 bits, an amount that is sold and
-- bought back at the same price, where both go through, does not grow.
pub multiply_round_trip :
    (a b q i j : ℕ) (y z : Asset)
    → i ≢ j
    → a < 2 ^ 63
    → IsPositive b
    → IsPositive q
    → let p = price (asset (pos b) i) (asset (pos q) j) in
      multiply (asset (pos a) i) p ≡ ok y
      → multiply y p ≡ ok z
      → (z.asset_id ≡ i) × (z.amount ≤ℤ pos a)
multiply_round_trip a b q i j y z ne ha hb hq ey ez =
    let (sold, small) = multiply-eq-ok a b q i j y ha hb.0 hq.1 ey in
    let back = rw sold at (multiply-invert y (price (asset (pos b) i) (asset (pos q) j)) ne ∙ ez) in
    let (bought, _) = multiply-eq-ok (a * q / b) q b j i z (omega arith) hq.0 hb.1 back in
    rw bought (refl, omega (arith, div-mul-div-le a b q hb.0))

div_mono : (a c q b : ℕ) → a ≤ c → 0 < b → a * q / b ≤ c * q / b
div_mono a c q b h hb =
    (le-div_iff_mul-le hb).1 (le_trans (div-mul-le_self (a * q) b) (mul-le-mul h (le_refl q)))

-- A larger amount is never worth less.
pub multiply_mono :
    (a c b q i j : ℕ) (y z : Asset)
    → a ≤ c
    → c < 2 ^ 63
    → IsPositive b
    → q < 2 ^ 63
    → let p = price (asset (pos b) i) (asset (pos q) j) in
      multiply (asset (pos a) i) p ≡ ok y
      → multiply (asset (pos c) i) p ≡ ok z
      → (y.asset_id ≡ z.asset_id) × (y.amount ≤ℤ z.amount)
multiply_mono a c b q i j y z h hc hb hq ey ez =
    let (ya, _) = multiply-eq-ok a b q i j y (omega arith) hb.0 hq ey in
    let (za, _) = multiply-eq-ok c b q i j z hc hb.0 hq ez in
    rw (ya, za) (refl, omega (arith, div_mono a c q b h hb.0))
