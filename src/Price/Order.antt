-- ===== src/Price/Order.antt =====
-- The order of prices (`operator <`, `==` and the operators built on them in asset.cpp) is the order
-- of the ratios, market by market.
use native.Mathlib.Nat.{mul-le-mul, le_refl, lt_of_mul-lt-mul_left}
use fin_chain_core.Prelude.{ℕ, ◌*◌, ◌<◌, ◌≡◌, ◌⊎◌, ◌↔◌, true, false, arith}
use fin_chain_core.Prelude.Int.{pos}
use fin_chain_core.Asset.{asset}
use fin_chain_core.Price.{Price, price, invert, price_eq, price_lt, price_gt, price_ge, is_null}
use fin_chain_core.Prelude.Percent.{mul128_small}
use fin_chain_core.Price.Multiply.{IsPositive}

-- Of two prices exactly one of `<`, `==` and the converse `<` holds, and the other operators agree.
pub price_trichotomy :
    (a b : Price)
    → ((price_lt a b ≡ true)
        × (price_eq a b ≡ false)
        × (price_gt a b ≡ false)
        × (price_ge a b ≡ false))
      ⊎ ((price_lt a b ≡ false)
          × (price_eq a b ≡ true)
          × (price_gt a b ≡ false)
          × (price_ge a b ≡ true))
      ⊎ ((price_lt b a ≡ true)
          × (price_eq a b ≡ false)
          × (price_gt a b ≡ true)
          × (price_ge a b ≡ true))
unfolding price_lt price_eq price_gt price_ge
price_trichotomy a b = ground arith

-- A price of positive amounts.
abbrev pub ratio : ℕ → ℕ → ℕ → ℕ → Price
ratio b i q j = price (asset (pos b) i) (asset (pos q) j)

-- In one market `<` compares the ratios of the amounts, with no overflow.
pub price_lt_iff :
    (b q b' q' i j : ℕ)
    → IsPositive b
    → IsPositive q
    → IsPositive b'
    → IsPositive q'
    → (price_lt (ratio b i q j) (ratio b' i q' j) ≡ true) ↔ (q' * b < q * b')
unfolding price_lt
price_lt_iff b q b' q' i j hb hq hb' hq' =
    ground (arith, mul128_small q' b hq'.1 hb.1, mul128_small q b' hq.1 hb'.1)

cross_trans :
    (b q b' q' b'' q'' : ℕ) → 0 < q → q' * b < q * b' → q'' * b' < q' * b'' → q'' * b < q * b''
cross_trans b q b' q' b'' q'' p h k =
    lt_of_mul-lt-mul_left q' (omega (arith, mul-le-mul (le_refl q'') h, mul-le-mul (le_refl q) k))

-- In one market `<` is transitive on positive prices.
pub price_lt_trans :
    (b q b' q' b'' q'' i j : ℕ)
    → IsPositive b
    → IsPositive q
    → IsPositive b'
    → IsPositive q'
    → IsPositive b''
    → IsPositive q''
    → price_lt (ratio b i q j) (ratio b' i q' j) ≡ true
    → price_lt (ratio b' i q' j) (ratio b'' i q'' j) ≡ true
    → price_lt (ratio b i q j) (ratio b'' i q'' j) ≡ true
price_lt_trans b q b' q' b'' q'' i j hb hq hb' hq' hb'' hq'' h k =
    let low = (price_lt_iff b q b' q' i j hb hq hb' hq').0 h in
    let high = (price_lt_iff b' q' b'' q'' i j hb' hq' hb'' hq'').0 k in
    (price_lt_iff b q b'' q'' i j hb hq hb'' hq'').1 (cross_trans b q b' q' b'' q'' hq.0 low high)

-- In one market, taking the inverse of both prices turns the order round.
pub price_lt-invert :
    (a b : Price)
    → a.base.asset_id ≡ b.base.asset_id
    → a.quote.asset_id ≡ b.quote.asset_id
    → price_lt a b ≡ price_lt (invert b) (invert a)
unfolding price_lt
price_lt-invert a b hb hq = ground arith

-- `is_null` holds of every price whose two assets are the core asset, whatever the amounts.
pub is_null_iff :
    (p : Price) → (is_null p ≡ true) ↔ ((p.base.asset_id ≡ 0) × (p.quote.asset_id ≡ 0))
unfolding is_null
is_null_iff p = ground arith
