-- ===== src/Market/Match.antt =====
-- A match of two orders conserves every asset and fills at least one of the orders.
use fin_chain_core.Prelude.{
  ℕ, ◌+◌, ◌*◌, ◌^◌, ◌<◌, ◌≡◌, ◌≢◌, refl, sym, ap, subst, ◌∙◌, Bool, true, false, some, ◌==◌,
  if◌then◌else◌, arith, ◌/◌, leb, leb→le, Bool-cases, inl, inr, ◌⊎◌, All, find_first-All,
  find_first, replace_first, find_first-replace_first_other, find_first-remove_first_other, ==_refl,
}
use fin_chain_core.Prelude.Int.{ℤ, pos, ◌+ℤ◌, ◌-ℤ◌, ◌≤ℤ◌, eqb_ℤ, ltb_ℤ, +ℤ_cancel}
use fin_chain_core.Prelude.Words.{mul128, to_u128}
use fin_chain_core.Prelude.Results.{
  ok, Error, err, fc_assert, ensure-eq-ok, SafeInt, >>=-eq-ok, ok-injective,
}
use fin_chain_core.Asset.{Asset, asset, asset_eq, asset_le, max_share_supply}
use fin_chain_core.Price.{Price, multiply, convert}
use fin_chain_core.Ledger.Totals.{of_asset}
use fin_chain_core.Market.{
  LimitOrder, Market, TradedAsset, has_order, is_traded, amount_for_sale, amount_to_receive,
  cancel_order, maybe_cull_small_order, settle_order, fill_order,
}
use fin_chain_core.Market.Fees.{IsFair}
use fin_chain_core.Market.Value.{value, Moves}
use fin_chain_core.Market.Fill.{cancel_order-eq-ok}
use fin_chain_core.Market.Conserve.{fill_order-eq-ok, value-fill_order}
use fin_chain_core.Market.Matching.{match_amounts, match_orders, bit}

-- The order k is as it was, and so are the assets.
abbrev Keeps : ℕ → Market → Market → Type 0
Keeps k m m' =
    (find_first (has_order k) m'.orders ≡ find_first (has_order k) m.orders)
    × (m'.assets ≡ m.assets)

apart : (i k : ℕ) → i ≢ k → (o : LimitOrder) → has_order i o ≡ true → has_order k o ≡ false
apart i k ne o h = ground arith

Moves-Keeps : (i k : ℕ) (n : ℤ) (m m' : Market) → Moves i n m m' → Keeps k m m'
Moves-Keeps i k n m m' (v, same, same') = (ap (find_first (has_order k)) same, same')

-- An amount that is not negative and that an `int64_t` holds.
abbrev pub IsAmount : Asset → Type 0
IsAmount a = (n : ℕ) × (n < 2 ^ 63) × (a ≡ asset (pos n) a.asset_id)

convert-IsAmount : (x : ℤ) (from to : Asset) {y : Asset} → convert x from to ≡ ok y → IsAmount y
convert-IsAmount x from to h =
    let result = mul128 (to_u128 x) (to_u128 to.amount) / to_u128 from.amount in
    let (u, positive, h1) = >>=-eq-ok (fc_assert (ltb_ℤ (pos 0) from.amount)) _ h in
    let (u', small, h2) = >>=-eq-ok (fc_assert (leb result max_share_supply)) _ h1 in
    let most = leb→le result max_share_supply (ensure-eq-ok _ _ small) in
    subst IsAmount (ok-injective h2) (result, omega arith, refl)

multiply-IsAmount : (a : Asset) (p : Price) {y : Asset} → multiply a p ≡ ok y → IsAmount y
unfolding multiply
multiply-IsAmount a p h = elim (Bool-cases (a.asset_id == p.base.asset_id)) [
  | inl base ↦ convert-IsAmount a.amount p.base p.quote (rw base at h)
  | inr not_base ↦ elim (Bool-cases (a.asset_id == p.quote.asset_id)) [
    | inl quote ↦ convert-IsAmount a.amount p.quote p.base (rw (not_base, quote) at h)
    | inr neither ↦ absurd (err≢ok (rw (not_base, neither) at h))
  ]
]
  where
    err≢ok : {e : Error} {y : Asset} → err e ≢ ok y
    err≢ok h' = cc

-- An order that sells an amount, with a deferred fee that is not negative.
abbrev pub IsOrder : LimitOrder → Type 0
IsOrder o = IsAmount (amount_for_sale o) × (pos 0 ≤ℤ o.deferred_fee)

-- One of the two orders receives all that the other has for sale, and the other an amount.
pub match_amounts-eq-ok :
    (usd core : LimitOrder) (p : Price) (x y : Asset)
    → match_amounts usd core p ≡ ok (x, y)
    → (IsAmount x × (y ≡ amount_for_sale usd)) ⊎ (IsAmount y × (x ≡ amount_for_sale core))
unfolding match_amounts
match_amounts-eq-ok usd core p x y h =
    let Outcome = λ (z : Asset × Asset).
      (IsAmount z.0 × (z.1 ≡ amount_for_sale usd))
      ⊎ (IsAmount z.1 × (z.0 ≡ amount_for_sale core)) in
    let (limit, got, h1) = >>=-eq-ok (multiply (amount_for_sale core) p) _ h in
    let (fits, compared, h2) = >>=-eq-ok (asset_le (amount_for_sale usd) limit) _ h1 in
    elim (Bool-cases fits) [
      | inl within ↦
          let (r, priced, e) =
            >>=-eq-ok (multiply (amount_for_sale usd) p) (λ z. ok (z, amount_for_sale usd))
              (rw within at h2) in
          subst Outcome (ok-injective e)
            (inl (multiply-IsAmount (amount_for_sale usd) p priced, refl))
      | inr beyond ↦
          let (r, priced, e) =
            >>=-eq-ok (multiply (amount_for_sale core) p) (λ z. ok (amount_for_sale core, z))
              (rw beyond at h2) in
          subst Outcome (ok-injective e)
            (inr (multiply-IsAmount (amount_for_sale core) p priced, refl))
    ]

-- If the orders sell amounts, amounts are what they receive.
match_amounts-IsAmount :
    (usd core : LimitOrder) (p : Price) (x y : Asset)
    → IsAmount (amount_for_sale usd)
    → IsAmount (amount_for_sale core)
    → match_amounts usd core p ≡ ok (x, y)
    → IsAmount x × IsAmount y
match_amounts-IsAmount usd core p x y sells sells' h = elim (match_amounts-eq-ok usd core p x y h) [
  | inl (amount, whole) ↦ (amount, subst IsAmount (sym whole) sells)
  | inr (amount, whole) ↦ (subst IsAmount (sym whole) sells', amount)
]

module _ ⦃safe : SafeInt⦄ where
  cancel_order-Keeps :
      (k : ℕ) (o : LimitOrder) (m m' : Market)
      → o.order_id ≢ k
      → cancel_order o m ≡ ok m'
      → Keeps k m m'
  cancel_order-Keeps k o m m' ne h =
      let (m3, moves, e) = cancel_order-eq-ok 0 o m m' h in
      let (same, same') = Moves-Keeps 0 k _ m m3 moves in
      subst (Keeps k m) e (
        find_first-remove_first_other (has_order o.order_id) (has_order k) (apart o.order_id k ne)
              m3.orders
            ∙ same,
        same',
      )

  maybe_cull-Keeps :
      (k : ℕ) (o : LimitOrder) (m m' : Market) (b : Bool)
      → o.order_id ≢ k
      → maybe_cull_small_order o m ≡ ok (m', b)
      → Keeps k m m'
  unfolding maybe_cull_small_order
  maybe_cull-Keeps k o m m' b ne h =
      let (r, got, h1) = >>=-eq-ok (amount_to_receive o) _ h in
      elim (Bool-cases (eqb_ℤ r.amount (pos 0))) [
        | inl small ↦
            let (m1, cancelled, e) =
              >>=-eq-ok (cancel_order o m) (λ x. ok (x, true)) (rw small at h1) in
            subst (λ x. Keeps k m x.0) (ok-injective e) (cancel_order-Keeps k o m m1 ne cancelled)
        | inr large ↦ subst (λ x. Keeps k m x.0) (ok-injective (rw large at h1)) (refl, refl)
      ]

  cull_left-Keeps :
      (k : ℕ) (cull : Bool) (left : LimitOrder) (m m1 m' : Market) (b : Bool)
      → left.order_id ≢ k
      → Keeps k m m1
      → (if cull then maybe_cull_small_order left m1 else ok (m1, false)) ≡ ok (m', b)
      → Keeps k m m'
  cull_left-Keeps k true left m m1 m' b ne (same, same') h =
      let (kept, kept') = maybe_cull-Keeps k left m1 m' b ne h in (kept ∙ same, kept' ∙ same')
  cull_left-Keeps k false left m m1 m' b ne kept h =
      subst (λ x. Keeps k m x.0) (ok-injective h) kept

  settle_order-Keeps :
      (k : ℕ) (o : LimitOrder) (pays : Asset) (cull : Bool) (m m' : Market) (b : Bool)
      → o.order_id ≢ k
      → settle_order o pays cull m ≡ ok (m', b)
      → Keeps k m m'
  settle_order-Keeps k o pays cull m m' b ne h =
      elim (Bool-cases (asset_eq pays (amount_for_sale o))) [
        | inl all ↦
            subst (λ x. Keeps k m x.0) (ok-injective (rw all at h))
              (
                find_first-remove_first_other (has_order o.order_id) (has_order k)
                    (apart o.order_id k ne) m.orders,
                refl,
              )
        | inr part ↦
            let (rest, fits, h1) =
              >>=-eq-ok (safe.check (o.for_sale -ℤ pays.amount)) _ (rw part at h) in
            let left : LimitOrder = record o { for_sale = rest; deferred_fee = pos 0 } in
            let m1 : Market = record m {
              orders = replace_first (has_order o.order_id) left m.orders;
            } in
            cull_left-Keeps k cull left m m1 m' b ne
              (
                find_first-replace_first_other (has_order o.order_id) (has_order k)
                    (apart o.order_id k ne) left m.orders (==_refl o.order_id),
                refl,
              )
              h1
      ]

  fill_order-Keeps :
      (k : ℕ) (o : LimitOrder) (pays : Asset) (n j : ℕ) (cull : Bool) (m m' : Market) (b : Bool)
      → o.order_id ≢ k
      → pos 0 ≤ℤ o.deferred_fee
      → n < 2 ^ 63
      → ((a : TradedAsset) → find_first (is_traded j) m.assets ≡ some a → IsFair a)
      → fill_order o pays (asset (pos n) j) cull m ≡ ok (m', b)
      → Keeps k m m'
  fill_order-Keeps k o pays n j cull m m' b ne positive fits fair h =
      let (m3, moves, same, h7) = fill_order-eq-ok 0 o pays n j cull m m' b positive fits fair h in
      let (kept, kept') = Moves-Keeps 0 k _ m m3 moves in
      let (kept3, kept3') = settle_order-Keeps k o pays _ m3 m' b ne h7 in
      (kept3 ∙ kept, kept3' ∙ kept')

  pub match_steps :
      (usd core : LimitOrder) (p : Price) (m m' : Market) (filled : ℕ)
      → match_orders usd core p m ≡ ok (m', filled)
      → (x : Asset) × (y : Asset) × (m1 : Market) × (b : Bool) × (b' : Bool) × (match_amounts usd
            core p
          ≡ ok (x, y))
        × (fill_order usd y x false m ≡ ok (m1, b))
        × (fill_order core x y true m1 ≡ ok (m', b'))
        × (bit b + 2 * bit b' ≡ filled)
  unfolding match_orders
  match_steps usd core p m m' filled h =
      let ((x, y), amounts, h1) = >>=-eq-ok (match_amounts usd core p) _ h in
      let ((m1, b), first, h2) = >>=-eq-ok (fill_order usd y x false m) _ h1 in
      let ((m2, b'), second, h3) =
        >>=-eq-ok (fill_order core x y true m1) (λ z. ok (z.0, bit b + 2 * bit z.1)) h2 in
      let e = ok-injective h3 in
      (
        x,
        y,
        m1,
        b,
        b',
        amounts,
        first,
        subst (λ z. fill_order core x y true m1 ≡ ok (z, b')) (ap (λ z. z.0) e) second,
        ap (λ z. z.1) e,
      )

  crossed : (v w u x y : ℤ) → v +ℤ y ≡ w +ℤ x → u +ℤ x ≡ v +ℤ y → u ≡ w
  crossed v w u x y e e' = +ℤ_cancel u w x (e' ∙ e)

  -- Two different orders of the market, which sell amounts and have no negative deferred fee, are
  -- matched, and no asset charges more than the whole. When the match returns, the market holds of
  -- every asset what it held, in balances, orders, accumulated fees and pending fees together.
  pub value-match_orders :
      (i : ℕ) (usd core : LimitOrder) (p : Price) (m m' : Market) (filled : ℕ)
      → usd.order_id ≢ core.order_id
      → find_first (has_order usd.order_id) m.orders ≡ some usd
      → find_first (has_order core.order_id) m.orders ≡ some core
      → IsOrder usd
      → IsOrder core
      → All IsFair m.assets
      → match_orders usd core p m ≡ ok (m', filled)
      → value i m' ≡ value i m
  value-match_orders i usd core p m m' filled ne here here' (sells, fee) (sells', fee') fair h =
      let (x, y, m1, b, b', amounts, first, second, e) = match_steps usd core p m m' filled h in
      let ((n, small, x_is), (k, small', y_is)) =
        match_amounts-IsAmount usd core p x y sells sells' amounts in
      let first' = subst (λ z. fill_order usd y z false m ≡ ok (m1, b)) x_is first in
      let second' = subst (λ z. fill_order core x z true m1 ≡ ok (m', b')) y_is second in
      let (kept, kept') =
        fill_order-Keeps core.order_id usd y n x.asset_id false m m1 b ne fee small
          (λ a got. find_first-All (is_traded x.asset_id) IsFair m.assets fair got) first' in
      let fair1 = subst (All IsFair) (sym kept') fair in
      let a =
        value-fill_order i usd y n x.asset_id false m m1 b here fee small
          (λ a got. find_first-All (is_traded x.asset_id) IsFair m.assets fair got) first' in
      let c =
        value-fill_order i core x k y.asset_id true m1 m' b' (kept ∙ here') fee' small'
          (λ a got. find_first-All (is_traded y.asset_id) IsFair m1.assets fair1 got) second' in
      crossed _ _ _ _ _ (a ∙ ap (λ z. value i m +ℤ of_asset i z) (sym x_is))
        (c ∙ ap (λ z. value i m1 +ℤ of_asset i z) (sym y_is))
