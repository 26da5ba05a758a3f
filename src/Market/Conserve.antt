-- ===== src/Market/Conserve.antt =====
-- Filling, matching and cancelling orders conserve every asset.
use fin_chain_core.Prelude.{
  ℕ, ◌^◌, ◌<◌, ◌≡◌, refl, sym, ap, subst, ◌∙◌, Bool, true, false, not, some, ◌==◌, ◌||◌,
  if◌then◌else◌, arith, ltb, Bool-cases, inl, inr, find_first, replace_first, sum_of-replace_first,
  find_first-replace_first, ==_iff, ==_refl,
}
use fin_chain_core.Prelude.Int.{ℤ, pos, ◌+ℤ◌, ◌-ℤ◌, ◌≤ℤ◌, eqb_ℤ, int_laws, +ℤ_cancel, +ℤ_assoc}
use fin_chain_core.Prelude.Results.{
  ok, SafeInt, >>=-eq-ok, ok-injective, fc_assert, found, found-eq-ok, ensure-eq-ok,
}
use fin_chain_core.Asset.{Asset, asset, sub, asset_eq}
use fin_chain_core.Asset.Laws.{sub-eq-ok}
use fin_chain_core.Ledger.Totals.{of_asset}
use fin_chain_core.Market.{
  LimitOrder, Market, TradedAsset, has_order, is_traded, amount_for_sale, amount_to_receive,
  pay_market_fees, pay_order, cancel_order, maybe_cull_small_order, pay_deferred_fee, settle_order,
  fill_order, hardfork_555_time,
}
use fin_chain_core.Market.Fees.{IsFair, calculate_market_fee_lem}
use fin_chain_core.Market.Value.{in_order, value, Moves, Moves-then}
use fin_chain_core.Market.Fill.{
  pay_market_fees-Moves, pay_order-Moves, pay_deferred_fee-Moves, value-remove, value-cancel_order,
}

asset_eq→eq : (a b : Asset) → asset_eq a b ≡ true → a ≡ b
asset_eq→eq a b h =
    let same_id : a.asset_id ≡ b.asset_id = ground arith in
    let same_amount : a.amount ≡ b.amount = ground arith in
    λ t. record { amount = same_amount t; asset_id = same_id t }

together : (v w p d x : ℤ) → v +ℤ p +ℤ d ≡ w +ℤ (x +ℤ d) → v +ℤ p ≡ w +ℤ x
together v w p d x e =
    let right : w +ℤ (x +ℤ d) ≡ w +ℤ x +ℤ d = omega int_laws in
    +ℤ_cancel (v +ℤ p) (w +ℤ x) d (e ∙ right)

-- A difference and what was taken make the whole, in each asset.
of_asset_parts :
    (i k : ℕ) (x y : ℤ)
    → of_asset i (asset y k) +ℤ of_asset i (asset (x -ℤ y) k) ≡ of_asset i (asset x k)
of_asset_parts i k x y = elim (Bool-cases (k == i)) [
  | inl here ↦ rw here (omega int_laws)
  | inr other ↦ rw other (omega int_laws)
]

module _ ⦃safe : SafeInt⦄ where
  of_asset-sub :
      (i : ℕ) (a b c : Asset) → sub a b ≡ ok c → of_asset i b +ℤ of_asset i c ≡ of_asset i a
  of_asset-sub i a b c h =
      let (same, same', less) = sub-eq-ok a b c h in
      let b_is : asset b.amount a.asset_id ≡ b =
        λ t. record { amount = b.amount; asset_id = same t } in
      let c_is : asset (a.amount -ℤ b.amount) a.asset_id ≡ c =
        λ t. record { amount = sym less t; asset_id = sym same' t } in
      subst (λ (x : Asset). of_asset i x +ℤ of_asset i c ≡ of_asset i a) b_is
        (subst
          (λ (x : Asset). of_asset i (asset b.amount a.asset_id) +ℤ of_asset i x ≡ of_asset i a)
          c_is (of_asset_parts i a.asset_id a.amount b.amount))

  value-maybe_cull :
      (i : ℕ) (o : LimitOrder) (m m' : Market) (b : Bool)
      → find_first (has_order o.order_id) m.orders ≡ some o
      → maybe_cull_small_order o m ≡ ok (m', b)
      → value i m' ≡ value i m
  unfolding maybe_cull_small_order
  value-maybe_cull i o m m' b here h =
      let (r, got, h1) = >>=-eq-ok (amount_to_receive o) _ h in
      elim (Bool-cases (eqb_ℤ r.amount (pos 0))) [
        | inl small ↦
            let (m1, cancelled, e) =
              >>=-eq-ok (cancel_order o m) (λ x. ok (x, true)) (rw small at h1) in
            subst (λ x. value i x.0 ≡ value i m) (ok-injective e)
              (value-cancel_order i o m m1 here cancelled)
        | inr large ↦ subst (λ x. value i x.0 ≡ value i m) (ok-injective (rw large at h1)) refl
      ]

  -- An order that is left with less holds less, by what it paid and by its deferred fee.
  value-replace :
      (i : ℕ) (o left : LimitOrder) (m : Market)
      → find_first (has_order o.order_id) m.orders ≡ some o
      → value i (record m { orders = replace_first (has_order o.order_id) left m.orders })
          +ℤ in_order i o
        ≡ value i m +ℤ in_order i left
  value-replace i o left m here =
      regroup _ _ _ _ _ _ _
        (sum_of-replace_first (has_order o.order_id) (in_order i) o left m.orders here)
    where
      regroup :
          (b t f p o' u n : ℤ) → t +ℤ o' ≡ u +ℤ n → b +ℤ t +ℤ f +ℤ p +ℤ o' ≡ b +ℤ u +ℤ f +ℤ p +ℤ n
      regroup b t f p o' u n e =
          let left : b +ℤ t +ℤ f +ℤ p +ℤ o' ≡ b +ℤ f +ℤ p +ℤ (t +ℤ o') = omega int_laws in
          let right : b +ℤ f +ℤ p +ℤ (u +ℤ n) ≡ b +ℤ u +ℤ f +ℤ p +ℤ n = omega int_laws in
          left ∙ ap (λ (x : ℤ). b +ℤ f +ℤ p +ℤ x) e ∙ right

  in_order-left :
      (i : ℕ) (o : LimitOrder) (pays : Asset) (rest : ℤ)
      → (amount_for_sale o).asset_id ≡ pays.asset_id
      → rest ≡ o.for_sale -ℤ pays.amount
      → in_order i (record o { for_sale = rest; deferred_fee = pos 0 })
          +ℤ of_asset i pays
          +ℤ of_asset i (asset o.deferred_fee 0)
        ≡ in_order i o
  in_order-left i o pays rest same e = elim (Bool-cases (pays.asset_id == i)) [
    | inl here ↦ elim (Bool-cases (0 == i)) [
      | inl core ↦ rw (same, here, core, e) (omega int_laws)
      | inr other ↦ rw (same, here, other, e) (omega int_laws)
    ]
    | inr away ↦ elim (Bool-cases (0 == i)) [
      | inl core ↦ rw (same, away, core) (omega int_laws)
      | inr other ↦ rw (same, away, other) (omega int_laws)
    ]
  ]

  settled : (v w l p d o : ℤ) → v +ℤ o ≡ w +ℤ l → l +ℤ p +ℤ d ≡ o → v +ℤ p +ℤ d ≡ w
  settled v w l p d o e e' =
      let left : v +ℤ p +ℤ d +ℤ l ≡ v +ℤ (l +ℤ p +ℤ d) = omega int_laws in
      +ℤ_cancel (v +ℤ p +ℤ d) w l (left ∙ ap (λ (x : ℤ). v +ℤ x) e' ∙ e)

  value-left :
      (i : ℕ) (o : LimitOrder) (pays : Asset) (rest : ℤ) (cull : Bool) (m m' : Market) (b : Bool)
      → find_first (has_order o.order_id) m.orders ≡ some o
      → (amount_for_sale o).asset_id ≡ pays.asset_id
      → rest ≡ o.for_sale -ℤ pays.amount
      → (let left = record o { for_sale = rest; deferred_fee = pos 0 } in
          let m1 = record m { orders = replace_first (has_order o.order_id) left m.orders } in
          if cull then maybe_cull_small_order left m1 else ok (m1, false))
        ≡ ok (m', b)
      → value i m' +ℤ of_asset i pays +ℤ of_asset i (asset o.deferred_fee 0) ≡ value i m
  value-left i o pays rest cull m m' b here same e h =
      let left : LimitOrder = record o { for_sale = rest; deferred_fee = pos 0 } in
      let m1 : Market = record m { orders = replace_first (has_order o.order_id) left m.orders } in
      let there =
        find_first-replace_first (has_order o.order_id) left m.orders here (==_refl o.order_id) in
      let kept =
        settled (value i m1) (value i m) (in_order i left) (of_asset i pays)
          (of_asset i (asset o.deferred_fee 0)) (in_order i o) (value-replace i o left m here)
          (in_order-left i o pays rest same e) in
      culled cull left m1 there h (λ v. v +ℤ of_asset i pays +ℤ of_asset i (asset o.deferred_fee 0))
        kept
    where
      culled :
          (c : Bool) (left : LimitOrder) (m1 : Market)
          → find_first (has_order left.order_id) m1.orders ≡ some left
          → (if c then maybe_cull_small_order left m1 else ok (m1, false)) ≡ ok (m', b)
          → (f : ℤ → ℤ) → f (value i m1) ≡ value i m
          → f (value i m') ≡ value i m
      culled true left m1 there h f kept = ap f (value-maybe_cull i left m1 m' b there h) ∙ kept
      culled false left m1 there h f kept =
          subst (λ x. f (value i x.0) ≡ value i m) (ok-injective h) kept

  value-settle_order :
      (i : ℕ) (o : LimitOrder) (pays : Asset) (cull : Bool) (m m' : Market) (b : Bool)
      → find_first (has_order o.order_id) m.orders ≡ some o
      → (amount_for_sale o).asset_id ≡ pays.asset_id
      → settle_order o pays cull m ≡ ok (m', b)
      → value i m' +ℤ of_asset i pays +ℤ of_asset i (asset o.deferred_fee 0) ≡ value i m
  value-settle_order i o pays cull m m' b here same h =
      elim (Bool-cases (asset_eq pays (amount_for_sale o))) [
        | inl all ↦
            subst
              (λ x.
                value i x.0 +ℤ of_asset i pays +ℤ of_asset i (asset o.deferred_fee 0) ≡ value i m)
              (ok-injective (rw all at h))
              (rw (asset_eq→eq pays (amount_for_sale o) all)
                (+ℤ_assoc _ _ _ ∙ value-remove i o m here))
        | inr part ↦
            let (rest, fits, h1) =
              >>=-eq-ok (safe.check (o.for_sale -ℤ pays.amount)) _ (rw part at h) in
            value-left i o pays rest cull m m' b here same (safe.check_exact _ rest fits) h1
      ]

  -- What a filling has done before the order itself is changed.
  pub fill_order-eq-ok :
      (i : ℕ) (o : LimitOrder) (pays : Asset) (n j : ℕ) (cull : Bool) (m m' : Market) (b : Bool)
      → pos 0 ≤ℤ o.deferred_fee
      → n < 2 ^ 63
      → ((a : TradedAsset) → find_first (is_traded j) m.assets ≡ some a → IsFair a)
      → fill_order o pays (asset (pos n) j) cull m ≡ ok (m', b)
      → (paid : Market) × Moves i
          (of_asset i (asset (pos n) j) +ℤ of_asset i (asset o.deferred_fee 0))
          m
          paid
        × ((amount_for_sale o).asset_id ≡ pays.asset_id)
        × (settle_order o pays (cull || ltb m.head_block_time hardfork_555_time) paid ≡ ok (m', b))
  unfolding fill_order
  fill_order-eq-ok i o pays n j cull m m' b positive fits fair h =
      let receives = asset (pos n) j in
      let (u, same, h1) =
        >>=-eq-ok (fc_assert ((amount_for_sale o).asset_id == pays.asset_id)) _ h in
      let (u', differ, h2) = >>=-eq-ok (fc_assert (not (pays.asset_id == j))) _ h1 in
      let (a, got, h3) = >>=-eq-ok (found (find_first (is_traded j) m.assets)) _ h2 in
      let ((m1, fees), paid, h4) = >>=-eq-ok (pay_market_fees a receives o.seller m) _ h3 in
      let (rest, less, h5) = >>=-eq-ok (sub receives fees) _ h4 in
      let (m2, credited, h6) = >>=-eq-ok (pay_order o.seller rest pays m1) _ h5 in
      let (m3, deferred, h7) = >>=-eq-ok (pay_deferred_fee o m2) _ h6 in
      let fee_lem = calculate_market_fee_lem a n j (fair a (found-eq-ok _ got)) fits in
      let first =
        pay_market_fees-Moves i a receives o.seller m m1 fees
          (subst (λ (x : Asset). pos 0 ≤ℤ x.amount) (sym fee_lem.0) fee_lem.1) paid in
      let second =
        Moves-then i _ _ m m1 m2 first (pay_order-Moves i o.seller rest pays m1 m2 credited) in
      let third =
        Moves-then i _ _ m m2 m3 second (pay_deferred_fee-Moves i o m2 m3 positive deferred) in
      let asset_same = (==_iff _ _).0 (ensure-eq-ok _ _ same) in
      let sum = of_asset-sub i receives fees rest less in
      let d = of_asset i (asset o.deferred_fee 0) in
      (m3, subst (λ x. Moves i x m m3) (ap (λ (x : ℤ). x +ℤ d) sum) third, asset_same, h7)

  -- An order that is in the market, whose deferred fee is not negative, pays an amount and receives
  -- one that an `int64_t` holds, of an asset that charges at most the whole. When the filling
  -- returns, the market holds what it held, with what was received and without what was paid: of
  -- each asset, in the balances, orders, accumulated fees and pending fees together. The fee of the
  -- market and the culling of what is left of the order make no difference.
  pub value-fill_order :
      (i : ℕ) (o : LimitOrder) (pays : Asset) (n j : ℕ) (cull : Bool) (m m' : Market) (b : Bool)
      → find_first (has_order o.order_id) m.orders ≡ some o
      → pos 0 ≤ℤ o.deferred_fee
      → n < 2 ^ 63
      → ((a : TradedAsset) → find_first (is_traded j) m.assets ≡ some a → IsFair a)
      → fill_order o pays (asset (pos n) j) cull m ≡ ok (m', b)
      → value i m' +ℤ of_asset i pays ≡ value i m +ℤ of_asset i (asset (pos n) j)
  value-fill_order i o pays n j cull m m' b here positive fits fair h =
      let (m3, (grown, kept, kept'), same, h7) =
        fill_order-eq-ok i o pays n j cull m m' b positive fits fair h in
      let there = subst (λ os. find_first (has_order o.order_id) os ≡ some o) (sym kept) here in
      let at_end = value-settle_order i o pays _ m3 m' b there same h7 in
      together _ _ _ _ _ (at_end ∙ grown)
