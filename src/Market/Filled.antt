-- ===== src/Market/Filled.antt =====
-- A match fills an order, and placing an order moves value into it.
use fin_chain_core.Prelude.{
  ℕ, ◌+◌, ◌*◌, ◌≡◌, ◌<◌, sym, ap, subst, ◌∙◌, Bool, true, false, not, ◌==◌, ◌||◌, ltb, arith,
  Bool-cases, inl, inr, ◌⊎◌, find_first, sum_of, ◌∷◌,
}
use fin_chain_core.Prelude.Int.{ℤ, pos, ◌+ℤ◌, neg, int_laws}
use fin_chain_core.Prelude.Results.{ok, SafeInt, >>=-eq-ok, ok-injective, fc_assert, found}
use fin_chain_core.Asset.{Asset, asset, asset_eq, sub, negate}
use fin_chain_core.Asset.Laws.{negate-eq-ok}
use fin_chain_core.Price.{Price, price, divide}
use fin_chain_core.Ledger.Totals.{of_asset, of_asset-neg}
use fin_chain_core.Market.{
  LimitOrder, Market, Statistics, is_traded, amount_for_sale, fill_order, pay_market_fees,
  pay_order, pay_deferred_fee, settle_order, hardfork_555_time, modify_statistics, credit,
}
use fin_chain_core.Market.Value.{
  value, in_order, in_pending, Moves-then, modify_statistics-Moves, credit-Moves,
}
use fin_chain_core.Market.Matching.{match_orders, bit, core_in_orders, place_order}
use fin_chain_core.Market.Match.{match_steps, match_amounts-eq-ok}

asset_eq_refl : (a : Asset) → asset_eq a a ≡ true
asset_eq_refl a = ground arith

module _ ⦃safe : SafeInt⦄ where
  settle_order_all :
      (o : LimitOrder) (cull : Bool) (m m' : Market) (b : Bool)
      → settle_order o (amount_for_sale o) cull m ≡ ok (m', b)
      → b ≡ true
  settle_order_all o cull m m' b h =
      ap (λ z. z.1) (sym (ok-injective (rw (asset_eq_refl (amount_for_sale o)) at h)))

  -- An order that pays all that it has for sale is filled.
  fill_order_all :
      (o : LimitOrder) (pays receives : Asset) (cull : Bool) (m m' : Market) (b : Bool)
      → pays ≡ amount_for_sale o
      → fill_order o pays receives cull m ≡ ok (m', b)
      → b ≡ true
  unfolding fill_order
  fill_order_all o pays receives cull m m' b all h =
      let (u, same, h1) =
        >>=-eq-ok (fc_assert ((amount_for_sale o).asset_id == pays.asset_id)) _ h in
      let (u', differ, h2) =
        >>=-eq-ok (fc_assert (not (pays.asset_id == receives.asset_id))) _ h1 in
      let (a, got, h3) =
        >>=-eq-ok (found (find_first (is_traded receives.asset_id) m.assets)) _ h2 in
      let ((m1, fees), paid, h4) = >>=-eq-ok (pay_market_fees a receives o.seller m) _ h3 in
      let (rest, less, h5) = >>=-eq-ok (sub receives fees) _ h4 in
      let (m2, credited, h6) = >>=-eq-ok (pay_order o.seller rest pays m1) _ h5 in
      let (m3, deferred, h7) = >>=-eq-ok (pay_deferred_fee o m2) _ h6 in
      settle_order_all o _ m3 m' b (
        subst
          (λ z. settle_order o z (cull || ltb m.head_block_time hardfork_555_time) m3 ≡ ok (m', b))
          all h7)

  some_bit : (b c : Bool) (n : ℕ) → (b ≡ true) ⊎ (c ≡ true) → bit b + 2 * bit c ≡ n → 0 < n
  some_bit b c n h e = ground arith

  -- When a match of two orders returns, it reports that it has filled the first, the second or both.
  pub match_orders_fills :
      (usd core : LimitOrder) (p : Price) (m m' : Market) (filled : ℕ)
      → match_orders usd core p m ≡ ok (m', filled)
      → 0 < filled
  match_orders_fills usd core p m m' filled h =
      let (x, y, m1, b, b', amounts, first, second, e) = match_steps usd core p m m' filled h in
      some_bit b b' filled
        (elim (match_amounts-eq-ok usd core p x y amounts) [
          | inl (amount, whole) ↦ inl (fill_order_all usd y x false m m1 b whole first)
          | inr (amount, whole) ↦ inr (fill_order_all core x y true m1 m' b' whole second)
        ])
        e

  core_in_orders-pends :
      (i : ℕ) (a : Asset) (s s' : Statistics)
      → core_in_orders a s ≡ ok s'
      → in_pending i s' ≡ in_pending i s +ℤ pos 0
  core_in_orders-pends i a s s' h = elim (Bool-cases (a.asset_id == 0)) [
    | inl core ↦
        let (n, fits, e) =
          >>=-eq-ok (safe.check (s.total_core_in_orders +ℤ a.amount)) _ (rw core at h) in
        subst (λ (x : Statistics). in_pending i x ≡ in_pending i s +ℤ pos 0) (ok-injective e)
          (omega int_laws)
    | inr other ↦
        subst (λ (x : Statistics). in_pending i x ≡ in_pending i s +ℤ pos 0)
          (ok-injective (rw other at h)) (omega int_laws)
  ]

  value-add_order :
      (i : ℕ) (o : LimitOrder) (m : Market)
      → value i (record m { orders = o ∷ m.orders }) ≡ value i m +ℤ in_order i o
  unfolding sum_of
  value-add_order i o m = omega int_laws

  -- Placing an order takes the amount for sale from the balance of the seller: of every asset, the
  -- market holds what it held, and the deferred fee of the order, which was paid before.
  pub value-place_order :
      (i order_id expiration seller : ℕ) (to_sell min_to_receive : Asset) (deferred_fee : ℤ)
      (m m' : Market)
      → place_order order_id expiration seller to_sell min_to_receive deferred_fee m ≡ ok m'
      → value i m' ≡ value i m +ℤ of_asset i (asset deferred_fee 0)
  unfolding place_order divide
  value-place_order i order_id expiration seller to_sell min_to_receive deferred_fee m m' h =
      let (m1, counted, h1) = >>=-eq-ok (modify_statistics seller (core_in_orders to_sell) m) _ h in
      let (debit, negated, h2) = >>=-eq-ok (negate to_sell) _ h1 in
      let (m2, debited, h3) = >>=-eq-ok (credit seller debit m1) _ h2 in
      let (p, priced, h4) = >>=-eq-ok (divide to_sell min_to_receive) _ h3 in
      let first =
        modify_statistics-Moves i seller (core_in_orders to_sell) (pos 0) m m1
          (λ s s' e. core_in_orders-pends i to_sell s s' e) counted in
      let (grown, kept, kept') =
        Moves-then i _ _ m m1 m2 first (credit-Moves i seller debit m1 m2 debited) in
      let (debit_id, debit_amount) = negate-eq-ok to_sell debit negated in
      let debit_is : debit ≡ asset (neg to_sell.amount) to_sell.asset_id =
        λ t. record { amount = debit_amount t; asset_id = debit_id t } in
      let (u, differ, is_price) =
        >>=-eq-ok (fc_assert (not (to_sell.asset_id == min_to_receive.asset_id))) _ priced in
      let o : Price → LimitOrder = λ x. record {
        order_id = order_id;
        expiration = expiration;
        seller = seller;
        for_sale = to_sell.amount;
        sell_price = x;
        deferred_fee = deferred_fee;
      } in
      let held = grown ∙ ap (λ x. value i m +ℤ (pos 0 +ℤ of_asset i x)) debit_is in
      let added = value-add_order i (o (price to_sell min_to_receive)) m2 in
      let nothing = of_asset-neg i to_sell.asset_id to_sell.amount in
      let at_end = placed _ _ _ _ _ _ added held nothing in
      subst (λ (x : Market). value i x ≡ value i m +ℤ of_asset i (asset deferred_fee 0))
        (ap (λ x. record m2 { orders = o x ∷ m2.orders }) (ok-injective is_price) ∙ ok-injective h4)
        at_end
    where
      placed :
          (v' v w d s f : ℤ)
          → v' ≡ v +ℤ (s +ℤ f)
          → v ≡ w +ℤ (pos 0 +ℤ d)
          → d +ℤ s ≡ pos 0
          → v' ≡ w +ℤ f
      placed v' v w d s f e e' z =
          let right : w +ℤ (pos 0 +ℤ d) +ℤ (s +ℤ f) ≡ w +ℤ (d +ℤ s) +ℤ f = omega int_laws in
          e
          ∙ ap (λ (x : ℤ). x +ℤ (s +ℤ f)) e'
          ∙ right
          ∙ ap (λ (x : ℤ). w +ℤ x +ℤ f) z
          ∙ omega int_laws
