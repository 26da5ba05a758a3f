-- ===== src/Market/Fill.antt =====
-- What the filling of an order does to the value of an asset in the market.
use fin_chain_core.Prelude.{
  ℕ, ◌≡◌, refl, sym, subst, ◌∙◌, false, some, ◌==◌, Bool-cases, inl, inr, find_first, replace_first,
  remove_first, find_first-has, sum_of-replace_first, sum_of-remove_first, ==_iff,
}
use fin_chain_core.Prelude.Int.{ℤ, pos, ◌+ℤ◌, ◌≤ℤ◌, ltb_ℤ, ltb_ℤ→ge, int_laws, +ℤ_cancel}
use fin_chain_core.Prelude.Results.{ok, SafeInt, >>=-eq-ok, ok-injective, found, found-eq-ok}
use fin_chain_core.Asset.{Asset, asset}
use fin_chain_core.Ledger.Totals.{of_asset, of_asset-zero}
use fin_chain_core.Market.{
  LimitOrder, Market, TradedAsset, DynamicData, has_order, is_data_of, amount_for_sale,
  modify_statistics, credit, pay_fee, count_fee, accumulate, core_left_orders, calculate_market_fee,
  collect_fees, pay_market_fees, pay_order, cancel_order, pay_deferred_fee,
}
use fin_chain_core.Market.Value.{
  in_order, in_fees, value, Moves, Moves-then, Moves-nothing, moved_by, modify_statistics-Moves,
  credit-Moves, core_left_orders-pends, count_fee-pends, pay_fee-pends,
}

module _ ⦃safe : SafeInt⦄ where
  in_fees-accumulate :
      (i : ℕ) (fee : Asset) (d d' : DynamicData)
      → d.of_asset_id ≡ fee.asset_id
      → accumulate fee d ≡ ok d'
      → in_fees i d' ≡ in_fees i d +ℤ of_asset i fee
  in_fees-accumulate i fee d d' same h =
      let (a, fits, h1) = >>=-eq-ok (safe.check (d.accumulated_fees +ℤ fee.amount)) _ h in
      let (f, fits', h2) = >>=-eq-ok (safe.check (d.market_fees +ℤ fee.amount)) _ h1 in
      subst (λ (x : DynamicData). in_fees i x ≡ in_fees i d +ℤ of_asset i fee) (ok-injective h2)
        (rw (safe.check_exact _ a fits) (grown same))
    where
      grown :
          d.of_asset_id ≡ fee.asset_id
          → of_asset i (asset (d.accumulated_fees +ℤ fee.amount) d.of_asset_id)
            ≡ of_asset i (asset d.accumulated_fees d.of_asset_id) +ℤ of_asset i fee
      grown e = elim (Bool-cases (fee.asset_id == i)) [
        | inl here ↦ rw (e, here) refl
        | inr other ↦ rw (e, other) (omega int_laws)
      ]

  collect_fees-Moves :
      (i : ℕ) (fee : Asset) (owner : ℕ) (m m' : Market)
      → collect_fees fee owner m ≡ ok m'
      → Moves i (of_asset i fee) m m'
  collect_fees-Moves i fee owner m m' h =
      let (d, got, h1) =
        >>=-eq-ok (found (find_first (is_data_of fee.asset_id) m.dynamic_data)) _ h in
      let (d', more, h2) = >>=-eq-ok (accumulate fee d) _ h1 in
      let here = found-eq-ok (find_first (is_data_of fee.asset_id) m.dynamic_data) got in
      let same =
        (==_iff d.of_asset_id fee.asset_id).0
          (find_first-has (is_data_of fee.asset_id) m.dynamic_data here) in
      let moved =
        sum_of-replace_first (is_data_of fee.asset_id) (in_fees i) d d' m.dynamic_data here in
      let m1 : Market = record m {
        dynamic_data = replace_first (is_data_of fee.asset_id) d' m.dynamic_data;
      } in
      let first : Moves i (of_asset i fee) m m1 = (
        fees_grow _ _ _ (in_fees i d) (of_asset i fee) _
            (rw (in_fees-accumulate i fee d d' same more) at moved),
        refl,
        refl,
      ) in
      let second =
        modify_statistics-Moves i owner (count_fee fee) (pos 0) m1 m'
          (λ s s' e. count_fee-pends i fee s s' e) h2 in
      let both = Moves-then i (of_asset i fee) (pos 0) m m1 m' first second in
      subst (λ n. Moves i n m m') (omega int_laws) both
    where
      fees_grow : (p t u o n q : ℤ) → t +ℤ o ≡ u +ℤ (o +ℤ n) → p +ℤ t +ℤ q ≡ p +ℤ u +ℤ q +ℤ n
      fees_grow p t u o n q e = rw (moved_by p t u o n e) (omega int_laws)

  no_fee_nothing :
      (i : ℕ) (fee : Asset)
      → pos 0 ≤ℤ fee.amount
      → ltb_ℤ (pos 0) fee.amount ≡ false
      → of_asset i fee ≡ pos 0
  no_fee_nothing i fee some_fee none_fee =
      of_asset-zero i fee (let most = ltb_ℤ→ge (pos 0) fee.amount none_fee in omega int_laws)

  -- The fee is collected, if there is one, and is what the calculation gives.
  pub pay_market_fees-Moves :
      (i : ℕ) (a : TradedAsset) (receives : Asset) (owner : ℕ) (m m' : Market) (fees : Asset)
      → pos 0 ≤ℤ (calculate_market_fee a receives).amount
      → pay_market_fees a receives owner m ≡ ok (m', fees)
      → Moves i (of_asset i fees) m m'
  unfolding pay_market_fees
  pay_market_fees-Moves i a receives owner m m' fees positive h =
      let fee = calculate_market_fee a receives in
      elim (Bool-cases (ltb_ℤ (pos 0) fee.amount)) [
        | inl some_fee ↦
            let (m1, collected, e) =
              >>=-eq-ok (collect_fees fee owner m) (λ x. ok (x, fee)) (rw some_fee at h) in
            subst (λ x. Moves i (of_asset i x.1) m x.0) (ok-injective e)
              (collect_fees-Moves i fee owner m m1 collected)
        | inr no_fee ↦
            subst (λ x. Moves i (of_asset i x.1) m x.0) (ok-injective (rw no_fee at h))
              (rw (no_fee_nothing i fee positive no_fee) (Moves-nothing i m))
      ]

  pub pay_order-Moves :
      (i receiver : ℕ) (receives pays : Asset) (m m' : Market)
      → pay_order receiver receives pays m ≡ ok m'
      → Moves i (of_asset i receives) m m'
  unfolding pay_order
  pay_order-Moves i receiver receives pays m m' h =
      let (m1, left, h1) = >>=-eq-ok (modify_statistics receiver (core_left_orders pays) m) _ h in
      let first =
        modify_statistics-Moves i receiver (core_left_orders pays) (pos 0) m m1
          (λ s s' e. core_left_orders-pends i pays s s' e) left in
      let second = credit-Moves i receiver receives m1 m' h1 in
      subst (λ n. Moves i n m m') (omega int_laws)
        (Moves-then i (pos 0) (of_asset i receives) m m1 m' first second)

  pub pay_deferred_fee-Moves :
      (i : ℕ) (o : LimitOrder) (m m' : Market)
      → pos 0 ≤ℤ o.deferred_fee
      → pay_deferred_fee o m ≡ ok m'
      → Moves i (of_asset i (asset o.deferred_fee 0)) m m'
  pay_deferred_fee-Moves i o m m' positive h = elim (Bool-cases (ltb_ℤ (pos 0) o.deferred_fee)) [
    | inl some_fee ↦
        modify_statistics-Moves i o.seller (pay_fee o.deferred_fee m.cashback_vesting_threshold)
          (of_asset i (asset o.deferred_fee 0)) m m'
          (λ s s' e. pay_fee-pends i o.deferred_fee m.cashback_vesting_threshold s s' e)
          (rw some_fee at h)
    | inr no_fee ↦
        subst (Moves i (of_asset i (asset o.deferred_fee 0)) m) (ok-injective (rw no_fee at h))
          (rw (no_fee_nothing i (asset o.deferred_fee 0) positive no_fee) (Moves-nothing i m))
  ]

  -- An order that is in the market is removed from it.
  pub value-remove :
      (i : ℕ) (o : LimitOrder) (m : Market)
      → find_first (has_order o.order_id) m.orders ≡ some o
      → value i (record m { orders = remove_first (has_order o.order_id) m.orders }) +ℤ in_order i o
        ≡ value i m
  value-remove i o m here =
      regroup _ _ _ _ _ _ (sum_of-remove_first (has_order o.order_id) (in_order i) o m.orders here)
    where
      regroup : (b t f p o' u : ℤ) → t +ℤ o' ≡ u → b +ℤ t +ℤ f +ℤ p +ℤ o' ≡ b +ℤ u +ℤ f +ℤ p
      regroup b t f p o' u e = rw (← e) (omega int_laws)

  -- A cancelling pays what the order held to the seller, and then removes it.
  pub cancel_order-eq-ok :
      (i : ℕ) (o : LimitOrder) (m m' : Market)
      → cancel_order o m ≡ ok m'
      → (paid : Market) × Moves i (in_order i o) m paid
        × (record paid { orders = remove_first (has_order o.order_id) paid.orders } ≡ m')
  unfolding cancel_order
  cancel_order-eq-ok i o m m' h =
      let sold = amount_for_sale o in
      let fee = asset o.deferred_fee 0 in
      let (m1, left, h1) = >>=-eq-ok (modify_statistics o.seller (core_left_orders sold) m) _ h in
      let (m2, credited, h2) = >>=-eq-ok (credit o.seller sold m1) _ h1 in
      let (m3, refunded, h3) = >>=-eq-ok (credit o.seller fee m2) _ h2 in
      let first =
        modify_statistics-Moves i o.seller (core_left_orders sold) (pos 0) m m1
          (λ s s' e. core_left_orders-pends i sold s s' e) left in
      let second = Moves-then i _ _ m m1 m2 first (credit-Moves i o.seller sold m1 m2 credited) in
      let third = Moves-then i _ _ m m2 m3 second (credit-Moves i o.seller fee m2 m3 refunded) in
      (m3, subst (λ n. Moves i n m m3) (omega int_laws) third, ok-injective h3)

  -- Cancelling an order gives the seller what the order held.
  pub value-cancel_order :
      (i : ℕ) (o : LimitOrder) (m m' : Market)
      → find_first (has_order o.order_id) m.orders ≡ some o
      → cancel_order o m ≡ ok m'
      → value i m' ≡ value i m
  value-cancel_order i o m m' here h =
      let (m3, (grown, same, same'), e) = cancel_order-eq-ok i o m m' h in
      let there = subst (λ os. find_first (has_order o.order_id) os ≡ some o) (sym same) here in
      let gone = value-remove i o m3 there in
      subst (λ (x : Market). value i x ≡ value i m) e (+ℤ_cancel _ _ (in_order i o) (gone ∙ grown))
