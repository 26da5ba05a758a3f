-- ===== src/Market/Value.antt =====
-- Where the value of an asset is in the market: in the balances of the accounts, in the orders with
-- the fees that they have deferred, in the fees that the asset has accumulated, and in the fees that
-- are pending for the accounts.
use fin_chain_core.Prelude.{
  ℕ, ◌≡◌, refl, ap, subst, ◌∙◌, ◌==◌, Bool-cases, Option-cases, inl, inr, find_first, sum_of,
  sum_of-replace_first,
}
use fin_chain_core.Prelude.Int.{ℤ, pos, ◌+ℤ◌, ◌-ℤ◌, ltb_ℤ, int_laws, +ℤ_cancel, +ℤ_assoc}
use fin_chain_core.Prelude.Maps.{nat_key, lookup}
use fin_chain_core.Prelude.Results.{
  Result, ok, SafeInt, >>=-eq-ok, ok-injective, found, found-eq-ok,
}
use fin_chain_core.Asset.{Asset, asset}
use fin_chain_core.Ledger.{adjust_balance}
use fin_chain_core.Ledger.Totals.{total, of_asset, total-adjust_balance}
use fin_chain_core.Market.{
  LimitOrder, Market, DynamicData, Statistics, is_account, amount_for_sale, modify_statistics,
  credit, pay_fee, count_fee, core_left_orders,
}

abbrev pub in_order : ℕ → LimitOrder → ℤ
in_order i o = of_asset i (amount_for_sale o) +ℤ of_asset i (asset o.deferred_fee 0)

abbrev pub in_fees : ℕ → DynamicData → ℤ
in_fees i d = of_asset i (asset d.accumulated_fees d.of_asset_id)

abbrev pub in_pending : ℕ → Statistics → ℤ
in_pending i s = of_asset i (asset (s.pending_fees +ℤ s.pending_vested_fees) 0)

abbrev pub value : ℕ → Market → ℤ
value i m =
    total i m.balances
    +ℤ sum_of (in_order i) m.orders
    +ℤ sum_of (in_fees i) m.dynamic_data
    +ℤ sum_of (in_pending i) m.statistics

-- The value of asset i has grown by n, and the orders and the assets are as they were.
abbrev pub Moves : ℕ → ℤ → Market → Market → Type 0
Moves i n m m' = (value i m' ≡ value i m +ℤ n) × (m'.orders ≡ m.orders) × (m'.assets ≡ m.assets)

pub Moves-then :
    (i : ℕ) (a b : ℤ) (m m1 m2 : Market) → Moves i a m m1 → Moves i b m1 m2 → Moves i (a +ℤ b) m m2
Moves-then i a b m m1 m2 (v, o, k) (v', o', k') =
    (v' ∙ ap (λ (x : ℤ). x +ℤ b) v ∙ +ℤ_assoc (value i m) a b, o' ∙ o, k' ∙ k)

pub Moves-nothing : (i : ℕ) (m : Market) → Moves i (pos 0) m m
Moves-nothing i m = (omega int_laws, refl, refl)

pub moved_by : (p t u o n : ℤ) → t +ℤ o ≡ u +ℤ (o +ℤ n) → p +ℤ t ≡ p +ℤ u +ℤ n
moved_by p t u o n h =
    let e : u +ℤ (o +ℤ n) ≡ u +ℤ n +ℤ o = omega int_laws in
    rw (+ℤ_cancel t (u +ℤ n) o (h ∙ e)) (omega int_laws)

pending_more :
    (i : ℕ) (p v fee : ℤ)
    → of_asset i (asset (p +ℤ fee +ℤ v) 0)
      ≡ of_asset i (asset (p +ℤ v) 0) +ℤ of_asset i (asset fee 0)
pending_more i p v fee = elim (Bool-cases (0 == i)) [
  | inl core ↦ rw core (omega int_laws)
  | inr other ↦ rw other (omega int_laws)
]

pending_vested_more :
    (i : ℕ) (p v fee : ℤ)
    → of_asset i (asset (p +ℤ (v +ℤ fee)) 0)
      ≡ of_asset i (asset (p +ℤ v) 0) +ℤ of_asset i (asset fee 0)
pending_vested_more i p v fee = elim (Bool-cases (0 == i)) [
  | inl core ↦ rw core (omega int_laws)
  | inr other ↦ rw other (omega int_laws)
]

pub modify_statistics-Moves :
    (i account : ℕ) (change : Statistics → Result Statistics) (n : ℤ) (m m' : Market)
    → ((s s' : Statistics) → change s ≡ ok s' → in_pending i s' ≡ in_pending i s +ℤ n)
    → modify_statistics account change m ≡ ok m'
    → Moves i n m m'
modify_statistics-Moves i account change n m m' pends h =
    let (s, got, h1) = >>=-eq-ok (found (find_first (is_account account) m.statistics)) _ h in
    let (s', changed, h2) = >>=-eq-ok (change s) _ h1 in
    let here = found-eq-ok (find_first (is_account account) m.statistics) got in
    let moved = sum_of-replace_first (is_account account) (in_pending i) s s' m.statistics here in
    subst (Moves i n m) (ok-injective h2)
      (moved_by _ _ _ (in_pending i s) n (rw (pends s s' changed) at moved), refl, refl)

module _ ⦃safe : SafeInt⦄ where
  pub credit-Moves :
      (i account : ℕ) (a : Asset) (m m' : Market)
      → credit account a m ≡ ok m'
      → Moves i (of_asset i a) m m'
  credit-Moves i account a m m' h =
      let (bs, adjusted, h1) = >>=-eq-ok (adjust_balance account a m.balances) _ h in
      let moved = total-adjust_balance i account a m.balances bs adjusted in
      subst (Moves i (of_asset i a) m) (ok-injective h1) (rw moved (omega int_laws), refl, refl)

  pub core_left_orders-pends :
      (i : ℕ) (a : Asset) (s s' : Statistics)
      → core_left_orders a s ≡ ok s'
      → in_pending i s' ≡ in_pending i s +ℤ pos 0
  core_left_orders-pends i a s s' h = elim (Bool-cases (a.asset_id == 0)) [
    | inl core ↦
        let (n, fits, e) =
          >>=-eq-ok (safe.check (s.total_core_in_orders -ℤ a.amount)) _ (rw core at h) in
        subst (λ (x : Statistics). in_pending i x ≡ in_pending i s +ℤ pos 0) (ok-injective e)
          (omega int_laws)
    | inr other ↦
        subst (λ (x : Statistics). in_pending i x ≡ in_pending i s +ℤ pos 0)
          (ok-injective (rw other at h)) (omega int_laws)
  ]

  pub count_fee-pends :
      (i : ℕ) (a : Asset) (s s' : Statistics)
      → count_fee a s ≡ ok s'
      → in_pending i s' ≡ in_pending i s +ℤ pos 0
  count_fee-pends i a s s' h = elim (Option-cases (lookup a.asset_id s.paid_market_fees)) [
    | inl first ↦
        subst (λ (x : Statistics). in_pending i x ≡ in_pending i s +ℤ pos 0)
          (ok-injective (rw (count_fee, first) at h)) (omega int_laws)
    | inr (n, bound) ↦
        let (t, fits, e) = >>=-eq-ok (safe.check (n +ℤ a.amount)) _ (rw (count_fee, bound) at h) in
        subst (λ (x : Statistics). in_pending i x ≡ in_pending i s +ℤ pos 0) (ok-injective e)
          (omega int_laws)
  ]

  pub pay_fee-pends :
      (i : ℕ) (fee threshold : ℤ) (s s' : Statistics)
      → pay_fee fee threshold s ≡ ok s'
      → in_pending i s' ≡ in_pending i s +ℤ of_asset i (asset fee 0)
  unfolding pay_fee
  pay_fee-pends i fee threshold s s' h = elim (Bool-cases (ltb_ℤ threshold fee)) [
    | inl vests ↦
        let (n, fits, e) = >>=-eq-ok (safe.check (s.pending_fees +ℤ fee)) _ (rw vests at h) in
        subst (λ (x : Statistics). in_pending i x ≡ in_pending i s +ℤ of_asset i (asset fee 0))
          (ok-injective e)
          (rw (safe.check_exact _ n fits) (pending_more i s.pending_fees s.pending_vested_fees fee))
    | inr free ↦
        let (n, fits, e) = >>=-eq-ok (safe.check (s.pending_vested_fees +ℤ fee)) _ (rw free at h) in
        subst (λ (x : Statistics). in_pending i x ≡ in_pending i s +ℤ of_asset i (asset fee 0))
          (ok-injective e)
          (rw (safe.check_exact _ n fits)
            (pending_vested_more i s.pending_fees s.pending_vested_fees fee))
  ]
