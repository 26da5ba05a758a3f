-- ===== src/Ledger/Totals.antt =====
-- The sum of an asset over all accounts, and how each update of the balances changes it.
use mathlib.Core.Option.{some-injective}
use fin_chain_core.Prelude.{
  ℕ, ◌≡◌, refl, none, some, [], ◌∷◌, ◌++◌, ◌==◌, arith, inl, inr, if◌then◌else◌, Option-cases,
  Bool-cases, ◌⊎◌, subst, ap, sym, ◌∙◌,
}
use fin_chain_core.Prelude.Int.{
  ℤ, pos, neg, ◌+ℤ◌, ◌≤ℤ◌, ◌<ℤ◌, eqb_ℤ, eqb_ℤ→eq, ltb_ℤ, ltb_ℤ→ge, +ℤ_swap_in, +ℤ_cancel, int_laws,
}
use fin_chain_core.Prelude.Results.{ok, SafeInt, >>=-eq-ok, ok-injective}
use fin_chain_core.Asset.{Asset, asset}
use fin_chain_core.Asset.Laws.{negate-eq-ok, asset_ge-eq-ok}
use fin_chain_core.Ledger.{
  balance_of, AccountBalance, Balances, has_key, find_balance, put_balance, change_balance,
  adjust_balance, new_balance,
}

-- What an entry holds of an asset.
abbrev pub part_of : ℕ → AccountBalance → ℤ
part_of i b = if b.asset_type == i then b.balance else pos 0

-- The sum of the balances of asset i.
abbrev pub total : ℕ → Balances → ℤ
total i [] = pos 0
total i (b ∷ bs) = part_of i b +ℤ total i bs

-- What an amount adds to the sum of asset i.
abbrev pub of_asset : ℕ → Asset → ℤ
of_asset i a = if a.asset_id == i then a.amount else pos 0

total-append : (i : ℕ) (xs ys : Balances) → total i (xs ++ ys) ≡ total i xs +ℤ total i ys
total-append i [] ys = omega int_laws
total-append i (x ∷ xs) ys = rw (total-append i xs ys) (omega int_laws)

pub find_balance-key :
    (o a : ℕ) (bs : Balances) {b : AccountBalance}
    → find_balance o a bs ≡ some b
    → (b.owner ≡ o) × (b.asset_type ≡ a)
unfolding find_balance
find_balance-key o a [] h = cc
find_balance-key o a (x ∷ bs) {b} h = ground (arith, find_balance-key o a bs {b = b})

pub total-put_balance :
    (i o a : ℕ) (old new : AccountBalance) (bs : Balances)
    → find_balance o a bs ≡ some old
    → total i (put_balance o a new bs) +ℤ part_of i old ≡ total i bs +ℤ part_of i new
unfolding find_balance put_balance
total-put_balance i o a old new [] h = cc
total-put_balance i o a old new (x ∷ bs) h = elim (Bool-cases (has_key o a x)) [
  | inl here ↦ rw (here, ← some-injective _ _ (rw here at h)) (omega int_laws)
  | inr later ↦
      rw later
        (+ℤ_swap_in (part_of i x) _ _ _ _ (total-put_balance i o a old new bs (rw later at h)))
]

change_balance-eq-ok :
    ⦃s : SafeInt⦄ (b : AccountBalance) (d : Asset) {b' : AccountBalance}
    → change_balance b d ≡ ok b'
    → b' ≡ record b { balance = b.balance +ℤ d.amount }
change_balance-eq-ok ⦃s⦄ b d {b'} h = grind (arith, s.check_exact (b.balance +ℤ d.amount))

-- A debit leaves the balance at zero or more.
change_balance_covered :
    ⦃s : SafeInt⦄ (b : AccountBalance) (d : Asset) {b' : AccountBalance}
    → change_balance b d ≡ ok b'
    → (pos 0 ≤ℤ d.amount) ⊎ (pos 0 ≤ℤ b.balance +ℤ d.amount)
change_balance_covered ⦃s⦄ b d h = elim (Bool-cases (ltb_ℤ d.amount (pos 0))) [
  | inl debit ↦ inr (grind (int_laws, negate-eq-ok d, asset_ge-eq-ok (balance_of b)))
  | inr credit ↦ inl (ltb_ℤ→ge d.amount (pos 0) credit)
]

-- The ways in which `adjust_balance` returns.
pub data Adjusted (account : ℕ) (d : Asset) (bs : Balances) : Balances → Type 0 where
  unchanged : d.amount ≡ pos 0 → Adjusted account d bs bs
  created :
      find_balance account d.asset_id bs ≡ none
      → pos 0 <ℤ d.amount
      → Adjusted account d bs (bs ++ (new_balance account d ∷ []))
  changed :
      (b : AccountBalance)
      → find_balance account d.asset_id bs ≡ some b
      → (pos 0 ≤ℤ d.amount) ⊎ (pos 0 ≤ℤ b.balance +ℤ d.amount)
      → Adjusted account d bs
          (put_balance account d.asset_id (record b { balance = b.balance +ℤ d.amount }) bs)

pub adjust_balance-Adjusted :
    ⦃s : SafeInt⦄ (account : ℕ) (d : Asset) (bs bs' : Balances)
    → adjust_balance account d bs ≡ ok bs'
    → Adjusted account d bs bs'
unfolding adjust_balance
adjust_balance-Adjusted account d bs bs' h = elim (Bool-cases (eqb_ℤ d.amount (pos 0))) [
  | inl zero_amount ↦
      subst (Adjusted account d bs) (ok-injective (rw zero_amount at h))
        (unchanged (eqb_ℤ→eq _ _ zero_amount))
  | inr some_amount ↦ elim (Option-cases (find_balance account d.asset_id bs)) [
    | inl new ↦
        let e : bs ++ (new_balance account d ∷ []) ≡ bs' = ground arith in
        let credit : pos 0 <ℤ d.amount = ground arith in
        subst (Adjusted account d bs) e (created new credit)
    | inr (b, found) ↦
        let (b', change, put) =
          >>=-eq-ok (change_balance b d) (λ new. ok (put_balance account d.asset_id new bs))
            (rw (some_amount, found) at h) in
        let e =
          ap (λ x. put_balance account d.asset_id x bs) (sym (change_balance-eq-ok b d change)) in
        subst (Adjusted account d bs) (e ∙ ok-injective put)
          (changed b found (change_balance_covered b d change))
  ]
]

pub of_asset-zero : (i : ℕ) (d : Asset) → d.amount ≡ pos 0 → of_asset i d ≡ pos 0
of_asset-zero i d h = ground (arith, h)

part_of-change :
    (i : ℕ) (b : AccountBalance) (d : Asset)
    → b.asset_type ≡ d.asset_id
    → part_of i (record b { balance = b.balance +ℤ d.amount }) ≡ part_of i b +ℤ of_asset i d
part_of-change i b d h = elim (Bool-cases (d.asset_id == i)) [
  | inl same ↦ rw (h, same) refl
  | inr other ↦ rw (h, other) (omega int_laws)
]

cancel_change : (t t' p n : ℤ) → t' +ℤ p ≡ t +ℤ (p +ℤ n) → t' ≡ t +ℤ n
cancel_change t t' p n h =
    let e : t +ℤ (p +ℤ n) ≡ t +ℤ n +ℤ p = omega int_laws in +ℤ_cancel t' (t +ℤ n) p (h ∙ e)

Adjusted-total :
    (i account : ℕ) (d : Asset) (bs : Balances) {bs' : Balances}
    → Adjusted account d bs bs'
    → total i bs' ≡ total i bs +ℤ of_asset i d
Adjusted-total i account d bs (unchanged nil) = rw (of_asset-zero i d nil) (omega int_laws)
Adjusted-total i account d bs (created new credit) = rw total-append (omega int_laws)
Adjusted-total i account d bs (changed b found cover) =
    let new = record b { balance = b.balance +ℤ d.amount } in
    let moved = total-put_balance i account d.asset_id b new bs found in
    cancel_change _ _ (part_of i b) (of_asset i d)
      (rw (part_of-change i b d (find_balance-key account d.asset_id bs found).1) at moved)

-- Adjusting a balance changes the sum of its asset by the amount, and the sum of no other asset.
pub total-adjust_balance :
    ⦃s : SafeInt⦄ (i account : ℕ) (d : Asset) (bs bs' : Balances)
    → adjust_balance account d bs ≡ ok bs'
    → total i bs' ≡ total i bs +ℤ of_asset i d
total-adjust_balance i account d bs bs' h =
    Adjusted-total i account d bs (adjust_balance-Adjusted account d bs bs' h)

-- Amounts of one asset.
pub of_asset-add :
    (i a : ℕ) (x y : ℤ)
    → of_asset i (asset x a) +ℤ of_asset i (asset y a) ≡ of_asset i (asset (x +ℤ y) a)
of_asset-add i a x y = elim (Bool-cases (a == i)) [
  | inl same ↦ rw same refl
  | inr other ↦ rw other (omega int_laws)
]

pub of_asset-neg :
    (i a : ℕ) (x : ℤ) → of_asset i (asset (neg x) a) +ℤ of_asset i (asset x a) ≡ pos 0
of_asset-neg i a x = elim (Bool-cases (a == i)) [
  | inl same ↦ rw same (omega int_laws)
  | inr other ↦ rw other (omega int_laws)
]
