-- ===== src/Transfer/Moves.antt =====
-- What the two adjustments of a transfer do to the balances.
use fin_chain_core.Prelude.{ℕ, ◌≡◌, ◌≢◌, ◌==◌, ◌&&◌, if◌then◌else◌, arith}
use fin_chain_core.Prelude.Int.{ℤ, ◌+ℤ◌, ◌-ℤ◌, neg, int_laws, +ℤ_assoc}
use fin_chain_core.Prelude.Results.{ok, SafeInt, >>=-eq-ok}
use fin_chain_core.Asset.{Asset, asset, negate}
use fin_chain_core.Asset.Laws.{negate-eq-ok}
use fin_chain_core.Ledger.{Balances, get_balance, adjust_balance}
use fin_chain_core.Ledger.Totals.{of_asset-neg, total, total-adjust_balance}
use fin_chain_core.Ledger.Effect.{IsValid, adjust_balance-IsValid, get_balance-adjust_balance}
use fin_chain_core.Transfer.{move_balance}

-- The balances after a move, by way of those after the debit.
pub move_balance-eq-ok :
    ⦃s : SafeInt⦄ (from to : ℕ) (d : Asset) (bs bs' : Balances)
    → move_balance from to d bs ≡ ok bs'
    → (mid : Balances) × (adjust_balance from (asset (neg d.amount) d.asset_id) bs ≡ ok mid)
      × (adjust_balance to d mid ≡ ok bs')
unfolding move_balance
move_balance-eq-ok from to d bs bs' h =
    let (debit, n, rest) = >>=-eq-ok (negate d) _ h in
    let (mid, first, second) = >>=-eq-ok (adjust_balance from debit bs) _ rest in
    let e = negate-eq-ok d debit n in (mid, cc, second)

pub total-move_balance :
    ⦃s : SafeInt⦄ (i from to : ℕ) (d : Asset) (bs bs' : Balances)
    → move_balance from to d bs ≡ ok bs'
    → total i bs' ≡ total i bs
total-move_balance i from to d bs bs' h =
    let (mid, first, second) = move_balance-eq-ok from to d bs bs' h in
    let a = total-adjust_balance i from (asset (neg d.amount) d.asset_id) bs mid first in
    let b = total-adjust_balance i to d mid bs' second in
    rw (b, a, +ℤ_assoc, of_asset-neg i d.asset_id d.amount) (omega int_laws)

pub move_balance-IsValid :
    ⦃s : SafeInt⦄ (from to : ℕ) (d : Asset) (bs bs' : Balances)
    → IsValid bs
    → move_balance from to d bs ≡ ok bs'
    → IsValid bs'
move_balance-IsValid from to d bs bs' v h =
    let (mid, first, second) = move_balance-eq-ok from to d bs bs' h in
    adjust_balance-IsValid to d mid bs'
      (adjust_balance-IsValid from (asset (neg d.amount) d.asset_id) bs mid v first) second

-- The balance of an account after a move between two others, or one of the two.
pub get_balance-move_balance :
    ⦃s : SafeInt⦄ (from to : ℕ) (d : Asset) (bs bs' : Balances) (o a : ℕ)
    → from ≢ to
    → move_balance from to d bs ≡ ok bs'
    → get_balance bs' o a ≡ (
        if (from == o) && (d.asset_id == a)
        then asset ((get_balance bs from d.asset_id).amount -ℤ d.amount) a
        else if (to == o) && (d.asset_id == a)
        then asset ((get_balance bs to d.asset_id).amount +ℤ d.amount) a
        else get_balance bs o a)
get_balance-move_balance from to d bs bs' o a apart h =
    let (mid, first, second) = move_balance-eq-ok from to d bs bs' h in
    let debit = get_balance-adjust_balance from (asset (neg d.amount) d.asset_id) bs mid in
    let e : (x : ℤ) → x +ℤ neg d.amount ≡ x -ℤ d.amount = λ x. omega int_laws in
    rw
      (
        get_balance-adjust_balance to d mid bs' o a second,
        debit o a first,
        debit to d.asset_id first,
        e,
      )
      (ground arith)
