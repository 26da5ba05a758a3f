-- ===== src/Ledger/Effect.antt =====
-- What `adjust_balance` does to the balance of one account, and to all the others.
use fin_chain_core.Prelude.{
  ℕ, ◌≡◌, refl, inl, inr, Option, none, some, [], ◌∷◌, ◌++◌, ◌&&◌, ◌==◌, arith, All, Option-cases,
  if◌then◌else◌,
}
use fin_chain_core.Prelude.Int.{ℤ, pos, ◌+ℤ◌, ◌≤ℤ◌, int_laws}
use fin_chain_core.Prelude.Results.{ok, SafeInt}
use fin_chain_core.Asset.{Asset, asset}
use fin_chain_core.Ledger.{
  AccountBalance, Balances, has_key, find_balance, put_balance, get_balance, new_balance,
  adjust_balance, balance_of, found_balance,
}
use fin_chain_core.Ledger.Totals.{
  Adjusted, unchanged, created, changed, adjust_balance-Adjusted, find_balance-key,
}

-- No balance is below zero.
abbrev pub IsValid : Balances → Type 0
IsValid bs = All (λ b. pos 0 ≤ℤ b.balance) bs

find_balance-IsValid :
    (o a : ℕ) (bs : Balances) {b : AccountBalance}
    → IsValid bs
    → find_balance o a bs ≡ some b
    → pos 0 ≤ℤ b.balance
unfolding find_balance
find_balance-IsValid o a [] v h = cc
find_balance-IsValid o a (x ∷ bs) {b} v h = ground (arith, find_balance-IsValid o a bs {b = b} v.1)

put_balance-IsValid :
    (o a : ℕ) (new : AccountBalance) (bs : Balances)
    → IsValid bs
    → pos 0 ≤ℤ new.balance
    → IsValid (put_balance o a new bs)
unfolding put_balance
put_balance-IsValid o a new [] v h = tt
put_balance-IsValid o a new (x ∷ bs) v h = ground (arith, put_balance-IsValid o a new bs v.1 h)

append-IsValid :
    (bs : Balances) (new : AccountBalance)
    → IsValid bs
    → pos 0 ≤ℤ new.balance
    → IsValid (bs ++ (new ∷ []))
append-IsValid [] new v h = (h, tt)
append-IsValid (x ∷ bs) new v h = (v.0, append-IsValid bs new v.1 h)

Adjusted-IsValid :
    (account : ℕ) (d : Asset) (bs : Balances) {bs' : Balances}
    → Adjusted account d bs bs'
    → IsValid bs
    → IsValid bs'
Adjusted-IsValid account d bs (unchanged nil) v = v
Adjusted-IsValid account d bs (created new credit) v =
    append-IsValid bs (new_balance account d) v (omega arith)
Adjusted-IsValid account d bs (changed b found cover) v =
    put_balance-IsValid account d.asset_id (record b { balance = b.balance +ℤ d.amount }) bs v
      (omega (int_laws, cover, find_balance-IsValid account d.asset_id bs v found))

-- If no balance is below zero before `adjust_balance`, none is after it.
pub adjust_balance-IsValid :
    ⦃s : SafeInt⦄ (account : ℕ) (d : Asset) (bs bs' : Balances)
    → IsValid bs
    → adjust_balance account d bs ≡ ok bs'
    → IsValid bs'
adjust_balance-IsValid account d bs bs' v h =
    Adjusted-IsValid account d bs (adjust_balance-Adjusted account d bs bs' h) v

pub find_balance-put_balance :
    (o a o' a' : ℕ) (old new : AccountBalance) (bs : Balances)
    → find_balance o a bs ≡ some old
    → new.owner ≡ o
    → new.asset_type ≡ a
    → find_balance o' a' (put_balance o a new bs)
      ≡ (if (o == o') && (a == a') then some new else find_balance o' a' bs)
unfolding find_balance put_balance
find_balance-put_balance o a o' a' old new [] h p q = cc
find_balance-put_balance o a o' a' old new (x ∷ bs) h p q =
    ground (arith, find_balance-put_balance o a o' a' old new bs)

or_else : Option AccountBalance → Option AccountBalance → Option AccountBalance
or_else none y = y
or_else (some b) y = some b

find_balance-append :
    (o a : ℕ) (new : AccountBalance) (bs : Balances)
    → find_balance o a (bs ++ (new ∷ []))
      ≡ or_else (find_balance o a bs) (if has_key o a new then some new else none)
unfolding find_balance or_else
find_balance-append o a new [] = refl
find_balance-append o a new (x ∷ bs) = ground (arith, find_balance-append o a new bs)

pub get_balance-asset : (bs : Balances) (o a : ℕ) → (get_balance bs o a).asset_id ≡ a
unfolding get_balance
get_balance-asset bs o a = elim (Option-cases (find_balance o a bs)) [
  | inl gone ↦ rw (gone, get_balance)
  | inr (b, found) ↦ rw (found, get_balance) (find_balance-key o a bs found).1
]

add_nothing : (x : ℤ) (d : Asset) → d.amount ≡ pos 0 → x +ℤ d.amount ≡ x
add_nothing x d h = rw h (omega int_laws)

pub get_balance-none :
    (bs : Balances) (o a : ℕ) → find_balance o a bs ≡ none → get_balance bs o a ≡ asset (pos 0) a
unfolding get_balance
get_balance-none bs o a h = rw (h, get_balance)

pub get_balance-some :
    (bs : Balances) (o a : ℕ) (b : AccountBalance)
    → find_balance o a bs ≡ some b
    → get_balance bs o a ≡ balance_of b
unfolding get_balance
get_balance-some bs o a b h = rw (h, get_balance)

created-balance :
    (account : ℕ) (d : Asset) (bs : Balances) (o a : ℕ)
    → find_balance account d.asset_id bs ≡ none
    → found_balance
        (or_else
          (find_balance o a bs)
          (if has_key o a (new_balance account d) then some (new_balance account d) else none))
        a
      ≡ (if (account == o) && (d.asset_id == a)
          then asset ((get_balance bs account d.asset_id).amount +ℤ d.amount) a
          else get_balance bs o a)
unfolding or_else get_balance
created-balance account d bs o a none_yet =
    let start : pos 0 +ℤ d.amount ≡ d.amount = omega int_laws in ground arith

changed-balance :
    (account : ℕ) (d : Asset) (bs : Balances) (o a : ℕ) (b : AccountBalance)
    → find_balance account d.asset_id bs ≡ some b
    → found_balance
        (if (account == o) && (d.asset_id == a)
          then some (record b { balance = b.balance +ℤ d.amount })
          else find_balance o a bs)
        a
      ≡ (if (account == o) && (d.asset_id == a)
          then asset ((get_balance bs account d.asset_id).amount +ℤ d.amount) a
          else get_balance bs o a)
unfolding get_balance
changed-balance account d bs o a b found =
    let key = find_balance-key account d.asset_id bs found in ground arith

Adjusted-get_balance :
    (account : ℕ) (d : Asset) (bs : Balances) (o a : ℕ) {bs' : Balances}
    → Adjusted account d bs bs'
    → get_balance bs' o a ≡ (
        if (account == o) && (d.asset_id == a)
        then asset ((get_balance bs account d.asset_id).amount +ℤ d.amount) a
        else get_balance bs o a)
unfolding get_balance
Adjusted-get_balance account d bs o a (unchanged nil) =
    ground (
      arith,
      get_balance-asset bs o a,
      add_nothing (get_balance bs account d.asset_id).amount d nil,
    )
Adjusted-get_balance account d bs o a (created new credit) =
    rw (find_balance-append, get_balance) (created-balance account d bs o a new)
Adjusted-get_balance account d bs o a (changed b found cover) =
    let key = find_balance-key account d.asset_id bs found in
    let new = record b { balance = b.balance +ℤ d.amount } in
    rw (find_balance-put_balance account d.asset_id o a b new bs found key.0 key.1, get_balance)
      (changed-balance account d bs o a b found)

-- After `adjust_balance` the account has its balance of the asset plus the amount, and every other
-- balance is as it was.
pub get_balance-adjust_balance :
    ⦃s : SafeInt⦄ (account : ℕ) (d : Asset) (bs bs' : Balances) (o a : ℕ)
    → adjust_balance account d bs ≡ ok bs'
    → get_balance bs' o a ≡ (
        if (account == o) && (d.asset_id == a)
        then asset ((get_balance bs account d.asset_id).amount +ℤ d.amount) a
        else get_balance bs o a)
get_balance-adjust_balance account d bs bs' o a h =
    Adjusted-get_balance account d bs o a (adjust_balance-Adjusted account d bs bs' h)
