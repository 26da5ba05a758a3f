-- ===== src/Forks/Branch.antt =====
-- The way back from two blocks to where their chains fork (fork_database::fetch_branch_from in
-- libraries/chain/fork_database.cpp).
--
-- The loops are on fuel: `none` means that the fuel ran out.
use fin_chain_core.Prelude.{
  ℕ, zero, suc, Option, none, some, List, [], ◌∷◌, ◌++◌, ◌==◌, ltb, if◌then◌else◌, find_first,
}
use fin_chain_core.Prelude.Results.{Result, ok, err, assert_exception}
use fin_chain_core.Forks.{ForkItem, ForkDatabase, has_id}

abbrev pub and_then {ℓ κ} :
    {A : Type ℓ} {B : Type κ} → Option (Result A) → (A → Option (Result B)) → Option (Result B)
and_then none next = none
and_then (some (err e)) next = some (err e)
and_then (some (ok a)) next = next a

-- An item that must be there
abbrev pub asserted : Option ForkItem → Result ForkItem
asserted none = err assert_exception
asserted (some x) = ok x

-- `prev.lock()`, and the assertion after it
abbrev pub lock_prev : ForkDatabase → ForkItem → Result ForkItem
lock_prev db x = elim x.prev [
  | none ↦ err assert_exception
  | some i ↦ asserted (find_first (has_id i) db.index)
]

-- The first two loops: the items that are higher than n, and the item below them
abbrev pub go_down : ForkDatabase → ℕ → ℕ → ForkItem → Option (Result (List ForkItem × ForkItem))
go_down db n zero x = none
go_down db n (suc k) x =
    if ltb n x.num
    then (elim (lock_prev db x) [
      | ok p ↦ and_then (go_down db n k p) (λ r. some (ok (x ∷ r.0, r.1)))
      | err e ↦ some (err e)
    ])
    else some (ok ([], x))

-- The third loop, with the last items that are pushed after it
abbrev pub go_back :
    ForkDatabase → ℕ → ForkItem → ForkItem → Option (Result (List ForkItem × List ForkItem))
go_back db zero x y = none
go_back db (suc k) x y =
    if x.previous_id == y.previous_id then some (ok (x ∷ [], y ∷ [])) else elim (lock_prev db x) [
      | err e ↦ some (err e)
      | ok p ↦ elim (lock_prev db y) [
        | err e ↦ some (err e)
        | ok q ↦ and_then (go_back db k p q) (λ r. some (ok (x ∷ r.0, y ∷ r.1)))
      ]
    ]

abbrev pub branches :
    ForkDatabase → ℕ → ForkItem → ForkItem → Option (Result (List ForkItem × List ForkItem))
branches db fuel x y = and_then (go_down db y.num fuel x) (λ a.
    and_then (go_down db a.1.num fuel y)
      (λ b. and_then (go_back db fuel a.1 b.1) (λ c. some (ok (a.0 ++ c.0, b.0 ++ c.1)))))

-- fork_database::fetch_branch_from
unfoldable pub fetch_branch_from :
    ForkDatabase → ℕ → ℕ → ℕ → Option (Result (List ForkItem × List ForkItem))
fetch_branch_from db fuel first second =
    and_then (some (asserted (find_first (has_id first) db.index))) (λ x.
      and_then (some (asserted (find_first (has_id second) db.index))) (λ y. branches db fuel x y))
