-- ===== src/Forks/Ends.antt =====
-- The loops of fetch_branch_from come to an end.
use fin_chain_core.Prelude.{
  ℕ, zero, suc, ◌<◌, ◌≡◌, ◌≢◌, refl, Option, none, some, ◌==◌, ltb, find_first, find_first-All, All,
  Bool-cases, inl, inr, arith,
}
use mathlib.Core.Option.{some-injective}
use fin_chain_core.Prelude.Results.{Result, ok, err, Result-cases}
use fin_chain_core.Forks.{ForkItem, ForkDatabase, has_id}
use fin_chain_core.Forks.Branch.{
  and_then, asserted, lock_prev, go_down, go_back, branches, fetch_branch_from,
}
use fin_chain_core.Forks.Numbered.{Numbered, IsNumbered, lock_prev-Numbered}
use fin_chain_core.Forks.Ancestor.{asserted-eq-ok, go_down-Descent}

and_then-some {ℓ κ} :
    {A : Type ℓ} {B : Type κ} (r : Option (Result A)) (next : A → Option (Result B))
    → r ≢ none
    → ((a : A) → r ≡ some (ok a) → next a ≢ none)
    → and_then r next ≢ none
and_then-some none next some_r some_next h = some_r refl
and_then-some (some (err e)) next some_r some_next h = cc
and_then-some (some (ok a)) next some_r some_next h = some_next a refl h

module _ (num_from_id : ℕ → ℕ) (db : ForkDatabase) (all : IsNumbered num_from_id db) where
  go_down-some :
      (n fuel : ℕ) (x : ForkItem)
      → Numbered num_from_id x
      → x.num < fuel
      → go_down db n fuel x ≢ none
  go_down-some n zero x numbered enough h = omega arith
  go_down-some n (suc k) x numbered enough h = elim (Bool-cases (ltb n x.num)) [
    | inr low ↦ absurd (cc)
    | inl high ↦ elim (Result-cases (lock_prev db x)) [
      | inr (e, raised) ↦ absurd (cc)
      | inl (p, locked) ↦
          let (down, of_p) = lock_prev-Numbered num_from_id db x p all numbered locked in
          and_then-some (go_down db n k p) _ (go_down-some n k p of_p (omega arith)) (λ a at e. cc)
            (rw (high, locked) at h)
    ]
  ]

  go_back-some :
      (fuel : ℕ) (x y : ForkItem)
      → Numbered num_from_id x
      → x.num < fuel
      → go_back db fuel x y ≢ none
  go_back-some zero x y of_x enough h = omega arith
  go_back-some (suc k) x y of_x enough h = elim (Bool-cases (x.previous_id == y.previous_id)) [
    | inl same ↦ absurd (cc)
    | inr apart ↦ elim (Result-cases (lock_prev db x)) [
      | inr (e, raised) ↦ absurd (cc)
      | inl (p, locked) ↦ elim (Result-cases (lock_prev db y)) [
        | inr (e, raised) ↦ absurd (cc)
        | inl (q, locked') ↦
            let (down, of_p) = lock_prev-Numbered num_from_id db x p all of_x locked in
            and_then-some (go_back db k p q) _ (go_back-some k p q of_p (omega arith))
              (λ a at e. cc) (rw (apart, locked, locked') at h)
      ]
    ]
  ]

  branches-some :
      (fuel : ℕ) (x y : ForkItem)
      → Numbered num_from_id x
      → Numbered num_from_id y
      → x.num < fuel
      → y.num < fuel
      → branches db fuel x y ≢ none
  branches-some fuel x y of_x of_y enough enough' =
      and_then-some (go_down db y.num fuel x) _ (go_down-some y.num fuel x of_x enough) (λ a down.
        let (branch, of_a, low, lower, level) =
          go_down-Descent num_from_id db all y.num fuel x a of_x down in
        and_then-some (go_down db a.1.num fuel y) _ (go_down-some a.1.num fuel y of_y enough')
          (λ b down'.
            and_then-some (go_back db fuel a.1 b.1) _ (go_back-some fuel a.1 b.1 of_a (omega arith))
              (λ c back e. cc)))

  -- Where the items of the database have their numbers from their ids and link to ids of one less,
  -- the loops of `fetch_branch_from` end, with a result or an exception, for any two ids: fuel above
  -- the number of every item is enough.
  pub fetch_branch_from-some :
      (fuel first second : ℕ)
      → All (λ (x : ForkItem). x.num < fuel) db.index
      → fetch_branch_from db fuel first second ≢ none
  unfolding fetch_branch_from
  fetch_branch_from-some fuel first second low =
      and_then-some (some (asserted (find_first (has_id first) db.index))) _ (λ e. cc)
        (λ x got.
          and_then-some (some (asserted (find_first (has_id second) db.index))) _ (λ e. cc)
            (λ y got'.
              let here =
                asserted-eq-ok (find_first (has_id first) db.index) (some-injective _ _ got) in
              let here' =
                asserted-eq-ok (find_first (has_id second) db.index) (some-injective _ _ got') in
              branches-some fuel x y
                (find_first-All (has_id first) (Numbered num_from_id) db.index all here)
                (find_first-All (has_id second) (Numbered num_from_id) db.index all here')
                (find_first-All (has_id first) (λ z. z.num < fuel) db.index low here)
                (find_first-All (has_id second) (λ z. z.num < fuel) db.index low here')))
