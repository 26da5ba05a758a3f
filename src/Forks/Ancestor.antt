-- ===== src/Forks/Ancestor.antt =====
-- The branches that fetch_branch_from gives.
use fin_chain_core.Prelude.{
  ℕ, zero, suc, ◌≤◌, ◌≡◌, refl, sym, subst, ap, Option, none, some, List, [], ◌∷◌, ◌++◌, ◌==◌, ltb,
  find_first, find_first-All, Bool-cases, inl, inr, arith, ==_iff,
}
use mathlib.Core.Option.{some-injective}
use fin_chain_core.Prelude.Results.{Result, ok, err, ok-injective, Result-cases}
use fin_chain_core.Forks.{ForkItem, ForkDatabase, has_id}
use fin_chain_core.Forks.Branch.{
  and_then, asserted, lock_prev, go_down, go_back, branches, fetch_branch_from,
}
use fin_chain_core.Forks.Numbered.{Numbered, IsNumbered, lock_prev-Numbered}

-- The items from one to another, both included, each linked to the next.
pub data Branch (db : ForkDatabase) : ForkItem → List ForkItem → ForkItem → Type 0 where
  ends : {x : ForkItem} → Branch db x (x ∷ []) x
  goes_on :
      {x p y : ForkItem} {xs : List ForkItem}
      → lock_prev db x ≡ ok p
      → Branch db p xs y
      → Branch db x (x ∷ xs) y

and_then-eq-ok {ℓ κ} :
    {A : Type ℓ} {B : Type κ} (r : Option (Result A)) (next : A → Option (Result B)) {b : B}
    → and_then r next ≡ some (ok b)
    → (a : A) × (r ≡ some (ok a)) × (next a ≡ some (ok b))
and_then-eq-ok none next h = cc
and_then-eq-ok (some (err e)) next h = cc
and_then-eq-ok (some (ok a)) next h = (a, refl, h)

done {ℓ} : {A : Type ℓ} {a b : A} → some (ok a) ≡ some (ok b) → a ≡ b
done h = ok-injective (some-injective _ _ h)

pub asserted-eq-ok : (o : Option ForkItem) {x : ForkItem} → asserted o ≡ ok x → o ≡ some x
asserted-eq-ok none h = cc
asserted-eq-ok (some y) h = ap (λ z. some z) (ok-injective h)

module _ (num_from_id : ℕ → ℕ) (db : ForkDatabase) (all : IsNumbered num_from_id db) where
  -- What a run down from x to n gives.
  abbrev pub Descent : ℕ → ForkItem → List ForkItem × ForkItem → Type 0
  Descent n x (xs, y) =
      ((ys : List ForkItem) (z : ForkItem) → Branch db y ys z → Branch db x (xs ++ ys) z)
      × Numbered num_from_id y
      × (y.num ≤ n)
      × (y.num ≤ x.num)
      × (n ≤ x.num → y.num ≡ n)

  pub go_down-Descent :
      (n fuel : ℕ) (x : ForkItem) (r : List ForkItem × ForkItem)
      → Numbered num_from_id x
      → go_down db n fuel x ≡ some (ok r)
      → Descent n x r
  go_down-Descent n zero x r numbered h = cc
  go_down-Descent n (suc k) x r numbered h = elim (Bool-cases (ltb n x.num)) [
    | inr low ↦
        subst (Descent n x) (done (rw low at h))
          (λ ys z b. b, numbered, ground arith, omega arith, λ e. ground arith)
    | inl high ↦ elim (Result-cases (lock_prev db x)) [
      | inr (e, raised) ↦ absurd (cc)
      | inl (p, locked) ↦
          let (down, of_p) = lock_prev-Numbered num_from_id db x p all numbered locked in
          let (q, rest, e) = and_then-eq-ok (go_down db n k p) _ (rw (high, locked) at h) in
          let (branch, of_q, low, lower, meets) = go_down-Descent n k p q of_p rest in
          subst (Descent n x) (done e) (
            λ ys z b. goes_on locked (branch ys z b),
            of_q,
            low,
            omega (arith, lower, down),
            λ le. meets (ground arith),
          )
    ]
  ]

  -- What the two branches are.
  abbrev Meet : ForkItem → ForkItem → List ForkItem × List ForkItem → Type 0
  Meet x y (xs, ys) =
      (u : ForkItem) × (v : ForkItem) × Branch db x xs u
      × Branch db y ys v
      × (u.previous_id ≡ v.previous_id)
      × (u.num ≡ v.num)

  go_back-Meet :
      (fuel : ℕ) (x y : ForkItem) (r : List ForkItem × List ForkItem)
      → Numbered num_from_id x
      → Numbered num_from_id y
      → x.num ≡ y.num
      → go_back db fuel x y ≡ some (ok r)
      → Meet x y r
  go_back-Meet zero x y r of_x of_y level h = cc
  go_back-Meet (suc k) x y r of_x of_y level h =
      elim (Bool-cases (x.previous_id == y.previous_id)) [
        | inl same ↦
            subst (Meet x y) (done (rw same at h))
              (x, y, ends, ends, (==_iff x.previous_id y.previous_id).0 same, level)
        | inr apart ↦ elim (Result-cases (lock_prev db x)) [
          | inr (e, raised) ↦ absurd (cc)
          | inl (p, locked) ↦ elim (Result-cases (lock_prev db y)) [
            | inr (e, raised) ↦ absurd (cc)
            | inl (q, locked') ↦
                let (down, of_p) = lock_prev-Numbered num_from_id db x p all of_x locked in
                let (down', of_q) = lock_prev-Numbered num_from_id db y q all of_y locked' in
                let (s, rest, e) =
                  and_then-eq-ok (go_back db k p q) _ (rw (apart, locked, locked') at h) in
                let (u, v, b, b', same, still) =
                  go_back-Meet k p q s of_p of_q (omega arith) rest in
                subst (Meet x y) (done e) (
                  u,
                  v,
                  goes_on {y = u} {xs = s.0} locked b,
                  goes_on {y = v} {xs = s.1} locked' b',
                  same,
                  still,
                )
          ]
        ]
      ]

  branches-Meet :
      (fuel : ℕ) (x y : ForkItem) (r : List ForkItem × List ForkItem)
      → Numbered num_from_id x
      → Numbered num_from_id y
      → branches db fuel x y ≡ some (ok r)
      → Meet x y r
  branches-Meet fuel x y r of_x of_y h =
      let (a, down, h1) = and_then-eq-ok (go_down db y.num fuel x) _ h in
      let (b, down', h2) = and_then-eq-ok (go_down db a.1.num fuel y) _ h1 in
      let (c, back, e) = and_then-eq-ok (go_back db fuel a.1 b.1) _ h2 in
      let (branch, of_a, low, lower, level) = go_down-Descent y.num fuel x a of_x down in
      let (branch', of_b, low', lower', level') = go_down-Descent a.1.num fuel y b of_y down' in
      let (u, v, b1, b2, same, still) =
        go_back-Meet fuel a.1 b.1 c of_a of_b (sym (level' low)) back in
      subst (Meet x y) (done e) (u, v, branch c.0 u b1, branch' c.1 v b2, same, still)

  -- Where the items of the database have their numbers from their ids and link to ids of one less,
  -- the two branches that `fetch_branch_from` returns begin at the items of the two ids, follow the
  -- links, and end in two items of the same number that have the same predecessor.
  pub fetch_branch_from-Meet :
      (fuel first second : ℕ) (r : List ForkItem × List ForkItem)
      → fetch_branch_from db fuel first second ≡ some (ok r)
      → (x : ForkItem) × (y : ForkItem) × (find_first (has_id first) db.index ≡ some x)
        × (find_first (has_id second) db.index ≡ some y)
        × Meet x y r
  unfolding fetch_branch_from
  fetch_branch_from-Meet fuel first second r h =
      let (x, got, h1) =
        and_then-eq-ok (some (asserted (find_first (has_id first) db.index))) _ h in
      let (y, got', h2) =
        and_then-eq-ok (some (asserted (find_first (has_id second) db.index))) _ h1 in
      let here = asserted-eq-ok (find_first (has_id first) db.index) (some-injective _ _ got) in
      let here' = asserted-eq-ok (find_first (has_id second) db.index) (some-injective _ _ got') in
      (
        x,
        y,
        here,
        here',
        branches-Meet fuel x y r
            (find_first-All (has_id first) (Numbered num_from_id) db.index all here)
            (find_first-All (has_id second) (Numbered num_from_id) db.index all here') h2,
      )
