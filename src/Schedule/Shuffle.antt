-- ===== src/Schedule/Shuffle.antt =====
-- The shuffled witnesses are the active witnesses in another order.
use mathlib.Core.List.{Perm}
use mathlib.Core.List.Perm
use mathlib.Core.Option.{some-injective}
use native.Mathlib.Nat.{mod-lt}
use fin_chain_core.Prelude.{
  ℕ, zero, suc, true, false, ◌<◌, ◌∙◌, refl, ap, ◌+◌, ◌%◌, ◌*◌, ◌^◌, ◌≡◌, sym, subst, none, some,
  Option, List, [], ◌∷◌, ◌==◌, length, get_elem?, arith,
}
use fin_chain_core.Prelude.Words.{u64_mod}
use fin_chain_core.Schedule.{
  ChainState, set_elem, swap, random_of, shuffle, update_witness_schedule,
}

-- An element of the list is exchanged with one outside it.
set_elem-Perm :
    (a : ℕ) (xs : List ℕ) (j : ℕ) {b : ℕ}
    → get_elem? xs j ≡ some b
    → Perm (b ∷ set_elem xs j a) (a ∷ xs)
set_elem-Perm a [] j h = cc
set_elem-Perm a (x ∷ xs) zero {b} h =
    subst (λ z. Perm (b ∷ a ∷ xs) (a ∷ z ∷ xs)) (sym (some-injective _ _ h)) (Perm.swap a b xs)
set_elem-Perm a (x ∷ xs) (suc j) {b} h =
    Perm.trans (Perm.swap x b (set_elem xs j a))
      (Perm.trans (Perm.cons x (set_elem-Perm a xs j h)) (Perm.swap a x xs))

set_elem-set_elem-Perm :
    (xs : List ℕ) (i j : ℕ) {a b : ℕ}
    → get_elem? xs i ≡ some a
    → get_elem? xs j ≡ some b
    → Perm (set_elem (set_elem xs j a) i b) xs
set_elem-set_elem-Perm [] i j h h' = cc
set_elem-set_elem-Perm (x ∷ xs) zero zero {a} {b} h h' =
    subst (λ z. Perm (z ∷ xs) (x ∷ xs)) (some-injective _ _ h') Perm.rfl
set_elem-set_elem-Perm (x ∷ xs) zero (suc j) {a} {b} h h' =
    subst (λ z. Perm (b ∷ set_elem xs j a) (z ∷ xs)) (sym (some-injective _ _ h))
      (set_elem-Perm a xs j h')
set_elem-set_elem-Perm (x ∷ xs) (suc i) zero {a} {b} h h' =
    subst (λ z. Perm (a ∷ set_elem xs i b) (z ∷ xs)) (sym (some-injective _ _ h'))
      (set_elem-Perm b xs i h)
set_elem-set_elem-Perm (x ∷ xs) (suc i) (suc j) h h' =
    Perm.cons x (set_elem-set_elem-Perm xs i j h h')

length-set_elem : (xs : List ℕ) (i x : ℕ) → length (set_elem xs i x) ≡ length xs
length-set_elem [] i x = refl
length-set_elem (y ∷ ys) zero x = refl
length-set_elem (y ∷ ys) (suc i) x = ap suc (length-set_elem ys i x)

get_elem?-some : (xs : List ℕ) (i : ℕ) → i < length xs → (a : ℕ) × (get_elem? xs i ≡ some a)
get_elem?-some [] i h = absurd (omega arith)
get_elem?-some (x ∷ xs) zero h = (x, refl)
get_elem?-some (x ∷ xs) (suc i) h = get_elem?-some xs i (omega arith)

-- A swap in range keeps the length and the elements.
swap-Perm :
    (xs : List ℕ) (i j : ℕ)
    → i < length xs
    → j < length xs
    → (ys : List ℕ) × (swap xs i j ≡ some ys) × (length ys ≡ length xs) × Perm ys xs
swap-Perm xs i j hi hj =
    let (a, at_i) = get_elem?-some xs i hi in
    let (b, at_j) = get_elem?-some xs j hj in
    (
      set_elem (set_elem xs j a) i b,
      rw (at_i, at_j, swap) refl,
      length-set_elem (set_elem xs j a) i b ∙ length-set_elem xs j a,
      set_elem-set_elem-Perm xs i j at_i at_j,
    )

-- The random positions are in range, as they are taken below the number of positions that are left.
shuffle-Perm :
    (now_hi k i : ℕ) (xs : List ℕ)
    → i + k ≡ length xs
    → (ys : List ℕ) × (shuffle now_hi k i xs ≡ some ys) × Perm ys xs
shuffle-Perm now_hi zero i xs h = (xs, refl, Perm.rfl)
shuffle-Perm now_hi (suc k) i xs h =
    let below : random_of now_hi i % suc k < suc k = mod-lt (random_of now_hi i) (omega arith) in
    let j = i + random_of now_hi i % suc k in
    let (ys, swapped, same, perm) = swap-Perm xs i j (omega arith) (omega (arith, below, h)) in
    let (zs, rest, perm') = shuffle-Perm now_hi k (suc i) ys (omega (arith, h, same)) in
    let rounds = λ (o : Option (List ℕ)). elim o as (λ x. Option (List ℕ)) [
      | none ↦ none
      | some ws ↦ shuffle now_hi k (suc i) ws
    ] in
    (zs, ap rounds swapped ∙ rest, Perm.trans perm' perm)

-- With active witnesses, at the first block of a round, the update of the schedule stays in the
-- range of its vector, and the witnesses that are scheduled afterwards are the active witnesses in
-- some order: each as many times as it is active.
pub update_witness_schedule-Perm :
    (s : ChainState)
    → 0 < length s.active_witnesses
    → s.head_block_number % length s.active_witnesses ≡ 0
    → (s' : ChainState) × (update_witness_schedule s ≡ some s')
      × Perm s'.current_shuffled_witnesses s.active_witnesses
unfolding update_witness_schedule
update_witness_schedule-Perm s active round =
    let some_active : (length s.active_witnesses == 0) ≡ false = ground arith in
    let first : (s.head_block_number % length s.active_witnesses == 0) ≡ true = ground arith in
    let (ws, went, perm) =
      shuffle-Perm ((s.time * 2 ^ 32) % u64_mod) (length s.active_witnesses) 0 s.active_witnesses
        (omega arith) in
    (record s { current_shuffled_witnesses = ws }, rw (some_active, first, went) refl, perm)
