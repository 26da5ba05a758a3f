-- ===== src/Prelude/Tables.antt =====
-- Indexes of objects as lists: the first entry that has a key is found, and written anew; sums over
-- the entries follow.
use fin_chain_core.Prelude.Tests.{Bool-cases, if◌then◌else◌}
use fin_chain_core.Prelude.Lists.{All}
use fin_chain_core.Prelude.Int.{ℤ, pos, ◌+ℤ◌, +ℤ_swap_in, int_laws}
use mathlib.Core.Path.{◌≡◌, refl, subst}
use mathlib.Core.Logic.{inl, inr}
use mathlib.Core.Bool.{Bool, true, false}
use mathlib.Core.List.{List, [], ◌∷◌, ◌++◌}
use mathlib.Core.Option.{Option, none, some, some-injective}

module _ {ℓ} {A : Type ℓ} (value : A → ℤ) where
  unfoldable pub sum_of : List A → ℤ
  sum_of [] = pos 0
  sum_of (x ∷ xs) = value x +ℤ sum_of xs

  pub sum_of-append : (xs : List A) (x : A) → sum_of (xs ++ (x ∷ [])) ≡ sum_of xs +ℤ value x
  unfolding sum_of
  sum_of-append [] x = omega int_laws
  sum_of-append (y ∷ xs) x = rw (sum_of-append xs x) (omega int_laws)

module _ {ℓ} {A : Type ℓ} (has : A → Bool) where
  unfoldable pub find_first : List A → Option A
  find_first [] = none
  find_first (x ∷ xs) = if has x then some x else find_first xs

  unfoldable pub replace_first : A → List A → List A
  replace_first new [] = []
  replace_first new (x ∷ xs) = if has x then new ∷ xs else x ∷ replace_first new xs

  -- `remove`: the first entry that has the key is gone.
  unfoldable pub remove_first : List A → List A
  remove_first [] = []
  remove_first (x ∷ xs) = if has x then xs else x ∷ remove_first xs

  pub find_first-has : (xs : List A) {x : A} → find_first xs ≡ some x → has x ≡ true
  unfolding find_first
  find_first-has [] h = cc
  find_first-has (y ∷ xs) {x} h = elim (Bool-cases (has y)) [
    | inl here ↦ subst (λ z. has z ≡ true) (some-injective _ _ (rw here at h)) here
    | inr later ↦ find_first-has xs (rw later at h)
  ]

  pub find_first-All {κ} :
      (P : A → Type κ) (xs : List A) {x : A} → All P xs → find_first xs ≡ some x → P x
  unfolding find_first
  find_first-All P [] all h = cc
  find_first-All P (y ∷ xs) (p, all) h = elim (Bool-cases (has y)) [
    | inl here ↦ subst P (some-injective _ _ (rw here at h)) p
    | inr later ↦ find_first-All P xs all (rw later at h)
  ]

  pub find_first-replace_first :
      (new : A) (xs : List A) {old : A}
      → find_first xs ≡ some old
      → has new ≡ true
      → find_first (replace_first new xs) ≡ some new
  unfolding find_first replace_first
  find_first-replace_first new [] h key = cc
  find_first-replace_first new (x ∷ xs) h key = elim (Bool-cases (has x)) [
    | inl here ↦ rw (here, key)
    | inr later ↦ rw (later, later) (find_first-replace_first new xs (rw later at h) key)
  ]

  module _ (value : A → ℤ) where
    pub sum_of-replace_first :
        (old new : A) (xs : List A)
        → find_first xs ≡ some old
        → sum_of value (replace_first new xs) +ℤ value old ≡ sum_of value xs +ℤ value new
    unfolding sum_of find_first replace_first
    sum_of-replace_first old new [] h = cc
    sum_of-replace_first old new (x ∷ xs) h = elim (Bool-cases (has x)) [
      | inl here ↦ rw (here, ← some-injective _ _ (rw here at h)) (omega int_laws)
      | inr later ↦
          rw later (+ℤ_swap_in (value x) _ _ _ _ (sum_of-replace_first old new xs (rw later at h)))
    ]

    pub sum_of-remove_first :
        (old : A) (xs : List A)
        → find_first xs ≡ some old
        → sum_of value (remove_first xs) +ℤ value old ≡ sum_of value xs
    unfolding sum_of find_first remove_first
    sum_of-remove_first old [] h = cc
    sum_of-remove_first old (x ∷ xs) h = elim (Bool-cases (has x)) [
      | inl here ↦ rw (here, ← some-injective _ _ (rw here at h)) (omega int_laws)
      | inr later ↦ rw (later, ← sum_of-remove_first old xs (rw later at h)) (omega int_laws)
    ]

-- A change at one key keeps what another key finds.
module _ {ℓ} {A : Type ℓ} (has other : A → Bool)
    (apart : (x : A) → has x ≡ true → other x ≡ false) where
  pub find_first-replace_first_other :
      (new : A) (xs : List A)
      → has new ≡ true
      → find_first other (replace_first has new xs) ≡ find_first other xs
  unfolding find_first replace_first
  find_first-replace_first_other new [] key = refl
  find_first-replace_first_other new (x ∷ xs) key =
      let rest = find_first-replace_first_other new xs key in
      elim (Bool-cases (has x)) [
        | inl here ↦ rw (here, apart new key, apart x here)
        | inr later ↦ elim (Bool-cases (other x)) [
          | inl found ↦ rw (later, found)
          | inr not_found ↦ rw (later, not_found) rest
        ]
      ]

  pub find_first-remove_first_other :
      (xs : List A) → find_first other (remove_first has xs) ≡ find_first other xs
  unfolding find_first remove_first
  find_first-remove_first_other [] = refl
  find_first-remove_first_other (x ∷ xs) =
      let rest = find_first-remove_first_other xs in
      elim (Bool-cases (has x)) [
        | inl here ↦ rw (here, apart x here)
        | inr later ↦ elim (Bool-cases (other x)) [
          | inl found ↦ rw (later, found)
          | inr not_found ↦ rw (later, not_found) rest
        ]
      ]
