-- ===== src/Prelude/Maps.antt =====
-- Maps with keys, as lists of entries in no particular order (`std::unordered_map`), and functions
-- that are changed at one key or at the keys of a map. A set is a map to the unit type.
use fin_chain_core.Prelude.Tests.{Bool-cases, Option-cases, if◌then◌else◌, ◌==◌, ==_iff, ==_refl}
use Prim.Native.Nat.{ℕ}
use mathlib.Core.Path.{◌≡◌, refl, sym, subst, fun_ext}
use mathlib.Core.Logic.{inl, inr}
use mathlib.Core.Bool.{Bool, true, false}
use mathlib.Core.List.{List, [], ◌∷◌}
use mathlib.Core.Option.{Option, none, some}

-- A type of keys.
pub record Key (K : Type 0) : Type 0 where
  pub same : K → K → Bool
  pub same_refl : (i : K) → same i i ≡ true
  pub same_sound : (i j : K) → same i j ≡ true → i ≡ j

pub ==_sound : (a b : ℕ) → (a == b) ≡ true → a ≡ b
==_sound a b = (==_iff a b).0

instance abbrev pub nat_key : Key ℕ
nat_key = record { same = λ a b. a == b; same_refl = ==_refl; same_sound = ==_sound }

abbrev pub Map {ℓ} : Type 0 → Type ℓ → Type ℓ
Map K V = List (K × V)

module _ {K : Type 0} ⦃key : Key K⦄ where
  -- A key that is the same as one of two different keys is not the other.
  pub other_key : (i j k : K) → key.same k i ≡ false → key.same k j ≡ true → key.same i j ≡ false
  other_key i j k other found = elim (Bool-cases (key.same i j)) [
    | inl e ↦
        let back : key.same k i ≡ true =
          subst (λ x. key.same k x ≡ true) (sym (key.same_sound i j e)) found in
        cc
    | inr e ↦ e
  ]

  same_false : (i j : K) → key.same i j ≡ false → key.same j i ≡ false
  same_false i j other = elim (Bool-cases (key.same j i)) [
    | inl e ↦
        let back : key.same i i ≡ false =
          subst (λ x. key.same i x ≡ false) (key.same_sound j i e) other in
        let self = key.same_refl i in cc
    | inr e ↦ e
  ]

  -- A function with the value v at the key i.
  abbrev pub write {ℓ} : {V : Type ℓ} → K → V → (K → V) → K → V
  write i v f j = if key.same i j then v else f j

  module _ {ℓ} {V : Type ℓ} where
    unfoldable pub lookup : K → Map K V → Option V
    lookup j [] = none
    lookup j ((i, v) ∷ m) = if key.same i j then some v else lookup j m

    -- `m[i] = v`
    unfoldable pub put : K → V → Map K V → Map K V
    put i v [] = (i, v) ∷ []
    put i v ((k, w) ∷ m) = if key.same k i then (i, v) ∷ m else (k, w) ∷ put i v m

    -- `m.erase(i)`
    unfoldable pub erase : K → Map K V → Map K V
    erase i [] = []
    erase i ((k, w) ∷ m) = if key.same k i then erase i m else (k, w) ∷ erase i m

    -- No key has two entries.
    abbrev pub Distinct : Map K V → Type ℓ
    Distinct [] = Unit
    Distinct ((i, v) ∷ m) = (lookup i m ≡ none) × Distinct m

    -- A function overwritten at the keys of a map.
    abbrev pub overlay {κ} : {W : Type κ} → (V → W) → Map K V → (K → W) → K → W
    overlay g m f j = elim (lookup j m) [ none ↦ f j | some v ↦ g v ]

    pub lookup-put :
        (i j : K) (v : V) (m : Map K V)
        → lookup j (put i v m) ≡ (if key.same i j then some v else lookup j m)
    unfolding lookup put
    lookup-put i j v [] = refl
    lookup-put i j v ((k, w) ∷ m) = elim (Bool-cases (key.same k i)) [
      | inl here ↦ elim (Bool-cases (key.same i j)) [
        | inl e ↦ rw (here, e)
        | inr e ↦ rw (here, e, key.same_sound k i here, e)
      ]
      | inr other ↦ elim (Bool-cases (key.same k j)) [
        | inl found ↦ rw (other, found, other_key i j k other found)
        | inr later ↦ rw (other, later) (lookup-put i j v m)
      ]
    ]

    pub lookup-erase :
        (i j : K) (m : Map K V) → lookup j (erase i m) ≡ (if key.same i j then none else lookup j m)
    unfolding lookup erase
    lookup-erase i j [] = elim (Bool-cases (key.same i j)) [ inl e ↦ rw e | inr e ↦ rw e ]
    lookup-erase i j ((k, w) ∷ m) =
        let rest = lookup-erase i j m in
        elim (Bool-cases (key.same k i)) [
          | inl here ↦ elim (Bool-cases (key.same i j)) [
            | inl e ↦ rw (here, e) (rw e at rest)
            | inr e ↦ rw (here, e, key.same_sound k i here, e) (rw e at rest)
          ]
          | inr other ↦ elim (Bool-cases (key.same k j)) [
            | inl found ↦ rw (other, found, other_key i j k other found)
            | inr later ↦ rw (other, later) rest
          ]
        ]

    lookup-put-other :
        (i j : K) (v : V) (m : Map K V)
        → key.same i j ≡ false
        → lookup j m ≡ none
        → lookup j (put i v m) ≡ none
    lookup-put-other i j v m other new = rw (lookup-put i j v m, other) new

    lookup-erase-none : (i j : K) (m : Map K V) → lookup j m ≡ none → lookup j (erase i m) ≡ none
    lookup-erase-none i j m new = elim (Bool-cases (key.same i j)) [
      | inl e ↦ rw (lookup-erase i j m, e)
      | inr e ↦ rw (lookup-erase i j m, e) new
    ]

    pub Distinct-put : (i : K) (v : V) (m : Map K V) → Distinct m → Distinct (put i v m)
    unfolding lookup put
    Distinct-put i v [] d = (refl, tt)
    Distinct-put i v ((k, w) ∷ m) (new, d) = elim (Bool-cases (key.same k i)) [
      | inl here ↦ rw here (subst (λ x. lookup x m ≡ none) (key.same_sound k i here) new, d)
      | inr other ↦
          rw other (lookup-put-other i k v m (same_false k i other) new, Distinct-put i v m d)
    ]

    pub Distinct-erase : (i : K) (m : Map K V) → Distinct m → Distinct (erase i m)
    unfolding lookup erase
    Distinct-erase i [] d = tt
    Distinct-erase i ((k, w) ∷ m) (new, d) = elim (Bool-cases (key.same k i)) [
      | inl here ↦ rw here (Distinct-erase i m d)
      | inr other ↦ rw other (lookup-erase-none i k m new, Distinct-erase i m d)
    ]

    -- Overwriting at the first entry and then at the rest is overwriting at all of them.
    pub overlay-write {κ} :
        {W : Type κ} (g : V → W) (i : K) (v : V) (m : Map K V) (f : K → W)
        → lookup i m ≡ none
        → overlay g m (write i (g v) f) ≡ overlay g ((i, v) ∷ m) f
    unfolding lookup
    overlay-write g i v m f new = fun_ext (λ j. elim (Bool-cases (key.same i j)) [
      | inl here ↦
          rw (overlay, here, subst (λ x. lookup x m ≡ none) (key.same_sound i j here) new, here)
      | inr other ↦ elim (Option-cases (lookup j m)) [
        | inl free ↦ rw (overlay, other, free, other)
        | inr (w, bound) ↦ rw (overlay, other, bound)
      ]
    ])
