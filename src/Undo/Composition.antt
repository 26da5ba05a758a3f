-- ===== src/Undo/Composition.antt =====
-- The state that a merge makes is the composition of the two.
use fin_chain_core.Prelude.{
  ℕ, ◌≤◌, ◌<◌, ◌≡◌, refl, sym, ap, ◌∙◌, subst, false, Option, none, some, [], ◌∷◌, Bool-cases,
  Option-cases, inl, inr, arith,
}
use fin_chain_core.Prelude.Maps.{Key, Map, nat_key, lookup, Distinct, lookup-put, lookup-erase}
use fin_chain_core.Undo.{ObjectId, id_key, same_id, same_id_refl, UndoState, note_modify}
use fin_chain_core.Undo.Overlay.{IsDistinct}
use fin_chain_core.Undo.Tracking.{
  Entry, entry, modified_entry, entry-note_modify, entry-note_modify_other,
}
use fin_chain_core.Undo.Invariant.{Tracks, untouched, created, changed, deleted}
use fin_chain_core.Undo.Merge.{
  each, merge_old, merge_new, merge_next_id, merge_removed, merge_states,
}

-- A function taken if there is an argument for it.
abbrev pub take_up {ℓ κ} : {U : Type ℓ} {W : Type κ} → (U → W → W) → Option U → W → W
take_up g none w = w
take_up g (some u) w = g u w

-- A part of the state that a loop changes only at the key j.
module _ {ℓ κ μ} {K : Type 0} ⦃key : Key K⦄ {U : Type ℓ} {A : Type κ} {W : Type μ} (view : A → W)
    (j : K) (f : K → U → A → A) (g : U → W → W)
    (here : (u : U) (a : A) → view (f j u a) ≡ g u (view a))
    (other : (i : K) (u : U) (a : A) → key.same i j ≡ false → view (f i u a) ≡ view a) where
  pub each_view :
      (m : Map K U) (a : A) → Distinct m → view (each f m a) ≡ take_up g (lookup j m) (view a)
  unfolding lookup
  each_view [] a d = refl
  each_view ((i, u) ∷ m) a (new, d) =
      let rest = each_view m (f i u a) d in
      elim (Bool-cases (key.same i j)) [
        | inl same ↦
            let at_j = key.same_sound i j same in
            let free = subst (λ x. lookup x m ≡ none) at_j new in
            let first = subst (λ x. view (f x u a) ≡ g u (view a)) (sym at_j) (here u a) in
            rw same ((rw free at rest) ∙ first)
        | inr different ↦ rw different (rest ∙ ap (take_up g (lookup j m)) (other i u a different))
      ]

pub each_keeps {ℓ κ μ} :
    {K : Type 0} {U : Type ℓ} {A : Type κ} (P : A → Type μ) (f : K → U → A → A)
    → ((i : K) (u : U) (a : A) → P a → P (f i u a))
    → (m : Map K U) (a : A) → P a
    → P (each f m a)
each_keeps P f step [] a p = p
each_keeps P f step ((i, u) ∷ m) a p = each_keeps P f step m (f i u a) (step i u a p)

module _ {ℓ} {V : Type ℓ} where
  pub merge_old_lem : (i : ObjectId) (v : V) (s : UndoState V) → note_modify i v s ≡ merge_old i v s
  unfolding note_modify merge_old
  merge_old_lem i v s = refl

  abbrev pub new_entry : Unit {0} → Entry V → Entry V
  new_entry u e = record e { fresh = some u }

  abbrev pub gone_entry : V → Entry V → Entry V
  gone_entry v e = elim e.fresh [
    | some u ↦ record e { fresh = none }
    | none ↦ elim e.old [
      | some w ↦ record e { old = none; gone = some w }
      | none ↦ record e { gone = some v }
    ]
  ]

  entry-merge_removed :
      (i : ObjectId) (v : V) (s : UndoState V)
      → entry i (merge_removed i v s) ≡ gone_entry v (entry i s)
  unfolding merge_removed
  entry-merge_removed i v s = elim (Option-cases (lookup i s.new_ids)) [
    | inr (u, new) ↦ rw (merge_removed, new, entry, lookup-erase i i s.new_ids, same_id_refl i)
    | inl not_new ↦ elim (Option-cases (lookup i s.old_values)) [
      | inr (w, old) ↦ rw (
        merge_removed,
        not_new,
        old,
        entry,
        lookup-erase i i s.old_values,
        lookup-put i i w s.removed,
        same_id_refl i,
        not_new,
      )
      | inl not_old ↦ rw (
        merge_removed,
        not_new,
        not_old,
        entry,
        lookup-put i i v s.removed,
        same_id_refl i,
        not_new,
        not_old,
      )
    ]
  ]

  entry-merge_removed_other :
      (i j : ObjectId) (v : V) (s : UndoState V)
      → same_id i j ≡ false
      → entry j (merge_removed i v s) ≡ entry j s
  unfolding merge_removed
  entry-merge_removed_other i j v s other = elim (Option-cases (lookup i s.new_ids)) [
    | inr (u, new) ↦ rw (merge_removed, new, entry, lookup-erase i j s.new_ids, other)
    | inl not_new ↦ elim (Option-cases (lookup i s.old_values)) [
      | inr (w, old) ↦ rw (
        merge_removed,
        not_new,
        old,
        entry,
        lookup-erase i j s.old_values,
        lookup-put i j w s.removed,
        other,
      )
      | inl not_old ↦ rw (merge_removed, not_new, not_old, entry, lookup-put i j v s.removed, other)
    ]
  ]

  -- The composition of two entries.
  abbrev pub merged_entry : Entry V → Entry V → Entry V
  merged_entry a b =
      take_up gone_entry b.gone (take_up new_entry b.fresh (take_up modified_entry b.old a))

  pub Tracks-merge :
      {i n n' : ℕ} {was then' now : Option V} {a b : Entry V}
      → n ≤ n'
      → ((v : V) → was ≡ some v → i < n)
      → Tracks i n was then' a
      → Tracks i n' then' now b
      → Tracks i n was now (merged_entry a b)
  Tracks-merge le known (untouched p) (untouched q) = untouched (p ∙ q)
  Tracks-merge le known (untouched p) (created l q h) = created (omega arith) (p ∙ q) h
  Tracks-merge le known (untouched p) (changed q h) = changed (p ∙ q) h
  Tracks-merge le known (untouched p) (deleted l q h) = deleted (known _ (p ∙ q)) (p ∙ q) h
  Tracks-merge le known (created k p (v, g)) (untouched q) = created k p (v, sym q ∙ g)
  Tracks-merge le known (created k p (v, g)) (created l q h) = cc
  Tracks-merge le known (created k p g) (changed q h) = created k p h
  Tracks-merge le known (created k p g) (deleted l q h) = untouched (p ∙ sym h)
  Tracks-merge le known (changed p (v, g)) (untouched q) = changed p (v, sym q ∙ g)
  Tracks-merge le known (changed p (v, g)) (created l q h) = cc
  Tracks-merge le known (changed p g) (changed q h) = changed p h
  Tracks-merge le known (changed p g) (deleted l q h) = deleted (known _ p) p h
  Tracks-merge le known (deleted k p g) (untouched q) = deleted k p (sym q ∙ g)
  Tracks-merge le known (deleted k p g) (created l q h) = absurd (omega arith)
  Tracks-merge le known (deleted k p g) (changed q h) = cc
  Tracks-merge le known (deleted k p g) (deleted l q h) = cc

  entry-merge_next_id :
      (i : ObjectId) (k n : ℕ) (s : UndoState V) → entry i s ≡ entry i (merge_next_id k n s)
  unfolding merge_next_id
  entry-merge_next_id i k n s = elim (Option-cases (lookup k s.old_index_next_ids)) [
    | inl free ↦ rw (entry, merge_next_id, free)
    | inr (m, bound) ↦ rw (merge_next_id, bound)
  ]

  pub entry-merge_states :
      (i : ObjectId) (prev s : UndoState V)
      → IsDistinct s
      → entry i (merge_states prev s) ≡ merged_entry (entry i prev) (entry i s)
  unfolding merge_states
  entry-merge_states i prev s (old, next, new, gone) =
      let s1 = each merge_old s.old_values prev in
      let s2 = each merge_new s.new_ids s1 in
      let s3 = each merge_next_id s.old_index_next_ids s2 in
      let first =
        each_view (entry i) i merge_old modified_entry
          (λ v t.
            subst (λ x. entry i x ≡ modified_entry v (entry i t)) (merge_old_lem i v t)
              (entry-note_modify i v t))
          (λ j v t e.
            subst (λ x. entry i x ≡ entry i t) (merge_old_lem j v t)
              (entry-note_modify_other j i v t e))
          s.old_values prev old in
      let second =
        each_view (entry i) i merge_new new_entry
          (λ u t. rw (lookup-put i i u t.new_ids, same_id_refl i))
          (λ j u t e. rw (lookup-put j i u t.new_ids, e)) s.new_ids s1 new in
      let third =
        each_keeps (λ t. entry i t ≡ entry i s2) merge_next_id
          (λ k n t e. sym (entry-merge_next_id i k n t) ∙ e) s.old_index_next_ids s2 refl in
      let fourth =
        each_view (entry i) i merge_removed gone_entry (λ v t. entry-merge_removed i v t)
          (λ j v t e. entry-merge_removed_other j i v t e) s.removed s3 gone in
      fourth
      ∙ ap (take_up gone_entry (lookup i s.removed))
          (third ∙ second ∙ ap (take_up new_entry (lookup i s.new_ids)) first)
