-- ===== src/Undo/Merged.antt =====
-- What a merged state records: the changes of both sessions, since the beginning of the outer one.
use fin_chain_core.Prelude.{
  ℕ, ◌≡◌, refl, sym, ap, ◌∙◌, subst, false, Option, none, some, Option-cases, inl, inr, arith, ◌==◌,
  ==_refl,
}
use fin_chain_core.Prelude.Maps.{nat_key, lookup, lookup-put, Distinct-put, Distinct-erase}
use fin_chain_core.Undo.{ObjectId, id_key, UndoState}
use fin_chain_core.Undo.Overlay.{IsDistinct}
use fin_chain_core.Undo.Invariant.{Tracks, Recorded}
use fin_chain_core.Undo.Preserved.{IsDistinct-note_modify, next_ids-note_modify}
use fin_chain_core.Undo.Merge.{
  each, merge_old, merge_new, merge_next_id, merge_removed, merge_states,
}
use fin_chain_core.Undo.Composition.{
  take_up, each_view, each_keeps, merge_old_lem, Tracks-merge, entry-merge_states,
}

-- The next ids of a merge: the older one stays.
abbrev older : ℕ → Option ℕ → Option ℕ
older n none = some n
older n (some m) = some m

overlay-merge :
    (n n' before : ℕ) (a b : Option ℕ)
    → (elim b [ none ↦ n | some m ↦ m ]) ≡ n'
    → (elim a [ none ↦ n' | some m ↦ m ]) ≡ before
    → (elim (take_up older b a) [ none ↦ n | some m ↦ m ]) ≡ before
overlay-merge n n' before none none p q = p ∙ q
overlay-merge n n' before none (some m) p q = p ∙ q
overlay-merge n n' before (some x) none p q = q
overlay-merge n n' before (some x) (some m) p q = q

module _ {ℓ} {V : Type ℓ} where
  IsDistinct-merge_old :
      (i : ObjectId) (v : V) (s : UndoState V) → IsDistinct s → IsDistinct (merge_old i v s)
  IsDistinct-merge_old i v s d =
      subst IsDistinct (merge_old_lem i v s) (IsDistinct-note_modify i v s d)

  IsDistinct-merge_new :
      (i : ObjectId) (u : Unit {0}) (s : UndoState V) → IsDistinct s → IsDistinct (merge_new i u s)
  IsDistinct-merge_new i u s (old, next, new, gone) =
      (old, next, Distinct-put i u s.new_ids new, gone)

  IsDistinct-merge_next_id :
      (k n : ℕ) (s : UndoState V) → IsDistinct s → IsDistinct (merge_next_id k n s)
  unfolding merge_next_id
  IsDistinct-merge_next_id k n s (old, next, new, gone) =
      elim (Option-cases (lookup k s.old_index_next_ids)) [
        | inl free ↦
            rw (merge_next_id, free) (old, Distinct-put k n s.old_index_next_ids next, new, gone)
        | inr (m, bound) ↦ rw (merge_next_id, bound) (old, next, new, gone)
      ]

  IsDistinct-merge_removed :
      (i : ObjectId) (v : V) (s : UndoState V) → IsDistinct s → IsDistinct (merge_removed i v s)
  unfolding merge_removed
  IsDistinct-merge_removed i v s (old, next, new, gone) = elim (Option-cases (lookup i s.new_ids)) [
    | inr (u, is_new) ↦ rw (merge_removed, is_new) (old, next, Distinct-erase i s.new_ids new, gone)
    | inl not_new ↦ elim (Option-cases (lookup i s.old_values)) [
      | inr (w, is_old) ↦
          rw (merge_removed, not_new, is_old)
            (Distinct-erase i s.old_values old, next, new, Distinct-put i w s.removed gone)
      | inl not_old ↦
          rw (merge_removed, not_new, not_old) (old, next, new, Distinct-put i v s.removed gone)
    ]
  ]

  IsDistinct-merge_states :
      (prev s : UndoState V) → IsDistinct prev → IsDistinct (merge_states prev s)
  unfolding merge_states
  IsDistinct-merge_states prev s d =
      each_keeps IsDistinct merge_removed IsDistinct-merge_removed s.removed _ (
        each_keeps IsDistinct merge_next_id IsDistinct-merge_next_id s.old_index_next_ids _ (
          each_keeps IsDistinct merge_new IsDistinct-merge_new s.new_ids _
            (each_keeps IsDistinct merge_old IsDistinct-merge_old s.old_values prev d)))

  next_ids-merge_removed :
      (i : ObjectId) (v : V) (s : UndoState V)
      → (merge_removed i v s).old_index_next_ids ≡ s.old_index_next_ids
  unfolding merge_removed
  next_ids-merge_removed i v s = elim (Option-cases (lookup i s.new_ids)) [
    | inr (u, is_new) ↦ rw (merge_removed, is_new)
    | inl not_new ↦ elim (Option-cases (lookup i s.old_values)) [
      | inr (w, is_old) ↦ rw (merge_removed, not_new, is_old)
      | inl not_old ↦ rw (merge_removed, not_new, not_old)
    ]
  ]

  merge_next_id_here :
      (k n : ℕ) (s : UndoState V)
      → lookup k (merge_next_id k n s).old_index_next_ids ≡ older n (lookup k s.old_index_next_ids)
  unfolding merge_next_id
  merge_next_id_here k n s = elim (Option-cases (lookup k s.old_index_next_ids)) [
    | inl free ↦ rw (merge_next_id, free, lookup-put k k n s.old_index_next_ids, ==_refl k)
    | inr (m, bound) ↦ rw (merge_next_id, bound, bound)
  ]

  merge_next_id_other :
      (k j n : ℕ) (s : UndoState V)
      → (k == j) ≡ false
      → lookup j (merge_next_id k n s).old_index_next_ids ≡ lookup j s.old_index_next_ids
  unfolding merge_next_id
  merge_next_id_other k j n s other = elim (Option-cases (lookup k s.old_index_next_ids)) [
    | inl free ↦ rw (merge_next_id, free, lookup-put k j n s.old_index_next_ids, other)
    | inr (m, bound) ↦ rw (merge_next_id, bound)
  ]

  next_ids-merge_states :
      (k : ℕ) (prev s : UndoState V)
      → IsDistinct s
      → lookup k (merge_states prev s).old_index_next_ids
        ≡ take_up older (lookup k s.old_index_next_ids) (lookup k prev.old_index_next_ids)
  unfolding merge_states
  next_ids-merge_states k prev s (old, next, new, gone) =
      let s1 = each merge_old s.old_values prev in
      let s2 = each merge_new s.new_ids s1 in
      let s3 = each merge_next_id s.old_index_next_ids s2 in
      let first =
        each_keeps (λ t. t.old_index_next_ids ≡ prev.old_index_next_ids) merge_old
          (λ i v t e.
            ap (λ (x : UndoState V). x.old_index_next_ids) (sym (merge_old_lem i v t))
            ∙ sym (next_ids-note_modify i v t)
            ∙ e)
          s.old_values prev refl in
      let second =
        each_keeps (λ t. t.old_index_next_ids ≡ s1.old_index_next_ids) merge_new (λ i u t e. e)
          s.new_ids s1 refl in
      let third =
        each_view (λ t. lookup k t.old_index_next_ids) k merge_next_id older
          (λ n t. merge_next_id_here k n t) (λ j n t e. merge_next_id_other j k n t e)
          s.old_index_next_ids s2 next in
      let fourth =
        each_keeps (λ t. t.old_index_next_ids ≡ s3.old_index_next_ids) merge_removed
          (λ i v t e. next_ids-merge_removed i v t ∙ e) s.removed s3 refl in
      ap (lookup k) fourth
      ∙ third
      ∙ ap (λ m. take_up older (lookup k s.old_index_next_ids) (lookup k m)) (second ∙ first)

  -- If one state records what differs now from then, and another what differed then from before,
  -- the merged state records what differs now from before.
  pub merge-Recorded :
      (o0 o1 o2 : ObjectId → Option V) (n0 n1 n2 : ℕ → ℕ) (prev s : UndoState V)
      → Recorded o0 n0 prev o1 n1
      → Recorded o1 n1 s o2 n2
      → Recorded o0 n0 (merge_states prev s) o2 n2
  merge-Recorded o0 o1 o2 n0 n1 n2 prev s p r = record {
    known = p.known;
    known_now = r.known_now;
    tracked = λ i.
        subst (Tracks i.instance_id (n0 i.space_type) (o0 i) (o2 i))
          (sym (entry-merge_states i prev s r.distinct))
          (Tracks-merge (p.next_rises i.space_type) (p.known i) (p.tracked i) (r.tracked i));
    next_rises = λ k. let up = p.next_rises k in let up' = r.next_rises k in omega arith;
    next_tracked = λ k.
        subst (λ x. (elim x [ none ↦ n2 k | some m ↦ m ]) ≡ n0 k)
          (sym (next_ids-merge_states k prev s r.distinct))
          (overlay-merge (n2 k) (n1 k) (n0 k) (lookup k prev.old_index_next_ids)
            (lookup k s.old_index_next_ids) (r.next_tracked k) (p.next_tracked k));
    distinct = IsDistinct-merge_states prev s p.distinct;
  }
