-- ===== src/Undo/Preserved.antt =====
-- The three operations keep the invariant of a session.
use fin_chain_core.Prelude.{
  ℕ, suc, ◌≡◌, ◌∙◌, subst, true, Option, none, some, Bool-cases, Option-cases, inl, inr, arith,
  ==_refl, ◌==◌, ==_iff,
}
use fin_chain_core.Prelude.Maps.{
  nat_key, lookup, write, overlay, Distinct, lookup-put, Distinct-put, Distinct-erase,
}
use fin_chain_core.Undo.{ObjectId, id_key, UndoState, note_create, note_modify, note_remove}
use fin_chain_core.Undo.Overlay.{IsDistinct}
use fin_chain_core.Undo.Tracking.{
  entry, entry-note_create, entry-note_create_other, entry-note_modify, entry-note_modify_other,
  entry-note_remove, entry-note_remove_other,
}
use fin_chain_core.Undo.Invariant.{
  Tracks, Tracks-create, Tracks-modify, Tracks-remove, Recorded, write-TracksAll, write-IsNumbered,
  next_up,
}

module _ {ℓ} {V : Type ℓ} where
  -- The three operations.
  IsDistinct-note_create :
      (i : ObjectId) (s : UndoState V) → IsDistinct s → IsDistinct (note_create i s)
  unfolding note_create
  IsDistinct-note_create i s (old, next, new, gone) = (
    old,
    elim (Option-cases (lookup i.space_type s.old_index_next_ids)) [
      | inl first ↦
          rw (Distinct, note_create, first)
            (Distinct-put i.space_type i.instance_id s.old_index_next_ids next)
      | inr (n, later) ↦ rw (Distinct, note_create, later) next
    ],
    Distinct-put i tt s.new_ids new,
    gone,
  )

  pub IsDistinct-note_modify :
      (i : ObjectId) (v : V) (s : UndoState V) → IsDistinct s → IsDistinct (note_modify i v s)
  unfolding note_modify
  IsDistinct-note_modify i v s (old, next, new, gone) = elim (Option-cases (lookup i s.new_ids)) [
    | inr (u, is_new) ↦ rw (note_modify, is_new) (old, next, new, gone)
    | inl not_new ↦ elim (Option-cases (lookup i s.old_values)) [
      | inr (w, is_old) ↦ rw (note_modify, not_new, is_old) (old, next, new, gone)
      | inl not_old ↦
          rw (note_modify, not_new, not_old) (Distinct-put i v s.old_values old, next, new, gone)
    ]
  ]

  IsDistinct-note_remove :
      (i : ObjectId) (v : V) (s : UndoState V) → IsDistinct s → IsDistinct (note_remove i v s)
  unfolding note_remove
  IsDistinct-note_remove i v s (old, next, new, gone) = elim (Option-cases (lookup i s.new_ids)) [
    | inr (u, is_new) ↦ rw (note_remove, is_new) (old, next, Distinct-erase i s.new_ids new, gone)
    | inl not_new ↦ elim (Option-cases (lookup i s.old_values)) [
      | inr (w, is_old) ↦
          rw (note_remove, not_new, is_old)
            (Distinct-erase i s.old_values old, next, new, Distinct-put i w s.removed gone)
      | inl not_old ↦ elim (Option-cases (lookup i s.removed)) [
        | inr (w, is_gone) ↦ rw (note_remove, not_new, not_old, is_gone) (old, next, new, gone)
        | inl not_gone ↦
            rw (note_remove, not_new, not_old, not_gone)
              (old, next, new, Distinct-put i v s.removed gone)
      ]
    ]
  ]

  seen :
      {was : ObjectId → Option V} {before : ℕ → ℕ} {s : UndoState V} {o : ObjectId → Option V}
      {n : ℕ → ℕ} {x : Option V}
      → Recorded was before s o n
      → (i : ObjectId) → o i ≡ x
      → Tracks i.instance_id (before i.space_type) (was i) x (entry i s)
  seen {was} {before} {s} r i e =
      subst (λ y. Tracks i.instance_id (before i.space_type) (was i) y (entry i s)) e (r.tracked i)

  pub next_ids-note_modify :
      (i : ObjectId) (v : V) (s : UndoState V)
      → s.old_index_next_ids ≡ (note_modify i v s).old_index_next_ids
  unfolding note_modify
  next_ids-note_modify i v s = elim (Option-cases (lookup i s.new_ids)) [
    | inr (u, is_new) ↦ rw (note_modify, is_new)
    | inl not_new ↦ elim (Option-cases (lookup i s.old_values)) [
      | inr (w, is_old) ↦ rw (note_modify, not_new, is_old)
      | inl not_old ↦ rw (note_modify, not_new, not_old)
    ]
  ]

  next_ids-note_remove :
      (i : ObjectId) (v : V) (s : UndoState V)
      → s.old_index_next_ids ≡ (note_remove i v s).old_index_next_ids
  unfolding note_remove
  next_ids-note_remove i v s = elim (Option-cases (lookup i s.new_ids)) [
    | inr (u, is_new) ↦ rw (note_remove, is_new)
    | inl not_new ↦ elim (Option-cases (lookup i s.old_values)) [
      | inr (w, is_old) ↦ rw (note_remove, not_new, is_old)
      | inl not_old ↦ elim (Option-cases (lookup i s.removed)) [
        | inr (w, is_gone) ↦ rw (note_remove, not_new, not_old, is_gone)
        | inl not_gone ↦ rw (note_remove, not_new, not_old, not_gone)
      ]
    ]
  ]

  -- Noting the next id of an index that goes up leaves the recorded ids as they were.
  overlay-note_create :
      (i : ObjectId) (s : UndoState V) (n : ℕ → ℕ) (w k : ℕ)
      → i.instance_id ≡ n i.space_type
      → overlay (λ m. m) (note_create i s).old_index_next_ids (write i.space_type w n) k
        ≡ overlay (λ m. m) s.old_index_next_ids n k
  unfolding note_create
  overlay-note_create i s n w k numbered =
      let here = λ (e : (i.space_type == k) ≡ true). (==_iff i.space_type k).0 e in
      elim (Option-cases (lookup i.space_type s.old_index_next_ids)) [
        | inr (m, later) ↦ elim (Option-cases (lookup k s.old_index_next_ids)) [
          | inr (x, bound) ↦ rw (overlay, note_create, later, bound)
          | inl free ↦ elim (Bool-cases (i.space_type == k)) [
            | inl same ↦
                let later' =
                  subst (λ x. lookup x s.old_index_next_ids ≡ some m) (here same) later in
                cc
            | inr other ↦ rw (overlay, note_create, later, free, other)
          ]
        ]
        | inl first ↦ elim (Bool-cases (i.space_type == k)) [
          | inl same ↦
              let first' = subst (λ x. lookup x s.old_index_next_ids ≡ none) (here same) first in
              rw
                (
                  overlay,
                  note_create,
                  first,
                  lookup-put i.space_type k i.instance_id s.old_index_next_ids,
                  same,
                  first',
                  ← here same,
                )
                numbered
          | inr other ↦ elim (Option-cases (lookup k s.old_index_next_ids)) [
            | inr (x, bound) ↦ rw (
              overlay,
              note_create,
              first,
              lookup-put i.space_type k i.instance_id s.old_index_next_ids,
              other,
              bound,
            )
            | inl free ↦ rw (
              overlay,
              note_create,
              first,
              lookup-put i.space_type k i.instance_id s.old_index_next_ids,
              other,
              free,
              other,
            )
          ]
        ]
      ]

  pub create-Recorded :
      (was : ObjectId → Option V) (before : ℕ → ℕ) (s : UndoState V) (o : ObjectId → Option V)
      (n : ℕ → ℕ) (i : ObjectId) (v : V)
      → i.instance_id ≡ n i.space_type
      → o i ≡ none
      → Recorded was before s o n
      → Recorded was before
          (note_create i s)
          (write i (some v) o)
          (write i.space_type (suc (n i.space_type)) n)
  create-Recorded was before s o n i v numbered free r = record {
    known = r.known;
    known_now =
        write-IsNumbered i (some v) o (write i.space_type (suc (n i.space_type)) n)
          (λ x e. rw (==_refl i.space_type) (omega arith))
          (λ j w h.
            let up = next_up i.space_type j.space_type n in
            let old = r.known_now j w h in omega arith);
    tracked =
        write-TracksAll was before s (note_create i s) o i (some v)
          (λ j other. entry-note_create_other i j s other)
          (rw (entry-note_create i s)
            (Tracks-create v (let up = r.next_rises i.space_type in omega arith) (seen r i free)))
          r.tracked;
    next_rises = λ k. let up = next_up i.space_type k n in let old = r.next_rises k in omega arith;
    next_tracked =
        λ k. overlay-note_create i s n (suc (n i.space_type)) k numbered ∙ r.next_tracked k;
    distinct = IsDistinct-note_create i s r.distinct;
  }

  pub modify-Recorded :
      (was : ObjectId → Option V) (before : ℕ → ℕ) (s : UndoState V) (o : ObjectId → Option V)
      (n : ℕ → ℕ) (i : ObjectId) (v w : V)
      → o i ≡ some v
      → Recorded was before s o n
      → Recorded was before (note_modify i v s) (write i (some w) o) n
  modify-Recorded was before s o n i v w here r = record {
    known = r.known;
    known_now = write-IsNumbered i (some w) o n (λ x e. r.known_now i v here) r.known_now;
    tracked =
        write-TracksAll was before s (note_modify i v s) o i (some w)
          (λ j other. entry-note_modify_other i j v s other)
          (rw (entry-note_modify i v s) (Tracks-modify v w (seen r i here))) r.tracked;
    next_rises = r.next_rises;
    next_tracked =
        subst (λ m. (k : ℕ) → overlay (λ x. x) m n k ≡ before k) (next_ids-note_modify i v s)
          r.next_tracked;
    distinct = IsDistinct-note_modify i v s r.distinct;
  }

  pub remove-Recorded :
      (was : ObjectId → Option V) (before : ℕ → ℕ) (s : UndoState V) (o : ObjectId → Option V)
      (n : ℕ → ℕ) (i : ObjectId) (v : V)
      → o i ≡ some v
      → Recorded was before s o n
      → Recorded was before (note_remove i v s) (write i none o) n
  remove-Recorded was before s o n i v here r = record {
    known = r.known;
    known_now = write-IsNumbered i none o n (λ x e. cc) r.known_now;
    tracked =
        write-TracksAll was before s (note_remove i v s) o i none
          (λ j other. entry-note_remove_other i j v s other)
          (rw (entry-note_remove i v s) (Tracks-remove v (r.known i) (seen r i here))) r.tracked;
    next_rises = r.next_rises;
    next_tracked =
        subst (λ m. (k : ℕ) → overlay (λ x. x) m n k ≡ before k) (next_ids-note_remove i v s)
          r.next_tracked;
    distinct = IsDistinct-note_remove i v s r.distinct;
  }
