-- ===== src/Undo/Tracking.antt =====
-- What a state of the undo database says of each object, and that the operations keep it true.
use fin_chain_core.Prelude.{◌≡◌, false, Option, none, some, Option-cases, inl, inr}
use fin_chain_core.Prelude.Maps.{nat_key, lookup, lookup-put, lookup-erase}
use fin_chain_core.Undo.{
  ObjectId, id_key, same_id, same_id_refl, UndoState, note_create, note_modify, note_remove,
}

-- What a state holds under one id.
pub record Entry {ℓ} (V : Type ℓ) : Type ℓ where
  pub old : Option V
  pub fresh : Option (Unit {0})
  pub gone : Option V

module _ {ℓ} {V : Type ℓ} where
  abbrev pub entry : ObjectId → UndoState V → Entry V
  entry i s = record {
    old = lookup i s.old_values;
    fresh = lookup i s.new_ids;
    gone = lookup i s.removed;
  }

  -- The effect of an operation on the entry of its object.
  abbrev pub created_entry : Entry V → Entry V
  created_entry e = record e { fresh = some tt }

  abbrev pub modified_entry : V → Entry V → Entry V
  modified_entry v e = elim e.fresh [
    | some u ↦ e
    | none ↦ elim e.old [ some w ↦ e | none ↦ record e { old = some v } ]
  ]

  abbrev pub removed_entry : V → Entry V → Entry V
  removed_entry v e = elim e.fresh [
    | some u ↦ record e { fresh = none }
    | none ↦ elim e.old [
      | some w ↦ record e { old = none; gone = some w }
      | none ↦ elim e.gone [ some w ↦ e | none ↦ record e { gone = some v } ]
    ]
  ]

  pub entry-note_create :
      (i : ObjectId) (s : UndoState V) → entry i (note_create i s) ≡ created_entry (entry i s)
  unfolding note_create
  entry-note_create i s = rw (lookup-put i i tt s.new_ids, same_id_refl i)

  pub entry-note_create_other :
      (i j : ObjectId) (s : UndoState V)
      → same_id i j ≡ false
      → entry j (note_create i s) ≡ entry j s
  unfolding note_create
  entry-note_create_other i j s other = rw (lookup-put i j tt s.new_ids, other)

  pub entry-note_modify :
      (i : ObjectId) (v : V) (s : UndoState V)
      → entry i (note_modify i v s) ≡ modified_entry v (entry i s)
  unfolding note_modify
  entry-note_modify i v s = elim (Option-cases (lookup i s.new_ids)) [
    | inr (u, new) ↦ rw (note_modify, new, entry, new)
    | inl not_new ↦ elim (Option-cases (lookup i s.old_values)) [
      | inr (w, old) ↦ rw (note_modify, not_new, old, entry, not_new, old)
      | inl not_old ↦ rw (
        note_modify,
        not_new,
        not_old,
        entry,
        lookup-put i i v s.old_values,
        same_id_refl i,
        not_new,
      )
    ]
  ]

  pub entry-note_modify_other :
      (i j : ObjectId) (v : V) (s : UndoState V)
      → same_id i j ≡ false
      → entry j (note_modify i v s) ≡ entry j s
  unfolding note_modify
  entry-note_modify_other i j v s other = elim (Option-cases (lookup i s.new_ids)) [
    | inr (u, new) ↦ rw (note_modify, new)
    | inl not_new ↦ elim (Option-cases (lookup i s.old_values)) [
      | inr (w, old) ↦ rw (note_modify, not_new, old)
      | inl not_old ↦
          rw (note_modify, not_new, not_old, entry, lookup-put i j v s.old_values, other)
    ]
  ]

  pub entry-note_remove :
      (i : ObjectId) (v : V) (s : UndoState V)
      → entry i (note_remove i v s) ≡ removed_entry v (entry i s)
  unfolding note_remove
  entry-note_remove i v s = elim (Option-cases (lookup i s.new_ids)) [
    | inr (u, new) ↦ rw (note_remove, new, entry, lookup-erase i i s.new_ids, same_id_refl i)
    | inl not_new ↦ elim (Option-cases (lookup i s.old_values)) [
      | inr (w, old) ↦ rw (
        note_remove,
        not_new,
        old,
        entry,
        lookup-erase i i s.old_values,
        lookup-put i i w s.removed,
        same_id_refl i,
        not_new,
      )
      | inl not_old ↦ elim (Option-cases (lookup i s.removed)) [
        | inr (w, gone) ↦ rw (note_remove, not_new, not_old, gone, entry, not_new, not_old, gone)
        | inl not_gone ↦ rw (
          note_remove,
          not_new,
          not_old,
          not_gone,
          entry,
          lookup-put i i v s.removed,
          same_id_refl i,
          not_new,
          not_old,
        )
      ]
    ]
  ]

  pub entry-note_remove_other :
      (i j : ObjectId) (v : V) (s : UndoState V)
      → same_id i j ≡ false
      → entry j (note_remove i v s) ≡ entry j s
  unfolding note_remove
  entry-note_remove_other i j v s other = elim (Option-cases (lookup i s.new_ids)) [
    | inr (u, new) ↦ rw (note_remove, new, entry, lookup-erase i j s.new_ids, other)
    | inl not_new ↦ elim (Option-cases (lookup i s.old_values)) [
      | inr (w, old) ↦ rw (
        note_remove,
        not_new,
        old,
        entry,
        lookup-erase i j s.old_values,
        lookup-put i j w s.removed,
        other,
      )
      | inl not_old ↦ elim (Option-cases (lookup i s.removed)) [
        | inr (w, gone) ↦ rw (note_remove, not_new, not_old, gone)
        | inl not_gone ↦
            rw (note_remove, not_new, not_old, not_gone, entry, lookup-put i j v s.removed, other)
      ]
    ]
  ]
