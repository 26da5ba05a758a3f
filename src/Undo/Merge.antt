-- ===== src/Undo/Merge.antt =====
-- The merge of the state on top of the stack into the one below it (undo_database::merge in
-- libraries/db/undo_database.cpp). The two calls of `assert`, which are debug checks of cases that
-- do not arise, are not modelled.
use fin_chain_core.Prelude.{
  ℕ, ◌-◌, none, some, List, [], ◌∷◌, ◌==◌, ◌&&◌, ltb, length, if◌then◌else◌,
}
use fin_chain_core.Prelude.Maps.{Map, nat_key, lookup, put, erase}
use fin_chain_core.Prelude.Results.{Result, ok, err, assert_exception, ◌>>=◌, ◌>>◌, fc_assert}
use fin_chain_core.Undo.{ObjectId, id_key, UndoState, UndoDatabase}
use fin_chain_core.Undo.Restore.{pop_back}

-- A loop over the entries of a map that changes a state.
abbrev pub each {ℓ κ} : {K : Type 0} {U : Type ℓ} {A : Type κ} → (K → U → A → A) → Map K U → A → A
each f [] a = a
each f ((i, u) ∷ m) a = each f m (f i u a)

module _ {ℓ} {V : Type ℓ} where
  -- *+upd
  unfoldable pub merge_old : ObjectId → V → UndoState V → UndoState V
  merge_old i v prev = elim (lookup i prev.new_ids) [
    | some u ↦ prev
    | none ↦ elim (lookup i prev.old_values) [
      | some w ↦ prev
      | none ↦ record prev { old_values = put i v prev.old_values }
    ]
  ]

  -- *+new
  abbrev pub merge_new : ObjectId → Unit {0} → UndoState V → UndoState V
  merge_new i u prev = record prev { new_ids = put i u prev.new_ids }

  -- The next ids: the older one stays.
  unfoldable pub merge_next_id : ℕ → ℕ → UndoState V → UndoState V
  merge_next_id k n prev = elim (lookup k prev.old_index_next_ids) [
    | none ↦ record prev { old_index_next_ids = put k n prev.old_index_next_ids }
    | some m ↦ prev
  ]

  -- *+del
  unfoldable pub merge_removed : ObjectId → V → UndoState V → UndoState V
  merge_removed i v prev = elim (lookup i prev.new_ids) [
    | some u ↦ record prev { new_ids = erase i prev.new_ids }
    | none ↦ elim (lookup i prev.old_values) [
      | some w ↦ record prev {
        removed = put i w prev.removed;
        old_values = erase i prev.old_values;
      }
      | none ↦ record prev { removed = put i v prev.removed }
    ]
  ]

  -- The four loops of `merge`
  unfoldable pub merge_states : UndoState V → UndoState V → UndoState V
  merge_states prev state = each merge_removed state.removed (
      each merge_next_id state.old_index_next_ids
        (each merge_new state.new_ids (each merge_old state.old_values prev)))

  -- The two states at the back of the stack become one.
  abbrev pub merge_back : List (UndoState V) → Result (List (UndoState V))
  merge_back [] = err assert_exception
  merge_back (s ∷ []) = err assert_exception
  merge_back (s ∷ prev ∷ ss) = ok (merge_states prev s ∷ ss)

  -- undo_database::merge
  unfoldable pub merge : UndoDatabase V → Result (UndoDatabase V)
  merge u = do
    fc_assert (ltb 0 u.active_sessions)
    if (u.active_sessions == 1) && (length u.stack == 1)
        then ok (record u { stack = pop_back u.stack; active_sessions = u.active_sessions - 1 })
        else merge_back u.stack >>= λ merged.
            ok (record u { stack = merged; active_sessions = u.active_sessions - 1 })
