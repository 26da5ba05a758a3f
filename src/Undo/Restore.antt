-- ===== src/Undo/Restore.antt =====
-- Undoing the changes that a state has noted (libraries/db/undo_database.cpp).
use fin_chain_core.Prelude.{◌-◌, true, false, not, List, [], ◌∷◌, ◌==◌, ltb}
use fin_chain_core.Prelude.Maps.{Map, nat_key}
use fin_chain_core.Prelude.Results.{Result, ok, err, assert_exception, ◌>>=◌, ◌>>◌, fc_assert}
use fin_chain_core.Undo.{
  id_key, UndoState, UndoDatabase, ObjectDatabase, set_disabled, insert, modify, remove,
  set_next_id,
}

module _ {ℓ} {V : Type ℓ} where
  -- A loop over the entries of a map, which ends at the first exception.
  abbrev pub for_each {κ} :
      {K : Type 0} {U : Type κ}
      → (K → U → ObjectDatabase V → Result (ObjectDatabase V))
      → Map K U
      → ObjectDatabase V
      → Result (ObjectDatabase V)
  for_each f [] d = ok d
  for_each f ((i, u) ∷ m) d = f i u d >>= for_each f m

  -- The loops of undo_database::undo and of pop_commit
  unfoldable pub restore : UndoState V → ObjectDatabase V → Result (ObjectDatabase V)
  restore s d = do
    d1 ← for_each (λ i old d'. modify i (λ v. old) d') s.old_values d
    d2 ← for_each (λ i u d'. remove i d') s.new_ids d1
    d3 ← for_each set_next_id s.old_index_next_ids d2
    for_each insert s.removed d3

  abbrev pub set_undo : UndoDatabase V → ObjectDatabase V → ObjectDatabase V
  set_undo u d = record d { undo_db = u }

  -- `_stack.back()`, which raises here if there is none
  abbrev pub back : List (UndoState V) → Result (UndoState V)
  back [] = err assert_exception
  back (s ∷ ss) = ok s

  abbrev pub pop_back : List (UndoState V) → List (UndoState V)
  pop_back [] = []
  pop_back (s ∷ ss) = ss

  -- undo_database::undo
  unfoldable pub undo : ObjectDatabase V → Result (ObjectDatabase V)
  undo d = do
    fc_assert (not d.undo_db.disabled)
    fc_assert (ltb 0 d.undo_db.active_sessions)
    s ← back d.undo_db.stack
    d' ← restore s (set_undo (set_disabled true d.undo_db) d)
    ok (
        set_undo
          (record d'.undo_db {
            active_sessions = d'.undo_db.active_sessions - 1;
            disabled = false;
            stack = pop_back d'.undo_db.stack;
          })
          d')

  -- undo_database::commit
  unfoldable pub commit : UndoDatabase V → Result (UndoDatabase V)
  commit u = do
    fc_assert (ltb 0 u.active_sessions)
    ok (record u { active_sessions = u.active_sessions - 1 })

  -- undo_database::pop_commit
  unfoldable pub pop_commit : ObjectDatabase V → Result (ObjectDatabase V)
  pop_commit d = do
    fc_assert (d.undo_db.active_sessions == 0)
    s ← back d.undo_db.stack
    d' ← restore s (set_undo (set_disabled true d.undo_db) d)
    ok (set_undo (record d'.undo_db { disabled = false; stack = pop_back d'.undo_db.stack }) d')
