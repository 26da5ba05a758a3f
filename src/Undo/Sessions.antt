-- ===== src/Undo/Sessions.antt =====
-- Sessions (undo_database::session in libraries/db/include/graphene/db/undo_database.hpp): an object
-- that undoes, when it is destroyed, what was done since it was begun, unless it has been merged or
-- committed.
use fin_chain_core.Prelude.{true, false, if◌then◌else◌}
use fin_chain_core.Prelude.Results.{Result, ok, ◌>>=◌}
use fin_chain_core.Undo.{UndoDatabase, ObjectDatabase, Session, set_disabled}
use fin_chain_core.Undo.Restore.{set_undo, undo, commit}
use fin_chain_core.Undo.Merge.{merge}

abbrev done : Session → Session
done session = record session { apply_undo = false }

module _ {ℓ} {V : Type ℓ} where
  abbrev on_undo_db :
      (UndoDatabase V → Result (UndoDatabase V)) → ObjectDatabase V → Result (ObjectDatabase V)
  on_undo_db f d = do u ← f d.undo_db; ok (set_undo u d)

  -- session::commit
  unfoldable pub commit_session : Session → ObjectDatabase V → Result (ObjectDatabase V × Session)
  commit_session session d = do d' ← on_undo_db commit d; ok (d', done session)

  -- session::undo
  unfoldable pub undo_session : Session → ObjectDatabase V → Result (ObjectDatabase V × Session)
  undo_session session d = do
    d' ← if session.apply_undo then undo d else ok d
    ok (d', done session)

  -- session::merge
  unfoldable pub merge_session : Session → ObjectDatabase V → Result (ObjectDatabase V × Session)
  merge_session session d = do
    d' ← if session.apply_undo then on_undo_db merge d else ok d
    ok (d', done session)

  -- session::~session
  unfoldable pub close_session : Session → ObjectDatabase V → Result (ObjectDatabase V)
  close_session session d = do
    d' ← if session.apply_undo then undo d else ok d
    ok (if session.disable_on_exit then set_undo (set_disabled true d'.undo_db) d' else d')

  -- session::operator=, whose two sessions are different objects
  unfoldable pub assign_session :
      Session → Session → ObjectDatabase V → Result (ObjectDatabase V × Session × Session)
  assign_session session mv d = do
    d' ← if session.apply_undo then undo d else ok d
    ok (d', record session { apply_undo = mv.apply_undo }, done mv)
