-- ===== src/Undo/Committed.antt =====
-- Committed sessions, which can be taken back later, and sessions begun with tracking disabled.
use fin_chain_core.Prelude.{
  ℕ, zero, suc, ◌≡◌, refl, ap, ◌∙◌, subst, Bool, true, false, Option, List, arith,
}
use fin_chain_core.Prelude.Maps.{nat_key}
use fin_chain_core.Prelude.Results.{ok, err, assert_exception, ◌>>=◌}
use fin_chain_core.Undo.{
  ObjectId, UndoState, UndoDatabase, ObjectDatabase, Session, trim, start_undo_session, empty_state,
}
use fin_chain_core.Undo.Restore.{set_undo, undo, commit, pop_commit}
use fin_chain_core.Undo.Invariant.{Recorded, IsNumbered, empty_state-Recorded}
use fin_chain_core.Undo.Changes.{Change, apply_changes, apply_changes-During, during}
use fin_chain_core.Undo.Sessions.{close_session}
use fin_chain_core.Undo.Roundtrip.{start_open, restore-Recorded}
use fin_chain_core.Undo.Nested.{begin}

module _ {ℓ} {V : Type ℓ} where
  pop_commit-Recorded :
      (was : ObjectId → Option V) (before : ℕ → ℕ) (m : ℕ) (rest : List (UndoState V))
      (s : UndoState V) (o : ObjectId → Option V) (n : ℕ → ℕ)
      → Recorded was before s o n
      → pop_commit (during 0 m rest s o n)
        ≡ ok (record {
          objects = was;
          next_id = before;
          undo_db = record { active_sessions = 0; disabled = false; stack = rest; max_size = m };
        })
  unfolding pop_commit
  pop_commit-Recorded was before m rest s o n r = rw (restore-Recorded was before 0 m rest s o n r)

  committed_open :
      (cs : List (Change V)) (o : ObjectId → Option V) (n : ℕ → ℕ) (a m : ℕ) (b : Bool)
      (ss : List (UndoState V)) {d' : ObjectDatabase V}
      → b ≡ false
      → a ≡ 0
      → IsNumbered o n
      → apply_changes cs (
          begin (record {
            objects = o;
            next_id = n;
            undo_db = record { active_sessions = a; disabled = b; stack = ss; max_size = m };
          }))
        ≡ ok d'
      → (commit d'.undo_db >>= λ u. pop_commit (set_undo u d'))
        ≡ ok (record {
          objects = o;
          next_id = n;
          undo_db = record { active_sessions = a; disabled = b; stack = trim m ss; max_size = m };
        })
  unfolding commit
  committed_open cs o n a m true ss on none_active numbered h = cc
  committed_open cs o n (suc a) m false ss on none_active numbered h = absurd (omega arith)
  committed_open cs o n zero m false ss {d'} on none_active numbered h =
      let rest = trim m ss in
      let begun = start_open false false 0 m ss refl in
      let h' =
        subst (λ x. apply_changes cs (record { objects = o; next_id = n; undo_db = x.0 }) ≡ ok d')
          begun h in
      let (s, o1, n1, same, r) =
        apply_changes-During cs o n 1 m rest empty_state o n (empty_state-Recorded o n numbered)
          h' in
      ap (λ (x : ObjectDatabase V). commit x.undo_db >>= λ u. pop_commit (set_undo u x)) same
      ∙ pop_commit-Recorded o n m rest s o1 n1 r

  -- With no session active and tracking enabled, a session is begun in a database whose objects are
  -- numbered below their next ids; objects are created, modified and removed, and none of the
  -- changes raises. When the session is committed, and the commit is popped after that, nothing
  -- raises, and the database has again the objects and the next ids that it had before the session,
  -- and the stack that it had, cut to the maximal size.
  pub pop_commit-commit :
      (cs : List (Change V)) (d d' : ObjectDatabase V)
      → d.undo_db.disabled ≡ false
      → d.undo_db.active_sessions ≡ 0
      → IsNumbered d.objects d.next_id
      → apply_changes cs (begin d) ≡ ok d'
      → (commit d'.undo_db >>= λ u. pop_commit (set_undo u d'))
        ≡ ok (set_undo (record d.undo_db { stack = trim d.undo_db.max_size d.undo_db.stack }) d)
  pop_commit-commit cs d d' on none_active numbered h =
      committed_open cs d.objects d.next_id d.undo_db.active_sessions d.undo_db.max_size
        d.undo_db.disabled d.undo_db.stack on none_active numbered h

  disabled_open :
      (o : ObjectId → Option V) (n : ℕ → ℕ) (a m : ℕ) (b : Bool) (ss : List (UndoState V))
      → b ≡ true
      → close_session
          (record { apply_undo = true; disable_on_exit = false })
          (record {
            objects = o;
            next_id = n;
            undo_db = record { active_sessions = a; disabled = b; stack = ss; max_size = m };
          })
        ≡ err assert_exception
  unfolding close_session undo
  disabled_open o n a m true ss off = refl
  disabled_open o n a m false ss off = cc

  -- A session that is begun without force while tracking is disabled cannot be ended by its
  -- destructor: it raises an assertion as long as tracking is disabled.
  pub close_session_disabled :
      (u : UndoDatabase V) (d : ObjectDatabase V)
      → u.disabled ≡ true
      → d.undo_db.disabled ≡ true
      → close_session (start_undo_session false u).1 d ≡ err assert_exception
  unfolding start_undo_session
  close_session_disabled u d off still_off =
      ap (λ (b : Bool). close_session (session_of b) d) off
      ∙ disabled_open d.objects d.next_id d.undo_db.active_sessions d.undo_db.max_size
          d.undo_db.disabled d.undo_db.stack still_off
    where
      session_of : Bool → Session
      session_of b = (start_undo_session false (record u { disabled = b })).1
