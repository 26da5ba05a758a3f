-- ===== src/Undo/Nested.antt =====
-- A session within a session: its changes are merged into the outer one and undone with it.
use fin_chain_core.Prelude.{
  ℕ, zero, suc, ◌-◌, ◌<◌, ◌≡◌, refl, ap, ◌∙◌, subst, Bool, true, false, Option, List, ◌∷◌, ◌==◌,
  lt→ltb, arith,
}
use fin_chain_core.Prelude.Results.{ok, ◌>>=◌}
use fin_chain_core.Undo.{ObjectId, UndoState, ObjectDatabase, trim, start_undo_session, empty_state}
use fin_chain_core.Undo.Restore.{set_undo, undo}
use fin_chain_core.Undo.Invariant.{Recorded, IsNumbered, empty_state-Recorded}
use fin_chain_core.Undo.Changes.{Change, apply_changes, apply_changes-During, during}
use fin_chain_core.Undo.Merge.{merge, merge_states}
use fin_chain_core.Undo.Merged.{merge-Recorded}
use fin_chain_core.Undo.Roundtrip.{start_open, undo-Recorded}

module _ {ℓ} {V : Type ℓ} where
  -- The database when a session has begun.
  abbrev pub begin : ObjectDatabase V → ObjectDatabase V
  begin d = set_undo (start_undo_session false d.undo_db).0 d

  merge_open :
      (a m : ℕ) (s prev : UndoState V) (rest : List (UndoState V))
      → merge (record {
        active_sessions = suc (suc a);
        disabled = false;
        stack = s ∷ prev ∷ rest;
        max_size = m;
      })
        ≡ ok (record {
          active_sessions = suc a;
          disabled = false;
          stack = merge_states prev s ∷ rest;
          max_size = m;
        })
  unfolding merge
  merge_open a m s prev rest =
      let running = lt→ltb 0 (suc (suc a)) (omega arith) in
      let not_one : (suc (suc a) == 1) ≡ false = ground arith in
      let one_less : suc (suc a) - 1 ≡ suc a = omega arith in rw (running, not_one, one_less)

  -- What a nested session that was begun in an outer one has come to.
  nested :
      (cs : List (Change V)) (was : ObjectId → Option V) (before : ℕ → ℕ) (a m : ℕ)
      (rest : List (UndoState V)) (s : UndoState V) (o : ObjectId → Option V) (n : ℕ → ℕ)
      {d' : ObjectDatabase V}
      → Recorded was before s o n
      → apply_changes cs (begin (during (suc a) (suc m) rest s o n)) ≡ ok d'
      → (merge d'.undo_db >>= λ u. undo (set_undo u d'))
        ≡ ok (record {
          objects = was;
          next_id = before;
          undo_db = record {
            active_sessions = a;
            disabled = false;
            stack = trim m rest;
            max_size = suc m;
          };
        })
  nested cs was before a m rest s o n {d'} r h =
      let begun = start_open false false (suc a) (suc m) (s ∷ rest) refl in
      let h' =
        subst (λ x. apply_changes cs (set_undo x.0 (during (suc a) (suc m) rest s o n)) ≡ ok d')
          begun h in
      let (t, o2, n2, same, r2) =
        apply_changes-During cs o n (suc (suc a)) (suc m) (s ∷ trim m rest) empty_state o n
          (empty_state-Recorded o n r.known_now) h' in
      let merged = merge-Recorded was o o2 before n n2 s t r r2 in
      ap (λ (x : ObjectDatabase V). merge x.undo_db >>= λ u. undo (set_undo u x)) same
      ∙ ap
          (λ x.
            x >>= λ u. undo (set_undo u (during (suc (suc a)) (suc m) (s ∷ trim m rest) t o2 n2)))
          (merge_open a (suc m) t s (trim m rest))
      ∙ undo-Recorded was before a (suc m) (trim m rest) (merge_states s t) o2 n2 merged

  nested_open :
      (cs1 cs2 : List (Change V)) (o : ObjectId → Option V) (n : ℕ → ℕ) (a m : ℕ) (b : Bool)
      (ss : List (UndoState V)) {d1 d2 : ObjectDatabase V}
      → b ≡ false
      → 0 < m
      → IsNumbered o n
      → apply_changes cs1 (
          begin (record {
            objects = o;
            next_id = n;
            undo_db = record { active_sessions = a; disabled = b; stack = ss; max_size = m };
          }))
        ≡ ok d1
      → apply_changes cs2 (begin d1) ≡ ok d2
      → (merge d2.undo_db >>= λ u. undo (set_undo u d2))
        ≡ ok (record {
          objects = o;
          next_id = n;
          undo_db = record {
            active_sessions = a;
            disabled = b;
            stack = trim (m - 1) (trim m ss);
            max_size = m;
          };
        })
  nested_open cs1 cs2 o n a m true ss on some_room numbered h1 h2 = cc
  nested_open cs1 cs2 o n a zero false ss on some_room numbered h1 h2 = absurd (omega arith)
  nested_open cs1 cs2 o n a (suc m) false ss {d1} {d2} on some_room numbered h1 h2 =
      let rest = trim (suc m) ss in
      let begun = start_open false false a (suc m) ss refl in
      let h1' =
        subst (λ x. apply_changes cs1 (record { objects = o; next_id = n; undo_db = x.0 }) ≡ ok d1)
          begun h1 in
      let (s, o1, n1, same, r) =
        apply_changes-During cs1 o n (suc a) (suc m) rest empty_state o n
          (empty_state-Recorded o n numbered) h1' in
      let h2' = subst (λ x. apply_changes cs2 (begin x) ≡ ok d2) same h2 in
      let one_less : suc m - 1 ≡ m = omega arith in
      rw one_less (nested cs2 o n a m rest s o1 n1 r h2')

  -- In a database whose objects are numbered below their next ids, with tracking enabled and room
  -- for a state on the stack, a session is begun and objects are created, modified and removed;
  -- then a second session is begun in it and more objects are; none of the changes raises. Merging
  -- the second session and undoing the first then raises nothing, and gives back the database with
  -- the objects, the next ids and the number of active sessions that it had at the beginning, and
  -- the stack that it had, cut as each session cuts it.
  pub undo-merge :
      (cs1 cs2 : List (Change V)) (d d1 d2 : ObjectDatabase V)
      → d.undo_db.disabled ≡ false
      → 0 < d.undo_db.max_size
      → IsNumbered d.objects d.next_id
      → apply_changes cs1 (begin d) ≡ ok d1
      → apply_changes cs2 (begin d1) ≡ ok d2
      → (merge d2.undo_db >>= λ u. undo (set_undo u d2))
        ≡ ok (
            set_undo
              (record d.undo_db {
                stack = trim (d.undo_db.max_size - 1) (trim d.undo_db.max_size d.undo_db.stack);
              })
              d)
  undo-merge cs1 cs2 d d1 d2 on some_room numbered h1 h2 =
      nested_open cs1 cs2 d.objects d.next_id d.undo_db.active_sessions d.undo_db.max_size
        d.undo_db.disabled d.undo_db.stack on some_room numbered h1 h2
