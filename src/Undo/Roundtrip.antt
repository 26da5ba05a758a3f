-- ===== src/Undo/Roundtrip.antt =====
-- Undoing a session gives back the objects and the next ids.
use fin_chain_core.Prelude.{
  ℕ, suc, ◌-◌, ◌≡◌, refl, sym, ap, ◌∙◌, subst, true, false, Option, none, some, List, ◌∷◌, ◌&&◌,
  not, Bool, lt→ltb, arith,
}
use mathlib.Core.Path.{fun_ext}
use fin_chain_core.Prelude.Maps.{nat_key, overlay}
use fin_chain_core.Prelude.Results.{ok}
use fin_chain_core.Undo.{
  ObjectId, id_key, UndoState, UndoDatabase, ObjectDatabase, Session, trim, start_undo_session,
  empty_state,
}
use fin_chain_core.Undo.Restore.{restore, set_undo, undo}
use fin_chain_core.Undo.Overlay.{Present, restored, restore_lem}
use fin_chain_core.Undo.Sessions.{close_session}
use fin_chain_core.Undo.Tracking.{Entry}
use fin_chain_core.Undo.Invariant.{
  Tracks, untouched, created, changed, deleted, Recorded, IsNumbered, empty_state-Recorded,
}
use fin_chain_core.Undo.Changes.{Change, apply_changes, apply_changes-During, during}

module _ {ℓ} {V : Type ℓ} where
  -- The value of an object after what its entry says has been taken back: first without the
  -- removal, then with it.
  abbrev value_before_removal : Entry V → Option V → Option V
  value_before_removal e now = elim e.fresh [
    | none ↦ elim e.old [ none ↦ now | some v ↦ some v ]
    | some u ↦ none
  ]

  abbrev value_of : Entry V → Option V → Option V
  value_of e now = elim e.gone [ none ↦ value_before_removal e now | some v ↦ some v ]

  value_of-Tracks :
      {i n : ℕ} {was now : Option V} {e : Entry V} → Tracks i n was now e → value_of e now ≡ was
  value_of-Tracks (untouched same) = sym same
  value_of-Tracks (created later new here) = sym new
  value_of-Tracks (changed old here) = sym old
  value_of-Tracks (deleted earlier old gone) = sym old

  Tracks-old :
      {i n : ℕ} {was now : Option V} {e : Entry V} {v : V}
      → Tracks i n was now e
      → e.old ≡ some v
      → Present now
  Tracks-old (untouched same) h = cc
  Tracks-old (created later new here) h = cc
  Tracks-old (changed old here) h = here
  Tracks-old (deleted earlier old gone) h = cc

  Tracks-fresh :
      {i n : ℕ} {was now : Option V} {e : Entry V} {u : Unit {0}}
      → Tracks i n was now e
      → e.fresh ≡ some u
      → Present (elim e.old [ none ↦ now | some v ↦ some v ])
  Tracks-fresh (untouched same) h = cc
  Tracks-fresh (created later new here) h = here
  Tracks-fresh (changed old here) h = cc
  Tracks-fresh (deleted earlier old gone) h = cc

  Tracks-gone :
      {i n : ℕ} {was now : Option V} {e : Entry V} {v : V}
      → Tracks i n was now e
      → e.gone ≡ some v
      → value_before_removal e now ≡ none
  Tracks-gone (untouched same) h = cc
  Tracks-gone (created later new here) h = cc
  Tracks-gone (changed old here) h = cc
  Tracks-gone (deleted earlier old gone) h = gone

  pub restore-Recorded :
      (was : ObjectId → Option V) (before : ℕ → ℕ) (a m : ℕ) (rest : List (UndoState V))
      (s : UndoState V) (o : ObjectId → Option V) (n : ℕ → ℕ)
      → Recorded was before s o n
      → restore s (record {
        objects = o;
        next_id = n;
        undo_db = record { active_sessions = a; disabled = true; stack = s ∷ rest; max_size = m };
      })
        ≡ ok (record {
          objects = was;
          next_id = before;
          undo_db = record { active_sessions = a; disabled = true; stack = s ∷ rest; max_size = m };
        })
  restore-Recorded was before a m rest s o n r =
      let u : UndoDatabase V = record {
        active_sessions = a;
        disabled = true;
        stack = s ∷ rest;
        max_size = m;
      } in
      let back =
        restore_lem s (record { objects = o; next_id = n; undo_db = u }) refl r.distinct
          (λ i v h. Tracks-old (r.tracked i) h) (λ i w h. Tracks-fresh (r.tracked i) h)
          (λ i v h. Tracks-gone (r.tracked i) h) in
      let objects_back : restored s o ≡ was = fun_ext (λ i. value_of-Tracks (r.tracked i)) in
      let next_back : overlay (λ k. k) s.old_index_next_ids n ≡ before = fun_ext r.next_tracked in
      rw (back, objects_back, next_back)

  pub undo-Recorded :
      (was : ObjectId → Option V) (before : ℕ → ℕ) (a m : ℕ) (rest : List (UndoState V))
      (s : UndoState V) (o : ObjectId → Option V) (n : ℕ → ℕ)
      → Recorded was before s o n
      → undo (during (suc a) m rest s o n)
        ≡ ok (record {
          objects = was;
          next_id = before;
          undo_db = record { active_sessions = a; disabled = false; stack = rest; max_size = m };
        })
  unfolding undo
  undo-Recorded was before a m rest s o n r =
      let back = restore-Recorded was before (suc a) m rest s o n r in
      let running = lt→ltb 0 (suc a) (omega arith) in
      let one_less : suc a - 1 ≡ a = omega arith in rw (back, running, one_less)

  pub start_open :
      (force b : Bool) (a m : ℕ) (ss : List (UndoState V))
      → (b && not force) ≡ false
      → start_undo_session force
          (record { active_sessions = a; disabled = b; stack = ss; max_size = m })
        ≡ (
          record {
            active_sessions = suc a;
            disabled = false;
            stack = empty_state ∷ trim m ss;
            max_size = m;
          },
          record { apply_undo = true; disable_on_exit = b && force },
        )
  unfolding start_undo_session
  start_open true true a m ss h = refl
  start_open true false a m ss h = refl
  start_open false true a m ss h = cc
  start_open false false a m ss h = refl

  close_open :
      (was : ObjectId → Option V) (before : ℕ → ℕ) (force b : Bool) (a m : ℕ)
      (rest : List (UndoState V)) (s : UndoState V) (o : ObjectId → Option V) (n : ℕ → ℕ)
      → (b && not force) ≡ false
      → Recorded was before s o n
      → close_session
          (record { apply_undo = true; disable_on_exit = b && force })
          (during (suc a) m rest s o n)
        ≡ ok (record {
          objects = was;
          next_id = before;
          undo_db = record { active_sessions = a; disabled = b; stack = rest; max_size = m };
        })
  unfolding close_session
  close_open was before true true a m rest s o n h r =
      rw (undo-Recorded was before a m rest s o n r)
  close_open was before true false a m rest s o n h r =
      rw (undo-Recorded was before a m rest s o n r)
  close_open was before false true a m rest s o n h r = cc
  close_open was before false false a m rest s o n h r =
      rw (undo-Recorded was before a m rest s o n r)

  -- A session is begun in a database whose objects are numbered below their next ids, with tracking
  -- enabled or by force; objects are then created, modified and removed in any order, and none of
  -- the changes raises. When the session is destroyed, nothing raises, and the database has again
  -- the objects and the next ids that it had, the same number of active sessions, tracking as it
  -- was, and the stack that it had, cut to the maximal size.
  pub close_session-apply_changes :
      (force : Bool) (cs : List (Change V)) (d d' : ObjectDatabase V)
      → (d.undo_db.disabled && not force) ≡ false
      → IsNumbered d.objects d.next_id
      → apply_changes cs (set_undo (start_undo_session force d.undo_db).0 d) ≡ ok d'
      → close_session (start_undo_session force d.undo_db).1 d'
        ≡ ok (set_undo (record d.undo_db { stack = trim d.undo_db.max_size d.undo_db.stack }) d)
  close_session-apply_changes force cs d d' on numbered h =
      let u = d.undo_db in
      let rest = trim u.max_size u.stack in
      let begun = start_open force u.disabled u.active_sessions u.max_size u.stack on in
      let h' = subst (λ x. apply_changes cs (set_undo x.0 d) ≡ ok d') begun h in
      let (s, o, n, same, r) =
        apply_changes-During cs d.objects d.next_id (suc u.active_sessions) u.max_size rest
          empty_state d.objects d.next_id (empty_state-Recorded d.objects d.next_id numbered) h' in
      ap (λ (x : UndoDatabase V × Session). close_session x.1 d') begun
      ∙ ap (close_session (record { apply_undo = true; disable_on_exit = u.disabled && force }))
          same
      ∙ close_open d.objects d.next_id force u.disabled u.active_sessions u.max_size rest s o n on r
