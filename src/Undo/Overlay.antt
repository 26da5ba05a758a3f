-- ===== src/Undo/Overlay.antt =====
-- What undoing the changes that a state has noted makes of the objects.
use fin_chain_core.Prelude.{
  ℕ, ap, if◌then◌else◌, true, Option, none, some, [], ◌∷◌, ◌≡◌, refl, sym, ap, ◌∙◌, subst,
  Bool-cases, inl, inr,
}
use fin_chain_core.Prelude.Maps.{Map, lookup, write, overlay, overlay-write, Distinct, nat_key}
use fin_chain_core.Prelude.Results.{Result, ok, ◌>>=◌}
use fin_chain_core.Undo.{
  ObjectId, id_key, same_id, same_id_refl, same_id_sound, UndoState, UndoDatabase, ObjectDatabase,
  at_back, track, note_modify, note_remove, get_object, insert, modify, remove, set_next_id,
}
use fin_chain_core.Undo.Restore.{for_each, restore}

module _ {ℓ} {V : Type ℓ} where
  track_disabled :
      (f : UndoState V → UndoState V) (u : UndoDatabase V) → u.disabled ≡ true → track f u ≡ u
  track_disabled f u off =
      subst (λ b. (if b then u else record u { stack = at_back f u.stack }) ≡ u) (sym off) refl

  pub modify_present :
      (i : ObjectId) (change : V → V) (d : ObjectDatabase V) {v : V}
      → d.objects i ≡ some v
      → modify i change d
        ≡ ok (record d {
          objects = write i (some (change v)) d.objects;
          undo_db = track (note_modify i v) d.undo_db;
        })
  unfolding modify
  modify_present i change d here = rw (modify, get_object, here)

  pub remove_present :
      (i : ObjectId) (d : ObjectDatabase V) {v : V}
      → d.objects i ≡ some v
      → remove i d
        ≡ ok (record d {
          objects = write i none d.objects;
          undo_db = track (note_remove i v) d.undo_db;
        })
  unfolding remove
  remove_present i d here = rw (remove, get_object, here)

  insert_absent :
      (i : ObjectId) (v : V) (d : ObjectDatabase V)
      → d.objects i ≡ none
      → insert i v d ≡ ok (record d { objects = write i (some v) d.objects })
  unfolding insert
  insert_absent i v d free = rw (insert, free)

  abbrev pub Present : Option V → Type ℓ
  Present o = (v : V) × (o ≡ some v)

  -- With tracking disabled, nothing is noted.
  modify_untracked :
      (i : ObjectId) (change : V → V) (d : ObjectDatabase V)
      → d.undo_db.disabled ≡ true
      → (here : Present (d.objects i))
      → modify i change d ≡ ok (record d { objects = write i (some (change here.0)) d.objects })
  modify_untracked i change d off (v, here) =
      modify_present i change d here
      ∙ ap
          (λ (u : UndoDatabase V).
            ok (record d { objects = write i (some (change v)) d.objects; undo_db = u }))
          (track_disabled (note_modify i v) d.undo_db off)

  remove_untracked :
      (i : ObjectId) (d : ObjectDatabase V)
      → d.undo_db.disabled ≡ true
      → Present (d.objects i)
      → remove i d ≡ ok (record d { objects = write i none d.objects })
  remove_untracked i d off (v, here) =
      remove_present i d here
      ∙ ap (λ (u : UndoDatabase V). ok (record d { objects = write i none d.objects; undo_db = u }))
          (track_disabled (note_remove i v) d.undo_db off)

  -- A loop whose body writes one object.
  module _ {κ μ} {U : Type κ} (f : ObjectId → U → ObjectDatabase V → Result (ObjectDatabase V))
      (g : U → Option V) (Allowed : Option V → Type μ)
      (body : (i : ObjectId) (u : U) (d : ObjectDatabase V)
        → d.undo_db.disabled ≡ true
        → Allowed (d.objects i)
        → f i u d ≡ ok (record d { objects = write i (g u) d.objects })) where
    still_allowed :
        (i : ObjectId) (u : U) (m : Map ObjectId U) (h : ObjectId → Option V)
        → lookup i m ≡ none
        → ((j : ObjectId) (w : U) → lookup j ((i, u) ∷ m) ≡ some w → Allowed (h j))
        → (j : ObjectId) (w : U) → lookup j m ≡ some w
        → Allowed (write i (g u) h j)
    unfolding lookup
    still_allowed i u m h new allowed j w bound = elim (Bool-cases (same_id i j)) [
      | inl same ↦ let free = subst (λ x. lookup x m ≡ none) (same_id_sound i j same) new in cc
      | inr other ↦ rw other (allowed j w (rw other bound))
    ]

    pub for_each-overlay :
        (m : Map ObjectId U) (d : ObjectDatabase V)
        → d.undo_db.disabled ≡ true
        → Distinct m
        → ((i : ObjectId) (u : U) → lookup i m ≡ some u → Allowed (d.objects i))
        → for_each f m d ≡ ok (record d { objects = overlay g m d.objects })
    unfolding lookup
    for_each-overlay [] d off distinct allowed = refl
    for_each-overlay ((i, u) ∷ m) d off (new, distinct) allowed =
        let first = body i u d off (allowed i u (rw (same_id_refl i))) in
        ap (λ (r : Result (ObjectDatabase V)). r >>= for_each f m) first
        ∙ for_each-overlay m (record d { objects = write i (g u) d.objects }) off distinct
            (still_allowed i u m d.objects new allowed)
        ∙ ap (λ (o : ObjectId → Option V). ok (record d { objects = o }))
            (overlay-write g i u m d.objects new)

  for_each-set_next_id :
      (m : Map ℕ ℕ) (d : ObjectDatabase V)
      → Distinct m
      → for_each set_next_id m d ≡ ok (record d { next_id = overlay (λ n. n) m d.next_id })
  unfolding lookup
  for_each-set_next_id [] d distinct = refl
  for_each-set_next_id ((k, n) ∷ m) d (new, distinct) =
      for_each-set_next_id m (record d { next_id = write k n d.next_id }) distinct
      ∙ ap (λ (h : ℕ → ℕ). ok (record d { next_id = h }))
          (overlay-write (λ n'. n') k n m d.next_id new)

  -- No entry of a state is there twice.
  abbrev pub IsDistinct : UndoState V → Type ℓ
  IsDistinct s =
      Distinct s.old_values
      × Distinct s.old_index_next_ids
      × Distinct s.new_ids
      × Distinct s.removed

  -- The objects without the changes and the additions, and then with what was removed.
  abbrev pub without_new : UndoState V → (ObjectId → Option V) → ObjectId → Option V
  without_new s h = overlay (λ u. none) s.new_ids (overlay some s.old_values h)

  abbrev pub restored : UndoState V → (ObjectId → Option V) → ObjectId → Option V
  restored s h = overlay some s.removed (without_new s h)

  pub restore_lem :
      (s : UndoState V) (d : ObjectDatabase V)
      → d.undo_db.disabled ≡ true
      → IsDistinct s
      → ((i : ObjectId) (v : V) → lookup i s.old_values ≡ some v → Present (d.objects i))
      → ((i : ObjectId) (u : Unit {0})
          → lookup i s.new_ids ≡ some u
          → Present (overlay some s.old_values d.objects i))
      → ((i : ObjectId) (v : V) → lookup i s.removed ≡ some v → without_new s d.objects i ≡ none)
      → restore s d
        ≡ ok (record d {
          objects = restored s d.objects;
          next_id = overlay (λ n. n) s.old_index_next_ids d.next_id;
        })
  unfolding restore
  restore_lem s d off distinct was_there is_there is_gone =
      let d1 : ObjectDatabase V = record d { objects = overlay some s.old_values d.objects } in
      let d2 : ObjectDatabase V = record d { objects = without_new s d.objects } in
      let d3 : ObjectDatabase V = record d2 {
        next_id = overlay (λ n. n) s.old_index_next_ids d.next_id;
      } in
      let old =
        for_each-overlay (λ i v d'. modify i (λ w. v) d') some Present
          (λ i v d' off' here. modify_untracked i (λ w. v) d' off' here) s.old_values d off
          distinct.0 was_there in
      let new =
        for_each-overlay (λ i u d'. remove i d') (λ u. none) Present
          (λ i u d' off' here. remove_untracked i d' off' here) s.new_ids d1 off distinct.2
          is_there in
      let nexts = for_each-set_next_id s.old_index_next_ids d2 distinct.1 in
      let gone =
        for_each-overlay insert some (λ o. o ≡ none) (λ i v d' off' free. insert_absent i v d' free)
          s.removed d3 off distinct.3 is_gone in
      rw (old, new, nexts, gone) refl
