-- ===== src/Undo/Changes.antt =====
-- The changes that code makes in a session: objects are created, modified and removed.
use fin_chain_core.Prelude.{
  ℕ, ◌≡◌, refl, sym, ap, subst, true, false, Option, none, some, List, [], ◌∷◌,
}
use fin_chain_core.Prelude.Results.{
  Result, ok, err, assert_exception, ◌>>=◌, >>=-eq-ok, ok-injective, fc_assert, ensure-eq-ok,
}
use fin_chain_core.Undo.{
  ObjectId, id_key, UndoState, ObjectDatabase, get_object, absent, create, modify, remove,
}
use fin_chain_core.Undo.Invariant.{Recorded}
use fin_chain_core.Undo.Preserved.{create-Recorded, modify-Recorded, remove-Recorded}

pub data Change {ℓ} (V : Type ℓ) : Type ℓ where
  create_object : ℕ → V → Change V
  modify_object : ObjectId → (V → V) → Change V
  remove_object : ObjectId → Change V

module _ {ℓ} {V : Type ℓ} where
  abbrev pub apply_change : Change V → ObjectDatabase V → Result (ObjectDatabase V)
  apply_change (create_object k v) d = create k v d
  apply_change (modify_object i f) d = modify i f d
  apply_change (remove_object i) d = remove i d

  abbrev pub apply_changes : List (Change V) → ObjectDatabase V → Result (ObjectDatabase V)
  apply_changes [] d = ok d
  apply_changes (c ∷ cs) d = apply_change c d >>= apply_changes cs

  -- The database in a session, with a active sessions.
  abbrev pub during :
      ℕ → ℕ → List (UndoState V) → UndoState V → (ObjectId → Option V) → (ℕ → ℕ) → ObjectDatabase V
  during a m rest s o n = record {
    objects = o;
    next_id = n;
    undo_db = record { active_sessions = a; disabled = false; stack = s ∷ rest; max_size = m };
  }

  -- In the session that began with the objects was and the next ids before.
  abbrev pub During :
      (ObjectId → Option V) → (ℕ → ℕ) → ℕ → ℕ → List (UndoState V) → ObjectDatabase V → Type ℓ
  During was before a m rest d =
      (s : UndoState V) × (o : ObjectId → Option V) × (n : ℕ → ℕ) × (d ≡ during a m rest s o n)
      × Recorded was before s o n

  absent→none : (x : Option V) → absent x ≡ true → x ≡ none
  absent→none none h = refl
  absent→none (some v) h = cc

  get_object-eq-ok :
      (i : ObjectId) (d : ObjectDatabase V) {v : V} → get_object i d ≡ ok v → d.objects i ≡ some v
  get_object-eq-ok i d {v} h = found (d.objects i) h
    where
      found :
          (x : Option V)
          → (elim x [ none ↦ err assert_exception | some w ↦ ok w ]) ≡ ok v
          → x ≡ some v
      found none e = cc
      found (some w) e = ap (λ (y : V). some y) (ok-injective e)

  pub apply_change-During :
      (c : Change V) (was : ObjectId → Option V) (before : ℕ → ℕ) (a m : ℕ)
      (rest : List (UndoState V)) (s : UndoState V) (o : ObjectId → Option V) (n : ℕ → ℕ)
      {d' : ObjectDatabase V}
      → Recorded was before s o n
      → apply_change c (during a m rest s o n) ≡ ok d'
      → During was before a m rest d'
  unfolding create modify remove
  apply_change-During (create_object k v) was before a m rest s o n r h =
      let i : ObjectId = record { space_type = k; instance_id = n k } in
      let (u, test, end) = >>=-eq-ok (fc_assert (absent (o i))) _ h in
      let free = absent→none (o i) (ensure-eq-ok _ _ test) in
      (_, _, _, sym (ok-injective end), create-Recorded was before s o n i v refl free r)
  apply_change-During (modify_object i f) was before a m rest s o n r h =
      let (v, got, end) = >>=-eq-ok (get_object i (during a m rest s o n)) _ h in
      let here = get_object-eq-ok i (during a m rest s o n) got in
      (_, _, _, sym (ok-injective end), modify-Recorded was before s o n i v (f v) here r)
  apply_change-During (remove_object i) was before a m rest s o n r h =
      let (v, got, end) = >>=-eq-ok (get_object i (during a m rest s o n)) _ h in
      let here = get_object-eq-ok i (during a m rest s o n) got in
      (_, _, _, sym (ok-injective end), remove-Recorded was before s o n i v here r)

  pub apply_changes-During :
      (cs : List (Change V)) (was : ObjectId → Option V) (before : ℕ → ℕ) (a m : ℕ)
      (rest : List (UndoState V)) (s : UndoState V) (o : ObjectId → Option V) (n : ℕ → ℕ)
      {d' : ObjectDatabase V}
      → Recorded was before s o n
      → apply_changes cs (during a m rest s o n) ≡ ok d'
      → During was before a m rest d'
  apply_changes-During [] was before a m rest s o n r h = (s, o, n, sym (ok-injective h), r)
  apply_changes-During (c ∷ cs) was before a m rest s o n {d'} r h =
      let (d1, first, later) = >>=-eq-ok (apply_change c (during a m rest s o n)) _ h in
      let (s1, o1, n1, same, r1) = apply_change-During c was before a m rest s o n r first in
      apply_changes-During cs was before a m rest s1 o1 n1 r1
        (subst (λ x. apply_changes cs x ≡ ok d') same later)
