-- ===== src/Undo/Invariant.antt =====
-- The invariant of a session: the state on top of the stack says how the objects differ from those
-- at the beginning of the session.
use fin_chain_core.Prelude.{
  ℕ, suc, ◌≤◌, ◌<◌, ◌≡◌, refl, subst, false, Option, none, some, Bool-cases, inl, inr, arith, ◌==◌,
  ==_iff,
}
use fin_chain_core.Prelude.Maps.{nat_key, lookup, write, overlay}
use fin_chain_core.Undo.{ObjectId, id_key, same_id, same_id_sound, UndoState, empty_state}
use fin_chain_core.Undo.Overlay.{Present, IsDistinct}
use fin_chain_core.Undo.Tracking.{Entry, entry, created_entry, modified_entry, removed_entry}

-- What the entry of the instance i says, when n was the next instance of its index, of the value
-- that the object had and of the value that it has now.
pub data Tracks {ℓ} {V : Type ℓ} (i n : ℕ) (was now : Option V) : Entry V → Type ℓ where
  untouched : was ≡ now → Tracks i n was now (record { old = none; fresh = none; gone = none })
  created :
      {u : Unit {0}}
      → n ≤ i
      → was ≡ none
      → Present now
      → Tracks i n was now (record { old = none; fresh = some u; gone = none })
  changed :
      {v : V}
      → was ≡ some v
      → Present now
      → Tracks i n was now (record { old = some v; fresh = none; gone = none })
  deleted :
      {v : V}
      → i < n
      → was ≡ some v
      → now ≡ none
      → Tracks i n was now (record { old = none; fresh = none; gone = some v })

-- The next id of one index goes up.
pub next_up : (k j : ℕ) (n : ℕ → ℕ) → n j ≤ write k (suc (n k)) n j
next_up k j n = elim (Bool-cases (k == j)) [
  | inl same ↦ rw (same, (==_iff k j).0 same) (omega arith)
  | inr other ↦ rw other (omega arith)
]

module _ {ℓ} {V : Type ℓ} where
  pub Tracks-create :
      {i n : ℕ} {was : Option V} {e : Entry V} (v : V)
      → n ≤ i
      → Tracks i n was none e
      → Tracks i n was (some v) (created_entry e)
  Tracks-create v later (untouched same) = created later same (v, refl)
  Tracks-create v later (created _ _ (w, here)) = cc
  Tracks-create v later (changed _ (w, here)) = cc
  Tracks-create v later (deleted earlier _ _) = absurd (omega arith)

  pub Tracks-modify :
      {i n : ℕ} {was : Option V} {e : Entry V} (v w : V)
      → Tracks i n was (some v) e
      → Tracks i n was (some w) (modified_entry v e)
  Tracks-modify v w (untouched same) = changed same (w, refl)
  Tracks-modify v w (created later new here) = created later new (w, refl)
  Tracks-modify v w (changed old here) = changed old (w, refl)
  Tracks-modify v w (deleted earlier old gone) = cc

  pub Tracks-remove :
      {i n : ℕ} {was : Option V} {e : Entry V} (v : V)
      → ((w : V) → was ≡ some w → i < n)
      → Tracks i n was (some v) e
      → Tracks i n was none (removed_entry v e)
  Tracks-remove v known (untouched same) = deleted (known v same) same refl
  Tracks-remove v known (created later new here) = untouched new
  Tracks-remove v known (changed {v = w} old here) = deleted (known w old) old refl
  Tracks-remove v known (deleted earlier old gone) = cc

  -- Every object that there is has an instance below the next one.
  abbrev pub IsNumbered : (ObjectId → Option V) → (ℕ → ℕ) → Type ℓ
  IsNumbered o n = (i : ObjectId) (v : V) → o i ≡ some v → i.instance_id < n i.space_type

  abbrev pub TracksAll :
      (ObjectId → Option V) → (ℕ → ℕ) → UndoState V → (ObjectId → Option V) → Type ℓ
  TracksAll was before s o =
      (i : ObjectId) → Tracks i.instance_id (before i.space_type) (was i) (o i) (entry i s)

  -- The state s records how the objects o with the next ids n differ from those before.
  pub record Recorded (was : ObjectId → Option V) (before : ℕ → ℕ) (s : UndoState V)
      (o : ObjectId → Option V) (n : ℕ → ℕ) : Type ℓ where
    pub known : IsNumbered was before
    pub known_now : IsNumbered o n
    pub tracked : TracksAll was before s o
    pub next_rises : (k : ℕ) → before k ≤ n k
    pub next_tracked : (k : ℕ) → overlay (λ m. m) s.old_index_next_ids n k ≡ before k
    pub distinct : IsDistinct s

  -- At the beginning nothing differs.
  pub empty_state-Recorded :
      (o : ObjectId → Option V) (n : ℕ → ℕ) → IsNumbered o n → Recorded o n empty_state o n
  unfolding lookup
  empty_state-Recorded o n numbered = record {
    known = numbered;
    known_now = numbered;
    tracked = λ i. untouched refl;
    next_rises = λ k. omega arith;
    next_tracked = λ k. refl;
    distinct = (tt, tt, tt, tt);
  }

  -- One object is written, and only its entry changes.
  pub write-TracksAll :
      (was : ObjectId → Option V) (before : ℕ → ℕ) (s s' : UndoState V) (o : ObjectId → Option V)
      (i : ObjectId) (w : Option V)
      → ((j : ObjectId) → same_id i j ≡ false → entry j s' ≡ entry j s)
      → Tracks i.instance_id (before i.space_type) (was i) w (entry i s')
      → TracksAll was before s o
      → TracksAll was before s' (write i w o)
  write-TracksAll was before s s' o i w others here all j = elim (Bool-cases (same_id i j)) [
    | inl same ↦ rw same (
        subst (λ x. Tracks x.instance_id (before x.space_type) (was x) w (entry x s'))
          (same_id_sound i j same) here)
    | inr other ↦ rw (other, others j other) (all j)
  ]

  pub write-IsNumbered :
      (i : ObjectId) (w : Option V) (o : ObjectId → Option V) (n : ℕ → ℕ)
      → ((v : V) → w ≡ some v → i.instance_id < n i.space_type)
      → IsNumbered o n
      → IsNumbered (write i w o) n
  write-IsNumbered i w o n here all j v h = elim (Bool-cases (same_id i j)) [
    | inl same ↦
        subst (λ x. x.instance_id < n x.space_type) (same_id_sound i j same) (here v (rw same at h))
    | inr other ↦ all j v (rw other at h)
  ]
