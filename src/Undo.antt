-- ===== src/Undo.antt =====
-- The object database and its undo database (libraries/db/undo_database.cpp,
-- libraries/db/object_database.cpp and their headers, with
-- libraries/db/include/graphene/db/generic_index.hpp): objects under their ids, changed by
-- operations that note in the state on top of a stack what is needed to take them back.
--
-- An object is given by its id and its other members, of a type V. An id is the index that it
-- belongs to, its space and type as one number, and its instance. The only unique key of an index
-- here is the id. Objects are loaded and saved by code that is not modelled, and so are observers
-- and secondary indexes.
use fin_chain_core.Prelude.{
  ℕ, suc, ◌-◌, Bool, true, false, not, Option, none, some, List, [], ◌∷◌, ◌&&◌, ◌==◌, ltb,
  if◌then◌else◌, length, Bool-cases, inl, inr, ◌≡◌, zero, ==_iff, ==_refl, arith,
}
use fin_chain_core.Prelude.Maps.{Key, Map, nat_key, lookup, put, erase, write}
use fin_chain_core.Prelude.Results.{Result, ok, err, assert_exception, ◌>>=◌, ◌>>◌, fc_assert}
pub mod Restore
pub mod Overlay
pub mod Preserved
pub mod Changes
pub mod Merge
pub mod Sessions
pub mod Composition
pub mod Merged
pub mod Roundtrip
pub mod Nested
pub mod Committed
mod Tests
pub mod Invariant
pub mod Tracking

-- struct object_id_type
pub record ObjectId : Type 0 where
  pub space_type : ℕ
  pub instance_id : ℕ

-- `a == b`
abbrev pub same_id : ObjectId → ObjectId → Bool
same_id a b = (a.space_type == b.space_type) && (a.instance_id == b.instance_id)

pub same_id_refl : (a : ObjectId) → same_id a a ≡ true
same_id_refl a = rw (==_refl a.space_type, ==_refl a.instance_id)

pub same_id_sound : (a b : ObjectId) → same_id a b ≡ true → a ≡ b
same_id_sound a b h =
    let same_type : a.space_type ≡ b.space_type = ground arith in
    let same_instance : a.instance_id ≡ b.instance_id = ground arith in
    λ t. record { space_type = same_type t; instance_id = same_instance t }

instance abbrev pub id_key : Key ObjectId
id_key = record { same = same_id; same_refl = same_id_refl; same_sound = same_id_sound }

-- struct undo_state: of the objects, the values that were changed, the ids that are new, and the
-- values that were removed; of the indexes, the ids that were next.
pub record UndoState {ℓ} (V : Type ℓ) : Type ℓ where
  pub old_values : Map ObjectId V
  pub old_index_next_ids : Map ℕ ℕ
  pub new_ids : Map ObjectId (Unit {0})
  pub removed : Map ObjectId V

-- class undo_database; the back of the stack comes first
pub record UndoDatabase {ℓ} (V : Type ℓ) : Type ℓ where
  pub active_sessions : ℕ
  pub disabled : Bool
  pub stack : List (UndoState V)
  pub max_size : ℕ

-- undo_database::session
pub record Session : Type 0 where
  pub apply_undo : Bool
  pub disable_on_exit : Bool

-- class object_database, with the next id of each of its indexes
pub record ObjectDatabase {ℓ} (V : Type ℓ) : Type ℓ where
  pub objects : ObjectId → Option V
  pub next_id : ℕ → ℕ
  pub undo_db : UndoDatabase V

module _ {ℓ} {V : Type ℓ} where
  abbrev pub empty_state : UndoState V
  empty_state = record { old_values = []; old_index_next_ids = []; new_ids = []; removed = [] }

  -- undo_database::enable and disable
  abbrev pub set_disabled : Bool → UndoDatabase V → UndoDatabase V
  set_disabled b u = record u { disabled = b }

  -- `while( size() > max_size() ) _stack.pop_front()`: the newest states stay.
  abbrev pub trim : ℕ → List (UndoState V) → List (UndoState V)
  trim zero ss = []
  trim (suc n) [] = []
  trim (suc n) (s ∷ ss) = s ∷ trim n ss

  -- undo_database::start_undo_session
  unfoldable pub start_undo_session : Bool → UndoDatabase V → UndoDatabase V × Session
  start_undo_session force_enable u =
      if u.disabled && not force_enable
      then (u, record { apply_undo = true; disable_on_exit = false })
      else (
        record u {
          active_sessions = suc u.active_sessions;
          disabled = if force_enable then false else u.disabled;
          stack = empty_state ∷ trim u.max_size u.stack;
        },
        record { apply_undo = true; disable_on_exit = u.disabled && force_enable },
      )

  -- A change of the state at the back of the stack, which is begun if there is none.
  abbrev pub at_back : (UndoState V → UndoState V) → List (UndoState V) → List (UndoState V)
  at_back f [] = f empty_state ∷ []
  at_back f (s ∷ ss) = f s ∷ ss

  abbrev pub track : (UndoState V → UndoState V) → UndoDatabase V → UndoDatabase V
  track f u = if u.disabled then u else record u { stack = at_back f u.stack }

  -- undo_database::on_create
  unfoldable pub note_create : ObjectId → UndoState V → UndoState V
  note_create i s = record s {
    old_index_next_ids = elim (lookup i.space_type s.old_index_next_ids) [
      | none ↦ put i.space_type i.instance_id s.old_index_next_ids
      | some n ↦ s.old_index_next_ids
    ];
    new_ids = put i tt s.new_ids;
  }

  -- undo_database::on_modify
  unfoldable pub note_modify : ObjectId → V → UndoState V → UndoState V
  note_modify i v s = elim (lookup i s.new_ids) [
    | some u ↦ s
    | none ↦ elim (lookup i s.old_values) [
      | some w ↦ s
      | none ↦ record s { old_values = put i v s.old_values }
    ]
  ]

  -- undo_database::on_remove
  unfoldable pub note_remove : ObjectId → V → UndoState V → UndoState V
  note_remove i v s = elim (lookup i s.new_ids) [
    | some u ↦ record s { new_ids = erase i s.new_ids }
    | none ↦ elim (lookup i s.old_values) [
      | some w ↦ record s { removed = put i w s.removed; old_values = erase i s.old_values }
      | none ↦ elim (lookup i s.removed) [
        | some w ↦ s
        | none ↦ record s { removed = put i v s.removed }
      ]
    ]
  ]

  -- object_database::get_object
  abbrev pub get_object : ObjectId → ObjectDatabase V → Result V
  get_object i d = elim (d.objects i) [ none ↦ err assert_exception | some v ↦ ok v ]

  abbrev pub absent : Option V → Bool
  absent none = true
  absent (some v) = false

  -- generic_index::insert
  unfoldable pub insert : ObjectId → V → ObjectDatabase V → Result (ObjectDatabase V)
  insert i v d = do
    fc_assert (absent (d.objects i))
    ok (record d { objects = write i (some v) d.objects })

  -- object_database::create, through primary_index::create and generic_index::create
  unfoldable pub create : ℕ → V → ObjectDatabase V → Result (ObjectDatabase V)
  create k v d = do
    fc_assert (absent (d.objects (record { space_type = k; instance_id = d.next_id k })))
    ok (record {
      objects = write (record { space_type = k; instance_id = d.next_id k }) (some v) d.objects;
      next_id = write k (suc (d.next_id k)) d.next_id;
      undo_db =
          track (note_create (record { space_type = k; instance_id = d.next_id k })) d.undo_db;
    })

  -- object_database::modify, through primary_index::modify
  unfoldable pub modify : ObjectId → (V → V) → ObjectDatabase V → Result (ObjectDatabase V)
  modify i change d = do
    v ← get_object i d
    ok (record d {
      objects = write i (some (change v)) d.objects;
      undo_db = track (note_modify i v) d.undo_db;
    })

  -- object_database::remove, through primary_index::remove
  unfoldable pub remove : ObjectId → ObjectDatabase V → Result (ObjectDatabase V)
  remove i d = do
    v ← get_object i d
    ok (record d { objects = write i none d.objects; undo_db = track (note_remove i v) d.undo_db })

  -- index::set_next_id
  abbrev pub set_next_id : ℕ → ℕ → ObjectDatabase V → Result (ObjectDatabase V)
  set_next_id k n d = ok (record d { next_id = write k n d.next_id })
