-- ===== src/Undo/Tests.antt =====
-- An index with the objects 0 and 1, whose next instance is 2.
use fin_chain_core.Prelude.{
  ℕ, suc, ◌≡◌, refl, true, false, Option, none, some, List, [], ◌∷◌, arith,
}
use fin_chain_core.Prelude.Maps.{nat_key, write}
use fin_chain_core.Prelude.Results.{Result, ok, err, assert_exception, ◌>>=◌}
use fin_chain_core.Undo.{
  ObjectId, id_key, UndoDatabase, ObjectDatabase, start_undo_session, create, modify, remove,
}
use fin_chain_core.Undo.Restore.{set_undo, undo, commit, pop_commit}
use fin_chain_core.Undo.Invariant.{IsNumbered, write-IsNumbered}
use fin_chain_core.Undo.Changes.{Change, create_object, modify_object, remove_object, apply_changes}
use fin_chain_core.Undo.Merge.{merge}
use fin_chain_core.Undo.Sessions.{close_session}
use fin_chain_core.Undo.Roundtrip.{close_session-apply_changes}
use fin_chain_core.Undo.Nested.{begin, undo-merge}
use fin_chain_core.Undo.Committed.{pop_commit-commit, close_session_disabled}

abbrev object_id : ℕ → ObjectId
object_id i = record { space_type = 3; instance_id = i }

abbrev objects : ObjectId → Option ℕ
objects = write (object_id 0) (some 10) (write (object_id 1) (some 20) (λ i. none))

abbrev next_id : ℕ → ℕ
next_id = write 3 2 (λ k. 0)

numbered : IsNumbered objects next_id
numbered =
    write-IsNumbered (object_id 0) (some 10) (write (object_id 1) (some 20) (λ i. none)) next_id
      (λ v e. omega arith)
      (write-IsNumbered (object_id 1) (some 20) (λ i. none) next_id (λ v e. omega arith)
        (λ i v e. cc))

abbrev tracking : UndoDatabase ℕ
tracking = record { active_sessions = 0; disabled = false; stack = []; max_size = 256 }

abbrev start : ObjectDatabase ℕ
start = record { objects = objects; next_id = next_id; undo_db = tracking }

abbrev changes : List (Change ℕ)
changes =
    create_object 3 30
    ∷ modify_object (object_id 0) suc
    ∷ remove_object (object_id 1)
    ∷ modify_object (object_id 2) suc
    ∷ create_object 3 40
    ∷ remove_object (object_id 3)
    ∷ []

abbrev more_changes : List (Change ℕ)
more_changes =
    modify_object (object_id 0) suc
    ∷ remove_object (object_id 2)
    ∷ create_object 3 50
    ∷ remove_object (object_id 0)
    ∷ []

abbrev value_or {ℓ} : {A : Type ℓ} → A → Result A → A
value_or a (ok b) = b
value_or a (err e) = a

abbrev after : ObjectDatabase ℕ
after = value_or start (apply_changes changes (begin start))

abbrev later : ObjectDatabase ℕ
later = value_or start (apply_changes more_changes (begin after))

returns : apply_changes changes (begin start) ≡ ok after
unfolding create modify remove start_undo_session
returns = refl

returns_again : apply_changes more_changes (begin after) ≡ ok later
unfolding create modify remove start_undo_session
returns_again = refl

-- After the changes the object 0 has a new value, the object 1 is gone and the object 2 is there.
after_0 : after.objects (object_id 0) ≡ some 11
unfolding create modify remove start_undo_session
after_0 = refl

after_1 : after.objects (object_id 1) ≡ none
unfolding create modify remove start_undo_session
after_1 = refl

later_4 : later.objects (object_id 4) ≡ some 50
unfolding create modify remove start_undo_session
later_4 = refl

abbrev untracked : UndoDatabase ℕ
untracked = record { active_sessions = 0; disabled = true; stack = []; max_size = 256 }

close_session-apply_changes_example :
    close_session (start_undo_session false tracking).1 after ≡ ok start
close_session-apply_changes_example =
    close_session-apply_changes false changes start after refl numbered returns

undo-merge_example : (merge later.undo_db >>= λ u. undo (set_undo u later)) ≡ ok start
undo-merge_example =
    undo-merge changes more_changes start after later refl (omega arith) numbered returns
      returns_again

pop_commit-commit_example : (commit after.undo_db >>= λ u. pop_commit (set_undo u after)) ≡ ok start
pop_commit-commit_example = pop_commit-commit changes start after refl refl numbered returns

close_session_disabled_example :
    close_session (start_undo_session false untracked).1 (set_undo untracked start)
    ≡ err assert_exception
close_session_disabled_example =
    close_session_disabled untracked (set_undo untracked start) refl refl
