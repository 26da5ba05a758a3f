-- ===== src/Forks.antt =====
-- The fork database (libraries/chain/fork_database.cpp and
-- libraries/chain/include/graphene/chain/fork_database.hpp): the recent blocks of all forks, each
-- linked to the one before it, and the head, the highest of them.
--
-- Hashing is not in the repository: a block is given with its id, the id of the one before it, and
-- its number. A weak pointer to an item is the id of it, which is found as long as the index
-- holds it. The index is ordered by number, so that erasing from its beginning while the number is
-- below a bound erases every item below the bound.
use fin_chain_core.Prelude.{
  ℕ, ◌+◌, ◌-◌, ◌%◌, min, Bool, true, false, not, Option, none, some, List, [], ◌∷◌, ◌++◌, ◌==◌, ltb,
  leb, if◌then◌else◌, find_first,
}
use fin_chain_core.Prelude.Words.{u32_mod}
use fin_chain_core.Prelude.Results.{
  Result, ok, err, assert_exception, unlinkable_block_exception, ◌>>=◌, ◌>>◌, fc_assert,
}
pub mod Window
pub mod Push
pub mod Branch
pub mod Numbered
pub mod Ancestor
pub mod Ends
pub mod Fetch
mod Tests

pub record SignedBlock : Type 0 where
  pub block_id : ℕ
  pub previous : ℕ
  pub block_num : ℕ

-- struct fork_item
pub record ForkItem : Type 0 where
  pub id : ℕ
  pub num : ℕ
  pub previous_id : ℕ
  pub invalid : Bool
  pub prev : Option ℕ

pub record ForkDatabase : Type 0 where
  pub index : List ForkItem
  pub unlinked_index : List ForkItem
  pub head : Option ForkItem
  pub max_size : ℕ

-- fork_item::fork_item
abbrev pub new_item : SignedBlock → ForkItem
new_item b = record {
  id = b.block_id;
  num = b.block_num;
  previous_id = b.previous;
  invalid = false;
  prev = none;
}

-- `block_id_type()`
abbrev pub null_id : ℕ
null_id = 0

abbrev pub has_id : ℕ → ForkItem → Bool
has_id i x = x.id == i

abbrev pub keep {ℓ} : {A : Type ℓ} → (A → Bool) → List A → List A
keep p [] = []
keep p (x ∷ xs) = if p x then x ∷ keep p xs else keep p xs

-- The key of an item is its id: one whose id is there already is not inserted.
unfoldable pub insert : ForkItem → List ForkItem → List ForkItem
insert item xs = elim (find_first (has_id item.id) xs) [ none ↦ item ∷ xs | some x ↦ xs ]

-- fork_database::reset
unfoldable pub reset : ForkDatabase → ForkDatabase
reset db = record db { head = none; index = [] }

-- fork_database::pop_block
unfoldable pub pop_block : ForkDatabase → Result ForkDatabase
pop_block db = elim db.head [
  | none ↦ err assert_exception
  | some h ↦ elim h.prev [
    | none ↦ err assert_exception
    | some i ↦ elim (find_first (has_id i) db.index) [
      | none ↦ err assert_exception
      | some p ↦ ok (record db { head = some p })
    ]
  ]
]

-- fork_database::start_block
unfoldable pub start_block : SignedBlock → ForkDatabase → ForkDatabase
start_block b db = record db { index = insert (new_item b) db.index; head = some (new_item b) }

-- The item before, which must be known and not invalid, unless the block begins a chain.
abbrev pub link_to : Option ForkItem → ForkItem → Result ForkItem
link_to none item = err unlinkable_block_exception
link_to (some p) item = do
  fc_assert (not p.invalid)
  ok (record item { prev = some item.previous_id })

abbrev pub link : ForkItem → List ForkItem → Result ForkItem
link item index =
    if item.previous_id == null_id
    then ok item
    else link_to (find_first (has_id item.previous_id) index) item

-- The end of `_push_block`: a higher block is the new head, and the items that have become too old
-- are erased.
abbrev pub advance : ForkItem → ForkItem → ForkDatabase → ForkDatabase
advance h item db =
    if ltb h.num item.num
    then record db {
      head = some item;
      index = keep (λ x. leb (item.num - min db.max_size item.num) x.num) (insert item db.index);
      unlinked_index =
          keep (λ x. not (x.num == (item.num + (u32_mod - db.max_size)) % u32_mod))
            db.unlinked_index;
    }
    else record db { index = insert item db.index }

-- The branches of `_push_block` without a head and with one.
abbrev pub push_onto : Option ForkItem → ForkItem → ForkDatabase → Result ForkDatabase
push_onto none item db = ok (record db { index = insert item db.index; head = some item })
push_onto (some h) item db = do
  fc_assert (ltb (h.num - db.max_size) item.num)
  linked ← link item db.index
  ok (advance h linked db)

-- fork_database::_push_block
unfoldable pub push_item : ForkItem → ForkDatabase → Result ForkDatabase
push_item item db = push_onto db.head item db

-- fork_database::push_block, which raises again what `_push_block` raises
abbrev pub push_block : SignedBlock → ForkDatabase → Result ForkDatabase
push_block b db = push_item (new_item b) db

-- fork_database::set_max_size
unfoldable pub set_max_size : ℕ → ForkDatabase → ForkDatabase
set_max_size s db = elim db.head [
  | none ↦ record db { max_size = s }
  | some h ↦ record db {
    max_size = s;
    index = keep (λ x. leb (h.num - s) x.num) db.index;
    unlinked_index = keep (λ x. leb (h.num - s) x.num) db.unlinked_index;
  }
]

-- fork_database::fetch_block
unfoldable pub fetch_block : ℕ → ForkDatabase → Option ForkItem
fetch_block i db = elim (find_first (has_id i) db.index) [
  | none ↦ find_first (has_id i) db.unlinked_index
  | some x ↦ some x
]

-- fork_database::is_known_block
unfoldable pub is_known_block : ℕ → ForkDatabase → Bool
is_known_block i db = elim (find_first (has_id i) db.index) [
  | none ↦ elim (find_first (has_id i) db.unlinked_index) [ none ↦ false | some x ↦ true ]
  | some x ↦ true
]

-- fork_database::fetch_block_by_number
unfoldable pub fetch_block_by_number : ℕ → ForkDatabase → List ForkItem
fetch_block_by_number n db = keep (λ x. x.num == n) db.index

-- fork_database::set_head and remove
unfoldable pub set_head : Option ForkItem → ForkDatabase → ForkDatabase
set_head h db = record db { head = h }

unfoldable pub remove : ℕ → ForkDatabase → ForkDatabase
remove i db = record db { index = keep (λ x. not (x.id == i)) db.index }
