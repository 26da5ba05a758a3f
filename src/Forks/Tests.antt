-- ===== src/Forks/Tests.antt =====
-- A chain of blocks 5, 6 and 7, of which at most two below the head are kept.
use fin_chain_core.Prelude.{
  ℕ, suc, ◌+◌, ◌%◌, ◌≡◌, ◌≢◌, ◌∙◌, ap, List, refl, false, Option, none, some, [], ◌∷◌, arith,
  find_first,
}
use fin_chain_core.Prelude.Results.{ok, err, unlinkable_block_exception}
use fin_chain_core.Forks.{
  SignedBlock, ForkItem, ForkDatabase, has_id, insert, push_item, push_block,
}
use fin_chain_core.Forks.Window.{IsWindow, push_block-IsWindow}
use fin_chain_core.Forks.Numbered.{IsNumbered, push_block-IsNumbered}
use fin_chain_core.Forks.Ends.{fetch_branch_from-some}
use fin_chain_core.Forks.Branch.{fetch_branch_from}
use fin_chain_core.Forks.Ancestor.{Branch, fetch_branch_from-Meet}
use mathlib.Core.Option.{some-injective}

abbrev block : ℕ → SignedBlock
block n = record { block_id = 100 + n; previous = 99 + n; block_num = n }

abbrev item : ℕ → Option ℕ → ForkItem
item n prev = record { id = 100 + n; num = n; previous_id = 99 + n; invalid = false; prev = prev }

abbrev before : ForkDatabase
before = record {
  index = item 7 (some 106) ∷ item 6 (some 105) ∷ item 5 none ∷ [];
  unlinked_index = [];
  head = some (item 7 (some 106));
  max_size = 2;
}

abbrev after : ForkDatabase
after = record {
  index = item 8 (some 107) ∷ item 7 (some 106) ∷ item 6 (some 105) ∷ [];
  unlinked_index = [];
  head = some (item 8 (some 107));
  max_size = 2;
}

pushed : push_block (block 8) before ≡ ok after
unfolding push_item insert find_first
pushed = refl

push_block-IsWindow_example : IsWindow after
push_block-IsWindow_example = push_block-IsWindow (block 8) before after (omega arith) pushed

not_linked : push_block (block 9) before ≡ err unlinkable_block_exception
unfolding push_item find_first
not_linked = refl

-- The last two digits of an id are the number.
abbrev num_from_id : ℕ → ℕ
num_from_id i = i % 100

links_to : {n j : ℕ} (i : ℕ) → n ≡ suc (num_from_id j) → some j ≡ some i → n ≡ suc (num_from_id i)
links_to i same e = same ∙ ap (λ k. suc (num_from_id k)) (some-injective _ _ e)

unlinked : {n : ℕ} (i : ℕ) → none ≡ some i → n ≡ suc (num_from_id i)
unlinked i e = cc

before-IsNumbered : IsNumbered num_from_id before
before-IsNumbered =
    ((refl, λ i. links_to i refl), ((refl, λ i. links_to i refl), ((refl, unlinked), tt)))

push_block-IsNumbered_example : IsNumbered num_from_id after
push_block-IsNumbered_example =
    push_block-IsNumbered num_from_id (block 8) before after refl refl before-IsNumbered pushed

-- A second chain 206, 207 that forks off after 105.
abbrev side : ℕ → ℕ → ForkItem
side n to = record { id = 200 + n; num = n; previous_id = to; invalid = false; prev = some to }

abbrev forked : ForkDatabase
forked = record before { index = side 7 206 ∷ side 6 105 ∷ before.index }

forked-IsNumbered : IsNumbered num_from_id forked
forked-IsNumbered =
    ((refl, λ i. links_to i refl), ((refl, λ i. links_to i refl), before-IsNumbered))

abbrev two_branches : List ForkItem × List ForkItem
two_branches = (item 7 (some 106) ∷ item 6 (some 105) ∷ [], side 7 206 ∷ side 6 105 ∷ [])

branches_found : fetch_branch_from forked 8 107 207 ≡ some (ok two_branches)
unfolding fetch_branch_from find_first
branches_found = refl

uneven : fetch_branch_from forked 8 107 206 ≡ some (ok (two_branches.0, side 6 105 ∷ []))
unfolding fetch_branch_from find_first
uneven = refl

fetch_branch_from-Meet_example :
    (x : ForkItem) × (y : ForkItem) × (find_first (has_id 107) forked.index ≡ some x)
    × (find_first (has_id 207) forked.index ≡ some y)
    × ((u : ForkItem) × (v : ForkItem) × Branch forked x two_branches.0 u
        × Branch forked y two_branches.1 v
        × (u.previous_id ≡ v.previous_id)
        × (u.num ≡ v.num))
fetch_branch_from-Meet_example =
    fetch_branch_from-Meet num_from_id forked forked-IsNumbered 8 107 207 two_branches
      branches_found

fetch_branch_from-some_example : fetch_branch_from forked 8 107 207 ≢ none
fetch_branch_from-some_example =
    fetch_branch_from-some num_from_id forked forked-IsNumbered 8 107 207
      (omega arith, (omega arith, (omega arith, (omega arith, (omega arith, tt)))))
