-- ===== src/Forks/Window.antt =====
-- The items of the fork database are in a window below the head.
use fin_chain_core.Prelude.{
  ℕ, ◌+◌, ◌-◌, ◌≤◌, ◌<◌, min, ◌≡◌, refl, sym, subst, ap, not, Option, none, some, List, [], ◌∷◌,
  ◌==◌, ltb, leb, find_first, arith, All, Bool-cases, Option-cases, inl, inr,
}
use fin_chain_core.Prelude.Results.{ok, >>=-eq-ok, ok-injective, fc_assert, ensure-eq-ok}
use fin_chain_core.Forks.{
  SignedBlock, ForkItem, ForkDatabase, new_item, has_id, keep, insert, link_to, link, advance,
  push_onto, push_item, push_block,
}

-- No item is higher than h, and none is more than n lower.
abbrev pub Below : ForkItem → ℕ → ForkItem → Type 0
Below h n x = (h.num ≤ x.num + n) × (x.num ≤ h.num)

-- Every item of the index is in the window; without a head there is no item.
abbrev pub WindowAt : Option ForkItem → ForkDatabase → Type 0
WindowAt none db = db.index ≡ []
WindowAt (some h) db = All (Below h db.max_size) db.index

abbrev pub IsWindow : ForkDatabase → Type 0
IsWindow db = WindowAt db.head db

pub insert-All :
    (P : ForkItem → Type 0) (item : ForkItem) (xs : List ForkItem)
    → P item
    → All P xs
    → All P (insert item xs)
unfolding insert
insert-All P item xs p all = elim (Option-cases (find_first (has_id item.id) xs)) [
  | inl new ↦ rw (new, All) (p, all)
  | inr (x, known) ↦ rw (known, All) all
]

-- After a rise of the head, what is kept is in the window below it.
keep-Below :
    (item : ForkItem) (n : ℕ) (xs : List ForkItem)
    → All (λ x. x.num ≤ item.num) xs
    → All (Below item n) (keep (λ x. leb (item.num - min n item.num) x.num) xs)
keep-Below item n [] all = tt
keep-Below item n (x ∷ xs) all = elim (Bool-cases (leb (item.num - min n item.num) x.num)) [
  | inl kept ↦ rw kept (ground arith, keep-Below item n xs all.1)
  | inr old ↦ rw old (keep-Below item n xs all.1)
]

All-map :
    {P Q : ForkItem → Type 0} (xs : List ForkItem)
    → ((x : ForkItem) → P x → Q x)
    → All P xs
    → All Q xs
All-map [] f all = tt
All-map (x ∷ xs) f all = (f x all.0, All-map xs f all.1)

advance-IsWindow :
    (h item : ForkItem) (db : ForkDatabase)
    → db.head ≡ some h
    → h.num - db.max_size < item.num
    → All (Below h db.max_size) db.index
    → IsWindow (advance h item db)
advance-IsWindow h item db head recent all = elim (Bool-cases (ltb h.num item.num)) [
  | inl higher ↦
      let below = All-map {Q = λ x. x.num ≤ item.num} db.index (λ x b. ground arith) all in
      rw higher (
        keep-Below item db.max_size (insert item db.index)
          (insert-All (λ x. x.num ≤ item.num) item db.index (omega arith) below))
  | inr not_higher ↦ rw not_higher (
      subst (λ o. WindowAt o (record db { index = insert item db.index })) (sym head)
        (insert-All (Below h db.max_size) item db.index (ground arith) all))
]

pub link_to-num :
    (o : Option ForkItem) (item : ForkItem) {linked : ForkItem}
    → link_to o item ≡ ok linked
    → linked.num ≡ item.num
link_to-num none item h = cc
link_to-num (some p) item h =
    let (u, fine, end) = >>=-eq-ok (fc_assert (not p.invalid)) _ h in
    ap (λ (x : ForkItem). x.num) (sym (ok-injective end))

pub link-num :
    (item : ForkItem) (xs : List ForkItem) {linked : ForkItem}
    → link item xs ≡ ok linked
    → linked.num ≡ item.num
link-num item xs {linked} h = elim (Bool-cases (item.previous_id == 0)) [
  | inl first ↦ ground arith
  | inr later ↦ link_to-num (find_first (has_id item.previous_id) xs) item (rw later at h)
]

nothing : (P : ForkItem → Type 0) (xs : List ForkItem) → xs ≡ [] → All P xs
nothing P [] h = tt
nothing P (x ∷ xs) h = cc

index_empty : (db : ForkDatabase) → db.head ≡ none → IsWindow db → db.index ≡ []
index_empty db head window = subst (λ o. WindowAt o db) head window

index-Below :
    (db : ForkDatabase) (h : ForkItem)
    → db.head ≡ some h
    → IsWindow db
    → All (Below h db.max_size) db.index
index-Below db h head window = subst (λ o. WindowAt o db) head window

push_onto-IsWindow :
    (o : Option ForkItem) (item : ForkItem) (db db' : ForkDatabase)
    → db.head ≡ o
    → IsWindow db
    → push_onto o item db ≡ ok db'
    → IsWindow db'
push_onto-IsWindow none item db db' head window h = subst IsWindow (ok-injective h) (
    insert-All (Below item db.max_size) item db.index (omega arith, omega arith)
      (nothing (Below item db.max_size) db.index (index_empty db head window)))
push_onto-IsWindow (some top) item db db' head window h =
    let (u, recent, h1) = >>=-eq-ok (fc_assert (ltb (top.num - db.max_size) item.num)) _ h in
    let (linked, to_prev, h2) = >>=-eq-ok (link item db.index) _ h1 in
    let n = link-num item db.index to_prev in
    let after = ensure-eq-ok (ltb (top.num - db.max_size) item.num) _ recent in
    subst IsWindow (ok-injective h2)
      (advance-IsWindow top linked db head (ground arith) (index-Below db top head window))

-- If every item is in the window below the head, which has the highest number, and at most the size
-- of the database below it, then so it is after a block has been pushed.
pub push_block-IsWindow :
    (b : SignedBlock) (db db' : ForkDatabase)
    → IsWindow db
    → push_block b db ≡ ok db'
    → IsWindow db'
unfolding push_item
push_block-IsWindow b db db' window h = push_onto-IsWindow db.head (new_item b) db db' refl window h
