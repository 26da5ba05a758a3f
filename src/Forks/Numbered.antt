-- ===== src/Forks/Numbered.antt =====
-- The numbers of the blocks are those of their ids, and links go down by one.
use fin_chain_core.Prelude.{
  ℕ, suc, ◌-◌, ◌≡◌, refl, sym, subst, ap, ◌∙◌, not, Bool, Option, none, some, List, [], ◌∷◌, ◌==◌,
  ltb, find_first, find_first-has, find_first-All, All, Bool-cases, Option-cases, inl, inr, ==_iff,
}
use mathlib.Core.Option.{some-injective}
use fin_chain_core.Prelude.Results.{ok, err, assert_exception, >>=-eq-ok, ok-injective, fc_assert}
use fin_chain_core.Forks.{
  SignedBlock, ForkItem, ForkDatabase, new_item, has_id, keep, insert, link_to, link, advance,
  push_onto, push_item, push_block,
}
use fin_chain_core.Forks.Window.{insert-All}
use fin_chain_core.Forks.Branch.{asserted, lock_prev}

-- The number of an item is in its id, and one more than the number in the id it links to.
abbrev pub Numbered : (ℕ → ℕ) → ForkItem → Type 0
Numbered num_from_id x =
    (x.num ≡ num_from_id x.id) × ((i : ℕ) → x.prev ≡ some i → x.num ≡ suc (num_from_id i))

abbrev pub IsNumbered : (ℕ → ℕ) → ForkDatabase → Type 0
IsNumbered num_from_id db = All (Numbered num_from_id) db.index

module _ (num_from_id : ℕ → ℕ) where
  keep-All :
      (p : ForkItem → Bool) (xs : List ForkItem)
      → All (Numbered num_from_id) xs
      → All (Numbered num_from_id) (keep p xs)
  keep-All p [] all = tt
  keep-All p (x ∷ xs) all = elim (Bool-cases (p x)) [
    | inl kept ↦ rw kept (all.0, keep-All p xs all.1)
    | inr dropped ↦ rw dropped (keep-All p xs all.1)
  ]

  advance-IsNumbered :
      (h item : ForkItem) (db : ForkDatabase)
      → Numbered num_from_id item
      → IsNumbered num_from_id db
      → IsNumbered num_from_id (advance h item db)
  advance-IsNumbered h item db numbered all =
      let inserted = insert-All (Numbered num_from_id) item db.index numbered all in
      elim (Bool-cases (ltb h.num item.num)) [
        | inl higher ↦ rw higher (keep-All _ (insert item db.index) inserted)
        | inr not_higher ↦ rw not_higher inserted
      ]

  pub new_item-Numbered :
      (b : SignedBlock) → b.block_num ≡ num_from_id b.block_id → Numbered num_from_id (new_item b)
  new_item-Numbered b same = (same, λ i e. cc)

  pub link-Numbered :
      (b : SignedBlock) (xs : List ForkItem) (linked : ForkItem)
      → b.block_num ≡ num_from_id b.block_id
      → b.block_num ≡ suc (num_from_id b.previous)
      → link (new_item b) xs ≡ ok linked
      → Numbered num_from_id linked
  link-Numbered b xs linked same next h = elim (Bool-cases (b.previous == 0)) [
    | inl first ↦
        subst (Numbered num_from_id) (ok-injective (rw first at h)) (new_item-Numbered b same)
    | inr later ↦ linked_to (find_first (has_id b.previous) xs) (rw later at h)
  ]
    where
      linked_to :
          (o : Option ForkItem) → link_to o (new_item b) ≡ ok linked → Numbered num_from_id linked
      linked_to none e = cc
      linked_to (some p) e =
          let (u, fine, end) = >>=-eq-ok (fc_assert (not p.invalid)) _ e in
          subst (Numbered num_from_id) (ok-injective end)
            (same, λ i at. next ∙ ap (λ k. suc (num_from_id k)) (some-injective _ _ at))

  push_onto-IsNumbered :
      (o : Option ForkItem) (b : SignedBlock) (db db' : ForkDatabase)
      → b.block_num ≡ num_from_id b.block_id
      → b.block_num ≡ suc (num_from_id b.previous)
      → IsNumbered num_from_id db
      → push_onto o (new_item b) db ≡ ok db'
      → IsNumbered num_from_id db'
  push_onto-IsNumbered none b db db' same next all h =
      subst (IsNumbered num_from_id) (ok-injective h)
        (insert-All (Numbered num_from_id) (new_item b) db.index (new_item-Numbered b same) all)
  push_onto-IsNumbered (some top) b db db' same next all h =
      let (u, recent, h1) = >>=-eq-ok (fc_assert (ltb (top.num - db.max_size) b.block_num)) _ h in
      let (linked, to_prev, h2) = >>=-eq-ok (link (new_item b) db.index) _ h1 in
      subst (IsNumbered num_from_id) (ok-injective h2)
        (advance-IsNumbered top linked db (link-Numbered b db.index linked same next to_prev) all)

  -- Where the number of a block is in its id and one more than the number in the id before it, and
  -- where the items of the database have their numbers from their ids and link to ids of one less, it
  -- is so too after the block has been pushed.
  pub push_block-IsNumbered :
      (b : SignedBlock) (db db' : ForkDatabase)
      → b.block_num ≡ num_from_id b.block_id
      → b.block_num ≡ suc (num_from_id b.previous)
      → IsNumbered num_from_id db
      → push_block b db ≡ ok db'
      → IsNumbered num_from_id db'
  unfolding push_item
  push_block-IsNumbered b db db' same next all h =
      push_onto-IsNumbered db.head b db db' same next all h

  -- A link leads to an item that is one lower, and numbered too.
  pub lock_prev-Numbered :
      (db : ForkDatabase) (x p : ForkItem)
      → IsNumbered num_from_id db
      → Numbered num_from_id x
      → lock_prev db x ≡ ok p
      → (x.num ≡ suc p.num) × Numbered num_from_id p
  lock_prev-Numbered db x p all numbered h = locked x.prev refl h
    where
      locked :
          (o : Option ℕ)
          → x.prev ≡ o
          → (elim o [
            | none ↦ err assert_exception
            | some i ↦ asserted (find_first (has_id i) db.index)
          ])
            ≡ ok p
          → (x.num ≡ suc p.num) × Numbered num_from_id p
      locked none e h = cc
      locked (some i) e h = elim (Option-cases (find_first (has_id i) db.index)) [
        | inl missing ↦ absurd (cc)
        | inr (q, there) ↦
            let q_is : q ≡ p = ok-injective (rw there at h) in
            let here = subst (λ z. find_first (has_id i) db.index ≡ some z) q_is there in
            let of_p = find_first-All (has_id i) (Numbered num_from_id) db.index all here in
            let id_is = (==_iff p.id i).0 (find_first-has (has_id i) db.index here) in
            (numbered.1 i e ∙ ap suc (ap num_from_id (sym id_is) ∙ sym of_p.0), of_p)
      ]
