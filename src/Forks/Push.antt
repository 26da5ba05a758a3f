-- ===== src/Forks/Push.antt =====
-- The head after a push.
use fin_chain_core.Prelude.{
  ◌-◌, ◌≤◌, ◌≡◌, refl, sym, subst, ap, Option, none, some, ltb, arith, Bool-cases, inl, inr,
}
use mathlib.Core.Option.{some-injective}
use fin_chain_core.Prelude.Results.{ok, >>=-eq-ok, ok-injective, fc_assert}
use fin_chain_core.Forks.{
  SignedBlock, ForkItem, ForkDatabase, new_item, link, advance, push_onto, push_item, push_block,
}
use fin_chain_core.Forks.Window.{link-num}

-- The higher of two heads.
abbrev pub Rises : Option ForkItem → ForkItem → Option ForkItem → Type 0
Rises old item new =
    (h' : ForkItem) × (new ≡ some h')
    × (item.num ≤ h'.num)
    × ((h : ForkItem) → old ≡ some h → h.num ≤ h'.num)

advance-Rises :
    (h item linked : ForkItem) (db : ForkDatabase)
    → db.head ≡ some h
    → linked.num ≡ item.num
    → Rises (some h) item (advance h linked db).head
advance-Rises h item linked db head same = elim (Bool-cases (ltb h.num linked.num)) [
  | inl higher ↦
      rw higher (linked, refl, omega arith, λ k e. rw (← some-injective _ _ e) (ground arith))
  | inr not_higher ↦
      rw not_higher (h, head, ground arith, λ k e. rw (← some-injective _ _ e) (omega arith))
]

push_onto-Rises :
    (o : Option ForkItem) (item : ForkItem) (db db' : ForkDatabase)
    → db.head ≡ o
    → push_onto o item db ≡ ok db'
    → Rises o item db'.head
push_onto-Rises none item db db' head h =
    (item, ap (λ (x : ForkDatabase). x.head) (sym (ok-injective h)), omega arith, λ k e. cc)
push_onto-Rises (some top) item db db' head h =
    let (u, recent, h1) = >>=-eq-ok (fc_assert (ltb (top.num - db.max_size) item.num)) _ h in
    let (linked, to_prev, h2) = >>=-eq-ok (link item db.index) _ h1 in
    subst (λ (x : ForkDatabase). Rises (some top) item x.head) (ok-injective h2)
      (advance-Rises top item linked db head (link-num item db.index to_prev))

-- After a block has been pushed there is a head, at least as high as the block and as any head that
-- there was before.
pub push_block-Rises :
    (b : SignedBlock) (db db' : ForkDatabase)
    → push_block b db ≡ ok db'
    → Rises db.head (new_item b) db'.head
unfolding push_item
push_block-Rises b db db' h = push_onto-Rises db.head (new_item b) db db' refl h
