-- ===== src/Forks/Fetch.antt =====
-- What is fetched after a block has been pushed.
use fin_chain_core.Prelude.{ℕ, ◌≡◌, Option, some}
use fin_chain_core.Forks.{SignedBlock, ForkItem, ForkDatabase, fetch_block}
use fin_chain_core.Forks.Numbered.{Numbered}

module _ (num_from_id : ℕ → ℕ) where
  -- What is fetched of an id that was there, and of the id of the new item.
  abbrev pub Fetches : SignedBlock → ℕ → ForkItem → ForkDatabase → Type 0
  Fetches b i x db =
      (fetch_block i db ≡ some x)
      × ((y : ForkItem) × (fetch_block b.block_id db ≡ some y) × (y.num ≡ b.block_num))
