-- ===== src/Ledger.antt =====
-- Account balances (`account_balance_object` in libraries/chain/include/graphene/chain/account_object.hpp
-- and libraries/chain/db_balance.cpp). The index is keyed by the owner and the asset; a list stands
-- for it, in which the first entry of a key counts.
use fin_chain_core.Prelude.{
  ℕ, Bool, true, false, not, Option, none, some, List, [], ◌∷◌, ◌++◌, ◌&&◌, ◌==◌, ltb,
  if◌then◌else◌, length,
}
use fin_chain_core.Prelude.Int.{ℤ, pos, ◌+ℤ◌, ltb_ℤ, eqb_ℤ}
use fin_chain_core.Prelude.Results.{Result, ok, err, SafeInt, ◌>>=◌, ◌>>◌, fc_assert}
use fin_chain_core.Asset.{Asset, asset, negate, asset_ge}
pub mod Totals
pub mod Effect
pub mod Accept
mod Tests

-- class account_balance_object; `lockeds` holds the ids of the locked balances of the owner.
pub record AccountBalance : Type 0 where
  pub owner : ℕ
  pub asset_type : ℕ
  pub balance : ℤ
  pub lockeds : List ℕ

abbrev pub Balances : Type 0
Balances = List AccountBalance

-- Whether an entry has the key of an owner and an asset.
abbrev pub has_key : ℕ → ℕ → AccountBalance → Bool
has_key owner asset_id b = (b.owner == owner) && (b.asset_type == asset_id)

-- `index.find(boost::make_tuple(owner, asset_id))`
unfoldable pub find_balance : ℕ → ℕ → Balances → Option AccountBalance
find_balance owner asset_id [] = none
find_balance owner asset_id (b ∷ bs) =
    if has_key owner asset_id b then some b else find_balance owner asset_id bs

-- The object that `find` gives, written anew.
unfoldable pub put_balance : ℕ → ℕ → AccountBalance → Balances → Balances
put_balance owner asset_id new [] = []
put_balance owner asset_id new (b ∷ bs) =
    if has_key owner asset_id b then new ∷ bs else b ∷ put_balance owner asset_id new bs

-- account_balance_object::get_balance
abbrev pub balance_of : AccountBalance → Asset
balance_of b = asset b.balance b.asset_type

-- What `get_balance` returns for the object that it finds, or for none.
abbrev pub found_balance : Option AccountBalance → ℕ → Asset
found_balance none asset_id = asset (pos 0) asset_id
found_balance (some b) asset_id = balance_of b

-- database::get_balance
unfoldable pub get_balance : Balances → ℕ → ℕ → Asset
get_balance bs owner asset_id = found_balance (find_balance owner asset_id bs) asset_id

-- database::get_locked_balance_ids
unfoldable pub get_locked_balance_ids : Balances → ℕ → ℕ → List ℕ
get_locked_balance_ids bs owner asset_id = elim (find_balance owner asset_id bs) [
  | none ↦ []
  | some b ↦ b.lockeds
]

-- account_balance_object::add_lock_balance; the set holds an id once
abbrev pub contains : ℕ → List ℕ → Bool
contains i [] = false
contains i (j ∷ js) = if j == i then true else contains i js

abbrev pub remove_id : ℕ → List ℕ → List ℕ
remove_id i [] = []
remove_id i (j ∷ js) = if j == i then remove_id i js else j ∷ remove_id i js

unfoldable pub add_lock_balance : ℕ → AccountBalance → Result AccountBalance
add_lock_balance i b = do
  fc_assert (ltb (length b.lockeds) 50)
  ok (record b { lockeds = if contains i b.lockeds then b.lockeds else i ∷ b.lockeds })

-- account_balance_object::unlock_balance
unfoldable pub unlock_balance : ℕ → AccountBalance → Result AccountBalance
unlock_balance i b = do
  fc_assert (contains i b.lockeds)
  ok (record b { lockeds = remove_id i b.lockeds })

-- The object that `adjust_balance` creates for a first credit.
abbrev pub new_balance : ℕ → Asset → AccountBalance
new_balance account delta = record {
  owner = account;
  asset_type = delta.asset_id;
  balance = delta.amount;
  lockeds = [];
}

module _ ⦃s : SafeInt⦄ where
  -- A debit asserts that the balance covers it.
  abbrev pub covers : AccountBalance → Asset → Result (Unit {0})
  covers b delta =
      if ltb_ℤ delta.amount (pos 0)
      then (do needed ← negate delta; enough ← asset_ge (balance_of b) needed; fc_assert enough)
      else ok tt

  -- The branch of `adjust_balance` for a balance that is there.
  abbrev pub change_balance : AccountBalance → Asset → Result AccountBalance
  change_balance b delta = do
    covers b delta
    new ← s.check (b.balance +ℤ delta.amount)
    ok (record b { balance = new })

  -- database::adjust_balance
  unfoldable pub adjust_balance : ℕ → Asset → Balances → Result Balances
  adjust_balance account delta bs =
      if eqb_ℤ delta.amount (pos 0) then ok bs else elim (find_balance account delta.asset_id bs) [
        | none ↦ do
          fc_assert (ltb_ℤ (pos 0) delta.amount)
          ok (bs ++ (new_balance account delta ∷ []))
        | some b ↦ do new ← change_balance b delta; ok (put_balance account delta.asset_id new bs)
      ]
