-- ===== src/Authorization.antt =====
-- Who may hold an asset: `is_authorized_asset` (libraries/chain/include/graphene/chain/is_authorized_asset.hpp
-- and libraries/chain/is_authorized_asset.cpp), with the fields of `account_object` and `asset_object`
-- that it reads. Sets of ids are lists.
use fin_chain_core.Prelude.{
  ℕ, ◌/◌, ◌%◌, Bool, true, false, not, ◌&&◌, ◌==◌, Option, none, some, List, [], ◌∷◌, if◌then◌else◌,
}
use fin_chain_core.Ledger.{contains}
pub mod Meaning
mod Tests

pub record AccountObject : Type 0 where
  pub account_id : ℕ
  pub allowed_assets : Option (List ℕ)
  pub whitelisting_accounts : List ℕ
  pub blacklisting_accounts : List ℕ

-- `flags`, `whitelist_authorities` and `blacklist_authorities` are fields of `options` in the code.
pub record AssetObject : Type 0 where
  pub asset_id : ℕ
  pub issuer : ℕ
  pub flags : ℕ
  pub whitelist_authorities : List ℕ
  pub blacklist_authorities : List ℕ

-- `flags & mask`, for a mask of one bit
abbrev pub has_flag : ℕ → ℕ → Bool
has_flag flags mask = flags / mask % 2 == 1

abbrev pub white_list : ℕ
white_list = 2

abbrev pub override_authority : ℕ
override_authority = 4

abbrev pub transfer_restricted : ℕ
transfer_restricted = 8

abbrev pub is_transfer_restricted : AssetObject → Bool
is_transfer_restricted a = has_flag a.flags transfer_restricted

abbrev pub can_override : AssetObject → Bool
can_override a = has_flag a.flags override_authority

-- The loops over the accounts that have listed one: the first that is an authority ends them.
unfoldable pub any_authority : List ℕ → List ℕ → Bool
any_authority [] authorities = false
any_authority (id ∷ ids) authorities =
    if contains id authorities then true else any_authority ids authorities

abbrev pub is_allowed : Option (List ℕ) → ℕ → Bool
is_allowed none i = true
is_allowed (some allowed) i = contains i allowed

abbrev pub is_none : Option (List ℕ) → Bool
is_none none = true
is_none (some allowed) = false

abbrev pub is_empty : List ℕ → Bool
is_empty [] = true
is_empty (i ∷ is) = false

-- detail::_is_authorized_asset
unfoldable pub slow_check : AccountObject → AssetObject → Bool
slow_check acct a =
    if not (is_allowed acct.allowed_assets a.asset_id)
    then false
    else if any_authority acct.blacklisting_accounts a.blacklist_authorities
    then false
    else if is_empty a.whitelist_authorities
    then true
    else any_authority acct.whitelisting_accounts a.whitelist_authorities

unfoldable pub is_authorized_asset : AccountObject → AssetObject → Bool
is_authorized_asset acct a =
    if not (has_flag a.flags white_list) && is_none acct.allowed_assets
    then true
    else slow_check acct a
