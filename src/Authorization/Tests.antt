-- ===== src/Authorization/Tests.antt =====
-- Authorization of a concrete account that is on the whitelist of an asset.
use fin_chain_core.Prelude.{◌≡◌, ◌↔◌, true, none, [], ◌∷◌}
use fin_chain_core.Authorization.{AccountObject, AssetObject, is_authorized_asset}
use fin_chain_core.Authorization.Meaning.{MayHold, is_authorized_asset_iff}

abbrev listed : AccountObject
listed = record {
  account_id = 1;
  allowed_assets = none;
  whitelisting_accounts = 8 ∷ 9 ∷ [];
  blacklisting_accounts = 7 ∷ [];
}

abbrev whitelisted : AssetObject
whitelisted = record {
  asset_id = 5;
  issuer = 3;
  flags = 6;
  whitelist_authorities = 9 ∷ [];
  blacklist_authorities = 6 ∷ [];
}

is_authorized_asset_iff_example :
    (is_authorized_asset listed whitelisted ≡ true) ↔ MayHold listed whitelisted
is_authorized_asset_iff_example = is_authorized_asset_iff listed whitelisted
