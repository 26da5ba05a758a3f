-- ===== src/Authorization/Meaning.antt =====
-- `is_authorized_asset` against a description of it by sets.
use fin_chain_core.Prelude.{
  ℕ, ◌≡◌, refl, ◌⊎◌, inl, inr, ◌↔◌, true, false, not, ◌&&◌, none, List, [], ◌∷◌, arith, Bool-cases,
  ==_refl,
}
use fin_chain_core.Ledger.{contains}
use fin_chain_core.Authorization.{
  AccountObject, AssetObject, has_flag, white_list, any_authority, is_allowed, slow_check,
  is_authorized_asset, is_empty, is_none,
}

-- Two sets have an id in common.
abbrev pub Meet : List ℕ → List ℕ → Type 0
Meet xs ys = (i : ℕ) × (contains i xs ≡ true) × (contains i ys ≡ true)

-- An account may hold an asset that has no whitelist if it has not restricted itself; any other
-- account must have allowed the asset, be on no blacklist, and be on the whitelist if there is one.
abbrev pub MayHold : AccountObject → AssetObject → Type 0
MayHold acct a =
    ((has_flag a.flags white_list ≡ false) × (acct.allowed_assets ≡ none))
    ⊎ ((is_allowed acct.allowed_assets a.asset_id ≡ true)
        × ¬ Meet acct.blacklisting_accounts a.blacklist_authorities
        × ((a.whitelist_authorities ≡ [])
            ⊎ Meet acct.whitelisting_accounts a.whitelist_authorities))

any_authority-Meet : (xs ys : List ℕ) → any_authority xs ys ≡ true → Meet xs ys
unfolding any_authority
any_authority-Meet [] ys h = cc
any_authority-Meet (x ∷ xs) ys h = elim (Bool-cases (contains x ys)) [
  | inl found ↦ (x, rw (==_refl x) refl, found)
  | inr other ↦
      let (i, in_xs, in_ys) = any_authority-Meet xs ys (rw other at h) in
      (i, ground (arith, in_xs), in_ys)
]

Meet-any_authority :
    (xs ys : List ℕ) (i : ℕ)
    → contains i xs ≡ true
    → contains i ys ≡ true
    → any_authority xs ys ≡ true
unfolding any_authority
Meet-any_authority [] ys i in_xs in_ys = cc
Meet-any_authority (x ∷ xs) ys i in_xs in_ys = ground (arith, Meet-any_authority xs ys i)

not_Meet : (xs ys : List ℕ) → any_authority xs ys ≡ false → ¬ Meet xs ys
not_Meet xs ys h (i, in_xs, in_ys) = let met = Meet-any_authority xs ys i in_xs in_ys in cc

any_authority-false : (xs ys : List ℕ) → ¬ Meet xs ys → any_authority xs ys ≡ false
any_authority-false xs ys h = elim (Bool-cases (any_authority xs ys)) [
  | inl met ↦ elim (h (any_authority-Meet xs ys met)) [ ]
  | inr apart ↦ apart
]

whitelist_cases : (ys : List ℕ) → (ys ≡ []) ⊎ (is_empty ys ≡ false)
whitelist_cases [] = inl refl
whitelist_cases (y ∷ ys) = inr refl

slow_check-true :
    (acct : AccountObject) (a : AssetObject)
    → slow_check acct a ≡ true
    → (is_allowed acct.allowed_assets a.asset_id ≡ true)
      × (any_authority acct.blacklisting_accounts a.blacklist_authorities ≡ false)
      × ((is_empty a.whitelist_authorities ≡ true)
          ⊎ (any_authority acct.whitelisting_accounts a.whitelist_authorities ≡ true))
unfolding slow_check
slow_check-true acct a h = ground arith

slow_check-lists :
    (acct : AccountObject) (a : AssetObject)
    → is_allowed acct.allowed_assets a.asset_id ≡ true
    → any_authority acct.blacklisting_accounts a.blacklist_authorities ≡ false
    → (is_empty a.whitelist_authorities ≡ true)
      ⊎ (any_authority acct.whitelisting_accounts a.whitelist_authorities ≡ true)
    → slow_check acct a ≡ true
unfolding slow_check
slow_check-lists acct a allowed clear listed = ground arith

is_empty→[] : (ys : List ℕ) → is_empty ys ≡ true → ys ≡ []
is_empty→[] [] h = refl
is_empty→[] (y ∷ ys) h = cc

-- The check for an account that has restricted itself, or an asset with a whitelist.
slow_check-MayHold :
    (acct : AccountObject) (a : AssetObject) → slow_check acct a ≡ true → MayHold acct a
slow_check-MayHold acct a h =
    let (allowed, clear, listed) = slow_check-true acct a h in
    inr (
      allowed,
      not_Meet acct.blacklisting_accounts a.blacklist_authorities clear,
      elim listed [
        | inl none_listed ↦ inl (is_empty→[] a.whitelist_authorities none_listed)
        | inr met ↦ inr (any_authority-Meet acct.whitelisting_accounts a.whitelist_authorities met)
      ],
    )

is_authorized_asset-MayHold :
    (acct : AccountObject) (a : AssetObject) → is_authorized_asset acct a ≡ true → MayHold acct a
unfolding is_authorized_asset
is_authorized_asset-MayHold acct a h =
    elim (Bool-cases (not (has_flag a.flags white_list) && is_none acct.allowed_assets)) [
      | inl free ↦ inl (ground arith)
      | inr bound ↦ slow_check-MayHold acct a (rw bound at h)
    ]

MayHold-slow_check :
    (acct : AccountObject) (a : AssetObject)
    → is_allowed acct.allowed_assets a.asset_id ≡ true
    → ¬ Meet acct.blacklisting_accounts a.blacklist_authorities
    → (a.whitelist_authorities ≡ []) ⊎ Meet acct.whitelisting_accounts a.whitelist_authorities
    → slow_check acct a ≡ true
MayHold-slow_check acct a allowed clear listed =
    slow_check-lists acct a allowed (any_authority-false _ _ clear) (elim listed [
      | inl nil ↦ inl (rw nil refl)
      | inr (i, in_xs, in_ys) ↦ inr (Meet-any_authority _ _ i in_xs in_ys)
    ])

MayHold-is_authorized_asset :
    (acct : AccountObject) (a : AssetObject) → MayHold acct a → is_authorized_asset acct a ≡ true
unfolding is_authorized_asset
MayHold-is_authorized_asset acct a (inl (unlisted, free)) = rw (unlisted, free) refl
MayHold-is_authorized_asset acct a (inr (allowed, clear, listed)) =
    let slow = MayHold-slow_check acct a allowed clear listed in ground arith

-- `is_authorized_asset` holds exactly for the accounts that may hold the asset.
pub is_authorized_asset_iff :
    (acct : AccountObject) (a : AssetObject) → (is_authorized_asset acct a ≡ true) ↔ MayHold acct a
is_authorized_asset_iff acct a =
    (is_authorized_asset-MayHold acct a, MayHold-is_authorized_asset acct a)
