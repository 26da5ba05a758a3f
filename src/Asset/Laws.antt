-- ===== src/Asset/Laws.antt =====
-- The comparisons and the arithmetic of `struct asset`, read back as facts on the amounts.
use fin_chain_core.Prelude.{◌≡◌, true, arith}
use fin_chain_core.Prelude.Int.{◌+ℤ◌, ◌-ℤ◌, ◌≤ℤ◌, neg}
use fin_chain_core.Prelude.Results.{ok, SafeInt}
use fin_chain_core.Asset.{Asset, add, sub, negate, asset_le, asset_ge}

pub asset_ge-eq-ok :
    (a b : Asset) → asset_ge a b ≡ ok true → (a.asset_id ≡ b.asset_id) × (b.amount ≤ℤ a.amount)
unfolding asset_ge
asset_ge-eq-ok a b h = ground arith

pub asset_le-eq-ok :
    (a b : Asset) → asset_le a b ≡ ok true → (a.asset_id ≡ b.asset_id) × (a.amount ≤ℤ b.amount)
unfolding asset_le
asset_le-eq-ok a b h = ground arith

pub add-eq-ok :
    ⦃s : SafeInt⦄ (a b c : Asset)
    → add a b ≡ ok c
    → (a.asset_id ≡ b.asset_id) × (c.asset_id ≡ a.asset_id) × (c.amount ≡ a.amount +ℤ b.amount)
unfolding add
add-eq-ok ⦃s⦄ a b c h = ground (arith, s.check_exact (a.amount +ℤ b.amount) c.amount)

pub sub-eq-ok :
    ⦃s : SafeInt⦄ (a b c : Asset)
    → sub a b ≡ ok c
    → (a.asset_id ≡ b.asset_id) × (c.asset_id ≡ a.asset_id) × (c.amount ≡ a.amount -ℤ b.amount)
unfolding sub
sub-eq-ok ⦃s⦄ a b c h = ground (arith, s.check_exact (a.amount -ℤ b.amount) c.amount)

pub negate-eq-ok :
    ⦃s : SafeInt⦄ (a c : Asset)
    → negate a ≡ ok c
    → (c.asset_id ≡ a.asset_id) × (c.amount ≡ neg a.amount)
unfolding negate
negate-eq-ok ⦃s⦄ a c h = ground (arith, s.check_exact (neg a.amount) c.amount)
