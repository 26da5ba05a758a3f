-- ===== src/Interest/Profit.antt =====
-- The profit on a locked balance: what the interest of the pool comes to for it.
use native.Mathlib.Nat.{
  mul-le-mul, mod-eq_of_lt, mul-add, div-le_of_le-mul, add-mul-div_right, pow-le-pow_right,
  one-le-pow, le_refl,
}
use fin_chain_core.Prelude.{
  ℕ, ◌+◌, ◌*◌, ◌/◌, ◌%◌, ◌^◌, ◌≤◌, ◌<◌, ◌≡◌, refl, sym, ap, subst, ◌∙◌, arith, leb, ==_refl,
}
use fin_chain_core.Prelude.Int.{ℤ, pos, ◌-ℤ◌, ◌+ℤ◌, int_laws}
use fin_chain_core.Prelude.Words.{mul128, signed64, u32_mod}
use fin_chain_core.Prelude.Results.{ok, SafeInt, >>=-eq-ok, ok-injective, fc_assert}
use fin_chain_core.Asset.{Asset, asset, add, sub}
use fin_chain_core.Asset.Laws.{sub-eq-ok}
use fin_chain_core.Price.{Price, price, multiply}
use fin_chain_core.Prelude.Percent.{mul128_small}
use fin_chain_core.Price.Multiply.{multiply-eq-ok}
use fin_chain_core.Interest.{
  Narrowing, AssetLockData, scale_of, div128, actual_profile, get_interest, get_profit,
  fast_pow_of_interest, reward_rate, pre_profile, max_need_pool, interest_day,
}

-- One unit of the interest, 10000 units of the asset.
abbrev pub unit_of : ℕ → ℕ
unit_of digits = 10_000 * 10 ^ digits

unit_bounds : (digits : ℕ) → digits ≤ 12 → (0 < unit_of digits) × (unit_of digits < 2 ^ 63)
unit_bounds digits h =
    let low = one-le-pow digits 10 (omega arith) in
    let high : 10 ^ digits ≤ 10 ^ 12 = pow-le-pow_right (omega arith) h in
    (omega arith, omega arith)

scale_of_small : (digits : ℕ) → digits ≤ 12 → scale_of (10 ^ digits) ≡ unit_of digits
scale_of_small digits h = let b = unit_bounds digits h in mod-eq_of_lt (omega arith)

-- A share of at most 100 percent is at most the whole.
share_le : (k r : ℕ) → k < 2 ^ 63 → r ≤ 10_000 → mul128 k r / 10_000 ≤ k
share_le k r hk hr =
    let small = mul128_small k r hk (omega arith) in
    let whole : k * r ≤ k * 10_000 = mul-le-mul (le_refl k) hr in
    div-le_of_le-mul 10_000 (rw small (omega arith))

-- The interest is at most the pool.
actual_profile_le :
    ⦃w : Narrowing⦄ (lock : AssetLockData) (gain need k : ℕ) {g : ℕ}
    → lock.interest_pool ≡ pos k
    → k < 2 ^ 63
    → lock.profile_receive_percent ≤ 10_000
    → actual_profile lock gain need ≡ ok g
    → g ≤ k
unfolding div128
actual_profile_le ⦃w⦄ lock gain need k {g} pool hk hr h =
    let share = share_le k lock.profile_receive_percent hk hr in
    let part = mul128 k lock.profile_receive_percent / 10_000 in
    let exact : w.narrow part ≡ part = w.narrow_exact part (omega arith) in ground arith

-- The last sum of `_get_interest`, for an interest that is at most the pool.
interest_sum :
    ⦃w : Narrowing⦄ ⦃s : SafeInt⦄ (i k g b : ℕ) (unit : ℤ) (res : Asset)
    → unit ≡ pos b
    → g ≤ k
    → k < 2 ^ 63
    → add (asset (signed64 (w.narrow g)) i) (asset unit i) ≡ ok res
    → (g + b < 2 ^ 63) × (res ≡ asset (pos (g + b)) i)
unfolding add ◌+ℤ◌
interest_sum ⦃w⦄ ⦃s⦄ i k g b unit res e le hk h =
    let narrowed = w.narrow_exact g (omega arith) in
    let same : signed64 g ≡ pos g = ground arith in
    grind (arith, s.check_exact (pos (g + b)), s.check_range (pos (g + b)), ==_refl i)

interest_steps :
    ⦃w : Narrowing⦄ ⦃s : SafeInt⦄ (lock : AssetLockData) (lock_period digits : ℕ)
    (current_supply : ℤ) {rate : Price}
    → get_interest lock lock_period digits current_supply ≡ ok rate
    → let unit = signed64 (scale_of (10 ^ digits)) in
      (gain : ℕ) × (need : ℕ) × (g : ℕ) × (res : Asset) × (actual_profile lock gain need ≡ ok g)
      × (add (asset (signed64 (w.narrow g)) lock.asset_id) (asset unit lock.asset_id) ≡ ok res)
      × (rate ≡ price (asset unit lock.asset_id) res)
unfolding get_interest
interest_steps ⦃w⦄ ⦃s⦄ lock lock_period digits current_supply {rate} h =
    let unit = signed64 (scale_of (10 ^ digits)) in
    let precision = 10 ^ digits in
    let base_asset = asset unit lock.asset_id in
    let (u, a1, h1) =
      >>=-eq-ok (fc_assert (leb lock_period (lock.max_period * interest_day % u32_mod))) _ h in
    let (to_deposit, a2, h2) = >>=-eq-ok (s.check (current_supply -ℤ lock.interest_pool)) _ h1 in
    let (top, a3, h3) =
      >>=-eq-ok (fast_pow_of_interest lock.nominal_interest_perday lock.max_period precision) _
        h2 in
    let (reward, a4, h4) =
      >>=-eq-ok (reward_rate lock_period lock.max_period lock.reward_coefficient) _ h3 in
    let (gain, a5, h5) =
      >>=-eq-ok (pre_profile lock lock_period reward precision base_asset) _ h4 in
    let (need, a6, h6) = >>=-eq-ok (max_need_pool top to_deposit lock.reward_coefficient) _ h5 in
    let (g, a7, h7) = >>=-eq-ok (actual_profile lock gain need) _ h6 in
    let (res, a8, h8) =
      >>=-eq-ok (add (asset (signed64 (w.narrow g)) lock.asset_id) base_asset) _ h7 in
    (gain, need, g, res, a7, a8, sym (ok-injective h8))

-- What `_get_interest` returns: the unit, and the unit with an interest of at most the pool.
get_interest-eq-ok :
    ⦃w : Narrowing⦄ ⦃s : SafeInt⦄ (lock : AssetLockData) (lock_period digits k : ℕ)
    (current_supply : ℤ) {rate : Price}
    → digits ≤ 12
    → lock.interest_pool ≡ pos k
    → k < 2 ^ 63
    → lock.profile_receive_percent ≤ 10_000
    → get_interest lock lock_period digits current_supply ≡ ok rate
    → (g : ℕ) × (g ≤ k)
      × (g + unit_of digits < 2 ^ 63)
      × (rate
          ≡ price
              (asset (pos (unit_of digits)) lock.asset_id)
              (asset (pos (g + unit_of digits)) lock.asset_id))
get_interest-eq-ok lock lock_period digits k current_supply {rate} hd pool hk hr h =
    let (gain, need, g, res, paid, added, end) =
      interest_steps lock lock_period digits current_supply h in
    let b = unit_bounds digits hd in
    let unit : signed64 (scale_of (10 ^ digits)) ≡ pos (unit_of digits) =
      rw (scale_of_small digits hd) (ground arith) in
    let le = actual_profile_le lock gain need k pool hk hr paid in
    let (range, sum) = interest_sum lock.asset_id k g (unit_of digits) _ res unit le hk added in
    (g, le, range, end ∙ rw (unit, sum) refl)

-- The part of a product that exceeds the factor.
excess : (n g b : ℕ) → 0 < b → n * (g + b) / b ≡ n * g / b + n
excess n g b hb = rw (mul-add n g b) (add-mul-div_right (n * g) n hb)

-- For an amount of 63 bits of an asset with at most 12 digits, what `get_profit` returns is the
-- interest on it rounded down, at a rate that is between zero and the interest pool for each 10000
-- units, if the pool fits 63 bits and the share of it that is paid is at most 100 percent.
pub get_profit_lem :
    ⦃w : Narrowing⦄ ⦃s : SafeInt⦄ (lock : AssetLockData) (n lock_period digits k : ℕ)
    (current_supply p : ℤ)
    → digits ≤ 12
    → n < 2 ^ 63
    → lock.interest_pool ≡ pos k
    → k < 2 ^ 63
    → lock.profile_receive_percent ≤ 10_000
    → get_profit lock (pos n) lock_period digits current_supply ≡ ok p
    → (g : ℕ) × (g ≤ k) × (p ≡ pos (n * g / unit_of digits))
unfolding get_profit
get_profit_lem lock n lock_period digits k current_supply p hd hn pool hk hr h =
    let own = asset (pos n) lock.asset_id in
    let (rate, got, h1) = >>=-eq-ok (get_interest lock lock_period digits current_supply) _ h in
    let (grown, sold, h2) = >>=-eq-ok (multiply own rate) _ h1 in
    let (profit, rest, h3) = >>=-eq-ok (sub grown own) _ h2 in
    let (g, le, range, rate_eq) =
      get_interest-eq-ok lock lock_period digits k current_supply hd pool hk hr got in
    let b = unit_bounds digits hd in
    let (y, small) =
      multiply-eq-ok n (unit_of digits) (g + unit_of digits) lock.asset_id lock.asset_id grown hn
        b.0 range (subst (λ r. multiply own r ≡ ok grown) rate_eq sold) in
    let (same, same', value) = sub-eq-ok grown own profit rest in
    let amount : grown.amount ≡ pos (n * g / unit_of digits + n) =
      ap (λ (x : Asset). x.amount) y ∙ ap pos (excess n g (unit_of digits) b.0) in
    (g, le, sym (ok-injective h3) ∙ value ∙ rw amount (omega int_laws))
