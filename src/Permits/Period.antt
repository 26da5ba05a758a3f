-- ===== src/Permits/Period.antt =====
-- The periods of a permission: what is left to withdraw, and what a claim takes from it.
use native.Mathlib.Nat.{
  div-mul-le_self, lt-div-mul-add, mul-le-mul, mod-eq_of_lt, div-eq_of_lt, le_refl, zero-mul,
}
use fin_chain_core.Prelude.{
  ℕ, ◌+◌, ◌-◌, ◌*◌, ◌/◌, ◌%◌, ◌^◌, ◌≤◌, ◌<◌, ◌≡◌, refl, true, false, ap, ◌∙◌, ◌==◌, leb,
  if◌then◌else◌, arith, Bool-cases, inl, inr,
}
use fin_chain_core.Prelude.Int.{pos, ◌+ℤ◌, ◌-ℤ◌, mul_ℤ, quot, eqb_ℤ, int_laws}
use fin_chain_core.Prelude.Words.{u32_mod}
use fin_chain_core.Prelude.Results.{ok, SafeInt}
use fin_chain_core.Asset.{asset}
use fin_chain_core.Permits.{Permit, periods_since, next_start, available_this_period, claim_permit}

-- A permission for l of asset i in each d seconds, with c claimed since `start`.
abbrev pub term : Permit → ℕ → ℕ → ℕ → ℕ → ℕ → Permit
term p start c l i d = record p {
  withdrawal_limit = asset (pos l) i;
  withdrawal_period_sec = d;
  period_start_time = start;
  claimed_this_period = pos c;
}

-- What may still be withdrawn at a time.
abbrev pub left : ℕ → ℕ → ℕ → ℕ → ℕ → ℕ
left start c l d now = if leb (start + d) now then l else l - c

available_eq :
    ⦃s : SafeInt⦄ (p : Permit) (start c l i d now : ℕ)
    → c ≤ l
    → l < 2 ^ 63
    → start + d < 2 ^ 32
    → available_this_period (term p start c l i d) now ≡ ok (asset (pos (left start c l d now)) i)
unfolding available_this_period
available_eq ⦃s⦄ p start c l i d now hc hl ht =
    let small : (start + d) % u32_mod ≡ start + d = mod-eq_of_lt ht in
    let diff : pos l -ℤ pos c ≡ pos (l - c) = omega int_laws in
    let fits = s.check_fits (pos (l - c)) (omega arith) in rw (small, diff, fits) (ground arith)

periods_since_eq :
    (p : Permit) (start c l i d now : ℕ)
    → 0 < d
    → start ≤ now
    → periods_since (term p start c l i d) now ≡ ok (pos ((now - start) / d))
unfolding periods_since quot
periods_since_eq p start c l i d now hd hs =
    let diff : pos now -ℤ pos start ≡ pos (now - start) = omega int_laws in rw diff (ground arith)

mul_ℤ-pos : (a b : ℕ) → mul_ℤ (pos a) (pos b) ≡ pos (a * b)
unfolding mul_ℤ
mul_ℤ-pos a b = ground arith

next_start_eq :
    (p : Permit) (start c l i d k : ℕ)
    → start + k * d < 2 ^ 32
    → next_start (term p start c l i d) (pos k) ≡ start + k * d
next_start_eq p start c l i d k h =
    let sum : pos start +ℤ pos (k * d) ≡ pos (start + k * d) = omega int_laws in
    rw (mul_ℤ-pos k d, sum) (mod-eq_of_lt h)

-- The start of the period that a time is in, which is not before `start`.
abbrev pub start_at : ℕ → ℕ → ℕ → ℕ
start_at start d now = start + (now - start) / d * d

start_at_bounds :
    (start d now : ℕ)
    → 0 < d
    → start ≤ now
    → (start_at start d now ≤ now) × (now < start_at start d now + d)
start_at_bounds start d now hd hs =
    let low = div-mul-le_self (now - start) d in
    let high = lt-div-mul-add {a = now - start} hd in (omega arith, omega arith)

abbrev pub claimed_at : ℕ → ℕ → ℕ → ℕ → ℕ → ℕ
claimed_at start c d n now = if leb (start + d) now then n else c + n

same_period :
    (start d now : ℕ)
    → 0 < d
    → start ≤ now
    → ((now - start) / d == 0) ≡ (if leb (start + d) now then false else true)
same_period start d now hd hs =
    let low = div-mul-le_self (now - start) d in
    let high = lt-div-mul-add {a = now - start} hd in
    elim (Bool-cases ((now - start) / d == 0)) [
      | inl zero_periods ↦
          let e : (now - start) / d ≡ 0 = ground arith in
          let e' : (now - start) / d * d ≡ 0 = rw e (zero-mul d) in rw zero_periods (ground arith)
      | inr some_periods ↦
          let whole : 1 * d ≤ (now - start) / d * d = mul-le-mul (ground arith) (le_refl d) in
          rw some_periods (ground arith)
    ]

zero_test : (k : ℕ) → eqb_ℤ (pos k) (pos 0) ≡ (k == 0)
zero_test k = ground arith

claimed_eq :
    ⦃s : SafeInt⦄ (start c d n now : ℕ)
    → 0 < d
    → start ≤ now
    → c + n < 2 ^ 63
    → (if eqb_ℤ (pos ((now - start) / d)) (pos 0) then s.check (pos c +ℤ pos n) else ok (pos n))
      ≡ ok (pos (claimed_at start c d n now))
claimed_eq ⦃s⦄ start c d n now hd hs hn =
    let sum : pos c +ℤ pos n ≡ pos (c + n) = omega int_laws in
    let fits = s.check_fits (pos (c + n)) (omega arith) in
    let test = zero_test ((now - start) / d) ∙ same_period start d now hd hs in
    elim (Bool-cases (leb (start + d) now)) [
      | inl over ↦ rw (test, over) refl
      | inr within ↦ rw (test, within, sum) fits
    ]

claim_permit_eq :
    ⦃s : SafeInt⦄ (p : Permit) (start c l i d n now : ℕ)
    → 0 < d
    → start ≤ now
    → now < 2 ^ 32
    → c + n < 2 ^ 63
    → claim_permit (pos n) now (term p start c l i d)
      ≡ ok (term p (start_at start d now) (claimed_at start c d n now) l i d)
unfolding claim_permit
claim_permit_eq ⦃s⦄ p start c l i d n now hd hs ht hn =
    let b = start_at_bounds start d now hd hs in
    let begins = next_start_eq p start c l i d ((now - start) / d) (omega arith) in
    rw (periods_since_eq p start c l i d now hd hs, claimed_eq start c d n now hd hs hn, begins)
      refl

not_over : (start d now : ℕ) → now < start + d → leb (start + d) now ≡ false
not_over start d now h = ground arith

-- What is left at a time of the current period.
left_now : (start c l d now : ℕ) → now < start + d → left start c l d now ≡ l - c
left_now start c l d now h = rw (not_over start d now h) refl

start_at_same : (start d now : ℕ) → start ≤ now → now < start + d → start_at start d now ≡ start
start_at_same start d now hs h =
    let no_periods : (now - start) / d ≡ 0 = div-eq_of_lt (omega arith) in
    ap (λ k. start + k * d) no_periods ∙ omega (arith, zero-mul d)

-- At a time from the start of the permission on, and at a later one in the period of the first,
-- where times fit 32 bits, the limit 62 bits, and what was claimed is within the limit, two claims
-- that are together at most what is left at the first time both take their amounts: after the first,
-- what is left at either time is less by its amount, after the second it is less by both, the
-- permission has its limit and its period as before, the current period begins at or before the
-- first time, and the claims of the period are within the limit.
pub claim_permit_twice :
    ⦃s : SafeInt⦄ (p : Permit) (start c l i d n m now now' : ℕ)
    → 0 < d
    → start ≤ now
    → now ≤ now'
    → now' < start_at start d now + d
    → now' + d < 2 ^ 32
    → c ≤ l
    → l < 2 ^ 62
    → n + m ≤ left start c l d now
    → (start' : ℕ) × (c1 : ℕ) × (c2 : ℕ) × (claim_permit (pos n) now (term p start c l i d)
        ≡ ok (term p start' c1 l i d))
      × (available_this_period (term p start' c1 l i d) now
          ≡ ok (asset (pos (left start c l d now - n)) i))
      × (available_this_period (term p start' c1 l i d) now'
          ≡ ok (asset (pos (left start c l d now - n)) i))
      × (claim_permit (pos m) now' (term p start' c1 l i d) ≡ ok (term p start' c2 l i d))
      × (available_this_period (term p start' c2 l i d) now'
          ≡ ok (asset (pos (left start c l d now - n - m)) i))
      × (c2 ≤ l)
      × (start' ≤ now)
claim_permit_twice p start c l i d n m now now' hd hs later same ht hc hl sum =
    let b = start_at_bounds start d now hd hs in
    let begin = start_at start d now in
    let c1 = claimed_at start c d n now in
    let within : c1 ≤ l = ground arith in
    let rest : l - c1 ≡ left start c l d now - n = ground arith in
    let small : c + n < 2 ^ 63 = ground arith in
    let within' : c1 + m ≤ l = omega arith in
    let rest' : l - (c1 + m) ≡ left start c l d now - n - m = omega arith in
    let stays = start_at_same begin d now' (omega arith) same in
    let adds : claimed_at begin c1 d m now' ≡ c1 + m = rw (not_over begin d now' same) refl in
    (
      begin,
      c1,
      c1 + m,
      claim_permit_eq p start c l i d n now hd hs (omega arith) small,
      available_eq p begin c1 l i d now within (omega arith) (omega arith)
          ∙ ap (λ k. ok (asset (pos k) i)) (left_now begin c1 l d now b.1 ∙ rest),
      available_eq p begin c1 l i d now' within (omega arith) (omega arith)
          ∙ ap (λ k. ok (asset (pos k) i)) (left_now begin c1 l d now' same ∙ rest),
      claim_permit_eq p begin c1 l i d m now' hd (omega arith) (omega arith) (omega arith)
          ∙ ap (λ k. ok (term p k (claimed_at begin c1 d m now') l i d)) stays
          ∙ ap (λ k. ok (term p begin k l i d)) adds,
      available_eq p begin (c1 + m) l i d now' within' (omega arith) (omega arith)
          ∙ ap (λ k. ok (asset (pos k) i)) (left_now begin (c1 + m) l d now' same ∙ rest'),
      within',
      b.0,
    )
