-- ===== src/Schedule/Slots.antt =====
-- The times of slots, and the slot of a time, are inverse to each other.
use native.Mathlib.Nat.{
  add-mul, mul-le-mul, div-mul-le_self, lt-mul-div-succ, mul-div_cancel, mul_comm, suc-mul,
}
use fin_chain_core.Prelude.{
  ℕ, suc, ◌+◌, ◌-◌, ◌*◌, ◌/◌, ◌%◌, ◌^◌, ◌<◌, ◌≤◌, ◌≡◌, sym, subst, ap, ◌∙◌, false, ◌==◌, ltb,
  if◌then◌else◌, arith, Bool-cases, inl, inr,
}
use fin_chain_core.Prelude.Words.{u32_mod}
use fin_chain_core.Schedule.{ChainState, is_maintenance, get_slot_time, get_slot_at_time}

-- The time of slot 0, and the slots that are skipped after the head block.
abbrev pub start : ChainState → ℕ
start s = if s.head_block_number == 0 then s.time else s.time / s.block_interval * s.block_interval

abbrev pub skipped : ChainState → ℕ
skipped s =
    if s.head_block_number == 0 then 0 else if is_maintenance s then s.maintenance_skip_slots else 0

-- The interval is positive, and the time of the slot fits 32 bits.
abbrev pub Fits : ChainState → ℕ → Type 0
Fits s n = (0 < s.block_interval) × (start s + (n + skipped s) * s.block_interval < 2 ^ 32)

small_factor : (n i : ℕ) → 0 < i → n * i < 2 ^ 32 → n < 2 ^ 32
small_factor n i positive h =
    let at_least : n * 1 ≤ n * i = mul-le-mul (omega arith) positive in omega (arith, at_least)

no_wrap : (t n i : ℕ) → t + n * i < 2 ^ 32 → (t + (n * i) % u32_mod) % u32_mod ≡ t + n * i
no_wrap t n i h = omega arith

skips_no_wrap :
    (t n k i : ℕ)
    → 0 < i
    → t + (n + k) * i < 2 ^ 32
    → (t + ((n + k) % u32_mod * i) % u32_mod) % u32_mod ≡ t + (n + k) * i
skips_no_wrap t n k i positive h =
    let small = small_factor (n + k) i positive (omega arith) in
    let whole : (n + k) % u32_mod ≡ n + k = omega arith in
    ap (λ m. (t + (m * i) % u32_mod) % u32_mod) whole ∙ no_wrap t (n + k) i h

nothing_skipped : (t n i : ℕ) → t + n * i ≡ t + (n + 0) * i
nothing_skipped t n i = ap (λ m. t + m * i) (omega arith)

get_slot_time-start :
    (s : ChainState) (n : ℕ)
    → 0 < n
    → Fits s n
    → get_slot_time s n ≡ start s + (n + skipped s) * s.block_interval
unfolding get_slot_time
get_slot_time-start s n later (positive, fits) =
    let not_zero : (n == 0) ≡ false = ground arith in
    elim (Bool-cases (s.head_block_number == 0)) [
      | inl genesis ↦
          let e = nothing_skipped s.time n s.block_interval in
          rw (not_zero, genesis)
            (no_wrap s.time n s.block_interval
                (subst (λ x. x < 2 ^ 32) (sym e) (rw genesis at fits))
              ∙ e)
      | inr later_block ↦
          let t = s.time / s.block_interval * s.block_interval in
          elim (Bool-cases (is_maintenance s)) [
            | inl maintained ↦
                rw (not_zero, later_block, maintained)
                  (skips_no_wrap t n s.maintenance_skip_slots s.block_interval positive
                    (rw (later_block, maintained) at fits))
            | inr not_maintained ↦
                let e = nothing_skipped t n s.block_interval in
                rw (not_zero, later_block, not_maintained)
                  (no_wrap t n s.block_interval
                      (subst (λ x. x < 2 ^ 32) (sym e) (rw (later_block, not_maintained) at fits))
                    ∙ e)
          ]
    ]

from_first : (t m k i : ℕ) → t + (suc m + k) * i ≡ t + (1 + k) * i + m * i
from_first t m k i =
    let e : (suc m + k) * i ≡ (1 + k + m) * i = ap (λ x. x * i) (omega arith) in
    omega (arith, e, add-mul (1 + k) m i)

-- Slots are an interval apart.
get_slot_time-suc :
    (s : ChainState) (m : ℕ)
    → Fits s (suc m)
    → (get_slot_time s (suc m) ≡ get_slot_time s 1 + m * s.block_interval) × Fits s 1
get_slot_time-suc s m (positive, fits) =
    let e = from_first (start s) m (skipped s) s.block_interval in
    let fits_first : Fits s 1 = (positive, omega (arith, e, fits)) in
    (
      get_slot_time-start s (suc m) (omega arith) (positive, fits)
          ∙ e
          ∙ ap (λ x. x + m * s.block_interval)
              (sym (get_slot_time-start s 1 (omega arith) fits_first)),
      fits_first,
    )

-- Where the time of a slot, from the first on, fits 32 bits, and the interval is positive, the slot
-- at the time of the slot is the slot.
pub get_slot_at_time-get_slot_time :
    (s : ChainState) (m : ℕ)
    → Fits s (suc m)
    → get_slot_at_time s (get_slot_time s (suc m)) false ≡ suc m
unfolding get_slot_at_time
get_slot_at_time-get_slot_time s m (positive, fits) =
    let (e, fits_first) = get_slot_time-suc s m (positive, fits) in
    let small = small_factor (suc m + skipped s) s.block_interval positive (omega arith) in
    let not_before : ltb (get_slot_time s (suc m)) (get_slot_time s 1) ≡ false = ground arith in
    let gap : get_slot_time s (suc m) - get_slot_time s 1 ≡ m * s.block_interval =
      omega (arith, e) in
    let slots : m * s.block_interval / s.block_interval ≡ m = mul-div_cancel m positive in
    let fits_word : (m + 1) % u32_mod ≡ suc m = omega arith in rw (not_before, gap, slots) fits_word

-- Where the interval is positive and a time that is not before the first slot fits 32 bits with an
-- interval after it, the slot at the time is the last one that begins at or before the time.
pub get_slot_at_time-last :
    (s : ChainState) (when : ℕ)
    → 0 < s.block_interval
    → start s + (1 + skipped s) * s.block_interval ≤ when
    → when + s.block_interval < 2 ^ 32
    → (m : ℕ) × (get_slot_at_time s when false ≡ suc m)
      × (get_slot_time s (suc m) ≤ when)
      × (when < get_slot_time s (suc (suc m)))
unfolding get_slot_at_time
get_slot_at_time-last s when positive late room =
    let i = s.block_interval in
    let fits_first : Fits s 1 = (positive, omega arith) in
    let first = get_slot_time-start s 1 (omega arith) fits_first in
    let d = when - get_slot_time s 1 in
    let m = d / i in
    let below : m * i ≤ d = div-mul-le_self d i in
    let turned : i * (m + 1) ≡ (m + 1) * i = mul_comm i (m + 1) in
    let next : (m + 1) * i ≡ m * i + i = ap (λ x. x * i) (omega arith) ∙ suc-mul m i in
    let above : d < m * i + i = omega (arith, turned, next, lt-mul-div-succ d positive) in
    let e = from_first (start s) m (skipped s) i in
    let e' = from_first (start s) (suc m) (skipped s) i in
    let more : suc m * i ≡ m * i + i = suc-mul m i in
    let at = (get_slot_time-suc s m (positive, omega (arith, e, first, below))).0 in
    let at' = (get_slot_time-suc s (suc m) (positive, omega (arith, e', more, first, below))).0 in
    let small = small_factor (suc m) i positive (omega (arith, more, below)) in
    let not_before : ltb when (get_slot_time s 1) ≡ false = ground arith in
    let slot : (m + 1) % u32_mod ≡ suc m = omega arith in
    (m, rw not_before slot, omega (arith, at, below), omega (arith, at', more, above))
