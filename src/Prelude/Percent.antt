-- ===== src/Prelude/Percent.antt =====
-- Products of 64-bit amounts in 128-bit words, and parts of an amount in percent of percent.
use native.Mathlib.Nat.{mul-le-mul, mod-eq_of_lt, div-le_of_le-mul}
use fin_chain_core.Prelude.Int.{pos}
use fin_chain_core.Prelude.Words.{mul128, u64_mod, signed64}
use Prim.Native.Nat.{ℕ, ◌*◌, ◌/◌, ◌%◌, ◌^◌, ◌≤◌, ◌<◌}
use mathlib.Core.Path.{◌≡◌}
use native.Mathlib.Omega.{arith}

pub mul_small : (a b : ℕ) → a < 2 ^ 63 → b < 2 ^ 63 → a * b < 2 ^ 128
mul_small a b ha hb =
    let ha' : a ≤ 2 ^ 63 = omega arith in
    let hb' : b ≤ 2 ^ 63 = omega arith in omega (arith, mul-le-mul ha' hb')

pub mul128_small : (a b : ℕ) → a < 2 ^ 63 → b < 2 ^ 63 → mul128 a b ≡ a * b
mul128_small a b ha hb = mod-eq_of_lt (mul_small a b ha hb)

pub part_small : (n p : ℕ) → n < 2 ^ 63 → p ≤ 10_000 → n * p / 10_000 ≤ n
part_small n p hn hp =
    let more : n * p ≤ n * 10_000 = mul-le-mul (omega arith) hp in
    div-le_of_le-mul 10_000 (omega (arith, more))

pub part_exact :
    (n p : ℕ)
    → n < 2 ^ 63
    → p ≤ 10_000
    → signed64 (mul128 n p / 10_000 % u64_mod) ≡ pos (n * p / 10_000)
part_exact n p hn hp =
    let small = part_small n p hn hp in
    let whole : n * p / 10_000 % u64_mod ≡ n * p / 10_000 = mod-eq_of_lt (omega arith) in
    rw (mul128_small n p hn (omega arith), whole) (ground arith)
