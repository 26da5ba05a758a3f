-- ===== src/Prelude/Words.antt =====
-- Machine words: unsigned words are native numbers that wrap by `%`, and a signed word that becomes
-- an unsigned one is taken modulo the width.
use fin_chain_core.Prelude.Int.{ℤ, pos, negsuc}
use fin_chain_core.Prelude.Tests.{ltb, if◌then◌else◌}
use Prim.Native.Nat.{ℕ, ◌+◌, ◌-◌, ◌*◌, ◌%◌, ◌^◌}

abbrev pub u32_mod : ℕ
u32_mod = 2 ^ 32

abbrev pub u64_mod : ℕ
u64_mod = 2 ^ 64

abbrev pub u128_mod : ℕ
u128_mod = 2 ^ 128

-- An `int64_t` converted to a 128-bit unsigned number.
abbrev pub to_u128 : ℤ → ℕ
to_u128 (pos n) = n
to_u128 (negsuc n) = u128_mod - 1 - n

-- The product of two 128-bit unsigned numbers.
abbrev pub mul128 : ℕ → ℕ → ℕ
mul128 a b = (a * b) % u128_mod

abbrev pub to_u64 : ℤ → ℕ
to_u64 (pos n) = n % u64_mod
to_u64 (negsuc n) = u64_mod - 1 - n % u64_mod

-- The integer that a 64-bit pattern stands for.
abbrev pub signed64 : ℕ → ℤ
signed64 w = if ltb w (2 ^ 63) then pos w else negsuc (u64_mod - 1 - w)

-- The product of an `int64_t` and a word, as an `int64_t` that wraps.
abbrev pub mul_int64 : ℤ → ℕ → ℤ
mul_int64 a w = signed64 ((to_u64 a * w) % u64_mod)

-- An `int32_t` from an integer that may not fit it, and from the bits of a `uint32_t`.
abbrev pub to_u32 : ℤ → ℕ
to_u32 (pos n) = n % u32_mod
to_u32 (negsuc n) = u32_mod - 1 - n % u32_mod

abbrev pub signed32 : ℕ → ℤ
signed32 w = if ltb w (2 ^ 31) then pos w else negsuc (u32_mod - 1 - w)

abbrev pub wrap_int32 : ℤ → ℤ
wrap_int32 a = signed32 (to_u32 a)

-- The difference of two 128-bit unsigned numbers.
abbrev pub sub128 : ℕ → ℕ → ℕ
sub128 a b = (a + (u128_mod - b)) % u128_mod
