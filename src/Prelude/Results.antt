-- ===== src/Prelude/Results.antt =====
-- Exceptions as values, and the arithmetic of `share_type`.
--
-- `share_type` is `fc::safe<int64_t>`, whose code is not in the repository: an interface `SafeInt`
-- stands for it. Its one operation takes the mathematical value of a sum, difference or negation,
-- and gives back that value or the exception that `fc::safe` is documented to raise on overflow.
use fin_chain_core.Prelude.Int.{ℤ, pos, negsuc, ◌≤ℤ◌, leb_ℤ}
use fin_chain_core.Prelude.Tests.{if◌then◌else◌}
use Prim.Native.Nat.{◌-◌, ◌^◌}
use mathlib.Core.Path.{◌≡◌, refl}
use mathlib.Core.Logic.{◌⊎◌, inl, inr}
use mathlib.Core.Option.{Option, none, some}
use mathlib.Core.Bool.{Bool, true, false, ◌&&◌}
use native.Mathlib.Omega.{arith}

-- The kinds of exception that the code raises, each by the name that the source gives it.
pub data Error : Type 0 where
  assert_exception overflow_exception key_not_found_exception black_swan_exception : Error
  unlinkable_block_exception transfer_from_account_not_whitelisted : Error
  transfer_to_account_not_whitelisted transfer_restricted_transfer_asset : Error
  override_transfer_not_permitted tx_missing_active_auth tx_missing_owner_auth : Error
  tx_missing_other_auth tx_irrelevant_sig invalid_committee_approval bad_rational : Error

pub data Result {ℓ} (A : Type ℓ) : Type ℓ where
  -- the code returns
  ok : (result : A) → Result A
  -- the code raises, and nothing of what it has changed is kept
  err : (reason : Error) → Result A

infixl 5 ◌>>=◌ ◌>>◌
abbrev pub ◌>>=◌ {ℓ κ} : {A : Type ℓ} {B : Type κ} → Result A → (A → Result B) → Result B
ok result >>= next = next result
err reason >>= next = err reason

abbrev pub ◌>>◌ {ℓ} : {B : Type ℓ} → Result (Unit {0}) → Result B → Result B
first >> second = first >>= λ done. second

-- `GRAPHENE_ASSERT( test, exception )`
abbrev pub ensure : Bool → Error → Result (Unit {0})
ensure true e = ok tt
ensure false e = err e

-- `FC_ASSERT( test )`
abbrev pub fc_assert : Bool → Result (Unit {0})
fc_assert b = ensure b assert_exception

-- What holds of a computation if it does not raise.
abbrev pub Returns {ℓ κ} : {A : Type ℓ} → Result A → (A → Type κ) → Type κ
Returns (ok a) P = P a
Returns (err e) P = Unit

pub Result-cases {ℓ} :
    {A : Type ℓ} (r : Result A) → ((a : A) × (r ≡ ok a)) ⊎ ((e : Error) × (r ≡ err e))
Result-cases (ok a) = inl (a, refl)
Result-cases (err e) = inr (e, refl)

pub ok-injective {ℓ} : {A : Type ℓ} {a b : A} → ok a ≡ ok b → a ≡ b
ok-injective h = cc

-- Inversion of a successful bind.
pub >>=-eq-ok {ℓ κ} :
    {A : Type ℓ} {B : Type κ} (first : Result A) (next : A → Result B) {last : B}
    → (first >>= next) ≡ ok last
    → (middle : A) × (first ≡ ok middle) × (next middle ≡ ok last)
>>=-eq-ok (ok middle) next returned = (middle, refl, returned)
>>=-eq-ok (err reason) next returned = cc

pub ensure-eq-ok : (b : Bool) (e : Error) {u : Unit {0}} → ensure b e ≡ ok u → b ≡ true
ensure-eq-ok true e h = refl
ensure-eq-ok false e h = cc

-- An object by its id, which raises if there is none.
abbrev pub found {ℓ} : {A : Type ℓ} → Option A → Result A
found none = err assert_exception
found (some a) = ok a

pub found-eq-ok {ℓ} : {A : Type ℓ} (o : Option A) {a : A} → found o ≡ ok a → o ≡ some a
found-eq-ok none h = cc
found-eq-ok (some a) h = cc

-- The values of an `int64_t`.
abbrev pub FitsInt64 : ℤ → Type 0
FitsInt64 a = (negsuc (2 ^ 63 - 1) ≤ℤ a) × (a ≤ℤ pos (2 ^ 63 - 1))

pub record SafeInt : Type 0 where
  pub check : ℤ → Result ℤ
  -- a value that comes back is the exact one, and it is in range
  pub check_exact : (a b : ℤ) → check a ≡ ok b → b ≡ a
  pub check_range : (a b : ℤ) → check a ≡ ok b → FitsInt64 b
  -- a value in range comes back
  pub check_fits : (a : ℤ) → FitsInt64 a → check a ≡ ok a

-- The interface can be met: the check against the two ends of the range.
abbrev pub in_int64 : ℤ → Bool
in_int64 a = leb_ℤ (negsuc (2 ^ 63 - 1)) a && leb_ℤ a (pos (2 ^ 63 - 1))

abbrev pub int64_check : ℤ → Result ℤ
int64_check a = if in_int64 a then ok a else err overflow_exception

pub int64_check_exact : (a b : ℤ) → int64_check a ≡ ok b → b ≡ a
int64_check_exact a b h = ground arith

pub int64_check_range : (a b : ℤ) → int64_check a ≡ ok b → FitsInt64 b
int64_check_range a b h = ground arith

pub int64_check_fits : (a : ℤ) → FitsInt64 a → int64_check a ≡ ok a
int64_check_fits a h = ground arith

abbrev pub int64_safe : SafeInt
int64_safe = record {
  check = int64_check;
  check_exact = int64_check_exact;
  check_range = int64_check_range;
  check_fits = int64_check_fits;
}
