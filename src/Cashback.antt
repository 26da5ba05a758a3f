-- ===== src/Cashback.antt =====
-- Cashback (libraries/chain/account_object.cpp and the end of libraries/chain/db_balance.cpp): the
-- fees that are pending for an account are split among the network, the lifetime referrer, the
-- referrer and the registrar, and are paid into vesting balances. Witnesses are paid the same way.
--
-- An account is the part of its object that the split depends on. Lists stand for the indexes.
use fin_chain_core.Prelude.{
  ℕ, suc, ◌+◌, ◌/◌, ◌%◌, ◌^◌, Bool, true, false, Option, none, some, List, [], ◌∷◌, ◌&&◌, ◌||◌,
  ◌==◌, ltb, leb, if◌then◌else◌, find_first, replace_first,
}
use fin_chain_core.Prelude.Int.{ℤ, pos, ◌+ℤ◌, ◌-ℤ◌, ltb_ℤ, eqb_ℤ}
use fin_chain_core.Prelude.Words.{to_u128, mul128, u64_mod, signed64, mul_int64}
use fin_chain_core.Prelude.Results.{Result, ok, SafeInt, ◌>>=◌, found}
use fin_chain_core.Asset.{asset}
use fin_chain_core.Vesting.{VestingPolicy, linear, cdd, VestingBalance, deposit, deposit_vested}
pub mod Process
pub mod Value
pub mod Conserve
pub mod Split
mod Tests

-- The part of account_object that fees depend on.
pub record FeeAccount : Type 0 where
  pub account_id : ℕ
  pub membership_expiration_date : ℕ
  pub registrar : ℕ
  pub referrer : ℕ
  pub lifetime_referrer : ℕ
  pub network_fee_percentage : ℕ
  pub lifetime_referrer_fee_percentage : ℕ
  pub referrer_rewards_percentage : ℕ
  pub cashback_vb : Option ℕ

-- The part of account_statistics_object that holds fees.
pub record FeeStatistics : Type 0 where
  pub lifetime_fees_paid : ℤ
  pub pending_fees : ℤ
  pub pending_vested_fees : ℤ

-- The part of witness_object that pay depends on.
pub record Witness : Type 0 where
  pub witness_account : ℕ
  pub pay_vb : Option ℕ

-- A vesting balance with its id.
pub record VestingObject : Type 0 where
  pub vesting_id : ℕ
  pub vesting : VestingBalance

-- The part of the database that is paid into, with the dynamic data of the core asset and the
-- parameters of the chain.
pub record FeeState : Type 0 where
  pub accounts : List FeeAccount
  pub vestings : List VestingObject
  pub next_vesting_id : ℕ
  pub accumulated_fees : ℤ
  pub current_supply : ℤ
  pub head_block_time : ℕ
  pub cashback_vesting_period_seconds : ℕ
  pub witness_pay_vesting_seconds : ℕ

abbrev pub is_account : ℕ → FeeAccount → Bool
is_account i a = a.account_id == i

abbrev pub is_vesting : ℕ → VestingObject → Bool
is_vesting i v = v.vesting_id == i

-- account_object::is_basic_account
abbrev pub is_basic_account : FeeAccount → ℕ → Bool
is_basic_account a now = ltb a.membership_expiration_date now

-- cut_fee, in percent of percent
unfoldable pub cut_fee : ℤ → ℕ → ℤ
cut_fee a p =
    if eqb_ℤ a (pos 0) || (p == 0)
    then pos 0
    else if p == 10_000
    then a
    else signed64 (mul128 (to_u128 a) p / 10_000 % u64_mod)

-- Whether a balance is of the owner, and vests by coin days in the seconds that are required.
abbrev pub suits : ℕ → ℕ → VestingBalance → Bool
suits req_seconds req_owner v =
    (v.owner == req_owner)
    && (elim v.policy [ linear p ↦ false | cdd p ↦ p.vesting_seconds == req_seconds ])

-- The balance that `deposit_lazy_vesting` makes where none suits.
abbrev pub new_vesting : ℤ → ℕ → ℕ → Bool → ℕ → VestingBalance
new_vesting amount req_seconds req_owner require_vesting now = record {
  owner = req_owner;
  balance = asset amount 0;
  policy = cdd (record {
    vesting_seconds = req_seconds;
    coin_seconds_earned = if require_vesting then 0 else to_u128 (mul_int64 amount req_seconds);
    start_claim = 0;
    coin_seconds_earned_last_update = now;
  });
}

-- `GRAPHENE_COMMITTEE_ACCOUNT` to `GRAPHENE_TEMP_ACCOUNT`, the accounts of the chain itself
abbrev pub is_chain_account : ℕ → Bool
is_chain_account i = leb i 4

abbrev pub create_vesting : VestingBalance → FeeState → FeeState × Option ℕ
create_vesting v st = (
  record st {
    vestings = record { vesting_id = st.next_vesting_id; vesting = v } ∷ st.vestings;
    next_vesting_id = suc st.next_vesting_id;
  },
  some st.next_vesting_id,
)

-- A new vesting balance becomes the one of the account.
abbrev pub set_cashback : FeeAccount → FeeState × Option ℕ → FeeState
set_cashback a (st, none) = st
set_cashback a (st, some i) = record st {
  accounts =
      replace_first (is_account a.account_id) (record a { cashback_vb = some i }) st.accounts;
}

abbrev pub set_pay : Witness → FeeState × Option ℕ → FeeState × Witness
set_pay wit (st, none) = (st, wit)
set_pay wit (st, some i) = (st, record wit { pay_vb = some i })

module _ ⦃safe : SafeInt⦄ where
  abbrev pub pay_into : Bool → ℕ → ℤ → VestingBalance → Result VestingBalance
  pay_into require_vesting now amount v =
      if require_vesting
      then deposit v now (asset amount 0)
      else deposit_vested v now (asset amount 0)

  -- The loop of `deposit_lazy_vesting` that ends at its first round
  abbrev pub deposit_or_create :
      VestingObject → ℤ → ℕ → ℕ → Bool → FeeState → Result (FeeState × Option ℕ)
  deposit_or_create v amount req_seconds req_owner require_vesting st =
      if suits req_seconds req_owner v.vesting
      then (pay_into require_vesting st.head_block_time amount v.vesting >>= λ w. ok (
        record st {
          vestings = replace_first (is_vesting v.vesting_id) (record v { vesting = w }) st.vestings;
        },
        none,
      ))
      else ok (
          create_vesting
            (new_vesting amount req_seconds req_owner require_vesting st.head_block_time) st)

  -- database::deposit_lazy_vesting
  unfoldable pub deposit_lazy_vesting :
      Option ℕ → ℤ → ℕ → ℕ → Bool → FeeState → Result (FeeState × Option ℕ)
  deposit_lazy_vesting ovbid amount req_seconds req_owner require_vesting st =
      if eqb_ℤ amount (pos 0) then ok (st, none) else elim ovbid [
        | none ↦ ok (
            create_vesting
              (new_vesting amount req_seconds req_owner require_vesting st.head_block_time) st)
        | some i ↦ do
          v ← found (find_first (is_vesting i) st.vestings)
          deposit_or_create v amount req_seconds req_owner require_vesting st
      ]

  -- database::deposit_cashback
  unfoldable pub deposit_cashback : FeeAccount → ℤ → Bool → FeeState → Result FeeState
  deposit_cashback a amount require_vesting st =
      if eqb_ℤ amount (pos 0)
      then ok st
      else if is_chain_account a.account_id
      then (safe.check (st.current_supply -ℤ amount) >>= λ n. ok (record st { current_supply = n }))
      else (deposit_lazy_vesting a.cashback_vb amount st.cashback_vesting_period_seconds
            a.account_id require_vesting st
          >>= λ paid. ok (set_cashback a paid))

  -- database::deposit_witness_pay
  unfoldable pub deposit_witness_pay : Witness → ℤ → FeeState → Result (FeeState × Witness)
  deposit_witness_pay wit amount st =
      if eqb_ℤ amount (pos 0)
      then ok (st, wit)
      else (deposit_lazy_vesting wit.pay_vb amount st.witness_pay_vesting_seconds
            wit.witness_account true st
          >>= λ paid. ok (set_pay wit paid))
