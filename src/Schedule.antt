-- ===== src/Schedule.antt =====
-- The witness schedule (libraries/chain/db_witness_schedule.cpp): the times of the slots in which
-- blocks are made, the witness of a slot, and the shuffling of the witnesses at each round.
--
-- The block interval and the number of witnesses are divided by: where they are zero the code has no
-- defined behaviour, and the theorems suppose that they are not. Times are `uint32_t` seconds.
use fin_chain_core.Prelude.{
  ℕ, zero, suc, ◌+◌, ◌-◌, ◌*◌, ◌/◌, ◌%◌, ◌^◌, Bool, true, false, Option, none, some, List, [], ◌∷◌,
  ◌&&◌, ◌==◌, ltb, if◌then◌else◌, length, get_elem?,
}
use fin_chain_core.Prelude.Words.{u32_mod, u64_mod}
use Prim.Native.Nat.{bit_xor}
pub mod Slots
pub mod Shuffle
mod Tests

-- What the schedule uses of dynamic_global_property_object, of global_property_object and of
-- witness_schedule_object.
pub record ChainState : Type 0 where
  pub head_block_number : ℕ
  pub time : ℕ
  pub current_aslot : ℕ
  pub recent_slots_filled : ℕ
  pub dynamic_flags : ℕ
  pub block_interval : ℕ
  pub maintenance_skip_slots : ℕ
  pub active_witnesses : List ℕ
  pub current_shuffled_witnesses : List ℕ

-- database::get_scheduled_witness; without witnesses there is none
unfoldable pub get_scheduled_witness : ChainState → ℕ → Option ℕ
get_scheduled_witness s slot_num =
    get_elem? s.current_shuffled_witnesses
      ((s.current_aslot + slot_num) % u64_mod % length s.current_shuffled_witnesses)

-- `dpo.dynamic_flags & maintenance_flag`
abbrev pub is_maintenance : ChainState → Bool
is_maintenance s = s.dynamic_flags % 2 == 1

-- The slots that are counted, with those that maintenance skips
abbrev pub with_skipped : ChainState → ℕ → ℕ
with_skipped s slot_num =
    if is_maintenance s then (slot_num + s.maintenance_skip_slots) % u32_mod else slot_num

-- database::get_slot_time
unfoldable pub get_slot_time : ChainState → ℕ → ℕ
get_slot_time s slot_num =
    if slot_num == 0
    then 0
    else if s.head_block_number == 0
    then (s.time + (slot_num * s.block_interval) % u32_mod) % u32_mod
    else (s.time / s.block_interval * s.block_interval
        + (with_skipped s slot_num * s.block_interval) % u32_mod)
      % u32_mod

-- database::get_slot_at_time
unfoldable pub get_slot_at_time : ChainState → ℕ → Bool → ℕ
get_slot_at_time s when for_miss_block =
    if ltb when (get_slot_time s 1)
    then 0
    else if for_miss_block && (s.head_block_number == 0)
    then 1
    else ((when - get_slot_time s 1) / s.block_interval + 1) % u32_mod

-- database::witness_participation_rate, where the bits of a number are counted by a library
abbrev pub witness_participation_rate : (ℕ → ℕ) → ChainState → ℕ
witness_participation_rate popcount s =
    ((10_000 * popcount s.recent_slots_filled) % u64_mod / 128) % u32_mod

-- `v[i] = x`, for an index in range
abbrev pub set_elem : List ℕ → ℕ → ℕ → List ℕ
set_elem [] i x = []
set_elem (y ∷ ys) zero x = x ∷ ys
set_elem (y ∷ ys) (suc i) x = y ∷ set_elem ys i x

-- `std::swap( v[i], v[j] )`; `none` for an index out of range, where the code has no defined
-- behaviour
abbrev pub swap : List ℕ → ℕ → ℕ → Option (List ℕ)
swap xs i j = elim (get_elem? xs i) [
  | none ↦ none
  | some a ↦ elim (get_elem? xs j) [ none ↦ none | some b ↦ some (set_elem (set_elem xs j a) i b) ]
]

-- The random number of a position, of 64 bits
abbrev pub shift_right : ℕ → ℕ
shift_right k = bit_xor k (k / 2 ^ 12)

abbrev pub shift_left : ℕ → ℕ
shift_left k = bit_xor k ((k * 2 ^ 25) % u64_mod)

abbrev pub shift_right_more : ℕ → ℕ
shift_right_more k = bit_xor k (k / 2 ^ 27)

abbrev pub random_of : ℕ → ℕ → ℕ
random_of now_hi i =
    let seed = (now_hi + (i * 2_685_821_657_736_338_717) % u64_mod) % u64_mod in
    (shift_right_more (shift_left (shift_right seed)) * 2_685_821_657_736_338_717) % u64_mod

-- The loop from position i on, where jmax positions are left
abbrev pub shuffle : ℕ → ℕ → ℕ → List ℕ → Option (List ℕ)
shuffle now_hi zero i xs = some xs
shuffle now_hi (suc k) i xs = elim (swap xs i (i + random_of now_hi i % suc k)) [
  | none ↦ none
  | some ys ↦ shuffle now_hi k (suc i) ys
]

-- The witnesses of a new round
abbrev pub shuffled : ChainState → Option (List ℕ)
shuffled s = shuffle ((s.time * 2 ^ 32) % u64_mod) (length s.active_witnesses) 0 s.active_witnesses

abbrev pub with_shuffled : ChainState → Option (List ℕ) → Option ChainState
with_shuffled s none = none
with_shuffled s (some ws) = some (record s { current_shuffled_witnesses = ws })

-- database::update_witness_schedule; `none` where the code has no defined behaviour, which is
-- without active witnesses, as it divides by their number, or if the shuffle leaves its range
unfoldable pub update_witness_schedule : ChainState → Option ChainState
update_witness_schedule s =
    if length s.active_witnesses == 0
    then none
    else if s.head_block_number % length s.active_witnesses == 0
    then with_shuffled s (shuffled s)
    else some s
