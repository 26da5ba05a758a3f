-- ===== src/Schedule/Tests.antt =====
-- A chain with a block every five seconds, whose head block is a maintenance block.
use mathlib.Core.List.{Perm}
use fin_chain_core.Prelude.{
  ℕ, suc, ◌*◌, ◌^◌, ◌≤◌, ◌<◌, ◌≡◌, refl, some, false, true, [], ◌∷◌, arith,
}
use fin_chain_core.Schedule.{
  ChainState, get_scheduled_witness, get_slot_time, get_slot_at_time, shuffle,
  update_witness_schedule,
}
use fin_chain_core.Schedule.Slots.{get_slot_at_time-get_slot_time, get_slot_at_time-last}
use fin_chain_core.Schedule.Shuffle.{update_witness_schedule-Perm}

abbrev chain : ChainState
chain = record {
  head_block_number = 10;
  time = 1003;
  current_aslot = 12;
  recent_slots_filled = 7;
  dynamic_flags = 1;
  block_interval = 5;
  maintenance_skip_slots = 3;
  active_witnesses = 4 ∷ 6 ∷ 7 ∷ 8 ∷ 9 ∷ [];
  current_shuffled_witnesses = 9 ∷ 4 ∷ 8 ∷ 6 ∷ 7 ∷ [];
}

mixed : shuffle (1003 * 2 ^ 32) 5 0 chain.active_witnesses ≡ some (4 ∷ 7 ∷ 9 ∷ 6 ∷ 8 ∷ [])
mixed = refl

scheduled : get_scheduled_witness chain 3 ≡ some 9
unfolding get_scheduled_witness
scheduled = refl

second_slot : get_slot_time chain 2 ≡ 1025
unfolding get_slot_time
second_slot = refl

missed_at_genesis :
    get_slot_at_time (record chain { head_block_number = 0; dynamic_flags = 0 }) 2000 true ≡ 1
unfolding get_slot_at_time get_slot_time
missed_at_genesis = refl

get_slot_at_time-get_slot_time_example : get_slot_at_time chain (get_slot_time chain 2) false ≡ 2
get_slot_at_time-get_slot_time_example =
    get_slot_at_time-get_slot_time chain 1 (omega arith, omega arith)

get_slot_at_time-last_example :
    (m : ℕ) × (get_slot_at_time chain 1032 false ≡ suc m)
    × (get_slot_time chain (suc m) ≤ 1032)
    × (1032 < get_slot_time chain (suc (suc m)))
get_slot_at_time-last_example =
    get_slot_at_time-last chain 1032 (omega arith) (omega arith) (omega arith)

update_witness_schedule-Perm_example :
    (s' : ChainState) × (update_witness_schedule chain ≡ some s')
    × Perm s'.current_shuffled_witnesses chain.active_witnesses
update_witness_schedule-Perm_example = update_witness_schedule-Perm chain (omega arith) refl
