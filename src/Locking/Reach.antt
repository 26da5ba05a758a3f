-- ===== src/Locking/Reach.antt =====
-- Sequences of changes of the state that locking works on, and what a locked balance that has been
-- paid out is after any of them.
use fin_chain_core.Prelude.{
  ℕ, ◌≡◌, ◌≢◌, sym, ap, subst, ◌∙◌, true, false, some, List, [], ◌∷◌, ◌++◌, ◌==◌, arith, Bool-cases,
  inl, inr, find_first, find_first-has, find_first-replace_first_other,
}
use fin_chain_core.Prelude.Results.{ok, err, assert_exception, SafeInt, >>=-eq-ok}
use fin_chain_core.Interest.{Narrowing}
use fin_chain_core.Locking.{
  LockedBalance, LockState, SafeTime, is_locked, new_locked, LockBalanceOperation,
  SetLockDataOperation, UnlockBalanceOperation, DonationBalanceOperation,
}
use fin_chain_core.Locking.Operations.{set_lock_data, donate, unlock, evaluate_lock, lock_balance}
use fin_chain_core.Locking.Steps.{donate-eq-ok, unlock-eq-ok}
use fin_chain_core.Locking.LockSteps.{apply_lock-eq-ok}
use fin_chain_core.Locking.Pools.{set_lock_data-eq-ok}
use fin_chain_core.Locking.Once.{unlock_finished, unlock-finishes}

-- One change: an operation on locked balances that goes through, or a change of anything else, the
-- time, the balances and the assets among it, by another part of the chain.
pub data Step ⦃s : SafeInt⦄ ⦃t : SafeTime⦄ ⦃w : Narrowing⦄ : LockState → LockState → Type 0 where
  locks : {c c' : LockState} (op : LockBalanceOperation) → lock_balance op c ≡ ok c' → Step c c'
  unlocks : {c c' : LockState} (op : UnlockBalanceOperation) → unlock op c ≡ ok c' → Step c c'
  donates : {c c' : LockState} (op : DonationBalanceOperation) → donate op c ≡ ok c' → Step c c'
  sets : {c c' : LockState} (op : SetLockDataOperation) → set_lock_data op c ≡ ok c' → Step c c'
  elsewhere : {c c' : LockState} → c'.lockeds ≡ c.lockeds → Step c c'

-- Any number of changes, one after the other.
pub data Reach ⦃s : SafeInt⦄ ⦃t : SafeTime⦄ ⦃w : Narrowing⦄ (c : LockState)
    : LockState → Type 0 where
  no_change : Reach c c
  change : {d e : LockState} → Reach c d → Step d e → Reach c e

-- The locked balance of an id is there, and has been paid out.
abbrev pub IsFinished : ℕ → List LockedBalance → Type 0
IsFinished i ls =
    (item : LockedBalance) × (find_first (is_locked i) ls ≡ some item) × (item.finish ≡ true)

find_first-append :
    (i : ℕ) (ls ms : List LockedBalance) {item : LockedBalance}
    → find_first (is_locked i) ls ≡ some item
    → find_first (is_locked i) (ls ++ ms) ≡ some item
unfolding find_first
find_first-append i [] ms h = cc
find_first-append i (l ∷ ls) ms h = elim (Bool-cases (is_locked i l)) [
  | inl this ↦ rw this (rw this at h)
  | inr other ↦ rw other (find_first-append i ls ms (rw other at h))
]

module _ ⦃s : SafeInt⦄ ⦃t : SafeTime⦄ where
  unlock-IsFinished :
      (i : ℕ) (op : UnlockBalanceOperation) (c c' : LockState)
      → unlock op c ≡ ok c'
      → IsFinished i c.lockeds
      → IsFinished i c'.lockeds
  unlock-IsFinished i op c c' h (item, got, over) =
      let (other, a, lock, lock', mid, bs, paid, back, got', live, _, _, _, _, _, _, end) =
        unlock-eq-ok op c c' h in
      let differ : op.locked_id ≢ i = λ same.
        let both = subst (λ k. find_first (is_locked k) c.lockeds ≡ some other) same got' in cc in
      let key = find_first-has (is_locked op.locked_id) c.lockeds got' in
      let apart = λ (x : LockedBalance) (e : is_locked op.locked_id x ≡ true).
        apart_ids x.locked_id op.locked_id i differ e in
      let kept =
        find_first-replace_first_other (is_locked op.locked_id) (is_locked i) apart
          (record other { finish = true }) c.lockeds key in
      (item, ap (λ (z : LockState). find_first (is_locked i) z.lockeds) end ∙ kept ∙ got, over)
    where
      apart_ids : (k j i : ℕ) → j ≢ i → (k == j) ≡ true → (k == i) ≡ false
      apart_ids k j i differ e = ground arith

  module _ ⦃w : Narrowing⦄ where
    Step-IsFinished :
        (i : ℕ) {c c' : LockState} → Step c c' → IsFinished i c.lockeds → IsFinished i c'.lockeds
    unfolding lock_balance
    Step-IsFinished i {c} {c'} (locks op h) (item, got, over) =
        let (x, evaluated, applied) = >>=-eq-ok (evaluate_lock op c) _ h in
        let (a, lock, pool, n, mid, bs, _, _, _, _, _, _, end) =
          apply_lock-eq-ok op x.0 x.1 c c' applied in
        (
          item,
          ap (λ (z : LockState). find_first (is_locked i) z.lockeds) end
              ∙ find_first-append i c.lockeds (new_locked op x.1 c ∷ []) got,
          over,
        )
    Step-IsFinished i {c} {c'} (unlocks op h) finished = unlock-IsFinished i op c c' h finished
    Step-IsFinished i {c} {c'} (donates op h) finished =
        let (a, lock, lock', bs, _, _, _, _, end) = donate-eq-ok op c c' h in
        subst (IsFinished i) (sym (ap (λ (z : LockState). z.lockeds) end)) finished
    Step-IsFinished i {c} {c'} (sets op h) finished =
        let (a, bs, _, _, _, end) = set_lock_data-eq-ok op c c' h in
        subst (IsFinished i) (sym (ap (λ (z : LockState). z.lockeds) end)) finished
    Step-IsFinished i (elsewhere same) finished = subst (IsFinished i) (sym same) finished

    Reach-IsFinished :
        (i : ℕ) {c c' : LockState} → Reach c c' → IsFinished i c.lockeds → IsFinished i c'.lockeds
    Reach-IsFinished i no_change finished = finished
    Reach-IsFinished i (change steps step) finished =
        Step-IsFinished i step (Reach-IsFinished i steps finished)

    -- Once a locked balance has been unlocked, no operation unlocks it again: after any sequence of
    -- operations that go through, and of changes of anything but the locked balances by other parts
    -- of the chain, an operation that unlocks it raises an assertion.
    pub unlock_once :
        (op op' : UnlockBalanceOperation) (c c' c'' : LockState)
        → unlock op c ≡ ok c'
        → Reach c' c''
        → op'.locked_id ≡ op.locked_id
        → unlock op' c'' ≡ err assert_exception
    unlock_once op op' c c' c'' h steps same =
        let (item, got, over) = Reach-IsFinished op.locked_id steps (unlock-finishes op c c' h) in
        unlock_finished op' c'' item (rw same got) over
