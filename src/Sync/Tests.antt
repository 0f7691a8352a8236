-- ===== src/Sync/Tests.antt =====
-- A mutex of kernel/sync.c with two threads, and its theorems there.
use fizzos.Base.{ℕ, ◌≡◌, refl, true, ok, ◌>>=◌, none, ◌==◌, if◌then◌else◌}
use fizzos.Sync.{
  mutex_lock_init, State, running, trying, leaving, acquire_enter, acquire_round, acquire_own,
  release_enter, release_unlock, release_wake, to_acquire, to_round, to_own, to_release, Reachable,
  fresh, next,
}
use fizzos.Sync.Invariant.{mutual_exclusion}

abbrev start : State
start = record { mutex = mutex_lock_init; pc = λ t. running }

-- Thread 1 has the mutex.
abbrev taken : State
taken = acquire_own 1 (acquire_round 1 (acquire_enter 1 start))

-- Thread 2 waits for it.
abbrev contended : State
contended = acquire_round 2 (acquire_enter 2 taken)

contended-Reachable : Reachable contended
unfolding mutex_lock_init acquire_enter acquire_round acquire_own
contended-Reachable =
    next
      (next (next (next (next fresh (to_acquire 1 refl)) (to_round 1 refl)) (to_own 1 refl))
        (to_acquire 2 refl))
      (to_round 2 refl)

mutual_exclusion_example : (◌≡◌ {A = ℕ} 1 1) × (contended.mutex.is_lock ≡ true)
unfolding mutex_lock_init acquire_enter acquire_round acquire_own
mutual_exclusion_example = mutual_exclusion contended 1 1 contended-Reachable refl refl

-- Thread 1 is about to unlock.
abbrev unlocking : State
unlocking = record contended {
  mutex = record contended.mutex { holder = none; repeat = 0 };
  pc = λ t. if◌then◌else◌ (t == 1) leaving (contended.pc t);
}

unlocking-Reachable : Reachable unlocking
unfolding mutex_lock_init acquire_enter acquire_round acquire_own release_enter
unlocking-Reachable = next contended-Reachable (to_release 1 refl refl)

-- The whole release wakes the sleeper.
wakes_sleeper : (release_unlock 1 unlocking >>= λ s'. ok ((release_wake 1 2 s').pc 2)) ≡ ok trying
unfolding mutex_lock_init acquire_enter acquire_round acquire_own release_unlock release_wake
wakes_sleeper = refl
