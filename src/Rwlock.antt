-- ===== src/Rwlock.antt =====
-- kernel/sync.c: reader-writer locks. Each round of a call runs with interrupts off, so it is a step; in
-- thread_block a thread waits, and when it is unblocked it takes the next round of its loop. `count` is
-- an int, kept as the number of 32 bits with its pattern. A thread is named by a number.
pub mod Exclusion
mod Tests
use fizzos.Base.{
  ℕ, zero, suc, ◌+◌, ◌-◌, ◌%◌, ◌^◌, ◌≡◌, ◌<◌, Bool, true, false, not, ◌||◌, ◌&&◌, List, [], ◌∷◌,
  ◌++◌, Outcome, ok, panic, ◌>>◌, assert, ◌==◌, leb, if◌then◌else◌, length, remove_elem, contains,
}

pub record Rwlock : Type 0 where
  pub read_waiter_list : List ℕ
  pub write_waiter_list : List ℕ
  pub count : ℕ
  pub ready_write : Bool

pub rwlock_init : Rwlock
rwlock_init = record {
  read_waiter_list = [];
  write_waiter_list = [];
  count = 0;
  ready_write = false;
}

-- An int below 0, and its neighbours.
pub is_negative : ℕ → Bool
is_negative n = leb (2 ^ 31) n

abbrev pub minus_one : ℕ
minus_one = 2 ^ 32 - 1

abbrev pub inc32 : ℕ → ℕ
inc32 n = (n + 1) % 2 ^ 32

abbrev pub dec32 : ℕ → ℕ
dec32 n = (n + minus_one) % 2 ^ 32

-- What a round of a loop does: the thread goes to sleep, or the call returns.
pub data Round : Type 0 where
  sleeps : Rwlock → Round
  returns : Rwlock → Round

-- rwlock_read_acquire: readers wait for a writer, and for a writer that waits.
pub read_round : ℕ → Rwlock → Round
unfolding is_negative
read_round t l =
    if is_negative l.count || l.ready_write
    then sleeps (record l { read_waiter_list = l.read_waiter_list ++ (t ∷ []) })
    else returns (record l { count = inc32 l.count })

-- The front of a list, and what is behind it.
abbrev pub front : List ℕ → List ℕ
front [] = []
front (t ∷ rest) = t ∷ []

abbrev pub behind_front : List ℕ → List ℕ
behind_front [] = []
behind_front (t ∷ rest) = rest

-- The last reader wakes a writer, or else a reader: the lock, and the threads that are woken.
pub wake_one : Rwlock → List ℕ × Rwlock
wake_one l =
    let writers : List ℕ × Rwlock = (
      front l.write_waiter_list,
      record l { write_waiter_list = behind_front l.write_waiter_list },
    ) in
    let readers : List ℕ × Rwlock =
      (front l.read_waiter_list, record l { read_waiter_list = behind_front l.read_waiter_list }) in
    if length l.write_waiter_list == 0 then readers else writers

-- `count > 0` on an int.
pub rwlock_read_release : Rwlock → Outcome (List ℕ × Rwlock)
unfolding is_negative wake_one
rwlock_read_release l =
    let count = dec32 l.count in
    assert (not (is_negative l.count) && not (l.count == 0))
    >> ok (
        if count == 0
        then wake_one (record l { count = count })
        else ([], record l { count = count }))

-- rwlock_write_acquire: a writer waits for everyone.
pub write_round : ℕ → Rwlock → Round
write_round t l =
    if l.count == 0
    then returns (record l { count = dec32 l.count })
    else sleeps
        (record l { ready_write = true; write_waiter_list = l.write_waiter_list ++ (t ∷ []) })

pub rwlock_write_release : Rwlock → Outcome (List ℕ × Rwlock)
rwlock_write_release l =
    let freed : Rwlock = record l { count = inc32 l.count } in
    let writers : List ℕ × Rwlock = (
      front l.write_waiter_list,
      record freed { write_waiter_list = behind_front l.write_waiter_list },
    ) in
    let readers : List ℕ × Rwlock =
      (l.read_waiter_list, record freed { ready_write = false; read_waiter_list = [] }) in
    assert ((l.count == minus_one) && l.ready_write)
    >> ok (if length l.write_waiter_list == 0 then readers else writers)

-- The lock with the threads that hold it: one that reads twice stands in `readers` twice.
pub record State : Type 0 where
  pub lock : Rwlock
  pub readers : List ℕ
  pub writers : List ℕ

-- Any thread takes the next step. A thread that is asleep takes one only when it has been woken, but
-- nothing below needs that; fewer than 2 ^ 31 readers hold the lock.
pub data Step : State → State → Type 0 where
  to_read :
      {s : State} {l : Rwlock} (t : ℕ)
      → length s.readers + 1 < 2 ^ 31
      → read_round t s.lock ≡ returns l
      → Step s (record { lock = l; readers = t ∷ s.readers; writers = s.writers })
  to_wait_read :
      {s : State} {l : Rwlock} (t : ℕ)
      → read_round t s.lock ≡ sleeps l
      → Step s (record s { lock = l })
  to_end_read :
      {s : State} {l : Rwlock} (t : ℕ) (woken : List ℕ)
      → contains t s.readers ≡ true
      → rwlock_read_release s.lock ≡ ok (woken, l)
      → Step s (record { lock = l; readers = remove_elem t s.readers; writers = s.writers })
  to_write :
      {s : State} {l : Rwlock} (t : ℕ)
      → write_round t s.lock ≡ returns l
      → Step s (record { lock = l; readers = s.readers; writers = t ∷ s.writers })
  to_wait_write :
      {s : State} {l : Rwlock} (t : ℕ)
      → write_round t s.lock ≡ sleeps l
      → Step s (record s { lock = l })
  to_end_write :
      {s : State} {l : Rwlock} (t : ℕ) (woken : List ℕ)
      → contains t s.writers ≡ true
      → rwlock_write_release s.lock ≡ ok (woken, l)
      → Step s (record { lock = l; readers = s.readers; writers = remove_elem t s.writers })

pub data Reachable : State → Type 0 where
  fresh : Reachable (record { lock = rwlock_init; readers = []; writers = [] })
  next : {s s' : State} → Reachable s → Step s s' → Reachable s'
