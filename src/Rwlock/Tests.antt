-- ===== src/Rwlock/Tests.antt =====
-- Runs of the reader-writer locks.
use fizzos.Base.{
  ◌+◌, ◌<◌, ◌≤◌, ◌≡◌, refl, true, false, [], ◌∷◌, panic, Returns, length, arith, contains,
}
use fizzos.Rwlock.{
  Rwlock, rwlock_init, read_round, write_round, returns, is_negative, rwlock_read_release,
  rwlock_write_release, State, to_read, to_write, Reachable, fresh, next,
}
use fizzos.Rwlock.Exclusion.{
  readers_writers_exclusive, read_release-ok, write_release_cases, uncontended_write-panic,
}

-- Thread 3 reads a fresh lock.
abbrev one_reader : State
one_reader = record {
  lock = record { read_waiter_list = []; write_waiter_list = []; count = 1; ready_write = false };
  readers = 3 ∷ [];
  writers = [];
}

one_reader-Reachable : Reachable one_reader
unfolding read_round rwlock_init is_negative
one_reader-Reachable = next fresh (to_read 3 (omega arith) refl)

readers_writers_exclusive_example :
    (length one_reader.writers ≤ 1)
    × (0 < length one_reader.writers → length one_reader.readers ≡ 0)
readers_writers_exclusive_example = readers_writers_exclusive one_reader one_reader-Reachable

read_release-ok_example :
    Returns (λ after. after.1.count + 1 ≡ 1) (rwlock_read_release one_reader.lock)
unfolding contains
read_release-ok_example = read_release-ok one_reader 3 one_reader-Reachable refl

-- Thread 5 writes a fresh lock.
abbrev one_writer : State
one_writer = record {
  lock = record {
    read_waiter_list = [];
    write_waiter_list = [];
    count = 4294967295;
    ready_write = false;
  };
  readers = [];
  writers = 5 ∷ [];
}

one_writer-Reachable : Reachable one_writer
unfolding write_round rwlock_init
one_writer-Reachable = next fresh (to_write 5 refl)

write_release_cases_example :
    (false ≡ true → Returns (λ after. after.1.count ≡ 0) (rwlock_write_release one_writer.lock))
    × (false ≡ false → rwlock_write_release one_writer.lock ≡ panic)
unfolding contains
write_release_cases_example = write_release_cases one_writer 5 one_writer-Reachable refl

abbrev free : Rwlock
free = record { read_waiter_list = []; write_waiter_list = []; count = 0; ready_write = false }

uncontended_write-panic_example :
    (l : Rwlock) × (write_round 5 free ≡ returns l) × (rwlock_write_release l ≡ panic)
uncontended_write-panic_example = uncontended_write-panic 5 free refl refl
