-- ===== src/Sema/Tests.antt =====
-- Runs of the semaphores.
use fizzos.Base.{ℕ, ◌+◌, ◌<◌, ◌≡◌, [], ◌∷◌, Returns, length, arith}
use fizzos.Sema.{
  sema_init, sema_wait, post_count, post_wake, atomic_inc, atomic_inc_and_setg,
  atomic_dec_and_setge, State, to_wait, to_post, Reachable, fresh, next,
}
use fizzos.Sema.Permits.{permits_conserved, post_wake-ok}

-- Thread 7 waits for a semaphore without permits, and another thread posts.
abbrev post_begun : State
post_begun = record {
  sem = record { count = 0; wait_list = 7 ∷ [] };
  posting = 1;
  passed = 0;
  posts = 1;
}

post_begun-Reachable : Reachable 0 post_begun
unfolding sema_init sema_wait post_count atomic_inc_and_setg atomic_dec_and_setge atomic_inc
post_begun-Reachable =
    next (next (fresh (omega arith)) (to_wait 7 (omega arith))) (to_post (omega arith))

permits_conserved_example :
    (left : ℕ) × (post_begun.passed + post_begun.posting + left ≡ 0 + post_begun.posts)
    × (post_begun.posting < length post_begun.sem.wait_list → left ≡ 0)
permits_conserved_example = permits_conserved 0 post_begun post_begun-Reachable

post_wake-ok_example :
    Returns
      (λ r. length r.1.wait_list + 1 ≡ length post_begun.sem.wait_list)
      (post_wake post_begun.sem)
post_wake-ok_example = post_wake-ok 0 post_begun post_begun-Reachable (omega arith)
