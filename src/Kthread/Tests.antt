-- ===== src/Kthread/Tests.antt =====
-- Three threads of kernel/kthread.c, and the theorems there.
use fizzos.Base.{
  ℕ, ◌≡◌, refl, true, false, ◌||◌, List, [], ◌∷◌, get_elem?, some, arith, IfOk, if◌then◌else◌, ◌==◌,
}
use fizzos.Kthread.{
  Task, Kernel, TaskState, running, ready, blocked_state, stack_magic_value, Event, tick, block,
  yield_cpu, unblock, fork, perform, dispatched, dispatch, schedule, put_aside,
}
use fizzos.Dlist.Chain.{has}
use fizzos.Kthread.Fifo.{dispatched_in_turn}
use fizzos.Kthread.Ready.{IsSound, perform-IsSound}

abbrev in_state : TaskState → Task
in_state st = record {
  state = st;
  prio = 2;
  elapsed_ticks = 0;
  ticks = 0;
  stack_magic = stack_magic_value;
}

-- Thread 1 runs, 2 and 3 are ready, 4 is blocked, 9 is the idle thread.
abbrev three : Kernel
three = record {
  current = 1;
  ready_list = 2 ∷ 3 ∷ [];
  task = λ t.
      in_state (if t == 1 then running else if (t == 2) || (t == 3) then ready else blocked_state);
  idle = 9;
  ticks = 0;
  freed = [];
}

three-IsSound : IsSound three
three-IsSound = record {
  queued = record { distinct = (refl, (refl, tt)); waiting = λ t h. waiting t h };
  current = refl;
}
  where
    waiting : (t : ℕ) → has t (2 ∷ 3 ∷ []) ≡ true → (three.task t).state ≡ ready
    waiting t h = ground arith

abbrev events : List Event
events = unblock 4 ∷ fork false 7 ∷ tick ∷ block ∷ yield_cpu ∷ []

dispatched_in_turn_example : get_elem? (dispatched events three) 1 ≡ some 3
unfolding dispatched dispatch schedule put_aside
dispatched_in_turn_example = dispatched_in_turn events 3 (2 ∷ []) [] three refl (omega arith)

-- The thread that was woken comes behind those that waited, and then the one whose time was over.
turns : dispatched events three ≡ 2 ∷ 3 ∷ 4 ∷ []
unfolding dispatched dispatch schedule put_aside
turns = refl

perform-IsSound_example : IfOk IsSound (perform (unblock 4) three)
perform-IsSound_example = perform-IsSound (unblock 4) three refl three-IsSound
