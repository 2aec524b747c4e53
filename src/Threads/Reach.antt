-- ===== src/Threads/Reach.antt =====
-- All that the threads can do: a run of the kernel as a sequence of calls by the thread that runs at
-- the time, and what holds whatever the sequence.
use sp25_ece391_group.Base.{
  ℕ, ◌≡◌, refl, inl, inr, Option, none, some, List, [], ◌∷◌, ◌==◌, arith, Bool-cases, Ret, ok, err,
  crash,
}
use sp25_ece391_group.Threads.{
  main_tid, idle_tid, self, ready, Condition, Thread, Machine, Run, on, fault, and_then, update,
  thread_yield, condition_wait, condition_broadcast,
}
use sp25_ece391_group.Threads.Locks.{
  Acquire, acquired, waits, lock_init, lock_acquire, acquire_round, release, thread_exit,
}
use sp25_ece391_group.Threads.Life.{
  thread_spawn, Join, joined, refused, waiting_for, null_read, thread_join, join_round,
  join_any_after,
}
use sp25_ece391_group.Threads.Placed.{holds, held, occurs, queue, Agree, IsPlaced, Goes, by_place}
use sp25_ece391_group.Threads.Moves.{yield-Goes, wait-Goes}
use sp25_ece391_group.Threads.Wakes.{broadcast-Goes}
use sp25_ece391_group.Threads.Ends.{
  AcquireGoes, acquire-Goes, round-Goes, release-Goes, exit-Goes, then_Goes,
}
use sp25_ece391_group.Threads.Slots.{
  SpawnGoes, spawn-Goes, JoinGoes, join-Goes, round_Goes, any_after-Goes,
}

-- The calls, and what is left of those that wait, from the wait on.
pub data Call : Type 0 where
  yields spawns exits joins_any_after : Call
  waits_for wakes : Condition → Call
  acquires acquires_after releases joins joins_after : ℕ → Call

abbrev after_acquire : Acquire → Run
after_acquire (acquired m) = on m
after_acquire (waits r) = r

abbrev after_spawn : Machine → Ret (ℕ × Machine) → Run
after_spawn m (ok (tid, n)) = on n
after_spawn m (err e) = on m
after_spawn m crash = fault

abbrev after_join : Machine → Join → Run
after_join m (joined tid n) = on n
after_join m refused = on m
after_join m (waiting_for r) = r
after_join m null_read = fault

unfoldable pub step : Call → Machine → Run
unfolding thread_yield thread_spawn thread_exit condition_wait condition_broadcast lock_acquire
    acquire_round release thread_join join_round join_any_after
step yields m = thread_yield m
step spawns m = after_spawn m (thread_spawn m)
step exits m = thread_exit m
step joins_any_after m = after_join m (join_any_after m)
step (waits_for c) m = condition_wait c m
step (wakes c) m = on (condition_broadcast c m)
step (acquires l) m = after_acquire (lock_acquire l m)
step (acquires_after l) m = after_acquire (acquire_round l m)
step (releases l) m = release l m
step (joins tid) m = after_join m (thread_join tid m)
step (joins_after tid) m = after_join m (join_round tid m)

unfoldable pub run : List Call → Machine → Run
unfolding step
run [] m = on m
run (c ∷ cs) m = and_then (step c m) (λ n. run cs n)

abbrev pub kernel_thread : Option ℕ → Thread
kernel_thread parent = record {
  state = self;
  parent = parent;
  wait_cond = none;
  lock_list = [];
  proc = none;
}

-- The main thread runs and the idle thread is ready.
unfoldable pub boot : Machine
unfolding lock_init
boot = record {
  tp = main_tid;
  thrtab =
      update
        (update (λ j. none) idle_tid
          (some (record (kernel_thread (some main_tid)) { state = ready })))
        main_tid (some (kernel_thread none));
  ready_list = idle_tid ∷ [];
  wait_list = λ c. [];
  locks = λ l. lock_init;
}

pub boot-IsPlaced : IsPlaced (main_tid ∷ []) boot
unfolding boot IsPlaced Agree queue occurs held holds
boot-IsPlaced =
    by_place _
      (λ u. elim (Bool-cases (u == main_tid)) [
        | inl e ↦ rw e refl
        | inr e ↦ elim (Bool-cases (u == idle_tid)) [
          | inl i ↦ rw (e, i) refl
          | inr i ↦ rw (e, i) refl
        ]
      ])
      (λ u. elim (Bool-cases (u == main_tid)) [
        | inl e ↦ let at : u ≡ main_tid = ground arith in rw at refl
        | inr e ↦ elim (Bool-cases (u == idle_tid)) [
          | inl i ↦ rw (e, i) refl
          | inr i ↦ rw (e, i) refl
        ]
      ])
      (λ c u. elim (Bool-cases (u == main_tid)) [
        | inl e ↦ rw e refl
        | inr e ↦ elim (Bool-cases (u == idle_tid)) [
          | inl i ↦ rw (e, i) refl
          | inr i ↦ rw (e, i) refl
        ]
      ])

acquire_goes : (a : Acquire) → AcquireGoes a → Goes (after_acquire a)
acquire_goes (acquired m) h = h
acquire_goes (waits r) h = h

spawn_goes :
    (m : Machine) (r : Ret (ℕ × Machine))
    → IsPlaced (m.tp ∷ []) m
    → SpawnGoes r
    → Goes (after_spawn m r)
spawn_goes m (ok (tid, n)) h k = k
spawn_goes m (err e) h k = h
spawn_goes m crash h k = k

join_goes : (m : Machine) (j : Join) → IsPlaced (m.tp ∷ []) m → JoinGoes j → Goes (after_join m j)
join_goes m (joined tid n) h k = k
join_goes m refused h k = h
join_goes m (waiting_for r) h k = k
join_goes m null_read h k = k

step-Goes : (c : Call) (m : Machine) → IsPlaced (m.tp ∷ []) m → Goes (step c m)
unfolding step
step-Goes yields m h = yield-Goes m h
step-Goes spawns m h = spawn_goes m (thread_spawn m) h (spawn-Goes m h)
step-Goes exits m h = exit-Goes m h
step-Goes joins_any_after m h = join_goes m (join_any_after m) h (any_after-Goes m h)
step-Goes (waits_for c) m h = wait-Goes c m h
step-Goes (wakes c) m h = broadcast-Goes c m h
step-Goes (acquires l) m h = acquire_goes (lock_acquire l m) (acquire-Goes l m h)
step-Goes (acquires_after l) m h = acquire_goes (acquire_round l m) (round-Goes l m h)
step-Goes (releases l) m h = release-Goes l m h
step-Goes (joins tid) m h = join_goes m (thread_join tid m) h (join-Goes tid m h)
step-Goes (joins_after tid) m h = join_goes m (join_round tid m) h (round_Goes tid m h)

run-Goes_from : (cs : List Call) (m : Machine) → IsPlaced (m.tp ∷ []) m → Goes (run cs m)
unfolding run
run-Goes_from [] m h = h
run-Goes_from (c ∷ cs) m h = then_Goes (step c m) _ (step-Goes c m h) (run-Goes_from cs)

-- From the boot on, whatever calls the running threads make in whatever order, while the kernel
-- goes on: the running thread is in state SELF and no other is, each READY thread is in the ready
-- list exactly once, each WAITING thread is in the wait list of its condition exactly once, and
-- no thread of another state is in a list.
pub run-Goes : (cs : List Call) → Goes (run cs boot)
unfolding boot
run-Goes cs = run-Goes_from cs boot boot-IsPlaced
