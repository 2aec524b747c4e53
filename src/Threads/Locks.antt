-- ===== src/Threads/Locks.antt =====
-- The locks of sys/thread.c, and the exit of a thread, which releases them.
use sp25_ece391_group.Base.{
  ℕ, ◌+◌, ◌-◌, Bool, false, Option, none, some, List, [], ◌∷◌, ◌==◌, ltb, if◌then◌else◌,
}
use sp25_ece391_group.Threads.{
  main_tid, exited, child_exit, lock_release, Thread, Lock, Machine, Run, on, halt, fault, and_then,
  update, change, running_thread_suspend, condition_wait, condition_broadcast,
}

unfoldable pub lock_init : Lock
lock_init = record { owner = none; count = 0 }

abbrev pub owns : Option ℕ → ℕ → Bool
owns none t = false
owns (some u) t = u == t

-- What `lock_acquire` does up to the switch, if it waits, or up to its end.
pub data Acquire : Type 0 where
  acquired : Machine → Acquire
  waits : Run → Acquire

abbrev pub take_lock : ℕ → Thread → Thread
take_lock l th = record th { lock_list = l ∷ th.lock_list }

-- The loop of `lock_acquire` from its test on.
unfoldable pub acquire_round : ℕ → Machine → Acquire
unfolding condition_wait
acquire_round l m = elim (m.locks l).owner [
  | none ↦ acquired (record m {
    locks = update m.locks l (record { owner = some m.tp; count = 1 });
    thrtab = update m.thrtab m.tp (change (take_lock l) (m.thrtab m.tp));
  })
  | some u ↦ waits (condition_wait (lock_release l) m)
]

unfoldable pub lock_acquire : ℕ → Machine → Acquire
unfolding acquire_round
lock_acquire l m =
    let again = record (m.locks l) { count = (m.locks l).count + 1 } in
    if owns (m.locks l).owner m.tp
    then acquired (record m { locks = update m.locks l again })
    else acquire_round l m

-- The lock list without the first link to the lock.
unfoldable pub unlink : ℕ → List ℕ → List ℕ
unlink l [] = []
unlink l (k ∷ ks) = if k == l then ks else k ∷ unlink l ks

abbrev pub drop_lock : ℕ → Thread → Thread
drop_lock l th = record th { lock_list = unlink l th.lock_list }

-- The release of the last hold on a lock, up to the broadcast.
unfoldable pub free_lock : ℕ → Machine → Machine
unfolding unlink
free_lock l m = record m {
  locks = update m.locks l (record { owner = none; count = 0 });
  thrtab = update m.thrtab m.tp (change (drop_lock l) (m.thrtab m.tp));
}

unfoldable pub release : ℕ → Machine → Run
unfolding free_lock condition_broadcast
release l m =
    let once_less = record (m.locks l) { count = (m.locks l).count - 1 } in
    if owns (m.locks l).owner m.tp
    then if ltb 1 (m.locks l).count
      then on (record m { locks = update m.locks l once_less })
      else on (condition_broadcast (lock_release l) (free_lock l m))
    else fault

-- The loop of `thread_exit`, which has read the link to the next lock before it releases one.
unfoldable pub release_all : List ℕ → Machine → Run
unfolding release
release_all [] m = on m
release_all (l ∷ ls) m = and_then (release l m) (λ m'. release_all ls m')

abbrev pub locks_of : Option Thread → List ℕ
locks_of none = []
locks_of (some th) = th.lock_list

abbrev pub parent_of : Option Thread → Option ℕ
parent_of none = none
parent_of (some th) = th.parent

abbrev pub exit_thread : Thread → Thread
exit_thread th = record th { state = exited; proc = none }

-- The state, the process and the broadcast to the parent.
unfoldable pub end_thread : Machine → Run
unfolding condition_broadcast
end_thread m = elim (parent_of (m.thrtab m.tp)) [
  | none ↦ fault
  | some p ↦ on (
      condition_broadcast (child_exit p)
        (record m { thrtab = update m.thrtab m.tp (change exit_thread (m.thrtab m.tp)) }))
]

unfoldable pub thread_exit : Machine → Run
unfolding release_all end_thread running_thread_suspend
thread_exit m =
    if m.tp == main_tid
    then halt
    else and_then (release_all (locks_of (m.thrtab m.tp)) m)
        (λ n. and_then (end_thread n) running_thread_suspend)
