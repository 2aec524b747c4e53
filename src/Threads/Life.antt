-- ===== src/Threads/Life.antt =====
-- How a thread comes and goes in sys/thread.c: the spawn, the join and the reclaim of its slot.
use sp25_ece391_group.Base.{
  ℕ, zero, suc, ◌+◌, ◌-◌, Bool, true, false, ◌&&◌, Option, none, some, [], ◌==◌, ltb, if◌then◌else◌,
  Ret, ok, err, emthr,
}
use sp25_ece391_group.Threads.{
  nthr, ThreadState, uninitialized, exited, ready, child_exit, Thread, Machine, Run, update, change,
  state_of, set_thread_state, make_ready, condition_wait,
}
use sp25_ece391_group.Threads.Locks.{parent_of, owns}

abbrev pub is_null : Option Thread → Bool
is_null none = true
is_null (some th) = false

-- The free slot that `create_thread` finds among the `n` slots from `tid` on.
unfoldable pub free_slot : (n tid : ℕ) → (ℕ → Option Thread) → Option ℕ
free_slot zero tid thrtab = none
free_slot (suc n) tid thrtab =
    let rest = free_slot n (tid + 1) thrtab in if is_null (thrtab tid) then some tid else rest

abbrev pub new_thread : ℕ → Option ℕ → Thread
new_thread tp proc = record {
  state = uninitialized;
  parent = some tp;
  wait_cond = none;
  lock_list = [];
  proc = proc;
}

abbrev pub proc_of : Option Thread → Option ℕ
proc_of none = none
proc_of (some th) = th.proc

unfoldable pub create_thread : Machine → Option (ℕ × Machine)
unfolding free_slot
create_thread m = elim (free_slot (nthr - 1) 1 m.thrtab) [
  | none ↦ none
  | some tid ↦ some (tid, record m { thrtab = update m.thrtab tid (some (new_thread m.tp none)) })
]

abbrev pub set_proc : Option ℕ → Thread → Thread
set_proc proc th = record th { proc = proc }

unfoldable pub thread_set_process : ℕ → Option ℕ → Machine → Machine
thread_set_process tid proc m =
    if ltb tid nthr
    then record m { thrtab = update m.thrtab tid (change (set_proc proc) (m.thrtab tid)) }
    else m

unfoldable pub thread_process : ℕ → Machine → Option ℕ
thread_process tid m = if ltb tid nthr then proc_of (m.thrtab tid) else none

-- The child has its parent's process. Its state is set before interrupts are turned off, as in
-- `condition_wait`.
unfoldable pub thread_spawn : Machine → Ret (ℕ × Machine)
unfolding create_thread set_thread_state make_ready
thread_spawn m = elim (create_thread m) [
  | none ↦ err emthr
  | some (tid, n) ↦
      let set : Thread → Thread = set_proc (proc_of (m.thrtab m.tp)) in
      let child = record n { thrtab = update n.thrtab tid (change set (n.thrtab tid)) } in
      ok (tid, make_ready tid (set_thread_state tid ready child))
]

abbrev pub is_exited : ThreadState → Bool
is_exited exited = true
is_exited _ = false

-- The children of a reclaimed thread get its parent.
unfoldable pub reparent : ℕ → Option ℕ → Thread → Thread
reparent tid parent th = if owns th.parent tid then record th { parent = parent } else th

unfoldable pub thread_reclaim : ℕ → Machine → Option Machine
unfolding reparent
thread_reclaim tid m = elim (m.thrtab tid) [
  | none ↦ none
  | some thr ↦
      let adopt : ℕ → Option Thread = λ j.
        if ltb 0 j && ltb j nthr
        then change (reparent tid thr.parent) (m.thrtab j)
        else m.thrtab j in
      let freed = record m { thrtab = update adopt tid none } in
      if is_exited thr.state && (ltb 0 tid && ltb tid nthr) then some freed else none
]

-- What `thread_join` does next: return, wait and go on from its test, or follow a NULL pointer.
pub data Join : Type 0 where
  joined : ℕ → Machine → Join
  refused : Join
  waiting_for : Run → Join
  null_read : Join

abbrev pub returned : ℕ → Option Machine → Join
returned tid none = null_read
returned tid (some m) = joined tid m

-- The loop of `thread_join` for a child, from its test on.
unfoldable pub join_round : ℕ → Machine → Join
unfolding thread_reclaim condition_wait
join_round tid m =
    if is_exited (state_of (m.thrtab tid))
    then returned tid (thread_reclaim tid m)
    else waiting_for (condition_wait (child_exit m.tp) m)

unfoldable pub join_child : ℕ → Machine → Join
unfolding join_round
join_child tid m =
    if is_null (m.thrtab tid)
    then null_read
    else if owns (parent_of (m.thrtab tid)) m.tp
    then join_round tid m
    else refused

-- The search of `thread_join` for any child, through the `n` slots from `tid` on: it reads the parent
-- of a slot that may be NULL.
unfoldable pub has_child : (n tid : ℕ) → Machine → Option Bool
has_child zero tid m = some false
has_child (suc n) tid m =
    let rest = has_child n (tid + 1) m in
    if is_null (m.thrtab tid)
    then none
    else if owns (parent_of (m.thrtab tid)) m.tp
    then some true
    else rest

unfoldable pub join_any : Machine → Join
unfolding has_child condition_wait
join_any m = elim (has_child nthr 0 m) [
  | none ↦ null_read
  | some false ↦ refused
  | some true ↦ waiting_for (condition_wait (child_exit m.tp) m)
]

-- The search for a child that has exited, after the wait.
unfoldable pub exited_child : (n tid : ℕ) → Machine → Option ℕ
exited_child zero tid m = none
exited_child (suc n) tid m =
    let rest = exited_child n (tid + 1) m in
    if owns (parent_of (m.thrtab tid)) m.tp && is_exited (state_of (m.thrtab tid))
    then some tid
    else rest

unfoldable pub join_any_after : Machine → Join
unfolding exited_child thread_reclaim
join_any_after m = elim (exited_child nthr 0 m) [
  | none ↦ joined 0 m
  | some tid ↦ returned tid (thread_reclaim tid m)
]

unfoldable pub thread_join : ℕ → Machine → Join
unfolding join_any join_child
thread_join tid m = if tid == 0 then join_any m else join_child tid m
