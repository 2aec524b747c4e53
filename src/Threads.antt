-- ===== src/Threads.antt =====
-- The threads of sys/thread.c: the thread table, the ready list, the wait lists of the conditions and
-- the locks. A thread is known by its index in the table, a lock by a number. A function that disables
-- interrupts is one step up to the switch to another thread; what a thread does when it is switched to
-- again, after a wait, is a step of its own.
pub mod Locks
pub mod Life
pub mod Placed
pub mod Moves
pub mod Wakes
pub mod Ends
pub mod Slots
pub mod Links
mod Interrupts
pub mod Progress
pub mod Reach
mod Tests
use sp25_ece391_group.Base.{
  ℕ, ◌+◌, ◌-◌, Bool, true, false, ◌&&◌, not, Option, none, some, List, [], ◌∷◌, ◌++◌, ◌==◌, ltb,
  if◌then◌else◌,
}

abbrev pub main_tid : ℕ
main_tid = 0

-- NTHR of sys/conf.h.
abbrev pub nthr : ℕ
nthr = 32

abbrev pub idle_tid : ℕ
idle_tid = nthr - 1

pub data ThreadState : Type 0 where
  uninitialized waiting self ready exited : ThreadState

-- The conditions, by what they stand in: a thread, a lock or anything else.
pub data Condition : Type 0 where
  child_exit lock_release other : ℕ → Condition

abbrev pub same : Condition → Condition → Bool
same (child_exit a) (child_exit b) = a == b
same (lock_release a) (lock_release b) = a == b
same (other a) (other b) = a == b
same (child_exit a) (lock_release b) = false
same (child_exit a) (other b) = false
same (lock_release a) (child_exit b) = false
same (lock_release a) (other b) = false
same (other a) (child_exit b) = false
same (other a) (lock_release b) = false

-- `struct thread`, less its context, name and stack.
pub record Thread : Type 0 where
  pub state : ThreadState
  pub parent : Option ℕ
  pub wait_cond : Option Condition
  pub lock_list : List ℕ
  pub proc : Option ℕ

pub record Lock : Type 0 where
  pub owner : Option ℕ
  pub count : ℕ

-- The thread table, the lists, the locks and the running thread `tp`.
pub record Machine : Type 0 where
  pub tp : ℕ
  pub thrtab : ℕ → Option Thread
  pub ready_list : List ℕ
  pub wait_list : Condition → List ℕ
  pub locks : ℕ → Lock

-- What a call does: it goes on with the machine, halts it, or fails an assertion or follows NULL.
pub data Run : Type 0 where
  on : Machine → Run
  halt : Run
  fault : Run

abbrev pub and_then : Run → (Machine → Run) → Run
and_then (on m) f = f m
and_then halt f = halt
and_then fault f = fault

abbrev pub update {ℓ} : {A : Type ℓ} → (ℕ → A) → ℕ → A → ℕ → A
update f i a j = if j == i then a else f j

abbrev pub change : (Thread → Thread) → Option Thread → Option Thread
change f none = none
change f (some t) = some (f t)

unfoldable pub set_thread_state : ℕ → ThreadState → Machine → Machine
set_thread_state t st m = record m {
  thrtab = update m.thrtab t (change (λ th. record th { state = st }) (m.thrtab t));
}

-- `tlinsert` into the ready list and into a wait list.
unfoldable pub make_ready : ℕ → Machine → Machine
make_ready t m = record m { ready_list = m.ready_list ++ t ∷ [] }

unfoldable pub make_wait : Condition → ℕ → Machine → Machine
make_wait c t m =
    let l = m.wait_list c ++ t ∷ [] in
    record m { wait_list = λ d. if same d c then l else m.wait_list d }

-- The first ready thread is switched to.
unfoldable pub swtch : Machine → Run
unfolding set_thread_state
swtch m = elim m.ready_list [
  | [] ↦ fault
  | t ∷ ts ↦ on (set_thread_state t self (record m { tp = t; ready_list = ts }))
]

abbrev pub state_of : Option Thread → ThreadState
state_of none = uninitialized
state_of (some th) = th.state

-- The branches of `running_thread_suspend` on the state of the running thread.
unfoldable pub suspend_in : ThreadState → Machine → Run
unfolding set_thread_state make_ready swtch
suspend_in waiting m = swtch m
suspend_in self m = swtch (make_ready m.tp (set_thread_state m.tp ready m))
suspend_in exited m = swtch m
suspend_in uninitialized m = on m
suspend_in ready m = on m

unfoldable pub running_thread_suspend : Machine → Run
unfolding suspend_in
running_thread_suspend m = suspend_in (state_of (m.thrtab m.tp)) m

unfoldable pub thread_yield : Machine → Run
unfolding running_thread_suspend
thread_yield m = running_thread_suspend m

abbrev pub await : Condition → Thread → Thread
await c th = record th { state = waiting; wait_cond = some c }

-- The running thread waits for the condition, up to the switch.
unfoldable pub start_wait : Condition → Machine → Machine
unfolding make_wait
start_wait c m =
    make_wait c m.tp (record m { thrtab = update m.thrtab m.tp (change (await c) (m.thrtab m.tp)) })

abbrev pub is_self : ThreadState → Bool
is_self self = true
is_self _ = false

-- The state is set before interrupts are turned off; a handler that is taken in between is a call before
-- this one (Interrupts).
unfoldable pub condition_wait : Condition → Machine → Run
unfolding start_wait running_thread_suspend
condition_wait c m =
    if is_self (state_of (m.thrtab m.tp)) then running_thread_suspend (start_wait c m) else fault

-- The loop of `condition_broadcast`, over the threads that it takes out of the wait list.
unfoldable pub wake_all : List ℕ → Machine → Machine
unfolding set_thread_state make_ready
wake_all [] m = m
wake_all (t ∷ ts) m = wake_all ts (make_ready t (set_thread_state t ready m))

unfoldable pub condition_broadcast : Condition → Machine → Machine
unfolding wake_all
condition_broadcast c m =
    wake_all (m.wait_list c) (record m { wait_list = λ d. if same d c then [] else m.wait_list d })
