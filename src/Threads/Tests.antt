-- ===== src/Threads/Tests.antt =====
-- The threads at concrete runs.
use sp25_ece391_group.Base.{
  ℕ, ◌≤◌, ◌≡◌, ◌++◌, if◌then◌else◌, refl, Option, none, some, List, [], ◌∷◌, arith, Bool-cases, inl,
  inr, ◌==◌,
}
use sp25_ece391_group.Threads.{
  main_tid, idle_tid, ready, waiting, same, Thread, set_thread_state, other, lock_release, Machine,
  Lock, on, update, state_of, condition_wait, thread_yield,
}
use sp25_ece391_group.Threads.Locks.{release}
use sp25_ece391_group.Threads.Reach.{
  Call, yields, spawns, acquires, releases, run, boot, run-Goes, boot-IsPlaced,
}
use sp25_ece391_group.Threads.Placed.{Goes, IsPlaced, occurs}
use sp25_ece391_group.Threads.Progress.{
  thread_yield-on, condition_wait-on, release-free, Switched, state_when,
}
use sp25_ece391_group.Threads.Links.{
  ThreadList, tlinsert, tlremove, Represents, Linked, Once, tlinsert-Represents,
  tlremove-Represents,
}

-- The main thread takes a lock and starts a child, which waits for the lock; the release wakes it.
abbrev calls : List Call
calls = acquires 7 ∷ spawns ∷ yields ∷ yields ∷ acquires 7 ∷ releases 7 ∷ yields ∷ yields ∷ []

run-Goes_example : Goes (run calls boot)
run-Goes_example = run-Goes calls

boot_idle : state_of (boot.thrtab idle_tid) ≡ ready
unfolding boot
boot_idle = refl

boot-IsPlaced_at : IsPlaced (boot.tp ∷ []) boot
unfolding boot
boot-IsPlaced_at = boot-IsPlaced

condition_wait-on_example : (n : Machine) × (condition_wait (other 1) boot ≡ on n)
condition_wait-on_example = condition_wait-on (other 1) boot boot-IsPlaced_at boot_idle

thread_yield-on_example :
    (n : Machine) × (thread_yield boot ≡ on n)
    × Switched (boot.ready_list ++ boot.tp ∷ []) (set_thread_state boot.tp ready boot) n
thread_yield-on_example = thread_yield-on boot boot-IsPlaced_at

abbrev held_lock : Lock
held_lock = record { owner = some main_tid; count = 1 }

-- The main thread holds lock 7, for which thread 5 waits.
abbrev waiter : Thread
waiter = record {
  state = waiting;
  parent = some main_tid;
  wait_cond = some (lock_release 7);
  lock_list = [];
  proc = none;
}

abbrev holding : Machine
unfolding boot
holding = record boot {
  locks = update boot.locks 7 held_lock;
  thrtab = update boot.thrtab 5 (some waiter);
  wait_list = λ c. if same c (lock_release 7) then 5 ∷ [] else [];
}

holding_owner : (holding.locks 7).owner ≡ some holding.tp
unfolding boot
holding_owner = refl

holding_once : (holding.locks 7).count ≤ 1
unfolding holding
holding_once = omega arith

release-free_example :
    (n : Machine) × (release 7 holding ≡ on n)
    × ((n.locks 7).owner ≡ none)
    × (n.wait_list (lock_release 7) ≡ [])
    × (n.ready_list ≡ holding.ready_list ++ holding.wait_list (lock_release 7))
    × ((t : ℕ)
        → state_of (n.thrtab t)
          ≡ state_when (holding.wait_list (lock_release 7)) t (holding.thrtab t))
release-free_example = release-free 7 holding holding_owner holding_once

abbrev no_links : ℕ → Option ℕ
no_links t = none

abbrev one : ThreadList
one = record { head = some 3; tail = some 3 }

one-Represents : Represents one no_links (3 ∷ [])
unfolding Represents Linked
one-Represents = (refl, (refl, refl))

one-Once : Once (3 ∷ [])
unfolding occurs
one-Once u = elim (Bool-cases (u == 3)) [ inl e ↦ rw e (omega arith) | inr e ↦ rw e (omega arith) ]

four_absent : occurs 4 (3 ∷ []) ≡ 0
unfolding occurs
four_absent = refl

tlinsert-Represents_example :
    (l : ThreadList) × (n : ℕ → Option ℕ) × (tlinsert one 4 no_links ≡ some (l, n))
    × Represents l n (3 ∷ 4 ∷ [])
tlinsert-Represents_example =
    tlinsert-Represents one no_links (3 ∷ []) 4 one-Represents one-Once four_absent

tlremove-Represents_example :
    let (t, l, n) = tlremove one no_links in (t ≡ some 3) × Represents l n []
tlremove-Represents_example = tlremove-Represents one no_links 3 [] one-Represents one-Once
