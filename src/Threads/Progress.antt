-- ===== src/Threads/Progress.antt =====
-- The calls that give up the processor find a thread to switch to, and the last release of a lock wakes
-- all who wait for it.
use sp25_ece391_group.Base.{
  ℕ, ◌+◌, ◌≤◌, ◌≡◌, refl, sym, ap, inl, inr, Bool, ◌||◌, ◌++◌, Bool-cases, ◌∙◌, ltb, true, false,
  Option, none, some, List, [], ◌∷◌, ◌==◌, if◌then◌else◌, arith,
}
use sp25_ece391_group.Threads.{
  idle_tid, waiting, self, ready, Condition, lock_release, Thread, Machine, on, fault, state_of,
  set_thread_state, make_ready, thread_yield, swtch, suspend_in, running_thread_suspend, start_wait,
  make_wait, is_self, wake_all, ThreadState, uninitialized, update, change, condition_wait,
  condition_broadcast,
}
use sp25_ece391_group.Threads.Locks.{free_lock, release, drop_lock}
use sp25_ece391_group.Threads.Placed.{
  on_ready, holds, held, occurs, queue, Agree, IsPlaced, same_self,
}
use sp25_ece391_group.Threads.Moves.{
  running, occurs_end, occurs_self, held_ready, List-cases, preempt-IsPlaced,
}
use sp25_ece391_group.Threads.Wakes.{wake_all-wait_list, wake_all-locks}
use mathlib.Core.List.{append_assoc, append-nil}

held_state : (o : Option Thread) → state_of o ≡ ready → held on_ready o ≡ 1
unfolding held holds
held_state none e = ground arith
held_state (some th) e = rw e refl

swtch_on :
    (m : Machine) (xs : List ℕ) (t : ℕ)
    → m.ready_list ≡ xs
    → 1 ≤ occurs t xs
    → (n : Machine) × (swtch m ≡ on n)
unfolding swtch occurs
swtch_on m [] t e h = ground arith
swtch_on m (x ∷ xs) t e h =
    (set_thread_state x self (record m { tp = x; ready_list = xs }), rw e refl)

-- Where every thread is in the list that its state names, and the idle thread is ready,
-- condition_wait finds a thread to switch to: it neither fails its assertion nor follows NULL.
pub condition_wait-on :
    (c : Condition) (m : Machine)
    → IsPlaced (m.tp ∷ []) m
    → state_of (m.thrtab idle_tid) ≡ ready
    → (n : Machine) × (condition_wait c m ≡ on n)
unfolding condition_wait running_thread_suspend suspend_in IsPlaced Agree queue start_wait make_wait
condition_wait-on c m h idle =
    let (th, at, st) = running m h in
    let s : Machine = start_wait c m in
    let there : (m.tp == m.tp) ≡ true = ground arith in
    let e : state_of (s.thrtab m.tp) ≡ waiting = rw (there, at) refl in
    let once : occurs idle_tid m.ready_list ≡ 1 =
      h on_ready idle_tid ∙ held_state (m.thrtab idle_tid) idle in
    let (n, go) = swtch_on s m.ready_list idle_tid refl (omega (arith, once)) in
    (
      n,
      ap (λ s'. if is_self s' then running_thread_suspend s else fault) (ap state_of at ∙ st)
          ∙ ap (λ s'. suspend_in s' s) e
          ∙ go,
    )

-- The waiters are behind the ready threads.
wake_all-ready_list : (l : List ℕ) (m : Machine) → (wake_all l m).ready_list ≡ m.ready_list ++ l
unfolding wake_all set_thread_state make_ready
wake_all-ready_list [] m = sym (append-nil m.ready_list)
wake_all-ready_list (t ∷ ts) m =
    wake_all-ready_list ts (make_ready t (set_thread_state t ready m))
    ∙ append_assoc m.ready_list (t ∷ []) ts

abbrev pub is_among : ℕ → List ℕ → Bool
is_among u [] = false
is_among u (t ∷ ts) = (u == t) || is_among u ts

-- The state of thread `u` when the threads of the list have been made ready.
abbrev pub state_when : List ℕ → ℕ → Option Thread → ThreadState
state_when l u none = uninitialized
state_when l u (some th) = if is_among u l then ready else th.state

state_when-change :
    (u t : ℕ) (ts : List ℕ) (tab : ℕ → Option Thread)
    → state_when ts u (update tab t (change (λ th. record th { state = ready }) (tab t)) u)
      ≡ state_when (t ∷ ts) u (tab u)
state_when-change u t ts tab = elim (Bool-cases (u == t)) [
  | inl e ↦ let at : t ≡ u = ground arith in rw (e, at) (made (tab u))
  | inr e ↦ rw e (kept (tab u) e)
]
  where
    made :
        (o : Option Thread)
        → state_when ts u (change (λ th. record th { state = ready }) o) ≡ state_when (u ∷ ts) u o
    made none = refl
    made (some th) = let same : (u == u) ≡ true = ground arith in ground arith

    kept : (o : Option Thread) → (u == t) ≡ false → state_when ts u o ≡ state_when (t ∷ ts) u o
    kept none e = refl
    kept (some th) e = rw e refl

wake_all-state :
    (l : List ℕ) (m : Machine) (u : ℕ)
    → state_of ((wake_all l m).thrtab u) ≡ state_when l u (m.thrtab u)
unfolding wake_all set_thread_state make_ready
wake_all-state [] m u = none_woken (m.thrtab u)
  where
    none_woken : (o : Option Thread) → state_of o ≡ state_when [] u o
    none_woken none = refl
    none_woken (some th) = refl
wake_all-state (t ∷ ts) m u =
    wake_all-state ts (make_ready t (set_thread_state t ready m)) u
    ∙ state_when-change u t ts m.thrtab

-- The list of locks of a thread does not matter.
state_when-drop_lock :
    (ws : List ℕ) (l t u : ℕ) (tab : ℕ → Option Thread)
    → state_when ws u (update tab t (change (drop_lock l) (tab t)) u) ≡ state_when ws u (tab u)
state_when-drop_lock ws l t u tab = elim (Bool-cases (u == t)) [
  | inl e ↦ let at : t ≡ u = ground arith in rw (e, at) (dropped (tab u))
  | inr e ↦ rw e refl
]
  where
    dropped : (o : Option Thread) → state_when ws u (change (drop_lock l) o) ≡ state_when ws u o
    dropped none = refl
    dropped (some th) = refl

-- lock_release by the owner of a lock that it holds once succeeds and leaves the lock without
-- owner; the threads that waited for it, and no others, are put behind the ready threads in their
-- order and are READY, no thread waits for it any more, and every other thread keeps its state.
pub release-free :
    (l : ℕ) (m : Machine)
    → (m.locks l).owner ≡ some m.tp
    → (m.locks l).count ≤ 1
    → (n : Machine) × (release l m ≡ on n)
      × ((n.locks l).owner ≡ none)
      × (n.wait_list (lock_release l) ≡ [])
      × (n.ready_list ≡ m.ready_list ++ m.wait_list (lock_release l))
      × ((t : ℕ) → state_of (n.thrtab t) ≡ state_when (m.wait_list (lock_release l)) t (m.thrtab t))
unfolding release condition_broadcast free_lock
release-free l m o c =
    let n : Machine = condition_broadcast (lock_release l) (free_lock l m) in
    let there : (m.tp == m.tp) ≡ true = ground arith in
    let same_lock : (l == l) ≡ true = ground arith in
    let last : ltb 1 (m.locks l).count ≡ false = ground arith in
    let waiters : List ℕ = m.wait_list (lock_release l) in
    (
      n,
      rw (o, there, last) refl,
      ap (λ f. (f l).owner) (wake_all-locks waiters _) ∙ rw same_lock refl,
      ap (λ f. f (lock_release l)) (wake_all-wait_list waiters _)
          ∙ rw (same_self (lock_release l)) refl,
      wake_all-ready_list waiters _,
      λ t. wake_all-state waiters _ t ∙ state_when-drop_lock waiters l m.tp t m.thrtab,
    )

-- What a switch from the running thread to the first of the list gives: that thread runs, in state SELF,
-- the others stay in the list, and no other thread changes its state.
pub record Switched (xs : List ℕ) (m n : Machine) : Type 0 where
  pub next : xs ≡ n.tp ∷ n.ready_list
  pub runs : state_of (n.thrtab n.tp) ≡ self
  pub others : (t : ℕ) → state_of (n.thrtab t) ≡ (if t == n.tp then self else state_of (m.thrtab t))
  pub waits : n.wait_list ≡ m.wait_list

swtch-Switched :
    (m : Machine) (u : ℕ)
    → IsPlaced [] m
    → 1 ≤ occurs u m.ready_list
    → (n : Machine) × (swtch m ≡ on n) × Switched m.ready_list m n
unfolding swtch set_thread_state IsPlaced Agree queue occurs
swtch-Switched m u h some_ready = elim (List-cases m.ready_list) [
  | inl e ↦ let none_there : 1 ≤ 0 = rw e at some_ready in ground arith
  | inr (t, ts, e) ↦
      let n : Machine = set_thread_state t self (record m { tp = t; ready_list = ts }) in
      let once : 1 + occurs t ts ≡ held on_ready (m.thrtab t) =
        sym (occurs_self t ts) ∙ ap (occurs t) (sym e) ∙ h on_ready t in
      let (th, at, st) = held_ready (m.thrtab t) (omega (arith, once)) in
      let there : (t == t) ≡ true = ground arith in
      let runs : state_of (n.thrtab t) ≡ self = rw (there, at) refl in
      (
        n,
        rw e refl,
        record {
          next = e;
          runs = runs;
          others = λ v. elim (Bool-cases (v == t)) [
            | inl eq ↦ let same_thread : v ≡ t = ground arith in rw (same_thread, there, at) refl
            | inr ne ↦ rw ne refl
          ];
          waits = refl;
        },
      )
]

-- Where every thread is in the list that its state names, thread_yield switches to the first
-- thread of the ready list behind which the caller has been put: that thread runs, in state SELF,
-- the others stay in the list in their order, the caller is READY unless it is that thread, every
-- other thread keeps its state, and no wait list changes.
pub thread_yield-on :
    (m : Machine)
    → IsPlaced (m.tp ∷ []) m
    → (n : Machine) × (thread_yield m ≡ on n)
      × Switched (m.ready_list ++ m.tp ∷ []) (set_thread_state m.tp ready m) n
unfolding thread_yield running_thread_suspend suspend_in make_ready set_thread_state
thread_yield-on m h =
    let (th, at, st) = running m h in
    let s : Machine = make_ready m.tp (set_thread_state m.tp ready m) in
    let there : 1 ≤ occurs m.tp s.ready_list = omega (arith, occurs_end m.tp m.ready_list) in
    let (n, go, sw) = swtch-Switched s m.tp (preempt-IsPlaced m th h at st) there in
    (
      n,
      ap (λ s'. suspend_in s' m) (ap state_of at ∙ st) ∙ go,
      record { next = sw.next; runs = sw.runs; others = sw.others; waits = sw.waits },
    )
