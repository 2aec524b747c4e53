-- ===== src/Threads/Ends.antt =====
-- A lock, a new thread, the end of a thread and the reclaim of its slot keep every thread in the list
-- that its state names.
use sp25_ece391_group.Base.{
  ℕ, ◌≡◌, refl, sym, ap, ◌∙◌, inl, inr, subst, true, Option, none, some, List, [], ◌∷◌, ◌==◌, ltb,
  arith, Bool-cases, Option-cases,
}
use sp25_ece391_group.Threads.{
  self, exited, child_exit, lock_release, Thread, Lock, Machine, Run, on, halt, fault, and_then,
  state_of, update, change, suspend_in, running_thread_suspend, condition_broadcast, main_tid,
}
use sp25_ece391_group.Threads.Locks.{
  lock_acquire, acquire_round, Acquire, acquired, waits, owns, take_lock, release, release_all,
  free_lock, end_thread, exit_thread, parent_of, locks_of, thread_exit,
}
use sp25_ece391_group.Threads.Placed.{
  Place, on_cpu, on_ready, on_wait, holds, held, occurs, queue, Agree, IsPlaced, Goes, moved,
  unmoved, by_place,
}
use sp25_ece391_group.Threads.Moves.{occurs_other, held-state, running, wait-Goes, swtch-Goes}
use sp25_ece391_group.Threads.Wakes.{
  condition_broadcast-IsPlaced, broadcast-Goes, wake_all-thrtab, wake_all-tp,
}

-- A change of one thread that keeps its state and its condition.
change-Agree :
    (q : Place → List ℕ) (tab : ℕ → Option Thread) (t : ℕ) (f : Thread → Thread)
    → ((p : Place) (th : Thread) → held p (some (f th)) ≡ held p (some th))
    → Agree q tab
    → Agree q (update tab t (change f (tab t)))
change-Agree q tab t f keeps h = unmoved q tab (update tab t (change f (tab t))) h (λ p u.
    elim (Bool-cases (u == t)) [
      | inl e ↦
          let at : u ≡ t = ground arith in rw e (kept p (tab t) ∙ ap (λ v. held p (tab v)) (sym at))
      | inr e ↦ rw e refl
    ])
  where
    kept : (p : Place) (o : Option Thread) → held p (change f o) ≡ held p o
    kept p none = refl
    kept p (some th) = keeps p th

free_lock-IsPlaced :
    (cpu : List ℕ) (l : ℕ) (m : Machine) → IsPlaced cpu m → IsPlaced cpu (free_lock l m)
unfolding IsPlaced Agree queue free_lock held
free_lock-IsPlaced cpu l m h =
    by_place _ (change-Agree (queue cpu m) m.thrtab m.tp _ (λ p th. refl) h on_cpu)
      (change-Agree (queue cpu m) m.thrtab m.tp _ (λ p th. refl) h on_ready)
      (λ c. change-Agree (queue cpu m) m.thrtab m.tp _ (λ p th. refl) h (on_wait c))

take_lock-IsPlaced :
    (cpu : List ℕ) (l : ℕ) (m : Machine)
    → IsPlaced cpu m
    → IsPlaced cpu
        (record m { thrtab = update m.thrtab m.tp (change (take_lock l) (m.thrtab m.tp)) })
unfolding IsPlaced Agree queue held
take_lock-IsPlaced cpu l m h =
    by_place _ (change-Agree (queue cpu m) m.thrtab m.tp _ (λ p th. refl) h on_cpu)
      (change-Agree (queue cpu m) m.thrtab m.tp _ (λ p th. refl) h on_ready)
      (λ c. change-Agree (queue cpu m) m.thrtab m.tp _ (λ p th. refl) h (on_wait c))

-- A change of the locks alone.
set_lock-Goes :
    (locks : ℕ → Lock) (m : Machine)
    → IsPlaced (m.tp ∷ []) m
    → Goes (on (record m { locks = locks }))
unfolding IsPlaced Agree queue
set_lock-Goes locks m h = by_place _ (h on_cpu) (h on_ready) (λ c. h (on_wait c))

pub then_Goes :
    (r : Run) (f : Machine → Run)
    → Goes r
    → ((m : Machine) → IsPlaced (m.tp ∷ []) m → Goes (f m))
    → Goes (and_then r f)
then_Goes (on m) f h k = k m h
then_Goes halt f h k = h
then_Goes fault f h k = h

abbrev pub AcquireGoes : Acquire → Type 0
AcquireGoes (acquired m) = IsPlaced (m.tp ∷ []) m
AcquireGoes (waits r) = Goes r

pub release-Goes : (l : ℕ) (m : Machine) → IsPlaced (m.tp ∷ []) m → Goes (release l m)
unfolding release free_lock
release-Goes l m h = elim (Bool-cases (owns (m.locks l).owner m.tp)) [
  | inl e ↦ elim (Bool-cases (ltb 1 (m.locks l).count)) [
    | inl more ↦ rw (e, more) (set_lock-Goes _ m h)
    | inr last ↦
        rw (e, last)
          (broadcast-Goes (lock_release l) (free_lock l m) (free_lock-IsPlaced (m.tp ∷ []) l m h))
  ]
  | inr e ↦ rw e (record {})
]

pub release_all-Goes :
    (ls : List ℕ) (m : Machine) → IsPlaced (m.tp ∷ []) m → Goes (release_all ls m)
unfolding release_all
release_all-Goes [] m h = h
release_all-Goes (l ∷ ls) m h = then_Goes (release l m) _ (release-Goes l m h) (release_all-Goes ls)

pub round-Goes : (l : ℕ) (m : Machine) → IsPlaced (m.tp ∷ []) m → AcquireGoes (acquire_round l m)
unfolding acquire_round
round-Goes l m h = elim (Option-cases (m.locks l).owner) [
  | inl free ↦
      rw (free, acquire_round)
        (set_lock-Goes _
          (record m { thrtab = update m.thrtab m.tp (change (take_lock l) (m.thrtab m.tp)) })
          (take_lock-IsPlaced (m.tp ∷ []) l m h))
  | inr (u, taken) ↦ rw (taken, acquire_round) (wait-Goes (lock_release l) m h)
]

pub acquire-Goes : (l : ℕ) (m : Machine) → IsPlaced (m.tp ∷ []) m → AcquireGoes (lock_acquire l m)
unfolding lock_acquire
acquire-Goes l m h = elim (Bool-cases (owns (m.locks l).owner m.tp)) [
  | inl e ↦ rw e (set_lock-Goes _ m h)
  | inr e ↦ rw e (round-Goes l m h)
]

-- The running thread exits.
exited-IsPlaced :
    (m : Machine) (th : Thread)
    → IsPlaced (m.tp ∷ []) m
    → m.thrtab m.tp ≡ some th
    → th.state ≡ self
    → IsPlaced [] (record m { thrtab = update m.thrtab m.tp (change exit_thread (m.thrtab m.tp)) })
unfolding IsPlaced Agree queue occurs held holds
exited-IsPlaced m th h at st =
    let t : ℕ = m.tp in
    moved (queue (t ∷ []) m) (queue [] m) m.thrtab t _ h
      (by_place _ (λ u ne. sym (occurs_other u t [] ne)) (λ u ne. refl) (λ c u ne. refl))
      (by_place _ (rw at refl) (rw at (h on_ready t ∙ held-state on_ready (m.thrtab t) th at st))
        (λ c. rw at (h (on_wait c) t ∙ held-state (on_wait c) (m.thrtab t) th at st)))

-- The broadcast of an exited thread, and its last switch.
leave-Goes :
    (p : ℕ) (m : Machine)
    → IsPlaced (m.tp ∷ []) m
    → let n : Machine = record m {
      thrtab = update m.thrtab m.tp (change exit_thread (m.thrtab m.tp));
    } in
      Goes (running_thread_suspend (condition_broadcast (child_exit p) n))
unfolding running_thread_suspend suspend_in condition_broadcast IsPlaced Agree queue held holds
leave-Goes p m h =
    let (th, at, st) = running m h in
    let n : Machine = record m {
      thrtab = update m.thrtab m.tp (change exit_thread (m.thrtab m.tp));
    } in
    let placed : IsPlaced [] n = exited-IsPlaced m th h at st in
    let after : Machine = condition_broadcast (child_exit p) n in
    let l : List ℕ = m.wait_list (child_exit p) in
    let none_there : occurs m.tp l ≡ 0 =
      h (on_wait (child_exit p)) m.tp
      ∙ held-state (on_wait (child_exit p)) (m.thrtab m.tp) th at st in
    let there : (m.tp == m.tp) ≡ true = ground arith in
    let gone : state_of (after.thrtab after.tp) ≡ exited =
      ap (λ t. state_of (after.thrtab t)) (wake_all-tp l _)
      ∙ ap state_of (wake_all-thrtab l _ m.tp none_there)
      ∙ rw (there, at) refl in
    subst (λ s. Goes (suspend_in s after)) (sym gone)
      (swtch-Goes after (condition_broadcast-IsPlaced [] (child_exit p) n placed))

pub end_Goes :
    (m : Machine) → IsPlaced (m.tp ∷ []) m → Goes (and_then (end_thread m) running_thread_suspend)
unfolding end_thread
end_Goes m h = elim (Option-cases (parent_of (m.thrtab m.tp))) [
  | inl orphan ↦ rw (orphan, end_thread) (record {})
  | inr (p, e) ↦ rw (e, end_thread) (leave-Goes p m h)
]

pub exit-Goes : (m : Machine) → IsPlaced (m.tp ∷ []) m → Goes (thread_exit m)
unfolding thread_exit
exit-Goes m h = elim (Bool-cases (m.tp == main_tid)) [
  | inl e ↦ rw e (record {})
  | inr e ↦ rw e (
      then_Goes (release_all (locks_of (m.thrtab m.tp)) m) _
        (release_all-Goes (locks_of (m.thrtab m.tp)) m h) end_Goes)
]
