-- ===== src/Threads/Interrupts.antt =====
-- `condition_wait` and `thread_spawn` set the state of a thread before they turn interrupts off to put it
-- in a list: a handler may broadcast a condition in between, on which the thread does not wait.
use sp25_ece391_group.Base.{
  ℕ, ◌≡◌, refl, sym, ap, ◌∙◌, inl, inr, true, false, List, [], ◌∷◌, ◌==◌, arith, Bool-cases,
}
use sp25_ece391_group.Threads.{
  ready, Condition, Thread, Machine, update, change, set_thread_state, make_ready, make_wait, await,
  start_wait, wake_all, condition_broadcast,
}
use sp25_ece391_group.Threads.Placed.{occurs}
use sp25_ece391_group.Threads.Wakes.{wake_all-tp}
use mathlib.Core.Path.{fun_ext}

-- A change of one thread in the table.
abbrev edit : ℕ → (Thread → Thread) → Machine → Machine
edit t f m = record m { thrtab = update m.thrtab t (change f (m.thrtab t)) }

wake_one-edit :
    (t x : ℕ) (f : Thread → Thread) (m : Machine)
    → (t == x) ≡ false
    → make_ready x (set_thread_state x ready (edit t f m))
      ≡ edit t f (make_ready x (set_thread_state x ready m))
unfolding make_ready set_thread_state
wake_one-edit t x f m ne =
    ap (λ tab. record (make_ready x m) { thrtab = tab })
      (fun_ext (λ j. elim (Bool-cases (j == x)) [
        | inl e ↦
            let at : j ≡ x = ground arith in
            let away : (x == t) ≡ false = ground arith in
            let here : (x == x) ≡ true = ground arith in rw (at, away, here) refl
        | inr e ↦ elim (Bool-cases (j == t)) [
          | inl e' ↦ rw (e, e', ne) refl
          | inr e' ↦ rw (e, e') refl
        ]
      ]))

wake_all-edit :
    (t : ℕ) (f : Thread → Thread) (l : List ℕ) (m : Machine)
    → occurs t l ≡ 0
    → wake_all l (edit t f m) ≡ edit t f (wake_all l m)
unfolding wake_all occurs
wake_all-edit t f [] m h = refl
wake_all-edit t f (x ∷ l) m h =
    let ne : (t == x) ≡ false = ground arith in
    ap (wake_all l) (wake_one-edit t x f m ne)
    ∙ wake_all-edit t f l (make_ready x (set_thread_state x ready m)) (omega arith)

condition_broadcast-edit :
    (t : ℕ) (f : Thread → Thread) (d : Condition) (m : Machine)
    → occurs t (m.wait_list d) ≡ 0
    → condition_broadcast d (edit t f m) ≡ edit t f (condition_broadcast d m)
unfolding condition_broadcast
condition_broadcast-edit t f d m h = wake_all-edit t f (m.wait_list d) _ h

-- A broadcast between the change of the running thread's state and its way into the wait list leaves what
-- a broadcast before the wait leaves.
interrupted_wait :
    (c d : Condition) (m : Machine)
    → occurs m.tp (m.wait_list d) ≡ 0
    → make_wait c m.tp (condition_broadcast d (edit m.tp (await c) m))
      ≡ start_wait c (condition_broadcast d m)
unfolding start_wait make_wait condition_broadcast
interrupted_wait c d m h =
    ap (make_wait c m.tp) (condition_broadcast-edit m.tp (await c) d m h)
    ∙ ap (λ u. make_wait c u (edit u (await c) (condition_broadcast d m)))
        (sym (wake_all-tp (m.wait_list d) _))

-- A broadcast between the change of a new thread's state and its way into the ready list leaves what a
-- broadcast before both leaves.
interrupted_spawn :
    (t : ℕ) (d : Condition) (m : Machine)
    → occurs t (m.wait_list d) ≡ 0
    → make_ready t (condition_broadcast d (set_thread_state t ready m))
      ≡ make_ready t (set_thread_state t ready (condition_broadcast d m))
unfolding set_thread_state
interrupted_spawn t d m h =
    ap (make_ready t) (condition_broadcast-edit t (λ th. record th { state = ready }) d m h)
