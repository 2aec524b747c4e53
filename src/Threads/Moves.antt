-- ===== src/Threads/Moves.antt =====
-- The scheduler's operations keep the thread table and the lists in agreement.
use sp25_ece391_group.Base.{
  ℕ, ◌+◌, ◌≤◌, ◌≡◌, ◌⊎◌, refl, sym, ap, ◌∙◌, inl, inr, subst, true, false, Option, none, some, List,
  [], ◌∷◌, ◌++◌, ◌==◌, if◌then◌else◌, arith, Bool-cases,
}
use sp25_ece391_group.Threads.{
  ThreadState, uninitialized, waiting, self, ready, exited, Condition, same, Thread, Machine,
  state_of, fault, set_thread_state, make_ready, make_wait, swtch, running_thread_suspend,
  start_wait, condition_wait, suspend_in, is_self, thread_yield,
}
use sp25_ece391_group.Threads.Placed.{
  Place, on_cpu, on_ready, on_wait, holds, held, occurs, queue, Agree, IsPlaced, Goes,
  occurs-append, same→eq, moved, by_place,
}

pub occurs_self : (t : ℕ) (xs : List ℕ) → occurs t (t ∷ xs) ≡ 1 + occurs t xs
unfolding occurs
occurs_self t xs = ground arith

pub occurs_other : (u t : ℕ) (xs : List ℕ) → (u == t) ≡ false → occurs u (t ∷ xs) ≡ occurs u xs
unfolding occurs
occurs_other u t xs h = rw h (omega arith)

holds_ready : (st : ThreadState) (w : Option Condition) → 1 ≤ holds on_ready st w → st ≡ ready
unfolding holds
holds_ready ready w h = refl
holds_ready uninitialized w h = ground arith
holds_ready waiting none h = ground arith
holds_ready waiting (some c) h = ground arith
holds_ready self w h = ground arith
holds_ready exited w h = ground arith

-- What a place holds of a thread of a given state.
pub held-state :
    (p : Place) (o : Option Thread) {st : ThreadState}
    → (th : Thread) → o ≡ some th
    → th.state ≡ st
    → held p o ≡ holds p st th.wait_cond
unfolding held
held-state p o th e s = rw (e, s) refl

pub held_ready :
    (o : Option Thread) → 1 ≤ held on_ready o → (th : Thread) × (o ≡ some th) × (th.state ≡ ready)
unfolding held
held_ready none h = ground arith
held_ready (some th) h = (th, refl, holds_ready th.state th.wait_cond h)

pub List-cases : (l : List ℕ) → (l ≡ []) ⊎ ((t : ℕ) × (ts : List ℕ) × (l ≡ t ∷ ts))
List-cases [] = inl refl
List-cases (t ∷ ts) = inr (t, ts, refl)

-- The first ready thread gets the processor.
switch_to-IsPlaced :
    (m : Machine) (t : ℕ) (ts : List ℕ)
    → IsPlaced [] m
    → m.ready_list ≡ t ∷ ts
    → IsPlaced (t ∷ []) (set_thread_state t self (record m { tp = t; ready_list = ts }))
unfolding IsPlaced Agree queue set_thread_state occurs held holds
switch_to-IsPlaced m t ts h e =
    let n : Machine = record m { tp = t; ready_list = ts } in
    let once : 1 + occurs t ts ≡ held on_ready (m.thrtab t) =
      sym (occurs_self t ts) ∙ ap (occurs t) (sym e) ∙ h on_ready t in
    let (th, at, st) = held_ready (m.thrtab t) (omega (arith, once)) in
    moved (queue [] m) (queue (t ∷ []) n) m.thrtab t _ h
      (by_place _ (λ u ne. occurs_other u t [] ne)
        (λ u ne. sym (occurs_other u t ts ne) ∙ ap (occurs u) (sym e)) (λ c u ne. refl))
      (by_place _ (rw at (omega (arith, occurs_self t [])))
        (rw at (omega (arith, once, held-state on_ready (m.thrtab t) th at st)))
        (λ c. rw at (h (on_wait c) t ∙ held-state (on_wait c) (m.thrtab t) th at st)))

pub swtch-Goes : (m : Machine) → IsPlaced [] m → Goes (swtch m)
unfolding swtch
swtch-Goes m h = elim (List-cases m.ready_list) [
  | inl e ↦ rw e (record {})
  | inr (t, ts, e) ↦ rw e (switch_to-IsPlaced m t ts h e)
]

-- The end of a list gets the thread.
pub occurs_end : (t : ℕ) (xs : List ℕ) → occurs t (xs ++ t ∷ []) ≡ occurs t xs + 1
unfolding occurs
occurs_end t xs = omega (arith, occurs-append t xs (t ∷ []), occurs_self t [])

pub occurs_end_other :
    (u t : ℕ) (xs : List ℕ) → (u == t) ≡ false → occurs u (xs ++ t ∷ []) ≡ occurs u xs
unfolding occurs
occurs_end_other u t xs h = omega (arith, occurs-append u xs (t ∷ []), occurs_other u t [] h)

-- The running thread gives up the processor and is ready.
pub preempt-IsPlaced :
    (m : Machine) (th : Thread)
    → IsPlaced (m.tp ∷ []) m
    → m.thrtab m.tp ≡ some th
    → th.state ≡ self
    → IsPlaced [] (make_ready m.tp (set_thread_state m.tp ready m))
unfolding IsPlaced Agree queue set_thread_state make_ready occurs held holds
preempt-IsPlaced m th h at st =
    let t : ℕ = m.tp in
    let n : Machine = make_ready m.tp (set_thread_state m.tp ready m) in
    moved (queue (t ∷ []) m) (queue [] n) m.thrtab t _ h
      (by_place _ (λ u ne. sym (occurs_other u t [] ne))
        (λ u ne. occurs_end_other u t m.ready_list ne) (λ c u ne. refl))
      (by_place _ (rw at (refl))
        (rw at (
          omega (
            arith,
            occurs_end t m.ready_list,
            h on_ready t,
            held-state on_ready (m.thrtab t) th at st,
          )))
        (λ c. rw at (h (on_wait c) t ∙ held-state (on_wait c) (m.thrtab t) th at st)))

-- The running thread gives up the processor and waits.
pub start_wait-IsPlaced :
    (c : Condition) (m : Machine) (th : Thread)
    → IsPlaced (m.tp ∷ []) m
    → m.thrtab m.tp ≡ some th
    → th.state ≡ self
    → IsPlaced [] (start_wait c m)
unfolding IsPlaced Agree queue start_wait make_wait occurs held holds
start_wait-IsPlaced c m th h at st =
    let t : ℕ = m.tp in
    let n : Machine = start_wait c m in
    moved (queue (t ∷ []) m) (queue [] n) m.thrtab t _ h
      (by_place _ (λ u ne. sym (occurs_other u t [] ne)) (λ u ne. refl)
        (λ d u ne. elim (Bool-cases (same d c)) [
          | inl e ↦ rw (e, same→eq d c e) (occurs_end_other u t (m.wait_list c) ne)
          | inr e ↦ rw e refl
        ]))
      (by_place _ (rw at (refl)) (rw at (h on_ready t ∙ held-state on_ready (m.thrtab t) th at st))
        (λ d. rw at (
          let none_yet : occurs t (m.wait_list d) ≡ 0 =
            h (on_wait d) t ∙ held-state (on_wait d) (m.thrtab t) th at st in
          elim (Bool-cases (same d c)) [
            | inl e ↦ rw e (
                omega (
                  arith,
                  occurs_end t (m.wait_list c),
                  none_yet,
                  ap (λ x. occurs t (m.wait_list x)) (same→eq d c e),
                ))
            | inr e ↦ rw e none_yet
          ])))

holds_cpu : (st : ThreadState) (w : Option Condition) → 1 ≤ holds on_cpu st w → st ≡ self
unfolding holds
holds_cpu self w h = refl
holds_cpu uninitialized w h = ground arith
holds_cpu waiting w h = ground arith
holds_cpu ready w h = ground arith
holds_cpu exited w h = ground arith

held_cpu :
    (o : Option Thread) → 1 ≤ held on_cpu o → (th : Thread) × (o ≡ some th) × (th.state ≡ self)
unfolding held
held_cpu none h = ground arith
held_cpu (some th) h = (th, refl, holds_cpu th.state th.wait_cond h)

pub running :
    (m : Machine)
    → IsPlaced (m.tp ∷ []) m
    → (th : Thread) × (m.thrtab m.tp ≡ some th) × (th.state ≡ self)
unfolding IsPlaced Agree queue
running m h = held_cpu (m.thrtab m.tp) (omega (arith, h on_cpu m.tp, occurs_self m.tp []))

-- The running thread yields.
pub yield-Goes : (m : Machine) → IsPlaced (m.tp ∷ []) m → Goes (thread_yield m)
unfolding thread_yield running_thread_suspend suspend_in
yield-Goes m h =
    let (th, at, st) = running m h in
    subst (λ s. Goes (suspend_in s m)) (sym (ap state_of at ∙ st))
      (swtch-Goes (make_ready m.tp (set_thread_state m.tp ready m)) (preempt-IsPlaced m th h at st))

-- The running thread waits for a condition.
pub wait-Goes : (c : Condition) (m : Machine) → IsPlaced (m.tp ∷ []) m → Goes (condition_wait c m)
unfolding condition_wait running_thread_suspend suspend_in start_wait make_wait
wait-Goes c m h =
    let (th, at, st) = running m h in
    let n : Machine = start_wait c m in
    let there : (m.tp == m.tp) ≡ true = ground arith in
    let e : state_of (n.thrtab m.tp) ≡ waiting = rw (there, at) refl in
    subst (λ s. Goes (if is_self s then running_thread_suspend n else fault))
      (sym (ap state_of at ∙ st))
      (subst (λ s. Goes (suspend_in s n)) (sym e)
        (swtch-Goes n (start_wait-IsPlaced c m th h at st)))
