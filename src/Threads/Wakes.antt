-- ===== src/Threads/Wakes.antt =====
-- The broadcast of a condition makes all the threads that wait for it ready, and keeps every thread in
-- the list that its state names.
use sp25_ece391_group.Base.{
  ℕ, ◌+◌, ◌≤◌, ◌≡◌, refl, sym, ap, ◌∙◌, inl, inr, subst, Option, none, some, List, [], ◌∷◌, ◌==◌,
  if◌then◌else◌, arith, Bool-cases,
}
use sp25_ece391_group.Threads.{
  ThreadState, uninitialized, waiting, self, ready, exited, Condition, same, Thread, Machine, on,
  set_thread_state, make_ready, wake_all, condition_broadcast,
}
use sp25_ece391_group.Threads.Placed.{
  Place, on_cpu, on_ready, on_wait, holds, held, occurs, queue, Agree, IsPlaced, Goes, same_self,
  same→eq, moved, by_place,
}
use sp25_ece391_group.Threads.Moves.{
  occurs_self, occurs_other, held-state, occurs_end, occurs_end_other,
}

-- The lists of a machine with `l` for the wait list of the condition.
unfoldable pub pending : List ℕ → Condition → List ℕ → Machine → Place → List ℕ
pending cpu c l m on_cpu = cpu
pending cpu c l m on_ready = m.ready_list
pending cpu c l m (on_wait d) = if same d c then l else m.wait_list d

holds_wait :
    (c : Condition) (st : ThreadState) (w : Option Condition)
    → 1 ≤ holds (on_wait c) st w
    → (st ≡ waiting) × (w ≡ some c)
unfolding holds
holds_wait c waiting none h = ground arith
holds_wait c waiting (some d) h = (
  refl,
  elim (Bool-cases (same c d)) [
    | inl e ↦ ap some (sym (same→eq c d e))
    | inr e ↦ let none_here : 1 ≤ 0 = rw e at h in ground arith
  ],
)
holds_wait c uninitialized w h = ground arith
holds_wait c ready w h = ground arith
holds_wait c self w h = ground arith
holds_wait c exited w h = ground arith

held_wait :
    (c : Condition) (o : Option Thread)
    → 1 ≤ held (on_wait c) o
    → (th : Thread) × (o ≡ some th) × (th.state ≡ waiting) × (th.wait_cond ≡ some c)
unfolding held
held_wait c none h = ground arith
held_wait c (some th) h = let (st, w) = holds_wait c th.state th.wait_cond h in (th, refl, st, w)

wake_one :
    (cpu : List ℕ) (c : Condition) (t : ℕ) (ts : List ℕ) (m : Machine)
    → Agree (pending cpu c (t ∷ ts) m) m.thrtab
    → let n = make_ready t (set_thread_state t ready m) in Agree (pending cpu c ts n) n.thrtab
unfolding Agree pending set_thread_state make_ready occurs held holds
wake_one cpu c t ts m h =
    let n : Machine = make_ready t (set_thread_state t ready m) in
    let once : 1 + occurs t ts ≡ held (on_wait c) (m.thrtab t) =
      sym (occurs_self t ts) ∙ (rw (same_self c) at (h (on_wait c) t)) in
    let (th, at, st, w) = held_wait c (m.thrtab t) (omega (arith, once)) in
    let full : held (on_wait c) (m.thrtab t) ≡ 1 =
      held-state (on_wait c) (m.thrtab t) th at st ∙ rw (w, same_self c) refl in
    moved (pending cpu c (t ∷ ts) m) (pending cpu c ts n) m.thrtab t _ h
      (by_place _ (λ u ne. refl) (λ u ne. occurs_end_other u t m.ready_list ne)
        (λ d u ne. elim (Bool-cases (same d c)) [
          | inl e ↦ rw e (sym (occurs_other u t ts ne))
          | inr e ↦ rw e refl
        ]))
      (by_place _ (rw at (h on_cpu t ∙ held-state on_cpu (m.thrtab t) th at st))
        (rw at (
          omega (
            arith,
            occurs_end t m.ready_list,
            h on_ready t,
            held-state on_ready (m.thrtab t) th at st,
          )))
        (λ d. rw at (elim (Bool-cases (same d c)) [
          | inl e ↦ rw e (omega (arith, once, full))
          | inr e ↦ rw e (
              (rw e at (h (on_wait d) t))
              ∙ held-state (on_wait d) (m.thrtab t) th at st
              ∙ rw (w, e) refl)
        ])))

pub wake_all-wait_list : (l : List ℕ) (m : Machine) → (wake_all l m).wait_list ≡ m.wait_list
unfolding wake_all set_thread_state make_ready
wake_all-wait_list [] m = refl
wake_all-wait_list (t ∷ ts) m = wake_all-wait_list ts (make_ready t (set_thread_state t ready m))

pub wake_all-locks : (l : List ℕ) (m : Machine) → (wake_all l m).locks ≡ m.locks
unfolding wake_all set_thread_state make_ready
wake_all-locks [] m = refl
wake_all-locks (t ∷ ts) m = wake_all-locks ts (make_ready t (set_thread_state t ready m))

pub wake_all-tp : (l : List ℕ) (m : Machine) → (wake_all l m).tp ≡ m.tp
unfolding wake_all set_thread_state make_ready
wake_all-tp [] m = refl
wake_all-tp (t ∷ ts) m = wake_all-tp ts (make_ready t (set_thread_state t ready m))

wake_all_lem :
    (cpu : List ℕ) (c : Condition) (l : List ℕ) (m : Machine)
    → Agree (pending cpu c l m) m.thrtab
    → let n = wake_all l m in Agree (pending cpu c [] n) n.thrtab
unfolding wake_all
wake_all_lem cpu c [] m h = h
wake_all_lem cpu c (t ∷ ts) m h =
    wake_all_lem cpu c ts (make_ready t (set_thread_state t ready m)) (wake_one cpu c t ts m h)

-- No thread is lost or woken twice.
pub condition_broadcast-IsPlaced :
    (cpu : List ℕ) (c : Condition) (m : Machine)
    → IsPlaced cpu m
    → IsPlaced cpu (condition_broadcast c m)
unfolding IsPlaced Agree queue pending condition_broadcast
condition_broadcast-IsPlaced cpu c m h =
    let l : List ℕ = m.wait_list c in
    let cleared : Condition → List ℕ = λ d. if same d c then [] else m.wait_list d in
    let n : Machine = record m { wait_list = cleared } in
    let start : Agree (pending cpu c l n) n.thrtab = by_place _ (h on_cpu) (h on_ready) (λ d u.
      elim (Bool-cases (same d c)) [
        | inl e ↦ rw e (ap (λ x. occurs u (m.wait_list x)) (sym (same→eq d c e)) ∙ h (on_wait d) u)
        | inr e ↦ rw e (h (on_wait d) u)
      ]) in
    let end = wake_all_lem cpu c l n start in
    by_place _ (end on_cpu) (end on_ready) (λ d u.
      ap (λ f. occurs u (f d)) (wake_all-wait_list l n) ∙ elim (Bool-cases (same d c)) [
        | inl e ↦ rw e (rw e at (end (on_wait d) u))
        | inr e ↦ rw e (
            (rw e at (sym (ap (λ f. occurs u (f d)) (wake_all-wait_list l n))))
            ∙ (rw e at (end (on_wait d) u)))
      ])

pub broadcast-Goes :
    (c : Condition) (m : Machine) → IsPlaced (m.tp ∷ []) m → Goes (on (condition_broadcast c m))
unfolding condition_broadcast
broadcast-Goes c m h =
    let n : Machine = condition_broadcast c m in
    let tp : n.tp ≡ m.tp = wake_all-tp (m.wait_list c) _ in
    subst (λ t. IsPlaced (t ∷ []) n) (sym tp) (condition_broadcast-IsPlaced (m.tp ∷ []) c m h)

-- A thread that does not wait for the condition is not touched.
pub wake_all-thrtab :
    (l : List ℕ) (m : Machine) (u : ℕ) → occurs u l ≡ 0 → (wake_all l m).thrtab u ≡ m.thrtab u
unfolding wake_all set_thread_state make_ready occurs
wake_all-thrtab [] m u h = refl
wake_all-thrtab (t ∷ ts) m u h = elim (Bool-cases (u == t)) [
  | inl e ↦ absurd (ground arith)
  | inr e ↦
      wake_all-thrtab ts (make_ready t (set_thread_state t ready m)) u (omega (arith, rw e at h))
      ∙ rw e refl
]
