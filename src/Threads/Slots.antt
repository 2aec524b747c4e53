-- ===== src/Threads/Slots.antt =====
-- A new thread and the reclaim of a slot keep every thread in the list that its state names.
use sp25_ece391_group.Base.{
  ℕ, zero, suc, ◌+◌, ◌-◌, ◌≡◌, refl, ap, ◌∙◌, inl, inr, subst, Bool, true, ◌&&◌, Option, none, some,
  List, [], ◌∷◌, ◌==◌, ltb, if◌then◌else◌, arith, Bool-cases, Option-cases, Ret, ok, err, crash,
}
use sp25_ece391_group.Threads.{
  nthr, ThreadState, uninitialized, waiting, self, ready, exited, child_exit, Thread, Machine, on,
  state_of, update, change, set_thread_state, make_ready,
}
use sp25_ece391_group.Threads.Locks.{owns, parent_of}
use sp25_ece391_group.Threads.Life.{
  free_slot, create_thread, thread_spawn, thread_reclaim, reparent, is_exited, is_null, proc_of,
  set_proc, new_thread, Join, joined, refused, waiting_for, null_read, returned, join_round,
  join_child, join_any, join_any_after, thread_join, has_child, exited_child,
}
use sp25_ece391_group.Threads.Placed.{
  Place, on_cpu, on_ready, on_wait, holds, held, occurs, queue, Agree, IsPlaced, Goes, moved,
  unmoved, by_place,
}
use sp25_ece391_group.Threads.Moves.{held-state, occurs_end, occurs_end_other, wait-Goes}

null_none : (o : Option Thread) → is_null o ≡ true → o ≡ none
null_none none h = refl
null_none (some th) h = ground arith

free_slot-null :
    (n tid : ℕ) (tab : ℕ → Option Thread) {t : ℕ} → free_slot n tid tab ≡ some t → tab t ≡ none
unfolding free_slot
free_slot-null zero tid tab h = ground arith
free_slot-null (suc n) tid tab {t = t} h = elim (Bool-cases (is_null (tab tid))) [
  | inl e ↦
      let found : some tid ≡ some t = rw e at h in
      let at : tid ≡ t = ground arith in subst (λ v. tab v ≡ none) at (null_none (tab tid) e)
  | inr e ↦ free_slot-null n (tid + 1) tab (rw e at h)
]

-- A free slot gets a ready thread.
insert-IsPlaced :
    (cpu : List ℕ) (m : Machine) (t : ℕ) (th : Thread) (tab : ℕ → Option Thread)
    → IsPlaced cpu m
    → m.thrtab t ≡ none
    → th.state ≡ ready
    → ((u : ℕ) → tab u ≡ update m.thrtab t (some th) u)
    → IsPlaced cpu (make_ready t (record m { thrtab = tab }))
unfolding IsPlaced Agree queue make_ready occurs held holds
insert-IsPlaced cpu m t th tab h free st same_tab =
    let n : Machine = make_ready t m in
    unmoved (queue cpu n) (update m.thrtab t (some th)) tab
      (moved (queue cpu m) (queue cpu n) m.thrtab t (some th) h
        (by_place _ (λ u ne. refl) (λ u ne. occurs_end_other u t m.ready_list ne) (λ c u ne. refl))
        (by_place _ (rw st (h on_cpu t ∙ ap (held on_cpu) free))
          (rw st (omega (arith, occurs_end t m.ready_list, h on_ready t, ap (held on_ready) free)))
          (λ c. rw st (h (on_wait c) t ∙ ap (held (on_wait c)) free))))
      (λ p u. ap (held p) (same_tab u))

abbrev pub SpawnGoes : Ret (ℕ × Machine) → Type 0
SpawnGoes (ok (tid, n)) = Goes (on n)
SpawnGoes (err e) = Unit
SpawnGoes crash = Unit

pub spawn-Goes : (m : Machine) → IsPlaced (m.tp ∷ []) m → SpawnGoes (thread_spawn m)
unfolding thread_spawn create_thread set_thread_state
spawn-Goes m h = elim (Option-cases (free_slot (nthr - 1) 1 m.thrtab)) [
  | inl full ↦ rw (full, thread_spawn, create_thread) (record {})
  | inr (t, e) ↦
      let child : Thread = record (set_proc (proc_of (m.thrtab m.tp)) (new_thread m.tp none)) {
        state = ready;
      } in
      rw (e, thread_spawn, create_thread)
        (insert-IsPlaced (m.tp ∷ []) m t child _ h (free_slot-null (nthr - 1) 1 m.thrtab e) refl
          (λ u. elim (Bool-cases (u == t)) [
            | inl same_slot ↦
                let there : (t == t) ≡ true = ground arith in rw (same_slot, there) refl
            | inr ne ↦ rw ne refl
          ]))
]

held_exited :
    (p : Place) (o : Option Thread) (th : Thread) → o ≡ some th → th.state ≡ exited → held p o ≡ 0
unfolding holds
held_exited on_cpu o th e st = held-state on_cpu o th e st
held_exited on_ready o th e st = held-state on_ready o th e st
held_exited (on_wait c) o th e st = held-state (on_wait c) o th e st

held-reparent :
    (p : Place) (tid : ℕ) (parent : Option ℕ) (o : Option Thread)
    → held p (change (reparent tid parent) o) ≡ held p o
unfolding held reparent
held-reparent p tid parent none = refl
held-reparent p tid parent (some th) = elim (Bool-cases (owns th.parent tid)) [
  | inl e ↦ rw e refl
  | inr e ↦ rw e refl
]

-- The slot of an exited thread is freed.
remove-IsPlaced :
    (cpu : List ℕ) (m : Machine) (t : ℕ) (th : Thread) (tab : ℕ → Option Thread)
    → IsPlaced cpu m
    → m.thrtab t ≡ some th
    → th.state ≡ exited
    → ((p : Place) (u : ℕ) → held p (tab u) ≡ held p (update m.thrtab t none u))
    → IsPlaced cpu (record m { thrtab = tab })
unfolding IsPlaced Agree queue held
remove-IsPlaced cpu m t th tab h e st same_places =
    unmoved (queue cpu m) (update m.thrtab t none) tab
      (moved (queue cpu m) (queue cpu m) m.thrtab t none h (λ p u ne. refl)
        (λ p. h p t ∙ held_exited p (m.thrtab t) th e st))
      same_places

is_exited-eq : (st : ThreadState) (b : Bool) → (is_exited st && b) ≡ true → st ≡ exited
is_exited-eq exited b h = refl
is_exited-eq uninitialized b h = ground arith
is_exited-eq waiting b h = ground arith
is_exited-eq self b h = ground arith
is_exited-eq ready b h = ground arith

same_places :
    (tid : ℕ) (parent : Option ℕ) (m : Machine) (p : Place) (u : ℕ)
    → let adopt : ℕ → Option Thread = λ j.
      if ltb 0 j && ltb j nthr then change (reparent tid parent) (m.thrtab j) else m.thrtab j in
      held p (update adopt tid none u) ≡ held p (update m.thrtab tid none u)
same_places tid parent m p u = elim (Bool-cases (u == tid)) [
  | inl e ↦ rw e refl
  | inr e ↦ rw e (elim (Bool-cases (ltb 0 u && ltb u nthr)) [
    | inl inside ↦ rw inside (held-reparent p tid parent (m.thrtab u))
    | inr outside ↦ rw outside refl
  ])
]

abbrev pub ReclaimGoes : Option Machine → Type 0
ReclaimGoes none = Unit
ReclaimGoes (some n) = Goes (on n)

pub reclaim-Goes :
    (tid : ℕ) (m : Machine) → IsPlaced (m.tp ∷ []) m → ReclaimGoes (thread_reclaim tid m)
unfolding thread_reclaim
reclaim-Goes tid m h = elim (Option-cases (m.thrtab tid)) [
  | inl free ↦ rw (free, thread_reclaim) (record {})
  | inr (th, e) ↦ elim (Bool-cases (is_exited th.state && (ltb 0 tid && ltb tid nthr))) [
    | inl go ↦
        rw (e, thread_reclaim, go)
          (remove-IsPlaced (m.tp ∷ []) m tid th _ h e
            (is_exited-eq th.state (ltb 0 tid && ltb tid nthr) go) (same_places tid th.parent m))
    | inr stay ↦ rw (e, thread_reclaim, stay) (record {})
  ]
]

abbrev pub JoinGoes : Join → Type 0
JoinGoes (joined tid n) = Goes (on n)
JoinGoes refused = Unit
JoinGoes (waiting_for r) = Goes r
JoinGoes null_read = Unit

returned_Goes : (tid : ℕ) (o : Option Machine) → ReclaimGoes o → JoinGoes (returned tid o)
returned_Goes tid none h = record {}
returned_Goes tid (some n) h = h

pub round_Goes : (tid : ℕ) (m : Machine) → IsPlaced (m.tp ∷ []) m → JoinGoes (join_round tid m)
unfolding join_round
round_Goes tid m h = elim (Bool-cases (is_exited (state_of (m.thrtab tid)))) [
  | inl e ↦ rw e (returned_Goes tid (thread_reclaim tid m) (reclaim-Goes tid m h))
  | inr e ↦ rw e (wait-Goes (child_exit m.tp) m h)
]

child_Goes : (tid : ℕ) (m : Machine) → IsPlaced (m.tp ∷ []) m → JoinGoes (join_child tid m)
unfolding join_child
child_Goes tid m h = elim (Bool-cases (is_null (m.thrtab tid))) [
  | inl e ↦ rw e (record {})
  | inr e ↦ elim (Bool-cases (owns (parent_of (m.thrtab tid)) m.tp)) [
    | inl child ↦ rw (e, child) (round_Goes tid m h)
    | inr other ↦ rw (e, other) (record {})
  ]
]

any_Goes : (m : Machine) → IsPlaced (m.tp ∷ []) m → JoinGoes (join_any m)
unfolding join_any
any_Goes m h = elim (Option-cases (has_child nthr 0 m)) [
  | inl e ↦ rw (e, join_any) (record {})
  | inr (b, e) ↦ elim (Bool-cases b) [
    | inl some_child ↦ rw (e, join_any, some_child) (wait-Goes (child_exit m.tp) m h)
    | inr no_child ↦ rw (e, join_any, no_child) (record {})
  ]
]

pub any_after-Goes : (m : Machine) → IsPlaced (m.tp ∷ []) m → JoinGoes (join_any_after m)
unfolding join_any_after
any_after-Goes m h = elim (Option-cases (exited_child nthr 0 m)) [
  | inl e ↦ rw (e, join_any_after) h
  | inr (tid, e) ↦
      rw (e, join_any_after) (returned_Goes tid (thread_reclaim tid m) (reclaim-Goes tid m h))
]

pub join-Goes : (tid : ℕ) (m : Machine) → IsPlaced (m.tp ∷ []) m → JoinGoes (thread_join tid m)
unfolding thread_join
join-Goes tid m h = elim (Bool-cases (tid == 0)) [
  | inl e ↦ rw e (any_Goes m h)
  | inr e ↦ rw e (child_Goes tid m h)
]
