-- ===== src/Threads/Placed.antt =====
-- Where a thread stands: the lists that a thread of a given state must be in, and how a move of one
-- thread keeps the thread table and the lists in agreement.
use sp25_ece391_group.Base.{
  ℕ, ◌+◌, ◌≡◌, sym, ap, ◌∙◌, inl, inr, true, false, Option, none, some, List, [], ◌∷◌, ◌++◌, ◌==◌,
  if◌then◌else◌, arith, Bool-cases,
}
use sp25_ece391_group.Threads.{
  ThreadState, waiting, self, ready, Condition, child_exit, lock_release, other, same, Thread,
  Machine, Run, on, halt, fault, update,
}

pub data Place : Type 0 where
  on_cpu on_ready : Place
  on_wait : Condition → Place

-- How many times a thread of a state, with its condition, must be at a place.
unfoldable pub holds : Place → ThreadState → Option Condition → ℕ
holds on_cpu self w = 1
holds on_ready ready w = 1
holds (on_wait d) waiting (some c) = if same d c then 1 else 0
holds _ _ _ = 0

unfoldable pub held : Place → Option Thread → ℕ
unfolding holds
held p none = 0
held p (some th) = holds p th.state th.wait_cond

unfoldable pub occurs : ℕ → List ℕ → ℕ
occurs t [] = 0
occurs t (x ∷ xs) = (if t == x then 1 else 0) + occurs t xs

-- The lists of a machine, with the list of the threads that run.
unfoldable pub queue : List ℕ → Machine → Place → List ℕ
queue cpu m on_cpu = cpu
queue cpu m on_ready = m.ready_list
queue cpu m (on_wait c) = m.wait_list c

-- Each thread is once in the list that its state names, and in no other.
unfoldable pub Agree : (Place → List ℕ) → (ℕ → Option Thread) → Type 0
unfolding occurs held
Agree q thrtab = (p : Place) (t : ℕ) → occurs t (q p) ≡ held p (thrtab t)

unfoldable pub IsPlaced : List ℕ → Machine → Type 0
unfolding Agree queue
IsPlaced cpu m = Agree (queue cpu m) m.thrtab

-- After a call a thread runs, and no other, and all are placed.
abbrev pub Goes : Run → Type 0
Goes (on m) = IsPlaced (m.tp ∷ []) m
Goes halt = Unit
Goes fault = Unit

pub occurs-append : (t : ℕ) (xs ys : List ℕ) → occurs t (xs ++ ys) ≡ occurs t xs + occurs t ys
unfolding occurs
occurs-append t [] ys = omega arith
occurs-append t (x ∷ xs) ys = omega (arith, occurs-append t xs ys)

pub same_self : (c : Condition) → same c c ≡ true
same_self (child_exit a) = ground arith
same_self (lock_release a) = ground arith
same_self (other a) = ground arith

pub same→eq : (c d : Condition) → same c d ≡ true → c ≡ d
same→eq (child_exit a) (child_exit b) h = ap child_exit (ground arith)
same→eq (lock_release a) (lock_release b) h = ap lock_release (ground arith)
same→eq (other a) (other b) h = ap other (ground arith)
same→eq (child_exit a) (lock_release b) h = ground arith
same→eq (child_exit a) (other b) h = ground arith
same→eq (lock_release a) (child_exit b) h = ground arith
same→eq (lock_release a) (other b) h = ground arith
same→eq (other a) (child_exit b) h = ground arith
same→eq (other a) (lock_release b) h = ground arith

-- A move of one thread: the others stay where they are, and it is where its new state says.
pub moved :
    (q q' : Place → List ℕ) (thrtab : ℕ → Option Thread) (t : ℕ) (th : Option Thread)
    → Agree q thrtab
    → ((p : Place) (u : ℕ) → (u == t) ≡ false → occurs u (q' p) ≡ occurs u (q p))
    → ((p : Place) → occurs t (q' p) ≡ held p th)
    → Agree q' (update thrtab t th)
unfolding Agree
moved q q' thrtab t th h others here p u = elim (Bool-cases (u == t)) [
  | inl e ↦ let at : u ≡ t = ground arith in rw e (ap (λ v. occurs v (q' p)) at ∙ here p)
  | inr e ↦ rw e (others p u e ∙ h p u)
]

pub by_place {ℓ} :
    (P : Place → Type ℓ)
    → P on_cpu
    → P on_ready
    → ((c : Condition) → P (on_wait c))
    → (p : Place) → P p
by_place P a b f on_cpu = a
by_place P a b f on_ready = b
by_place P a b f (on_wait c) = f c

-- A change that no place depends on.
pub unmoved :
    (q : Place → List ℕ) (tab tab' : ℕ → Option Thread)
    → Agree q tab
    → ((p : Place) (u : ℕ) → held p (tab' u) ≡ held p (tab u))
    → Agree q tab'
unfolding Agree
unmoved q tab tab' h eq p u = h p u ∙ sym (eq p u)
