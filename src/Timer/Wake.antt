-- ===== src/Timer/Wake.antt =====
-- The timer interrupt: the alarms that it wakes, those that it leaves, and the timer that it sets.
use sp25_ece391_group.Base.{
  ℕ, ◌≤◌, ◌<◌, ◌≡◌, refl, sym, subst, ap, ◌∙◌, inl, inr, List, [], ◌∷◌, ◌++◌, leb, arith,
  Bool-cases,
}
use sp25_ece391_group.Timer.{Alarm, Timer, wake, rearm, csrc_sie, handle_timer_interrupt}
use sp25_ece391_group.Timer.Order.{AllFrom, IsSorted, IsTimer}

-- No alarm of the list is due.
abbrev pub AllAfter : ℕ → List Alarm → Type 0
AllAfter now [] = Unit
AllAfter now (a ∷ l) = (now < a.twake) × AllAfter now l

abbrev pub AllDue : ℕ → List Alarm → Type 0
AllDue now [] = Unit
AllDue now (a ∷ l) = (a.twake ≤ now) × AllDue now l

AllFrom-AllAfter : (now w : ℕ) (l : List Alarm) → now < w → AllFrom w l → AllAfter now l
AllFrom-AllAfter now w [] h f = tt
AllFrom-AllAfter now w (a ∷ l) h f = (omega (arith, f.0), AllFrom-AllAfter now w l h f.1)

record Woke (now : ℕ) (l woken left : List Alarm) : Type 0 where
  all : l ≡ woken ++ left
  due : AllDue now woken
  after : AllAfter now left
  sorted : IsSorted left

wake-Woke : (now : ℕ) (l : List Alarm) → IsSorted l → Woke now l (wake now l).0 (wake now l).1
unfolding wake
wake-Woke now [] s = record { all = refl; due = tt; after = tt; sorted = tt }
wake-Woke now (a ∷ l) s = elim (Bool-cases (leb a.twake now)) [
  | inl due ↦
      let w = wake-Woke now l s.1 in
      rw due (record {
        all = ap (λ k. a ∷ k) w.all;
        due = (ground arith, w.due);
        after = w.after;
        sorted = w.sorted;
      })
  | inr not_due ↦
      let h : now < a.twake = ground arith in
      rw not_due (record {
        all = refl;
        due = tt;
        after = (h, AllFrom-AllAfter now a.twake l h s.0);
        sorted = s;
      })
]

-- What the timer interrupt achieves.
pub record Handled (now : ℕ) (t : Timer) (woken : List Alarm) (u : Timer) : Type 0 where
  pub all : t.sleep_list ≡ woken ++ u.sleep_list
  pub due : AllDue now woken
  pub after : AllAfter now u.sleep_list
  pub inv : IsTimer u

rearm-IsTimer : (t : Timer) (left : List Alarm) → IsTimer t → IsSorted left → IsTimer (rearm t left)
unfolding rearm csrc_sie
rearm-IsTimer t [] inv s = record { sorted = tt; armed = refl; enabled = rw inv.enabled refl }
rearm-IsTimer t (a ∷ l) inv s = record { sorted = s; armed = refl; enabled = inv.enabled }

sleep_list-rearm : (t : Timer) (l : List Alarm) → (rearm t l).sleep_list ≡ l
unfolding rearm csrc_sie
sleep_list-rearm t [] = refl
sleep_list-rearm t (a ∷ l) = refl

-- With a timer in order, whose interrupt is enabled as the boot leaves it, the interrupt wakes
-- every alarm whose time has come and no other, leaves the others in the list in their order,
-- sets the timer to the first of them, or to the largest number if there is none, and leaves the
-- timer interrupt enabled.
pub handle_timer_interrupt-Handled :
    (now : ℕ) (t : Timer)
    → IsTimer t
    → let (woken, u) = handle_timer_interrupt now t in Handled now t woken u
unfolding handle_timer_interrupt
handle_timer_interrupt-Handled now t inv =
    let w = wake-Woke now t.sleep_list inv.sorted in
    let left = (wake now t.sleep_list).1 in
    let e = sleep_list-rearm t left in
    record {
      all = w.all ∙ ap (λ l. (wake now t.sleep_list).0 ++ l) (sym e);
      due = w.due;
      after = subst (AllAfter now) (sym e) w.after;
      inv = rearm-IsTimer t left inv w.sorted;
    }
