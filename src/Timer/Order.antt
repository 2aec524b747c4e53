-- ===== src/Timer/Order.antt =====
-- The sleep list stays in order, the timer is set to its first alarm, and the interrupt wakes
-- exactly the alarms whose time has come.
use sp25_ece391_group.Base.{
  ℕ, ◌≤◌, ◌<◌, ◌≡◌, refl, sym, subst, inl, inr, true, List, [], ◌∷◌, ltb, ap, Option, some, arith,
  Bool-cases,
}
use sp25_ece391_group.Timer.{
  boot_sie, stie, timer_init, relink, keep, wait_for, csrs_sie, Alarm, Timer, Slept, passed,
  sleeping, null_write, uint64_max, later, insert_at, link, alarm_sleep,
}

-- No alarm of the list is before the time `w`.
abbrev pub AllFrom : ℕ → List Alarm → Type 0
AllFrom w [] = Unit
AllFrom w (a ∷ l) = (w ≤ a.twake) × AllFrom w l

abbrev pub IsSorted : List Alarm → Type 0
IsSorted [] = Unit
IsSorted (a ∷ l) = AllFrom a.twake l × IsSorted l

-- The compare register holds the time of the first alarm, or the largest number.
abbrev pub Armed : List Alarm → ℕ → Type 0
Armed [] w = w ≡ uint64_max
Armed (a ∷ l) w = w ≡ a.twake

-- The timer interrupt is enabled, as `intrmgr_init` leaves it.
pub record IsTimer (t : Timer) : Type 0 where
  pub sorted : IsSorted t.sleep_list
  pub armed : Armed t.sleep_list t.stcmp
  pub enabled : t.sie stie ≡ true

-- After the boot the timer is in order.
pub timer_init-IsTimer : IsTimer (timer_init boot_sie)
unfolding timer_init
timer_init-IsTimer = record { sorted = tt; armed = refl; enabled = refl }

-- `merged` is `old` with `a` put in at some place.
pub data Inserted (a : Alarm) : List Alarm → List Alarm → Type 0 where
  here : (l : List Alarm) → Inserted a l (a ∷ l)
  behind : (b : Alarm) {l bs : List Alarm} → Inserted a l bs → Inserted a (b ∷ l) (b ∷ bs)

AllFrom-mono : (v w : ℕ) (l : List Alarm) → v ≤ w → AllFrom w l → AllFrom v l
AllFrom-mono v w [] h f = tt
AllFrom-mono v w (a ∷ l) h f = (omega (arith, f.0), AllFrom-mono v w l h f.1)

-- The loop behind its first round puts the alarm in, and the list stays in order.
record Put (al : Alarm) (l : List Alarm) (o : Option (List Alarm)) : Type 0 where
  merged : List Alarm
  is : o ≡ some merged
  sorted : IsSorted merged
  from : (w : ℕ) → w ≤ al.twake → AllFrom w l → AllFrom w merged
  placed : Inserted al l merged

insert_at-Put : (al : Alarm) (l : List Alarm) → IsSorted l → Put al l (insert_at al true l)
unfolding insert_at relink keep
insert_at-Put al [] s = record {
  merged = al ∷ [];
  is = refl;
  sorted = (tt, tt);
  from = λ w h f. (h, tt);
  placed = here [];
}
insert_at-Put al (a ∷ l) s = elim (Bool-cases (ltb a.twake al.twake)) [
  | inl beyond ↦
      let p = insert_at-Put al l s.1 in
      rw beyond (record {
        merged = a ∷ p.merged;
        is = ap (keep a) p.is;
        sorted = (p.from a.twake (ground arith) s.0, p.sorted);
        from = λ w h f. (f.0, p.from w h f.1);
        placed = behind a p.placed;
      })
  | inr now ↦
      let h : al.twake ≤ a.twake = ground arith in
      rw now (record {
        merged = al ∷ a ∷ l;
        is = refl;
        sorted = ((h, AllFrom-mono al.twake a.twake l h s.0), s);
        from = λ w k f. (k, f);
        placed = here (a ∷ l);
      })
]

-- What `alarm_sleep` leaves, by its outcome. It writes through NULL only if the alarm's time is
-- that of the first alarm of the list.
abbrev pub SleptWell : Timer → ℕ → ℕ → Slept → Type 0
SleptWell t w now (passed a) = (a.twake ≡ w) × (w < now)
SleptWell t w now (sleeping a u) =
    (a.twake ≡ w) × (now ≤ w) × IsTimer u × Inserted a t.sleep_list u.sleep_list
SleptWell t w now null_write =
    (now ≤ w)
    × (first : Alarm) × (rest : List Alarm) × (t.sleep_list ≡ first ∷ rest)
    × (first.twake ≡ w)

-- The mask has not the bit of the timer interrupt.
wait_for-SleptWell :
    (al : Alarm) (t : Timer) (now stcmp : ℕ) (l : List Alarm)
    → IsTimer t
    → now ≤ al.twake
    → IsSorted l
    → Armed l stcmp
    → Inserted al t.sleep_list l
    → SleptWell t al.twake now (wait_for al (record t { stcmp = stcmp }) (some l))
unfolding wait_for csrs_sie
wait_for-SleptWell al t now stcmp l inv h s a p =
    (refl, h, record { sorted = s; armed = a; enabled = rw inv.enabled refl }, p)

link-SleptWell :
    (al : Alarm) (t : Timer) (l : List Alarm) (now : ℕ)
    → t.sleep_list ≡ l
    → IsTimer t
    → now ≤ al.twake
    → SleptWell t al.twake now (link al t l)
unfolding link insert_at relink keep
link-SleptWell al t [] now e inv h =
    wait_for-SleptWell al t now al.twake (al ∷ []) inv h (tt, tt) refl
      (subst (λ old. Inserted al old (al ∷ [])) (sym e) (here []))
link-SleptWell al t (first ∷ rest) now e inv h =
    let s : IsSorted (first ∷ rest) = subst IsSorted e inv.sorted in
    let a : Armed (first ∷ rest) t.stcmp = subst (λ l. Armed l t.stcmp) e inv.armed in
    elim (Bool-cases (ltb al.twake first.twake)) [
      | inl front ↦
          let before : al.twake ≤ first.twake = ground arith in
          rw front (
            wait_for-SleptWell al t now al.twake (al ∷ first ∷ rest) inv h
              ((before, AllFrom-mono al.twake first.twake rest before s.0), s) refl
              (subst (λ old. Inserted al old (al ∷ first ∷ rest)) (sym e) (here (first ∷ rest))))
      | inr behind_first ↦ rw behind_first (elim (Bool-cases (ltb first.twake al.twake)) [
        | inl beyond ↦
            let p = insert_at-Put al rest s.1 in
            rw (beyond, p.is)
              (wait_for-SleptWell al t now t.stcmp (first ∷ p.merged) inv h
                (p.from first.twake (ground arith) s.0, p.sorted) a
                (subst (λ old. Inserted al old (first ∷ p.merged)) (sym e) (behind first p.placed)))
        | inr same ↦ rw same (unfold wait_for in (h, first, rest, e, ground arith))
      ])
    ]

-- alarm_sleep with a timer in order, whose interrupt is enabled as the boot leaves it, returns
-- without a wait only if the new time of the alarm, which does not wrap, is before the present;
-- or the alarm is put into the list, which keeps its order and its other alarms, the timer is set
-- to the first of the list, and its interrupt stays enabled; or it writes through a NULL pointer,
-- which happens only when the new time has not passed and is that of the first alarm.
pub alarm_sleep-SleptWell :
    (al : Alarm) (tcnt now : ℕ) (t : Timer)
    → IsTimer t
    → SleptWell t (later al.twake tcnt) now (alarm_sleep al tcnt now t)
unfolding alarm_sleep
alarm_sleep-SleptWell al tcnt now t inv = elim (Bool-cases (ltb (later al.twake tcnt) now)) [
  | inl gone ↦ rw gone (refl, ground arith)
  | inr ahead ↦ rw ahead (
      link-SleptWell (record al { twake = later al.twake tcnt }) t t.sleep_list now refl inv
        (ground arith))
]
