-- ===== src/Fds/Dups.antt =====
-- The duplicate of a descriptor: onto another it keeps the references covering the descriptors, onto itself
-- it may close its object.
use sp25_ece391_group.Base.{
  ℕ, zero, suc, ◌+◌, ◌-◌, ◌%◌, ◌^◌, ◌≤◌, ◌<◌, ◌≡◌, refl, sym, ap, ◌∙◌, inl, inr, subst, true, false,
  ◌&&◌, ◌||◌, none, some, Option, List, [], ◌∷◌, ◌==◌, ltb, arith, Bool-cases, Option-cases, pos,
  ok, set, get_or,
}
use sp25_ece391_group.Fds.{
  process_iomax, Files, returns, drop_ref, slot, set_slot, ioclose_at, ioaddref_at, close_target,
  duplicate, iodup_at, sysiodup,
}
use sp25_ece391_group.Fds.Counts.{uses, live, IsSafe, used_live, get_or-set_ne, fill-IsSafe}
use sp25_ece391_group.Fds.Calls.{StaysSafe, close_slot}

-- No count is at its maximum.
abbrev pub HasRoom : Files → Type 0
HasRoom f = (io : ℕ) → f.refcnt io + 1 < 2 ^ 64

addref-IsSafe : (f : Files) (a : ℕ) → IsSafe f → f.refcnt a + 1 < 2 ^ 64 → IsSafe (ioaddref_at a f)
unfolding IsSafe ioaddref_at live
addref-IsSafe f a (l, h) room = (
  l,
  λ j. elim (Bool-cases (j == a)) [
    | inl e ↦
        let at : j ≡ a = ground arith in
        let next : (f.refcnt a + 1) % 2 ^ 64 ≡ f.refcnt a + 1 = omega arith in
        let k = h a in
        elim (Bool-cases (f.closed a)) [
          | inl c ↦ rw (e, at, c) (rw c at k)
          | inr o ↦ rw (e, at, o, next) (let k' = rw o at k in omega (arith, k'))
        ]
    | inr e ↦ rw e (h j)
  ],
)

-- A free descriptor gets the object of another.
dup_into :
    (g : Files) (oldfd newfd a : ℕ)
    → IsSafe g
    → newfd < process_iomax
    → slot g newfd ≡ none
    → slot g oldfd ≡ some a
    → g.refcnt a + 1 < 2 ^ 64
    → IsSafe (set_slot newfd (some a) (ioaddref_at a g))
unfolding ioaddref_at IsSafe live
dup_into g oldfd newfd a h b free e room =
    let (used, open_now) = used_live g oldfd a h e in
    let there : (a == a) ≡ true = ground arith in
    let next : (g.refcnt a + 1) % 2 ^ 64 ≡ g.refcnt a + 1 = omega arith in
    let k : uses a g.iotab ≤ g.refcnt a = rw open_now at (h.1 a) in
    fill-IsSafe (ioaddref_at a g) newfd a (addref-IsSafe g a h room) b free
      (rw (there, open_now, next) (omega (arith, k)))

set-set : (xs : List (Option ℕ)) (i : ℕ) (o o' : Option ℕ) → set (set xs i o) i o' ≡ set xs i o'
set-set [] i o o' = refl
set-set (x ∷ xs) zero o o' = refl
set-set (x ∷ xs) (suc i) o o' = ap (λ l. x ∷ l) (set-set xs i o o')

get_or-set : (xs : List (Option ℕ)) (i : ℕ) → get_or (set xs i none) i none ≡ none
get_or-set [] i = refl
get_or-set (x ∷ xs) zero = refl
get_or-set (x ∷ xs) (suc i) = get_or-set xs i

drop_ref-HasRoom : (f : Files) (c a : ℕ) → HasRoom f → (drop_ref c f).refcnt a + 1 < 2 ^ 64
unfolding drop_ref
drop_ref-HasRoom f c a room = elim (Bool-cases (a == c)) [
  | inl e ↦ rw e (omega (arith, room c))
  | inr e ↦ rw e (room a)
]

-- The target is open, and is closed first.
dup_over :
    (f : Files) (oldfd newfd a c : ℕ)
    → IsSafe f
    → HasRoom f
    → newfd < process_iomax
    → (newfd == oldfd) ≡ false
    → slot f oldfd ≡ some a
    → slot f newfd ≡ some c
    → StaysSafe (duplicate oldfd newfd (drop_ref c f))
unfolding duplicate drop_ref ioclose_at ioaddref_at
dup_over f oldfd newfd a c h room b ne e e' =
    let (used, open_now) = used_live f newfd c h e' in
    let open_still : (f.refcnt c == 0) ≡ false = ground arith in
    let (g, is, safe) = close_slot f newfd c h b e' in
    let g_is : some (drop_ref c (set_slot newfd none f)) ≡ some g = rw open_still at is in
    let safe' : IsSafe (drop_ref c (set_slot newfd none f)) =
      subst IsSafe (sym (some_injective g_is)) safe in
    let done =
      dup_into (drop_ref c (set_slot newfd none f)) oldfd newfd a safe' b (get_or-set f.iotab newfd)
        (get_or-set_ne f.iotab newfd oldfd none ne ∙ e) (drop_ref-HasRoom f c a room) in
    rw (duplicate, e)
      (
        subst (λ l. IsSafe (record (ioaddref_at a (drop_ref c f)) { iotab = l }))
            (set-set f.iotab newfd none (some a)) done,
        refl,
      )
  where
    some_injective : {x y : Files} → some x ≡ some y → x ≡ y
    some_injective p = ap (λ o. elim o [ none ↦ f | some z ↦ z ]) p

-- The source and the target of a duplicate are different descriptors.
dup_slots :
    (f : Files) (oldfd newfd a : ℕ)
    → IsSafe f
    → HasRoom f
    → newfd < process_iomax
    → (newfd == oldfd) ≡ false
    → slot f oldfd ≡ some a
    → StaysSafe (iodup_at oldfd newfd f)
unfolding iodup_at close_target ioclose_at duplicate
dup_slots f oldfd newfd a h room b ne e = elim (Option-cases (slot f newfd)) [
  | inl free ↦
      let done : IsSafe (ioaddref_at a (set_slot newfd (some a) f)) =
        unfold ioaddref_at in dup_into f oldfd newfd a h b free e (room a) in
      rw (e, iodup_at, close_target, free, duplicate, e) (done, refl)
  | inr (c, e') ↦
      let (used, open_now) = used_live f newfd c h e' in
      let open_still : (f.refcnt c == 0) ≡ false = ground arith in
      rw (e, iodup_at, close_target, e', ioclose_at, open_still)
        (dup_over f oldfd newfd a c h room b ne e e')
]

-- A descriptor is not duplicated onto itself.
pub sysiodup-StaysSafe :
    (oldfd newfd : ℕ) (f : Files)
    → IsSafe f
    → HasRoom f
    → (newfd == oldfd) ≡ false
    → StaysSafe (sysiodup (pos oldfd) (pos newfd) f)
unfolding sysiodup iodup_at
sysiodup-StaysSafe oldfd newfd f h room ne =
    elim (Bool-cases (ltb oldfd process_iomax && ltb newfd process_iomax)) [
      | inl b ↦ elim (Option-cases (slot f oldfd)) [
        | inl none_there ↦ rw (b, iodup_at, none_there) (h, refl)
        | inr (a, e) ↦ rw b (dup_slots f oldfd newfd a h room (ground arith) ne e)
      ]
      | inr b ↦ rw b (h, refl)
    ]

set_same :
    (xs : List (Option ℕ)) (i : ℕ) (o : Option ℕ) {io : ℕ}
    → o ≡ some io
    → get_or xs i none ≡ o
    → set xs i o ≡ xs
set_same [] i o e h = refl
set_same (x ∷ xs) zero o e h = ap (λ y. y ∷ xs) (sym h)
set_same (x ∷ xs) (suc i) o e h = ap (λ l. x ∷ l) (set_same xs i o e h)

-- sysiodup of an open descriptor onto itself succeeds and leaves the table and the reference
-- count of the object as they were, but where the object has one reference its close runs: the
-- descriptor then names an object that has been closed.
pub sysiodup_self :
    (fd io : ℕ) (f : Files)
    → fd < process_iomax
    → slot f fd ≡ some io
    → 0 < f.refcnt io
    → f.refcnt io < 2 ^ 64
    → (g : Files) × (sysiodup (pos fd) (pos fd) f ≡ returns (ok fd) g)
      × (g.iotab ≡ f.iotab)
      × (g.refcnt io ≡ f.refcnt io)
      × (g.closed io ≡ (f.closed io || (f.refcnt io == 1)))
unfolding sysiodup iodup_at close_target ioclose_at duplicate ioaddref_at drop_ref
sysiodup_self fd io f b e some_left fits =
    let inside : ltb fd process_iomax ≡ true = ground arith in
    let same : (io == io) ≡ true = ground arith in
    let open_still : (f.refcnt io == 0) ≡ false = ground arith in
    let back : (f.refcnt io - 1 + 1) % 2 ^ 64 ≡ f.refcnt io = omega arith in
    (
      ioaddref_at io (set_slot fd (some io) (drop_ref io f)),
      rw (inside, iodup_at, e, close_target, e, ioclose_at, open_still, duplicate, e) refl,
      set_same f.iotab fd (some io) refl e,
      rw (same, back) refl,
      rw same refl,
    )
