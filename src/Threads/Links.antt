-- ===== src/Threads/Links.antt =====
-- The thread lists of sys/thread.c as the code keeps them: a head, a tail, and the `list_next` of each
-- thread. They are queues.
use sp25_ece391_group.Base.{
  ℕ, ◌≤◌, ◌≡◌, refl, ap, subst, Bool, true, false, Option, none, some, List, [], ◌∷◌, ◌++◌, ◌==◌,
  arith,
}
use sp25_ece391_group.Threads.{update}
use sp25_ece391_group.Threads.Placed.{occurs}
use sp25_ece391_group.Threads.Moves.{occurs_self}

-- `struct thread_list`.
pub record ThreadList : Type 0 where
  pub head : Option ℕ
  pub tail : Option ℕ

unfoldable pub tlclear : ThreadList
tlclear = record { head = none; tail = none }

unfoldable pub tlempty : ThreadList → Bool
tlempty list = elim list.head [ none ↦ true | some t ↦ false ]

-- The list and the links, or `none` for a failed assertion. A thread that is NULL has no link to set.
unfoldable pub tlinsert : ThreadList → ℕ → (ℕ → Option ℕ) → Option (ThreadList × (ℕ → Option ℕ))
tlinsert list t list_next =
    let cut : ℕ → Option ℕ = update list_next t none in
    elim list.tail [
      | some last ↦ elim list.head [
        | some first ↦ some (record list { tail = some t }, update cut last (some t))
        | none ↦ none
      ]
      | none ↦ elim list.head [
        | some first ↦ none
        | none ↦ some (record { head = some t; tail = some t }, cut)
      ]
    ]

unfoldable pub tlremove : ThreadList → (ℕ → Option ℕ) → Option ℕ × ThreadList × (ℕ → Option ℕ)
tlremove list list_next = elim list.head [
  | none ↦ (none, list, list_next)
  | some t ↦ elim (list_next t) [
    | some next ↦ (some t, record list { head = some next }, update list_next t none)
    | none ↦ (some t, record { head = none; tail = none }, update list_next t none)
  ]
]

-- The links run from `x` through `xs` to the tail.
unfoldable pub Linked : (ℕ → Option ℕ) → ℕ → List ℕ → Option ℕ → Type 0
Linked list_next x [] tail = (list_next x ≡ none) × (tail ≡ some x)
Linked list_next x (y ∷ ys) tail = (list_next x ≡ some y) × Linked list_next y ys tail

-- The list stands for the queue `xs`.
unfoldable pub Represents : ThreadList → (ℕ → Option ℕ) → List ℕ → Type 0
unfolding Linked
Represents list list_next [] = (list.head ≡ none) × (list.tail ≡ none)
Represents list list_next (x ∷ xs) = (list.head ≡ some x) × Linked list_next x xs list.tail

-- A link of a thread outside the list does not matter.
outside :
    (list_next : ℕ → Option ℕ) (t : ℕ) (o : Option ℕ) (x : ℕ) (xs : List ℕ) (tail : Option ℕ)
    → occurs t (x ∷ xs) ≡ 0
    → Linked list_next x xs tail
    → Linked (update list_next t o) x xs tail
unfolding Linked occurs
outside list_next t o x [] tail n (h, e) =
    let apart : (x == t) ≡ false = ground arith in (rw apart h, e)
outside list_next t o x (y ∷ ys) tail n (h, l) =
    let apart : (x == t) ≡ false = ground arith in
    (rw apart h, outside list_next t o y ys tail (ground arith) l)

last_occurs :
    (list_next : ℕ → Option ℕ) (x : ℕ) (xs : List ℕ) (last : ℕ)
    → Linked list_next x xs (some last)
    → 1 ≤ occurs last (x ∷ xs)
unfolding Linked occurs
last_occurs list_next x [] last (h, e) = let at : last ≡ x = ground arith in ground arith
last_occurs list_next x (y ∷ ys) last (h, l) = omega (arith, last_occurs list_next y ys last l)

-- Each thread is in the list at most once.
abbrev pub Once : List ℕ → Type 0
Once xs = (u : ℕ) → occurs u xs ≤ 1

Once-tail : (x : ℕ) (xs : List ℕ) → Once (x ∷ xs) → Once xs
unfolding occurs
Once-tail x xs h u = omega (arith, h u)

-- The link from the tail joins the new thread on.
link_end :
    (list_next : ℕ → Option ℕ) (t x : ℕ) (xs : List ℕ) (last : ℕ)
    → occurs t (x ∷ xs) ≡ 0
    → Once (x ∷ xs)
    → Linked list_next x xs (some last)
    → list_next t ≡ none
    → Linked (update list_next last (some t)) x (xs ++ t ∷ []) (some t)
unfolding Linked occurs
link_end list_next t x [] last n once (h, e) free =
    let here : (x == last) ≡ true = ground arith in
    let apart : (t == last) ≡ false = ground arith in (rw here refl, (rw apart free, refl))
link_end list_next t x (y ∷ ys) last n once (h, l) free =
    let there : 1 ≤ occurs last (y ∷ ys) = last_occurs list_next y ys last l in
    let at_most : occurs last (x ∷ y ∷ ys) ≤ 1 = once last in
    let apart : (x == last) ≡ false = ground arith in
    (rw apart h, link_end list_next t y ys last (ground arith) (Once-tail x (y ∷ ys) once) l free)

tail_some :
    (list_next : ℕ → Option ℕ) (x : ℕ) (xs : List ℕ) (tail : Option ℕ)
    → Linked list_next x xs tail
    → (last : ℕ) × (tail ≡ some last)
unfolding Linked
tail_some list_next x [] tail (h, e) = (x, e)
tail_some list_next x (y ∷ ys) tail (h, l) = tail_some list_next y ys tail l

-- On a linked list that stands for a queue of different threads, tlinsert of a thread that is not
-- in it passes its assertions and gives a list that stands for the queue with the thread at its
-- end.
pub tlinsert-Represents :
    (list : ThreadList) (list_next : ℕ → Option ℕ) (xs : List ℕ) (t : ℕ)
    → Represents list list_next xs
    → Once xs
    → occurs t xs ≡ 0
    → (l : ThreadList) × (n : ℕ → Option ℕ) × (tlinsert list t list_next ≡ some (l, n))
      × Represents l n (xs ++ t ∷ [])
unfolding tlinsert Represents Linked
tlinsert-Represents list list_next [] t (h, e) once n =
    let there : (t == t) ≡ true = ground arith in
    let cut : ℕ → Option ℕ = update list_next t none in
    (record { head = some t; tail = some t }, cut, rw (e, h) refl, (refl, (rw there refl, refl)))
tlinsert-Represents list list_next (x ∷ xs) t (h, l) once n =
    let there : (t == t) ≡ true = ground arith in
    let (last, e) = tail_some list_next x xs list.tail l in
    let cut : ℕ → Option ℕ = update list_next t none in
    let kept : Linked cut x xs (some last) =
      subst (λ o. Linked cut x xs o) e (outside list_next t none x xs list.tail n l) in
    (
      record { head = some x; tail = some t },
      update cut last (some t),
      rw (e, h) (ap (λ o. some (record { head = o; tail = some t }, update cut last (some t))) h),
      (refl, link_end cut t x xs last n once kept (rw there refl)),
    )

-- On a linked list that stands for a queue of different threads that is not empty, tlremove
-- returns the thread at the front and leaves a list that stands for the rest.
pub tlremove-Represents :
    (list : ThreadList) (list_next : ℕ → Option ℕ) (x : ℕ) (xs : List ℕ)
    → Represents list list_next (x ∷ xs)
    → Once (x ∷ xs)
    → let (t, l, n) = tlremove list list_next in (t ≡ some x) × Represents l n xs
unfolding tlremove Represents Linked occurs
tlremove-Represents list list_next x [] (h, (e, l)) once = rw (h, tlremove, e) (refl, (refl, refl))
tlremove-Represents list list_next x (y ∷ ys) (h, (e, l)) once =
    rw (h, tlremove, e)
      (
        refl,
        (
          refl,
          outside list_next x none y ys list.tail (omega (arith, once x, occurs_self x (y ∷ ys))) l,
        ),
      )
