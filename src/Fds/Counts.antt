-- ===== src/Fds/Counts.antt =====
-- No object that a descriptor names has been closed, and the references cover the descriptors.
use sp25_ece391_group.Base.{
  ℕ, zero, suc, ◌+◌, ◌-◌, ◌≤◌, ◌<◌, ◌≡◌, refl, ◌∙◌, inl, inr, Bool, true, false, Option, none, some,
  List, [], ◌∷◌, ◌==◌, if◌then◌else◌, arith, Bool-cases, length, set, get_or, length-set,
}
use sp25_ece391_group.Fds.{process_iomax, Files, write, slot, set_slot, free_fd}

-- How many descriptors name the object.
unfoldable pub is_io : ℕ → Option ℕ → ℕ
is_io io none = 0
is_io io (some j) = if io == j then 1 else 0

unfoldable pub uses : ℕ → List (Option ℕ) → ℕ
unfolding is_io
uses io [] = 0
uses io (o ∷ os) = is_io io o + uses io os

pub uses_slot :
    (io : ℕ) (xs : List (Option ℕ)) (i : ℕ) → get_or xs i none ≡ some io → 1 ≤ uses io xs
unfolding uses
uses_slot io [] i h = ground arith
uses_slot io (x ∷ xs) zero h =
    let there : (io == io) ≡ true = ground arith in
    let one : is_io io x ≡ 1 = rw (h, there) refl in omega (arith, one)
uses_slot io (x ∷ xs) (suc i) h = omega (arith, uses_slot io xs i h)

-- The references to an object, but none to one whose close has run.
unfoldable pub live : (ℕ → ℕ) → (ℕ → Bool) → ℕ → ℕ
live refcnt closed io = if closed io then 0 else refcnt io

unfoldable pub IsSafe : Files → Type 0
unfolding uses live
IsSafe f =
    (length f.iotab ≡ process_iomax) × ((io : ℕ) → uses io f.iotab ≤ live f.refcnt f.closed io)

-- An object that a descriptor names has references, and has not been closed.
pub used_live :
    (f : Files) (i io : ℕ)
    → IsSafe f
    → slot f i ≡ some io
    → (1 ≤ f.refcnt io) × (f.closed io ≡ false)
unfolding IsSafe live
used_live f i io h e = elim (Bool-cases (f.closed io)) [
  | inl c ↦
      let no : 1 ≤ 0 = omega (arith, uses_slot io f.iotab i e, rw c at (h.1 io)) in ground arith
  | inr o ↦ (omega (arith, uses_slot io f.iotab i e, rw o at (h.1 io)), o)
]

pub uses-set :
    (io : ℕ) (xs : List (Option ℕ)) (i : ℕ) (o : Option ℕ)
    → i < length xs
    → uses io (set xs i o) + is_io io (get_or xs i none) ≡ uses io xs + is_io io o
unfolding uses
uses-set io [] i o h = elim h [ ]
uses-set io (x ∷ xs) zero o h = omega arith
uses-set io (x ∷ xs) (suc i) o h = omega (arith, uses-set io xs i o (omega arith))

pub free_fd-none :
    (skip : Option ℕ) (i : ℕ) (xs : List (Option ℕ)) {n : ℕ}
    → free_fd skip i xs ≡ some n
    → (i ≤ n) × (n < i + length xs) × (get_or xs (n - i) none ≡ none)
unfolding free_fd
free_fd-none skip i [] h = ground arith
free_fd-none skip i (some io ∷ xs) {n = n} h =
    let (a, b, c) = free_fd-none skip (i + 1) xs h in
    let at : n - i ≡ suc (n - (i + 1)) = omega arith in (omega arith, omega arith, rw at c)
free_fd-none none i (none ∷ xs) {n = n} h =
    let at : i ≡ n = ground arith in
    let z : n - i ≡ 0 = omega arith in (omega arith, omega arith, rw z refl)
free_fd-none (some k) i (none ∷ xs) {n = n} h = elim (Bool-cases (i == k)) [
  | inl e ↦
      let (a, b, c) = free_fd-none (some k) (i + 1) xs (rw e at h) in
      let at : n - i ≡ suc (n - (i + 1)) = omega arith in (omega arith, omega arith, rw at c)
  | inr e ↦
      let found : some i ≡ some n = rw e at h in
      let at : i ≡ n = ground arith in
      let z : n - i ≡ 0 = omega arith in (omega arith, omega arith, rw z refl)
]

pub free_fd-slot :
    (skip : Option ℕ) (xs : List (Option ℕ)) {n : ℕ}
    → free_fd skip 0 xs ≡ some n
    → (n < length xs) × (get_or xs n none ≡ none)
free_fd-slot skip xs {n = n} h =
    let (a, b, c) = free_fd-none skip 0 xs h in
    let at : n - 0 ≡ n = omega arith in (omega arith, rw at at c)

pub free_fd-skip :
    (k i : ℕ) (xs : List (Option ℕ)) {n : ℕ} → free_fd (some k) i xs ≡ some n → (k == n) ≡ false
unfolding free_fd
free_fd-skip k i [] h = ground arith
free_fd-skip k i (some io ∷ xs) h = free_fd-skip k (i + 1) xs h
free_fd-skip k i (none ∷ xs) {n = n} h = elim (Bool-cases (i == k)) [
  | inl e ↦ free_fd-skip k (i + 1) xs (rw e at h)
  | inr e ↦ let found : some i ≡ some n = rw e at h in let at : i ≡ n = ground arith in ground arith
]

pub get_or-set_ne :
    (xs : List (Option ℕ)) (i j : ℕ) (o : Option ℕ)
    → (i == j) ≡ false
    → get_or (set xs i o) j none ≡ get_or xs j none
get_or-set_ne [] i j o h = refl
get_or-set_ne (x ∷ xs) zero zero o h = ground arith
get_or-set_ne (x ∷ xs) zero (suc j) o h = refl
get_or-set_ne (x ∷ xs) (suc i) zero o h = refl
get_or-set_ne (x ∷ xs) (suc i) (suc j) o h = get_or-set_ne xs i j o (ground arith)

pub is_io_self : (io : ℕ) → is_io io (some io) ≡ 1
unfolding is_io
is_io_self io = ground arith

-- A write to the table that the counts allow.
pub write-IsSafe :
    (f : Files) (i : ℕ) (o : Option ℕ) (refcnt : ℕ → ℕ) (closed : ℕ → Bool)
    → IsSafe f
    → i < process_iomax
    → ((j : ℕ) → uses j f.iotab + is_io j o ≤ live refcnt closed j + is_io j (slot f i))
    → IsSafe (record { iotab = set f.iotab i o; refcnt = refcnt; closed = closed })
unfolding IsSafe
write-IsSafe f i o refcnt closed (l, h) b k =
    (length-set f.iotab i o ∙ l, λ j. omega (arith, uses-set j f.iotab i o (omega (arith, l)), k j))

-- The counts change for one object, to one that covers its descriptors.
pub recount-IsSafe :
    (f : Files) (io n : ℕ) (c : Bool)
    → IsSafe f
    → uses io f.iotab ≤ (if c then 0 else n)
    → IsSafe (record f { refcnt = write f.refcnt io n; closed = write f.closed io c })
unfolding IsSafe live
recount-IsSafe f io n c (l, h) k = (
  l,
  λ j. elim (Bool-cases (j == io)) [
    | inl e ↦ let at : j ≡ io = ground arith in rw (e, at) k
    | inr e ↦ rw e (h j)
  ],
)

-- An object without descriptors may have any count.
pub unused-IsSafe :
    (f : Files) (io n : ℕ) (c : Bool)
    → IsSafe f
    → uses io f.iotab ≤ 0
    → IsSafe (record f { refcnt = write f.refcnt io n; closed = write f.closed io c })
unused-IsSafe f io n true h z = recount-IsSafe f io n true h z
unused-IsSafe f io n false h z = recount-IsSafe f io n false h (omega (arith, z))

pub uses_covered : (f : Files) (io : ℕ) → IsSafe f → uses io f.iotab ≤ f.refcnt io
unfolding IsSafe live
uses_covered f io h = elim (Bool-cases (f.closed io)) [
  | inl c ↦ omega (arith, rw c at (h.1 io))
  | inr o ↦ rw o at (h.1 io)
]

-- An object without references has no descriptors.
pub uses_none : (f : Files) (io : ℕ) → IsSafe f → f.refcnt io ≡ 0 → uses io f.iotab ≤ 0
uses_none f io h z = omega (arith, uses_covered f io h)

-- A NULL slot gets an object with a reference to spare.
pub fill-IsSafe :
    (f : Files) (i io : ℕ)
    → IsSafe f
    → i < process_iomax
    → slot f i ≡ none
    → uses io f.iotab + 1 ≤ live f.refcnt f.closed io
    → IsSafe (set_slot i (some io) f)
unfolding IsSafe is_io
fill-IsSafe f i io (l, h) b free spare =
    write-IsSafe f i (some io) f.refcnt f.closed (l, h) b
      (λ j. rw free (elim (Bool-cases (j == io)) [
        | inl e ↦ let at : j ≡ io = ground arith in rw (e, at) (omega (arith, spare))
        | inr e ↦ rw e (omega (arith, h j))
      ]))
