-- ===== src/Strings/Compare.antt =====
-- `strcmp` tells strings apart, and a bounded output is cut at its bound.
use sp25_ece391_group.Base.{
  ℕ, zero, suc, ◌-◌, ◌<◌, ◌≤◌, length, get_or, drop, ◌≡◌, ◌↔◌, refl, sym, ap, ap₂, ◌∙◌, inl, inr,
  true, false, some, List, [], ◌∷◌, ◌==◌, ltb, leb, take, arith, Bool-cases, pos, negsuc,
}
use sp25_ece391_group.Strings.{strcmp_from, strcmp, put_all, memcmp, difference}

-- No character of a string is the zero that ends it.
abbrev pub IsText : List ℕ → Type 0
IsText [] = Unit
IsText (c ∷ cs) = (0 < c) × IsText cs

before : negsuc 0 ≡ pos 0 → ⊥
before e = ground arith

behind : pos 1 ≡ pos 0 → ⊥
behind e = ground arith

strcmp_from-eq : (s t : List ℕ) → IsText s → IsText t → strcmp_from s t ≡ pos 0 → s ≡ t
unfolding strcmp_from
strcmp_from-eq [] [] h k e = refl
strcmp_from-eq [] (d ∷ ds) h (k, ks) e = ground arith
strcmp_from-eq (c ∷ cs) [] (h, hs) k e = ground arith
strcmp_from-eq (c ∷ cs) (d ∷ ds) (h, hs) (k, ks) e = elim (Bool-cases (c == d)) [
  | inl at ↦ ap₂ ◌∷◌ (ground arith) (strcmp_from-eq cs ds hs ks (rw at at e))
  | inr ne ↦ elim (Bool-cases (ltb c d)) [
    | inl lt ↦ absurd (before (rw (ne, lt) at e))
    | inr gt ↦ absurd (behind (rw (ne, gt) at e))
  ]
]

pub strcmp_from_self : (s : List ℕ) → strcmp_from s s ≡ pos 0
unfolding strcmp_from
strcmp_from_self [] = refl
strcmp_from_self (c ∷ cs) =
    let same : (c == c) ≡ true = ground arith in rw (same, strcmp_from_self cs) refl

-- strcmp of two strings, with no zero among their characters, is 0 if and only if they are the
-- same.
pub strcmp_lem : (s t : List ℕ) → IsText s → IsText t → (strcmp (some s) (some t) ≡ pos 0) ↔ (s ≡ t)
unfolding strcmp
strcmp_lem s t h k = (strcmp_from-eq s t h k, λ e. ap (strcmp_from s) (sym e) ∙ strcmp_from_self s)

take_nil : (n : ℕ) → take {A = ℕ} n [] ≡ []
take_nil zero = refl
take_nil (suc n) = refl

-- What vsnprintf_putc puts into a buffer of rem bytes is the text up to its first rem - 1
-- characters.
pub put_all-take : (rem : ℕ) (cs : List ℕ) → put_all rem cs ≡ take (rem - 1) cs
unfolding put_all
put_all-take rem [] = sym (take_nil (rem - 1))
put_all-take zero (c ∷ cs) = refl
put_all-take (suc zero) (c ∷ cs) = refl
put_all-take (suc (suc n)) (c ∷ cs) =
    let room : leb (suc (suc n)) 1 ≡ false = ground arith in
    let less : suc (suc n) - 1 ≡ suc n = omega arith in
    let again : put_all (suc n) cs ≡ take n cs =
      put_all-take (suc n) cs ∙ ap (λ k. take k cs) (omega arith) in
    rw (room, less) (ap (λ l. c ∷ l) again)

difference-zero : (a b : ℕ) → (a == b) ≡ false → difference a b ≡ pos 0 → ⊥
unfolding difference
difference-zero a b ne e = elim (Bool-cases (leb b a)) [
  | inl le ↦ let same : pos (a - b) ≡ pos 0 = rw le at e in ground arith
  | inr gt ↦ let same : negsuc (b - a - 1) ≡ pos 0 = rw gt at e in ground arith
]

memcmp-eq :
    (n : ℕ) (u v : List ℕ)
    → n ≤ length u
    → n ≤ length v
    → memcmp n u v ≡ pos 0
    → take n u ≡ take n v
unfolding memcmp
memcmp-eq zero u v h k e = refl
memcmp-eq (suc n) [] v h k e = ground arith
memcmp-eq (suc n) (a ∷ al) [] h k e = ground arith
memcmp-eq (suc n) (a ∷ al) (b ∷ bs) h k e = elim (Bool-cases (a == b)) [
  | inl at ↦ ap₂ ◌∷◌ (ground arith) (memcmp-eq n al bs (omega arith) (omega arith) (rw at at e))
  | inr ne ↦ absurd (difference-zero a b ne (rw ne at e))
]

memcmp-take :
    (n : ℕ) (u v : List ℕ)
    → n ≤ length u
    → n ≤ length v
    → take n u ≡ take n v
    → memcmp n u v ≡ pos 0
unfolding memcmp
memcmp-take zero u v h k e = refl
memcmp-take (suc n) [] v h k e = ground arith
memcmp-take (suc n) (a ∷ al) [] h k e = ground arith
memcmp-take (suc n) (a ∷ al) (b ∷ bs) h k e =
    let heads : a ≡ b = ap (λ l. get_or l 0 0) e in
    let same : (a == b) ≡ true = ground arith in
    rw same (memcmp-take n al bs (omega arith) (omega arith) (ap (λ l. drop 1 l) e))

-- memcmp of n bytes of two buffers that have as many is 0 if and only if the first n bytes are
-- the same.
memcmp_lem :
    (n : ℕ) (u v : List ℕ)
    → n ≤ length u
    → n ≤ length v
    → (memcmp n u v ≡ pos 0) ↔ (take n u ≡ take n v)
memcmp_lem n u v h k = (memcmp-eq n u v h k, memcmp-take n u v h k)
