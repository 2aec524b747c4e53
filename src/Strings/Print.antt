-- ===== src/Strings/Print.antt =====
-- `strtoul` reads back what `format_int` prints.
use sp25_ece391_group.Base.{
  ℕ, zero, suc, ◌+◌, ◌-◌, ◌*◌, ◌/◌, ◌%◌, ◌^◌, ◌<◌, ◌≡◌, refl, ap, ◌∙◌, inl, inr, Bool, true, false,
  ◌||◌, some, List, [], ◌∷◌, ◌++◌, ◌==◌, length, ltb, leb, arith, Bool-cases,
}
use native.Mathlib.Nat.{pow-suc}
use sp25_ece391_group.Strings.{scan, strtoul_signed, strtoul, digit, digits, padded, format_int}

-- Characters that are all read are read before what follows.
scan-append :
    (base : ℕ) (xs ys : List ℕ) (val w : ℕ)
    → scan base val xs ≡ (w, [])
    → scan base val (xs ++ ys) ≡ scan base w ys
unfolding scan
scan-append base [] ys val w h = ap (λ v. scan base v ys) (ap (λ p. p.0) h)
scan-append base (c ∷ cs) ys val w h = elim (Bool-cases (ltb c 48 || leb (48 + base) c)) [
  | inl e ↦ let left_over : c ∷ cs ≡ [] = ap (λ p. p.1) (rw e at h) in ground arith
  | inr e ↦ rw e (scan-append base cs ys ((val * base % 2 ^ 64 + (c - 48)) % 2 ^ 64) w (rw e at h))
]

scan-digit : (q d : ℕ) → q * 10 + d < 2 ^ 64 → d < 10 → scan 10 q (digit d ∷ []) ≡ (q * 10 + d, [])
unfolding scan digit
scan-digit q d h k =
    let small : ltb d 10 ≡ true = ground arith in
    let inside : (ltb (48 + d) 48 || leb (48 + 10) (48 + d)) ≡ false = ground arith in
    let value : (q * 10 % 2 ^ 64 + (48 + d - 48)) % 2 ^ 64 ≡ q * 10 + d = omega arith in
    rw (small, inside, value) refl

-- A number below 10 has one digit.
one_digit : (val : ℕ) → val / 10 ≡ 0 → val < 2 ^ 64 → scan 10 0 (digit (val % 10) ∷ []) ≡ (val, [])
one_digit val h k =
    scan-digit 0 (val % 10) (omega arith) (omega arith) ∙ ap (λ v. (v, [])) (omega arith)

-- The digits of a number below 10 ^ suc n fit, and are read back.
digits-scan :
    (n val : ℕ)
    → val < 10 ^ suc n
    → val < 2 ^ 64
    → (ds : List ℕ) × (digits (suc n) 10 val ≡ some ds) × (scan 10 0 ds ≡ (val, []))
unfolding digits
digits-scan zero val h k =
    let one : (val / 10 == 0) ≡ true = ground arith in
    (digit (val % 10) ∷ [], rw one refl, one_digit val (omega arith) k)
digits-scan (suc n) val h k = elim (Bool-cases (val / 10 == 0)) [
  | inl e ↦ (digit (val % 10) ∷ [], rw e refl, one_digit val (ground arith) k)
  | inr e ↦
      let q : ℕ = val / 10 in
      let p : 10 ^ suc (suc n) ≡ 10 ^ suc n * 10 = pow-suc 10 (suc n) in
      let below : q < 10 ^ suc n = omega (arith, p, h) in
      let (ds, fit, read) = digits-scan n q below (omega arith) in
      let whole : q * 10 + val % 10 ≡ val = omega arith in
      (
        ds ++ digit (val % 10) ∷ [],
        rw (e, fit) refl,
        scan-append 10 ds (digit (val % 10) ∷ []) 0 q read
            ∙ scan-digit q (val % 10) (omega arith) (omega arith)
            ∙ ap (λ v. (v, [])) whole,
      )
]

-- What is read as a number has no sign in front.
unsigned_lem : (ds : List ℕ) (val : ℕ) → scan 10 0 ds ≡ (val, []) → strtoul_signed 10 ds ≡ (val, [])
unfolding strtoul_signed scan
unsigned_lem [] val h = h
unsigned_lem (c ∷ cs) val h = elim (Bool-cases (ltb c 48 || leb (48 + 10) c)) [
  | inl e ↦ let left_over : c ∷ cs ≡ [] = ap (λ p. p.1) (rw e at h) in ground arith
  | inr e ↦
      let minus : (c == 45) ≡ false = ground arith in
      let plus : (c == 43) ≡ false = ground arith in rw (minus, plus) h
]

-- For every unsigned 64-bit number, the buffer of format_int is large enough for its digits in
-- base 10, and strtoul in base 10 reads back what format_int prints with no padding, to the last
-- character.
pub strtoul-format_int :
    (val : ℕ) (zpad : Bool)
    → val < 2 ^ 64
    → (ds : List ℕ) × (format_int val 10 zpad 0 ≡ some ds) × (strtoul (some ds) 10 ≡ (val, some []))
unfolding format_int strtoul strtoul_signed
strtoul-format_int val zpad h =
    let (ds, fit, read) = digits-scan 39 val (omega arith) h in
    let none_to_pad : 0 - length ds ≡ 0 = omega arith in
    (
      ds,
      ap (padded zpad 0) fit ∙ rw none_to_pad refl,
      ap (λ p. (p.0, some p.1)) (unsigned_lem ds val read),
    )
