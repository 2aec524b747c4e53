-- ===== src/Ktfs/Inodes/Bits.antt =====
-- The bits of a byte, and of a block of the bitmap.
use sp25_ece391_group.Base.{
  ℕ, zero, suc, ◌+◌, ◌-◌, ◌*◌, ◌/◌, ◌%◌, ◌^◌, ◌≤◌, ◌<◌, ◌≡◌, ◌≢◌, refl, sym, ap, ◌∙◌, inl, inr,
  false, List, [], ◌∷◌, get_or, set, length, ◌==◌, if◌then◌else◌, arith, Bool-cases, length-set,
}
use native.Mathlib.Nat.{div-div-eq-div-mul}
use native.Mathlib.Numerals.{unary_clauses}
use sp25_ece391_group.Ktfs.Inodes.{bit_of, set_bit, clear_bit}

pow-suc : (k : ℕ) → 2 ^ suc k ≡ 2 * 2 ^ k
pow-suc k = simp unary_clauses (omega arith)

-- A higher bit of a number is a bit of its half.
half : (x k : ℕ) → x / 2 ^ suc k % 2 ≡ x / 2 / 2 ^ k % 2
half x k =
    ap (λ (d : ℕ). x / d % 2) (pow-suc k)
    ∙ ap (λ (q : ℕ). q % 2) (sym (div-div-eq-div-mul x 2 (2 ^ k)))

suc_eq : (j k : ℕ) → (suc j == suc k) ≡ (j == k)
suc_eq j k = ground arith

pub add_bit :
    (k j x : ℕ)
    → x / 2 ^ k % 2 ≡ 0
    → (x + 2 ^ k) / 2 ^ j % 2 ≡ (if j == k then 1 else x / 2 ^ j % 2)
add_bit zero zero x h = omega arith
add_bit zero (suc j) x h =
    let e : (x + 2 ^ 0) / 2 ≡ x / 2 = omega arith in
    let ne : (suc j == 0) ≡ false = ground arith in
    rw ne (half (x + 2 ^ 0) j ∙ ap (λ (y : ℕ). y / 2 ^ j % 2) e ∙ sym (half x j))
add_bit (suc k) zero x h =
    let ne : (0 == suc k) ≡ false = ground arith in rw ne (omega (arith, pow-suc k))
add_bit (suc k) (suc j) x h =
    let e : (x + 2 ^ suc k) / 2 ≡ x / 2 + 2 ^ k =
      ap (λ (p : ℕ). (x + p) / 2) (pow-suc k) ∙ omega arith in
    rw (suc_eq j k, half x j)
      (half (x + 2 ^ suc k) j
        ∙ ap (λ (y : ℕ). y / 2 ^ j % 2) e
        ∙ add_bit k j (x / 2) (sym (half x k) ∙ h))

le_of_bit : (k x : ℕ) → x / 2 ^ k % 2 ≡ 1 → 2 ^ k ≤ x
le_of_bit zero x h = omega arith
le_of_bit (suc k) x h = omega (arith, le_of_bit k (x / 2) (sym (half x k) ∙ h), pow-suc k)

pub sub_bit :
    (k j x : ℕ)
    → x / 2 ^ k % 2 ≡ 1
    → (x - 2 ^ k) / 2 ^ j % 2 ≡ (if j == k then 0 else x / 2 ^ j % 2)
sub_bit zero zero x h = omega arith
sub_bit zero (suc j) x h =
    let e : (x - 2 ^ 0) / 2 ≡ x / 2 = omega arith in
    let ne : (suc j == 0) ≡ false = ground arith in
    rw ne (half (x - 2 ^ 0) j ∙ ap (λ (y : ℕ). y / 2 ^ j % 2) e ∙ sym (half x j))
sub_bit (suc k) zero x h =
    let ne : (0 == suc k) ≡ false = ground arith in
    rw ne (omega (arith, pow-suc k, le_of_bit (suc k) x h))
sub_bit (suc k) (suc j) x h =
    let e : (x - 2 ^ suc k) / 2 ≡ x / 2 - 2 ^ k =
      ap (λ (p : ℕ). (x - p) / 2) (pow-suc k) ∙ omega arith in
    rw (suc_eq j k, half x j)
      (half (x - 2 ^ suc k) j
        ∙ ap (λ (y : ℕ). y / 2 ^ j % 2) e
        ∙ sub_bit k j (x / 2) (sym (half x k) ∙ h))

get_or-set :
    (bs : List ℕ) (i j v : ℕ)
    → i < length bs
    → get_or (set bs i v) j 0 ≡ (if j == i then v else get_or bs j 0)
get_or-set [] i j v h = absurd (omega arith)
get_or-set (b ∷ bs) zero zero v h = refl
get_or-set (b ∷ bs) zero (suc j) v h = let ne : (suc j == 0) ≡ false = ground arith in rw ne refl
get_or-set (b ∷ bs) (suc i) zero v h = let ne : (0 == suc i) ≡ false = ground arith in rw ne refl
get_or-set (b ∷ bs) (suc i) (suc j) v h = rw (suc_eq j i) (get_or-set bs i j v (omega arith))

-- The bits of a block in which one byte has become `v`, if `v` has bit `k` changed to `w`.
bit_of-set :
    (bs : List ℕ) (off j v w : ℕ)
    → off / 8 < length bs
    → ((m : ℕ) → v / 2 ^ m % 2 ≡ (if m == off % 8 then w else get_or bs (off / 8) 0 / 2 ^ m % 2))
    → bit_of (set bs (off / 8) v) j ≡ (if j == off then w else bit_of bs j)
unfolding bit_of
bit_of-set bs off j v w fits bits =
    ap (λ (b : ℕ). b / 2 ^ (j % 8) % 2) (get_or-set bs (off / 8) (j / 8) v fits)
    ∙ elim (Bool-cases (j / 8 == off / 8)) [
      | inl hit ↦
          let e : j / 8 ≡ off / 8 = ground arith in
          let q : (j % 8 == off % 8) ≡ (j == off) = same_place e in
          rw (hit, sym q, e) (bits (j % 8))
      | inr miss ↦ let q : (j == off) ≡ false = ground arith in rw (miss, q) refl
    ]
  where
    same_place : j / 8 ≡ off / 8 → (j % 8 == off % 8) ≡ (j == off)
    same_place e = elim (Bool-cases (j == off)) [
      | inl same ↦ rw same (ground arith)
      | inr miss ↦
          let ne : j ≢ off = ground arith in
          let ne' : j % 8 ≢ off % 8 = λ q. ne (omega arith) in rw miss (ground arith)
    ]

bit-cases : (x : ℕ) → (x % 2 == 0) ≡ false → x % 2 ≡ 1
bit-cases x h = ground arith

-- A set or cleared bit, and the other bits of the block.
pub bit_of-set_bit :
    (bs : List ℕ) (off j : ℕ)
    → off / 8 < length bs
    → bit_of (set_bit bs off) j ≡ (if j == off then 1 else bit_of bs j)
unfolding set_bit
bit_of-set_bit bs off j fits = elim (Bool-cases (bit_of bs off == 0)) [
  | inl clear ↦
      let z : bit_of bs off ≡ 0 = ground arith in
      rw clear (
        bit_of-set bs off j (get_or bs (off / 8) 0 + 2 ^ (off % 8)) 1 fits
          (λ m. add_bit (off % 8) m (get_or bs (off / 8) 0) (unfold bit_of in z)))
  | inr is_set ↦
      let z : bit_of bs off ≡ 1 =
        unfold bit_of in bit-cases (get_or bs (off / 8) 0 / 2 ^ (off % 8)) is_set in
      rw is_set (elim (Bool-cases (j == off)) [
        | inl hit ↦ let e : j ≡ off = ground arith in rw (hit, e) z
        | inr miss ↦ rw miss refl
      ])
]

pub bit_of-clear_bit :
    (bs : List ℕ) (off j : ℕ)
    → off / 8 < length bs
    → bit_of (clear_bit bs off) j ≡ (if j == off then 0 else bit_of bs j)
unfolding clear_bit
bit_of-clear_bit bs off j fits = elim (Bool-cases (bit_of bs off == 0)) [
  | inl clear ↦
      let z : bit_of bs off ≡ 0 = ground arith in
      rw clear (elim (Bool-cases (j == off)) [
        | inl hit ↦ let e : j ≡ off = ground arith in rw (hit, e) z
        | inr miss ↦ rw miss refl
      ])
  | inr is_set ↦ rw is_set (
      bit_of-set bs off j (get_or bs (off / 8) 0 - 2 ^ (off % 8)) 0 fits (λ m.
        sub_bit (off % 8) m (get_or bs (off / 8) 0)
          (unfold bit_of in bit-cases (get_or bs (off / 8) 0 / 2 ^ (off % 8)) is_set)))
]

pub length-set_bit : (bs : List ℕ) (off : ℕ) → length (set_bit bs off) ≡ length bs
unfolding set_bit
length-set_bit bs off = elim (Bool-cases (bit_of bs off == 0)) [
  | inl c ↦ rw c (length-set bs (off / 8) (get_or bs (off / 8) 0 + 2 ^ (off % 8)))
  | inr c ↦ rw c refl
]
