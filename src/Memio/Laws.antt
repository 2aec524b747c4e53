-- ===== src/Memio/Laws.antt =====
-- What `memio_readat` and `memio_writeat` do to a block of memory: bounds, what is read back, and
-- what is left alone.
use sp25_ece391_group.Base.{
  ℕ, zero, suc, ◌+◌, ◌-◌, ◌≤◌, ◌<◌, ◌≡◌, refl, sym, ap, ◌∙◌, inl, inr, false, some, List, [], ◌∷◌,
  ◌++◌, pos, Ret, ok, leb, ltb, if◌then◌else◌, length, take, drop, get_elem?, min, arith,
  Bool-cases, length-append, length-take, length-drop,
}
use sp25_ece391_group.Memio.{Memio, memcpy_at, clamp, readat, writeat}

-- The buffer holds the block: what `create_memory_io` assumes of its caller.
pub record IsMemio (m : Memio) : Type 0 where
  pub whole : length m.buf ≡ m.size
  pub nonempty : 0 < m.size

module _ (dst : List ℕ) (p : ℕ) (src : List ℕ) (fits : p + length src ≤ length dst) where
  pub length-memcpy_at : length (memcpy_at dst p src) ≡ length dst
  unfolding memcpy_at
  length-memcpy_at = omega (
    arith,
    length-append (take p dst) (src ++ drop (p + length src) dst),
    length-append src (drop (p + length src) dst),
    length-take p dst,
    length-drop (p + length src) dst,
  )

pub get_elem?-append_left :
    (xs ys : List ℕ) (i : ℕ) → i < length xs → get_elem? (xs ++ ys) i ≡ get_elem? xs i
get_elem?-append_left [] ys i h = absurd (omega arith)
get_elem?-append_left (x ∷ xs) ys zero h = refl
get_elem?-append_left (x ∷ xs) ys (suc i) h = get_elem?-append_left xs ys i (omega arith)

pub get_elem?-append_right :
    (xs ys : List ℕ) (i : ℕ) → length xs ≤ i → get_elem? (xs ++ ys) i ≡ get_elem? ys (i - length xs)
get_elem?-append_right [] ys i h = ap (get_elem? ys) (omega arith)
get_elem?-append_right (x ∷ xs) ys zero h = absurd (omega arith)
get_elem?-append_right (x ∷ xs) ys (suc i) h =
    get_elem?-append_right xs ys i (omega arith) ∙ ap (get_elem? ys) (omega arith)

pub get_elem?-take : (xs : List ℕ) (n i : ℕ) → i < n → get_elem? (take n xs) i ≡ get_elem? xs i
get_elem?-take xs zero i h = absurd (omega arith)
get_elem?-take [] (suc n) i h = refl
get_elem?-take (x ∷ xs) (suc n) zero h = refl
get_elem?-take (x ∷ xs) (suc n) (suc i) h = get_elem?-take xs n i (omega arith)

pub get_elem?-drop : (xs : List ℕ) (n i : ℕ) → get_elem? (drop n xs) i ≡ get_elem? xs (n + i)
get_elem?-drop xs zero i = ap (get_elem? xs) (omega arith)
get_elem?-drop [] (suc n) i = refl
get_elem?-drop (x ∷ xs) (suc n) i =
    let e : suc (n + i) ≡ suc n + i = omega arith in
    get_elem?-drop xs n i ∙ ap (get_elem? (x ∷ xs)) e

-- A byte of the destination after the copy.
pub get_elem?-memcpy_at :
    (dst : List ℕ) (p : ℕ) (src : List ℕ) (i : ℕ)
    → p + length src ≤ length dst
    → get_elem? (memcpy_at dst p src) i ≡ (
        if ltb i p
        then get_elem? dst i
        else if ltb i (p + length src)
        then get_elem? src (i - p)
        else get_elem? dst i)
unfolding memcpy_at
get_elem?-memcpy_at dst p src i fits = elim (Bool-cases (ltb i p)) [
  | inl before ↦ rw before (
      get_elem?-append_left (take p dst) rest i (ground (arith, length-take p dst))
      ∙ get_elem?-take dst p i (ground arith))
  | inr after ↦ rw after (
      get_elem?-append_right (take p dst) rest i (ground (arith, length-take p dst))
      ∙ ap (get_elem? rest) (omega (arith, length-take p dst))
      ∙ within (ground arith))
]
  where
    rest : List ℕ
    rest = src ++ drop (p + length src) dst

    within :
        p ≤ i
        → get_elem? rest (i - p)
          ≡ (if ltb i (p + length src) then get_elem? src (i - p) else get_elem? dst i)
    within le = elim (Bool-cases (ltb i (p + length src))) [
      | inl inside ↦
          rw inside (get_elem?-append_left src (drop (p + length src) dst) (i - p) (ground arith))
      | inr past ↦ rw past (
          get_elem?-append_right src (drop (p + length src) dst) (i - p) (ground arith)
          ∙ get_elem?-drop dst (p + length src) (i - p - length src)
          ∙ ap (get_elem? dst) (ground arith))
    ]

-- What a write leaves: the count, the size, and each byte of the block.
pub record Wrote (m : Memio) (p : ℕ) (src : List ℕ) (r : Ret ℕ) (m' : Memio) : Type 0 where
  pub count : r ≡ ok (min (length src) (m.size - p))
  pub kept : IsMemio m' × (m'.size ≡ m.size)
  pub bytes :
      (i : ℕ)
      → get_elem? m'.buf i ≡ (
          if ltb i p
          then get_elem? m.buf i
          else if ltb i (p + min (length src) (m.size - p))
          then get_elem? src (i - p)
          else get_elem? m.buf i)

-- `memio_writeat` at a position before the end of a block that its buffer holds returns the number
-- of bytes that fit before the end. The block keeps its size, and then holds at each index the byte
-- written there or, outside the bytes written, the one that was there before.
pub writeat-Wrote :
    (m : Memio) (p : ℕ) (src : List ℕ)
    → IsMemio m
    → p < m.size
    → let (r, m') = writeat m p (some src) in Wrote m p src r m'
unfolding writeat clamp
writeat-Wrote m p src inv h =
    let a : leb m.size p ≡ false = ground arith in
    let n = clamp m.size p (length src) in
    let e : n ≡ min (length src) (m.size - p) = ground arith in
    let fits : p + length (take n src) ≤ length m.buf =
      omega (arith, length-take n src, inv.whole) in
    let l : length (take n src) ≡ n = omega (arith, length-take n src) in
    let prefix : (i : ℕ)
        → (if ltb i p
            then get_elem? m.buf i
            else if ltb i (p + length (take n src))
            then get_elem? (take n src) (i - p)
            else get_elem? m.buf i)
          ≡ (if ltb i p
              then get_elem? m.buf i
              else if ltb i (p + min (length src) (m.size - p))
              then get_elem? src (i - p)
              else get_elem? m.buf i) =
      λ i. ground (arith, get_elem?-take src n (i - p), l, e) in
    rw a (record {
      count = ap ok e;
      kept = (
        record {
          whole = length-memcpy_at m.buf p (take n src) fits ∙ inv.whole;
          nonempty = inv.nonempty;
        },
        refl,
      );
      bytes = λ i. get_elem?-memcpy_at m.buf p (take n src) i fits ∙ prefix i;
    })

readat-eq-take :
    (m : Memio) (p n : ℕ)
    → IsMemio m
    → readat m p (pos n) ≡ ok (take (min n (m.size - p)) (drop p m.buf))
unfolding readat clamp
readat-eq-take m p n inv = elim (Bool-cases (leb m.size p)) [
  | inl past ↦
      let z : min n (m.size - p) ≡ 0 = ground arith in
      rw past (ap (λ k. ok (take k (drop p m.buf))) (sym z))
  | inr here ↦ rw here (ap (λ k. ok (take k (drop p m.buf))) (ground arith))
]

drop-append_exact : (xs ys : List ℕ) (n : ℕ) → length xs ≡ n → drop n (xs ++ ys) ≡ ys
drop-append_exact [] ys n e = ap (λ k. drop k ys) (sym e)
drop-append_exact (x ∷ xs) ys zero e = absurd (omega arith)
drop-append_exact (x ∷ xs) ys (suc n) e = drop-append_exact xs ys n (omega arith)

take-append_exact : (xs ys : List ℕ) (n : ℕ) → length xs ≡ n → take n (xs ++ ys) ≡ xs
take-append_exact [] ys n e = ap (λ k. take k ys) (sym e)
take-append_exact (x ∷ xs) ys zero e = absurd (omega arith)
take-append_exact (x ∷ xs) ys (suc n) e = ap (λ l. x ∷ l) (take-append_exact xs ys n (omega arith))

take-min-length : (xs : List ℕ) (k : ℕ) → take (min (length xs) k) xs ≡ take k xs
take-min-length [] k = take_nil (min 0 k) ∙ sym (take_nil k)
  where
    take_nil : (n : ℕ) → take {A = ℕ} n [] ≡ []
    take_nil zero = refl
    take_nil (suc n) = refl
take-min-length (x ∷ xs) zero =
    let e : min (suc (length xs)) 0 ≡ 0 = omega arith in ap (λ n. take n (x ∷ xs)) e
take-min-length (x ∷ xs) (suc k) =
    let e : min (suc (length xs)) (suc k) ≡ suc (min (length xs) k) = omega arith in
    ap (λ n. take n (x ∷ xs)) e ∙ ap (λ l. x ∷ l) (take-min-length xs k)

-- Reading at the position and for the length of a write to a block that its buffer holds returns
-- the bytes that were written: the whole buffer, or as much of it as lay before the end.
pub readat-writeat :
    (m : Memio) (p : ℕ) (src : List ℕ)
    → IsMemio m
    → p < m.size
    → readat (writeat m p (some src)).1 p (pos (length src)) ≡ ok (take (m.size - p) src)
unfolding writeat clamp memcpy_at
readat-writeat m p src inv h =
    let a : leb m.size p ≡ false = ground arith in
    let n = clamp m.size p (length src) in
    let e : n ≡ min (length src) (m.size - p) = ground arith in
    let l : length (take n src) ≡ n = omega (arith, length-take n src) in
    let front : length (take p m.buf) ≡ p = omega (arith, length-take p m.buf, inv.whole) in
    let back = drop (p + length (take n src)) m.buf in
    let fits : p + length (take n src) ≤ length m.buf = omega (arith, inv.whole) in
    rw a (
      readat-eq-take (record m { buf = memcpy_at m.buf p (take n src) }) p (length src)
        (record {
          whole = length-memcpy_at m.buf p (take n src) fits ∙ inv.whole;
          nonempty = inv.nonempty;
        })
      ∙ ap ok (
          ap (take (min (length src) (m.size - p)))
            (drop-append_exact (take p m.buf) (take n src ++ back) p front)
          ∙ take-append_exact (take n src) back (min (length src) (m.size - p)) (l ∙ e)
          ∙ ap (λ k. take k src) e
          ∙ take-min-length src (m.size - p)))
