-- ===== src/Io/Transfer.antt =====
-- `iofill` and `iowrite`: short reads and short writes of the endpoint do not show.
use mathlib.Core.List.{append-nil, append_assoc}
use sp25_ece391_group.Base.{
  ℕ, zero, suc, ◌+◌, ◌-◌, ◌≤◌, ◌<◌, ◌≡◌, ◌≢◌, refl, sym, ap, ◌∙◌, inl, inr, false, some, List, [],
  ◌∷◌, ◌++◌, pos, Ret, ok, ◌==◌, leb, length, take, drop, arith, Bool-cases, take-append-drop,
  length-drop,
}
use sp25_ece391_group.Io.{Io, fill_after, fill_loop, iofill, write_after, write_loop, iowrite}

-- A read function that delivers a stream in pieces of its own choice: never more than asked for,
-- and nothing only at the end.
pub record IsSource {S : Type 0} (f : S → ℕ → Ret (List ℕ) × S) : Type 0 where
  pub stream : S → List ℕ
  pub piece : S → ℕ → List ℕ
  pub delivers : (s : S) (n : ℕ) → n ≢ 0 → (f s n).0 ≡ ok (piece s n)
  pub advances : (s : S) (n : ℕ) → n ≢ 0 → stream s ≡ piece s n ++ stream (f s n).1
  pub at_most : (s : S) (n : ℕ) → length (piece s n) ≤ n
  pub at_end : (s : S) (n : ℕ) → n ≢ 0 → piece s n ≡ [] → stream s ≡ []

-- A write function that accepts what it is given in pieces: at least one byte, and never more than
-- there are.
pub record IsSink {S : Type 0} (f : S → List ℕ → Ret ℕ × S) : Type 0 where
  pub received : S → List ℕ
  pub count : S → List ℕ → ℕ
  pub accepts : (s : S) (bs : List ℕ) → 0 < length bs → (f s bs).0 ≡ ok (count s bs)
  pub some_byte : (s : S) (bs : List ℕ) → 0 < length bs → 0 < count s bs
  pub at_most : (s : S) (bs : List ℕ) → count s bs ≤ length bs
  pub stores :
      (s : S) (bs : List ℕ)
      → 0 < length bs
      → received (f s bs).1 ≡ received s ++ take (count s bs) bs

take-append {ℓ} :
    {A : Type ℓ} (n : ℕ) (xs ys : List A)
    → length xs ≤ n
    → take n (xs ++ ys) ≡ xs ++ take (n - length xs) ys
take-append n [] ys h = ap (λ k. take k ys) (omega arith)
take-append zero (x ∷ xs) ys h = absurd (omega arith)
take-append (suc n) (x ∷ xs) ys h =
    ap (λ l. x ∷ l) (take-append n xs ys (omega arith))
    ∙ ap (λ k. x ∷ (xs ++ take k ys)) (omega arith)

drop-append {ℓ} :
    {A : Type ℓ} (n : ℕ) (xs ys : List A)
    → length xs ≤ n
    → drop n (xs ++ ys) ≡ drop (n - length xs) ys
drop-append n [] ys h = ap (λ k. drop k ys) (omega arith)
drop-append zero (x ∷ xs) ys h = absurd (omega arith)
drop-append (suc n) (x ∷ xs) ys h =
    drop-append n xs ys (omega arith) ∙ ap (λ k. drop k ys) (omega arith)

take_all {ℓ} : {A : Type ℓ} (n : ℕ) (xs : List A) → length xs ≤ n → take n xs ≡ xs
take_all zero [] h = refl
take_all zero (x ∷ xs) h = absurd (omega arith)
take_all (suc n) [] h = refl
take_all (suc n) (x ∷ xs) h = ap (λ l. x ∷ l) (take_all n xs (omega arith))

take-nil {ℓ} : {A : Type ℓ} (n : ℕ) → take {A = A} n [] ≡ []
take-nil zero = refl
take-nil (suc n) = refl

drop-nil {ℓ} : {A : Type ℓ} (n : ℕ) → drop {A = A} n [] ≡ []
drop-nil zero = refl
drop-nil (suc n) = refl

module _ {S : Type 0} (f : S → ℕ → Ret (List ℕ) × S) (src : IsSource f) where
  abbrev Filled : ℕ → List ℕ → S → Ret (List ℕ) × S → Type 0
  Filled want got s (r, s') =
      (r ≡ ok (got ++ take want (src.stream s))) × (src.stream s' ≡ drop want (src.stream s))

  fill_after-Filled :
      (rest : ℕ → List ℕ → S → Ret (List ℕ) × S) (want : ℕ) (got bs : List ℕ) (s t : S)
      → src.stream s ≡ bs ++ src.stream t
      → length bs ≤ want
      → (bs ≡ [] → src.stream s ≡ [])
      → ((k : ℕ) (acc : List ℕ) → k < want → Filled k acc t (rest k acc t))
      → 0 < want
      → Filled want got s (fill_after rest want got (ok bs, t))
  unfolding fill_after
  fill_after-Filled rest want got [] s t adv most end next h =
      let nothing : src.stream s ≡ [] = end refl in
      (
        ap ok (
            sym (
              ap (λ l. got ++ take want l) nothing
              ∙ ap (λ l. got ++ l) (take-nil want)
              ∙ append-nil got)),
        sym adv ∙ nothing ∙ sym (drop-nil want) ∙ ap (drop want) (sym nothing),
      )
  fill_after-Filled rest want got (b ∷ more) s t adv most end next h =
      let (r, left) = next (want - length (b ∷ more)) (got ++ (b ∷ more)) (omega arith) in
      (
        r
            ∙ ap ok (
                append_assoc got (b ∷ more) _
                ∙ ap (λ l. got ++ l)
                    (sym (take-append want (b ∷ more) (src.stream t) most)
                      ∙ ap (take want) (sym adv))),
        left ∙ sym (drop-append want (b ∷ more) (src.stream t) most) ∙ ap (drop want) (sym adv),
      )

  fill_loop-Filled :
      (fuel want : ℕ) (got : List ℕ) (s : S)
      → want ≤ fuel
      → Filled want got s (fill_loop f fuel want got s)
  unfolding fill_loop
  fill_loop-Filled zero zero got s h = (ap ok (sym (append-nil got)), refl)
  fill_loop-Filled (suc fuel) zero got s h = (ap ok (sym (append-nil got)), refl)
  fill_loop-Filled zero (suc want) got s h = absurd (omega arith)
  fill_loop-Filled (suc fuel) (suc want) got s h =
      let ne : suc want ≢ 0 = omega arith in
      let e : f s (suc want) ≡ (ok (src.piece s (suc want)), (f s (suc want)).1) =
        λ i. (src.delivers s (suc want) ne i, (f s (suc want)).1) in
      let z : (suc want == 0) ≡ false = ground arith in
      rw (z, e)
        (fill_after-Filled (fill_loop f fuel) (suc want) got (src.piece s (suc want)) s
          (f s (suc want)).1 (src.advances s (suc want) ne) (src.at_most s (suc want))
          (src.at_end s (suc want) ne)
          (λ k acc lt. fill_loop-Filled fuel k acc (f s (suc want)).1 (omega arith)) (omega arith))

  -- Over a read function that delivers a stream in pieces of any size, `iofill` returns the next
  -- `k` bytes of the stream, or all of it if there are fewer, and leaves the rest in the stream.
  pub iofill-take :
      (io : Io S) (k : ℕ)
      → io.intf.read ≡ some f
      → ((iofill io (pos k)).0 ≡ ok (take k (src.stream io.object)))
        × (src.stream (iofill io (pos k)).1.object ≡ drop k (src.stream io.object))
  unfolding iofill
  iofill-take io k e = rw e (fill_loop-Filled k k [] io.object (omega arith))

module _ {S : Type 0} (f : S → List ℕ → Ret ℕ × S) (snk : IsSink f) where
  abbrev Sent : List ℕ → ℕ → S → Ret ℕ × S → Type 0
  Sent left sent s (r, s') =
      (r ≡ ok (sent + length left)) × (snk.received s' ≡ snk.received s ++ left)

  write_loop-Sent :
      (fuel : ℕ) (left : List ℕ) (sent : ℕ) (s : S)
      → length left < fuel
      → 0 < length left
      → Sent left sent s (write_loop f fuel left sent s)
  unfolding write_loop write_after
  write_loop-Sent zero left sent s h p = absurd (omega arith)
  write_loop-Sent (suc fuel) left sent s h p =
      let n = snk.count s left in
      let t = (f s left).1 in
      let most : n ≤ length left = snk.at_most s left in
      let least : 0 < n = snk.some_byte s left p in
      let e : f s left ≡ (ok n, t) = λ i. (snk.accepts s left p i, (f s left).1) in
      let z : (n == 0) ≡ false = ground arith in
      rw (e, z)
        (elim (Bool-cases (leb (length left) n)) [
          | inl all ↦ rw all (
            ap ok (ground arith),
            snk.stores s left p ∙ ap (λ l. snk.received s ++ l) (take_all n left (ground arith)),
          )
          | inr part ↦ rw part (
              let (r, got) =
                write_loop-Sent fuel (drop n left) (sent + n) t (omega (arith, length-drop n left))
                  (ground (arith, length-drop n left)) in
              (
                r ∙ ap ok (omega (arith, length-drop n left)),
                got
                    ∙ ap (λ l. l ++ drop n left) (snk.stores s left p)
                    ∙ append_assoc (snk.received s) (take n left) (drop n left)
                    ∙ ap (λ l. snk.received s ++ l) (take-append-drop n left),
              ))
        ])

  -- Over a write function that accepts a piece of at least one byte of what it is given, `iowrite`
  -- of a buffer that is not empty writes all of it, in order, and returns its length.
  pub iowrite_all :
      (io : Io S) (bs : List ℕ)
      → io.intf.write ≡ some f
      → 0 < length bs
      → ((iowrite io (some bs)).0 ≡ ok (length bs))
        × (snk.received (iowrite io (some bs)).1.object ≡ snk.received io.object ++ bs)
  unfolding iowrite
  iowrite_all io bs e p =
      let (r, got) = write_loop-Sent (suc (length bs)) bs 0 io.object (omega arith) p in
      rw e (r ∙ ap ok (omega arith), got)
