-- ===== src/Vm/Copies.antt =====
-- What the loop of `clone_ptab` does to a table whose valid entries are all global.
use sp25_ece391_group.Base.{
  ℕ, zero, suc, ◌+◌, ◌<◌, ◌≡◌, ◌≢◌, refl, sym, ap, subst, ◌∙◌, inl, inr, Bool, true, false, ◌&&◌,
  Ret, ◌==◌, ltb, leb, if◌then◌else◌, arith, Bool-cases,
}
use sp25_ece391_group.Exec.{Exec, Post, pure, continue, weaken-Post}
use sp25_ece391_group.Vm.{Pte, Memory, set_pte, get_pte}
use sp25_ece391_group.Vm.Spaces.{skipped}
use sp25_ece391_group.Vm.Clone.{clone_entry, clone_entries}

-- What the loop of `clone_ptab` leaves, from entry `i` on: each valid entry is copied as it is.
pub record Copied (root new i n : ℕ) (m t : Memory) : Type 0 where
  pub asid : t.next_asid ≡ m.next_asid
  pub others : (q j : ℕ) → q ≢ new → t.tables q j ≡ m.tables q j
  pub copies :
      (j : ℕ)
      → t.tables new j ≡ (
          if (leb i j && ltb j (i + n)) && (m.tables root j).flags.v
          then m.tables root j
          else m.tables new j)

abbrev pub DoneWith : (Memory → Type 0) → Ret (Unit {0}) × Memory → Type 0
DoneWith P r = Post (λ u t. P t) (λ t. ⊥) r

clone_entry-global :
    (clone : ℕ → Exec Memory ℕ) (large : Bool) (i new : ℕ) (p : Pte) (m : Memory)
    → skipped p ≡ true
    → clone_entry clone large i new p m ≡ ((if p.flags.v then set_pte new i p else pure tt) m)
unfolding clone_entry
clone_entry-global clone large i new p m h = elim (Bool-cases p.flags.v) [
  | inl v ↦ let g : p.flags.g ≡ true = ground arith in rw (v, g) refl
  | inr no_v ↦ rw no_v refl
]

-- The entries that the loop has seen, and one more; `val` says which are valid.
module _ (f g : ℕ → Pte) (val : ℕ → Bool) (i n j : ℕ) where
  copies_put :
      val i ≡ true
      → (if (leb (i + 1) j && ltb j (i + 1 + n)) && val j then f j else if j == i then f i else g j)
        ≡ (if (leb i j && ltb j (i + suc n)) && val j then f j else g j)
  copies_put v = elim (Bool-cases (j == i)) [
    | inl hit ↦
        let e : j ≡ i = ground arith in
        let t : (leb (i + 1) j && ltb j (i + 1 + n)) ≡ false = ground arith in
        let u : (leb i j && ltb j (i + suc n)) ≡ true = ground arith in
        let v' : val j ≡ true = ap val e ∙ v in rw (t, u, v', hit) (ap f (sym e))
    | inr miss ↦
        let t : (leb (i + 1) j && ltb j (i + 1 + n)) ≡ (leb i j && ltb j (i + suc n)) =
          ground arith in
        rw (miss, t) refl
  ]

  copies_skip :
      val i ≡ false
      → (if (leb (i + 1) j && ltb j (i + 1 + n)) && val j then f j else g j)
        ≡ (if (leb i j && ltb j (i + suc n)) && val j then f j else g j)
  copies_skip v = elim (Bool-cases (j == i)) [
    | inl hit ↦
        let e : j ≡ i = ground arith in
        let t : (leb (i + 1) j && ltb j (i + 1 + n)) ≡ false = ground arith in
        let u : (leb i j && ltb j (i + suc n)) ≡ true = ground arith in
        let v' : val j ≡ false = ap val e ∙ v in rw (t, u, v') refl
    | inr miss ↦
        let t : (leb (i + 1) j && ltb j (i + 1 + n)) ≡ (leb i j && ltb j (i + suc n)) =
          ground arith in
        rw t refl
  ]

-- The copy of one entry is that of the rest behind it.
pub clone_entries-Copied :
    (clone : ℕ → Exec Memory ℕ) (large : Bool) (n i root new : ℕ) (m : Memory)
    → new ≢ root
    → ((j : ℕ) → j < i + n → skipped (m.tables root j) ≡ true)
    → DoneWith (Copied root new i n m) (clone_entries clone large n i root new m)
unfolding clone_entries get_pte set_pte pure
clone_entries-Copied clone large zero i root new m ne h = record {
  asid = refl;
  others = λ q j neq. refl;
  copies = λ j. let e : (leb i j && ltb j (i + 0)) ≡ false = ground arith in rw e refl;
}
clone_entries-Copied clone large (suc n) i root new m ne h =
    elim (Bool-cases (m.tables root i).flags.v) [
      | inl v ↦
          subst
            (λ (r : Ret (Unit {0}) × Memory).
              DoneWith (Copied root new i (suc n) m)
                (continue r (λ u. clone_entries clone large n (i + 1) root new)))
            (sym (one true v))
            (weaken-Post (λ u t. Copied root new (i + 1) n (put m) t)
              (λ u t. Copied root new i (suc n) m t) (λ t. ⊥)
              (clone_entries clone large n (i + 1) root new (put m))
              (clone_entries-Copied clone large n (i + 1) root new (put m) ne
                (λ j lt. ap skipped (kept j) ∙ h j (omega arith)))
              (λ u t c. after t c v))
      | inr no_v ↦
          subst
            (λ (r : Ret (Unit {0}) × Memory).
              DoneWith (Copied root new i (suc n) m)
                (continue r (λ u. clone_entries clone large n (i + 1) root new)))
            (sym (one false no_v))
            (weaken-Post (λ u t. Copied root new (i + 1) n m t)
              (λ u t. Copied root new i (suc n) m t) (λ t. ⊥)
              (clone_entries clone large n (i + 1) root new m)
              (clone_entries-Copied clone large n (i + 1) root new m ne (λ j lt. h j (omega arith)))
              (λ u t c. record {
                asid = c.asid;
                others = c.others;
                copies = λ j.
                    c.copies j
                    ∙ copies_skip (m.tables root) (m.tables new) (λ j. (m.tables root j).flags.v) i
                        n j no_v;
              }))
    ]
  where
    put : Memory → Memory
    put m = record m {
      tables = λ q j. if (q == new) && (j == i) then m.tables root i else m.tables q j;
    }

    one :
        (b : Bool)
        → (m.tables root i).flags.v ≡ b
        → clone_entry clone large i new (m.tables root i) m
          ≡ (if b then set_pte new i (m.tables root i) else pure tt) m
    one b v =
        clone_entry-global clone large i new (m.tables root i) m (h i (omega arith))
        ∙ ap (λ (b : Bool). (if b then set_pte new i (m.tables root i) else pure tt) m) v

    kept : (j : ℕ) → (put m).tables root j ≡ m.tables root j
    kept j = let e : (root == new) ≡ false = ground arith in rw e refl

    own : (j : ℕ) → (put m).tables new j ≡ (if j == i then m.tables root i else m.tables new j)
    own j = let e : (new == new) ≡ true = ground arith in rw e refl

    after :
        (t : Memory)
        → Copied root new (i + 1) n (put m) t
        → (m.tables root i).flags.v ≡ true
        → Copied root new i (suc n) m t
    after t c v = record {
      asid = c.asid;
      others =
          λ q j neq. let e : (q == new) ≡ false = ground arith in c.others q j neq ∙ (rw e refl);
      copies = λ j.
          c.copies j
          ∙ (λ k.
              if (leb (i + 1) j && ltb j (i + 1 + n)) && (kept j k).flags.v
              then kept j k
              else own j k)
          ∙ copies_put (m.tables root) (m.tables new) (λ j. (m.tables root j).flags.v) i n j v;
    }
