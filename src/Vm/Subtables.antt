-- ===== src/Vm/Subtables.antt =====
-- The table behind an entry that `map_page` finds or makes: it keeps the tables in order.
use sp25_ece391_group.Base.{
  ℕ, suc, ◌+◌, ◌%◌, ◌^◌, ◌<◌, ◌≡◌, ◌≢◌, refl, sym, ap, subst, ◌∙◌, inl, inr, Bool, true, false,
  ◌&&◌, Option, none, some, List, [], ◌∷◌, ◌==◌, if◌then◌else◌, arith, Bool-cases,
}
use sp25_ece391_group.Exec.{Post, pure}
use sp25_ece391_group.Pages.{Chunk, alloc_phys_pages, alloc_phys_page, free_phys_page_count}
use sp25_ece391_group.Pages.Cover.{
  covers, times, total, AllSmaller, Allocated, alloc_phys_pages-Allocated,
  free_phys_page_count-eq-total,
}
use sp25_ece391_group.Vm.{
  Pte, Memory, null_pte, ptab_pte, is_leaf, target, active_space_ptab, set_pte, clear_page,
  alloc_page, taken, get_pte, new_table, subtable,
}
use sp25_ece391_group.Vm.Levels.{Aligned, Given, alloc_phys_pages-Aligned, Levels, Sub}

module _ (lev : ℕ → ℕ) (l : ℕ) (m : Memory) (pt idx : ℕ) (ls : Levels lev m) (below : l < 2)
    (at_level : lev pt ≡ suc l) where
  -- The entry is there.
  found-Sub :
      (m.tables pt idx).flags.v ≡ true
      → is_leaf (m.tables pt idx) ≡ false
      → Sub lev l m pt idx (target (m.tables pt idx)) m
  found-Sub v leaf = record {
    lev' = lev;
    levels = ls;
    level = ls.down pt idx l at_level below v leaf;
    keeps = λ x ne. refl;
    satp = refl;
    valid = v;
    same = λ q. refl;
    marked = λ no_v. let z : true ≡ false = sym v ∙ no_v in cc;
    leads = refl;
    others = λ x j ne off. refl;
    inside = λ j. inr (v, refl);
    count = omega arith;
  }

  -- A new table `a` is made.
  module _ (a : ℕ) (rest : List Chunk) (al : a % 4096 ≡ 0) (small : a < 2 ^ 56)
      (cover : (x : ℕ) → times x m.free_chunks ≡ covers x a 1 + times x rest)
      (counted : free_phys_page_count m.free_chunks ≡ 1 + free_phys_page_count rest)
      (rest_aligned : Aligned rest) where
    abbrev made : Memory
    made = record m {
      tables = λ q j.
          if (q == pt) && (j == idx)
          then ptab_pte a true
          else if q == a
          then null_pte
          else m.tables q j;
      bytes = λ q o. if q == a then 0 else m.bytes q o;
      free_chunks = rest;
    }

    abbrev lev_made : ℕ → ℕ
    lev_made x = if x == a then l else lev x

    covers_itself : covers a a 1 ≡ 1
    unfolding covers
    covers_itself = ground arith

    was_free : lev a ≡ 3
    was_free = ls.free a (omega (arith, cover a, covers_itself))

    other_than : (x : ℕ) → lev x ≢ 3 → (x == a) ≡ false
    other_than x ne = elim (Bool-cases (x == a)) [
      | inl hit ↦ let e : x ≡ a = ground arith in absurd (ne (ap lev e ∙ was_free))
      | inr miss ↦ miss
    ]

    still_free : (x : ℕ) → 0 < times x rest → lev_made x ≡ 3
    still_free x some_x =
        let ne : x ≢ a = λ e.
          let some_a : 0 < times a rest = subst (λ (y : ℕ). 0 < times y rest) e some_x in
          omega (arith, cover a, covers_itself, ls.once a) in
        let miss : (x == a) ≡ false = ground arith in rw miss (ls.free x (omega (arith, cover x)))

    holds : target (ptab_pte a true) ≡ a
    unfolding ptab_pte
    holds = omega arith

    -- The entries after the change.
    at_entry : (q j : ℕ) → ((q == pt) && (j == idx)) ≡ true → made.tables q j ≡ ptab_pte a true
    at_entry q j here = rw here refl

    at_new : (j : ℕ) → made.tables a j ≡ null_pte
    at_new j =
        let ne : (a == pt) ≡ false = apart in
        let same : (a == a) ≡ true = ground arith in rw (ne, same) refl
      where
        apart : (a == pt) ≡ false
        apart = elim (Bool-cases (a == pt)) [
          | inl hit ↦
              let e : a ≡ pt = ground arith in
              let z : ◌≡◌ {A = ℕ} 3 (suc l) = sym was_free ∙ ap lev e ∙ at_level in
              absurd (omega arith)
          | inr miss ↦ miss
        ]

    at_old :
        (q j : ℕ)
        → ((q == pt) && (j == idx)) ≡ false
        → (q == a) ≡ false
        → made.tables q j ≡ m.tables q j
    at_old q j off miss = rw (off, miss) refl

    lev_a : lev_made a ≡ l
    lev_a = let same : (a == a) ≡ true = ground arith in rw same refl

    lev_old : (x : ℕ) → lev x ≢ 3 → lev_made x ≡ lev x
    lev_old x ne = let miss : (x == a) ≡ false = other_than x ne in rw miss refl

    pt_kept : lev pt ≢ 3
    pt_kept e = absurd (omega arith)

    made-down :
        (q j l2 : ℕ)
        → lev_made q ≡ suc l2
        → l2 < 2
        → (made.tables q j).flags.v ≡ true
        → is_leaf (made.tables q j) ≡ false
        → lev_made (target (made.tables q j)) ≡ l2
    made-down q j l2 at lt v leaf = elim (Bool-cases ((q == pt) && (j == idx))) [
      | inl here ↦
          let e : q ≡ pt = ground arith in
          let same : suc l ≡ suc l2 =
            sym at_level ∙ sym (lev_old pt pt_kept) ∙ ap lev_made (sym e) ∙ at in
          ap (λ (p : Pte). lev_made (target p)) (at_entry q j here)
          ∙ ap lev_made holds
          ∙ lev_a
          ∙ omega arith
      | inr off ↦ elim (Bool-cases (q == a)) [
        | inl new ↦
            let e : q ≡ a = ground arith in
            let z : false ≡ true =
              sym (ap (λ (p : Pte). p.flags.v) (ap (λ (x : ℕ). made.tables x j) e ∙ at_new j))
              ∙ v in
            cc
        | inr miss ↦
            let e : made.tables q j ≡ m.tables q j = at_old q j off miss in
            let at' : lev q ≡ suc l2 = sym (rw miss refl) ∙ at in
            let d : lev (target (m.tables q j)) ≡ l2 =
              ls.down q j l2 at' lt (sym (ap (λ (p : Pte). p.flags.v) e) ∙ v)
                (sym (ap is_leaf e) ∙ leaf) in
            ap (λ (p : Pte). lev_made (target p)) e
            ∙ lev_old (target (m.tables q j)) (λ z. absurd (omega arith))
            ∙ d
      ]
    ]

    root_kept : lev (active_space_ptab m) ≢ 3
    root_kept e = let r : lev (active_space_ptab m) ≡ 2 = ls.root in absurd (omega arith)

    made-Levels : Levels lev_made made
    unfolding active_space_ptab
    made-Levels = record {
      root = lev_old (active_space_ptab m) root_kept ∙ ls.root;
      down = made-down;
      free = still_free;
      once = λ x. omega (arith, cover x, ls.once x);
      aligned = rest_aligned;
    }

    made-Sub : (m.tables pt idx).flags.v ≡ false → Sub lev l m pt idx a made
    unfolding ptab_pte
    made-Sub no_v = record {
      lev' = lev_made;
      levels = made-Levels;
      level = lev_a;
      keeps = lev_old;
      satp = refl;
      valid = ap (λ (p : Pte). p.flags.v) (at_entry pt idx here);
      same = λ v. let z : true ≡ false = sym v ∙ no_v in cc;
      marked = λ q. ap (λ (p : Pte). p.flags.g) (at_entry pt idx here);
      leads = ap target (at_entry pt idx here) ∙ holds;
      others = λ x j ne off. at_old x j off (other_than x ne);
      inside = λ j. inl (ap is_leaf (at_new j));
      count = omega (arith, counted);
    }
      where
        here : ((pt == pt) && (idx == idx)) ≡ true
        here = ground arith

none_left : (l : List Chunk) → AllSmaller 1 l → total l ≡ 0
none_left [] h = refl
none_left (c ∷ l) (small, rest) = omega (arith, none_left l rest)

module _ (lev : ℕ → ℕ) (l : ℕ) (m : Memory) (pt idx : ℕ) (ls : Levels lev m) (below : l < 2)
    (at_level : lev pt ≡ suc l) (some_free : 0 < free_phys_page_count m.free_chunks) where
  -- The table that an allocation with this result leads to.
  allocated-Sub :
      (o : Option (ℕ × List Chunk))
      → alloc_phys_pages 1 m.free_chunks ≡ o
      → Allocated 1 m.free_chunks o
      → Given o
      → (m.tables pt idx).flags.v ≡ false
      → Post (λ q t. Sub lev l m pt idx q t) (λ t. ⊥) (new_table pt idx m)
  unfolding new_table alloc_page taken alloc_phys_page clear_page set_pte get_pte pure
  allocated-Sub none q smaller given no_v =
      absurd (
        omega (arith, none_left m.free_chunks smaller, free_phys_page_count-eq-total m.free_chunks))
  allocated-Sub (some (a, rest)) q (cover, counted) (al, small, rest_aligned) no_v = rw q (
      subst
        (λ (x : ℕ).
          Sub lev l m pt idx x
            (made lev l m pt idx ls below at_level a rest al small cover counted rest_aligned))
        (sym (sub.leads)) sub)
    where
      sub :
          Sub lev l m pt idx a
            (made lev l m pt idx ls below at_level a rest al small cover counted rest_aligned)
      sub =
          made-Sub lev l m pt idx ls below at_level a rest al small cover counted rest_aligned no_v

  -- A table that is found or made, for a memory that has a free page.
  pub subtable-Sub :
      ((m.tables pt idx).flags.v ≡ true → is_leaf (m.tables pt idx) ≡ false)
      → Post (λ q t. Sub lev l m pt idx q t) (λ t. ⊥) (subtable pt idx m)
  unfolding subtable get_pte pure
  subtable-Sub leaf = elim (Bool-cases (m.tables pt idx).flags.v) [
    | inl v ↦
        subst (λ (b : Bool). by_valid b) (sym v)
          (found-Sub lev l m pt idx ls below at_level v (leaf v))
    | inr no_v ↦
        subst (λ (b : Bool). by_valid b) (sym no_v)
          (allocated-Sub (alloc_phys_pages 1 m.free_chunks) refl
            (alloc_phys_pages-Allocated 1 m.free_chunks)
            (alloc_phys_pages-Aligned m.free_chunks ls.aligned) no_v)
  ]
    where
      by_valid : Bool → Type 0
      by_valid b =
          Post (λ q t. Sub lev l m pt idx q t) (λ t. ⊥)
            ((if b then pure (target (m.tables pt idx)) else new_table pt idx) m)
