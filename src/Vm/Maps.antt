-- ===== src/Vm/Maps.antt =====
-- What `map_page` promises: the address is translated to the page.
use sp25_ece391_group.Base.{
  ℕ, ◌%◌, ◌≤◌, ◌≡◌, ◌≢◌, refl, sym, subst, ap, ◌∙◌, inl, inr, Bool, true, false, ◌&&◌, ◌==◌,
  if◌then◌else◌, arith, Bool-cases,
}
use sp25_ece391_group.Exec.{Post, pure, continue-Post}
use sp25_ece391_group.Pages.{free_phys_page_count}
use sp25_ece391_group.Vm.{
  Flags, Pte, Memory, leaf_pte, is_leaf, target, active_space_ptab, mtag_to_ptab, wellformed, vpn2,
  vpn1, vpn0, set_pte, get_root, subtable, map_page,
}
use sp25_ece391_group.Vm.Check.Access.{entry2, entry1, entry0}
use sp25_ece391_group.Vm.Levels.{Levels, Sub}
use sp25_ece391_group.Vm.Subtables.{subtable-Sub}
use sp25_ece391_group.Vm.Spaces.{skipped}
use sp25_ece391_group.Vm.Global.{AllGlobal}

-- What `map_page` leaves: the address is translated to the page with the flags, through valid entries,
-- the root table still has global entries only if it had, and no other entry of the tables that were there has changed but those on the way.
pub record Mapped (lev : ℕ → ℕ) (m : Memory) (vma pp : ℕ) (flags : Flags) (t : Memory)
    : Type 0 where
  pub satp : t.satp ≡ m.satp
  pub valid2 : (entry2 t vma).flags.v ≡ true
  pub valid1 : (entry1 t vma).flags.v ≡ true
  pub leads : entry0 t vma ≡ leaf_pte pp flags
  pub global : AllGlobal m → AllGlobal t
  pub others :
      (x j : ℕ)
      → lev x ≢ 3
      → ((x == active_space_ptab t) && (j == vpn2 vma)) ≡ false
      → ((x == target (entry2 t vma)) && (j == vpn1 vma)) ≡ false
      → ((x == target (entry1 t vma)) && (j == vpn0 vma)) ≡ false
      → t.tables x j ≡ m.tables x j

-- The last step, with both tables at hand.
module _ (lev : ℕ → ℕ) (m : Memory) (vma pp : ℕ) (flags : Flags) (ls : Levels lev m) (lvl1 : ℕ)
    (t1 : Memory) (s1 : Sub lev 1 m (active_space_ptab m) (vpn2 vma) lvl1 t1) (lvl0 : ℕ)
    (t2 : Memory) (s2 : Sub s1.lev' 0 t1 lvl1 (vpn1 vma) lvl0 t2) where
  abbrev final : Memory
  final = record t2 {
    tables = λ q j. if (q == lvl0) && (j == vpn0 vma) then leaf_pte pp flags else t2.tables q j;
  }

  abbrev root : ℕ
  root = active_space_ptab m

  same_root : active_space_ptab final ≡ root
  unfolding active_space_ptab
  same_root = ap mtag_to_ptab (s2.satp ∙ s1.satp)

  ne_of_level : (f : ℕ → ℕ) (x y a b : ℕ) → f x ≡ a → f y ≡ b → a ≢ b → (x == y) ≡ false
  ne_of_level f x y a b p q ne = elim (Bool-cases (x == y)) [
    | inl hit ↦ let e : x ≡ y = ground arith in absurd (ne (sym p ∙ ap f e ∙ q))
    | inr miss ↦ miss
  ]

  root1 : s1.lev' root ≡ 2
  root1 = s1.keeps root (λ e. let r : lev root ≡ 2 = ls.root in absurd (omega arith)) ∙ ls.root

  root2 : s2.lev' root ≡ 2
  root2 = s2.keeps root (λ e. let r : s1.lev' root ≡ 2 = root1 in absurd (omega arith)) ∙ root1

  lvl1_2 : s2.lev' lvl1 ≡ 1
  lvl1_2 =
      s2.keeps lvl1 (λ e. let r : s1.lev' lvl1 ≡ 1 = s1.level in absurd (omega arith)) ∙ s1.level

  final-other : (q j : ℕ) → (q == lvl0) ≡ false → final.tables q j ≡ t2.tables q j
  final-other q j miss = rw miss refl

  at_root : (j : ℕ) → final.tables root j ≡ t1.tables root j
  at_root j =
      final-other root j
        (ne_of_level s2.lev' root lvl0 2 0 root2 s2.level (λ e. absurd (omega arith)))
      ∙ s2.others root j (λ e. let r : s1.lev' root ≡ 2 = root1 in absurd (omega arith))
          (off _ _ (ne_of_level s1.lev' root lvl1 2 1 root1 s1.level (λ e. absurd (omega arith))))
    where
      off : (b c : Bool) → b ≡ false → (b && c) ≡ false
      off true c h = cc
      off false c h = refl

  at_lvl1 : final.tables lvl1 (vpn1 vma) ≡ t2.tables lvl1 (vpn1 vma)
  at_lvl1 =
      final-other lvl1 (vpn1 vma)
        (ne_of_level s2.lev' lvl1 lvl0 1 0 lvl1_2 s2.level (λ e. absurd (omega arith)))

  e2 : entry2 final vma ≡ t1.tables root (vpn2 vma)
  e2 = ap (λ (r : ℕ). final.tables r (vpn2 vma)) same_root ∙ at_root (vpn2 vma)

  to_lvl1 : target (entry2 final vma) ≡ lvl1
  to_lvl1 = ap target e2 ∙ s1.leads

  e1 : entry1 final vma ≡ t2.tables lvl1 (vpn1 vma)
  e1 = ap (λ (r : ℕ). final.tables r (vpn1 vma)) to_lvl1 ∙ at_lvl1

  to_lvl0 : target (entry1 final vma) ≡ lvl0
  to_lvl0 = ap target e1 ∙ s2.leads

  skips : (p : Pte) → p.flags.g ≡ true → skipped p ≡ true
  skips p g = ground arith

  root_entry : (i : ℕ) → skipped (m.tables root i) ≡ true → skipped (t1.tables root i) ≡ true
  root_entry i all = elim (Bool-cases (i == vpn2 vma)) [
    | inl hit ↦
        let e : i ≡ vpn2 vma = ground arith in
        subst (λ (j : ℕ). skipped (t1.tables root j) ≡ true) (sym e)
          (elim (Bool-cases (m.tables root (vpn2 vma)).flags.v) [
            | inl v ↦
                ap skipped (s1.same v) ∙ subst (λ (j : ℕ). skipped (m.tables root j) ≡ true) e all
            | inr no_v ↦ skips (t1.tables root (vpn2 vma)) (s1.marked no_v)
          ])
    | inr miss ↦
        let off : ((root == root) && (i == vpn2 vma)) ≡ false = ground arith in
        ap skipped
          (s1.others root i (λ e. let r : lev root ≡ 2 = ls.root in absurd (omega arith)) off)
        ∙ all
  ]

  final-AllGlobal : AllGlobal m → AllGlobal final
  final-AllGlobal all i lt =
      ap (λ (r : ℕ). skipped (final.tables r i)) same_root
      ∙ ap skipped (at_root i)
      ∙ root_entry i (all i lt)

  final-Mapped : Mapped lev m vma pp flags final
  final-Mapped = record {
    satp = s2.satp ∙ s1.satp;
    valid2 = ap (λ (p : Pte). p.flags.v) e2 ∙ s1.valid;
    valid1 = ap (λ (p : Pte). p.flags.v) e1 ∙ s2.valid;
    leads = ap (λ (r : ℕ). final.tables r (vpn0 vma)) to_lvl0 ∙ last_entry;
    global = final-AllGlobal;
    others = λ x j ne off2 off1 off0.
        last_off x j (sym (ap (λ (r : ℕ). (x == r) && (j == vpn0 vma)) to_lvl0) ∙ off0)
        ∙ s2.others x j (old1 x ne)
            (sym (ap (λ (r : ℕ). (x == r) && (j == vpn1 vma)) to_lvl1) ∙ off1)
        ∙ s1.others x j ne (sym (ap (λ (r : ℕ). (x == r) && (j == vpn2 vma)) same_root) ∙ off2);
  }
    where
      last_entry : final.tables lvl0 (vpn0 vma) ≡ leaf_pte pp flags
      last_entry =
          let here : ((lvl0 == lvl0) && (vpn0 vma == vpn0 vma)) ≡ true = ground arith in
          rw here refl

      last_off :
          (x j : ℕ) → ((x == lvl0) && (j == vpn0 vma)) ≡ false → final.tables x j ≡ t2.tables x j
      last_off x j off = rw off refl

      old1 : (x : ℕ) → lev x ≢ 3 → s1.lev' x ≢ 3
      old1 x ne e = ne (sym (s1.keeps x ne) ∙ e)

-- Where the tables are in order, two pages are free, the address is that of a page and well
-- formed, and no larger page is mapped there, map_page succeeds: the address is translated to the
-- page with the flags given (and PTE_A, PTE_D and PTE_V), through valid entries at the upper
-- levels, the root table still has valid entries that are global only if it had, and of the
-- tables that were there before no entry has changed but the three on the way.
pub map_page-Mapped :
    (lev : ℕ → ℕ) (m : Memory) (vma pp : ℕ) (flags : Flags)
    → Levels lev m
    → vma % 4096 ≡ 0
    → wellformed vma ≡ true
    → 2 ≤ free_phys_page_count m.free_chunks
    → ((entry2 m vma).flags.v ≡ true → is_leaf (entry2 m vma) ≡ false)
    → ((entry2 m vma).flags.v ≡ true → is_leaf (entry1 m vma) ≡ false)
    → Post (λ v t. (v ≡ vma) × Mapped lev m vma pp flags t) (λ t. ⊥) (map_page vma pp flags m)
unfolding map_page get_root set_pte pure
map_page-Mapped lev m vma pp flags ls al canonical free leaf2 leaf1 =
    let page : (vma % 4096 == 0) ≡ true = ground arith in
    rw (page, canonical)
      (continue-Post (λ lvl1 t1. Sub lev 1 m (active_space_ptab m) (vpn2 vma) lvl1 t1)
        (λ v t. (v ≡ vma) × Mapped lev m vma pp flags t) (λ t. ⊥)
        (subtable (active_space_ptab m) (vpn2 vma) m) _
        (subtable-Sub lev 1 m (active_space_ptab m) (vpn2 vma) ls (omega arith) ls.root
          (omega arith) leaf2)
        (λ lvl1 t1 s1.
          continue-Post (λ lvl0 t2. Sub s1.lev' 0 t1 lvl1 (vpn1 vma) lvl0 t2)
            (λ v t. (v ≡ vma) × Mapped lev m vma pp flags t) (λ t. ⊥) (subtable lvl1 (vpn1 vma) t1)
            _
            (subtable-Sub s1.lev' 0 t1 lvl1 (vpn1 vma) s1.levels (omega arith) s1.level
              (omega (arith, s1.count)) (λ v. inner lvl1 t1 s1))
            (λ lvl0 t2 s2. (refl, final-Mapped lev m vma pp flags ls lvl1 t1 s1 lvl0 t2 s2))))
  where
    inner :
        (lvl1 : ℕ) (t1 : Memory)
        → Sub lev 1 m (active_space_ptab m) (vpn2 vma) lvl1 t1
        → is_leaf (t1.tables lvl1 (vpn1 vma)) ≡ false
    inner lvl1 t1 s1 = elim (s1.inside (vpn1 vma)) [
      | inl fine ↦ fine
      | inr (v, same) ↦ ap is_leaf same ∙ leaf1 v
    ]
