-- ===== src/Vm/Global.antt =====
-- The memory spaces as this kernel makes them: each entry of a root table is marked as global, since
-- `map_page` marks the tables that it makes so. What `reset_active_mspace` and `clone_active_mspace` do
-- to such a space.
use sp25_ece391_group.Base.{
  ℕ, zero, suc, ◌+◌, ◌%◌, ◌^◌, ◌<◌, ◌≡◌, ◌≢◌, refl, ap, ◌∙◌, Bool, true, false, ◌&&◌, some, List,
  ok, ◌==◌, ltb, leb, if◌then◌else◌, arith,
}
use sp25_ece391_group.Exec.{Post, pure, continue-Post}
use sp25_ece391_group.Pages.{Chunk, alloc_phys_page}
use sp25_ece391_group.Vm.{
  Memory, null_pte, ptab_to_mtag, mtag_to_ptab, active_space_ptab, clear_page, alloc_page, taken,
  get_pte, get_root,
}
use sp25_ece391_group.Vm.Spaces.{skipped, reset_lvl2, reset_active_mspace}
use sp25_ece391_group.Vm.Clone.{clone_entries, clone_ptab, take_asid, clone_active_mspace}
use sp25_ece391_group.Vm.Copies.{Copied, clone_entries-Copied}

-- Each valid entry of the root table of the active space is global.
abbrev pub AllGlobal : Memory → Type 0
AllGlobal m = (i : ℕ) → i < 512 → skipped (m.tables (active_space_ptab m) i) ≡ true

reset_lvl2-nothing :
    (n i root : ℕ) (m : Memory)
    → ((j : ℕ) → j < i + n → skipped (m.tables root j) ≡ true)
    → reset_lvl2 n i root m ≡ (ok tt, m)
unfolding reset_lvl2 get_pte pure
reset_lvl2-nothing zero i root m h = refl
reset_lvl2-nothing (suc n) i root m h =
    rw (h i (omega arith)) (reset_lvl2-nothing n (i + 1) root m (λ j lt. h j (omega arith)))

-- In a memory space whose root table has no valid entry but global ones, `reset_active_mspace` unmaps
-- nothing and frees no page.
reset_active_mspace-AllGlobal : (m : Memory) → AllGlobal m → reset_active_mspace m ≡ (ok tt, m)
unfolding reset_active_mspace get_root
reset_active_mspace-AllGlobal m h = reset_lvl2-nothing 512 0 (active_space_ptab m) m h

-- A tag stands for its table.
pub mtag_to_ptab-ptab_to_mtag :
    (ptab asid : ℕ)
    → ptab % 4096 ≡ 0
    → ptab < 2 ^ 56
    → asid < 2 ^ 16
    → mtag_to_ptab (ptab_to_mtag ptab asid) ≡ ptab
unfolding mtag_to_ptab ptab_to_mtag
mtag_to_ptab-ptab_to_mtag ptab asid al small small_asid = omega arith

-- What a cloned space shares: the valid entries of its root table are those of the old one.
abbrev pub Shares : Memory → ℕ → Memory → Type 0
Shares m tag t =
    (i : ℕ)
    → i < 512
    → (m.tables (active_space_ptab m) i).flags.v ≡ true
    → t.tables (mtag_to_ptab tag) i ≡ m.tables (active_space_ptab m) i

clone_ptab-Copied :
    (lvl root new : ℕ) (rest : List Chunk) (m : Memory)
    → alloc_phys_page m.free_chunks ≡ some (new, rest)
    → new ≢ root
    → ((j : ℕ) → j < 512 → skipped (m.tables root j) ≡ true)
    → Post
        (λ pt t.
          (pt ≡ new)
          × (t.next_asid ≡ m.next_asid)
          × ((j : ℕ)
              → j < 512
              → (m.tables root j).flags.v ≡ true
              → t.tables new j ≡ m.tables root j))
        (λ t. ⊥)
        (clone_ptab (suc lvl) root m)
unfolding clone_ptab alloc_page taken clear_page
clone_ptab-Copied lvl root new rest m got ne h = rw got (
    continue-Post (λ u t. Copied root new 0 512 cleared t)
      (λ pt t.
        (pt ≡ new)
        × (t.next_asid ≡ m.next_asid)
        × ((j : ℕ) → j < 512 → (m.tables root j).flags.v ≡ true → t.tables new j ≡ m.tables root j))
      (λ t. ⊥) (clone_entries (clone_ptab lvl) (ltb 0 lvl) 512 0 root new cleared) (λ u. pure new)
      (clone_entries-Copied (clone_ptab lvl) (ltb 0 lvl) 512 0 root new cleared ne
        (λ j lt. ap skipped (kept j) ∙ h j (omega arith)))
      (λ u t c. unfold pure in (refl, c.asid, λ j lt v. copied t c j lt v)))
  where
    cleared : Memory
    cleared = record m {
      tables = λ q j. if q == new then null_pte else m.tables q j;
      bytes = λ q o. if q == new then 0 else m.bytes q o;
      free_chunks = rest;
    }

    kept : (j : ℕ) → cleared.tables root j ≡ m.tables root j
    kept j = let e : (root == new) ≡ false = ground arith in rw e refl

    copied :
        (t : Memory)
        → Copied root new 0 512 cleared t
        → (j : ℕ) → j < 512
        → (m.tables root j).flags.v ≡ true
        → t.tables new j ≡ m.tables root j
    copied t c j lt v =
        let r : (leb 0 j && ltb j (0 + 512)) ≡ true = ground arith in
        c.copies j
        ∙ (λ k. if r k && (kept j k).flags.v then kept j k else cleared.tables new j)
        ∙ ap (λ (b : Bool). if b then m.tables root j else cleared.tables new j) v

-- In a memory space whose root table has no valid entry but global ones, where the allocator gives a
-- page other than the root, `clone_active_mspace` does not copy a page: it succeeds, and the root table
-- of the new space has the valid entries of the old one, so that both spaces go through the same tables
-- to the same pages.
clone_active_mspace-Shares :
    (m : Memory) (new : ℕ) (rest : List Chunk)
    → AllGlobal m
    → alloc_phys_page m.free_chunks ≡ some (new, rest)
    → new ≢ active_space_ptab m
    → new % 4096 ≡ 0
    → new < 2 ^ 56
    → m.next_asid < 2 ^ 16
    → Post (λ tag t. Shares m tag t) (λ t. ⊥) (clone_active_mspace m)
unfolding clone_active_mspace get_root take_asid pure
clone_active_mspace-Shares m new rest all got ne al small asid =
    continue-Post
      (λ pt t.
        (pt ≡ new)
        × (t.next_asid ≡ m.next_asid)
        × ((j : ℕ)
            → j < 512
            → (m.tables (active_space_ptab m) j).flags.v ≡ true
            → t.tables new j ≡ m.tables (active_space_ptab m) j))
      (λ tag t. Shares m tag t) (λ t. ⊥) (clone_ptab 3 (active_space_ptab m) m) _
      (clone_ptab-Copied 2 (active_space_ptab m) new rest m got ne all)
      (λ pt t (is_new, same_asid, copies) i lt v.
        let tag : mtag_to_ptab (ptab_to_mtag pt t.next_asid) ≡ new =
          ap (λ (p : ℕ). mtag_to_ptab (ptab_to_mtag p t.next_asid)) is_new
          ∙ mtag_to_ptab-ptab_to_mtag new t.next_asid al small (omega arith) in
        ap (λ (p : ℕ). t.tables p i) tag ∙ copies i lt v)

-- In a memory space whose root table has no valid entry but global ones, which is how map_page
-- marks the tables that it makes, reset_active_mspace unmaps nothing and frees no page. And if
-- the allocator gives an aligned page other than the root, clone_active_mspace copies no page: it
-- succeeds, and the root table of the new space has the valid entries of the old one, so that
-- both spaces go through the same tables to the same pages.
pub reset_active_mspace-clone_active_mspace :
    (m : Memory) (new : ℕ) (rest : List Chunk)
    → AllGlobal m
    → alloc_phys_page m.free_chunks ≡ some (new, rest)
    → new ≢ active_space_ptab m
    → new % 4096 ≡ 0
    → new < 2 ^ 56
    → m.next_asid < 2 ^ 16
    → (reset_active_mspace m ≡ (ok tt, m))
      × Post (λ tag t. Shares m tag t) (λ t. ⊥) (clone_active_mspace m)
reset_active_mspace-clone_active_mspace m new rest all got ne al small asid = (
  reset_active_mspace-AllGlobal m all,
  clone_active_mspace-Shares m new rest all got ne al small asid,
)
