-- ===== src/Vm/Spaces.antt =====
-- The functions of sys/memory.c on ranges of pages and on whole memory spaces.
use sp25_ece391_group.Base.{
  ℕ, zero, suc, ◌+◌, ◌/◌, ◌%◌, ◌^◌, Bool, true, false, ◌||◌, not, ltb, leb, if◌then◌else◌,
}
use sp25_ece391_group.Exec.{Exec, pure, ◌>>=◌, ◌>>◌}
use sp25_ece391_group.Vm.{
  Flags, Pte, Memory, page_size, pte_cnt, pageptr, vpn2, vpn1, vpn0, round_up, round_down, no_flags,
  null_pte, leaf_pte, target, switch_mspace, set_pte, clear_page, alloc_page, alloc_pages,
  free_page, get_pte, get_root, map_page,
}

-- The pages of a range of this size.
abbrev pub pages : ℕ → ℕ
pages size = round_up size / page_size

-- `n` pages are left.
unfoldable pub map_pages : (n vma pp : ℕ) → Flags → Exec Memory (Unit {0})
unfolding map_page
map_pages zero vma pp flags = pure tt
map_pages (suc n) vma pp flags = do
  _ ← map_page vma pp flags
  map_pages n (vma + page_size) (pp + page_size) flags

unfoldable pub map_range : (vma size pp : ℕ) → Flags → Exec Memory ℕ
unfolding map_pages
map_range vma size pp flags = do map_pages (pages size) vma pp flags; pure vma

unfoldable pub clear_pages : (n pp : ℕ) → Exec Memory (Unit {0})
unfolding clear_page
clear_pages zero pp = pure tt
clear_pages (suc n) pp = do clear_page pp; clear_pages n (pp + page_size)

-- The count is an unsigned int.
unfoldable pub alloc_and_map_range : (vma size : ℕ) → Flags → Exec Memory ℕ
unfolding alloc_pages clear_pages map_range
alloc_and_map_range vma size flags = do
  pp ← alloc_pages (pages size % 2 ^ 32)
  clear_pages (pages size % 2 ^ 32) pp
  _ ← map_range vma size pp flags
  pure vma

-- The last table of an address, with no look at the flags.
unfoldable pub last_table : ℕ → Exec Memory ℕ
unfolding get_root get_pte
last_table vma = do
  lvl2 ← get_root
  e2 ← get_pte lvl2 (vpn2 vma)
  e1 ← get_pte (target e2) (vpn1 vma)
  pure (target e1)

unfoldable pub set_flags : (n vma : ℕ) → Flags → Exec Memory (Unit {0})
unfolding last_table get_pte set_pte leaf_pte
set_flags zero vma flags = pure tt
set_flags (suc n) vma flags = do
  lvl0 ← last_table vma
  p ← get_pte lvl0 (vpn0 vma)
  set_pte lvl0 (vpn0 vma) (leaf_pte (pageptr p.ppn) flags)
  set_flags n (vma + page_size) flags

unfoldable pub set_range_flags : (vp size : ℕ) → Flags → Exec Memory (Unit {0})
unfolding set_flags
set_range_flags vp size flags = set_flags (pages size) vp flags

unfoldable pub unmap_pages : (n vma : ℕ) → Exec Memory (Unit {0})
unfolding last_table get_pte free_page set_pte
unmap_pages zero vma = pure tt
unmap_pages (suc n) vma = do
  lvl0 ← last_table vma
  p ← get_pte lvl0 (vpn0 vma)
  free_page (target p)
  set_pte lvl0 (vpn0 vma) null_pte
  unmap_pages n (vma + page_size)

unfoldable pub unmap_and_free_range : (vp size : ℕ) → Exec Memory (Unit {0})
unfolding unmap_pages
unmap_and_free_range vp size = unmap_pages (pages size) vp

-- The causes of a page fault: an instruction, a load, or a store.
pub data Cause : Type 0 where
  instr_page_fault load_page_fault store_page_fault : Cause

abbrev pub is_store : Cause → Bool
is_store instr_page_fault = false
is_store load_page_fault = false
is_store store_page_fault = true

abbrev pub is_instr : Cause → Bool
is_instr instr_page_fault = true
is_instr load_page_fault = false
is_instr store_page_fault = false

-- UMEM_START_VMA and UMEM_END_VMA. The result is 1 if the fault is handled.
unfoldable pub handle_umode_page_fault : Cause → (vma : ℕ) → Exec Memory ℕ
unfolding alloc_page clear_page map_page
handle_umode_page_fault cause vma = if ltb vma 3221225472 || leb 4294967296 vma then pure 0 else (do
  new_page ← alloc_page
  clear_page new_page
  _ ←
      map_page (round_down vma) new_page
        (record no_flags { r = true; u = true; w = is_store cause; x = is_instr cause })
  pure 1)

abbrev pub skipped : Pte → Bool
skipped e = not e.flags.v || e.flags.g

-- The loops of `reset_active_mspace`, with `n` entries to go: index `i` is next.
unfoldable pub reset_lvl0 : (n i lvl0 : ℕ) → Exec Memory (Unit {0})
unfolding get_pte free_page set_pte
reset_lvl0 zero i lvl0 = pure tt
reset_lvl0 (suc n) i lvl0 = do
  leaf ← get_pte lvl0 i
  if skipped leaf then pure tt else (do free_page (target leaf); set_pte lvl0 i null_pte)
  reset_lvl0 n (i + 1) lvl0

-- A table of level 0, and its entry.
unfoldable pub reset_entry1 : (i lvl1 : ℕ) → Pte → Exec Memory (Unit {0})
unfolding free_page set_pte reset_lvl0
reset_entry1 i lvl1 e1 = do
  reset_lvl0 pte_cnt 0 (target e1)
  set_pte lvl1 i null_pte
  free_page (target e1)

unfoldable pub reset_lvl1 : (n i lvl1 : ℕ) → Exec Memory (Unit {0})
unfolding get_pte
reset_lvl1 zero i lvl1 = pure tt
reset_lvl1 (suc n) i lvl1 = do
  e1 ← get_pte lvl1 i
  if skipped e1 then pure tt else reset_entry1 i lvl1 e1
  reset_lvl1 n (i + 1) lvl1

-- A table of level 1, and its entry.
unfoldable pub reset_entry2 : (i lvl2 : ℕ) → Pte → Exec Memory (Unit {0})
unfolding free_page set_pte reset_lvl1
reset_entry2 i lvl2 e2 = do
  reset_lvl1 pte_cnt 0 (target e2)
  set_pte lvl2 i null_pte
  free_page (target e2)

unfoldable pub reset_lvl2 : (n i lvl2 : ℕ) → Exec Memory (Unit {0})
unfolding get_pte
reset_lvl2 zero i lvl2 = pure tt
reset_lvl2 (suc n) i lvl2 = do
  e2 ← get_pte lvl2 i
  if skipped e2 then pure tt else reset_entry2 i lvl2 e2
  reset_lvl2 n (i + 1) lvl2

unfoldable pub reset_active_mspace : Exec Memory (Unit {0})
unfolding get_root
reset_active_mspace = do lvl2 ← get_root; reset_lvl2 pte_cnt 0 lvl2

-- `main_mtag` is the tag of the kernel's own space.
unfoldable pub discard_active_mspace : (main_mtag : ℕ) → Exec Memory ℕ
unfolding get_root reset_active_mspace switch_mspace free_page
discard_active_mspace main_mtag = do
  old_root ← get_root
  reset_active_mspace
  _ ← switch_mspace main_mtag
  free_page old_root
  pure main_mtag
