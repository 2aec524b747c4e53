-- ===== src/Vm/Clone.antt =====
-- `clone_ptab` and `clone_active_mspace` of sys/memory.c.
use sp25_ece391_group.Base.{ℕ, zero, suc, ◌+◌, ◌%◌, ◌^◌, Bool, not, ok, ◌==◌, ltb, if◌then◌else◌}
use sp25_ece391_group.Exec.{Exec, pure, die, ◌>>=◌, ◌>>◌}
use sp25_ece391_group.Vm.{
  Flags, Pte, Memory, pte_cnt, no_flags, leaf_pte, ptab_pte, is_leaf, target, ptab_to_mtag, set_pte,
  clear_page, copy_page, alloc_page, get_pte, get_root,
}

-- The flags that a copied page keeps.
abbrev pub rwxu : Flags → Flags
rwxu f = record no_flags { r = f.r; w = f.w; x = f.x; u = f.u }

-- The copy of one entry: `clone` is the call for the next level, and `large` says that a leaf of this
-- level is larger than a page.
unfoldable pub clone_entry :
    (clone : ℕ → Exec Memory ℕ) (large : Bool) (i new_ptab : ℕ) → Pte → Exec Memory (Unit {0})
unfolding set_pte ptab_pte alloc_page copy_page leaf_pte
clone_entry clone large i new_ptab p =
    if not p.flags.v
    then pure tt
    else if p.flags.g
    then set_pte new_ptab i p
    else if not (is_leaf p)
    then (do child_new ← clone (target p); set_pte new_ptab i (ptab_pte child_new p.flags.g))
    else if large
    then set_pte new_ptab i p
    else (do
      dup_data ← alloc_page
      copy_page dup_data (target p)
      set_pte new_ptab i (leaf_pte dup_data (rwxu p.flags)))

-- The loop over the entries, with `n` of them to go.
unfoldable pub clone_entries :
    (clone : ℕ → Exec Memory ℕ) (large : Bool) (n i old_ptab new_ptab : ℕ) → Exec Memory (Unit {0})
unfolding get_pte
clone_entries clone large zero i old_ptab new_ptab = pure tt
clone_entries clone large (suc n) i old_ptab new_ptab = do
  p ← get_pte old_ptab i
  clone_entry clone large i new_ptab p
  clone_entries clone large n (i + 1) old_ptab new_ptab

-- `levels` is `lvl + 1`. A table of level 0 that points to a further table, which no function makes, is
-- taken for a crash.
unfoldable pub clone_ptab : (levels old_ptab : ℕ) → Exec Memory ℕ
unfolding alloc_page clear_page
clone_ptab zero old_ptab = die
clone_ptab (suc lvl) old_ptab = do
  new_page ← alloc_page
  clear_page new_page
  clone_entries (clone_ptab lvl) (ltb 0 lvl) pte_cnt 0 old_ptab new_page
  pure new_page

-- The numbers of address spaces have 16 bits, and 0 is left out.
unfoldable pub next_after : ℕ → ℕ
next_after asid = if (asid + 1) % 2 ^ 16 == 0 then 1 else (asid + 1) % 2 ^ 16

unfoldable pub take_asid : Exec Memory ℕ
unfolding next_after
take_asid m = (ok m.next_asid, record m { next_asid = next_after m.next_asid })

unfoldable pub clone_active_mspace : Exec Memory ℕ
unfolding get_root take_asid
clone_active_mspace = do
  old_root ← get_root
  new_root ← clone_ptab 3 old_root
  asid ← take_asid
  pure (ptab_to_mtag new_root asid)
