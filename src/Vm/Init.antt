-- ===== src/Vm/Init.antt =====
-- `memory_init` of sys/memory.c. The addresses of the kernel image and of the three tables are given by
-- the linker. The tables are in the .bss section, so that they are zero before. The messages on the
-- console and `heap_init` are not modelled, nor is the bit of `sstatus` for user memory. `main_mtag`, which
-- is set here, is an argument of the functions that use it. `kimg_end` is not before `kimg_start`.
use sp25_ece391_group.Base.{
  ℕ, zero, suc, ◌+◌, ◌-◌, ◌/◌, Bool, true, false, ◌||◌, not, [], ◌∷◌, ok, ◌==◌, ltb, if◌then◌else◌,
}
use sp25_ece391_group.Exec.{Exec, pure, die, ◌>>◌}
use sp25_ece391_group.Vm.{
  Flags, Memory, page_size, vpn2, vpn1, vpn0, round_up, no_flags, leaf_pte, ptab_pte, ptab_to_mtag,
  set_pte,
}

-- What the linker provides, and the addresses of main_pt2, main_pt1_0x80000 and main_pt0_0x80000.
pub record Image : Type 0 where
  pub kimg_start : ℕ
  pub text_start : ℕ
  pub text_end : ℕ
  pub rodata_start : ℕ
  pub rodata_end : ℕ
  pub data_start : ℕ
  pub kimg_end : ℕ
  pub main_pt2 : ℕ
  pub main_pt1 : ℕ
  pub main_pt0 : ℕ

abbrev pub mega_size : ℕ
mega_size = 2097152

abbrev pub giga_size : ℕ
giga_size = 1073741824

abbrev pub ram_start : ℕ
ram_start = 2147483648

abbrev pub heap_init_min : ℕ
heap_init_min = 256

-- The rounds of `for (p = start; p < end; p += step)`.
abbrev pub rounds : (start end_ step : ℕ) → ℕ
rounds start end_ step = (end_ - start + (step - 1)) / step

-- One entry for each round: `index` is VPN2, VPN1 or VPN0.
unfoldable pub fill : (n step pp : ℕ) → (index : ℕ → ℕ) → (pt : ℕ) → Flags → Exec Memory (Unit {0})
unfolding set_pte leaf_pte
fill zero step pp index pt flags = pure tt
fill (suc n) step pp index pt flags = do
  set_pte pt (index pp) (leaf_pte pp flags)
  fill n step (pp + step) index pt flags

abbrev pub global_flags : (w x : Bool) → Flags
global_flags w x = record no_flags { r = true; w = w; x = x; g = true }

-- The end of the first block of the heap.
unfoldable pub heap_end : (heap_start : ℕ) → ℕ
heap_end heap_start =
    if ltb (round_up heap_start - heap_start) heap_init_min
    then round_up heap_start + round_up (heap_init_min - (round_up heap_start - heap_start))
    else round_up heap_start

unfoldable pub set_satp : ℕ → Exec Memory (Unit {0})
set_satp mtag m = (ok tt, record m { satp = mtag })

-- The free pages are one chunk, from the end of the heap to the end of the memory.
unfoldable pub set_free : (start pagecnt : ℕ) → Exec Memory (Unit {0})
set_free start pagecnt m =
    (ok tt, record m { free_chunks = record { addr = start; pagecnt = pagecnt } ∷ [] })

-- The tables of the kernel.
unfoldable pub fill_tables : Image → (ram_end : ℕ) → Exec Memory (Unit {0})
unfolding set_pte
fill_tables im ram_end = do
  fill (rounds 0 ram_start giga_size) giga_size 0 vpn2 im.main_pt2 (global_flags true false)
  set_pte im.main_pt2 (vpn2 ram_start) (ptab_pte im.main_pt1 true)
  set_pte im.main_pt1 (vpn1 ram_start) (ptab_pte im.main_pt0 true)
  fill (rounds im.text_start im.text_end page_size) page_size im.text_start vpn0 im.main_pt0
      (global_flags false true)
  fill (rounds im.rodata_start im.rodata_end page_size) page_size im.rodata_start vpn0 im.main_pt0
      (global_flags false false)
  fill (rounds im.data_start (ram_start + mega_size) page_size) page_size im.data_start vpn0
      im.main_pt0 (global_flags true false)
  fill (rounds (ram_start + mega_size) ram_end mega_size) mega_size (ram_start + mega_size) vpn1
      im.main_pt1 (global_flags true false)

-- A failed assertion and a panic are a crash.
unfoldable pub memory_init : Image → (ram_end : ℕ) → Exec Memory (Unit {0})
unfolding set_satp set_free
memory_init im ram_end =
    if not (im.kimg_start == ram_start) || ltb mega_size (im.kimg_end - im.kimg_start)
    then die
    else (do
      fill_tables im ram_end
      set_satp (ptab_to_mtag im.main_pt2 0)
      if ltb ram_end (heap_end im.kimg_end)
          then die
          else set_free (heap_end im.kimg_end) ((ram_end - heap_end im.kimg_end) / page_size))
