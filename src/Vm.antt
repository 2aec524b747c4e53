-- ===== src/Vm.antt =====
-- The page tables of sys/memory.c. A table is known by its address, and memory holds tables and bytes
-- apart: `tables` gives the entries of the page at an address, `bytes` its bytes. The flush of the TLB
-- is not modelled. Running out of pages is a panic.
pub mod Spaces
pub mod Clone
pub mod Check
pub mod Copies
pub mod Global
pub mod Init
pub mod Levels
pub mod Subtables
pub mod Maps
mod Tests
use sp25_ece391_group.Base.{
  ℕ, zero, suc, ◌+◌, ◌-◌, ◌*◌, ◌/◌, ◌%◌, ◌^◌, Bool, true, false, ◌&&◌, ◌||◌, not, Option, none,
  some, List, [], ◌∷◌, Ret, ok, err, crash, ◌==◌, ltb, leb, if◌then◌else◌,
}
use sp25_ece391_group.Exec.{Exec, pure, die, ◌>>=◌, ◌>>◌}
use sp25_ece391_group.Pages.{Chunk, alloc_phys_pages, alloc_phys_page, free_phys_page}

-- The flags PTE_V, PTE_R, PTE_W, PTE_X, PTE_U, PTE_G, PTE_A and PTE_D.
pub record Flags : Type 0 where
  pub v : Bool
  pub r : Bool
  pub w : Bool
  pub x : Bool
  pub u : Bool
  pub g : Bool
  pub a : Bool
  pub d : Bool

-- `struct pte`: the fields that the kernel sets.
pub record Pte : Type 0 where
  pub flags : Flags
  pub ppn : ℕ

-- The memory, `satp`, the free pages, and `next_asid`.
pub record Memory : Type 0 where
  pub satp : ℕ
  pub tables : ℕ → ℕ → Pte
  pub bytes : ℕ → ℕ → ℕ
  pub free_chunks : List Chunk
  pub next_asid : ℕ

abbrev pub page_size : ℕ
page_size = 4096

abbrev pub pte_cnt : ℕ
pte_cnt = 512

abbrev pub pagenum : ℕ → ℕ
pagenum p = p / page_size

abbrev pub pageptr : ℕ → ℕ
pageptr n = n * page_size

abbrev pub vpn : ℕ → ℕ
vpn vma = vma / page_size

abbrev pub vpn2 : ℕ → ℕ
vpn2 vma = vpn vma / 2 ^ 18 % pte_cnt

abbrev pub vpn1 : ℕ → ℕ
vpn1 vma = vpn vma / 2 ^ 9 % pte_cnt

abbrev pub vpn0 : ℕ → ℕ
vpn0 vma = vpn vma % pte_cnt

-- ROUND_UP on an unsigned 64-bit number, and ROUND_DOWN.
abbrev pub round_up : ℕ → ℕ
round_up n = (n + (page_size - 1)) % 2 ^ 64 / page_size * page_size

abbrev pub round_down : ℕ → ℕ
round_down n = n / page_size * page_size

-- Bits 63 to 38 are all 0 or all 1.
unfoldable pub wellformed : ℕ → Bool
wellformed vma = ltb vma (2 ^ 38) || leb (2 ^ 64 - 2 ^ 38) vma

abbrev pub no_flags : Flags
no_flags = record {
  v = false;
  r = false;
  w = false;
  x = false;
  u = false;
  g = false;
  a = false;
  d = false;
}

abbrev pub null_pte : Pte
null_pte = record { flags = no_flags; ppn = 0 }

-- The field has 44 bits.
unfoldable pub leaf_pte : (pp : ℕ) → Flags → Pte
leaf_pte pp rwxug_flags = record {
  flags = record rwxug_flags { v = true; a = true; d = true };
  ppn = pagenum pp % 2 ^ 44;
}

unfoldable pub ptab_pte : (pt : ℕ) → (g_flag : Bool) → Pte
ptab_pte pt g_flag = record {
  flags = record no_flags { v = true; g = g_flag };
  ppn = pagenum pt % 2 ^ 44;
}

-- PTE_LEAF.
abbrev pub is_leaf : Pte → Bool
is_leaf p = p.flags.r || p.flags.w || p.flags.x

-- The page that an entry leads to.
abbrev pub target : Pte → ℕ
target p = pageptr p.ppn

-- RISCV_SATP_MODE_Sv39 is 8; the fields do not overlap.
unfoldable pub ptab_to_mtag : (ptab asid : ℕ) → ℕ
ptab_to_mtag ptab asid = (8 * 2 ^ 60 + asid * 2 ^ 44 + pagenum ptab) % 2 ^ 64

unfoldable pub mtag_to_ptab : ℕ → ℕ
mtag_to_ptab mtag = mtag * 2 ^ 20 % 2 ^ 64 / 2 ^ 8

unfoldable pub active_space_ptab : Memory → ℕ
unfolding mtag_to_ptab
active_space_ptab m = mtag_to_ptab m.satp

unfoldable pub switch_mspace : (mtag : ℕ) → Exec Memory ℕ
switch_mspace mtag m = (ok m.satp, record m { satp = mtag })

unfoldable pub set_pte : (pt index : ℕ) → Pte → Exec Memory (Unit {0})
set_pte pt index p m =
    (ok tt, record m { tables = λ q j. if (q == pt) && (j == index) then p else m.tables q j })

-- `memset` of a page to zero.
unfoldable pub clear_page : ℕ → Exec Memory (Unit {0})
clear_page pp m = (
  ok tt,
  record m {
    tables = λ q j. if q == pp then null_pte else m.tables q j;
    bytes = λ q o. if q == pp then 0 else m.bytes q o;
  },
)

-- `memcpy` of a page of bytes.
unfoldable pub copy_page : (dst src : ℕ) → Exec Memory (Unit {0})
copy_page dst src m =
    (ok tt, record m { bytes = λ q o. if q == dst then m.bytes src o else m.bytes q o })

unfoldable pub taken : Memory → Option (ℕ × List Chunk) → Ret ℕ × Memory
taken m none = (crash, m)
taken m (some (pp, free_chunks)) = (ok pp, record m { free_chunks = free_chunks })

unfoldable pub alloc_page : Exec Memory ℕ
unfolding taken alloc_phys_page
alloc_page m = taken m (alloc_phys_page m.free_chunks)

unfoldable pub alloc_pages : ℕ → Exec Memory ℕ
unfolding taken alloc_phys_pages
alloc_pages cnt m = taken m (alloc_phys_pages cnt m.free_chunks)

unfoldable pub free_page : ℕ → Exec Memory (Unit {0})
unfolding free_phys_page
free_page pp m = (ok tt, record m { free_chunks = free_phys_page pp m.free_chunks })

unfoldable pub get_pte : (pt index : ℕ) → Exec Memory Pte
get_pte pt index m = (ok (m.tables pt index), m)

unfoldable pub get_root : Exec Memory ℕ
unfolding active_space_ptab
get_root m = (ok (active_space_ptab m), m)

-- A new table, marked as global.
unfoldable pub new_table : (pt index : ℕ) → Exec Memory ℕ
unfolding get_pte alloc_page clear_page set_pte ptab_pte
new_table pt index = do
  new ← alloc_page
  clear_page new
  set_pte pt index (ptab_pte new true)
  e ← get_pte pt index
  pure (target e)

-- The table behind an entry: a new one if the entry is not valid.
unfoldable pub subtable : (pt index : ℕ) → Exec Memory ℕ
unfolding get_pte new_table
subtable pt index = do
  e ← get_pte pt index
  if e.flags.v then pure (target e) else new_table pt index

-- A failed assertion is a crash.
unfoldable pub map_page : (vma pp : ℕ) → Flags → Exec Memory ℕ
unfolding wellformed get_root subtable set_pte leaf_pte
map_page vma pp rwxug_flags =
    if not (vma % page_size == 0) || not (wellformed vma) then die else (do
      lvl2 ← get_root
      lvl1 ← subtable lvl2 (vpn2 vma)
      lvl0 ← subtable lvl1 (vpn1 vma)
      set_pte lvl0 (vpn0 vma) (leaf_pte pp rwxug_flags)
      pure vma)
