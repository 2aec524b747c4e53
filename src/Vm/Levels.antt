-- ===== src/Vm/Levels.antt =====
-- Page tables in order: each table has its level, and free pages are no tables. What a table
-- that `map_page` finds or makes is.
use sp25_ece391_group.Base.{
  ℕ, suc, ◌+◌, ◌*◌, ◌%◌, ◌^◌, ◌≤◌, ◌<◌, ◌≡◌, ◌≢◌, ◌⊎◌, inl, inr, true, false, ◌&&◌, Option, none,
  some, List, [], ◌∷◌, ◌==◌, leb, arith, Bool-cases,
}
use sp25_ece391_group.Pages.{Chunk, split, alloc_phys_pages, free_phys_page_count}
use sp25_ece391_group.Pages.Cover.{times}
use sp25_ece391_group.Vm.{Memory, is_leaf, target, active_space_ptab}

-- Free chunks are made of whole pages that an entry can hold.
abbrev pub Aligned : List Chunk → Type 0
Aligned [] = Unit
Aligned (c ∷ l) = (c.addr % 4096 ≡ 0) × (c.addr + c.pagecnt * 4096 ≤ 2 ^ 56) × Aligned l

abbrev pub Given : Option (ℕ × List Chunk) → Type 0
Given none = Unit
Given (some (a, l)) = (a % 4096 ≡ 0) × (a < 2 ^ 56) × Aligned l

pub alloc_phys_pages-Aligned : (l : List Chunk) → Aligned l → Given (alloc_phys_pages 1 l)
unfolding alloc_phys_pages split
alloc_phys_pages-Aligned [] h = tt
alloc_phys_pages-Aligned (c ∷ l) (al, small, rest) = elim (Bool-cases (leb 1 c.pagecnt)) [
  | inl fits ↦ elim (Bool-cases (c.pagecnt == 1)) [
    | inl all ↦ rw (fits, all) (al, ground arith, rest)
    | inr some_left ↦ rw (fits, some_left) (al, ground arith, (ground arith, ground arith, rest))
  ]
  | inr small_chunk ↦
      rw small_chunk (skipped c l (alloc_phys_pages 1 l) (alloc_phys_pages-Aligned l rest) al small)
]
  where
    skipped :
        (c : Chunk) (l : List Chunk) (o : Option (ℕ × List Chunk))
        → Given o
        → c.addr % 4096 ≡ 0
        → c.addr + c.pagecnt * 4096 ≤ 2 ^ 56
        → Given (elim o [ none ↦ none | some (a, l') ↦ some (a, c ∷ l') ])
    skipped c l none g al small = tt
    skipped c l (some (a, l')) (p, q, r) al small = (p, q, (al, small, r))

-- `lev` says which pages are tables, and of which level; 3 is for all other pages. Free pages are no
-- tables, and a table leads to tables of the next level.
pub record Levels (lev : ℕ → ℕ) (m : Memory) : Type 0 where
  pub root : lev (active_space_ptab m) ≡ 2
  pub down :
      (q j l : ℕ)
      → lev q ≡ suc l
      → l < 2
      → (m.tables q j).flags.v ≡ true
      → is_leaf (m.tables q j) ≡ false
      → lev (target (m.tables q j)) ≡ l
  pub free : (x : ℕ) → 0 < times x m.free_chunks → lev x ≡ 3
  pub once : (x : ℕ) → times x m.free_chunks ≤ 1
  pub aligned : Aligned m.free_chunks

-- What `subtable` gives: table `q` of level `l`, behind the entry.
pub record Sub (lev : ℕ → ℕ) (l : ℕ) (m : Memory) (pt idx q : ℕ) (t : Memory) : Type 0 where
  pub lev' : ℕ → ℕ
  pub levels : Levels lev' t
  pub level : lev' q ≡ l
  pub keeps : (x : ℕ) → lev x ≢ 3 → lev' x ≡ lev x
  pub satp : t.satp ≡ m.satp
  pub valid : (t.tables pt idx).flags.v ≡ true
  pub same : (m.tables pt idx).flags.v ≡ true → t.tables pt idx ≡ m.tables pt idx
  pub marked : (m.tables pt idx).flags.v ≡ false → (t.tables pt idx).flags.g ≡ true
  pub leads : target (t.tables pt idx) ≡ q
  pub others :
      (x j : ℕ) → lev x ≢ 3 → ((x == pt) && (j == idx)) ≡ false → t.tables x j ≡ m.tables x j
  pub inside :
      (j : ℕ)
      → (is_leaf (t.tables q j) ≡ false)
        ⊎ (((m.tables pt idx).flags.v ≡ true)
            × (t.tables q j ≡ m.tables (target (m.tables pt idx)) j))
  pub count : free_phys_page_count m.free_chunks ≤ 1 + free_phys_page_count t.free_chunks
