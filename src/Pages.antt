-- ===== src/Pages.antt =====
-- The physical page allocator of sys/memory.c: a list of chunks of free pages. A chunk's header
-- stands in its first page, so that a chunk is known by its address.
pub mod Cover
mod Tests
use sp25_ece391_group.Base.{
  ℕ, ◌+◌, ◌-◌, ◌*◌, Option, none, some, List, [], ◌∷◌, ◌==◌, leb, if◌then◌else◌,
}

abbrev pub page_size : ℕ
page_size = 4096

-- `struct page_chunk`, with its address.
pub record Chunk : Type 0 where
  pub addr : ℕ
  pub pagecnt : ℕ

-- The list without the first `cnt` pages of its chunk `curr`, which has as many or more.
unfoldable pub split : ℕ → Chunk → List Chunk → List Chunk
split cnt curr next =
    if curr.pagecnt == cnt
    then next
    else record { addr = curr.addr + cnt * page_size; pagecnt = curr.pagecnt - cnt } ∷ next

-- The address of the pages and the list that is left; `none` is the panic.
unfoldable pub alloc_phys_pages : ℕ → List Chunk → Option (ℕ × List Chunk)
unfolding split
alloc_phys_pages cnt [] = none
alloc_phys_pages cnt (curr ∷ next) =
    let rest = alloc_phys_pages cnt next in
    if leb cnt curr.pagecnt
    then some (curr.addr, split cnt curr next)
    else elim rest [ none ↦ none | some (a, l) ↦ some (a, curr ∷ l) ]

unfoldable pub alloc_phys_page : List Chunk → Option (ℕ × List Chunk)
unfolding alloc_phys_pages
alloc_phys_page l = alloc_phys_pages 1 l

unfoldable pub free_phys_pages : ℕ → ℕ → List Chunk → List Chunk
free_phys_pages pp cnt l = record { addr = pp; pagecnt = cnt } ∷ l

unfoldable pub free_phys_page : ℕ → List Chunk → List Chunk
unfolding free_phys_pages
free_phys_page pp l = free_phys_pages pp 1 l

-- The loop keeps a running count; the sum is below 2 ^ 64, the machine having fewer pages.
unfoldable pub count_from : ℕ → List Chunk → ℕ
count_from n [] = n
count_from n (c ∷ l) = count_from (n + c.pagecnt) l

unfoldable pub free_phys_page_count : List Chunk → ℕ
unfolding count_from
free_phys_page_count l = count_from 0 l
