-- ===== src/Pages/Tests.antt =====
-- The page allocator at a list of two chunks.
use sp25_ece391_group.Base.{ℕ, ◌≡◌, refl, some, none, List, [], ◌∷◌}
use sp25_ece391_group.Pages.{Chunk, split, alloc_phys_pages, free_phys_pages, free_phys_page_count}
use sp25_ece391_group.Pages.Cover.{
  Allocated, times, alloc_phys_pages-Allocated, free_phys_pages-alloc_phys_pages,
}

abbrev chunk : ℕ → ℕ → Chunk
chunk a n = record { addr = a; pagecnt = n }

abbrev chunks : List Chunk
chunks = chunk 0 1 ∷ chunk 40960 5 ∷ []

-- The first chunk is too small, the second is split.
second_split : alloc_phys_pages 2 chunks ≡ some (40960, chunk 0 1 ∷ chunk 49152 3 ∷ [])
unfolding alloc_phys_pages split
second_split = refl

none_fits : alloc_phys_pages 6 chunks ≡ none
unfolding alloc_phys_pages split
none_fits = refl

alloc_phys_pages-Allocated_example : Allocated 2 chunks (alloc_phys_pages 2 chunks)
alloc_phys_pages-Allocated_example = alloc_phys_pages-Allocated 2 chunks

free_phys_pages-alloc_phys_pages_example :
    let left = chunk 0 1 ∷ chunk 49152 3 ∷ [] in
    ((x : ℕ) → times x (free_phys_pages 40960 2 left) ≡ times x chunks)
    × (free_phys_page_count (free_phys_pages 40960 2 left) ≡ free_phys_page_count chunks)
free_phys_pages-alloc_phys_pages_example = free_phys_pages-alloc_phys_pages 2 chunks second_split
