-- ===== src/Pages/Cover.antt =====
-- Which pages are free: an allocation takes its pages out of the free ones, and nothing else.
use sp25_ece391_group.Base.{
  ℕ, ◌+◌, ◌-◌, ◌*◌, ◌≤◌, ◌<◌, ◌≡◌, inl, inr, ◌&&◌, Option, none, some, List, [], ◌∷◌, ◌==◌, leb,
  ltb, if◌then◌else◌, arith, Bool-cases, sym, subst,
}
use sp25_ece391_group.Pages.{
  page_size, Chunk, split, alloc_phys_pages, free_phys_pages, count_from, free_phys_page_count,
}

-- 1 if the address `x` lies in the `n` pages from `a` on, and 0 if not.
unfoldable pub covers : ℕ → ℕ → ℕ → ℕ
covers x a n = if leb a x && ltb x (a + n * page_size) then 1 else 0

-- How many chunks the address `x` lies in. It is free if this is 1, and no chunks overlap if it is
-- at most 1 everywhere.
unfoldable pub times : ℕ → List Chunk → ℕ
times x [] = 0
times x (c ∷ l) = covers x c.addr c.pagecnt + times x l

abbrev pub total : List Chunk → ℕ
total [] = 0
total (c ∷ l) = c.pagecnt + total l

count_from-eq-total : (n : ℕ) (l : List Chunk) → count_from n l ≡ n + total l
unfolding count_from
count_from-eq-total n [] = omega arith
count_from-eq-total n (c ∷ l) = omega (arith, count_from-eq-total (n + c.pagecnt) l)

pub free_phys_page_count-eq-total : (l : List Chunk) → free_phys_page_count l ≡ total l
unfolding free_phys_page_count
free_phys_page_count-eq-total l = omega (arith, count_from-eq-total 0 l)

covers-split :
    (x a c n : ℕ) → c ≤ n → covers x a n ≡ covers x a c + covers x (a + c * page_size) (n - c)
unfolding covers
covers-split x a c n h = ground arith

-- Every chunk has fewer pages than asked for.
abbrev pub AllSmaller : ℕ → List Chunk → Type 0
AllSmaller cnt [] = Unit
AllSmaller cnt (c ∷ l) = (c.pagecnt < cnt) × AllSmaller cnt l

-- What an allocation achieves: for every address, the chunks that it lay in are those that it lies
-- in still and the pages handed out; so for the number of free pages. It panics only if no chunk is
-- large enough.
abbrev pub Allocated : ℕ → List Chunk → Option (ℕ × List Chunk) → Type 0
Allocated cnt l none = AllSmaller cnt l
Allocated cnt l (some (a, l')) =
    ((x : ℕ) → times x l ≡ covers x a cnt + times x l')
    × (free_phys_page_count l ≡ cnt + free_phys_page_count l')

split-total :
    (cnt : ℕ) (c : Chunk) (l : List Chunk)
    → cnt ≤ c.pagecnt
    → c.pagecnt + total l ≡ cnt + total (split cnt c l)
unfolding split
split-total cnt c l h = ground arith

split-times :
    (cnt : ℕ) (c : Chunk) (l : List Chunk) (x : ℕ)
    → cnt ≤ c.pagecnt
    → times x (c ∷ l) ≡ covers x c.addr cnt + times x (split cnt c l)
unfolding split times
split-times cnt c l x h = elim (Bool-cases (c.pagecnt == cnt)) [
  | inl e ↦ rw e (ground arith)
  | inr e ↦ rw (e, covers-split x c.addr cnt c.pagecnt h) (omega arith)
]

-- An allocation out of the list behind a chunk.
skip :
    (cnt : ℕ) (c : Chunk) (l : List Chunk) (o : Option (ℕ × List Chunk))
    → c.pagecnt < cnt
    → Allocated cnt l o
    → Allocated cnt (c ∷ l) (elim o [ none ↦ none | some (a, l') ↦ some (a, c ∷ l') ])
unfolding times
skip cnt c l none h r = (h, r)
skip cnt c l (some (a, l')) h (cover, count) = (
  λ x. omega (arith, cover x),
  omega (
    arith,
    count,
    free_phys_page_count-eq-total l,
    free_phys_page_count-eq-total (c ∷ l),
    free_phys_page_count-eq-total l',
    free_phys_page_count-eq-total (c ∷ l'),
  ),
)

take_first :
    (cnt : ℕ) (c : Chunk) (l : List Chunk)
    → cnt ≤ c.pagecnt
    → Allocated cnt (c ∷ l) (some (c.addr, split cnt c l))
take_first cnt c l h = (
  λ x. split-times cnt c l x h,
  omega (
    arith,
    split-total cnt c l h,
    free_phys_page_count-eq-total (c ∷ l),
    free_phys_page_count-eq-total (split cnt c l),
  ),
)

-- For every address, the chunks that it lay in are after alloc_phys_pages the pages handed out
-- and the chunks that it lies in still, and the count of free pages goes down by the pages asked
-- for; it panics only if every chunk has fewer pages than asked for.
pub alloc_phys_pages-Allocated :
    (cnt : ℕ) (l : List Chunk) → Allocated cnt l (alloc_phys_pages cnt l)
unfolding alloc_phys_pages
alloc_phys_pages-Allocated cnt [] = record {}
alloc_phys_pages-Allocated cnt (c ∷ l) = elim (Bool-cases (leb cnt c.pagecnt)) [
  | inl e ↦ rw e (take_first cnt c l (ground arith))
  | inr e ↦ rw e (skip cnt c l _ (ground arith) (alloc_phys_pages-Allocated cnt l))
]

-- free_phys_pages of the pages that alloc_phys_pages handed out makes every address free that was
-- free before, as often as before, and restores the count of free pages.
pub free_phys_pages-alloc_phys_pages :
    (cnt : ℕ) (l : List Chunk) {a : ℕ} {l' : List Chunk}
    → alloc_phys_pages cnt l ≡ some (a, l')
    → ((x : ℕ) → times x (free_phys_pages a cnt l') ≡ times x l)
      × (free_phys_page_count (free_phys_pages a cnt l') ≡ free_phys_page_count l)
unfolding free_phys_pages times
free_phys_pages-alloc_phys_pages cnt l {a = a} {l' = l'} e =
    let (cover, count) = subst (λ o. Allocated cnt l o) e (alloc_phys_pages-Allocated cnt l) in
    (
      λ x. sym (cover x),
      omega (
        arith,
        count,
        free_phys_page_count-eq-total l',
        free_phys_page_count-eq-total (free_phys_pages a cnt l'),
      ),
    )
