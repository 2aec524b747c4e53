-- ===== src/Vm/Tests.antt =====
-- A memory with a small address space, runs over it, and the theorems at concrete inputs.
use sp25_ece391_group.Base.{
  ℕ, ◌+◌, ◌≤◌, ◌<◌, ◌≡◌, ◌≢◌, ◌↔◌, refl, inl, inr, true, false, ◌&&◌, none, some, eaccess, List, [],
  ◌∷◌, ok, ◌==◌, if◌then◌else◌, arith, Bool-cases,
}
use sp25_ece391_group.Exec.{Post}
use sp25_ece391_group.Pages.{Chunk, split, alloc_phys_page, free_phys_page_count}
use sp25_ece391_group.Pages.Cover.{times, covers}
use sp25_ece391_group.Vm.{
  Flags, Pte, Memory, no_flags, null_pte, leaf_pte, ptab_pte, ptab_to_mtag, active_space_ptab,
  wellformed, map_page,
}
use sp25_ece391_group.Vm.Spaces.{reset_active_mspace}
use sp25_ece391_group.Vm.Clone.{clone_active_mspace}
use sp25_ece391_group.Vm.Check.{validate_vptr, validate_vstr}
use sp25_ece391_group.Vm.Check.Access.{Allows, validate_vptr-Allows}
use sp25_ece391_group.Vm.Global.{AllGlobal, Shares, reset_active_mspace-clone_active_mspace}
use sp25_ece391_group.Vm.Levels.{Levels}
use sp25_ece391_group.Vm.Maps.{Mapped, map_page-Mapped}

abbrev user_read : Flags
user_read = record no_flags { r = true; u = true }

abbrev free : List Chunk
free = record { addr = 40960; pagecnt = 4 } ∷ []

-- The root table is the page at 4096. It leads to the tables at 8192 and 12288, and the page at 20480
-- is mapped at the start of the user addresses, 0xC0000000.
abbrev entries : ℕ → ℕ → Pte
unfolding ptab_pte leaf_pte
entries q j =
    if (q == 4096) && (j == 3)
    then ptab_pte 8192 true
    else if (q == 8192) && (j == 0)
    then ptab_pte 12288 true
    else if (q == 12288) && (j == 0)
    then leaf_pte 20480 user_read
    else null_pte

abbrev memory : Memory
unfolding ptab_to_mtag ptab_pte leaf_pte
memory = record {
  satp = ptab_to_mtag 4096 0;
  tables = entries;
  bytes = λ q o. if o == 3 then 0 else 65;
  free_chunks = free;
  next_asid = 1;
}

validate_vptr_page : validate_vptr memory 3221225482 100 user_read ≡ none
unfolding validate_vptr ptab_to_mtag ptab_pte leaf_pte
validate_vptr_page = refl

validate_vptr_beyond : validate_vptr memory 3221229000 1000 user_read ≡ some eaccess
unfolding validate_vptr ptab_to_mtag ptab_pte leaf_pte
validate_vptr_beyond = refl

-- A range that ends in the last page of the addresses is taken, and no page of it is looked at.
validate_vptr_last_page : validate_vptr memory 18446744073709551516 50 user_read ≡ none
unfolding validate_vptr ptab_to_mtag ptab_pte leaf_pte
validate_vptr_last_page = refl

validate_vstr_page : validate_vstr memory 3221225472 user_read ≡ none
unfolding validate_vstr ptab_to_mtag ptab_pte leaf_pte
validate_vstr_page = refl

validate_vptr-Allows_example : (validate_vptr memory 3221225482 100 user_read ≡ none) ↔ (
    (wellformed 3221225482 ≡ true)
    × ((a : ℕ) → 3221225482 ≤ a → a < 3221225482 + 100 → Allows memory user_read a))
validate_vptr-Allows_example =
    validate_vptr-Allows 3221225482 100 (omega arith) (omega arith) memory user_read

-- Only the root table, with no entry.
abbrev empty : Memory
unfolding ptab_to_mtag
empty = record {
  satp = ptab_to_mtag 4096 0;
  tables = λ q j. null_pte;
  bytes = λ q o. 0;
  free_chunks = free;
  next_asid = 1;
}

abbrev level : ℕ → ℕ
level x = if x == 4096 then 2 else 3

empty-Levels : Levels level empty
unfolding active_space_ptab ptab_to_mtag times covers
empty-Levels = record {
  root = refl;
  down = λ q j l at lt v leaf. let e : false ≡ true = v in cc;
  free = λ x h. ground arith;
  once = λ x. ground arith;
  aligned = (omega arith, omega arith, tt);
}

map_page-Mapped_example :
    Post
      (λ v t. (v ≡ 3221225472) × Mapped level empty 3221225472 20480 user_read t)
      (λ t. ⊥)
      (map_page 3221225472 20480 user_read empty)
unfolding wellformed free_phys_page_count empty
map_page-Mapped_example =
    map_page-Mapped level empty 3221225472 20480 user_read empty-Levels (omega arith) refl
      (omega arith) (λ v. refl) (λ v. refl)

memory-AllGlobal : AllGlobal memory
unfolding active_space_ptab ptab_to_mtag ptab_pte leaf_pte
memory-AllGlobal i lt = elim (Bool-cases (i == 3)) [
  | inl hit ↦ rw hit refl
  | inr miss ↦ rw miss refl
]

ptab_ne : 40960 ≢ active_space_ptab memory
unfolding active_space_ptab memory
ptab_ne e = absurd (omega arith)

reset_active_mspace-clone_active_mspace_example :
    (reset_active_mspace memory ≡ (ok tt, memory))
    × Post (λ tag t. Shares memory tag t) (λ t. ⊥) (clone_active_mspace memory)
unfolding alloc_phys_page split memory
reset_active_mspace-clone_active_mspace_example =
    reset_active_mspace-clone_active_mspace memory 40960 (record { addr = 45056; pagecnt = 3 } ∷ [])
      memory-AllGlobal refl ptab_ne (omega arith) (omega arith) (omega arith)
