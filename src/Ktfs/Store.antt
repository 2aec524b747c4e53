-- ===== src/Ktfs/Store.antt =====
-- What the file system uses of the block cache, and what it relies on.
pub mod OverCache
mod Tests
use sp25_ece391_group.Base.{
  ℕ, ◌/◌, ◌%◌, ◌≡◌, Option, none, some, List, ◌==◌, if◌then◌else◌, length, Ret,
}
use sp25_ece391_group.Exec.{Exec, Post}
use sp25_ece391_group.Ktfs.{blksz}

-- `with_block pos f` is `cache_get_block` at a position, a look at the block through the pointer, and
-- `cache_release_block`: `f` says what the block is changed to, and then it is released as dirty. It
-- gives the block as it was found. `flush` is `cache_flush`.
pub record BlockStore : Type 1 where
  pub State : Type 0
  pub with_block : ℕ → (List ℕ → Option (List ℕ)) → Exec State (List ℕ)
  pub flush : Exec State (Unit {0})

abbrev pub or_same : List ℕ → Option (List ℕ) → List ℕ
or_same bs none = bs
or_same bs (some cs) = cs

-- A change keeps the size of a block.
abbrev pub KeepsSize : (List ℕ → Option (List ℕ)) → Type 0
KeepsSize f = (bs : List ℕ) → length bs ≡ blksz → length (or_same bs (f bs)) ≡ blksz

-- What an access at block `b` gives and leaves: the contents of the block as it was, which becomes what
-- `f` says, while the other blocks stay.
pub record Accessed (contents new : ℕ → List ℕ) (b : ℕ) (f : List ℕ → Option (List ℕ)) (bs : List ℕ)
    : Type 0 where
  pub found : bs ≡ contents b
  pub changed : (j : ℕ) → new j ≡ (if j == b then or_same bs (f bs) else contents j)

-- The laws: there is an invariant, a block has its size, an access gives the contents of the block and
-- changes that block only, a flush changes none, and an error leaves the store in order. No call
-- crashes.
pub record IsBlockStore (B : BlockStore) : Type 1 where
  pub IsOk : B.State → Type 0
  pub contents : B.State → ℕ → List ℕ
  pub whole : (s : B.State) (b : ℕ) → IsOk s → length (contents s b) ≡ blksz
  pub access :
      (pos : ℕ) (f : List ℕ → Option (List ℕ)) (s : B.State)
      → IsOk s
      → pos % blksz ≡ 0
      → KeepsSize f
      → Post
          (λ bs t. IsOk t × Accessed (contents s) (contents t) (pos / blksz) f bs)
          (λ t. IsOk t)
          (B.with_block pos f s)
  pub flush_same :
      (s : B.State)
      → IsOk s
      → Post (λ u t. IsOk t × ((j : ℕ) → contents t j ≡ contents s j)) (λ t. IsOk t) (B.flush s)
