-- ===== src/Ktfs/Inodes/Laws.antt =====
-- The inodes of an image as a table, and what `ktfs_read_inode` and `ktfs_write_inode` do to it.
use sp25_ece391_group.Base.{
  ℕ, ◌+◌, ◌*◌, ◌/◌, ◌%◌, ◌^◌, ◌≤◌, ◌<◌, ◌≡◌, ◌≢◌, refl, sym, ap, ap₂, ◌∙◌, inl, inr, Bool, Option,
  none, some, List, length, true, false, Error, eio, ◌==◌, if◌then◌else◌, arith, Bool-cases, Ret,
}
use sp25_ece391_group.Exec.{
  Exec, Post, pure, recover, continue, continue-Post, or_error-Post, weaken-Post,
}
use sp25_ece391_group.Memio.{memcpy_at}
use sp25_ece391_group.Memio.Laws.{length-memcpy_at}
use sp25_ece391_group.Ktfs.{
  Superblock, Inode, blksz, position, data_block, inode_block, inode_offset,
}
use sp25_ece391_group.Ktfs.Codec.{inode_at, inode_bytes}
use sp25_ece391_group.Ktfs.Codec.Laws.{IsInode, inode_at-memcpy_at, length-inode_bytes}
use sp25_ece391_group.Ktfs.Store.{BlockStore, IsBlockStore, KeepsSize, Accessed}
use sp25_ece391_group.Ktfs.Inodes.{read_block_cached, read_inode, write_inode, read_data_block}

-- A sound image: it is smaller than 4 GiB, has all its bitmap blocks, its inode blocks and its root.
pub record IsLayout (sb : Superblock) : Type 0 where
  pub small : sb.block_count ≤ 2 ^ 23
  pub fits : 1 + sb.bitmap_block_count + sb.inode_block_count ≤ sb.block_count
  pub covered : sb.block_count ≤ sb.bitmap_block_count * 4096
  pub root : sb.root_directory_inode < sb.inode_block_count * 16

-- Inode `inum` of an image with these blocks.
unfoldable pub inode_of : Superblock → (ℕ → List ℕ) → ℕ → Inode
unfolding inode_at inode_block inode_offset
inode_of sb blocks inum = inode_at (blocks (inode_block sb inum)) (inode_offset inum)

-- Data block `blockno`.
unfoldable pub stored : Superblock → (ℕ → List ℕ) → ℕ → List ℕ
unfolding data_block
stored sb blocks blockno = blocks (data_block sb blockno % 2 ^ 23)

pub position-aligned : (b : ℕ) → position b % blksz ≡ 0
position-aligned b = omega arith

-- The position of a block wraps at 4 GiB.
pub position-block : (b : ℕ) → position b / blksz ≡ b % 2 ^ 23
position-block b = omega arith

pub inode_block-small :
    (sb : Superblock) (inum : ℕ)
    → IsLayout sb
    → inum < sb.inode_block_count * 16
    → inode_block sb inum < 2 ^ 23
unfolding inode_block
inode_block-small sb inum h lt = omega (arith, h.small, h.fits)

-- Nothing has changed.
abbrev pub Same : (ℕ → List ℕ) → (ℕ → List ℕ) → Type 0
Same old new = new ≡ old

-- A table after the write of one inode to its place.
inode_of-write :
    (sb : Superblock) (old new : ℕ → List ℕ) (inum : ℕ) (n : Inode)
    → IsLayout sb
    → inum < sb.inode_block_count * 16
    → IsInode n
    → length (old (inode_block sb inum)) ≡ 512
    → new (inode_block sb inum)
      ≡ memcpy_at (old (inode_block sb inum)) (inum % 16 * 32) (inode_bytes n)
    → ((j : ℕ) → j ≢ inode_block sb inum → new j ≡ old j)
    → (m : ℕ) → m < sb.inode_block_count * 16
    → inode_of sb new m ≡ (if m == inum then n else inode_of sb old m)
unfolding inode_of inode_block inode_offset
inode_of-write sb old new inum n lay lt is size own other m ltm =
    elim (Bool-cases (inode_block sb m == inode_block sb inum)) [
      | inl hit ↦
          let e : inode_block sb m ≡ inode_block sb inum = ground arith in
          let q : (m % 16 == inum % 16) ≡ (m == inum) = same_slot e in
          ap (λ (b : ℕ). inode_at (new b) (m % 16 * 32)) e
          ∙ ap (λ (bs : List ℕ). inode_at bs (m % 16 * 32)) own
          ∙ inode_at-memcpy_at (old (inode_block sb inum)) (inum % 16) (m % 16) n is (omega arith)
          ∙ ap₂ (λ (t : Bool) (b : ℕ). if t then n else inode_at (old b) (m % 16 * 32)) q (sym e)
      | inr miss ↦
          let ne : inode_block sb m ≢ inode_block sb inum = ground arith in
          let q : (m == inum) ≡ false = distinct ne in
          rw q (ap (λ (bs : List ℕ). inode_at bs (m % 16 * 32)) (other (inode_block sb m) ne))
    ]
  where
    same_slot : inode_block sb m ≡ inode_block sb inum → (m % 16 == inum % 16) ≡ (m == inum)
    same_slot e = elim (Bool-cases (m == inum)) [
      | inl same ↦ rw same (ground arith)
      | inr miss ↦
          let ne : m ≢ inum = ground arith in
          let ne' : m % 16 ≢ inum % 16 = λ q. ne (omega (arith, q, e, lay.small, lay.fits)) in
          rw miss (ground arith)
    ]

    distinct : inode_block sb m ≢ inode_block sb inum → (m == inum) ≡ false
    distinct ne = elim (Bool-cases (m == inum)) [
      | inl same ↦ let e : m ≡ inum = ground arith in absurd (ne (ap (inode_block sb) e))
      | inr miss ↦ miss
    ]

keep-KeepsSize : KeepsSize (λ bs. none)
keep-KeepsSize bs n = n

module _ (B : BlockStore) (law : IsBlockStore B) (sb : Superblock) where
  open law use {IsOk, contents}

  -- What a function that only reads blocks achieves.
  abbrev pub Looks : {A : Type 0} → (A → Type 0) → B.State → Ret A × B.State → Type 0
  Looks P s r = Post (λ a t. IsOk t × Same (contents s) (contents t) × P a) (λ t. IsOk t) r

  -- An error as another one, and two such functions in turn.
  pub recover-Looks :
      {A : Type 0} (P : A → Type 0) (s : B.State) (e : Error) (m : Exec B.State A)
      → Looks P s (m s)
      → Looks P s (recover e m s)
  unfolding recover
  recover-Looks P s e m h =
      or_error-Post (λ a t. IsOk t × Same (contents s) (contents t) × P a) (λ t. IsOk t) e (m s) h

  pub bind-Looks :
      {A C : Type 0} (P : A → Type 0) (R : C → Type 0) (s : B.State) (r : Ret A × B.State)
      (f : A → Exec B.State C)
      → Looks P s r
      → ((a : A) (t : B.State) → IsOk t → Same (contents s) (contents t) → P a → Looks R t (f a t))
      → Looks R s (continue r f)
  bind-Looks {A} {C} P R s r f h k =
      continue-Post (λ a t. IsOk t × Same (contents s) (contents t) × P a)
        (λ a t. IsOk t × Same (contents s) (contents t) × R a) (λ t. IsOk t) r f h
        (λ a t (h', same, q).
          weaken-Post (λ c u. IsOk u × Same (contents t) (contents u) × R c)
            (λ c u. IsOk u × Same (contents s) (contents u) × R c) (λ u. IsOk u) (f a t)
            (k a t h' same q) (λ c u (h2, same2, q2). (h2, same2 ∙ same, q2)))

  pub read_block_cached-Looks :
      (b : ℕ) (s : B.State)
      → IsOk s
      → Looks (λ bs. bs ≡ contents s (b % 2 ^ 23)) s (read_block_cached B sb b s)
  unfolding read_block_cached
  read_block_cached-Looks b s h =
      weaken-Post
        (λ bs t. IsOk t × Accessed (contents s) (contents t) (position b / blksz) (λ bs. none) bs)
        (λ bs t. IsOk t × Same (contents s) (contents t) × (bs ≡ contents s (b % 2 ^ 23)))
        (λ t. IsOk t) (B.with_block (position b) (λ bs. none) s)
        (law.access (position b) (λ bs. none) s h (position-aligned b) keep-KeepsSize)
        (λ bs t (h', z).
          (h', (λ i j. same s t bs z j i), z.found ∙ ap (contents s) (position-block b)))
    where
      same :
          (s t : B.State) (bs : List ℕ)
          → Accessed (contents s) (contents t) (position b / blksz) (λ bs. none) bs
          → (j : ℕ) → contents t j ≡ contents s j
      same s t bs z j = z.changed j ∙ elim (Bool-cases (j == position b / blksz)) [
        | inl hit ↦
            let e : j ≡ position b / blksz = ground arith in
            rw hit (z.found ∙ ap (contents s) (sym e))
        | inr miss ↦ rw miss refl
      ]

  -- For a sound image and an inode number in range, `ktfs_read_inode` gives the inode of the table and
  -- changes no block.
  pub read_inode-Looks :
      (inum : ℕ) (s : B.State)
      → IsLayout sb
      → inum < sb.inode_block_count * 16
      → IsOk s
      → Looks (λ n. n ≡ inode_of sb (contents s) inum) s (read_inode B sb inum s)
  unfolding read_inode inode_of
  read_inode-Looks inum s lay lt h =
      let e : inode_block sb inum % 2 ^ 23 ≡ inode_block sb inum =
        omega (arith, inode_block-small sb inum lay lt) in
      bind-Looks (λ bs. bs ≡ contents s (inode_block sb inum % 2 ^ 23))
        (λ n. n ≡ inode_at (contents s (inode_block sb inum)) (inode_offset inum)) s
        (recover eio (read_block_cached B sb (inode_block sb inum)) s)
        (λ buf. pure (inode_at buf (inode_offset inum)))
        (recover-Looks (λ bs. bs ≡ contents s (inode_block sb inum % 2 ^ 23)) s eio
          (read_block_cached B sb (inode_block sb inum))
          (read_block_cached-Looks (inode_block sb inum) s h))
        (λ buf t h' same q.
          unfold pure in
          (h', refl, ap (λ (bs : List ℕ). inode_at bs (inode_offset inum)) (q ∙ ap (contents s) e)))

  -- `ktfs_read_data_block` gives the block, at a position that wraps at 4 GiB.
  pub read_data_block-Looks :
      (blockno : ℕ) (s : B.State)
      → IsOk s
      → Looks (λ bs. bs ≡ stored sb (contents s) blockno) s (read_data_block B sb blockno s)
  unfolding read_data_block stored
  read_data_block-Looks blockno s h = read_block_cached-Looks (data_block sb blockno) s h

  put_inode : ℕ → Inode → List ℕ → Option (List ℕ)
  unfolding inode_bytes memcpy_at inode_offset
  put_inode inum n bs = some (memcpy_at bs (inode_offset inum) (inode_bytes n))

  put_inode-KeepsSize : (inum : ℕ) (n : Inode) → KeepsSize (put_inode inum n)
  unfolding put_inode inode_offset
  put_inode-KeepsSize inum n bs e =
      length-memcpy_at bs (inum % 16 * 32) (inode_bytes n) (omega (arith, length-inode_bytes n)) ∙ e

  -- For a sound image, an inode number in range and an inode of 32-bit fields, ktfs_write_inode
  -- replaces this inode of the table: the other inodes stay, and so do all blocks but its own. It
  -- does not crash.
  pub write_inode-Post :
      (inum : ℕ) (n : Inode) (s : B.State)
      → IsLayout sb
      → inum < sb.inode_block_count * 16
      → IsInode n
      → IsOk s
      → Post
          (λ u t.
            IsOk t
            × ((m : ℕ)
                → m < sb.inode_block_count * 16
                → inode_of sb (contents t) m
                  ≡ (if m == inum then n else inode_of sb (contents s) m))
            × ((j : ℕ) → j ≢ inode_block sb inum → contents t j ≡ contents s j))
          (λ t. IsOk t)
          (write_inode B sb inum n s)
  unfolding write_inode put_inode
  write_inode-Post inum n s lay lt is h =
      continue-Post
        (λ bs t.
          IsOk t
          × Accessed (contents s) (contents t) (position (inode_block sb inum) / blksz)
              (put_inode inum n) bs)
        (λ u t.
          IsOk t
          × ((m : ℕ)
              → m < sb.inode_block_count * 16
              → inode_of sb (contents t) m ≡ (if m == inum then n else inode_of sb (contents s) m))
          × ((j : ℕ) → j ≢ inode_block sb inum → contents t j ≡ contents s j))
        (λ t. IsOk t) (B.with_block (position (inode_block sb inum)) (put_inode inum n) s)
        (λ bs. pure tt)
        (law.access (position (inode_block sb inum)) (put_inode inum n) s h
          (position-aligned (inode_block sb inum)) (put_inode-KeepsSize inum n))
        (λ bs t (h', z). unfold pure in (h', table s t bs z h, other s t bs z))
    where
      at : position (inode_block sb inum) / blksz ≡ inode_block sb inum
      at = position-block (inode_block sb inum) ∙ omega (arith, inode_block-small sb inum lay lt)

      other :
          (s t : B.State) (bs : List ℕ)
          → Accessed
              (contents s)
              (contents t)
              (position (inode_block sb inum) / blksz)
              (put_inode inum n)
              bs
          → (j : ℕ) → j ≢ inode_block sb inum
          → contents t j ≡ contents s j
      other s t bs z j ne =
          let e : (j == position (inode_block sb inum) / blksz) ≡ false = ground arith in
          z.changed j ∙ (rw e refl)

      own :
          (s t : B.State) (bs : List ℕ)
          → Accessed
              (contents s)
              (contents t)
              (position (inode_block sb inum) / blksz)
              (put_inode inum n)
              bs
          → contents t (inode_block sb inum)
            ≡ memcpy_at (contents s (inode_block sb inum)) (inum % 16 * 32) (inode_bytes n)
      own s t bs z =
          let e : (inode_block sb inum == position (inode_block sb inum) / blksz) ≡ true =
            ground (arith, at) in
          let same : bs ≡ contents s (inode_block sb inum) = z.found ∙ ap (contents s) at in
          z.changed (inode_block sb inum)
          ∙ (rw e (ap (λ (x : List ℕ). memcpy_at x (inum % 16 * 32) (inode_bytes n)) same))

      table :
          (s t : B.State) (bs : List ℕ)
          → Accessed
              (contents s)
              (contents t)
              (position (inode_block sb inum) / blksz)
              (put_inode inum n)
              bs
          → IsOk s
          → (m : ℕ) → m < sb.inode_block_count * 16
          → inode_of sb (contents t) m ≡ (if m == inum then n else inode_of sb (contents s) m)
      table s t bs z ok_s =
          inode_of-write sb (contents s) (contents t) inum n lay lt is
            (law.whole s (inode_block sb inum) ok_s) (own s t bs z) (other s t bs z)
