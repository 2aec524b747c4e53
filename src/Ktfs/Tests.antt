-- ===== src/Ktfs/Tests.antt =====
-- A store in memory with a small image in it, runs over it, and the theorems at concrete inputs.
use sp25_ece391_group.Base.{
  ℕ, zero, suc, ◌+◌, ◌-◌, ◌/◌, ◌^◌, ◌<◌, ◌≡◌, ◌≢◌, refl, inl, inr, true, ◌&&◌, Option, none, List,
  [], ◌∷◌, pos, length, get_elem?, replicate, ok, err, einval, enoent, enotsup, ◌==◌, ltb, leb,
  if◌then◌else◌, min, arith, Bool-cases,
}
use sp25_ece391_group.Exec.{pure, fail, recover, Post}
use sp25_ece391_group.Memio.{memcpy_at}
use sp25_ece391_group.Ktfs.{Superblock, Inode, KtfsFile, data_base, data_block, inode_block}
use sp25_ece391_group.Ktfs.Codec.{inode_bytes}
use sp25_ece391_group.Ktfs.Codec.Laws.{IsInode}
use sp25_ece391_group.Ktfs.Store.{BlockStore, IsBlockStore, KeepsSize, or_same}
use sp25_ece391_group.Ktfs.Inodes.{alloc_data_block, write_inode}
use sp25_ece391_group.Ktfs.Inodes.Laws.{IsLayout, Looks, inode_of, write_inode-Post}
use sp25_ece391_group.Ktfs.Inodes.Alloc.{Claimed, alloc_data_block-Claimed}
use sp25_ece391_group.Ktfs.Blocks.{get_blocknum_for_offset}
use sp25_ece391_group.Ktfs.Blocks.Laws.{block_of, Gives, get_blocknum_for_offset-Gives}
use sp25_ece391_group.Ktfs.Files.{readat, write_loop, cntl}
use sp25_ece391_group.Ktfs.Files.Reads.{Part, file_byte, readat-Looks}
use sp25_ece391_group.Ktfs.Files.Direct.{Apart}
use sp25_ece391_group.Ktfs.Files.Writes.{write_loop-Bytes}
use sp25_ece391_group.Ktfs.Names.{free_inode, total_inodes, remove_entry}
use sp25_ece391_group.Ktfs.Names.Entries.{entry_of, entry_of-remove_entry}
use sp25_ece391_group.Ktfs.Names.Inums.{NoFlags, free_inode-ends}

abbrev mem : BlockStore
mem = record {
  State = ℕ → List ℕ;
  with_block = λ p f s. (
    ok (s (p / 512)),
    λ j. if j == p / 512 then or_same (s (p / 512)) (f (s (p / 512))) else s j,
  );
  flush = λ s. (ok tt, s);
}

stored-size :
    (p : ℕ) (f : List ℕ → Option (List ℕ)) (s : ℕ → List ℕ)
    → ((b : ℕ) → length (s b) ≡ 512)
    → KeepsSize f
    → (b : ℕ) → length (if b == p / 512 then or_same (s (p / 512)) (f (s (p / 512))) else s b) ≡ 512
stored-size p f s h keeps b = elim (Bool-cases (b == p / 512)) [
  | inl hit ↦ rw hit (keeps (s (p / 512)) (h (p / 512)))
  | inr miss ↦ rw miss (h b)
]

abbrev mem_law : IsBlockStore mem
mem_law = record {
  IsOk = λ s. (b : ℕ) → length (s b) ≡ 512;
  contents = λ s b. s b;
  whole = λ s b h. h b;
  access =
      λ p f s h al keeps. (stored-size p f s h keeps, record { found = refl; changed = λ j. refl });
  flush_same = λ s h. (h, λ j. refl);
}

-- Ten blocks: the bitmap is block 1, the inodes are block 2, and the data blocks are from block 3 on.
abbrev image : Superblock
image = record {
  block_count = 10;
  bitmap_block_count = 1;
  inode_block_count = 1;
  root_directory_inode = 0;
}

image-IsLayout : IsLayout image
image-IsLayout = record {
  small = omega arith;
  fits = omega arith;
  covered = omega arith;
  root = omega arith;
}

-- Inode 1 is a file of 600 bytes in data blocks 1 and 2.
abbrev file_inode : Inode
file_inode = record {
  size = 600;
  flags = 1;
  block0 = 1;
  block1 = 2;
  block2 = 0;
  indirect = 0;
  dindirect0 = 0;
  dindirect1 = 0;
}

abbrev inodes : List ℕ
unfolding memcpy_at inode_bytes
inodes = memcpy_at (replicate 512 0) 32 (inode_bytes file_inode)

-- The bits of blocks 0 to 5 are set.
abbrev blocks : ℕ → List ℕ
blocks b = if b == 1 then 63 ∷ replicate 511 0 else if b == 2 then inodes else replicate 512 b

blocks-size : (b : ℕ) → length (blocks b) ≡ 512
unfolding memcpy_at inode_bytes
blocks-size b = elim (Bool-cases (b == 1)) [
  | inl one ↦ rw one refl
  | inr other ↦
      rw other (elim (Bool-cases (b == 2)) [ inl two ↦ rw two refl | inr rest ↦ rw rest refl ])
]

file_inode-IsInode : IsInode file_inode
file_inode-IsInode = record {
  size = omega arith;
  flags = omega arith;
  block0 = omega arith;
  block1 = omega arith;
  block2 = omega arith;
  indirect = omega arith;
  dindirect0 = omega arith;
  dindirect1 = omega arith;
}

write_inode-Post_example :
    Post
      (λ u t.
        ((b : ℕ) → length (t b) ≡ 512)
        × ((m : ℕ)
            → m < 16
            → inode_of image t m ≡ (if m == 3 then file_inode else inode_of image blocks m))
        × ((j : ℕ) → j ≢ inode_block image 3 → t j ≡ blocks j))
      (λ t. (b : ℕ) → length (t b) ≡ 512)
      (write_inode mem image 3 file_inode blocks)
write_inode-Post_example =
    write_inode-Post mem mem_law image 3 file_inode blocks image-IsLayout (omega arith)
      file_inode-IsInode blocks-size

alloc_data_block-Claimed_example :
    Post
      (λ x t. ((b : ℕ) → length (t b) ≡ 512) × Claimed image blocks t 0 (data_base image + x))
      (λ t. (b : ℕ) → length (t b) ≡ 512)
      (alloc_data_block mem image blocks)
alloc_data_block-Claimed_example =
    alloc_data_block-Claimed mem mem_law image blocks image-IsLayout blocks-size

get_blocknum_for_offset-Gives_example :
    Gives mem mem_law image
      (block_of image blocks file_inode 1)
      blocks
      (get_blocknum_for_offset mem image file_inode 1 blocks)
get_blocknum_for_offset-Gives_example =
    get_blocknum_for_offset-Gives mem mem_law image file_inode 1 blocks blocks-size

abbrev file : KtfsFile
file = record { size = 600; inode_num = 1; flags = 1 }

readat-Looks_example :
    Looks mem mem_law image
      (Part image blocks (inode_of image blocks 1) 500 (min 200 (600 - 500)))
      blocks
      (readat mem image true file 500 (pos 200) blocks)
readat-Looks_example =
    readat-Looks mem mem_law image file 500 200 blocks image-IsLayout blocks-size refl (omega arith)
      (omega arith) (omega arith) (omega arith)

file_inode-Apart : Apart image file_inode
unfolding data_block data_base
file_inode-Apart zero zero lt lt2 ne is is2 q = ne refl
file_inode-Apart zero (suc zero) lt lt2 ne is is2 q = omega arith
file_inode-Apart zero (suc (suc zero)) lt lt2 ne is is2 q = is2 refl
file_inode-Apart zero (suc (suc (suc j))) lt lt2 ne is is2 q = omega arith
file_inode-Apart (suc zero) zero lt lt2 ne is is2 q = omega arith
file_inode-Apart (suc zero) (suc zero) lt lt2 ne is is2 q = ne refl
file_inode-Apart (suc zero) (suc (suc zero)) lt lt2 ne is is2 q = is2 refl
file_inode-Apart (suc zero) (suc (suc (suc j))) lt lt2 ne is is2 q = omega arith
file_inode-Apart (suc (suc zero)) j lt lt2 ne is is2 q = is refl
file_inode-Apart (suc (suc (suc i))) j lt lt2 ne is is2 q = omega arith

write_loop-Bytes_example :
    Post
      (λ count t.
        ((b : ℕ) → length (t b) ≡ 512)
        × (count ≡ 3)
        × ((p : ℕ)
            → p < 1536
            → file_byte image t file_inode p ≡ (
                if leb 510 p && ltb p (510 + 3)
                then get_elem? (7 ∷ 8 ∷ 9 ∷ []) (p - 510)
                else file_byte image blocks file_inode p)))
      (λ t. (b : ℕ) → length (t b) ≡ 512)
      (write_loop mem image (3 + 1) file_inode 510 (7 ∷ 8 ∷ 9 ∷ []) 0 blocks)
write_loop-Bytes_example =
    write_loop-Bytes mem mem_law image file_inode file_inode-Apart 510 (7 ∷ 8 ∷ 9 ∷ [])
      (omega arith) blocks blocks-size

entry_of-remove_entry_example : entry_of (remove_entry 4 (blocks 3)) 31 ≡ (
    if ltb 31 4
    then entry_of (blocks 3) 31
    else if 31 == 31
    then replicate 16 0
    else entry_of (blocks 3) (31 + 1))
entry_of-remove_entry_example =
    entry_of-remove_entry (blocks 3) 4 31 (blocks-size 3) (omega arith) (omega arith)

free_inode-ends_example :
    Post
      (NoFlags mem mem_law image)
      (λ t. (b : ℕ) → length (t b) ≡ 512)
      (free_inode mem image (2 ^ 16 + 1) (total_inodes mem image) 0 blocks)
free_inode-ends_example =
    free_inode-ends mem mem_law image blocks image-IsLayout (omega arith) blocks-size

alloc_data_block_first : (alloc_data_block mem image blocks).0 ≡ ok 3
unfolding alloc_data_block memcpy_at inode_bytes pure
alloc_data_block_first = refl

readat_two_blocks : (readat mem image true file 510 (pos 4) blocks).0 ≡ ok (4 ∷ 4 ∷ 5 ∷ 5 ∷ [])
unfolding readat memcpy_at inode_bytes recover pure
readat_two_blocks = refl

readat_closed : (readat mem image true (record file { flags = 0 }) 0 (pos 4) blocks).0 ≡ err einval
unfolding readat fail
readat_closed = refl

cntl_unknown : (cntl mem image true file 9 none blocks).0 ≡ err enotsup
unfolding cntl fail
cntl_unknown = refl

get_blocknum_hole : (get_blocknum_for_offset mem image file_inode 2 blocks).0 ≡ err enoent
unfolding get_blocknum_for_offset fail
get_blocknum_hole = refl
