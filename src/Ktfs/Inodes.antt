-- ===== src/Ktfs/Inodes.antt =====
-- The blocks, inodes and the bitmap of sys/ktfs.c. The buffers are those of the callers and are never
-- NULL. `fs.sb` is the parameter `sb`.
pub mod Laws
pub mod Bits
pub mod Alloc
use sp25_ece391_group.Base.{
  ℕ, zero, suc, ◌+◌, ◌-◌, ◌*◌, ◌/◌, ◌%◌, ◌^◌, Bool, true, false, Option, none, some, List, [], ◌∷◌,
  get_or, set, eio, enodatablks, ◌==◌, ltb, if◌then◌else◌, Ret,
}
use sp25_ece391_group.Exec.{Exec, pure, fail, recover, ◌>>=◌, ◌>>◌}
use sp25_ece391_group.Memio.{memcpy_at}
use sp25_ece391_group.Ktfs.{
  Superblock, Inode, blksz, u16, u32, position, data_base, data_block, inode_block, inode_offset,
}
use sp25_ece391_group.Ktfs.Codec.{inode_at, inode_bytes}
use sp25_ece391_group.Ktfs.Store.{BlockStore}

-- Bit `off` of a block, and the block with it set and cleared.
unfoldable pub bit_of : List ℕ → ℕ → ℕ
bit_of bs off = get_or bs (off / 8) 0 / 2 ^ (off % 8) % 2

unfoldable pub set_bit : List ℕ → ℕ → List ℕ
unfolding bit_of
set_bit bs off =
    if bit_of bs off == 0 then set bs (off / 8) (get_or bs (off / 8) 0 + 2 ^ (off % 8)) else bs

unfoldable pub clear_bit : List ℕ → ℕ → List ℕ
unfolding bit_of
clear_bit bs off =
    if bit_of bs off == 0 then bs else set bs (off / 8) (get_or bs (off / 8) 0 - 2 ^ (off % 8))

abbrev pub bits_per_blk : ℕ
bits_per_blk = 4096

-- The position of the bitmap block that has a bit.
abbrev pub bitmap_position : ℕ → ℕ
bitmap_position bit = position (1 + bit / bits_per_blk)

module _ (B : BlockStore) (sb : Superblock) where
  open B use {State, with_block}

  unfoldable pub read_block_cached : (block_idx : ℕ) → Exec State (List ℕ)
  read_block_cached block_idx = with_block (position block_idx) (λ bs. none)

  unfoldable pub read_inode : (inum : ℕ) → Exec State Inode
  unfolding read_block_cached inode_block inode_offset inode_at
  read_inode inum = do
    buf ← recover eio (read_block_cached (inode_block sb inum))
    pure (inode_at buf (inode_offset inum))

  unfoldable pub write_inode : (inum : ℕ) → Inode → Exec State (Unit {0})
  unfolding inode_block inode_offset inode_bytes memcpy_at
  write_inode inum ino = do
    _ ←
        with_block (position (inode_block sb inum))
          (λ bs. some (memcpy_at bs (inode_offset inum) (inode_bytes ino)))
    pure tt

  unfoldable pub read_data_block : (blockno : ℕ) → Exec State (List ℕ)
  unfolding read_block_cached data_block
  read_data_block blockno = read_block_cached (data_block sb blockno)

  -- The bitmap starts in block 1.
  unfoldable pub bitmap_set : (inum : ℕ) → Exec State (Unit {0})
  unfolding set_bit
  bitmap_set inum = do
    _ ← with_block (bitmap_position inum) (λ bs. some (set_bit bs (inum % bits_per_blk)))
    pure tt

  unfoldable pub bitmap_clear_bit : (bit_idx : ℕ) → Exec State (Unit {0})
  unfolding clear_bit
  bitmap_clear_bit bit_idx = do
    _ ← with_block (bitmap_position bit_idx) (λ bs. some (clear_bit bs (bit_idx % bits_per_blk)))
    pure tt

  unfoldable pub update_root_size : (delta : ℕ) → Exec State (Unit {0})
  unfolding read_inode write_inode
  update_root_size delta = do
    root ← read_inode sb.root_directory_inode
    write_inode sb.root_directory_inode (record root { size = u32 (root.size + delta) })

  -- A uint32_t wraps below 0.
  unfoldable pub shrink_root : (delta : ℕ) → Exec State (Unit {0})
  unfolding read_inode write_inode
  shrink_root delta = do
    root ← read_inode sb.root_directory_inode
    write_inode sb.root_directory_inode
        (record root { size = u32 (root.size + 2 ^ 32 - u32 delta) })

  -- What a look at a bitmap block does: a clear bit is set.
  abbrev pub claim : ℕ → List ℕ → Option (List ℕ)
  claim off bs = if bit_of bs off == 0 then some (set_bit bs off) else none

  -- The loop of `ktfs_alloc_data_block`, with `n` rounds to go: block `idx` is next.
  unfoldable pub alloc_from : (n idx : ℕ) → Exec State ℕ
  unfolding bit_of set_bit data_base
  alloc_from zero idx = fail enodatablks
  alloc_from (suc n) idx =
      let rest = alloc_from n (idx + 1) in
      if ltb idx (data_base sb) then rest else (do
        bs ← with_block (bitmap_position idx) (claim (idx % bits_per_blk))
        if bit_of bs (idx % bits_per_blk) == 0 then pure (idx - data_base sb) else rest)

  unfoldable pub alloc_data_block : Exec State ℕ
  unfolding alloc_from
  alloc_data_block = alloc_from sb.block_count 0
