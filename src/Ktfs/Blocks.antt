-- ===== src/Ktfs/Blocks.antt =====
-- The data blocks of a file: which block holds a part of it, growing it, and giving its blocks back.
pub mod Laws
use sp25_ece391_group.Base.{
  ℕ, zero, suc, ◌+◌, ◌-◌, ◌*◌, ◌/◌, ◌%◌, List, [], ◌∷◌, get_or, eio, enoent, enodatablks, ◌==◌, ltb,
  leb, if◌then◌else◌,
}
use sp25_ece391_group.Exec.{Exec, pure, fail, recover, ◌>>=◌, ◌>>◌}
use sp25_ece391_group.Ktfs.{
  Superblock, Inode, KtfsFile, blksz, num_direct, u16, u32, u64, data_base,
}
use sp25_ece391_group.Ktfs.Codec.{word32, pointers}
use sp25_ece391_group.Ktfs.Store.{BlockStore}
use sp25_ece391_group.Ktfs.Inodes.{
  read_inode, write_inode, read_data_block, bitmap_clear_bit, alloc_data_block,
}

-- POINTER_BYTESIZE is 4.
abbrev pub ptrs_per_block : ℕ
ptrs_per_block = 128

abbrev pub blocks_per_dindirect : ℕ
blocks_per_dindirect = 16384

-- The array `inode.block`.
abbrev pub direct : Inode → List ℕ
direct n = n.block0 ∷ n.block1 ∷ n.block2 ∷ []

abbrev pub dindirects : Inode → List ℕ
dindirects n = n.dindirect0 ∷ n.dindirect1 ∷ []

-- `inode.block[i] = blkno`, for an `i` in range.
unfoldable pub set_direct : Inode → ℕ → ℕ → Inode
set_direct n zero blkno = record n { block0 = blkno }
set_direct n (suc zero) blkno = record n { block1 = blkno }
set_direct n (suc (suc i)) blkno = record n { block2 = blkno }

-- The blocks of a file of this many bytes.
unfoldable pub old_blocks : (old_size : ℕ) → ℕ
old_blocks old_size = u32 (old_size + 511) / blksz

unfoldable pub new_blocks : (new_end : ℕ) → ℕ
new_blocks new_end = u32 (u64 (new_end + 511) / blksz)

module _ (B : BlockStore) (sb : Superblock) where
  open B use {State}

  -- Block number 0 stands for no block.
  unfoldable pub or_enoent : ℕ → Exec State ℕ
  or_enoent blockno = if blockno == 0 then fail enoent else pure blockno

  -- A pointer of an indirect block.
  unfoldable pub pointer : (blockno index : ℕ) → Exec State ℕ
  unfolding read_data_block or_enoent word32
  pointer blockno index =
      if blockno == 0
      then fail enoent
      else (do bs ← recover eio (read_data_block B sb blockno); or_enoent (word32 bs (index * 4)))

  -- The loop over the double indirect blocks.
  unfoldable pub double_indirect : List ℕ → (index : ℕ) → Exec State ℕ
  unfolding pointer
  double_indirect [] index = fail enoent
  double_indirect (d ∷ ds) index =
      let rest = double_indirect ds (index - blocks_per_dindirect) in
      if ltb index blocks_per_dindirect
      then (do level1 ← pointer d (index / ptrs_per_block); pointer level1 (index % ptrs_per_block))
      else rest

  unfoldable pub single_indirect : Inode → (index : ℕ) → Exec State ℕ
  unfolding pointer double_indirect
  single_indirect n index =
      if ltb index ptrs_per_block
      then pointer n.indirect index
      else double_indirect (dindirects n) (index - ptrs_per_block)

  unfoldable pub get_blocknum_for_offset : Inode → (index : ℕ) → Exec State ℕ
  unfolding or_enoent single_indirect
  get_blocknum_for_offset n index =
      if ltb index num_direct
      then or_enoent (get_or (direct n) index 0)
      else single_indirect n (index - num_direct)

  -- The loop of `ktfs_set_end`, with `n` rounds to go: block `i` of the file is next.
  unfoldable pub grow : (n i : ℕ) → Inode → Exec State Inode
  unfolding alloc_data_block set_direct
  grow zero i inode = pure inode
  grow (suc n) i inode =
      if leb num_direct i
      then fail enodatablks
      else (do blkno ← alloc_data_block B sb; grow n (i + 1) (set_direct inode i blkno))

  -- It gives the file with its new size.
  unfoldable pub set_end : KtfsFile → (new_end : ℕ) → Exec State KtfsFile
  unfolding read_inode write_inode grow old_blocks new_blocks
  set_end file new_end = do
    inode ← read_inode B sb (u16 file.inode_num)
    grown ← grow (new_blocks new_end - old_blocks inode.size) (old_blocks inode.size) inode
    write_inode B sb (u16 file.inode_num) (record grown { size = u32 new_end })
    pure (record file { size = u32 new_end })

  abbrev pub clear_data_bit : ℕ → Exec State (Unit {0})
  clear_data_bit blockno = bitmap_clear_bit B sb (u32 (data_base sb + blockno))

  unfoldable pub free_direct : List ℕ → Exec State (Unit {0})
  unfolding bitmap_clear_bit data_base
  free_direct [] = pure tt
  free_direct (b ∷ bs) =
      let rest = free_direct bs in if b == 0 then rest else (clear_data_bit b >> rest)

  -- The loop over the pointers of an indirect block: it ends at the first 0.
  unfoldable pub free_pointers : List ℕ → Exec State (Unit {0})
  unfolding bitmap_clear_bit data_base
  free_pointers [] = pure tt
  free_pointers (b ∷ bs) =
      let rest = free_pointers bs in if b == 0 then pure tt else (clear_data_bit b >> rest)

  -- A block of pointers to data blocks, and then the block itself.
  unfoldable pub free_indirect : ℕ → Exec State (Unit {0})
  unfolding read_data_block free_pointers pointers bitmap_clear_bit data_base
  free_indirect blockno = do
    idxs ← read_data_block B sb blockno
    free_pointers (pointers ptrs_per_block 0 idxs)
    clear_data_bit blockno

  -- The pointers of a double indirect block.
  unfoldable pub free_level1 : List ℕ → Exec State (Unit {0})
  unfolding free_indirect
  free_level1 [] = pure tt
  free_level1 (b ∷ bs) =
      let rest = free_level1 bs in if b == 0 then pure tt else (free_indirect b >> rest)

  unfoldable pub free_dindirects : List ℕ → Exec State (Unit {0})
  unfolding read_data_block free_level1 pointers bitmap_clear_bit data_base
  free_dindirects [] = pure tt
  free_dindirects (d ∷ ds) =
      let rest = free_dindirects ds in
      if d == 0 then rest else (do
        d1_idxs ← read_data_block B sb d
        free_level1 (pointers ptrs_per_block 0 d1_idxs)
        clear_data_bit d
        rest)

  unfoldable pub free_inode_blocks : (inum : ℕ) → Exec State (Unit {0})
  unfolding read_inode free_direct free_indirect free_dindirects
  free_inode_blocks inum = do
    inode ← read_inode B sb inum
    free_direct (direct inode)
    if inode.indirect == 0 then pure tt else free_indirect inode.indirect
    free_dindirects (dindirects inode)
