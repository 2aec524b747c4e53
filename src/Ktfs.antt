-- ===== src/Ktfs.antt =====
-- The file system of sys/ktfs.c: its data, the layout of an image, and the numbers of its blocks. The
-- functions are in the modules below, over the blocks of the cache (Ktfs.Store).
pub mod Store
pub mod Codec
pub mod Inodes
pub mod Blocks
pub mod Files
pub mod Names
mod Tests
use sp25_ece391_group.Base.{ℕ, ◌+◌, ◌*◌, ◌/◌, ◌%◌, ◌^◌}

abbrev pub blksz : ℕ
blksz = 512

abbrev pub inosz : ℕ
inosz = 32

abbrev pub densz : ℕ
densz = 16

-- KTFS_MAX_FILENAME_LEN.
abbrev pub max_filename_len : ℕ
max_filename_len = 13

abbrev pub num_direct : ℕ
num_direct = 3

-- KTFS_FILE_IN_USE and KTFS_FILE_FREE.
abbrev pub file_in_use : ℕ
file_in_use = 1

abbrev pub file_free : ℕ
file_free = 0

-- A uint32_t, a uint16_t and an unsigned long long.
abbrev pub u32 : ℕ → ℕ
u32 n = n % 2 ^ 32

abbrev pub u16 : ℕ → ℕ
u16 n = n % 2 ^ 16

abbrev pub u64 : ℕ → ℕ
u64 n = n % 2 ^ 64

-- `struct ktfs_superblock`.
pub record Superblock : Type 0 where
  pub block_count : ℕ
  pub bitmap_block_count : ℕ
  pub inode_block_count : ℕ
  pub root_directory_inode : ℕ

-- `struct ktfs_inode`: the arrays `block` and `dindirect` by their elements.
pub record Inode : Type 0 where
  pub size : ℕ
  pub flags : ℕ
  pub block0 : ℕ
  pub block1 : ℕ
  pub block2 : ℕ
  pub indirect : ℕ
  pub dindirect0 : ℕ
  pub dindirect1 : ℕ

-- `struct ktfs_file`.
pub record KtfsFile : Type 0 where
  pub size : ℕ
  pub inode_num : ℕ
  pub flags : ℕ

-- The position of a block, which is a uint32_t.
abbrev pub position : ℕ → ℕ
position block_idx = u32 (block_idx * blksz)

-- The first block behind the bitmaps and the inodes.
unfoldable pub data_base : Superblock → ℕ
data_base sb = u32 (1 + sb.bitmap_block_count + sb.inode_block_count)

unfoldable pub data_block : Superblock → ℕ → ℕ
unfolding data_base
data_block sb blockno = u32 (data_base sb + blockno)

-- Where an inode is stored: its block, and the offset in it.
unfoldable pub inode_block : Superblock → ℕ → ℕ
inode_block sb inum = u32 (1 + sb.bitmap_block_count + inum / (blksz / inosz))

unfoldable pub inode_offset : ℕ → ℕ
inode_offset inum = inum % (blksz / inosz) * inosz
