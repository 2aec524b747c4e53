-- ===== src/Ktfs/Codec.antt =====
-- How sys/ktfs.c reads and writes the packed structures of sys/ktfs.h in a block: numbers are little
-- endian. `offset` is a byte's place in the block.
pub mod Laws
use sp25_ece391_group.Base.{
  ℕ, zero, suc, ◌+◌, ◌*◌, ◌/◌, ◌%◌, List, [], ◌∷◌, get_or, drop, ◌==◌, if◌then◌else◌,
}
use sp25_ece391_group.Ktfs.{Superblock, Inode, blksz, densz}

abbrev pub byte_at : List ℕ → ℕ → ℕ
byte_at bs offset = get_or bs offset 0

unfoldable pub word16 : List ℕ → ℕ → ℕ
word16 bs offset = byte_at bs offset + 256 * byte_at bs (offset + 1)

unfoldable pub word32 : List ℕ → ℕ → ℕ
word32 bs offset =
    byte_at bs offset
    + 256 * byte_at bs (offset + 1)
    + 65536 * byte_at bs (offset + 2)
    + 16777216 * byte_at bs (offset + 3)

abbrev pub bytes16 : ℕ → List ℕ
bytes16 v = v % 256 ∷ v / 256 % 256 ∷ []

-- The bytes of a number, and what follows them.
abbrev pub bytes32 : ℕ → List ℕ → List ℕ
bytes32 v rest = v % 256 ∷ v / 256 % 256 ∷ v / 65536 % 256 ∷ v / 16777216 % 256 ∷ rest

-- `memcpy(&fs.sb, buf, sizeof(struct ktfs_superblock))`.
unfoldable pub superblock_at : List ℕ → Superblock
unfolding word16 word32
superblock_at bs = record {
  block_count = word32 bs 0;
  bitmap_block_count = word32 bs 4;
  inode_block_count = word32 bs 8;
  root_directory_inode = word16 bs 12;
}

-- `memcpy(out, buf + offset, sizeof(struct ktfs_inode))`.
unfoldable pub inode_at : List ℕ → ℕ → Inode
unfolding word32
inode_at bs offset = record {
  size = word32 bs offset;
  flags = word32 bs (offset + 4);
  block0 = word32 bs (offset + 8);
  block1 = word32 bs (offset + 12);
  block2 = word32 bs (offset + 16);
  indirect = word32 bs (offset + 20);
  dindirect0 = word32 bs (offset + 24);
  dindirect1 = word32 bs (offset + 28);
}

-- The bytes of an inode.
unfoldable pub inode_bytes : Inode → List ℕ
inode_bytes n = bytes32 n.size (
    bytes32 n.flags (
      bytes32 n.block0 (
        bytes32 n.block1 (
          bytes32 n.block2 (bytes32 n.indirect (bytes32 n.dindirect0 (bytes32 n.dindirect1 [])))))))

-- A block as an array of `n` pointers.
unfoldable pub pointers : (n offset : ℕ) → List ℕ → List ℕ
unfolding word32
pointers zero offset bs = []
pointers (suc n) offset bs = word32 bs offset ∷ pointers n (offset + 4) bs

-- The characters before a zero, from a place of the block on.
unfoldable pub cstring : List ℕ → List ℕ
cstring [] = []
cstring (c ∷ cs) = let rest = cstring cs in if c == 0 then [] else c ∷ rest

-- `dentries[j].inode` and `dentries[j].name`.
unfoldable pub entry_inode : List ℕ → ℕ → ℕ
unfolding word16
entry_inode bs j = word16 bs (j * densz)

unfoldable pub entry_name : List ℕ → ℕ → List ℕ
unfolding cstring
entry_name bs j = cstring (drop (j * densz + 2) bs)
