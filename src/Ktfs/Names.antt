-- ===== src/Ktfs/Names.antt =====
-- The root directory of sys/ktfs.c: `ktfs_open`, `ktfs_create` and `ktfs_delete`. A name is the list of
-- its characters, and `none` is NULL. The messages on the console are not modelled.
pub mod Entries
pub mod Inums
use sp25_ece391_group.Base.{
  ℕ, zero, suc, ◌+◌, ◌-◌, ◌*◌, ◌/◌, ◌%◌, ◌^◌, Bool, true, false, ◌&&◌, ◌||◌, not, Option, none,
  some, List, [], ◌∷◌, ◌++◌, ℤ, pos, negsuc, take, drop, replicate, length, set, get_or, einval,
  eio, enoent, enoinodeblks, ◌==◌, ltb, leb, if◌then◌else◌,
}
use sp25_ece391_group.Exec.{Exec, pure, fail, die, attempt, ◌>>=◌, ◌>>◌}
use sp25_ece391_group.Memio.{memcpy_at}
use sp25_ece391_group.Strings.{strcmp, strncpy}
use sp25_ece391_group.Ktfs.{
  Superblock, Inode, KtfsFile, blksz, inosz, densz, max_filename_len, file_in_use, u16, u32,
  position, data_block,
}
use sp25_ece391_group.Ktfs.Codec.{bytes16, entry_inode, entry_name}
use sp25_ece391_group.Ktfs.Store.{BlockStore}
use sp25_ece391_group.Ktfs.Inodes.{
  read_inode, write_inode, read_data_block, bitmap_set, bitmap_clear_bit, alloc_data_block,
  update_root_size, shrink_root,
}
use sp25_ece391_group.Ktfs.Blocks.{direct, set_direct, free_inode_blocks}

-- KTFS_BLKSZ / KTFS_DENSZ.
abbrev pub entries_per_block : ℕ
entries_per_block = 32

abbrev pub is_zero : ℤ → Bool
is_zero (pos zero) = true
is_zero (pos (suc n)) = false
is_zero (negsuc n) = false

unfoldable pub has_name : List ℕ → ℕ → List ℕ → Bool
unfolding entry_name strcmp
has_name bs j name = is_zero (strcmp (some (entry_name bs j)) (some name))

-- The entry of a name in a block of the directory, with `n` entries to go: its inode number. An entry
-- is not skipped if it is free.
unfoldable pub search_block : (n j : ℕ) → List ℕ → List ℕ → Option ℕ
unfolding has_name entry_inode
search_block zero j bs name = none
search_block (suc n) j bs name =
    let rest = search_block n (j + 1) bs name in
    if has_name bs j name then some (entry_inode bs j) else rest

-- The search of `ktfs_create` in one block: `none` is a duplicate, and otherwise the slot found so far,
-- as its place in the block and the block's place.
unfoldable pub scan_block : (n j i : ℕ) → List ℕ → List ℕ → Option (ℕ × ℕ) → Option (Option (ℕ × ℕ))
unfolding has_name entry_inode
scan_block zero j i bs name slot = some slot
scan_block (suc n) j i bs name (some slot) =
    let rest = scan_block n (j + 1) i bs name (some slot) in
    if not (entry_inode bs j == 0) && has_name bs j name then none else rest
scan_block (suc n) j i bs name none =
    let rest =
      scan_block n (j + 1) i bs name (if entry_inode bs j == 0 then some (j, i) else none) in
    if not (entry_inode bs j == 0) && has_name bs j name then none else rest

-- The search of `ktfs_delete` in one block, which ends at the first free entry.
unfoldable pub find_block : (n j : ℕ) → List ℕ → List ℕ → Option ℕ
unfolding has_name entry_inode
find_block zero j bs name = none
find_block (suc n) j bs name =
    let rest = find_block n (j + 1) bs name in
    if entry_inode bs j == 0 then none else if has_name bs j name then some j else rest

-- The block with the new entry: `strncpy`, the zero behind the name, and the number.
unfoldable pub put_entry : List ℕ → (j : ℕ) → List ℕ → (inum : ℕ) → List ℕ
unfolding memcpy_at strncpy
put_entry bs j name inum =
    memcpy_at
      (set (memcpy_at bs (j * densz + 2) (strncpy max_filename_len name))
        (j * densz + 2 + max_filename_len) 0)
      (j * densz) (bytes16 inum)

-- `dentries[k] = dentries[k + 1]`.
unfoldable pub move_entry : (k : ℕ) → List ℕ → List ℕ
unfolding memcpy_at
move_entry k bs = memcpy_at bs (k * densz) (take densz (drop ((k + 1) * densz) bs))

-- The loop that moves the entries behind `k`, with `n` of them to go.
unfoldable pub shift_entries : (n k : ℕ) → List ℕ → List ℕ
unfolding move_entry
shift_entries zero k bs = bs
shift_entries (suc n) k bs = shift_entries n (k + 1) (move_entry k bs)

-- And `memset` of the last entry.
unfoldable pub remove_entry : (j : ℕ) → List ℕ → List ℕ
unfolding shift_entries memcpy_at
remove_entry j bs =
    memcpy_at (shift_entries (entries_per_block - 1 - j) j bs) ((entries_per_block - 1) * densz)
      (replicate densz 0)

abbrev pub fresh_inode : (flags : ℕ) → Inode
fresh_inode flags = record {
  size = 0;
  flags = flags;
  block0 = 0;
  block1 = 0;
  block2 = 0;
  indirect = 0;
  dindirect0 = 0;
  dindirect1 = 0;
}

module _ (B : BlockStore) (sb : Superblock) where
  open B use {State, with_block}

  -- `memcpy` of a whole block to a data block.
  unfoldable pub put_data_block : (blockno : ℕ) → List ℕ → Exec State (Unit {0})
  unfolding data_block
  put_data_block blockno bs = do
    _ ← with_block (position (data_block sb blockno)) (λ old. some bs)
    pure tt

  -- `first` is `root_inode.block[0]`.
  unfoldable pub open_blocks : List ℕ → (first : ℕ) → List ℕ → Exec State ℕ
  unfolding read_data_block search_block
  open_blocks [] first name = fail enoent
  open_blocks (b ∷ bs) first name =
      let rest = open_blocks bs first name in
      if b == 0 && not (first == 0) then rest else (do
        dentries ← read_data_block B sb b
        elim (search_block entries_per_block 0 dentries name) [
          | some inum ↦ pure inum
          | none ↦ rest
        ])

  -- The file that is opened; `kcalloc` gives it its memory, and it is wrapped by `create_seekable_io`.
  unfoldable pub open_file : Option (List ℕ) → (given : Bool) → Exec State KtfsFile
  unfolding read_inode open_blocks
  open_file none given = fail einval
  open_file (some name) false = fail einval
  open_file (some name) true = do
    root ← read_inode B sb sb.root_directory_inode
    inum ← open_blocks (direct root) root.block0 name
    inode ← read_inode B sb inum
    pure (record { size = inode.size; inode_num = inum; flags = file_in_use })

  -- The first block of the directory, if it has none.
  unfoldable pub root_block : Inode → Exec State Inode
  unfolding alloc_data_block write_inode put_data_block set_direct
  root_block root =
      if root.block0 == 0
      then (do
        new_blk ← alloc_data_block B sb
        write_inode B sb sb.root_directory_inode (set_direct root 0 new_blk)
        put_data_block new_blk (replicate blksz 0)
        pure (set_direct root 0 new_blk))
      else pure root

  -- The loop for a free slot, from block `i` of the directory on.
  unfoldable pub scan_blocks :
      List ℕ → (i : ℕ) → List ℕ → Option (ℕ × ℕ) → Exec State (Option (ℕ × ℕ))
  unfolding read_data_block scan_block
  scan_blocks [] i name slot = pure slot
  scan_blocks (b ∷ bs) i name slot = if b == 0 then scan_blocks bs (i + 1) name slot else (do
    dentries ← read_data_block B sb b
    elim (scan_block entries_per_block 0 i dentries name slot) [
      | none ↦ fail einval
      | some slot' ↦ scan_blocks bs (i + 1) name slot'
    ])

  abbrev pub is_free : Option Inode → Bool
  is_free none = false
  is_free (some n) = n.flags == 0

  -- The loop for a free inode, whose counter is a uint16_t. If it does not end within `fuel` rounds,
  -- it is taken not to end. An inode that cannot be read is passed over.
  unfoldable pub free_inode : (fuel total inum : ℕ) → Exec State ℕ
  unfolding read_inode attempt
  free_inode zero total inum = die
  free_inode (suc fuel) total inum =
      let rest = free_inode fuel total (u16 (inum + 1)) in
      if leb total inum then fail enoinodeblks else (do
        tmp ← (λ s. attempt (read_inode B sb inum s))
        if is_free tmp then pure inum else rest)

  abbrev pub total_inodes : ℕ
  total_inodes = u32 (sb.inode_block_count * 16)

  -- The new inode and its entry, once the slot and the inode number are found.
  unfoldable pub add_entry : Inode → List ℕ → (slot : ℕ × ℕ) → (inum : ℕ) → Exec State (Unit {0})
  unfolding bitmap_set write_inode read_data_block put_entry put_data_block update_root_size
  add_entry root name (j, i) inum = do
    bitmap_set B sb inum
    write_inode B sb inum (fresh_inode file_in_use)
    dentries ← read_data_block B sb (get_or (direct root) i 0)
    put_data_block (get_or (direct root) i 0) (put_entry dentries j name inum)
    update_root_size B sb densz

  unfoldable pub add_in_slot : Inode → List ℕ → Option (ℕ × ℕ) → Exec State (Unit {0})
  unfolding free_inode add_entry
  add_in_slot root name none = fail einval
  add_in_slot root name (some slot) = do
    inum ← free_inode (2 ^ 16 + 1) total_inodes 0
    add_entry root name slot inum

  unfoldable pub create : Option (List ℕ) → Exec State (Unit {0})
  unfolding read_inode root_block scan_blocks add_in_slot
  create none = fail einval
  create (some name) = if ltb max_filename_len (length name) then fail einval else (do
    inode ← read_inode B sb sb.root_directory_inode
    root ← root_block inode
    slot ← scan_blocks (direct root) 0 name none
    add_in_slot root name slot)

  -- The entry of a name: the number of its block, its place in it, and its inode number.
  unfoldable pub find_blocks : List ℕ → List ℕ → Exec State (ℕ × ℕ × ℕ)
  unfolding read_data_block find_block entry_inode
  find_blocks [] name = fail enoent
  find_blocks (b ∷ bs) name =
      let rest = find_blocks bs name in
      if b == 0 then rest else (do
        dentries ← read_data_block B sb b
        elim (find_block entries_per_block 0 dentries name) [
          | some j ↦ pure (b, j, entry_inode dentries j)
          | none ↦ rest
        ])

  unfoldable pub delete : Option (List ℕ) → Exec State (Unit {0})
  unfolding read_inode find_blocks free_inode_blocks write_inode bitmap_clear_bit read_data_block
      remove_entry put_data_block shrink_root
  delete none = fail einval
  delete (some name) = if ltb max_filename_len (length name) then fail einval else (do
    root ← read_inode B sb sb.root_directory_inode
    (blockno, j, inum) ← find_blocks (direct root) name
    free_inode_blocks B sb inum
    write_inode B sb inum (fresh_inode 0)
    bitmap_clear_bit B sb inum
    dentries ← read_data_block B sb blockno
    put_data_block blockno (remove_entry j dentries)
    shrink_root B sb densz)
