-- ===== src/Ktfs/Files.antt =====
-- The calls on an open file of sys/ktfs.c, and mounting and flushing. `given` says that the pointers
-- passed are not NULL. What a read that fails has left in the buffer is not modelled.
pub mod Reads
pub mod Direct
pub mod Writes
use sp25_ece391_group.Base.{
  ℕ, zero, suc, ◌+◌, ◌-◌, ◌/◌, ◌%◌, Bool, true, false, ◌||◌, not, Option, none, some, List, [], ◌∷◌,
  ◌++◌, ℤ, pos, negsuc, take, drop, length, einval, eio, enotsup, Ret, ok, err, crash, ◌==◌, ltb,
  leb, if◌then◌else◌, min,
}
use sp25_ece391_group.Exec.{Exec, pure, fail, die, recover, ◌>>=◌, ◌>>◌}
use sp25_ece391_group.Io.{ioctl_getblksz, ioctl_getend, ioctl_setend}
use sp25_ece391_group.Memio.{memcpy_at}
use sp25_ece391_group.Cache.{Bdev, Cache, create_cache}
use sp25_ece391_group.Ktfs.{
  Superblock, Inode, KtfsFile, blksz, file_in_use, file_free, u16, u32, u64, position, data_block,
}
use sp25_ece391_group.Ktfs.Codec.{superblock_at}
use sp25_ece391_group.Ktfs.Store.{BlockStore}
use sp25_ece391_group.Ktfs.Inodes.{read_inode, read_data_block}
use sp25_ece391_group.Ktfs.Blocks.{get_blocknum_for_offset, set_end}

-- The bytes of one round: to the end of the block, or as many as are left.
unfoldable pub to_copy : (cur_pos left : ℕ) → ℕ
to_copy cur_pos left =
    if ltb (u32 left) (blksz - cur_pos % blksz) then u32 left else blksz - cur_pos % blksz

-- The length that `ktfs_readat` cuts a request to.
unfoldable pub cut : (size start len : ℕ) → ℕ
cut size start len = if ltb size (u64 (start + len)) then size - start else len

unfoldable pub close : KtfsFile → KtfsFile
close file = record file { flags = file_free }

-- What is checked of the superblock that was read.
unfoldable pub checked : Superblock → Ret Superblock
checked sb =
    if (sb.block_count == 0 || sb.bitmap_block_count == 0) || sb.inode_block_count == 0
    then err einval
    else ok sb

unfoldable pub mounted : {S : Type 0} → Ret (Cache S) → Ret (List ℕ) → Ret (Superblock × Cache S)
unfolding superblock_at checked
mounted (ok c) (ok bs) =
    if length bs == blksz
    then elim (checked (superblock_at bs)) [ ok sb ↦ ok (sb, c) | err e ↦ err e | crash ↦ crash ]
    else err eio
mounted (ok c) (err e) = err eio
mounted (ok c) crash = crash
mounted (err e) r = err e
mounted crash r = crash

-- `fresh` is what `kcalloc` gives for the cache. The reference to the device that is taken is not
-- part of the model.
unfoldable pub mount :
    (d : Bdev) (given : Bool) → Option ℕ → d.State → Ret (Superblock × Cache d.State)
unfolding mounted create_cache
mount d given fresh s =
    if given then mounted (create_cache true fresh s) (d.readat s 0 blksz) else err einval

-- An open file, and the store.
pub record Opened (S : Type 0) : Type 0 where
  pub file : KtfsFile
  pub store : S

module _ (B : BlockStore) (sb : Superblock) where
  open B use {State, with_block}

  -- The loop of `ktfs_readat`, of which `len - total` bytes are left. It needs a round for each byte
  -- at most, and one to stop.
  unfoldable pub read_loop : (fuel : ℕ) → Inode → (start len total : ℕ) → Exec State (List ℕ)
  unfolding to_copy get_blocknum_for_offset read_data_block
  read_loop zero inode start len total = die
  read_loop (suc fuel) inode start len total =
      let cur_pos = u64 (start + total) in
      let to = to_copy cur_pos (len - total) in
      let rest = read_loop fuel inode start len (total + to) in
      if leb len total then pure [] else (do
        phys ← get_blocknum_for_offset B sb inode (u32 (cur_pos / blksz))
        blkbuf ← recover eio (read_data_block B sb phys)
        more ← rest
        pure (take to (drop (cur_pos % blksz) blkbuf) ++ more))

  -- The bytes read; the file stays as it is.
  unfoldable pub readat : (given : Bool) → KtfsFile → (start : ℕ) → ℤ → Exec State (List ℕ)
  unfolding read_inode read_loop cut
  readat given file start (negsuc n) = fail einval
  readat given file start (pos n) =
      if not given || not (file.flags == file_in_use)
      then fail einval
      else if leb file.size start
      then pure []
      else (do
        inode ← read_inode B sb (u16 file.inode_num)
        read_loop (cut file.size start n + 1) inode start (cut file.size start n) 0)

  -- The loop of `ktfs_writeat`.
  unfoldable pub write_loop :
      (fuel : ℕ) → Inode → (start : ℕ) → (buf : List ℕ) → (total : ℕ) → Exec State ℕ
  unfolding to_copy get_blocknum_for_offset data_block memcpy_at
  write_loop zero inode start buf total = die
  write_loop (suc fuel) inode start buf total =
      let cur = u64 (start + total) in
      let to = to_copy cur (length buf - total) in
      let rest = write_loop fuel inode start buf (total + to) in
      if leb (length buf) total then pure total else (do
        phys ← get_blocknum_for_offset B sb inode (u32 (cur / blksz))
        _ ←
            with_block (position (data_block sb phys))
              (λ bs. some (memcpy_at bs (cur % blksz) (take to (drop total buf))))
        rest)

  unfoldable pub extend : KtfsFile → (end_pos : ℕ) → Exec State KtfsFile
  unfolding set_end
  extend file end_pos = if ltb file.size end_pos then set_end B sb file end_pos else pure file

  unfoldable pub write_extended : KtfsFile → (start : ℕ) → (buf : List ℕ) → Exec State ℕ
  unfolding read_inode write_loop
  write_extended file start buf = do
    inode ← read_inode B sb (u16 file.inode_num)
    write_loop (length buf + 1) inode start buf 0

  -- A file that has grown stays so if the write fails.
  unfoldable pub write_after :
      KtfsFile → (start : ℕ) → (buf : List ℕ) → Ret KtfsFile × State → Ret ℕ × Opened State
  unfolding write_extended
  write_after file start buf (ok grown, s) =
      let (r, t) = write_extended grown start buf s in (r, record { file = grown; store = t })
  write_after file start buf (err e, s) = (err e, record { file = file; store = s })
  write_after file start buf (crash, s) = (crash, record { file = file; store = s })

  -- The buffer is `buf`, its length is the request, and `none` is a negative one. The file is a part
  -- of the state.
  unfoldable pub writeat : (given : Bool) → (start : ℕ) → Option (List ℕ) → Exec (Opened State) ℕ
  unfolding extend write_after
  writeat given start none o = (err einval, o)
  writeat given start (some buf) o =
      if not given || not (o.file.flags == file_in_use)
      then (err einval, o)
      else write_after o.file start buf (extend o.file (u64 (start + length buf)) o.store)

  -- The result, what `arg` points to afterwards if it is written, and the file. `arg` may be NULL.
  unfoldable pub cntl :
      (given : Bool)
      → KtfsFile
      → (cmd : ℕ) → (arg : Option ℕ) → Exec State (ℕ × Option ℕ × KtfsFile)
  unfolding set_end
  cntl false file cmd arg = fail einval
  cntl true file cmd none =
      if cmd == ioctl_getblksz
      then pure (1, none, file)
      else if cmd == ioctl_getend || cmd == ioctl_setend
      then fail einval
      else fail enotsup
  cntl true file cmd (some v) =
      if cmd == ioctl_getblksz
      then pure (1, none, file)
      else if cmd == ioctl_getend
      then pure (0, some file.size, file)
      else if cmd == ioctl_setend
      then (do grown ← set_end B sb file v; pure (0, none, grown))
      else fail enotsup

  -- `cached` says that there is a cache.
  unfoldable pub flush : (cached : Bool) → Exec State (Unit {0})
  flush true = B.flush
  flush false = pure tt
