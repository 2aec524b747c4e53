-- ===== src/Seekio.antt =====
-- The seekable I/O of sys/io.c: a position over an endpoint that is read and written by position.
-- The backing endpoint is a parameter. Numbers are unsigned 64-bit words; a length is what `ioread`
-- and `iowrite` hand on, a `long` that is not negative.
pub mod Bounds
mod Tests
use sp25_ece391_group.Base.{
  ℕ, ◌+◌, ◌-◌, ◌*◌, ◌/◌, ◌%◌, ◌^◌, Option, none, some, List, einval, Ret, ok, err, crash, ◌==◌, ltb,
  if◌then◌else◌, length, take,
}
use sp25_ece391_group.Io.{ioctl_getblksz, ioctl_getend, ioctl_setend, ioctl_getpos, ioctl_setpos}

-- What the code calls of the backing endpoint: `ioreadat`, `iowriteat` and `ioctl`. `ok n` of
-- `ioctl` is a result that is not negative, beside the number stored through the argument.
pub record Backing (S : Type 0) : Type 0 where
  pub readat : S → ℕ → ℕ → Ret (List ℕ) × S
  pub writeat : S → ℕ → List ℕ → Ret ℕ × S
  pub cntl : S → ℕ → Option ℕ → Ret ℕ × Option ℕ × S

-- `struct seekio`, with the state of its backing endpoint.
pub record Seekio (S : Type 0) : Type 0 where
  pub bkgio : S
  pub cur : ℕ
  pub end : ℕ
  pub blksz : ℕ

-- `end - pos` of unsigned long longs.
unfoldable pub room : {S : Type 0} → Seekio S → ℕ
room s = (s.end + 2 ^ 64 - s.cur) % 2 ^ 64

-- `n & ~(blksz - 1)`: the block size is a power of two, which `create_seekable_io` asserts.
unfoldable pub whole_blocks : ℕ → ℕ → ℕ
whole_blocks blksz n = n / blksz * blksz

module _ {S : Type 0} (b : Backing S) where
  -- The result of a read, and the position that it leaves.
  unfoldable pub after_read : Seekio S → Ret (List ℕ) × S → Ret (List ℕ) × Seekio S
  after_read s (ok bs, t) = (ok bs, record s { bkgio = t; cur = s.cur + length bs })
  after_read s (err e, t) = (err e, record s { bkgio = t })
  after_read s (crash, t) = (crash, record s { bkgio = t })

  -- `seekio_read` once the request is cut at the end.
  unfoldable pub read_clamped : Seekio S → ℕ → Ret (List ℕ) × Seekio S
  unfolding after_read whole_blocks
  read_clamped s n =
      if n == 0
      then (ok List.[], s)
      else if ltb n s.blksz
      then (err einval, s)
      else after_read s (b.readat s.bkgio s.cur (whole_blocks s.blksz n))

  unfoldable pub read : Seekio S → ℕ → Ret (List ℕ) × Seekio S
  unfolding read_clamped room
  read s n = read_clamped s (if ltb (room s) n then room s else n)

  unfoldable pub after_write : Seekio S → Ret ℕ × S → Ret ℕ × Seekio S
  after_write s (ok n, t) = (ok n, record s { bkgio = t; cur = s.cur + n })
  after_write s (err e, t) = (err e, record s { bkgio = t })
  after_write s (crash, t) = (crash, record s { bkgio = t })

  unfoldable pub put : Seekio S → List ℕ → Ret ℕ × Seekio S
  unfolding after_write
  put s bs = after_write s (b.writeat s.bkgio s.cur bs)

  -- The write once the end has been moved; any result of `ioctl` but 0 is returned.
  unfoldable pub put_grown : Seekio S → ℕ → List ℕ → Ret ℕ × Option ℕ × S → Ret ℕ × Seekio S
  unfolding put
  put_grown s new_end bs (ok r, out, t) =
      if r == 0
      then put (record s { bkgio = t; end = new_end }) bs
      else (ok r, record s { bkgio = t })
  put_grown s new_end bs (err e, out, t) = (err e, record s { bkgio = t })
  put_grown s new_end bs (crash, out, t) = (crash, record s { bkgio = t })

  -- `seekio_write` of whole blocks.
  unfoldable pub write_whole : Seekio S → List ℕ → Ret ℕ × Seekio S
  unfolding put put_grown room
  write_whole s bs =
      if ltb (room s) (length bs)
      then if ltb (2 ^ 64 - 1 - s.cur) (length bs)
        then (err einval, s)
        else put_grown s (s.cur + length bs) bs
            (b.cntl s.bkgio ioctl_setend (some (s.cur + length bs)))
      else put s bs

  unfoldable pub write : Seekio S → List ℕ → Ret ℕ × Seekio S
  unfolding write_whole whole_blocks
  write s bs =
      if length bs == 0
      then (ok 0, s)
      else if ltb (length bs) s.blksz
      then (err einval, s)
      else write_whole s (take (whole_blocks s.blksz (length bs)) bs)

  unfoldable pub readat : Seekio S → ℕ → ℕ → Ret (List ℕ) × Seekio S
  readat s p n = let (r, t) = b.readat s.bkgio p n in (r, record s { bkgio = t })

  unfoldable pub writeat : Seekio S → ℕ → List ℕ → Ret ℕ × Seekio S
  writeat s p bs = let (r, t) = b.writeat s.bkgio p bs in (r, record s { bkgio = t })

  -- IOCTL_SETPOS: a multiple of the block size that is not past the end.
  unfoldable pub set_pos : Seekio S → ℕ → Ret ℕ × Seekio S
  set_pos s v =
      if v % s.blksz == 0
      then if ltb s.end v then (err einval, s) else (ok 0, record s { cur = v })
      else (err einval, s)

  -- IOCTL_SETEND: the end moves with that of the backing endpoint.
  unfoldable pub set_end : Seekio S → ℕ → Ret ℕ × Option ℕ × S → Ret ℕ × Seekio S
  set_end s v (ok r, out, t) =
      (ok r, if r == 0 then record s { bkgio = t; end = v } else record s { bkgio = t })
  set_end s v (err e, out, t) = (err e, record s { bkgio = t })
  set_end s v (crash, out, t) = (crash, record s { bkgio = t })

  -- The commands that need a number crash on a NULL argument.
  unfoldable pub cntl : Seekio S → ℕ → Option ℕ → Ret ℕ × Option ℕ × Seekio S
  unfolding set_pos set_end
  cntl s cmd arg =
      if cmd == ioctl_getblksz
      then (ok s.blksz, none, s)
      else if cmd == ioctl_getpos
      then elim arg [ none ↦ (crash, none, s) | some v ↦ (ok 0, some s.cur, s) ]
      else if cmd == ioctl_setpos
      then elim arg [
        | none ↦ (crash, none, s)
        | some v ↦ let (r, s') = set_pos s v in (r, none, s')
      ]
      else if cmd == ioctl_getend
      then elim arg [ none ↦ (crash, none, s) | some v ↦ (ok 0, some s.end, s) ]
      else if cmd == ioctl_setend
      then elim arg [
        | none ↦ (crash, none, s)
        | some v ↦ let (r, s') = set_end s v (b.cntl s.bkgio ioctl_setend (some v)) in (r, none, s')
      ]
      else (let (r, out, t) = b.cntl s.bkgio cmd arg in (r, out, record s { bkgio = t }))
