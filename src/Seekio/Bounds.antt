-- ===== src/Seekio/Bounds.antt =====
-- The position of a seekable endpoint stays between the start and the end.
use sp25_ece391_group.Base.{
  ℕ, ◌+◌, ◌-◌, ◌*◌, ◌/◌, ◌^◌, ◌≤◌, ◌<◌, ◌≡◌, refl, inl, inr, Option, some, List, Ret, ok, err,
  crash, ◌==◌, ltb, if◌then◌else◌, length, take, arith, Bool-cases,
}
use sp25_ece391_group.Io.{ioctl_setpos, ioctl_setend}
use sp25_ece391_group.Seekio.{
  Backing, Seekio, room, whole_blocks, after_read, read_clamped, read, after_write, put, put_grown,
  write_whole, write, readat, writeat, set_pos, set_end, cntl,
}

pub record InRange {S : Type 0} (s : Seekio S) : Type 0 where
  pub before_end : s.cur ≤ s.end
  pub word : s.end < 2 ^ 64
  pub block : 0 < s.blksz

-- The backing endpoint reads and writes no more than it is asked to.
pub record IsBacking {S : Type 0} (b : Backing S) : Type 0 where
  pub read_most : (t : S) (p n : ℕ) (bs : List ℕ) → (b.readat t p n).0 ≡ ok bs → length bs ≤ n
  pub write_most :
      (t : S) (p : ℕ) (bs : List ℕ) (n : ℕ) → (b.writeat t p bs).0 ≡ ok n → n ≤ length bs

-- The calls of a client.
pub data Call : Type 0 where
  do_read : ℕ → Call
  do_write : List ℕ → Call
  do_readat : ℕ → ℕ → Call
  do_writeat : ℕ → List ℕ → Call
  do_seek : ℕ → Call
  do_grow : ℕ → Call

module _ {S : Type 0} (b : Backing S) where
  unfoldable pub apply : Seekio S → Call → Seekio S
  apply s (do_read n) = (read b s n).1
  apply s (do_write bs) = (write b s bs).1
  apply s (do_readat p n) = (readat b s p n).1
  apply s (do_writeat p bs) = (writeat b s p bs).1
  apply s (do_seek v) = (cntl b s ioctl_setpos (some v)).2
  apply s (do_grow v) = (cntl b s ioctl_setend (some v)).2

  unfoldable pub apply_all : Seekio S → List Call → Seekio S
  apply_all s List.[] = s
  apply_all s (List.◌∷◌ c cs) = apply_all (apply s c) cs

-- A new end is a 64-bit word that is not before the position.
module _ {S : Type 0} where
  abbrev pub Allowed : Seekio S → Call → Type 0
  Allowed s (do_grow v) = (s.cur ≤ v) × (v < 2 ^ 64)
  Allowed s (do_read n) = Unit
  Allowed s (do_write bs) = Unit
  Allowed s (do_readat p n) = Unit
  Allowed s (do_writeat p bs) = Unit
  Allowed s (do_seek v) = Unit

  abbrev pub AllAllowed : Backing S → Seekio S → List Call → Type 0
  AllAllowed b s List.[] = Unit
  AllAllowed b s (List.◌∷◌ c cs) = Allowed s c × AllAllowed b (apply b s c) cs

div-mul-le : (n k : ℕ) → n / k * k ≤ n
div-mul-le n k = grind arith

module _ {S : Type 0} (b : Backing S) (lawful : IsBacking b) where
  after_read-InRange :
      (s : Seekio S) (n : ℕ) (r : Ret (List ℕ) × S)
      → InRange s
      → s.cur + n ≤ s.end
      → ((bs : List ℕ) → r.0 ≡ ok bs → length bs ≤ n)
      → InRange (after_read b s r).1
  unfolding after_read
  after_read-InRange s n (ok bs, t) inv fits most = record {
    before_end = omega (arith, most bs refl);
    word = inv.word;
    block = inv.block;
  }
  after_read-InRange s n (err e, t) inv fits most = omega arith
  after_read-InRange s n (crash, t) inv fits most = omega arith

  after_write-InRange :
      (s : Seekio S) (n : ℕ) (r : Ret ℕ × S)
      → InRange s
      → s.cur + n ≤ s.end
      → ((k : ℕ) → r.0 ≡ ok k → k ≤ n)
      → InRange (after_write b s r).1
  unfolding after_write
  after_write-InRange s n (ok k, t) inv fits most = record {
    before_end = omega (arith, most k refl);
    word = inv.word;
    block = inv.block;
  }
  after_write-InRange s n (err e, t) inv fits most = omega arith
  after_write-InRange s n (crash, t) inv fits most = omega arith

  room-eq : (s : Seekio S) → InRange s → room s ≡ s.end - s.cur
  unfolding room
  room-eq s inv = omega arith

  read_clamped-InRange :
      (s : Seekio S) (n : ℕ) → InRange s → s.cur + n ≤ s.end → InRange (read_clamped b s n).1
  unfolding read_clamped whole_blocks
  read_clamped-InRange s n inv fits = elim (Bool-cases (n == 0)) [
    | inl z ↦ rw z inv
    | inr nz ↦ rw nz (elim (Bool-cases (ltb n s.blksz)) [
      | inl small ↦ rw small inv
      | inr big ↦ rw big (
          after_read-InRange s (whole_blocks s.blksz n) _ inv (omega (arith, div-mul-le n s.blksz))
            (lawful.read_most s.bkgio s.cur (whole_blocks s.blksz n)))
    ])
  ]

  read-InRange : (s : Seekio S) (n : ℕ) → InRange s → InRange (read b s n).1
  unfolding read
  read-InRange s n inv =
      read_clamped-InRange s (if ltb (room s) n then room s else n) inv
        (ground (arith, room-eq s inv))

  put-InRange :
      (s : Seekio S) (bs : List ℕ) → InRange s → s.cur + length bs ≤ s.end → InRange (put b s bs).1
  unfolding put
  put-InRange s bs inv fits =
      after_write-InRange s (length bs) _ inv fits (lawful.write_most s.bkgio s.cur bs)

  put_grown-InRange :
      (s : Seekio S) (bs : List ℕ) (r : Ret ℕ × Option ℕ × S)
      → InRange s
      → s.cur + length bs < 2 ^ 64
      → InRange (put_grown b s (s.cur + length bs) bs r).1
  unfolding put_grown
  put_grown-InRange s bs (ok k, out, t) inv word = elim (Bool-cases (k == 0)) [
    | inl z ↦ rw z (
        put-InRange (record s { bkgio = t; end = s.cur + length bs }) bs
          (record { before_end = omega arith; word = word; block = inv.block }) (omega arith))
    | inr nz ↦ rw nz (omega arith)
  ]
  put_grown-InRange s bs (err e, out, t) inv word = omega arith
  put_grown-InRange s bs (crash, out, t) inv word = omega arith

  write_whole-InRange : (s : Seekio S) (bs : List ℕ) → InRange s → InRange (write_whole b s bs).1
  unfolding write_whole
  write_whole-InRange s bs inv = elim (Bool-cases (ltb (room s) (length bs))) [
    | inl past ↦ rw past (elim (Bool-cases (ltb (2 ^ 64 - 1 - s.cur) (length bs))) [
      | inl wraps ↦ rw wraps inv
      | inr fits ↦ rw fits (
          put_grown-InRange s bs (b.cntl s.bkgio ioctl_setend (some (s.cur + length bs))) inv
            (ground arith))
    ])
    | inr inside ↦ rw inside (put-InRange s bs inv (ground (arith, room-eq s inv)))
  ]

  write-InRange : (s : Seekio S) (bs : List ℕ) → InRange s → InRange (write b s bs).1
  unfolding write
  write-InRange s bs inv = elim (Bool-cases (length bs == 0)) [
    | inl z ↦ rw z inv
    | inr nz ↦ rw nz (elim (Bool-cases (ltb (length bs) s.blksz)) [
      | inl small ↦ rw small inv
      | inr big ↦ rw big (write_whole-InRange s (take (whole_blocks s.blksz (length bs)) bs) inv)
    ])
  ]

  set_end-InRange :
      (s : Seekio S) (v : ℕ) (r : Ret ℕ × Option ℕ × S)
      → InRange s
      → s.cur ≤ v
      → v < 2 ^ 64
      → InRange (set_end b s v r).1
  unfolding set_end
  set_end-InRange s v (ok k, out, t) inv h word = ground arith
  set_end-InRange s v (err e, out, t) inv h word = omega arith
  set_end-InRange s v (crash, out, t) inv h word = omega arith

  set_pos-InRange : (s : Seekio S) (v : ℕ) → InRange s → InRange (set_pos b s v).1
  unfolding set_pos
  set_pos-InRange s v inv = ground arith

  apply-InRange : (s : Seekio S) (c : Call) → InRange s → Allowed s c → InRange (apply b s c)
  unfolding apply cntl readat writeat
  apply-InRange s (do_read n) inv h = read-InRange s n inv
  apply-InRange s (do_write bs) inv h = write-InRange s bs inv
  apply-InRange s (do_readat p n) inv h = omega arith
  apply-InRange s (do_writeat p bs) inv h = omega arith
  apply-InRange s (do_seek v) inv h = set_pos-InRange s v inv
  apply-InRange s (do_grow v) inv h =
      set_end-InRange s v (b.cntl s.bkgio ioctl_setend (some v)) inv h.0 h.1

  -- Over a backing endpoint that reads and writes no more than it is asked to, any sequence of
  -- reads, writes, reads and writes by position, IOCTL_SETPOS and IOCTL_SETEND keeps the position
  -- between the start and the end, and the end a 64-bit word, provided that no IOCTL_SETEND puts the
  -- end before the position.
  pub apply_all-InRange :
      (s : Seekio S) (cs : List Call) → InRange s → AllAllowed b s cs → InRange (apply_all b s cs)
  unfolding apply_all
  apply_all-InRange s List.[] inv h = inv
  apply_all-InRange s (List.◌∷◌ c cs) inv h =
      apply_all-InRange (apply b s c) cs (apply-InRange s c inv h.0) h.1
