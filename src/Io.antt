-- ===== src/Io.antt =====
-- The unified I/O objects of sys/io.c and sys/ioimpl.h: reference counts, and the calls that go
-- through an endpoint's table of functions. An endpoint's state is `S`; a function that the table
-- leaves NULL is `none`. A `long` argument is an integer, and a call that may fail returns `Ret`.
pub mod Transfer
pub mod Refs
mod Tests
use sp25_ece391_group.Base.{
  ℕ, zero, suc, ◌+◌, ◌-◌, ◌%◌, ◌^◌, Bool, true, false, Option, none, some, List, [], ◌∷◌, ◌++◌, ℤ,
  pos, negsuc, einval, enotsup, Ret, ok, err, crash, ◌==◌, leb, if◌then◌else◌, length, drop,
}

-- `struct iointf`: `cntl` takes a command and the number its argument points to, and gives the
-- result and the number stored through the argument.
pub record Intf (S : Type 0) : Type 0 where
  pub close : Option (S → S)
  pub cntl : Option (S → ℕ → Option ℕ → Ret ℕ × Option ℕ × S)
  pub read : Option (S → ℕ → Ret (List ℕ) × S)
  pub write : Option (S → List ℕ → Ret ℕ × S)
  pub readat : Option (S → ℕ → ℕ → Ret (List ℕ) × S)
  pub writeat : Option (S → ℕ → List ℕ → Ret ℕ × S)

-- `struct io`, with the state of the object that it stands in.
pub record Io (S : Type 0) : Type 0 where
  pub intf : Intf S
  pub refcnt : ℕ
  pub object : S

abbrev pub ioctl_getblksz : ℕ
ioctl_getblksz = 0

abbrev pub ioctl_getend : ℕ
ioctl_getend = 2

abbrev pub ioctl_setend : ℕ
ioctl_setend = 3

abbrev pub ioctl_getpos : ℕ
ioctl_getpos = 4

abbrev pub ioctl_setpos : ℕ
ioctl_setpos = 5

module _ {S : Type 0} where
  unfoldable pub ioinit0 : Intf S → S → Io S
  ioinit0 f s = record { intf = f; refcnt = 0; object = s }

  unfoldable pub ioinit1 : Intf S → S → Io S
  ioinit1 f s = record { intf = f; refcnt = 1; object = s }

  -- `refcnt` is an unsigned long.
  unfoldable pub ioaddref : Io S → Io S
  ioaddref io = record io { refcnt = (io.refcnt + 1) % 2 ^ 64 }

  unfoldable pub close_last : Intf S → S → S
  close_last f s = elim f.close [ none ↦ s | some g ↦ g s ]

  -- `none` is the failed assertion that the count is not 0.
  unfoldable pub ioclose : Io S → Option (Io S)
  unfolding close_last
  ioclose io =
      if io.refcnt == 0
      then none
      else some (
          if io.refcnt - 1 == 0
          then record io { refcnt = 0; object = close_last io.intf io.object }
          else record io { refcnt = io.refcnt - 1 })

  -- The result of an operation on the object, put back into the endpoint.
  abbrev pub with_object {ℓ} : {A : Type ℓ} → Io S → Ret A × S → Ret A × Io S
  with_object io (r, s) = (r, record io { object = s })

  unfoldable pub ioread : Io S → ℤ → Ret (List ℕ) × Io S
  ioread io n = elim io.intf.read [
    | none ↦ (err enotsup, io)
    | some f ↦ elim n [ pos k ↦ with_object io (f io.object k) | negsuc k ↦ (err einval, io) ]
  ]

  -- What follows a read in `iofill`; `rest` is the loop's next round.
  unfoldable pub fill_after :
      (ℕ → List ℕ → S → Ret (List ℕ) × S) → ℕ → List ℕ → Ret (List ℕ) × S → Ret (List ℕ) × S
  fill_after rest want got (ok [], s) = (ok got, s)
  fill_after rest want got (ok (b ∷ more), s) =
      rest (want - length (b ∷ more)) (got ++ (b ∷ more)) s
  fill_after rest want got (err e, s) = (err e, s)
  fill_after rest want got (crash, s) = (crash, s)

  -- The loop of `iofill`, with `want` bytes to go and `got` read; each round reads a byte or more,
  -- so that `want` rounds are enough.
  unfoldable pub fill_loop : (S → ℕ → Ret (List ℕ) × S) → ℕ → ℕ → List ℕ → S → Ret (List ℕ) × S
  fill_loop f zero want got s = (ok got, s)
  fill_loop f (suc fuel) want got s =
      if want == 0 then (ok got, s) else fill_after (fill_loop f fuel) want got (f s want)

  unfoldable pub iofill : Io S → ℤ → Ret (List ℕ) × Io S
  unfolding fill_loop
  iofill io n = elim io.intf.read [
    | none ↦ (err enotsup, io)
    | some f ↦ elim n [
      | pos k ↦ with_object io (fill_loop f k k [] io.object)
      | negsuc k ↦ (err einval, io)
    ]
  ]

  -- What follows a write in `iowrite`; `left` was to be written and `sent` had been.
  unfoldable pub write_after : (List ℕ → ℕ → S → Ret ℕ × S) → List ℕ → ℕ → Ret ℕ × S → Ret ℕ × S
  write_after rest left sent (ok n, s) =
      if n == 0
      then (ok sent, s)
      else if leb (length left) n
      then (ok (sent + n), s)
      else rest (drop n left) (sent + n) s
  write_after rest left sent (err e, s) = (err e, s)
  write_after rest left sent (crash, s) = (crash, s)

  -- The loop of `iowrite`, which writes at least once.
  unfoldable pub write_loop : (S → List ℕ → Ret ℕ × S) → ℕ → List ℕ → ℕ → S → Ret ℕ × S
  write_loop f zero left sent s = (ok sent, s)
  write_loop f (suc fuel) left sent s = write_after (write_loop f fuel) left sent (f s left)

  -- `none` is a negative length.
  unfoldable pub iowrite : Io S → Option (List ℕ) → Ret ℕ × Io S
  unfolding write_loop
  iowrite io buf = elim io.intf.write [
    | none ↦ (err enotsup, io)
    | some f ↦ elim buf [
      | none ↦ (err einval, io)
      | some bs ↦ with_object io (write_loop f (suc (length bs)) bs 0 io.object)
    ]
  ]

  unfoldable pub ioreadat : Io S → ℕ → ℤ → Ret (List ℕ) × Io S
  ioreadat io p n = elim io.intf.readat [
    | none ↦ (err enotsup, io)
    | some f ↦ elim n [ pos k ↦ with_object io (f io.object p k) | negsuc k ↦ (err einval, io) ]
  ]

  unfoldable pub iowriteat : Io S → ℕ → Option (List ℕ) → Ret ℕ × Io S
  iowriteat io p buf = elim io.intf.writeat [
    | none ↦ (err enotsup, io)
    | some f ↦ elim buf [ none ↦ (err einval, io) | some bs ↦ with_object io (f io.object p bs) ]
  ]

  unfoldable pub ioctl : Io S → ℕ → Option ℕ → Ret ℕ × Option ℕ × Io S
  ioctl io cmd arg = elim io.intf.cntl [
    | none ↦ if cmd == ioctl_getblksz then (ok 1, none, io) else (err enotsup, none, io)
    | some f ↦ let (r, out, s) = f io.object cmd arg in (r, out, record io { object = s })
  ]

  unfoldable pub ioblksz : Io S → Ret ℕ
  unfolding ioctl
  ioblksz io = (ioctl io ioctl_getblksz none).0

  unfoldable pub ioseek : Io S → ℕ → Ret ℕ × Option ℕ × Io S
  unfolding ioctl
  ioseek io p = ioctl io ioctl_setpos (some p)
