-- ===== src/Memio.antt =====
-- The memory I/O of sys/io.c: an endpoint over a block of memory of fixed size.
pub mod Laws
mod Tests
use sp25_ece391_group.Base.{
  ℕ, suc, ◌+◌, ◌-◌, ◌<◌, Option, none, some, List, [], ◌∷◌, ◌++◌, ℤ, pos, negsuc, einval, enotsup,
  Ret, ok, err, crash, ◌==◌, leb, ltb, if◌then◌else◌, length, take, drop,
}
use sp25_ece391_group.Io.{Intf, Io, ioctl_getblksz, ioctl_getend, ioctl_setend, ioinit1}

-- `struct memio`; `buf` is the memory that the pointer leads to.
pub record Memio : Type 0 where
  pub buf : List ℕ
  pub size : ℕ

-- `memcpy` of the bytes of `src` to the offset `p` of `dst`.
unfoldable pub memcpy_at : List ℕ → ℕ → List ℕ → List ℕ
memcpy_at dst p src = take p dst ++ (src ++ drop (p + length src) dst)

-- The number of bytes of a request that lie before the end.
unfoldable pub clamp : ℕ → ℕ → ℕ → ℕ
clamp size p n = if ltb (size - p) n then size - p else n

unfoldable pub readat : Memio → ℕ → ℤ → Ret (List ℕ)
unfolding clamp
readat m p (negsuc n) = err einval
readat m p (pos n) = if leb m.size p then ok [] else ok (take (clamp m.size p n) (drop p m.buf))

-- The buffer is `src`; its length is the request, and `none` is a negative one.
unfoldable pub writeat : Memio → ℕ → Option (List ℕ) → Ret ℕ × Memio
unfolding clamp memcpy_at
writeat m p none = (err einval, m)
writeat m p (some src) =
    if leb m.size p
    then (err einval, m)
    else (let n = clamp m.size p (length src) in
        (ok n, record m { buf = memcpy_at m.buf p (take n src) }))

-- The argument of IOCTL_GETEND and IOCTL_SETEND is a pointer; the code crashes if it is NULL.
unfoldable pub cntl : Memio → ℕ → Option ℕ → Ret ℕ × Option ℕ
cntl m cmd arg =
    if cmd == ioctl_getblksz
    then (ok 1, none)
    else if cmd == ioctl_getend
    then (elim arg [ none ↦ (crash, none) | some v ↦ (ok 0, some m.size) ])
    else if cmd == ioctl_setend
    then (elim arg [
      | none ↦ (crash, none)
      | some v ↦ if ltb m.size v then (err einval, none) else (ok 0, none)
    ])
    else (err enotsup, none)

unfoldable pub memio_iointf : Intf Memio
unfolding readat writeat cntl
memio_iointf = record {
  close = none;
  cntl = some (λ m cmd arg. ((cntl m cmd arg).0, (cntl m cmd arg).1, m));
  read = none;
  write = none;
  readat = some (λ m p n. (readat m p (pos n), m));
  writeat = some (λ m p bs. writeat m p (some bs));
}

-- `given` says that the buffer is not NULL; `none` is a failed assertion.
unfoldable pub create_memory_io : List ℕ → ℕ → Option (Io Memio)
unfolding memio_iointf ioinit1
create_memory_io buf size =
    if size == 0 then none else some (ioinit1 memio_iointf (record { buf = buf; size = size }))
