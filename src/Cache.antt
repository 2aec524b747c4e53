-- ===== src/Cache.antt =====
-- The block cache of sys/cache.c. The linked list of entries is a list, its head first; `addr` is
-- the address of an entry's data, the pointer that the functions pass to and fro. The backing
-- device is reached by `ioreadat` and `iowriteat` only, and is a parameter. The locks are not
-- modelled: each function runs from its `lock_acquire` to its `lock_release` as one step.
pub mod View
pub mod Evict
pub mod Get
pub mod Flush
pub mod Same
pub mod Modify
mod Tests
use sp25_ece391_group.Base.{
  ℕ, ◌+◌, ◌-◌, ◌*◌, ◌/◌, ◌%◌, Bool, true, false, ◌&&◌, not, Option, none, some, List, [], ◌∷◌, ◌++◌,
  Error, einval, eio, enomem, Ret, ok, err, crash, ◌==◌, leb, if◌then◌else◌, length,
}

-- `struct cache_entry`, less its link.
pub record Entry : Type 0 where
  pub addr : ℕ
  pub blocknum : ℕ
  pub bytes : List ℕ
  pub valid : Bool
  pub dirty : Bool

abbrev pub blksz : ℕ
blksz = 512

abbrev pub capacity : ℕ
capacity = 64

-- `ioreadat` and `iowriteat` of the backing device: `readat s pos len` is what is read, and
-- `writeat` gives the count written and the new state of the device.
pub record Bdev : Type 1 where
  pub State : Type 0
  pub readat : State → ℕ → ℕ → Ret (List ℕ)
  pub writeat : State → ℕ → List ℕ → Ret ℕ × State

-- `struct cache`, with the state of its device.
pub record Cache (S : Type 0) : Type 0 where
  pub head : List Entry
  pub size : ℕ
  pub bdev : S

-- The search for a cache hit.
unfoldable pub find : ℕ → List Entry → Option Entry
find b [] = none
find b (e ∷ es) = if e.valid && (e.blocknum == b) then some e else find b es

-- The write back of a victim: only a negative result is an error.
unfoldable pub write_victim : {S : Type 0} → Cache S → Ret ℕ × S → Ret (Unit {0}) × Cache S
write_victim c (ok n, s) = (ok tt, record c { bdev = s })
write_victim c (err e, s) = (err e, record c { bdev = s })
write_victim c (crash, s) = (crash, record c { bdev = s })

-- What follows the read of a block into a new entry: anything but a whole block is EIO.
unfoldable pub append_entry :
    {S : Type 0} → Cache S → (addr blocknum : ℕ) → Ret (List ℕ) → Ret ℕ × Cache S
append_entry c a b (ok bs) =
    if length bs == blksz
    then (
      ok a,
      record c {
        head =
            c.head
            ++ (record { addr = a; blocknum = b; bytes = bs; valid = true; dirty = false } ∷ []);
        size = c.size + 1;
      },
    )
    else (err eio, c)
append_entry c a b (err e) = (err eio, c)
append_entry c a b crash = (crash, c)

-- `lock_init`, `ioaddref` and the fields that `create_cache` sets; `fresh` is what `kcalloc` gives.
unfoldable pub create_cache : {S : Type 0} → Bool → Option ℕ → S → Ret (Cache S)
create_cache false fresh s = err einval
create_cache true none s = err enomem
create_cache true (some a) s = ok (record { head = []; size = 0; bdev = s })

-- The loop of `cache_release_block`: the first valid entry at this address is marked.
unfoldable pub mark : ℕ → Bool → List Entry → List Entry
mark p d [] = []
mark p d (e ∷ es) =
    if e.valid && (e.addr == p)
    then (if d then record e { dirty = true } else e) ∷ es
    else e ∷ mark p d es

-- `given` says that the pointers passed are not NULL.
unfoldable pub release_block : {S : Type 0} → (given : Bool) → ℕ → Bool → Cache S → Cache S
release_block false p d c = c
release_block true p d c = record c { head = mark p d c.head }

module _ (d : Bdev) where
  open d use {State, readat, writeat}

  -- The eviction of the head of the list.
  unfoldable pub evict_head : Cache State → List Entry → Ret (Unit {0}) × Cache State
  evict_head c [] = (crash, c)
  evict_head c (v ∷ rest) =
      if v.valid && v.dirty
      then write_victim (record c { head = rest; size = c.size - 1 })
          (writeat c.bdev (v.blocknum * blksz) v.bytes)
      else (ok tt, record c { head = rest; size = c.size - 1 })

  unfoldable pub evict : Cache State → Ret (Unit {0}) × Cache State
  evict c = if leb capacity c.size then evict_head c c.head else (ok tt, c)

  -- The new entry; `fresh` is the address that `kcalloc` gives.
  unfoldable pub load_block : ℕ → Option ℕ → Cache State → Ret ℕ × Cache State
  load_block pos none c = (err enomem, c)
  load_block pos (some a) c = append_entry c a (pos / blksz) (readat c.bdev pos blksz)

  unfoldable pub load_after : ℕ → Option ℕ → Ret (Unit {0}) × Cache State → Ret ℕ × Cache State
  load_after pos fresh (ok u, c) = load_block pos fresh c
  load_after pos fresh (err e, c) = (err e, c)
  load_after pos fresh (crash, c) = (crash, c)

  unfoldable pub get_missing : ℕ → Option ℕ → Cache State → Option Entry → Ret ℕ × Cache State
  get_missing pos fresh c (some e) = (ok e.addr, c)
  get_missing pos fresh c none = load_after pos fresh (evict c)

  unfoldable pub get_block : (given : Bool) → ℕ → Option ℕ → Cache State → Ret ℕ × Cache State
  get_block given pos fresh c =
      if given && (pos % blksz == 0)
      then get_missing pos fresh c (find (pos / blksz) c.head)
      else (err einval, c)

  -- One round of the loop of `cache_flush`.
  unfoldable pub written : Entry → Ret ℕ × State → Ret (Unit {0}) × Entry × State
  written e (ok n, s) =
      if n == blksz then (ok tt, record e { dirty = false }, s) else (err eio, e, s)
  written e (err x, s) = (err eio, e, s)
  written e (crash, s) = (crash, e, s)

  unfoldable pub write_back : Entry → State → Ret (Unit {0}) × Entry × State
  write_back e s =
      if e.valid && e.dirty
      then written e (writeat s (e.blocknum * blksz) e.bytes)
      else (ok tt, e, s)

  unfoldable pub flush_entries : List Entry → State → Ret (Unit {0}) × List Entry × State
  flush_entries [] s = (ok tt, [], s)
  flush_entries (e ∷ es) s =
      let (r, e', s') = write_back e s in
      let (q, es', t) = flush_entries es s' in
      elim r [
        | ok u ↦ (q, e' ∷ es', t)
        | err x ↦ (err x, e' ∷ es, s')
        | crash ↦ (crash, e' ∷ es, s')
      ]

  unfoldable pub flush : (given : Bool) → Cache State → Ret (Unit {0}) × Cache State
  flush false c = (err einval, c)
  flush true c =
      let (r, es, s) = flush_entries c.head c.bdev in (r, record c { head = es; bdev = s })
