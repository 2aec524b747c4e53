-- ===== src/Fds.antt =====
-- The descriptors of a process: the table `iotab`, `process_get_io` of sys/process.c, and the system
-- calls of sys/syscall.c that change the table. An I/O object is a number, with its reference count, and
-- with a flag that says that its close has run; the close of most objects frees them.
pub mod Counts
pub mod Calls
pub mod Dups
pub mod Runs
mod Tests
use sp25_ece391_group.Base.{
  ℕ, zero, suc, ◌+◌, ◌-◌, ◌%◌, ◌^◌, Bool, true, false, ◌&&◌, ◌||◌, Option, none, some, List, [],
  ◌∷◌, ◌==◌, ltb, if◌then◌else◌, ℤ, pos, negsuc, Ret, ok, err, crash, einval, ebadfd, emfile, set,
  get_or, replicate,
}

abbrev pub process_iomax : ℕ
process_iomax = 16

pub record Files : Type 0 where
  pub iotab : List (Option ℕ)
  pub refcnt : ℕ → ℕ
  pub closed : ℕ → Bool

-- What a call returns, and the state that it leaves.
pub data Result : Type 0 where
  returns : Ret ℕ → Files → Result

abbrev pub write {ℓ} : {A : Type ℓ} → (ℕ → A) → ℕ → A → ℕ → A
write g io v j = if j == io then v else g j

abbrev pub slot : Files → ℕ → Option ℕ
slot f i = get_or f.iotab i none

abbrev pub set_slot : ℕ → Option ℕ → Files → Files
set_slot i o f = record f { iotab = set f.iotab i o }

-- No descriptor is below 0, or from PROCESS_IOMAX on.
unfoldable pub process_get_io : ℤ → Files → Option ℕ
process_get_io (pos fd) f = if ltb fd process_iomax then slot f fd else none
process_get_io (negsuc fd) f = none

-- One reference less, and the close of the object with the last one.
unfoldable pub drop_ref : ℕ → Files → Files
drop_ref io f = record f {
  refcnt = write f.refcnt io (f.refcnt io - 1);
  closed = write f.closed io (f.closed io || (f.refcnt io == 1));
}

-- `ioclose` asserts that there is a reference.
unfoldable pub ioclose_at : ℕ → Files → Option Files
unfolding drop_ref
ioclose_at io f = if f.refcnt io == 0 then none else some (drop_ref io f)

-- `ioaddref`: the count is an unsigned long.
unfoldable pub ioaddref_at : ℕ → Files → Files
ioaddref_at io f = record f { refcnt = write f.refcnt io ((f.refcnt io + 1) % 2 ^ 64) }

-- `ioinit1`: a new object, with one reference.
unfoldable pub new_io : ℕ → Files → Files
new_io io f = record f { refcnt = write f.refcnt io 1; closed = write f.closed io false }

-- The first NULL slot of the table from `i` on, but for the slot `skip`.
unfoldable pub free_fd : Option ℕ → ℕ → List (Option ℕ) → Option ℕ
free_fd skip i [] = none
free_fd skip i (some io ∷ xs) = free_fd skip (i + 1) xs
free_fd none i (none ∷ xs) = some i
free_fd (some k) i (none ∷ xs) =
    let rest = free_fd (some k) (i + 1) xs in if i == k then rest else some i

unfoldable pub allocate_fd : ℤ → ℕ → Files → Result
unfolding free_fd
allocate_fd (negsuc zero) io f = elim (free_fd none 0 f.iotab) [
  | none ↦ returns (err emfile) f
  | some i ↦ returns (ok i) (set_slot i (some io) f)
]
allocate_fd (negsuc (suc n)) io f = returns (err ebadfd) f
allocate_fd (pos fd) io f =
    if ltb fd process_iomax
    then elim (slot f fd) [
      | none ↦ returns (ok fd) (set_slot fd (some io) f)
      | some taken ↦ returns (err ebadfd) f
    ]
    else returns (err ebadfd) f

-- `sysdevopen` and `sysfsopen` from the point on where the device or the file has been opened. The open
-- has added one reference to the object: that is its first one where the object is new, as for a file, or
-- one more where a driver gives out one object to all, as `vioblk_open` does. The second reference that
-- `uart_open` adds is left out.
unfoldable pub opened : ℕ → Files → Files
opened io f = record f {
  refcnt = write f.refcnt io ((f.refcnt io + 1) % 2 ^ 64);
  closed = write f.closed io false;
}

unfoldable pub open_fd : ℤ → ℕ → Files → Result
unfolding allocate_fd opened
open_fd fd io f = allocate_fd fd io (opened io f)

unfoldable pub sysclose : ℤ → Files → Result
unfolding process_get_io ioclose_at
sysclose (negsuc n) f = returns (err ebadfd) f
sysclose (pos fd) f = elim (process_get_io (pos fd) f) [
  | none ↦ returns (err ebadfd) f
  | some io ↦ elim (ioclose_at io (set_slot fd none f)) [
    | none ↦ returns crash (set_slot fd none f)
    | some g ↦ returns (ok 0) g
  ]
]

-- The close of the target, if it is open.
unfoldable pub close_target : ℕ → Files → Option Files
unfolding ioclose_at
close_target newfd f = elim (slot f newfd) [ none ↦ some f | some io ↦ ioclose_at io f ]

-- The source is read again when the target has been closed.
unfoldable pub duplicate : ℕ → ℕ → Files → Result
unfolding ioaddref_at
duplicate oldfd newfd f = elim (slot f oldfd) [
  | none ↦ returns crash f
  | some io ↦ returns (ok newfd) (ioaddref_at io (set_slot newfd (some io) f))
]

unfoldable pub iodup_at : ℕ → ℕ → Files → Result
unfolding close_target duplicate
iodup_at oldfd newfd f = elim (slot f oldfd) [
  | none ↦ returns (err ebadfd) f
  | some io ↦ elim (close_target newfd f) [
    | none ↦ returns crash f
    | some g ↦ duplicate oldfd newfd g
  ]
]

unfoldable pub sysiodup : ℤ → ℤ → Files → Result
unfolding iodup_at
sysiodup (pos oldfd) (pos newfd) f =
    if ltb oldfd process_iomax && ltb newfd process_iomax
    then iodup_at oldfd newfd f
    else returns (err einval) f
sysiodup (negsuc n) newfd f = returns (err einval) f
sysiodup (pos oldfd) (negsuc n) f = returns (err einval) f

-- Both ends, which have one reference each, are closed again if a descriptor is missing. The numbers of
-- the descriptors go to the caller's memory, which is not modelled.
unfoldable pub pipe_at : Option ℕ → Option ℕ → ℕ → ℕ → Files → Result
unfolding drop_ref
pipe_at (some w) (some r) wio rio f =
    returns (ok 0) (set_slot r (some rio) (set_slot w (some wio) f))
pipe_at none r wio rio f = returns (err emfile) (drop_ref rio (drop_ref wio f))
pipe_at (some w) none wio rio f = returns (err emfile) (drop_ref rio (drop_ref wio f))

-- The loops of `syspipe` look for two free descriptors for the new objects `wio` and `rio`.
unfoldable pub pipe_fds : ℕ → ℕ → Files → Result
unfolding pipe_at free_fd new_io
pipe_fds wio rio f =
    let wfd = free_fd none 0 f.iotab in
    pipe_at wfd (free_fd wfd 0 f.iotab) wio rio (new_io rio (new_io wio f))

-- A NULL pointer is `none`.
unfoldable pub syspipe : (wfdptr rfdptr : Option ℕ) (wio rio : ℕ) → Files → Result
unfolding pipe_fds
syspipe none rfdptr wio rio f = returns (err einval) f
syspipe (some wfdptr) none wio rio f = returns (err einval) f
syspipe (some wfdptr) (some rfdptr) wio rio f = pipe_fds wio rio f

-- The table of a new process.
unfoldable pub no_files : Files
no_files = record { iotab = replicate process_iomax none; refcnt = λ io. 0; closed = λ io. false }
