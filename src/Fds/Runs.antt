-- ===== src/Fds/Runs.antt =====
-- Sequences of system calls on the descriptors of a process.
use sp25_ece391_group.Base.{
  ℕ, ◌+◌, ◌<◌, ◌^◌, Option, ◌≡◌, refl, false, List, [], ◌∷◌, ◌==◌, ℤ, pos, ok, err, crash,
}
use sp25_ece391_group.Fds.{Files, Result, returns, open_fd, sysclose, sysiodup, syspipe}
use sp25_ece391_group.Fds.Counts.{IsSafe}
use sp25_ece391_group.Fds.Dups.{HasRoom, sysiodup-StaysSafe}
use sp25_ece391_group.Fds.Calls.{
  StaysSafe, open_fd-StaysSafe, sysclose-StaysSafe, syspipe-StaysSafe,
}

pub data Call : Type 0 where
  opens : ℤ → ℕ → Call
  closes : ℤ → Call
  dups : ℕ → ℕ → Call
  pipes : Option ℕ → Option ℕ → ℕ → ℕ → Call

unfoldable pub call : Call → Files → Result
unfolding open_fd sysclose sysiodup syspipe
call (opens fd io) f = open_fd fd io f
call (closes fd) f = sysclose fd f
call (dups oldfd newfd) f = sysiodup (pos oldfd) (pos newfd) f
call (pipes wfdptr rfdptr wio rio) f = syspipe wfdptr rfdptr wio rio f

-- The run goes on after an error, and ends at a crash.
abbrev pub and_then : Result → (Files → Result) → Result
and_then (returns (ok n) f) k = k f
and_then (returns (err e) f) k = k f
and_then (returns crash f) k = returns crash f

unfoldable pub run : List Call → Files → Result
unfolding call
run [] f = returns (ok 0) f
run (c ∷ cs) f = and_then (call c f) (λ g. run cs g)

abbrev pub state_after : Result → Files
state_after (returns r f) = f

-- The references stay below 2^64, no descriptor is duplicated onto itself, and the ends of a pipe are two
-- new objects.
unfoldable pub IsProper : Call → Files → Type 0
IsProper (opens fd io) f = f.refcnt io + 1 < 2 ^ 64
IsProper (closes fd) f = Unit
IsProper (dups oldfd newfd) f = HasRoom f × ((newfd == oldfd) ≡ false)
IsProper (pipes wfdptr rfdptr wio rio) f =
    (f.refcnt wio ≡ 0) × (f.refcnt rio ≡ 0) × ((wio == rio) ≡ false)

unfoldable pub AllProper : List Call → Files → Type 0
unfolding IsProper call
AllProper [] f = Unit
AllProper (c ∷ cs) f = IsProper c f × AllProper cs (state_after (call c f))

call-StaysSafe : (c : Call) (f : Files) → IsSafe f → IsProper c f → StaysSafe (call c f)
unfolding call IsProper
call-StaysSafe (opens fd io) f h p = open_fd-StaysSafe fd io f h p
call-StaysSafe (closes fd) f h p = sysclose-StaysSafe fd f h
call-StaysSafe (dups oldfd newfd) f h (room, p) = sysiodup-StaysSafe oldfd newfd f h room p
call-StaysSafe (pipes wfdptr rfdptr wio rio) f h (w, r, ne) =
    syspipe-StaysSafe wfdptr rfdptr wio rio f h w r ne

then_StaysSafe :
    (r : Result) (k : Files → Result)
    → StaysSafe r
    → (IsSafe (state_after r) → StaysSafe (k (state_after r)))
    → StaysSafe (and_then r k)
then_StaysSafe (returns (ok n) f) k (h, e) next = next h
then_StaysSafe (returns (err n) f) k (h, e) next = next h
then_StaysSafe (returns crash f) k (h, e) next = (h, e)

-- From a state in which each I/O object has at least as many references as descriptors, and no
-- descriptor names an object whose close has run, a sequence of opens, closes, duplicates and
-- pipes, in which no reference count comes to 2^64, the ends of a pipe are new and no descriptor
-- is duplicated onto itself, keeps that, and fails no assertion.
pub run-StaysSafe : (cs : List Call) (f : Files) → IsSafe f → AllProper cs f → StaysSafe (run cs f)
unfolding run AllProper
run-StaysSafe [] f h p = (h, refl)
run-StaysSafe (c ∷ cs) f h (p, ps) =
    then_StaysSafe (call c f) _ (call-StaysSafe c f h p)
      (λ safe. run-StaysSafe cs (state_after (call c f)) safe ps)
