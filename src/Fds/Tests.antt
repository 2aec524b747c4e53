-- ===== src/Fds/Tests.antt =====
-- The descriptors of a process at a concrete run.
use sp25_ece391_group.Base.{◌≡◌, refl, some, List, [], ◌∷◌, pos, negsuc, ok, ◌||◌, ◌==◌, arith}
use sp25_ece391_group.Fds.{
  Files, returns, no_files, opened, set_slot, slot, sysiodup, open_fd, allocate_fd, free_fd,
}
use sp25_ece391_group.Fds.Counts.{IsSafe, uses, is_io, live}
use sp25_ece391_group.Fds.Calls.{StaysSafe}
use sp25_ece391_group.Fds.Dups.{sysiodup_self}
use sp25_ece391_group.Fds.Runs.{
  Call, opens, closes, dups, call, run, IsProper, AllProper, run-StaysSafe,
}

no_files-IsSafe : IsSafe no_files
unfolding IsSafe no_files uses is_io live
no_files-IsSafe = (refl, λ io. omega arith)

-- A file is opened, moved to descriptor 5, and the first descriptor is closed.
abbrev calls : List Call
calls = opens (negsuc 0) 9 ∷ dups 0 5 ∷ closes (pos 0) ∷ closes (pos 3) ∷ []

calls-AllProper : AllProper calls no_files
unfolding AllProper IsProper call no_files open_fd allocate_fd free_fd opened
calls-AllProper = (omega arith, ((λ io. ground arith, refl), (record {}, (record {}, record {}))))

run-StaysSafe_example : StaysSafe (run calls no_files)
run-StaysSafe_example = run-StaysSafe calls no_files no_files-IsSafe calls-AllProper

abbrev one_file : Files
unfolding no_files opened
one_file = opened 9 (set_slot 2 (some 9) no_files)

one_file-slot : slot one_file 2 ≡ some 9
unfolding no_files opened
one_file-slot = refl

one_file_refs : one_file.refcnt 9 ≡ 1
unfolding no_files opened
one_file_refs = refl

sysiodup_self_example :
    (g : Files) × (sysiodup (pos 2) (pos 2) one_file ≡ returns (ok 2) g)
    × (g.iotab ≡ one_file.iotab)
    × (g.refcnt 9 ≡ one_file.refcnt 9)
    × (g.closed 9 ≡ (one_file.closed 9 || (one_file.refcnt 9 == 1)))
sysiodup_self_example =
    sysiodup_self 2 9 one_file (omega arith) one_file-slot (omega (arith, one_file_refs))
      (omega (arith, one_file_refs))
