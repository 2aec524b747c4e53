-- ===== src/Pipe/Tests.antt =====
-- Runs of a pipe, and the theorems at them.
use sp25_ece391_group.Base.{ℕ, ◌≡◌, refl, some, List, [], ◌∷◌}
use sp25_ece391_group.Pipe.{
  reading, create_pipe, read_round, write_round, start_at, start, read_on, write_on, read_step,
  write_step, go_on_at, go_on, close_at, close_end,
}
use sp25_ece391_group.Pipe.Runs.{
  Event, History, fresh, run, step, after, outcome, reads, writes, goes, writer_closes,
}
use sp25_ece391_group.Pipe.Fifo.{IsFifo, run-IsFifo}
use sp25_ece391_group.Pipe.Locked.{run_waiting}

abbrev blank : ℕ → ℕ
blank i = 0

-- Thread 1 writes two bytes, of which thread 2 reads one; the writer's end is closed.
abbrev events : List Event
events =
    writes 1 (7 ∷ 8 ∷ [])
    ∷ goes 1
    ∷ reads 2 1
    ∷ goes 1
    ∷ goes 1
    ∷ reads 2 1
    ∷ goes 2
    ∷ goes 2
    ∷ writer_closes
    ∷ []

one_read : (run (fresh blank) events).received ≡ 7 ∷ []
unfolding run step after outcome start start_at go_on go_on_at read_step read_on write_step write_on
    read_round write_round create_pipe close_end close_at
one_read = refl

run-IsFifo_example : IsFifo (run (fresh blank) events)
run-IsFifo_example = run-IsFifo blank events

-- Thread 2 has begun to read from an empty pipe.
abbrev reader_first : History
unfolding create_pipe
reader_first = record {
  shared = record { pipe = create_pipe blank; lock = some (2, reading 1 0) };
  sent = [];
  received = [];
}

reader_starts : run (fresh blank) (reads 2 1 ∷ []) ≡ reader_first
unfolding run step after outcome start start_at reader_first
reader_starts = refl

run_waiting_example : run reader_first events ≡ reader_first
unfolding create_pipe
run_waiting_example = run_waiting 2 (reading 1 0) reader_first events refl refl
