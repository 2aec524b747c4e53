-- ===== src/Pipe/Runs.antt =====
-- The runs of a pipe: what threads do with it, in any order.
use sp25_ece391_group.Base.{ℕ, none, List, [], ◌∷◌, ◌++◌}
use sp25_ece391_group.Pipe.{
  create_pipe, close_reader, close_writer, Shared, Outcome, blocked, locked, got, put, returns,
  reading, writing, start, go_on, close_end,
}

-- What the threads do, in the order in which it happens: the start of a call of `pipe_read` or
-- `pipe_write`, the next round of a call, and the close of an end.
pub data Event : Type 0 where
  reads : (t n : ℕ) → Event
  writes : (t : ℕ) → List ℕ → Event
  goes : (t : ℕ) → Event
  reader_closes writer_closes : Event

-- A pipe with the bytes that have gone in and come out so far.
pub record History : Type 0 where
  pub shared : Shared
  pub sent : List ℕ
  pub received : List ℕ

unfoldable pub after : History → Outcome → History
after h blocked = h
after h (locked s) = record h { shared = s }
after h (got c s) = record h { shared = s; received = h.received ++ (c ∷ []) }
after h (put c s) = record h { shared = s; sent = h.sent ++ (c ∷ []) }
after h (returns r s) = record h { shared = s }

unfoldable pub outcome : Event → Shared → Outcome
unfolding start go_on close_end
outcome (reads t n) s = start t (reading n 0) s
outcome (writes t cs) s = start t (writing cs 0) s
outcome (goes t) s = go_on t s
outcome reader_closes s = close_end close_reader s
outcome writer_closes s = close_end close_writer s

unfoldable pub step : History → Event → History
unfolding after outcome
step h e = after h (outcome e h.shared)

unfoldable pub run : History → List Event → History
unfolding step
run h [] = h
run h (e ∷ es) = run (step h e) es

abbrev pub fresh : (ℕ → ℕ) → History
fresh page = record {
  shared = record { pipe = create_pipe page; lock = none };
  sent = [];
  received = [];
}
