-- ===== src/Pipe.antt =====
-- The pipe of sys/io.c: a page used as a circular buffer between a reader and a writer. Each call takes
-- the lock of the pipe and keeps it up to its end, also while it waits on a condition. A thread's step
-- is the start of a call, or a round of the loop of the call that has the lock.
pub mod Runs
pub mod Window
pub mod Fifo
pub mod Locked
mod Tests
use sp25_ece391_group.Base.{
  ℕ, ◌+◌, ◌%◌, ◌^◌, Bool, true, false, ◌&&◌, ◌||◌, not, Option, none, some, List, [], ◌∷◌, Ret, ok,
  err, einval, ◌==◌, if◌then◌else◌, length,
}

abbrev pub page_size : ℕ
page_size = 4096

-- A size_t.
abbrev pub size : ℕ → ℕ
size n = n % 2 ^ 64

-- `struct pipe`: the page as a function of the index, and the positions before they are reduced; the
-- lock is in `Shared`.
pub record Pipe : Type 0 where
  pub buffer : ℕ → ℕ
  pub head : ℕ
  pub tail : ℕ
  pub reader_open : Bool
  pub writer_open : Bool

-- What `create_pipe` sets; the page is as it was left.
unfoldable pub create_pipe : (ℕ → ℕ) → Pipe
create_pipe page = record {
  buffer = page;
  head = 0;
  tail = 0;
  reader_open = true;
  writer_open = true;
}

-- What a round of a loop does: wait, leave the loop, or move a byte.
pub data Round : Type 0 where
  wait : Round
  leave : Round
  move : ℕ → Pipe → Round

-- A round of the loop of `pipe_read`.
unfoldable pub read_round : Pipe → Round
read_round p =
    if p.head == p.tail
    then if p.writer_open then wait else leave
    else move (p.buffer (p.head % page_size)) (record p { head = size (p.head + 1) })

abbrev pub is_full : Pipe → Bool
is_full p = size (p.tail + 1) % page_size == p.head % page_size

abbrev pub store : (ℕ → ℕ) → ℕ → ℕ → ℕ → ℕ
store page i c j = if j == i then c else page j

-- A round of the loop of `pipe_write`, with the next character.
unfoldable pub write_round : Pipe → ℕ → Round
write_round p c =
    if is_full p && p.reader_open
    then wait
    else if p.reader_open
    then move c
        (record p { buffer = store p.buffer (p.tail % page_size) c; tail = size (p.tail + 1) })
    else leave

-- What the loops return: the count of bytes moved, or, if there were none, 0 or -1 (which is also
-- -EINVAL) as the other end is open or not.
unfoldable pub result : ℕ → Bool → Ret ℕ
result count other_open = if count == 0 then if other_open then ok 0 else err einval else ok count

-- `pipe_close` of the reader's or the writer's end; the flag says that the pipe is freed.
unfoldable pub close_reader : Pipe → Bool × Pipe
close_reader p = (not p.writer_open, record p { reader_open = false })

unfoldable pub close_writer : Pipe → Bool × Pipe
close_writer p = (not p.reader_open, record p { writer_open = false })

-- A call that has the lock: how many bytes it is to read still, and how many it has read, or the bytes
-- that it is to write still, and how many it has written.
pub data Job : Type 0 where
  reading : (left count : ℕ) → Job
  writing : (left : List ℕ) (count : ℕ) → Job

-- The pipe and its lock: the thread that has it, and its call.
pub record Shared : Type 0 where
  pub pipe : Pipe
  pub lock : Option (ℕ × Job)

-- What a step of a thread does: it does not get on, it has a byte moved or none, or its call returns.
pub data Outcome : Type 0 where
  blocked : Outcome
  locked : Shared → Outcome
  got put : ℕ → Shared → Outcome
  returns : Ret ℕ → Shared → Outcome

-- `lock_acquire` at the start of `pipe_read` and `pipe_write`.
unfoldable pub start_at : ℕ → Job → Pipe → Option (ℕ × Job) → Outcome
start_at t job p none = locked (record { pipe = p; lock = some (t, job) })
start_at t job p (some held) = blocked

unfoldable pub start : ℕ → Job → Shared → Outcome
unfolding start_at
start t job s = start_at t job s.pipe s.lock

-- The end of a call.
unfoldable pub finish : ℕ → Bool → Pipe → Outcome
unfolding result
finish count other_open p = returns (result count other_open) (record { pipe = p; lock = none })

-- A step of `pipe_read` by what its round does.
unfoldable pub read_on : ℕ → (left count : ℕ) → Pipe → Round → Outcome
unfolding finish
read_on t left count p wait = blocked
read_on t left count p leave = finish count p.writer_open p
read_on t left count p (move c p') =
    got c (record { pipe = p'; lock = some (t, reading left (count + 1)) })

unfoldable pub read_step : ℕ → (left count : ℕ) → Pipe → Outcome
unfolding read_round read_on finish
read_step t ℕ.zero count p = finish count p.writer_open p
read_step t (ℕ.suc left) count p = read_on t left count p (read_round p)

-- A step of `pipe_write` by what its round does.
unfoldable pub write_on : ℕ → (left : List ℕ) (count : ℕ) → Pipe → Round → Outcome
unfolding finish
write_on t left count p wait = blocked
write_on t left count p leave = finish count p.reader_open p
write_on t left count p (move d p') =
    put d (record { pipe = p'; lock = some (t, writing left (count + 1)) })

unfoldable pub write_step : ℕ → (left : List ℕ) (count : ℕ) → Pipe → Outcome
unfolding write_round write_on finish
write_step t [] count p = finish count p.reader_open p
write_step t (c ∷ left) count p = write_on t left count p (write_round p c)

-- A step of the call that thread `t` has begun.
unfoldable pub go_on_at : ℕ → Pipe → Option (ℕ × Job) → Outcome
unfolding read_step write_step
go_on_at t p none = blocked
go_on_at t p (some (u, reading left count)) = if u == t then read_step t left count p else blocked
go_on_at t p (some (u, writing left count)) = if u == t then write_step t left count p else blocked

unfoldable pub go_on : ℕ → Shared → Outcome
unfolding go_on_at
go_on t s = go_on_at t s.pipe s.lock

-- `pipe_close` takes the lock too, and ends with it free.
unfoldable pub close_at : (Pipe → Bool × Pipe) → Pipe → Option (ℕ × Job) → Outcome
close_at f p none = returns (ok 0) (record { pipe = (f p).1; lock = none })
close_at f p (some held) = blocked

unfoldable pub close_end : (Pipe → Bool × Pipe) → Shared → Outcome
unfolding close_at
close_end f s = close_at f s.pipe s.lock
