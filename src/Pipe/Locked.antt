-- ===== src/Pipe/Locked.antt =====
-- Calls that wait with the lock of the pipe, over the runs of the pipe.
use sp25_ece391_group.Base.{
  ℕ, zero, suc, ◌≡◌, refl, inl, inr, Bool, true, false, ◌&&◌, some, List, [], ◌∷◌, ◌==◌, Bool-cases,
  arith,
}
use sp25_ece391_group.Pipe.{
  Pipe, Shared, Job, reading, writing, blocked, is_full, start, go_on, read_step, write_step,
  read_round, write_round, close_end, read_on, write_on, go_on_at, start_at, close_at,
}
use sp25_ece391_group.Pipe.Runs.{
  Event, reads, writes, goes, reader_closes, writer_closes, History, after, outcome, step, run,
}

-- A call has bytes left, and no byte to read or no room to write while the other end is open.
abbrev pub waits : Job → Pipe → Bool
waits (reading zero count) p = false
waits (reading (suc left) count) p = (p.head == p.tail) && p.writer_open
waits (writing [] count) p = false
waits (writing (c ∷ left) count) p = is_full p && p.reader_open

read_waits :
    (t left count : ℕ) (p : Pipe)
    → waits (reading left count) p ≡ true
    → read_step t left count p ≡ blocked
unfolding read_step read_round read_on
read_waits t zero count p w = ground arith
read_waits t (suc left) count p w =
    let empty : (p.head == p.tail) ≡ true = ground arith in
    let o : p.writer_open ≡ true = ground arith in rw (empty, o) refl

write_waits :
    (t : ℕ) (left : List ℕ) (count : ℕ) (p : Pipe)
    → waits (writing left count) p ≡ true
    → write_step t left count p ≡ blocked
unfolding write_step write_round write_on
write_waits t [] count p w = ground arith
write_waits t (c ∷ left) count p w = rw w refl

go_on-blocked :
    (t u : ℕ) (job : Job) (s : Shared)
    → s.lock ≡ some (u, job)
    → waits job s.pipe ≡ true
    → go_on t s ≡ blocked
unfolding go_on go_on_at
go_on-blocked t u (reading left count) s e w = rw e (elim (Bool-cases (u == t)) [
  | inl own ↦ rw own (read_waits t left count s.pipe w)
  | inr foreign ↦ rw foreign refl
])
go_on-blocked t u (writing left count) s e w = rw e (elim (Bool-cases (u == t)) [
  | inl own ↦ rw own (write_waits t left count s.pipe w)
  | inr foreign ↦ rw foreign refl
])

outcome-blocked :
    (e : Event) (u : ℕ) (job : Job) (s : Shared)
    → s.lock ≡ some (u, job)
    → waits job s.pipe ≡ true
    → outcome e s ≡ blocked
unfolding outcome start close_end start_at close_at
outcome-blocked (reads t n) u job s e w = rw e refl
outcome-blocked (writes t cs) u job s e w = rw e refl
outcome-blocked (goes t) u job s e w = go_on-blocked t u job s e w
outcome-blocked reader_closes u job s e w = rw e refl
outcome-blocked writer_closes u job s e w = rw e refl

-- A read from an empty pipe, or a write to a full one, that waits while the other end is open
-- waits for ever: it keeps the lock of the pipe, so that whatever calls, rounds and closes the
-- threads try, in whatever order, the pipe stays as it is.
pub run_waiting :
    (u : ℕ) (job : Job) (h : History) (es : List Event)
    → h.shared.lock ≡ some (u, job)
    → waits job h.shared.pipe ≡ true
    → run h es ≡ h
unfolding run step after
run_waiting u job h [] e w = refl
run_waiting u job h (x ∷ es) e w =
    let b = outcome-blocked x u job h.shared e w in rw b (run_waiting u job h es e w)
