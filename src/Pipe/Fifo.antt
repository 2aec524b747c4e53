-- ===== src/Pipe/Fifo.antt =====
-- The order in which the bytes of a pipe come out, over its runs.
use mathlib.Core.List.{append_assoc}
use sp25_ece391_group.Base.{
  ℕ, zero, suc, ◌+◌, ◌-◌, ◌%◌, ◌^◌, ◌≤◌, ◌<◌, ◌≡◌, ◌≢◌, refl, sym, ap, ap₂, ◌∙◌, inl, inr, Bool,
  true, false, ◌&&◌, Option, none, some, List, [], ◌∷◌, ◌++◌, ◌==◌, if◌then◌else◌, arith,
  Bool-cases,
}
use sp25_ece391_group.Pipe.{
  Pipe, page_size, size, create_pipe, Round, wait, leave, read_round, write_round, is_full, store,
  close_reader, close_writer, Outcome, reading, writing, Job, start, go_on, finish, read_on,
  write_on, go_on_at, start_at, close_at, read_step, write_step, close_end,
}
use sp25_ece391_group.Pipe.Runs.{
  Event, reads, writes, goes, reader_closes, writer_closes, History, after, outcome, step, run,
  fresh,
}
use sp25_ece391_group.Pipe.Window.{
  window, used, contents, window_place, size_place, window_snoc, window-store,
}

pub record Holds (p : Pipe) (sent received : List ℕ) : Type 0 where
  pub head_fits : p.head < 2 ^ 64
  pub tail_fits : p.tail < 2 ^ 64
  pub bounded : used p ≤ page_size - 1
  pub in_order : sent ≡ received ++ contents p

abbrev pub IsFifo : History → Type 0
IsFifo h = Holds h.shared.pipe h.sent h.received

pop-Holds :
    (p : Pipe) (sent received : List ℕ)
    → Holds p sent received
    → (p.head == p.tail) ≡ false
    → Holds
        (record p { head = size (p.head + 1) })
        sent
        (received ++ (p.buffer (p.head % page_size) ∷ []))
pop-Holds p sent received inv ne =
    let q : Pipe = record p { head = size (p.head + 1) } in
    let apart : p.head ≢ p.tail = ground arith in
    let one_less : used p ≡ suc (used q) = omega (arith, inv.head_fits, inv.tail_fits) in
    let c = p.buffer (p.head % page_size) in
    let rest : window p.buffer (p.head + 1) (used q) ≡ contents q =
      sym (window_place p.buffer q.head (p.head + 1) (used q) (size_place (p.head + 1))) in
    record {
      head_fits = omega arith;
      tail_fits = inv.tail_fits;
      bounded = omega (arith, inv.bounded);
      in_order =
          inv.in_order
          ∙ ap (λ n. received ++ window p.buffer p.head n) one_less
          ∙ sym (append_assoc received (c ∷ []) _)
          ∙ ap (λ l. (received ++ (c ∷ [])) ++ l) rest;
    }

push-Holds :
    (p : Pipe) (sent received : List ℕ) (c : ℕ)
    → Holds p sent received
    → is_full p ≡ false
    → Holds
        (record p { buffer = store p.buffer (p.tail % page_size) c; tail = size (p.tail + 1) })
        (sent ++ (c ∷ []))
        received
push-Holds p sent received c inv room =
    let i = p.tail % page_size in
    let page = store p.buffer i c in
    let q : Pipe = record p { buffer = page; tail = size (p.tail + 1) } in
    let n = used p in
    let differ : size (p.tail + 1) % page_size ≢ p.head % page_size = ground arith in
    let small : n < page_size - 1 =
      omega (arith, inv.head_fits, inv.tail_fits, inv.bounded, differ) in
    let at : (p.head + n) % page_size ≡ i = omega (arith, inv.head_fits, inv.tail_fits) in
    let here : (i == i) ≡ true = ground arith in
    let old : window page p.head n ≡ window p.buffer p.head n =
      window-store p.buffer c i p.head n (sym at) (omega arith) in
    let new : page ((p.head + n) % page_size) ≡ c = rw (at, here) refl in
    let more : suc n ≡ used q = omega (arith, inv.head_fits, inv.tail_fits) in
    record {
      head_fits = inv.head_fits;
      tail_fits = omega arith;
      bounded = omega (arith, more);
      in_order =
          ap (λ l. l ++ (c ∷ [])) inv.in_order
          ∙ append_assoc received (contents p) (c ∷ [])
          ∙ ap (λ l. received ++ l)
              (ap₂ (λ l d. l ++ (d ∷ [])) (sym old) (sym new)
                ∙ window_snoc page p.head n
                ∙ ap (window page p.head) more);
    }

-- What an outcome has of the pipe, and of the bytes that have gone in and come out.
abbrev Keeps : History → Outcome → Type 0
Keeps h o = IsFifo (after h o)

finish-Keeps :
    (h : History) (count : ℕ) (other_open : Bool)
    → IsFifo h
    → Keeps h (finish count other_open h.shared.pipe)
unfolding finish after
finish-Keeps h count other_open inv = inv

read_step-Keeps :
    (h : History) (t left count : ℕ) → IsFifo h → Keeps h (read_step t left count h.shared.pipe)
unfolding read_step read_round read_on after
read_step-Keeps h t zero count inv = finish-Keeps h count h.shared.pipe.writer_open inv
read_step-Keeps h t (suc left) count inv =
    let p = h.shared.pipe in
    elim (Bool-cases (p.head == p.tail)) [
      | inl empty ↦ rw empty (stopped p.writer_open)
      | inr some_left ↦ rw some_left (pop-Holds p h.sent h.received inv some_left)
    ]
  where
    stopped : (b : Bool) → Keeps h (read_on t left count h.shared.pipe (if b then wait else leave))
    stopped true = inv
    stopped false = finish-Keeps h count h.shared.pipe.writer_open inv

write_step-Keeps :
    (h : History) (t : ℕ) (left : List ℕ) (count : ℕ)
    → IsFifo h
    → Keeps h (write_step t left count h.shared.pipe)
unfolding write_step write_round write_on after
write_step-Keeps h t [] count inv = finish-Keeps h count h.shared.pipe.reader_open inv
write_step-Keeps h t (c ∷ left) count inv =
    let p = h.shared.pipe in
    elim (Bool-cases (is_full p && p.reader_open)) [
      | inl full ↦ simp full inv
      | inr free ↦
          simp free
            (if_open p.reader_open _ (λ o. push-Holds p h.sent h.received c inv (ground arith)))
    ]
  where
    if_open :
        (b : Bool) (r : Round)
        → (b ≡ true → Keeps h (write_on t left count h.shared.pipe r))
        → Keeps h (write_on t left count h.shared.pipe (if b then r else leave))
    if_open true r moves = moves refl
    if_open false r moves = finish-Keeps h count h.shared.pipe.reader_open inv

go_on_at-Keeps :
    (h : History) (t : ℕ) (lock : Option (ℕ × Job))
    → IsFifo h
    → Keeps h (go_on_at t h.shared.pipe lock)
unfolding go_on_at after
go_on_at-Keeps h t none inv = inv
go_on_at-Keeps h t (some (u, reading left count)) inv = elim (Bool-cases (u == t)) [
  | inl own ↦ rw own (read_step-Keeps h t left count inv)
  | inr foreign ↦ rw foreign inv
]
go_on_at-Keeps h t (some (u, writing left count)) inv = elim (Bool-cases (u == t)) [
  | inl own ↦ rw own (write_step-Keeps h t left count inv)
  | inr foreign ↦ rw foreign inv
]

start_at-Keeps :
    (h : History) (t : ℕ) (job : Job) (lock : Option (ℕ × Job))
    → IsFifo h
    → Keeps h (start_at t job h.shared.pipe lock)
unfolding start_at after
start_at-Keeps h t job none inv = inv
start_at-Keeps h t job (some held) inv = inv

-- The end of a close changes no byte and no position.
close_at-Keeps :
    (h : History) (f : Pipe → Bool × Pipe) (lock : Option (ℕ × Job))
    → ((p : Pipe) (sent received : List ℕ) → Holds p sent received → Holds (f p).1 sent received)
    → IsFifo h
    → Keeps h (close_at f h.shared.pipe lock)
unfolding close_at after
close_at-Keeps h f none k inv = k h.shared.pipe h.sent h.received inv
close_at-Keeps h f (some held) k inv = inv

close_reader-Holds :
    (p : Pipe) (sent received : List ℕ)
    → Holds p sent received
    → Holds (close_reader p).1 sent received
unfolding close_reader
close_reader-Holds p sent received inv = record {
  head_fits = inv.head_fits;
  tail_fits = inv.tail_fits;
  bounded = inv.bounded;
  in_order = inv.in_order;
}

close_writer-Holds :
    (p : Pipe) (sent received : List ℕ)
    → Holds p sent received
    → Holds (close_writer p).1 sent received
unfolding close_writer
close_writer-Holds p sent received inv = record {
  head_fits = inv.head_fits;
  tail_fits = inv.tail_fits;
  bounded = inv.bounded;
  in_order = inv.in_order;
}

step-IsFifo : (h : History) (e : Event) → IsFifo h → IsFifo (step h e)
unfolding step outcome start go_on close_end
step-IsFifo h (reads t n) inv = start_at-Keeps h t (reading n 0) h.shared.lock inv
step-IsFifo h (writes t cs) inv = start_at-Keeps h t (writing cs 0) h.shared.lock inv
step-IsFifo h (goes t) inv = go_on_at-Keeps h t h.shared.lock inv
step-IsFifo h reader_closes inv = close_at-Keeps h close_reader h.shared.lock close_reader-Holds inv
step-IsFifo h writer_closes inv = close_at-Keeps h close_writer h.shared.lock close_writer-Holds inv

run-IsFifo_from : (h : History) (es : List Event) → IsFifo h → IsFifo (run h es)
unfolding run
run-IsFifo_from h [] inv = inv
run-IsFifo_from h (e ∷ es) inv = run-IsFifo_from (step h e) es (step-IsFifo h e inv)

-- From create_pipe on, after any sequence of starts of reads and writes by any threads, of rounds
-- of the call that has the lock, and of closes of either end, the bytes that have gone in are
-- those that have come out followed by those in the page, in the same order, and the page holds
-- at most one byte less than its size, also when the 64-bit positions wrap.
pub run-IsFifo : (page : ℕ → ℕ) (es : List Event) → IsFifo (run (fresh page) es)
unfolding create_pipe
run-IsFifo page es = run-IsFifo_from (fresh page) es (record {
  head_fits = omega arith;
  tail_fits = omega arith;
  bounded = omega arith;
  in_order = refl;
})
