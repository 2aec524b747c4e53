-- ===== src/Seekio/Tests.antt =====
-- A seekable endpoint over a list of bytes, and the theorem at a run of calls.
use sp25_ece391_group.Base.{
  ℕ, ◌+◌, ◌≤◌, ◌≡◌, ◌++◌, refl, none, List, [], ◌∷◌, ok, arith, length, take, drop, length-take,
}
use sp25_ece391_group.Seekio.{Backing, Seekio, read, cntl}
use sp25_ece391_group.Seekio.Bounds.{
  InRange, IsBacking, do_write, do_seek, do_grow, apply, apply_all, apply_all-InRange,
}

abbrev bytes_backing : Backing (List ℕ)
bytes_backing = record {
  readat = λ t p n. (ok (take n (drop p t)), t);
  writeat = λ t p bs. (ok (length bs), take p t ++ (bs ++ drop (p + length bs) t));
  cntl = λ t cmd arg. (ok 0, none, t);
}

bytes_read_most :
    (t : List ℕ) (p n : ℕ) (bs : List ℕ) → ok (take n (drop p t)) ≡ ok bs → length bs ≤ n
bytes_read_most t p n bs q = ground (arith, length-take n (drop p t))

bytes_write_most :
    (t : List ℕ) (p : ℕ) (bs : List ℕ) (n : ℕ) → ok (length bs) ≡ ok n → n ≤ length bs
bytes_write_most t p bs n q = ground arith

bytes_IsBacking : IsBacking bytes_backing
bytes_IsBacking = record { read_most = bytes_read_most; write_most = bytes_write_most }

abbrev at_start : Seekio (List ℕ)
at_start = record { bkgio = 1 ∷ 2 ∷ 3 ∷ 4 ∷ []; cur = 0; end = 4; blksz = 2 }

-- The request for three bytes is cut to one block.
read_one_block : read bytes_backing at_start 3 ≡ (ok (1 ∷ 2 ∷ []), record at_start { cur = 2 })
unfolding read
read_one_block = refl

apply_all-InRange_example :
    InRange (apply_all bytes_backing at_start (do_grow 8 ∷ do_seek 4 ∷ do_write (5 ∷ 6 ∷ []) ∷ []))
unfolding apply cntl
apply_all-InRange_example =
    apply_all-InRange bytes_backing bytes_IsBacking at_start
      (do_grow 8 ∷ do_seek 4 ∷ do_write (5 ∷ 6 ∷ []) ∷ []) (omega arith)
      ((omega arith, omega arith), (tt, (tt, tt)))
