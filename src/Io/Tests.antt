-- ===== src/Io/Tests.antt =====
-- Endpoints over a list of bytes, and the theorems at concrete ones.
use sp25_ece391_group.Base.{
  ℕ, ◌≤◌, ◌≡◌, ◌≢◌, refl, sym, some, none, List, [], ◌∷◌, ◌++◌, pos, Ret, ok, arith, length, take,
  drop, take-append-drop, length-take, min,
}
use sp25_ece391_group.Io.{Intf, Io, ioinit1, iofill, iowrite, close_last, fill_after}
use sp25_ece391_group.Io.Transfer.{IsSource, IsSink, iofill-take, iowrite_all}
use sp25_ece391_group.Io.Refs.{addref, close, run, run-references}

-- It delivers at most two bytes at a time.
abbrev trickle : List ℕ → ℕ → Ret (List ℕ) × List ℕ
trickle s n = (ok (take (min 2 n) s), drop (min 2 n) s)

trickle_end : (s : List ℕ) (n : ℕ) → n ≢ 0 → take (min 2 n) s ≡ [] → s ≡ []
trickle_end [] n ne q = refl
trickle_end (x ∷ s) n ne q =
    absurd (omega (arith, length-take (min 2 n) (x ∷ s), ap_length (x ∷ s) n q))
  where
    ap_length : (s : List ℕ) (n : ℕ) → take (min 2 n) s ≡ [] → length (take (min 2 n) s) ≡ 0
    ap_length s n p = λ i. length (p i)

trickle_at_most : (s : List ℕ) (n : ℕ) → length (take (min 2 n) s) ≤ n
trickle_at_most s n = omega (arith, length-take (min 2 n) s)

abbrev trickle_source : IsSource trickle
trickle_source = record {
  stream = λ s. s;
  piece = λ s n. take (min 2 n) s;
  delivers = λ s n ne. refl;
  advances = λ s n ne. sym (take-append-drop (min 2 n) s);
  at_most = trickle_at_most;
  at_end = trickle_end;
}

-- It accepts one byte at a time.
abbrev drip : List ℕ → List ℕ → Ret ℕ × List ℕ
drip s bs = (ok (min 1 (length bs)), s ++ take (min 1 (length bs)) bs)

abbrev drip_sink : IsSink drip
drip_sink = record {
  received = λ s. s;
  count = λ s bs. min 1 (length bs);
  accepts = λ s bs p. refl;
  some_byte = λ s bs p. omega arith;
  at_most = λ s bs. omega arith;
  stores = λ s bs p. refl;
}

abbrev pair : Intf (List ℕ)
pair = record {
  close = some (λ s. []);
  cntl = none;
  read = some trickle;
  write = some drip;
  readat = none;
  writeat = none;
}

abbrev opened : Io (List ℕ)
opened = record { intf = pair; refcnt = 1; object = 1 ∷ 2 ∷ 3 ∷ 4 ∷ 5 ∷ [] }

iofill_runs : (iofill opened (pos 3)).0 ≡ ok (1 ∷ 2 ∷ 3 ∷ [])
unfolding iofill fill_after
iofill_runs = refl

iofill-take_example :
    ((iofill opened (pos 3)).0 ≡ ok (take 3 (1 ∷ 2 ∷ 3 ∷ 4 ∷ 5 ∷ [])))
    × ((iofill opened (pos 3)).1.object ≡ drop 3 (1 ∷ 2 ∷ 3 ∷ 4 ∷ 5 ∷ []))
iofill-take_example = iofill-take trickle trickle_source opened 3 refl

iowrite_all_example :
    ((iowrite opened (some (8 ∷ 9 ∷ []))).0 ≡ ok 2)
    × ((iowrite opened (some (8 ∷ 9 ∷ []))).1.object ≡ (1 ∷ 2 ∷ 3 ∷ 4 ∷ 5 ∷ []) ++ (8 ∷ 9 ∷ []))
iowrite_all_example = iowrite_all drip drip_sink opened (8 ∷ 9 ∷ []) refl (omega arith)

run-references_example :
    run (addref ∷ close ∷ close ∷ []) (ioinit1 pair (7 ∷ []))
    ≡ some (record { intf = pair; refcnt = 0; object = [] })
unfolding close_last
run-references_example =
    run-references pair (7 ∷ []) (addref ∷ close ∷ close ∷ []) 0 (omega arith) refl
