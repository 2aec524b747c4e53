-- ===== src/Io/Refs.antt =====
-- The reference counts: an endpoint's `close` runs when the last of its references is closed, and
-- not before.
use sp25_ece391_group.Base.{
  ℕ, zero, suc, ◌+◌, ◌^◌, ◌<◌, ◌≡◌, refl, ap, Option, none, some, List, [], ◌∷◌, arith,
}
use sp25_ece391_group.Io.{Intf, Io, ioinit1, ioaddref, ioclose, close_last}

-- The uses of an endpoint by its holders.
pub data Use : Type 0 where
  addref close : Use

module _ {S : Type 0} where
  unfoldable pub run : List Use → Io S → Option (Io S)
  run [] io = some io
  run (addref ∷ us) io = run us (ioaddref io)
  run (close ∷ us) io = elim (ioclose io) [ none ↦ none | some io' ↦ run us io' ]

-- The number of references after `us`, if there were `n`; a run that closes the last one stops.
abbrev pub references : List Use → ℕ → Option ℕ
references [] n = some n
references (addref ∷ us) n = references us (suc n)
references (close ∷ us) zero = none
references (close ∷ us) (suc zero) = elim us [ [] ↦ some 0 | u ∷ more ↦ none ]
references (close ∷ us) (suc (suc n)) = references us (suc n)

abbrev pub addrefs : List Use → ℕ
addrefs [] = 0
addrefs (addref ∷ us) = suc (addrefs us)
addrefs (close ∷ us) = addrefs us

module _ {S : Type 0} where
  -- The object after a run that leaves `n` references.
  abbrev pub left_object : Intf S → S → ℕ → S
  left_object f s zero = close_last f s
  left_object f s (suc n) = s

  endpoint : Intf S → ℕ → S → Io S
  endpoint f n s = record { intf = f; refcnt = n; object = s }

  ioaddref-endpoint :
      (f : Intf S) (s : S) (n : ℕ)
      → n + 1 < 2 ^ 64
      → ioaddref (endpoint f n s) ≡ endpoint f (suc n) s
  unfolding ioaddref endpoint
  ioaddref-endpoint f s n small =
      ap (λ k. record { intf = f; refcnt = k; object = s }) (omega arith)

  ioclose-endpoint :
      (f : Intf S) (s : S) (n : ℕ)
      → ioclose (endpoint f (suc n) s) ≡ some (endpoint f n (left_object f s n))
  unfolding ioclose endpoint
  ioclose-endpoint f s zero = refl
  ioclose-endpoint f s (suc n) = ground arith

  run-references_from :
      (f : Intf S) (s : S) (us : List Use) (k n : ℕ)
      → suc k + addrefs us < 2 ^ 64
      → references us (suc k) ≡ some n
      → run us (endpoint f (suc k) s) ≡ some (endpoint f n (left_object f s n))
  unfolding run
  run-references_from f s [] k n small h =
      let e : suc k ≡ n = ground arith in ap (λ m. some (endpoint f m (left_object f s m))) e
  run-references_from f s (addref ∷ us) k n small h =
      rw (ioaddref-endpoint f s (suc k) (omega arith))
        (run-references_from f s us (suc k) n (omega arith) h)
  run-references_from f s (close ∷ us) (suc k) n small h =
      rw (ioclose-endpoint f s (suc k), run) (run-references_from f s us k n (omega arith) h)
  run-references_from f s (close ∷ []) zero n small h =
      rw (ioclose-endpoint f s zero, run)
        (ap (λ m. some (endpoint f m (left_object f s m))) (ground arith))
  run-references_from f s (close ∷ u ∷ us) zero n small h = cc

  -- After `ioinit1`, any sequence of `ioaddref` and `ioclose` that never closes more references than
  -- are held, with less than 2 ^ 64 of them, passes every assertion and leaves the count of the
  -- references held. The object's `close` has run, once, if and only if none is left.
  pub run-references :
      (f : Intf S) (s : S) (us : List Use) (n : ℕ)
      → 1 + addrefs us < 2 ^ 64
      → references us 1 ≡ some n
      → run us (ioinit1 f s) ≡ some (record { intf = f; refcnt = n; object = left_object f s n })
  unfolding ioinit1 endpoint
  run-references f s us n small h = run-references_from f s us 0 n (omega arith) h
