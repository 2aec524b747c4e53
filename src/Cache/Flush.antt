-- ===== src/Cache/Flush.antt =====
-- `cache_flush`: the device ends up storing what the cache stood for.
use sp25_ece391_group.Base.{
  ℕ, ◌*◌, ◌≡◌, ◌≢◌, refl, sym, ap, subst, ◌∙◌, inl, inr, true, ◌&&◌, List, [], ◌∷◌, Ret, ok, err,
  crash, ◌==◌, arith, Bool-cases,
}
use sp25_ece391_group.Cache.{
  Entry, blksz, Bdev, Cache, find, written, write_back, flush_entries, flush,
}
use sp25_ece391_group.Cache.View.{
  IsBdev, Absent, Unused, view, IsGood, IsCoherent, IsCache, IsCoherent-agree, cache_view, orelse,
  view-Absent, view-cons,
}
use sp25_ece391_group.Cache.Same.{
  SameData, AllSame, AllSame-refl, Absent-AllSame, Unused-AllSame, length-AllSame,
}

module _ (d : Bdev) (law : IsBdev d) where
  -- What one round achieves.
  record WroteBack (s : d.State) (e : Entry) (r : Ret (Unit {0})) (f : Entry) (t : d.State)
      : Type 0 where
    same : SameData e f
    good : IsGood d law t f
    others : (j : ℕ) → j ≢ e.blocknum → law.contents t j ≡ law.contents s j
    stored : (u : Unit {0}) → r ≡ ok u → law.contents t e.blocknum ≡ e.bytes
    returns : r ≢ crash

  written-WroteBack :
      (s : d.State) (e : Entry) (r : Ret ℕ × d.State)
      → IsGood d law s e
      → e.dirty ≡ true
      → d.writeat s (e.blocknum * blksz) e.bytes ≡ r
      → let (q, f, t) = written d e r in WroteBack s e q f t
  unfolding written
  written-WroteBack s e (ok n, t) good dirty q =
      let here : law.contents t e.blocknum ≡ e.bytes =
        ap (λ r. law.contents r.1 e.blocknum) (sym q)
        ∙ law.write_same s e.blocknum e.bytes good.whole (ap (λ r. r.0) q) in
      let there : (j : ℕ) → j ≢ e.blocknum → law.contents t j ≡ law.contents s j =
        λ j ne. ap (λ r. law.contents r.1 j) (sym q) ∙ law.write_other s e.blocknum e.bytes j ne in
      elim (Bool-cases (n == blksz)) [
        | inl whole ↦ rw whole (record {
          same = record { addr = refl; blocknum = refl; bytes = refl };
          good = record { valid = good.valid; whole = good.whole; clean = λ z. sym here };
          others = there;
          stored = λ u z. here;
          returns = λ z. cc;
        })
        | inr part ↦ rw part (record {
          same = record { addr = refl; blocknum = refl; bytes = refl };
          good = record { valid = good.valid; whole = good.whole; clean = λ z. cc };
          others = there;
          stored = λ u z. cc;
          returns = λ z. cc;
        })
      ]
  written-WroteBack s e (err x, t) good dirty q = record {
    same = record { addr = refl; blocknum = refl; bytes = refl };
    good = record { valid = good.valid; whole = good.whole; clean = λ z. cc };
    others =
        λ j ne. ap (λ r. law.contents r.1 j) (sym q) ∙ law.write_other s e.blocknum e.bytes j ne;
    stored = λ u z. cc;
    returns = λ z. cc;
  }
  written-WroteBack s e (crash, t) good dirty q =
      absurd (law.write_returns s (e.blocknum * blksz) e.bytes (ap (λ r. r.0) q))

  write_back-WroteBack :
      (s : d.State) (e : Entry)
      → IsGood d law s e
      → let (q, f, t) = write_back d e s in WroteBack s e q f t
  unfolding write_back
  write_back-WroteBack s e good = elim (Bool-cases (e.valid && e.dirty)) [
    | inl q ↦ rw q (written-WroteBack s e _ good (ground arith) refl)
    | inr q ↦ rw q (record {
      same = record { addr = refl; blocknum = refl; bytes = refl };
      good = good;
      others = λ j ne. refl;
      stored = λ u z. sym (good.clean (ground (arith, good.valid)));
      returns = λ z. cc;
    })
  ]

  -- What the loop achieves from the entries `es` on.
  record Flushed (s : d.State) (es : List Entry) (r : Ret (Unit {0})) (fs : List Entry)
      (t : d.State) : Type 0 where
    same : AllSame es fs
    coherent : IsCoherent d law t fs
    same_view : (j : ℕ) → view d law t fs j ≡ view d law s es j
    untouched : (j : ℕ) → Absent j es → law.contents t j ≡ law.contents s j
    stored : (u : Unit {0}) → r ≡ ok u → (j : ℕ) → law.contents t j ≡ view d law s es j
    returns : r ≢ crash

  -- The view of a list behind its first entry's round.
  view-round :
      (s t : d.State) (e f : Entry) (es fs : List Entry) (j : ℕ)
      → e.valid ≡ true
      → f.valid ≡ true
      → SameData e f
      → (j ≢ e.blocknum → view d law t fs j ≡ view d law s es j)
      → view d law t (f ∷ fs) j ≡ view d law s (e ∷ es) j
  view-round s t e f es fs j ev fv same rest = elim (Bool-cases (e.blocknum == j)) [
    | inl hit ↦ ground (arith, view-cons d law s e es j ev, view-cons d law t f fs j fv, same)
    | inr miss ↦
        ground (
          arith,
          view-cons d law s e es j ev,
          view-cons d law t f fs j fv,
          same,
          rest (ground arith),
        )
  ]

  view-agree :
      (s t : d.State) (es : List Entry) (j : ℕ)
      → law.contents t j ≡ law.contents s j
      → view d law t es j ≡ view d law s es j
  unfolding view
  view-agree s t es j same = ap (orelse (find j es)) same

  module _ (s t : d.State) (e f : Entry) (es : List Entry) (h : IsCoherent d law s (e ∷ es)) where
    -- The loop stops at its first entry.
    Flushed-stop :
        (r : Ret (Unit {0}))
        → WroteBack s e r f t
        → ((u : Unit {0}) → r ≢ ok u)
        → Flushed s (e ∷ es) r (f ∷ es) t
    Flushed-stop r w failed = record {
      same = (w.same, AllSame-refl es);
      coherent = (
        w.good,
        subst (λ b. Absent b es) (sym w.same.blocknum) h.1,
        IsCoherent-agree d law s t e.blocknum es w.others h.1 h.2,
        subst (λ a. Unused a es) (sym w.same.addr) h.3,
      );
      same_view = λ j.
          view-round s t e f es es j h.0.valid w.good.valid w.same
            λ ne. view-agree s t es j (w.others j ne);
      untouched = λ j out. w.others j (λ q. out.0 (sym q));
      stored = λ u q. absurd (failed u q);
      returns = w.returns;
    }

    -- The loop goes on.
    Flushed-next :
        (u : Unit {0}) (q : Ret (Unit {0})) (fs : List Entry) (t' : d.State)
        → WroteBack s e (ok u) f t
        → Flushed t es q fs t'
        → Flushed s (e ∷ es) q (f ∷ fs) t'
    Flushed-next u q fs t' w z = record {
      same = (w.same, z.same);
      coherent = (
        record {
          valid = w.good.valid;
          whole = w.good.whole;
          clean = λ c. w.good.clean c ∙ sym (z.untouched f.blocknum out_f);
        },
        Absent-AllSame f.blocknum es fs z.same out_f,
        z.coherent,
        Unused-AllSame f.addr es fs z.same (subst (λ a. Unused a es) (sym w.same.addr) h.3),
      );
      same_view = λ j.
          view-round s t' e f es fs j h.0.valid w.good.valid w.same
            λ ne. z.same_view j ∙ view-agree s t es j (w.others j ne);
      untouched = λ j out. z.untouched j out.1 ∙ w.others j (λ p. out.0 (sym p));
      stored = λ v ok_q j. stored_at j (z.stored v ok_q j);
      returns = z.returns;
    }
      where
        out_f : Absent f.blocknum es
        out_f = subst (λ b. Absent b es) (sym w.same.blocknum) h.1

        stored_at :
            (j : ℕ)
            → law.contents t' j ≡ view d law t es j
            → law.contents t' j ≡ view d law s (e ∷ es) j
        stored_at j p = elim (Bool-cases (e.blocknum == j)) [
          | inl hit ↦
              let here : e.blocknum ≡ j = ground arith in
              p
              ∙ view-Absent d law t es j (subst (λ b. Absent b es) here h.1)
              ∙ ap (λ b. law.contents t b) (sym here)
              ∙ w.stored u refl
              ∙ ground (arith, view-cons d law s e es j h.0.valid)
          | inr miss ↦
              p
              ∙ view-agree s t es j (w.others j (ground arith))
              ∙ ground (arith, view-cons d law s e es j h.0.valid)
        ]

  flush_entries-Flushed :
      (s : d.State) (es : List Entry)
      → IsCoherent d law s es
      → let (r, fs, t) = flush_entries d es s in Flushed s es r fs t
  unfolding flush_entries view find
  flush_entries-Flushed s [] h = record {
    same = tt;
    coherent = tt;
    same_view = λ j. refl;
    untouched = λ j out. refl;
    stored = λ u q j. refl;
    returns = λ q. cc;
  }
  flush_entries-Flushed s (e ∷ es) h =
      step (write_back d e s).0 (write_back d e s).1 (write_back d e s).2
        (write_back-WroteBack s e h.0)
        (flush_entries-Flushed (write_back d e s).2 es (
          IsCoherent-agree d law s (write_back d e s).2 e.blocknum es
            (WroteBack.others (write_back-WroteBack s e h.0)) h.1 h.2))
    where
      step :
          (r : Ret (Unit {0})) (f : Entry) (t : d.State)
          → WroteBack s e r f t
          → (let (q, fs, t') = flush_entries d es t in Flushed t es q fs t')
          → (let (q, fs, t') = flush_entries d es t in
              let (a, b, c) = elim r as (λ x. Ret (Unit {0}) × List Entry × d.State) [
                | ok u ↦ (q, f ∷ fs, t')
                | err x ↦ (err x, f ∷ es, t)
                | crash ↦ (crash, f ∷ es, t)
              ] in
              Flushed s (e ∷ es) a b c)
      step (ok u) f t w z =
          Flushed-next s t e f es h u (flush_entries d es t).0 (flush_entries d es t).1
            (flush_entries d es t).2 w z
      step (err x) f t w z = Flushed-stop s t e f es h (err x) w (λ u q. cc)
      step crash f t w z = absurd (w.returns refl)

  -- What `cache_flush` achieves.
  pub record Clean (c : Cache d.State) (r : Ret (Unit {0})) (c' : Cache d.State) : Type 0 where
    pub inv : IsCache d law c'
    pub same_view : (j : ℕ) → cache_view d law c' j ≡ cache_view d law c j
    pub stored : (u : Unit {0}) → r ≡ ok u → (j : ℕ) → law.contents c'.bdev j ≡ cache_view d law c j
    pub returns : r ≢ crash

  -- Over a lawful device `cache_flush` of a cache in order does not crash, keeps the cache in order
  -- and changes the contents of no block, whether it succeeds or fails; if it succeeds, the device
  -- itself stores the contents of every block.
  pub flush-Clean :
      (c : Cache d.State) → IsCache d law c → let (r, c') = flush d true c in Clean c r c'
  unfolding flush
  flush-Clean c inv =
      let z = flush_entries-Flushed c.bdev c.head inv.coherent in
      record {
        inv = record {
          coherent = z.coherent;
          count = inv.count ∙ sym (length-AllSame c.head (flush_entries d c.head c.bdev).1 z.same);
          room = inv.room;
        };
        same_view = z.same_view;
        stored = z.stored;
        returns = z.returns;
      }
