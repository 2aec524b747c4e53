-- ===== src/Cache/Get.antt =====
-- `cache_get_block`: it returns the entry of the block that is asked for, and is transparent.
use sp25_ece391_group.Base.{
  ℕ, ◌*◌, ◌/◌, ◌%◌, ◌<◌, ◌≡◌, ◌≢◌, refl, sym, ap, subst, ◌∙◌, inl, inr, true, false, ◌&&◌, Option,
  none, some, List, [], ◌∷◌, ◌++◌, Ret, ok, err, crash, ◌==◌, length, arith, Bool-cases,
  length-append,
}
use sp25_ece391_group.Cache.{
  Entry, blksz, capacity, Bdev, Cache, find, append_entry, evict, load_block, load_after,
  get_missing, get_block,
}
use sp25_ece391_group.Cache.View.{
  IsBdev, Absent, Unused, IsFresh, find-Absent, view, IsGood, IsCoherent, IsCache, orelse,
  cache_view, view-Absent,
}
use sp25_ece391_group.Cache.Evict.{Evicted, evict-Evicted}

first : Option Entry → Option Entry → Option Entry
first (some e) o = some e
first none o = o

find-append : (j : ℕ) (es fs : List Entry) → find j (es ++ fs) ≡ first (find j es) (find j fs)
unfolding find first
find-append j [] fs = refl
find-append j (e ∷ es) fs = elim (Bool-cases (e.valid && (e.blocknum == j))) [
  | inl q ↦ rw q refl
  | inr q ↦ rw q (find-append j es fs)
]

Absent-append :
    (j : ℕ) (es : List Entry) (e : Entry) → Absent j es → j ≢ e.blocknum → Absent j (es ++ (e ∷ []))
Absent-append j [] e h ne = (λ q. ne (sym q), tt)
Absent-append j (f ∷ es) e h ne = (h.0, Absent-append j es e h.1 ne)

Unused-append :
    (a : ℕ) (es : List Entry) (e : Entry) → Unused a es → a ≢ e.addr → Unused a (es ++ (e ∷ []))
Unused-append a [] e h ne = (λ q. ne (sym q), tt)
Unused-append a (f ∷ es) e h ne = (h.0, Unused-append a es e h.1 ne)

find-append_new :
    (es : List Entry) (e : Entry)
    → Absent e.blocknum es
    → e.valid ≡ true
    → find e.blocknum (es ++ (e ∷ [])) ≡ some e
unfolding find first
find-append_new es e out v =
    rw (find-append e.blocknum es (e ∷ []), find-Absent e.blocknum es out) (ground arith)

module _ (d : Bdev) (law : IsBdev d) where
  Absent-find :
      (s : d.State) (b : ℕ) (es : List Entry)
      → IsCoherent d law s es
      → find b es ≡ none
      → Absent b es
  unfolding find
  Absent-find s b [] h q = tt
  Absent-find s b (e ∷ es) h q = elim (Bool-cases (e.blocknum == b)) [
    | inl hit ↦ ground (arith, h.0.valid)
    | inr miss ↦ (ground arith, Absent-find s b es h.2 (ground (arith, h.0.valid)))
  ]

  IsCoherent-append :
      (s : d.State) (es : List Entry) (e : Entry)
      → IsCoherent d law s es
      → IsGood d law s e
      → Absent e.blocknum es
      → Unused e.addr es
      → IsCoherent d law s (es ++ (e ∷ []))
  IsCoherent-append s [] e h good out new = (good, tt, tt, tt)
  IsCoherent-append s (f ∷ es) e h good out new = (
    h.0,
    Absent-append f.blocknum es e h.1 out.0,
    IsCoherent-append s es e h.2 good out.1 new.1,
    Unused-append f.addr es e h.3 new.0,
  )

  -- What a search for block `b` achieves: the pointer is that of the entry of `b`, which holds what
  -- the cache stood for at `b`, and no block has changed. On an error at most one block may have.
  abbrev pub Got : Cache d.State → ℕ → Ret ℕ × Cache d.State → Type 0
  Got c b (ok p, c') =
      (e : Entry) × IsCache d law c'
      × ((j : ℕ) → cache_view d law c' j ≡ cache_view d law c j)
      × (find b c'.head ≡ some e)
      × (e.addr ≡ p)
      × (e.bytes ≡ cache_view d law c b)
  Got c b (err x, c') =
      (k : ℕ) × IsCache d law c' × ((j : ℕ) → j ≢ k → cache_view d law c' j ≡ cache_view d law c j)
  Got c b (crash, c') = ⊥

  -- A clean copy of a device block leaves the view as it is.
  view-append :
      (s : d.State) (es : List Entry) (e : Entry)
      → Absent e.blocknum es
      → e.valid ≡ true
      → e.bytes ≡ law.contents s e.blocknum
      → (j : ℕ) → view d law s (es ++ (e ∷ [])) j ≡ view d law s es j
  unfolding view find first
  view-append s es e out v same j =
      rw (find-append j es (e ∷ [])) (elim (Bool-cases (e.blocknum == j)) [
        | inl hit ↦
            let q : find j es ≡ none =
              find-Absent j es (subst (λ b. Absent b es) (ground arith) out) in
            ground arith
        | inr miss ↦ ground arith
      ])

  append_entry-Got :
      (c : Cache d.State) (a b : ℕ) (r : Ret (List ℕ))
      → IsCache d law c
      → c.size < capacity
      → Absent b c.head
      → Unused a c.head
      → d.readat c.bdev (b * blksz) blksz ≡ r
      → Got c b (append_entry c a b r)
  unfolding append_entry
  append_entry-Got c a b (ok bs) inv room out new_at q = elim (Bool-cases (length bs == blksz)) [
    | inl whole ↦
        let new : Entry = record {
          addr = a;
          blocknum = b;
          bytes = bs;
          valid = true;
          dirty = false;
        } in
        let same : bs ≡ law.contents c.bdev b = law.read_whole c.bdev b q in
        rw whole (
          new,
          record {
            coherent =
                IsCoherent-append c.bdev c.head new inv.coherent
                  (record { valid = refl; whole = ground arith; clean = λ z. same }) out new_at;
            count = omega (arith, inv.count, length-append c.head (new ∷ []));
            room = omega arith;
          },
          view-append c.bdev c.head new out refl same,
          find-append_new c.head new out refl,
          refl,
          same ∙ sym (view-Absent d law c.bdev c.head b out),
        )
    | inr part ↦ rw part (0, inv, λ j ne. refl)
  ]
  append_entry-Got c a b (err x) inv room out new_at q = (0, inv, λ j ne. refl)
  append_entry-Got c a b crash inv room out new_at q = law.read_returns c.bdev (b * blksz) blksz q

  load_after-Got :
      (c : Cache d.State) (pos : ℕ) (fresh : Option ℕ) (r : Ret (Unit {0}) × Cache d.State)
      → pos % blksz ≡ 0
      → Absent (pos / blksz) c.head
      → IsFresh fresh c.head
      → Evicted d law c r
      → Got c (pos / blksz) (load_after d pos fresh r)
  unfolding load_after load_block
  load_after-Got c pos none (ok u, c') al out new ev = (0, ev.0, λ j ne. ev.2 j)
  load_after-Got c pos (some a) (ok u, c') al out new ev = Got-trans c c' (pos / blksz) _ ev.2 (
      append_entry-Got c' a (pos / blksz) (d.readat c'.bdev pos blksz) ev.0 ev.1
        (ev.3 (pos / blksz) out) (ev.4 a new) (ap (λ p. d.readat c'.bdev p blksz) (omega arith)))
    where
      Got-trans :
          (c c' : Cache d.State) (b : ℕ) (r : Ret ℕ × Cache d.State)
          → ((j : ℕ) → cache_view d law c' j ≡ cache_view d law c j)
          → Got c' b r
          → Got c b r
      Got-trans c c' b (ok p, c2) same g = (g.0, g.1, (λ j. g.2 j ∙ same j), g.3, g.4, g.5 ∙ same b)
      Got-trans c c' b (err x, c2) same g = (g.0, g.1, λ j ne. g.2 j ne ∙ same j)
      Got-trans c c' b (crash, c2) same g = g
  load_after-Got c pos fresh (err x, c') al out new ev = ev
  load_after-Got c pos fresh (crash, c') al out new ev = ev

  get_missing-Got :
      (c : Cache d.State) (pos : ℕ) (fresh : Option ℕ) (o : Option Entry)
      → IsCache d law c
      → pos % blksz ≡ 0
      → IsFresh fresh c.head
      → find (pos / blksz) c.head ≡ o
      → Got c (pos / blksz) (get_missing d pos fresh c o)
  unfolding get_missing view
  get_missing-Got c pos fresh (some e) inv al new q =
      (e, inv, (λ j. refl), q, refl, sym (ap (λ o. orelse o (law.contents c.bdev (pos / blksz))) q))
  get_missing-Got c pos fresh none inv al new q =
      load_after-Got c pos fresh (evict d c) al
        (Absent-find c.bdev (pos / blksz) c.head inv.coherent q) new (evict-Evicted d law c inv)

  -- For a cache in order over a lawful device, a block-aligned position and an allocator that gives
  -- NULL or an address that no entry has, `cache_get_block` does
  -- not crash. If it succeeds, the pointer is that of the entry of the block asked for, this entry
  -- holds what the cache stood for at that block, and the contents of no block have changed. If it
  -- fails, the contents of all blocks but one are unchanged. In both cases the cache is in order.
  pub get_block-Got :
      (c : Cache d.State) (pos : ℕ) (fresh : Option ℕ)
      → IsCache d law c
      → pos % blksz ≡ 0
      → IsFresh fresh c.head
      → Got c (pos / blksz) (get_block d true pos fresh c)
  unfolding get_block
  get_block-Got c pos fresh inv al new =
      let t : ((pos % blksz) == 0) ≡ true = ground arith in
      rw t (get_missing-Got c pos fresh (find (pos / blksz) c.head) inv al new refl)
