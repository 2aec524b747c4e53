-- ===== src/Cache/Evict.antt =====
-- The eviction in `cache_get_block`: what the cache stands for when the victim is gone.
use sp25_ece391_group.Base.{
  ℕ, suc, ◌-◌, ◌*◌, ◌<◌, ◌≡◌, ◌≢◌, refl, sym, ap, subst, ◌∙◌, inl, inr, true, false, List, [], ◌∷◌,
  Ret, ok, err, crash, ◌==◌, leb, length, arith, Bool-cases,
}
use sp25_ece391_group.Cache.{
  Entry, blksz, capacity, Bdev, Cache, find, write_victim, evict_head, evict,
}
use sp25_ece391_group.Cache.View.{
  IsBdev, Absent, Unused, find-Absent, view, IsCoherent, IsCache, IsCoherent-agree, cache_view,
}

module _ (d : Bdev) (law : IsBdev d) where
  view-other :
      (s t : d.State) (v : Entry) (rest : List Entry) (j : ℕ)
      → j ≢ v.blocknum
      → law.contents t j ≡ law.contents s j
      → view d law t rest j ≡ view d law s (v ∷ rest) j
  unfolding view find
  view-other s t v rest j ne same = ground arith

  -- A victim whose block is on the device can go.
  view-drop :
      (s t : d.State) (v : Entry) (rest : List Entry)
      → v.valid ≡ true
      → Absent v.blocknum rest
      → law.contents t v.blocknum ≡ v.bytes
      → ((j : ℕ) → j ≢ v.blocknum → law.contents t j ≡ law.contents s j)
      → (j : ℕ) → view d law t rest j ≡ view d law s (v ∷ rest) j
  unfolding view find
  view-drop s t v rest ok_v out here other j = elim (Bool-cases (v.blocknum == j)) [
    | inl e ↦ ground (arith, find-Absent j rest)
    | inr ne ↦ view-other s t v rest j (ground arith) (other j (ground arith))
  ]

  -- What the eviction of a victim leaves.
  pub record Dropped (s t : d.State) (es rest : List Entry) : Type 0 where
    pub coherent : IsCoherent d law t rest
    pub shrunk : suc (length rest) ≡ length es
    pub same_view : (j : ℕ) → view d law t rest j ≡ view d law s es j

  Dropped-clean :
      (s : d.State) (v : Entry) (rest : List Entry)
      → IsCoherent d law s (v ∷ rest)
      → v.dirty ≡ false
      → Dropped s s (v ∷ rest) rest
  Dropped-clean s v rest h q = record {
    coherent = h.2;
    shrunk = refl;
    same_view = view-drop s s v rest h.0.valid h.1 (sym (h.0.clean q)) (λ j ne. refl);
  }

  Dropped-dirty :
      (s : d.State) (v : Entry) (rest : List Entry) {n : ℕ}
      → IsCoherent d law s (v ∷ rest)
      → (d.writeat s (v.blocknum * blksz) v.bytes).0 ≡ ok n
      → Dropped s (d.writeat s (v.blocknum * blksz) v.bytes).1 (v ∷ rest) rest
  Dropped-dirty s v rest h q = record {
    coherent =
        IsCoherent-agree d law s (d.writeat s (v.blocknum * blksz) v.bytes).1 v.blocknum rest
          (law.write_other s v.blocknum v.bytes) h.1 h.2;
    shrunk = refl;
    same_view =
        view-drop s (d.writeat s (v.blocknum * blksz) v.bytes).1 v rest h.0.valid h.1
          (law.write_same s v.blocknum v.bytes h.0.whole q) (law.write_other s v.blocknum v.bytes);
  }

  -- What an eviction achieves: room for an entry with the view kept; on an error of the device the
  -- cache is still in order, and only the victim's block may have changed. It never crashes.
  abbrev pub Evicted : Cache d.State → Ret (Unit {0}) × Cache d.State → Type 0
  Evicted c (ok u, c') =
      IsCache d law c'
      × (c'.size < capacity)
      × ((j : ℕ) → cache_view d law c' j ≡ cache_view d law c j)
      × ((b : ℕ) → Absent b c.head → Absent b c'.head)
      × ((a : ℕ) → Unused a c.head → Unused a c'.head)
  Evicted c (err x, c') =
      (b : ℕ) × IsCache d law c' × ((j : ℕ) → j ≢ b → cache_view d law c' j ≡ cache_view d law c j)
  Evicted c (crash, c') = ⊥

  rest-IsCache :
      (c : Cache d.State) (v : Entry) (rest : List Entry) (t : d.State)
      → IsCache d law c
      → c.head ≡ v ∷ rest
      → IsCoherent d law t rest
      → IsCache d law (record { head = rest; size = c.size - 1; bdev = t })
        × (c.size - 1 < capacity)
  rest-IsCache c v rest t inv e coherent =
      let n : c.size ≡ suc (length rest) = inv.count ∙ ap length e in
      (
        record { coherent = coherent; count = omega arith; room = omega (arith, inv.room) },
        omega (arith, inv.room),
      )

  Dropped-Evicted :
      (c : Cache d.State) (v : Entry) (rest : List Entry) (t : d.State)
      → IsCache d law c
      → c.head ≡ v ∷ rest
      → Dropped c.bdev t (v ∷ rest) rest
      → Evicted c (ok tt, record { head = rest; size = c.size - 1; bdev = t })
  Dropped-Evicted c v rest t inv e dropped =
      let (kept, room) = rest-IsCache c v rest t inv e dropped.coherent in
      (
        kept,
        room,
        λ j. dropped.same_view j ∙ ap (λ es. view d law c.bdev es j) (sym e),
        λ b out. (subst (Absent b) e out).1,
        λ a out. (subst (Unused a) e out).1,
      )

  write_victim-Evicted :
      (c : Cache d.State) (v : Entry) (rest : List Entry) (r : Ret ℕ × d.State)
      → IsCache d law c
      → c.head ≡ v ∷ rest
      → IsCoherent d law c.bdev (v ∷ rest)
      → d.writeat c.bdev (v.blocknum * blksz) v.bytes ≡ r
      → Evicted c (write_victim (record c { head = rest; size = c.size - 1 }) r)
  unfolding write_victim
  write_victim-Evicted c v rest (ok n, s) inv e h q = Dropped-Evicted c v rest s inv e (
      subst (λ t. Dropped c.bdev t (v ∷ rest) rest) (ap (λ r. r.1) q)
        (Dropped-dirty c.bdev v rest h (ap (λ r. r.0) q)))
  write_victim-Evicted c v rest (err x, s) inv e h q = (
    v.blocknum,
    (rest-IsCache c v rest s inv e
        (IsCoherent-agree d law c.bdev s v.blocknum rest (other s q) h.1 h.2)).0,
    λ j ne.
        view-other c.bdev s v rest j ne (other s q j ne)
        ∙ ap (λ es. view d law c.bdev es j) (sym e),
  )
    where
      other :
          (t : d.State)
          → d.writeat c.bdev (v.blocknum * blksz) v.bytes ≡ (err x, t)
          → (j : ℕ) → j ≢ v.blocknum
          → law.contents t j ≡ law.contents c.bdev j
      other t p j ne =
          ap (λ r. law.contents r.1 j) (sym p) ∙ law.write_other c.bdev v.blocknum v.bytes j ne
  write_victim-Evicted c v rest (crash, s) inv e h q =
      law.write_returns c.bdev (v.blocknum * blksz) v.bytes (ap (λ r. r.0) q)

  -- The eviction of the least recently loaded entry.
  evict_head-Evicted :
      (c : Cache d.State) (es : List Entry)
      → IsCache d law c
      → c.head ≡ es
      → 0 < c.size
      → Evicted c (evict_head d c es)
  unfolding evict_head
  evict_head-Evicted c [] inv e pos =
      let n : c.size ≡ 0 = inv.count ∙ ap length e in absurd (omega arith)
  evict_head-Evicted c (v ∷ rest) inv e pos =
      let h : IsCoherent d law c.bdev (v ∷ rest) = subst (IsCoherent d law c.bdev) e inv.coherent in
      elim (Bool-cases v.dirty) [
        | inl q ↦ rw (h.0.valid, q) (write_victim-Evicted c v rest _ inv e h refl)
        | inr q ↦
            rw (h.0.valid, q)
              (Dropped-Evicted c v rest c.bdev inv e (Dropped-clean c.bdev v rest h q))
      ]

  pub evict-Evicted : (c : Cache d.State) → IsCache d law c → Evicted c (evict d c)
  unfolding evict
  evict-Evicted c inv = elim (Bool-cases (leb capacity c.size)) [
    | inl full ↦ rw full (evict_head-Evicted c c.head inv refl (ground arith))
    | inr space ↦ rw space (inv, ground arith, λ j. refl, λ b out. out, λ a out. out)
  ]
