-- ===== src/Cache/Modify.antt =====
-- A caller's write to a block: `cache_get_block`, a `memcpy` through the pointer, and
-- `cache_release_block` with the dirty flag. It is the pattern of each update in sys/ktfs.c.
use sp25_ece391_group.Base.{
  ℕ, ◌≡◌, ◌≢◌, refl, sym, ◌∙◌, inl, inr, true, false, ◌&&◌, some, List, [], ◌∷◌, ◌==◌,
  if◌then◌else◌, length, arith, Bool-cases,
}
use sp25_ece391_group.Cache.{Entry, blksz, Bdev, Cache, find, mark, release_block}
use sp25_ece391_group.Cache.View.{
  IsBdev, Absent, Unused, view, IsCoherent, IsCache, cache_view, view-cons,
}

-- `memcpy` of a whole block through the pointer `p` that the caller holds.
unfoldable pub poke : ℕ → List ℕ → List Entry → List Entry
poke p bs [] = []
poke p bs (e ∷ es) = if e.addr == p then record e { bytes = bs } ∷ es else e ∷ poke p bs es

-- The write, and the release of the block as dirty.
unfoldable pub put_block : {S : Type 0} → ℕ → List ℕ → Cache S → Cache S
put_block p bs c = release_block true p true (record c { head = poke p bs c.head })

-- The entry at `p` becomes a dirty one that holds `bs`.
replaced : ℕ → List ℕ → List Entry → List Entry
replaced p bs [] = []
replaced p bs (e ∷ es) =
    if e.addr == p then record e { bytes = bs; dirty = true } ∷ es else e ∷ replaced p bs es

pub ne_of_Unused :
    (a b : ℕ) (es : List Entry) (e : Entry) → Unused a es → find b es ≡ some e → e.addr ≢ a
unfolding find
ne_of_Unused a b [] e out q = cc
ne_of_Unused a b (f ∷ es) e out q = elim (Bool-cases (f.valid && (f.blocknum == b))) [
  | inl hit ↦ ground (arith, out.0)
  | inr miss ↦ ne_of_Unused a b es e out.1 (ground arith)
]

module _ (d : Bdev) (law : IsBdev d) where
  mark-poke :
      (s : d.State) (p : ℕ) (bs : List ℕ) (es : List Entry)
      → IsCoherent d law s es
      → mark p true (poke p bs es) ≡ replaced p bs es
  unfolding mark poke replaced
  mark-poke s p bs [] h = refl
  mark-poke s p bs (e ∷ es) h = elim (Bool-cases (e.addr == p)) [
    | inl hit ↦ ground (arith, h.0.valid)
    | inr miss ↦ ground (arith, h.0.valid, mark-poke s p bs es h.2)
  ]

  Absent-replaced :
      (b p : ℕ) (bs : List ℕ) (es : List Entry) → Absent b es → Absent b (replaced p bs es)
  unfolding replaced
  Absent-replaced b p bs [] out = tt
  Absent-replaced b p bs (e ∷ es) out = elim (Bool-cases (e.addr == p)) [
    | inl hit ↦ rw hit out
    | inr miss ↦ rw miss (out.0, Absent-replaced b p bs es out.1)
  ]

  Unused-replaced :
      (a p : ℕ) (bs : List ℕ) (es : List Entry) → Unused a es → Unused a (replaced p bs es)
  unfolding replaced
  Unused-replaced a p bs [] out = tt
  Unused-replaced a p bs (e ∷ es) out = elim (Bool-cases (e.addr == p)) [
    | inl hit ↦ rw hit out
    | inr miss ↦ rw miss (out.0, Unused-replaced a p bs es out.1)
  ]

  length-replaced : (p : ℕ) (bs : List ℕ) (es : List Entry) → length (replaced p bs es) ≡ length es
  unfolding replaced
  length-replaced p bs [] = refl
  length-replaced p bs (e ∷ es) = ground (arith, length-replaced p bs es)

  replaced-IsCoherent :
      (s : d.State) (p : ℕ) (bs : List ℕ) (es : List Entry)
      → length bs ≡ blksz
      → IsCoherent d law s es
      → IsCoherent d law s (replaced p bs es)
  unfolding replaced
  replaced-IsCoherent s p bs [] n h = tt
  replaced-IsCoherent s p bs (e ∷ es) n h = elim (Bool-cases (e.addr == p)) [
    | inl hit ↦ rw hit (record { valid = h.0.valid; whole = n; clean = λ z. cc }, h.1, h.2, h.3)
    | inr miss ↦ rw miss (
      h.0,
      Absent-replaced e.blocknum p bs es h.1,
      replaced-IsCoherent s p bs es n h.2,
      Unused-replaced e.addr p bs es h.3,
    )
  ]

  -- The pointer of block `b` leads to the entry of `b`, and to no other.
  find-replaced :
      (s : d.State) (b : ℕ) (bs : List ℕ) (es : List Entry) (e : Entry) (j : ℕ)
      → IsCoherent d law s es
      → find b es ≡ some e
      → view d law s (replaced e.addr bs es) j ≡ (if b == j then bs else view d law s es j)
  unfolding find replaced
  find-replaced s b bs [] e j h q = cc
  find-replaced s b bs (f ∷ es) e j h q = elim (Bool-cases (f.blocknum == b)) [
    | inl hit ↦
        let same : f ≡ e = ground (arith, h.0.valid) in
        let t : (f.addr == e.addr) ≡ true = ground arith in
        rw t (
          ground (
            arith,
            h.0.valid,
            view-cons d law s (record f { bytes = bs; dirty = true }) es j h.0.valid,
            view-cons d law s f es j h.0.valid,
          ))
    | inr miss ↦
        let rest : find b es ≡ some e = ground (arith, h.0.valid) in
        let ne : e.addr ≢ f.addr = ne_of_Unused f.addr b es e h.3 rest in
        let t : (f.addr == e.addr) ≡ false = ground arith in
        rw t (
          ground (
            arith,
            view-cons d law s f (replaced e.addr bs es) j h.0.valid,
            view-cons d law s f es j h.0.valid,
            find-replaced s b bs es e j h.2 rest,
          ))
  ]

  -- Writing a whole block through the pointer that `cache_get_block` gave for block `b`, and
  -- releasing it as dirty, changes the contents of block `b` to what was written and of no other
  -- block, and keeps the cache in order.
  pub put_block_lem :
      (c : Cache d.State) (b : ℕ) (bs : List ℕ) (e : Entry)
      → IsCache d law c
      → length bs ≡ blksz
      → find b c.head ≡ some e
      → IsCache d law (put_block e.addr bs c)
        × ((j : ℕ)
            → cache_view d law (put_block e.addr bs c) j
              ≡ (if b == j then bs else cache_view d law c j))
  unfolding put_block release_block
  put_block_lem c b bs e inv n q = rw (mark-poke c.bdev e.addr bs c.head inv.coherent) (
    record {
      coherent = replaced-IsCoherent c.bdev e.addr bs c.head n inv.coherent;
      count = inv.count ∙ sym (length-replaced e.addr bs c.head);
      room = inv.room;
    },
    λ j. find-replaced c.bdev b bs c.head e j inv.coherent q,
  )
